-- ===== src/Rbac/Bound.antt =====
-- The RBAC objects of a namespace after `createSidecarRBAC` has succeeded.
use formol.Prelude.{◌≡◌, String, List}
use mathlib.Core.List.{Memᴰ}
use formol.Api.Objects.{Kind, RoleBinding}
use formol.Client.{Client}
use formol.Client.Store.{IsStore}
use formol.Outcome.{ok}
use formol.Rbac.{key_in}
use formol.Rbac.Defs.{sidecar_rolebinding_name, account}
use formol.Rbac.Ensured.{Ensured}

module _ (C : Client) (S : IsStore C Kind.role_binding) (namespace sa : String) where
  -- The role binding of the sidecars has the service account among its subjects.
  abbrev pub IsBound : C.World → Type 0
  IsBound w =
      (b : RoleBinding) × (C.get Kind.role_binding (key_in namespace sidecar_rolebinding_name) w
        ≡ ok b)
      × Memᴰ (account sa "") b.subjects
