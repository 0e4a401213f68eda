-- ===== src/Rbac.antt =====
-- The service account, the roles and the bindings of a namespace with a backup configuration:
-- createBSCreatorRBAC, createSidecarRBAC and deleteRBAC of
-- controllers/backupconfiguration_controller_helpers.go.
pub mod Defs
pub mod Laws
pub mod Created
pub mod Apart
pub mod Spared
pub mod Ensured
pub mod Bound
pub mod Removal
pub mod Removed
use formol.Prelude.{String, Bool, none, List, [], ◌∷◌, ◌==◌, snoc, if◌then◌else◌}
use formol.Api.Meta.{ObjectKey, ObjectMeta, named}
use formol.Api.Pod.{PodSpec}
use formol.Api.Objects.{Kind, Object, Role, RoleBinding}
use formol.Client.{Client}
use formol.Outcome.{
  Result, ok, err, panic, is_not_found, Action, return, throw, read, lift, resume, ◌>>=◌, ◌>>◌,
  attempt, caught, ignore,
}
use formol.CronJobs.{bs_creator_sa}
use formol.Rbac.Defs.{
  bs_creator_role_name, bs_creator_rolebinding_name, sidecar_role_name, sidecar_rolebinding_name,
  sidecar_clusterrole_name, sidecar_clusterrolebinding_name, bs_creator_role, sidecar_role,
  sidecar_clusterrole, account, account_binding, cluster_binding,
}

abbrev pub key_in : String → String → ObjectKey
key_in namespace name = record { namespace = namespace; name = name }

module _ (C : Client) where
  -- `if err := r.Get(...); errors.IsNotFound(err) { ... r.Create(...) }`: other errors are passed over.
  abbrev pub create_missing :
      {A : Type 0} → Action C.World (Unit {0}) → Result A → Action C.World (Unit {0})
  create_missing create (ok a) = return tt
  create_missing create (err e) = if is_not_found e then create else return tt
  create_missing create panic = lift panic

  abbrev pub ensure : (k : Kind) → ObjectKey → Object k → Action C.World (Unit {0})
  ensure k key o = do found ← attempt (read (C.get k key)); create_missing (C.create k o) found

  -- `if err := r.Get(...); err == nil { r.Delete(...) }`, with the errors logged only.
  abbrev pub remove : (k : Kind) → ObjectKey → Action C.World (Unit {0})
  remove k key = ignore (do o ← read (C.get k key); C.delete k o)

  -- `deleteRBAC`, in the namespace of the request.
  unfoldable pub delete_rbac : String → Action C.World (Unit {0})
  delete_rbac namespace = do
    remove Kind.role_binding (key_in namespace bs_creator_rolebinding_name)
    remove Kind.role_binding (key_in namespace sidecar_rolebinding_name)
    remove Kind.role (key_in namespace bs_creator_role_name)
    remove Kind.role (key_in namespace sidecar_role_name)
    remove Kind.service_account (key_in namespace bs_creator_sa)
    remove Kind.cluster_role_binding (key_in namespace sidecar_clusterrolebinding_name)
    remove Kind.cluster_role (key_in namespace sidecar_clusterrole_name)

  -- `createBSCreatorRBAC`
  unfoldable pub create_bs_creator_rbac : String → Action C.World (Unit {0})
  create_bs_creator_rbac namespace = do
    ensure Kind.service_account (key_in namespace bs_creator_sa)
        (record { metadata = named namespace bs_creator_sa })
    ensure Kind.role (key_in namespace bs_creator_role_name) (bs_creator_role namespace)
    ensure Kind.role_binding (key_in namespace bs_creator_rolebinding_name)
        (account_binding namespace bs_creator_rolebinding_name bs_creator_sa bs_creator_role_name)

  -- The role binding of the sidecars gets one subject more, or is created with one.
  abbrev pub bind_sidecar : String → String → Result RoleBinding → Action C.World (Unit {0})
  bind_sidecar namespace sa (ok b) =
      C.update Kind.role_binding (record b { subjects = snoc b.subjects (account sa "") })
  bind_sidecar namespace sa (err e) =
      if is_not_found e
      then C.create Kind.role_binding
          (account_binding namespace sidecar_rolebinding_name sa sidecar_role_name)
      else throw e
  bind_sidecar namespace sa panic = lift panic

  abbrev pub account_of : PodSpec → String
  account_of pod = if pod.service_account_name == "" then "default" else pod.service_account_name

  -- `createSidecarRBAC`
  unfoldable pub create_sidecar_rbac : String → PodSpec → Action C.World (Unit {0})
  create_sidecar_rbac namespace pod = do
    ensure Kind.role (key_in namespace sidecar_role_name) (sidecar_role namespace)
    found ← attempt (read (C.get Kind.role_binding (key_in namespace sidecar_rolebinding_name)))
    bind_sidecar namespace (account_of pod) found
    ensure Kind.cluster_role (key_in "" sidecar_clusterrole_name) sidecar_clusterrole
    ensure Kind.cluster_role_binding (key_in namespace sidecar_clusterrolebinding_name)
        (cluster_binding namespace (account_of pod))
