-- ===== src/Rbac/Spared.antt =====
-- Which objects `createSidecarRBAC` writes, whatever their kind, by their names.
use formol.Prelude.{◌≡◌, ◌≢◌, refl, sym, ap, ◌∙◌, String, Bool, true, false, ◌||◌, ◌==◌, arith}
use formol.Api.Meta.{ObjectKey}
use formol.Api.Pod.{PodSpec}
use formol.Api.Objects.{Kind, Object, RoleBinding}
use formol.Client.{Client}
use formol.Client.Store.{
  IsCluster, is_builtin, key_in_kind, at_scope, at_scope-name, Keeps, Keeps-resume, Keeps-bind,
  create-Keeps, update-Keeps,
}
use formol.Outcome.{
  Result, ok, err, panic, not_found, failed, Action, read, attempt, caught, resume, ◌>>◌,
}
use formol.Rbac.{ensure, create_missing, bind_sidecar, account_of, create_sidecar_rbac, key_in}
use formol.Rbac.Defs.{
  sidecar_role_name, sidecar_rolebinding_name, sidecar_clusterrole_name,
  sidecar_clusterrolebinding_name, sidecar_role, sidecar_clusterrole, cluster_binding,
}

-- The names that `createSidecarRBAC` writes to.
abbrev pub is_sidecar_name : String → Bool
is_sidecar_name name =
    (name == sidecar_role_name)
    || (name == sidecar_rolebinding_name)
    || (name == sidecar_clusterrole_name)
    || (name == sidecar_clusterrolebinding_name)

module _ (C : Client) (L : IsCluster C) (l : Kind) (key : ObjectKey)
    (other : is_sidecar_name key.name ≡ false) where
  not_it : (k : Kind) (key' : ObjectKey) → is_sidecar_name key'.name ≡ true → at_scope k key ≢ key'
  not_it k key' h e =
      let f : is_sidecar_name key.name ≡ is_sidecar_name key'.name =
        ap is_sidecar_name (sym (at_scope-name k key))
        ∙ ap (λ (j : ObjectKey). is_sidecar_name j.name) e in
      ground (arith, f)

  missing-Keeps :
      (create : Action C.World (Unit {0})) {A : Type 0} (r : Result A)
      → Keeps C l key create
      → Keeps C l key (create_missing C create r)
  missing-Keeps create (ok a) h w = refl
  missing-Keeps create (err not_found) h w = h w
  missing-Keeps create (err (failed s)) h w = refl
  missing-Keeps create panic h w = refl

  ensure-Keeps :
      (k : Kind)
      → is_builtin k ≡ true
      → (key' : ObjectKey) (o : Object k) → is_sidecar_name (key_in_kind k o).name ≡ true
      → Keeps C l key (ensure C k key' o)
  ensure-Keeps k b key' o named =
      Keeps-bind C l key (attempt (read (C.get k key'))) (create_missing C (C.create k o))
        (λ w. refl)
        (λ r.
          missing-Keeps (C.create k o) r
            (create-Keeps C k (L.stores k b) l o key (not_it k (key_in_kind k o) named)))

  -- The binding that is updated is the one that was read.
  bind-Keeps :
      (namespace sa : String) (r : Result RoleBinding) (w : C.World)
      → C.get Kind.role_binding (key_in namespace sidecar_rolebinding_name) w ≡ r
      → C.get l key (bind_sidecar C namespace sa r w).1 ≡ C.get l key w
  bind-Keeps namespace sa (ok b) w e =
      let S = L.stores Kind.role_binding refl in
      let own = S.get-key (key_in namespace sidecar_rolebinding_name) w b e in
      update-Keeps C Kind.role_binding S l _ key
        (λ same.
          not_it Kind.role_binding (key_in namespace sidecar_rolebinding_name) refl (same ∙ own))
        w
  bind-Keeps namespace sa (err not_found) w e =
      create-Keeps C Kind.role_binding (L.stores Kind.role_binding refl) l _ key
        (not_it Kind.role_binding (key_in namespace sidecar_rolebinding_name) refl) w
  bind-Keeps namespace sa (err (failed s)) w e = refl
  bind-Keeps namespace sa panic w e = refl

  next :
      (namespace sa : String) (last : Action C.World (Unit {0}))
      → Keeps C l key last
      → (r : Result RoleBinding) (w : C.World)
      → C.get Kind.role_binding (key_in namespace sidecar_rolebinding_name) w ≡ r
      → C.get l key ((bind_sidecar C namespace sa r >> last) w).1 ≡ C.get l key w
  next namespace sa last h r w e =
      Keeps-resume C l (λ _. last) (bind_sidecar C namespace sa r w).0 key
        (bind_sidecar C namespace sa r w).1 (λ _. h)
      ∙ bind-Keeps namespace sa r w e

  bound-Keeps :
      (namespace sa : String) (last : Action C.World (Unit {0}))
      → Keeps C l key last
      → (r : Result RoleBinding) (w : C.World)
      → C.get Kind.role_binding (key_in namespace sidecar_rolebinding_name) w ≡ r
      → C.get l key (resume (λ found. bind_sidecar C namespace sa found >> last) (caught r) w).1
        ≡ C.get l key w
  bound-Keeps namespace sa last h panic w e = refl
  bound-Keeps namespace sa last h (ok b) w e = next namespace sa last h (ok b) w e
  bound-Keeps namespace sa last h (err f) w e = next namespace sa last h (err f) w e

  -- An object of another name, of whatever kind, is left as it is.
  pub create_sidecar_rbac-Keeps :
      (namespace : String) (pod : PodSpec) → Keeps C l key (create_sidecar_rbac C namespace pod)
  unfolding create_sidecar_rbac
  create_sidecar_rbac-Keeps namespace pod =
      let sa = account_of C pod in
      let cluster_key = key_in namespace sidecar_clusterrolebinding_name in
      let bind = ensure C Kind.cluster_role_binding cluster_key (cluster_binding namespace sa) in
      let role_key = key_in "" sidecar_clusterrole_name in
      let last = ensure C Kind.cluster_role role_key sidecar_clusterrole >> bind in
      let found_key = key_in namespace sidecar_rolebinding_name in
      Keeps-bind C l key
        (ensure C Kind.role (key_in namespace sidecar_role_name) (sidecar_role namespace)) _
        (ensure-Keeps Kind.role refl (key_in namespace sidecar_role_name) (sidecar_role namespace)
          refl)
        (λ _ w.
          bound-Keeps namespace sa last
            (Keeps-bind C l key (ensure C Kind.cluster_role role_key sidecar_clusterrole)
              (λ _. bind) (ensure-Keeps Kind.cluster_role refl role_key sidecar_clusterrole refl)
              (λ _.
                ensure-Keeps Kind.cluster_role_binding refl cluster_key
                  (cluster_binding namespace sa) refl))
            (C.get Kind.role_binding found_key w) w refl)
