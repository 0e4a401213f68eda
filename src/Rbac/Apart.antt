-- ===== src/Rbac/Apart.antt =====
-- The objects of other kinds while RBAC objects are created.
use formol.Prelude.{◌≡◌, ◌≢◌, refl, ap, String, Bool, true, false, arith}
use formol.Api.Meta.{ObjectKey, named}
use formol.Api.Pod.{PodSpec}
use formol.Api.Objects.{Kind, Object, RoleBinding}
use formol.Client.{Client}
use formol.Client.Store.{IsCluster, is_builtin, Leaves, Leaves-bind}
use formol.Outcome.{Result, ok, err, panic, not_found, failed, Action, read, attempt, ◌>>◌}
use formol.Rbac.{
  ensure, bind_sidecar, account_of, create_bs_creator_rbac, create_sidecar_rbac, key_in,
}
use formol.CronJobs.{bs_creator_sa}
use formol.Rbac.Defs.{
  bs_creator_role_name, bs_creator_rolebinding_name, sidecar_role_name, sidecar_rolebinding_name,
  sidecar_clusterrole_name, sidecar_clusterrolebinding_name, bs_creator_role, sidecar_role,
  sidecar_clusterrole, account_binding, cluster_binding,
}
use formol.Rbac.Created.{ensure-Leaves}

abbrev pub is_rbac : Kind → Bool
is_rbac Kind.service_account = true
is_rbac Kind.role = true
is_rbac Kind.role_binding = true
is_rbac Kind.cluster_role = true
is_rbac Kind.cluster_role_binding = true
is_rbac _ = false

pub apart : (k l : Kind) → is_rbac k ≡ true → is_rbac l ≡ false → k ≢ l
apart k l a b e = let f : is_rbac k ≡ is_rbac l = ap is_rbac e in ground (arith, f)

module _ (C : Client) (L : IsCluster C) (l : Kind) (n : Kind.role_binding ≢ l) where
  pub bind_sidecar-Leaves :
      (namespace sa : String) (r : Result RoleBinding) → Leaves C l (bind_sidecar C namespace sa r)
  bind_sidecar-Leaves namespace sa (ok b) key w =
      (L.stores Kind.role_binding refl).get-update_other l _ key w n
  bind_sidecar-Leaves namespace sa (err not_found) key w =
      (L.stores Kind.role_binding refl).get-create_other l _ key w n
  bind_sidecar-Leaves namespace sa (err (failed s)) key w = refl
  bind_sidecar-Leaves namespace sa panic key w = refl

module _ (C : Client) (L : IsCluster C) (l : Kind) (other : is_rbac l ≡ false) where
  ensured :
      (k : Kind)
      → is_rbac k ≡ true
      → is_builtin k ≡ true
      → (key : ObjectKey) (o : Object k) (m : Action C.World (Unit {0})) → Leaves C l m
      → Leaves C l (ensure C k key o >> m)
  ensured k r b key o m h =
      Leaves-bind C l (ensure C k key o) (λ _. m)
        (ensure-Leaves C k l (L.stores k b) key o (apart k l r other)) (λ _. h)

  pub create_bs_creator_rbac-Leaves :
      (namespace : String) → Leaves C l (create_bs_creator_rbac C namespace)
  unfolding create_bs_creator_rbac
  create_bs_creator_rbac-Leaves namespace =
      let binding =
        account_binding namespace bs_creator_rolebinding_name bs_creator_sa bs_creator_role_name in
      let binding_key = key_in namespace bs_creator_rolebinding_name in
      let bind = ensure C Kind.role_binding binding_key binding in
      ensured Kind.service_account refl refl (key_in namespace bs_creator_sa)
        (record { metadata = named namespace bs_creator_sa }) _
        (ensured Kind.role refl refl (key_in namespace bs_creator_role_name)
          (bs_creator_role namespace) bind
          (ensure-Leaves C Kind.role_binding l (L.stores Kind.role_binding refl) binding_key binding
            (apart Kind.role_binding l refl other)))

  pub create_sidecar_rbac-Leaves :
      (namespace : String) (pod : PodSpec) → Leaves C l (create_sidecar_rbac C namespace pod)
  unfolding create_sidecar_rbac
  create_sidecar_rbac-Leaves namespace pod =
      let sa = account_of C pod in
      let cluster_key = key_in namespace sidecar_clusterrolebinding_name in
      let bind = ensure C Kind.cluster_role_binding cluster_key (cluster_binding namespace sa) in
      let role_key = key_in "" sidecar_clusterrole_name in
      let last = ensure C Kind.cluster_role role_key sidecar_clusterrole >> bind in
      let found_key = key_in namespace sidecar_rolebinding_name in
      let look = attempt (read (C.get Kind.role_binding found_key)) in
      ensured Kind.role refl refl (key_in namespace sidecar_role_name) (sidecar_role namespace) _ (
        Leaves-bind C l look (λ found. bind_sidecar C namespace sa found >> last) (λ key w. refl)
          (λ found.
            Leaves-bind C l (bind_sidecar C namespace sa found) (λ _. last)
              (bind_sidecar-Leaves C L l (apart Kind.role_binding l refl other) namespace sa found)
              (λ _. ensured Kind.cluster_role refl refl role_key sidecar_clusterrole bind (
                ensure-Leaves C Kind.cluster_role_binding l
                  (L.stores Kind.cluster_role_binding refl) cluster_key
                  (cluster_binding namespace sa) (apart Kind.cluster_role_binding l refl other)))))
