-- ===== src/Configuration/Keeps.antt =====
-- What the loop over the targets leaves as it is: the objects that are no workloads, where the RBAC
-- objects of the sidecars are others.
use formol.Prelude.{
  ◌≢◌, refl, String, Option, none, some, List, [], ◌∷◌, ◌==◌, true, Bool-cases, inl, inr,
}
use formol.Api.Meta.{ObjectKey}
use formol.Api.Pod.{PodSpec}
use formol.Api.Config.{Target, BackupConfiguration}
use formol.Api.Objects.{Kind, Repo, Workload}
use formol.Client.{Client}
use formol.Client.Store.{IsCluster, Keeps, Keeps-bind}
use formol.Outcome.{panic, read, lift, ◌>>=◌}
use formol.Sidecar.{
  WorkloadKind, deployment, stateful_set, get_target_objects, attach, sidecar_image,
}
use formol.Sidecar.Mounts.{PathOps}
use formol.Rbac.{create_sidecar_rbac}
use formol.Configuration.{
  repo_key, target_key, get_workload, update_workload, attach_sidecar, add_sidecar, add_sidecars,
}

module _ (C : Client) (L : IsCluster C) (P : PathOps) (l : Kind) (key : ObjectKey)
    (no_deployment : Kind.deployment ≢ l) (no_stateful_set : Kind.stateful_set ≢ l)
    (rbac : (namespace : String) (pod : PodSpec)
      → Keeps C l key (create_sidecar_rbac C namespace pod)) where
  get_workload-Keeps :
      (m : Option WorkloadKind) (key' : ObjectKey) → Keeps C l key (get_workload C m key')
  get_workload-Keeps (some deployment) key' w = refl
  get_workload-Keeps (some stateful_set) key' w = refl
  get_workload-Keeps none key' w =
      Keeps-bind C l key (read (C.get_nil key')) (λ _. lift panic) (λ w'. refl) (λ _ w'. refl) w

  update_workload-Keeps :
      (m : Option WorkloadKind) (o : Workload) → Keeps C l key (update_workload C m o)
  update_workload-Keeps (some deployment) o w =
      (L.stores Kind.deployment refl).get-update_other l o key w no_deployment
  update_workload-Keeps (some stateful_set) o w =
      (L.stores Kind.stateful_set refl).get-update_other l o key w no_stateful_set
  update_workload-Keeps none o w = refl

  module _ (namespace : String) where
    attach_sidecar-Keeps :
        (conf : BackupConfiguration) (target : Target) (repo : Repo) (o : Workload)
        (image : Option String)
        → Keeps C l key (attach_sidecar C P namespace conf target repo o image)
    attach_sidecar-Keeps conf target repo o none w =
        Keeps-bind C l key (create_sidecar_rbac C namespace o.pod_spec)
          (λ _.
            update_workload C (get_target_objects target.target_kind)
              (record o { pod_spec = attach P conf target repo o.pod_spec }))
          (rbac namespace o.pod_spec)
          (λ _. update_workload-Keeps (get_target_objects target.target_kind) _) w
    attach_sidecar-Keeps conf target repo o (some image) w =
        elim (Bool-cases (image == conf.spec.image)) [
          | inl h ↦ rw h refl
          | inr h ↦ rw h (update_workload-Keeps (get_target_objects target.target_kind) _ w)
        ]

    pub add_sidecar-Keeps :
        (conf : BackupConfiguration) (target : Target)
        → Keeps C l key (add_sidecar C P namespace conf target)
    unfolding add_sidecar
    add_sidecar-Keeps conf target =
        let kind = get_target_objects target.target_kind in
        let attach_it = λ (repo : Repo) (o : Workload).
          attach_sidecar C P namespace conf target repo o (sidecar_image o.pod_spec.containers) in
        Keeps-bind C l key (read (C.get Kind.repo (repo_key conf)))
          (λ repo. get_workload C kind (target_key conf target) >>= attach_it repo) (λ v. refl)
          (λ repo.
            Keeps-bind C l key (get_workload C kind (target_key conf target)) (attach_it repo)
              (get_workload-Keeps kind (target_key conf target))
              (λ o. attach_sidecar-Keeps conf target repo o (sidecar_image o.pod_spec.containers)))

    pub add_sidecars-Keeps :
        (conf : BackupConfiguration) (targets : List Target)
        → Keeps C l key (add_sidecars C P namespace conf targets)
    unfolding add_sidecars
    add_sidecars-Keeps conf [] w = refl
    add_sidecars-Keeps conf (target ∷ rest) w =
        let more : BackupConfiguration = record conf {
          status = record conf.status { active_sidecar = true };
        } in
        Keeps-bind C l key (add_sidecar C P namespace conf target)
          (λ _. add_sidecars C P namespace more rest) (add_sidecar-Keeps conf target)
          (λ _. add_sidecars-Keeps more rest) w
