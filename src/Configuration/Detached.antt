-- ===== src/Configuration/Detached.antt =====
-- The targets of a configuration that is being deleted.
use formol.Prelude.{
  ◌≡◌, ◌≢◌, refl, sym, ap, ◌∙◌, String, true, false, Option, none, some, List, [], ◌∷◌, All, arith,
}
use mathlib.Core.Path.{subst}
use formol.Api.Meta.{ObjectKey}
use formol.Api.Config.{Target, BackupConfiguration}
use formol.Api.Objects.{Kind, Workload}
use formol.Client.{Client}
use formol.Client.Store.{IsCluster, is_builtin, Leaves, Leaves-bind}
use formol.Outcome.{ok, read, ignore, ◌>>◌, ◌>>=◌}
use formol.Outcome.Laws.{bound}
use formol.Sidecar.{WorkloadKind, get_target_objects}
use formol.Sidecar.Mounts.{PathOps}
use formol.Sidecar.Removal.{detach}
use formol.Sidecar.Cleaned.{IsClean, detach-IsClean}
use formol.CronJobs.{cron_job_key, delete_cron_job}
use formol.Rbac.{delete_rbac}
use formol.Rbac.Apart.{is_rbac}
use formol.Rbac.Removal.{reference, ignored_state, ignored-Keeps, remove-Leaves, delete_rbac-Leaves}
use formol.BackupSession.{ReconcileResult}
use formol.Configuration.{
  repo_key, target_key, get_workload, update_workload, detach_target, detach_targets,
  delete_sidecar, is_deleted, is_finalized, unfinalized, reconcile_conf,
}
use formol.Configuration.Sidecars.{Has, KeepsAll, Leaves-KeepsAll, elsewhere}
use formol.Configuration.RoundTrip.{got, written}
use formol.Configuration.Removed.{reconcile_conf-deletion}

module _ (C : Client) (L : IsCluster C) where
  -- The object of a target of the configuration is clean.
  abbrev pub TargetIsClean : BackupConfiguration → C.World → Target → Type 0
  TargetIsClean conf w target =
      (k : WorkloadKind) × (get_target_objects target.target_kind ≡ some k)
      × Has C IsClean k (target_key conf target) w

  kept-TargetIsClean :
      (conf : BackupConfiguration) (targets : List Target) (w w' : C.World)
      → KeepsAll C IsClean w w'
      → All (TargetIsClean conf w) targets
      → All (TargetIsClean conf w') targets
  kept-TargetIsClean conf [] w w' keeps h = tt
  kept-TargetIsClean conf (target ∷ rest) w w' keeps ((k, known, has), h) =
      ((k, known, keeps k (target_key conf target) has), kept-TargetIsClean conf rest w w' keeps h)

  detached :
      (conf : BackupConfiguration) (target : Target) (m : Option WorkloadKind) (w w' : C.World)
      → get_target_objects target.target_kind ≡ m
      → (get_workload C m (target_key conf target)
            >>= (λ o. update_workload C m (record o { pod_spec = detach target o.pod_spec })))
          w
        ≡ (ok tt, w')
      → TargetIsClean conf w' target × KeepsAll C IsClean w w'
  detached conf target none w w' e h =
      let (o, found, h1) = bound (get_workload C none (target_key conf target)) _ w tt w' h in
      absurd (ground arith)
  detached conf target (some k) w w' known h =
      let key = target_key conf target in
      let (o, found, h1) = bound (get_workload C (some k) key) _ w tt w' h in
      let reads = got C k key w in
      let new : Workload = record o { pod_spec = detach target o.pod_spec } in
      let run : update_workload C (some k) new w ≡ (ok tt, w') = rw reads at h1 in
      let there =
        written C (L.stores Kind.deployment refl) (L.stores Kind.stateful_set refl) k key o new w w
          w' (sym (ap (λ p. p.0) reads) ∙ found) refl run in
      let clean = detach-IsClean target o in
      (
        (k, known, (new, there, clean)),
        λ k' key' has. elsewhere C L IsClean k k' new key' w w' run clean has,
      )

  detach_targets-Clean :
      (conf : BackupConfiguration) (targets : List Target) (w w' : C.World)
      → detach_targets C conf targets w ≡ (ok tt, w')
      → All (TargetIsClean conf w') targets × KeepsAll C IsClean w w'
  unfolding detach_targets
  detach_targets-Clean conf [] w w' h =
      (tt, subst (KeepsAll C IsClean w) (ap (λ p. p.1) h) (λ k key has. has))
  detach_targets-Clean conf (target ∷ rest) w w' h =
      let w1 = (detach_target C conf target w).1 in
      let (u, e, h1) =
        bound (detach_target C conf target) (λ _. detach_targets C conf rest) w tt w' h in
      let ((k, known, has), keeps) =
        detached conf target (get_target_objects target.target_kind) w w1 refl
          (ap (λ r. (r, w1)) e) in
      let (others, keeps_on) = detach_targets-Clean conf rest w1 w' h1 in
      (
        ((k, known, keeps_on k (target_key conf target) has), others),
        λ k' key' has'. keeps_on k' key' (keeps k' key' has'),
      )

  delete_sidecar-Clean :
      (conf : BackupConfiguration) (w : C.World)
      → (delete_sidecar C conf w).0 ≡ ok tt
      → All (TargetIsClean conf (delete_sidecar C conf w).1) conf.spec.targets
  unfolding delete_sidecar
  delete_sidecar-Clean conf w h =
      let w1 = (delete_sidecar C conf w).1 in
      let (repo, e, h1) =
        bound (read (C.get Kind.repo (repo_key conf)))
          (λ _. detach_targets C conf conf.spec.targets) w tt w1 (ap (λ r. (r, w1)) h) in
      (detach_targets-Clean conf conf.spec.targets w w1 h1).0

  -- What follows the removal of the sidecars leaves the workloads.
  rest-Leaves :
      (namespace : String) (conf last : BackupConfiguration) (l : Kind)
      → is_builtin l ≡ true
      → is_rbac l ≡ false
      → Kind.cron_job ≢ l
      → Leaves C l (
          ignore (delete_cron_job C conf)
          >> (ignore (delete_rbac C namespace) >> C.update Kind.backup_configuration last))
  unfolding delete_cron_job
  rest-Leaves namespace conf last l b r n =
      Leaves-bind C l (ignore (delete_cron_job C conf)) _
        (remove-Leaves C l (reference Kind.cron_job (cron_job_key conf))
          (L.stores Kind.cron_job refl, n))
        (λ _.
          Leaves-bind C l (ignore (delete_rbac C namespace)) _
            (λ key w.
              ignored-Keeps (delete_rbac C namespace) (C.get l key) w
                (delete_rbac-Leaves C l L r namespace key w))
            (λ _ key w. L.get-update_conf last l key w b))

  -- In a cluster in which nobody else writes, let a configuration be deleted, have its finalizer, and
  -- let the removal of the sidecars return no error. A run that returns a value leaves the object of
  -- every target, a Deployment or a StatefulSet, in the cluster without a container of the sidecar's
  -- name, without a mount of the shared volume and without the volumes of formol, also where several
  -- targets name one object.
  pub reconcile_conf-Clean :
      (P : PathOps) (req : ObjectKey) (conf : BackupConfiguration) (r : ReconcileResult)
      (w w' : C.World)
      → C.get Kind.backup_configuration req w ≡ ok conf
      → is_deleted C conf ≡ true
      → is_finalized C conf ≡ true
      → (delete_sidecar C conf w).0 ≡ ok tt
      → reconcile_conf C P req w ≡ (ok r, w')
      → All (TargetIsClean conf w') conf.spec.targets
  reconcile_conf-Clean P req conf r w w' found d f removed h =
      let (w1, w2, w3, e1, e2, e3, e4) = reconcile_conf-deletion C P req conf r w w' found d f h in
      let start : (delete_sidecar C conf w).1 ≡ w1 =
        sym (ignored_state (delete_sidecar C conf) w) ∙ ap (λ p. p.1) e1 in
      let rest =
        ignore (delete_cron_job C conf)
        >> (ignore (delete_rbac C req.namespace)
            >> C.update Kind.backup_configuration (unfinalized C conf)) in
      let run : rest w1 ≡ (ok tt, w') = rw (e2, e3) e4 in
      let leaves = rest-Leaves req.namespace conf (unfinalized C conf) in
      let keeps : KeepsAll C IsClean w1 w' = subst (KeepsAll C IsClean w1) (ap (λ p. p.1) run) (
        Leaves-KeepsAll C IsClean rest w1 (leaves Kind.deployment refl refl (λ e. ground arith))
          (leaves Kind.stateful_set refl refl (λ e. ground arith))) in
      kept-TargetIsClean conf conf.spec.targets w1 w' keeps (
        subst (λ v. All (TargetIsClean conf v) conf.spec.targets) start
          (delete_sidecar-Clean conf w removed))
