-- ===== src/Configuration/Ready.antt =====
-- What a run of the reconciler of backup configurations leaves in the cluster.
use formol.Prelude.{◌≡◌, refl, sym, ap, ◌∙◌, Bool, true, false, some, All, arith}
use mathlib.Core.Path.{subst}
use formol.Api.Meta.{ObjectKey}
use formol.Api.Config.{BackupConfiguration}
use formol.Api.Objects.{Kind, CronJob}
use formol.Client.{Client}
use formol.Client.Store.{IsCluster, Leaves}
use formol.Outcome.{ok, Action}
use formol.Sidecar.Mounts.{PathOps}
use formol.CronJobs.{cron_job_key}
use formol.CronJobs.Stored.{add_cron_job-Stored}
use formol.Rbac.{create_bs_creator_rbac}
use formol.Rbac.Apart.{create_sidecar_rbac-Leaves, create_bs_creator_rbac-Leaves}
use formol.BackupSession.{ReconcileResult}
use formol.Configuration.{add_sidecars, is_deleted, is_finalized, reconcile_conf}
use formol.Configuration.Keeps.{add_sidecars-Keeps}
use formol.Configuration.Laws.{reconcile_conf-parts}
use formol.Configuration.Sidecars.{KeepsSidecars, WithImage, Leaves-KeepsAll}
use formol.Configuration.Attached.{TargetHasSidecar, kept-TargetHasSidecar, add_sidecars-Attached}

module _ (C : Client) (L : IsCluster C) (P : PathOps) where
  -- The cron job of the configuration, with its schedule and its suspension.
  abbrev pub HasCronJob : BackupConfiguration → C.World → Type 0
  HasCronJob conf w =
      (job : CronJob) × (C.get Kind.cron_job (cron_job_key conf) w ≡ ok job)
      × (job.schedule ≡ conf.spec.schedule)
      × (job.suspend ≡ conf.spec.suspend)

  kept-HasCronJob :
      {A : Type 0} (conf : BackupConfiguration) (m : Action C.World A) (w w' : C.World) (a : A)
      → m w ≡ (ok a, w')
      → Leaves C Kind.cron_job m
      → HasCronJob conf w
      → HasCronJob conf w'
  kept-HasCronJob conf m w w' a h leaves (job, e, s, t) =
      subst (HasCronJob conf) (ap (λ p. p.1) h) (job, leaves (cron_job_key conf) w ∙ e, s, t)

  -- In a cluster in which nobody else writes, a run that returns a value, for a configuration that is
  -- not being deleted, has its finalizer and says whether it is suspended, leaves the cron job of the
  -- configuration, with its schedule and its suspension, and in the object of every target, a
  -- Deployment or a StatefulSet, the sidecar with the image of the configuration.
  pub reconcile_conf-Ready :
      (req : ObjectKey) (conf : BackupConfiguration) (b : Bool) (r : ReconcileResult)
      (w w' : C.World)
      → C.get Kind.backup_configuration req w ≡ ok conf
      → is_deleted C conf ≡ false
      → is_finalized C conf ≡ true
      → conf.spec.suspend ≡ some b
      → reconcile_conf C P req w ≡ (ok r, w')
      → HasCronJob conf w'
        × All (TargetHasSidecar C L P req.namespace conf.spec.image conf w') conf.spec.targets
  reconcile_conf-Ready req conf b r w w' found d f suspended h =
      let (w1, w2, w3, active, e1, e2, e3, e4) =
        reconcile_conf-parts C P req conf r w w' found d f h in
      let (job, there, schedule, suspend) =
        add_cron_job-Stored C (L.stores Kind.cron_job refl) L.owner conf b suspended w w1 e1 in
      let has1 : HasCronJob conf w1 = (job, there, schedule, suspend ∙ sym suspended) in
      let has2 =
        kept-HasCronJob conf (create_bs_creator_rbac C req.namespace) w1 w2 tt e2
          (create_bs_creator_rbac-Leaves C L Kind.cron_job refl req.namespace) has1 in
      let has3 =
        kept-HasCronJob conf (add_sidecars C P req.namespace _ conf.spec.targets) w2 w3 active e3
          (λ key.
            add_sidecars-Keeps C L P Kind.cron_job key (λ e. ground arith) (λ e. ground arith)
              (λ n pod. create_sidecar_rbac-Leaves C L Kind.cron_job refl n pod key) req.namespace _
              conf.spec.targets)
          has2 in
      let status = C.update_status Kind.backup_configuration active in
      let (sidecars, _) =
        add_sidecars-Attached C L P req.namespace conf.spec.image _ active conf.spec.targets w2 w3
          refl e3 in
      let keeps =
        Leaves-KeepsAll C (WithImage conf.spec.image) status w3
          (λ key v. L.get-update_status active Kind.deployment key v refl)
          (λ key v. L.get-update_status active Kind.stateful_set key v refl) in
      (
        kept-HasCronJob conf status w3 w' tt e4
            (λ key v. L.get-update_status active Kind.cron_job key v refl) has3,
        kept-TargetHasSidecar C L P req.namespace conf.spec.image conf conf.spec.targets w3 w'
            (subst (KeepsSidecars C conf.spec.image w3) (ap (λ p. p.1) e4) keeps) sidecars,
      )
