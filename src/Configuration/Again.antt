-- ===== src/Configuration/Again.antt =====
-- A second run of the reconciler of backup configurations, after one that has returned a value.
use formol.Prelude.{
  ◌≡◌, ◌≢◌, refl, sym, ap, ◌∙◌, String, Bool, true, false, not, ◌||◌, Option, some, is_empty, arith,
}
use formol.Api.Meta.{ObjectKey}
use formol.Api.Config.{BackupConfiguration, BackupConfigurationStatus}
use formol.Api.Objects.{Kind, Repo, CronJob}
use formol.Client.{Client}
use formol.Client.Store.{IsCluster, is_builtin, Keeps}
use formol.Outcome.{ok, err, failed, Action, return, ◌>>◌}
use formol.Sidecar.Mounts.{PathOps}
use formol.CronJobs.{bs_creator_sa, cron_job_key, add_cron_job}
use formol.CronJobs.Laws.{add_cron_job-update}
use formol.Rbac.{key_in}
use formol.Rbac.Defs.{bs_creator_role_name, bs_creator_rolebinding_name}
use formol.Rbac.Created.{Exists, create_bs_creator_rbac-Exists}
use formol.Rbac.Spared.{is_sidecar_name, create_sidecar_rbac-Keeps}
use formol.BackupSession.{ReconcileResult, done}
use formol.Configuration.{add_sidecars, repo_key, is_deleted, is_finalized, reconcile_conf}
use formol.Configuration.Laws.{reconcile_conf-parts}
use formol.Configuration.Keeps.{add_sidecars-Keeps}
use formol.Configuration.Repeat.{run_again}
use formol.Configuration.Ready.{reconcile_conf-Ready}

same_job :
    (job : CronJob) (schedule : String) (suspend : Option Bool)
    → job.schedule ≡ schedule
    → job.suspend ≡ suspend
    → record job { schedule = schedule; suspend = suspend } ≡ job
same_job job schedule suspend e f = rw (← e, ← f) refl

module _ (C : Client) (L : IsCluster C) (P : PathOps) where
  module _
      (readable : (k : Kind) (key : ObjectKey) (v : C.World) (s : String)
        → C.get k key v ≢ err (failed s)) where
    kept_by :
        {A : Type 0} (k : Kind) (key : ObjectKey) (m : Action C.World A) (a : A) (w w' : C.World)
        → m w ≡ (ok a, w')
        → Keeps C k key m
        → Exists C k key w
        → Exists C k key w'
    kept_by k key m a w w' h keeps (o, e) = (o, ap (λ p. C.get k key p.1) (sym h) ∙ keeps w ∙ e)

    -- The accounts and the roles of the cron job are there after the run.
    allowed_after :
        (req : ObjectKey) (conf : BackupConfiguration) (r : ReconcileResult) (w w' : C.World)
        → C.get Kind.backup_configuration req w ≡ ok conf
        → is_deleted C conf ≡ false
        → is_finalized C conf ≡ true
        → reconcile_conf C P req w ≡ (ok r, w')
        → Exists C Kind.service_account (key_in req.namespace bs_creator_sa) w'
          × Exists C Kind.role (key_in req.namespace bs_creator_role_name) w'
          × Exists C Kind.role_binding (key_in req.namespace bs_creator_rolebinding_name) w'
    allowed_after req conf r w w' found d f h =
        let (w1, w2, w3, active, e1, e2, e3, e4) =
          reconcile_conf-parts C P req conf r w w' found d f h in
        let (a, b, c) =
          create_bs_creator_rbac-Exists C (L.stores Kind.service_account refl)
            (L.stores Kind.role refl) (L.stores Kind.role_binding refl) readable req.namespace w1 w2
            e2 in
        let status = C.update_status Kind.backup_configuration active in
        let all_after : (k : Kind) (key : ObjectKey)
            → is_builtin k ≡ true
            → Kind.deployment ≢ k
            → Kind.stateful_set ≢ k
            → is_sidecar_name key.name ≡ false
            → Exists C k key w2
            → Exists C k key w' =
          λ k key i n n' o has.
            kept_by k key status tt w3 w' e4 (λ v. L.get-update_status active k key v i)
              (kept_by k key (add_sidecars C P req.namespace _ conf.spec.targets) active w2 w3 e3
                (add_sidecars-Keeps C L P k key n n' (create_sidecar_rbac-Keeps C L k key o)
                  req.namespace _ conf.spec.targets)
                has) in
        (
          all_after Kind.service_account _ refl (λ e. ground arith) (λ e. ground arith) refl a,
          all_after Kind.role _ refl (λ e. ground arith) (λ e. ground arith) refl b,
          all_after Kind.role_binding _ refl (λ e. ground arith) (λ e. ground arith) refl c,
        )

    -- In a cluster in which nobody else writes, and whose reads fail for no other reason than that
    -- there is no such object, let a run return a value for a configuration that is not being deleted,
    -- has its finalizer and says whether it is suspended. A second run, where the repository is there
    -- and nothing but the status of the configuration has changed, writes two objects only: the cron
    -- job, with what it holds already, and then the status, with an active cron job and, if there are
    -- targets, an active sidecar. It ends as these two updates end.
    pub reconcile_conf-again :
        (req : ObjectKey) (conf : BackupConfiguration) (b : Bool) (r : ReconcileResult)
        (status : BackupConfigurationStatus) (repo : Repo) (w w' : C.World)
        → C.get Kind.backup_configuration req w ≡ ok conf
        → is_deleted C conf ≡ false
        → is_finalized C conf ≡ true
        → conf.spec.suspend ≡ some b
        → reconcile_conf C P req w ≡ (ok r, w')
        → C.get Kind.backup_configuration req w' ≡ ok (record conf { status = status })
        → C.get Kind.repo (repo_key conf) w' ≡ ok repo
        → (job : CronJob) × (C.get Kind.cron_job (cron_job_key conf) w' ≡ ok job)
          × (reconcile_conf C P req w'
              ≡ (C.update Kind.cron_job job
                    >> (C.update_status Kind.backup_configuration (record conf {
                      status = record status {
                        active_cron_job = true;
                        active_sidecar = status.active_sidecar || not (is_empty conf.spec.targets);
                      };
                    })
                        >> return done))
                  w')
    reconcile_conf-again req conf b r status repo w w' found d f suspended h found' there =
        let ((job, e, s, t), sidecars) =
          reconcile_conf-Ready C L P req conf b r w w' found d f suspended h in
        let (sa, role, binding) = allowed_after req conf r w w' found d f h in
        let conf' : BackupConfiguration = record conf { status = status } in
        let job_run : add_cron_job C conf' w' ≡ C.update Kind.cron_job job w' =
          add_cron_job-update C conf' job b w' e suspended
          ∙ ap (λ j. C.update Kind.cron_job j w')
              (same_job job conf.spec.schedule (some b) s (t ∙ suspended)) in
        (
          job,
          e,
          run_again C L P req conf' repo job w' found' d f job_run
              (sa, role, binding, there, sidecars),
        )
