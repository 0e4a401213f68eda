-- ===== src/Configuration/Laws.antt =====
-- What the reconciler of backup configurations does to a configuration and to its targets.
use formol.Prelude.{
  or_true, or_false, ◌≡◌, ◌≢◌, refl, sym, ap, ◌∙◌, String, Bool, true, false, not, ◌||◌, List, [],
  ◌∷◌, any, is_empty,
}
use text.Mathlib.TextPositions.{eq_refl}
use formol.Api.Meta.{ObjectKey}
use formol.Api.Config.{Target, BackupConfiguration}
use formol.Api.Objects.{Kind, Repo, Workload}
use formol.Client.{Client}
use formol.Outcome.{ok, panic, Action, return, ◌>>◌, ◌>>=◌}
use formol.Outcome.Laws.{ignored, bound, same_value, last_done}
use formol.Sidecar.{get_target_objects, attach, is_sidecar}
use formol.Sidecar.Mounts.{PathOps}
use formol.Sidecar.Once.{sidecar_image-attach}
use formol.CronJobs.{add_cron_job, delete_cron_job}
use formol.Rbac.{create_bs_creator_rbac, delete_rbac}
use formol.BackupSession.{ReconcileResult, done}
use formol.Configuration.{
  repo_key, target_key, get_workload, add_sidecar, add_sidecars, delete_sidecar, is_deleted,
  is_finalized, unfinalized, delete_conf, set_up_conf, reconcile_conf,
}

module _ (C : Client) (P : PathOps) where
  -- A run for a target whose object has the pod specification that an earlier run for the same
  -- configuration has made, from one without a sidecar, succeeds and writes nothing.
  add_sidecar_again :
      (namespace : String) (conf : BackupConfiguration) (target : Target) (repo old : Repo)
      (o before : Workload) (w : C.World)
      → C.get Kind.repo (repo_key conf) w ≡ ok repo
      → get_workload C (get_target_objects target.target_kind) (target_key conf target) w
        ≡ (ok o, w)
      → o.pod_spec ≡ attach P conf target old before.pod_spec
      → any is_sidecar before.pod_spec.containers ≡ false
      → add_sidecar C P namespace conf target w ≡ (ok tt, w)
  unfolding add_sidecar
  add_sidecar_again namespace conf target repo old o before w r found same not_is =
      rw
        (
          r,
          found,
          same,
          sidecar_image-attach P conf target old before.pod_spec not_is,
          eq_refl conf.spec.image,
        )
        refl

  -- A configuration that is being deleted loses its finalizer after the sidecars, the cron job and the
  -- RBAC objects have been removed in this order, also where that failed with an error: the update
  -- alone decides the result.
  reconcile_conf-deleted :
      (req : ObjectKey) (conf : BackupConfiguration) (w : C.World)
      → C.get Kind.backup_configuration req w ≡ ok conf
      → is_deleted C conf ≡ true
      → is_finalized C conf ≡ true
      → (delete_sidecar C conf w).0 ≢ panic
      → (delete_cron_job C conf (delete_sidecar C conf w).1).0 ≢ panic
      → (delete_rbac C req.namespace (delete_cron_job C conf (delete_sidecar C conf w).1).1).0
        ≢ panic
      → reconcile_conf C P req w
        ≡ (C.update Kind.backup_configuration (unfinalized C conf) >> return done)
            (delete_rbac C req.namespace (delete_cron_job C conf (delete_sidecar C conf w).1).1).1
  unfolding reconcile_conf delete_conf
  reconcile_conf-deleted req conf w found d f p1 p2 p3 =
      rw (found, reconcile_conf, d, f)
        (ignored (delete_sidecar C conf) _ w p1
          ∙ ignored (delete_cron_job C conf) _ _ p2
          ∙ ignored (delete_rbac C req.namespace) _ _ p3)

  -- The configuration after the loop over some targets.
  abbrev pub with_sidecars : Bool → BackupConfiguration → BackupConfiguration
  with_sidecars b conf = record conf {
    status = record conf.status { active_sidecar = conf.status.active_sidecar || b };
  }

  pub add_sidecars_lem :
      (namespace : String) (ts : List Target) (conf c : BackupConfiguration) (w : C.World)
      → (add_sidecars C P namespace conf ts w).0 ≡ ok c
      → c ≡ with_sidecars (not (is_empty ts)) conf
  unfolding add_sidecars
  add_sidecars_lem namespace [] conf c w h =
      same_value (ap (λ r. (r, w)) h) ∙ rw (or_false conf.status.active_sidecar) refl
  add_sidecars_lem namespace (target ∷ rest) conf c w h =
      let w' = (add_sidecars C P namespace conf (target ∷ rest) w).1 in
      let (u, e, later) =
        bound (add_sidecar C P namespace conf target) _ w c w' (ap (λ r. (r, w')) h) in
      add_sidecars_lem namespace rest _ c _ (ap (λ p. p.0) later)
      ∙ rw (or_true conf.status.active_sidecar) refl

  abbrev pub finish : BackupConfiguration → Action C.World ReconcileResult
  finish conf = C.update_status Kind.backup_configuration conf >> return done

  abbrev pub started : BackupConfiguration → BackupConfiguration
  started conf = record conf { status = record conf.status { active_cron_job = true } }

  pub set_up_conf_lem :
      (namespace : String) (conf : BackupConfiguration) (w : C.World)
      → is_finalized C conf ≡ true
      → set_up_conf C P namespace conf w
        ≡ (add_cron_job C conf
              >> (create_bs_creator_rbac C namespace
                  >> (add_sidecars C P namespace (started conf) conf.spec.targets >>= finish)))
            w
  unfolding set_up_conf
  set_up_conf_lem namespace conf w f = rw f refl

  -- The four parts of a run that returns a value, with the states between them.
  pub reconcile_conf-parts :
      (req : ObjectKey) (conf : BackupConfiguration) (r : ReconcileResult) (w w' : C.World)
      → C.get Kind.backup_configuration req w ≡ ok conf
      → is_deleted C conf ≡ false
      → is_finalized C conf ≡ true
      → reconcile_conf C P req w ≡ (ok r, w')
      → (w1 : C.World) × (w2 : C.World) × (w3 : C.World) × (active : BackupConfiguration)
        × (add_cron_job C conf w ≡ (ok tt, w1))
        × (create_bs_creator_rbac C req.namespace w1 ≡ (ok tt, w2))
        × (add_sidecars C P req.namespace (started conf) conf.spec.targets w2 ≡ (ok active, w3))
        × (C.update_status Kind.backup_configuration active w3 ≡ (ok tt, w'))
  unfolding reconcile_conf set_up_conf
  reconcile_conf-parts req conf r w w' found d f h =
      let e : reconcile_conf C P req w ≡ set_up_conf C P req.namespace conf w =
        rw (found, reconcile_conf, d) refl in
      let (u1, e1, h1) =
        bound (add_cron_job C conf) _ w r w'
          (sym (e ∙ set_up_conf_lem req.namespace conf w f) ∙ h) in
      let (u2, e2, h2) = bound (create_bs_creator_rbac C req.namespace) _ _ r w' h1 in
      let (active, e3, h3) =
        bound (add_sidecars C P req.namespace (started conf) conf.spec.targets) finish _ r w' h2 in
      let w1 = (add_cron_job C conf w).1 in
      let w2 = (create_bs_creator_rbac C req.namespace w1).1 in
      let w3 = (add_sidecars C P req.namespace (started conf) conf.spec.targets w2).1 in
      (
        w1,
        w2,
        w3,
        active,
        ap (λ x. (x, w1)) e1,
        ap (λ x. (x, w2)) e2,
        ap (λ x. (x, w3)) e3,
        last_done (C.update_status Kind.backup_configuration active) done r w3 w' h3,
      )

  -- A run of a configuration that is not being deleted and has its finalizer returns a value only if
  -- its last write, the update of the status, has succeeded. The status written has an active cron job,
  -- and an active sidecar if there are targets; it says of the suspension what the status said before.
  reconcile_conf-status :
      (req : ObjectKey) (conf : BackupConfiguration) (r : ReconcileResult) (w w' : C.World)
      → C.get Kind.backup_configuration req w ≡ ok conf
      → is_deleted C conf ≡ false
      → is_finalized C conf ≡ true
      → reconcile_conf C P req w ≡ (ok r, w')
      → (w1 : C.World) × (C.update_status Kind.backup_configuration
            (record conf {
              status = record conf.status {
                active_cron_job = true;
                active_sidecar = conf.status.active_sidecar || not (is_empty conf.spec.targets);
              };
            })
            w1
          ≡ (ok tt, w'))
  reconcile_conf-status req conf r w w' found d f h =
      let (w1, w2, w3, active, e1, e2, e3, e4) = reconcile_conf-parts req conf r w w' found d f h in
      let same =
        add_sidecars_lem req.namespace conf.spec.targets (started conf) active w2
          (ap (λ p. p.0) e3) in
      (w3, rw (← same) e4)
