-- ===== src/Configuration/Removed.antt =====
-- What a run for a configuration that is being deleted leaves in the cluster.
use formol.Prelude.{◌≡◌, ◌≢◌, refl, sym, ap, ◌∙◌, String, true, List, ◌∷◌, All}
use formol.Api.Meta.{ObjectKey}
use formol.Api.Config.{BackupConfiguration}
use formol.Api.Objects.{Kind, Object}
use formol.Client.{Client}
use formol.Client.Store.{IsCluster, is_builtin}
use formol.Outcome.{ok, err, failed, return, ignore, ◌>>◌}
use formol.Outcome.Laws.{bound, last_done}
use formol.Sidecar.Mounts.{PathOps}
use formol.CronJobs.{cron_job_key, delete_cron_job}
use formol.Rbac.{delete_rbac}
use formol.Rbac.Removal.{
  Reference, reference, rbac_objects, rbac_objects-IsBuiltin, delete_rbac-ignored,
}
use formol.Rbac.Removed.{Absent, AddsNothing, kept-Absent, remove-Absent, delete_rbac-Absent}
use formol.BackupSession.{ReconcileResult, done}
use formol.Configuration.{
  delete_sidecar, is_deleted, is_finalized, unfinalized, delete_conf, reconcile_conf,
}

-- The cron job of a configuration, and the RBAC objects of a namespace.
abbrev pub created_objects : String → BackupConfiguration → List Reference
created_objects namespace conf =
    reference Kind.cron_job (cron_job_key conf) ∷ rbac_objects namespace

module _ (C : Client) (P : PathOps) where
  -- The parts of a run that deletes, with the states between them.
  pub reconcile_conf-deletion :
      (req : ObjectKey) (conf : BackupConfiguration) (r : ReconcileResult) (w w' : C.World)
      → C.get Kind.backup_configuration req w ≡ ok conf
      → is_deleted C conf ≡ true
      → is_finalized C conf ≡ true
      → reconcile_conf C P req w ≡ (ok r, w')
      → (w1 : C.World) × (w2 : C.World) × (w3 : C.World) × (ignore (delete_sidecar C conf) w
          ≡ (ok tt, w1))
        × (ignore (delete_cron_job C conf) w1 ≡ (ok tt, w2))
        × (ignore (delete_rbac C req.namespace) w2 ≡ (ok tt, w3))
        × (C.update Kind.backup_configuration (unfinalized C conf) w3 ≡ (ok tt, w'))
  unfolding reconcile_conf delete_conf
  reconcile_conf-deletion req conf r w w' found d f h =
      let last = C.update Kind.backup_configuration (unfinalized C conf) >> return done in
      let third = ignore (delete_rbac C req.namespace) >> last in
      let second = ignore (delete_cron_job C conf) >> third in
      let e : reconcile_conf C P req w ≡ (ignore (delete_sidecar C conf) >> second) w =
        rw (found, reconcile_conf, d, f) refl in
      let (u1, e1, h1) = bound (ignore (delete_sidecar C conf)) (λ _. second) w r w' (sym e ∙ h) in
      let w1 = (ignore (delete_sidecar C conf) w).1 in
      let (u2, e2, h2) = bound (ignore (delete_cron_job C conf)) (λ _. third) w1 r w' h1 in
      let w2 = (ignore (delete_cron_job C conf) w1).1 in
      let (u3, e3, h3) = bound (ignore (delete_rbac C req.namespace)) (λ _. last) w2 r w' h2 in
      let w3 = (ignore (delete_rbac C req.namespace) w2).1 in
      (
        w1,
        w2,
        w3,
        ap (λ x. (x, w1)) e1,
        ap (λ x. (x, w2)) e2,
        ap (λ x. (x, w3)) e3,
        last_done (C.update Kind.backup_configuration (unfinalized C conf)) done r w3 w' h3,
      )

  module _ (L : IsCluster C)
      (readable : (k : Kind) (key : ObjectKey) (v : C.World) (s : String)
        → C.get k key v ≢ err (failed s))
      (delete_ok : (k : Kind) (key : ObjectKey) (o : Object k) (v : C.World)
        → is_builtin k ≡ true
        → C.get k key v ≡ ok o
        → (C.delete k o v).0 ≡ ok tt) where
    -- In a cluster in which nobody else writes, whose reads fail for no other reason than that there is
    -- no such object, and in which an object that is read can be deleted: a run that returns a value,
    -- for a configuration that is being deleted and has its finalizer, leaves neither the cron job of
    -- the configuration nor any of the RBAC objects of the namespace, of this configuration or another,
    -- nor the cluster role of the sidecars of all namespaces and its binding. This holds also where the
    -- sidecars could not be removed.
    pub reconcile_conf-Removed :
        (req : ObjectKey) (conf : BackupConfiguration) (r : ReconcileResult) (w w' : C.World)
        → C.get Kind.backup_configuration req w ≡ ok conf
        → is_deleted C conf ≡ true
        → is_finalized C conf ≡ true
        → reconcile_conf C P req w ≡ (ok r, w')
        → All (Absent C w') (created_objects req.namespace conf)
    unfolding delete_cron_job
    reconcile_conf-Removed req conf r w w' found d f h =
        let (w1, w2, w3, e1, e2, e3, e4) = reconcile_conf-deletion req conf r w w' found d f h in
        let job = reference Kind.cron_job (cron_job_key conf) in
        let (gone, _) = remove-Absent C L readable delete_ok job w1 w2 refl e2 in
        let (others, adds) =
          delete_rbac-Absent C L readable delete_ok req.namespace w2 w3
            (delete_rbac-ignored C req.namespace w2 w3 e3) in
        let update = C.update Kind.backup_configuration (unfinalized C conf) in
        let adds_last : AddsNothing C w3 w' = λ p b absent.
          ap (λ x. C.get p.kind p.key x.1) (sym e4)
          ∙ L.get-update_conf (unfinalized C conf) p.kind p.key w3 b
          ∙ absent in
        (
          adds_last job refl (adds job refl gone),
          kept-Absent C (rbac_objects req.namespace) w3 w' adds_last
              (rbac_objects-IsBuiltin req.namespace) others,
        )
