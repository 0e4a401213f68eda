-- ===== src/CronJobs/Stored.antt =====
-- The cron job of a configuration in the cluster, after `AddCronJob` and after `DeleteCronJob`.
use formol.Prelude.{◌≡◌, refl, sym, ap, ◌∙◌, Bool, some, arith}
use formol.Api.Meta.{key_of}
use formol.Api.Config.{BackupConfiguration}
use formol.Api.Objects.{Kind, CronJob}
use formol.Client.{Client}
use formol.Client.Laws.{IsOwnerSetter}
use formol.Client.Store.{IsStore, get-at}
use formol.Outcome.{Result, ok, err, panic, not_found, failed, lift, resume, ◌>>◌, caught}
use formol.Outcome.Laws.{bound, unit_after}
use formol.CronJobs.{
  cron_job_key, new_cron_job, add_cron_job, add_found, create_cron_job, dereferenced,
  delete_cron_job,
}
use formol.CronJobs.Laws.{add_cron_job-update}

module _ (C : Client) (S : IsStore C Kind.cron_job) (O : IsOwnerSetter C)
    (conf : BackupConfiguration) (b : Bool) (suspended : conf.spec.suspend ≡ some b)
    (w w' : C.World) where
  -- The cron job is there, with the schedule and the suspension of the configuration.
  abbrev pub Stored : Type 0
  Stored =
      (job : CronJob) × (C.get Kind.cron_job (cron_job_key conf) w' ≡ ok job)
      × (job.schedule ≡ conf.spec.schedule)
      × (job.suspend ≡ some b)

  created_stored : create_cron_job C conf w ≡ (ok tt, w') → Stored
  created_stored h =
      let (job, owned, h1) =
        bound (lift (C.set_controller_reference conf (new_cron_job conf)))
          (λ job. C.create Kind.cron_job job >> dereferenced conf.spec.suspend) w tt w' h in
      let run : C.create Kind.cron_job job w ≡ (ok tt, w') =
        sym (unit_after (C.create Kind.cron_job job) w) ∙ (rw suspended at h1) in
      let same = O.owned conf (new_cron_job conf) job owned in
      (
        job,
        get-at C Kind.cron_job (ap (λ (j : CronJob). key_of j.metadata) same) (ap (λ p. p.1) run)
            (S.get-create job w (ap (λ p. p.0) run)),
        ap (λ (j : CronJob). j.schedule) same,
        ap (λ (j : CronJob). j.suspend) same ∙ suspended,
      )

  found_stored :
      (r : Result CronJob)
      → C.get Kind.cron_job (cron_job_key conf) w ≡ r
      → resume (add_found C conf) (caught r) w ≡ (ok tt, w')
      → add_cron_job C conf w ≡ (ok tt, w')
      → Stored
  found_stored (ok job) e h run =
      let updated = sym (add_cron_job-update C conf job b w e suspended) ∙ run in
      (
        record job { schedule = conf.spec.schedule; suspend = some b },
        get-at C Kind.cron_job (S.get-key (cron_job_key conf) w job e) (ap (λ p. p.1) updated)
            (S.get-update _ w (ap (λ p. p.0) updated)),
        refl,
        refl,
      )
  found_stored (err not_found) e h run = created_stored h
  found_stored (err (failed s)) e h run = absurd (ground arith)
  found_stored panic e h run = absurd (ground arith)

  -- In a configuration that says whether it is suspended, a run that succeeds leaves a cron job in the
  -- cluster with the schedule and the suspension of the configuration, whether it has found one or not.
  pub add_cron_job-Stored : add_cron_job C conf w ≡ (ok tt, w') → Stored
  unfolding add_cron_job
  add_cron_job-Stored h = found_stored (C.get Kind.cron_job (cron_job_key conf) w) refl h h

  -- In a configuration that says whether it is suspended, `AddCronJob` succeeds and then `DeleteCronJob`
  -- succeeds. Then `DeleteCronJob` deletes, with one call, a cron job that has the schedule and the
  -- suspension of the configuration, and the cron job of the configuration is not found afterwards.
  pub delete_cron_job-add :
      (w2 : C.World)
      → add_cron_job C conf w ≡ (ok tt, w')
      → delete_cron_job C conf w' ≡ (ok tt, w2)
      → ((job : CronJob) × (C.delete Kind.cron_job job w' ≡ (ok tt, w2))
          × (job.schedule ≡ conf.spec.schedule)
          × (job.suspend ≡ some b))
        × (C.get Kind.cron_job (cron_job_key conf) w2 ≡ err not_found)
  unfolding delete_cron_job
  delete_cron_job-add w2 h k =
      let (job, there, schedule, suspend) = add_cron_job-Stored h in
      let run : C.delete Kind.cron_job job w' ≡ (ok tt, w2) = rw there at k in
      (
        (job, run, schedule, suspend),
        get-at C Kind.cron_job (S.get-key (cron_job_key conf) w' job there) (ap (λ p. p.1) run)
            (S.get-delete job w' (ap (λ p. p.0) run)),
      )
