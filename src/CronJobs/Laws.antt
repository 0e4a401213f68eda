-- ===== src/CronJobs/Laws.antt =====
-- What a run does to a cron job that it finds.
use formol.Prelude.{or_true, ◌≡◌, refl, Bool, some}
use formol.Api.Config.{BackupConfiguration}
use formol.Api.Objects.{Kind, CronJob}
use formol.Client.{Client}
use formol.Outcome.{ok}
use formol.Outcome.Laws.{unit_after}
use formol.CronJobs.{cron_job_key, add_cron_job}

module _ (C : Client) where
  -- In a configuration that says whether it is suspended, a run that finds the cron job updates it to
  -- the schedule and the suspension of the configuration, also where it has both already, and its
  -- outcome is that of the update.
  pub add_cron_job-update :
      (conf : BackupConfiguration) (job : CronJob) (b : Bool) (w : C.World)
      → C.get Kind.cron_job (cron_job_key conf) w ≡ ok job
      → conf.spec.suspend ≡ some b
      → add_cron_job C conf w
        ≡ C.update Kind.cron_job (record job { schedule = conf.spec.schedule; suspend = some b }) w
  unfolding add_cron_job
  add_cron_job-update conf job b w found suspend = rw (found, suspend, or_true, unit_after) refl
