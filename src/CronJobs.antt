-- ===== src/CronJobs.antt =====
-- DeleteCronJob and AddCronJob (controllers/backupconfiguration_controller_helpers.go): the cron job
-- that creates the backup sessions of a configuration.
pub mod Laws
pub mod Stored
use formol.Prelude.{
  ◌≡◌, String, Bool, true, false, not, ◌||◌, Option, none, some, is_some, arith, Bool-cases, inl,
  inr, refl, List, [], ◌∷◌, ◌<>◌, ◌==◌, if◌then◌else◌,
}
use formol.Api.Meta.{ObjectKey, named}
use formol.Api.Config.{BackupConfiguration}
use formol.Api.Pod.{Container}
use formol.Api.Objects.{Kind, CronJob}
use formol.Client.{Client}
use formol.Outcome.{
  Result, ok, err, panic, is_not_found, Action, return, throw, read, lift, resume, ◌>>=◌, ◌>>◌,
  attempt, caught,
}

abbrev pub bs_creator_sa : String
bs_creator_sa = "bs-creator"

abbrev pub cron_job_key : BackupConfiguration → ObjectKey
cron_job_key conf = record {
  namespace = conf.metadata.namespace;
  name = "backup-" <> conf.metadata.name;
}

abbrev pub creator_container : BackupConfiguration → Container
creator_container conf = record {
  name = "job-createbackupsession-" <> conf.metadata.name;
  image = conf.spec.image;
  args =
      "backupsession" ∷ "create" ∷ "--namespace" ∷ conf.metadata.namespace ∷ "--name"
      ∷ conf.metadata.name ∷ [];
  env = [];
  volume_mounts = [];
  privileged = none;
}

abbrev pub new_cron_job : BackupConfiguration → CronJob
new_cron_job conf = record {
  metadata = named conf.metadata.namespace ("backup-" <> conf.metadata.name);
  suspend = conf.spec.suspend;
  schedule = conf.spec.schedule;
  pod_spec = record {
    init_containers = [];
    containers = creator_container conf ∷ [];
    volumes = [];
    share_process_namespace = none;
    service_account_name = bs_creator_sa;
    restart_policy = "OnFailure";
  };
}

-- The two comparisons of `AddCronJob` and what they change. The suspensions are compared as pointers
-- into two objects, which differ if the first is not nil.
abbrev pub is_changed : BackupConfiguration → CronJob → Bool
is_changed conf job = not (conf.spec.schedule == job.schedule) || is_some conf.spec.suspend

abbrev pub merged : Option Bool → Option Bool → Option Bool
merged none old = old
merged (some b) old = some b

abbrev pub changed_job : BackupConfiguration → CronJob → CronJob
changed_job conf job = record job {
  schedule = conf.spec.schedule;
  suspend = merged conf.spec.suspend job.suspend;
}

-- `backupConf.Status.Suspended = *backupConf.Spec.Suspend`: the status of a copy, which is dropped.
abbrev pub dereferenced : {W : Type 0} → Option Bool → Action W (Unit {0})
dereferenced none = lift panic
dereferenced (some b) = return tt

module _ (C : Client) where
  unfoldable pub delete_cron_job : BackupConfiguration → Action C.World (Unit {0})
  delete_cron_job conf = do
    job ← read (C.get Kind.cron_job (cron_job_key conf))
    C.delete Kind.cron_job job

  abbrev pub update_cron_job : BackupConfiguration → CronJob → Action C.World (Unit {0})
  update_cron_job conf job =
      if is_changed conf job
      then C.update Kind.cron_job (changed_job conf job) >> dereferenced conf.spec.suspend
      else return tt

  abbrev pub create_cron_job : BackupConfiguration → Action C.World (Unit {0})
  create_cron_job conf = do
    job ← lift (C.set_controller_reference conf (new_cron_job conf))
    C.create Kind.cron_job job
    dereferenced conf.spec.suspend

  abbrev pub add_found : BackupConfiguration → Result CronJob → Action C.World (Unit {0})
  add_found conf (ok job) = update_cron_job conf job
  add_found conf (err e) = if is_not_found e then create_cron_job conf else throw e
  add_found conf panic = lift panic

  unfoldable pub add_cron_job : BackupConfiguration → Action C.World (Unit {0})
  add_cron_job conf = do
    found ← attempt (read (C.get Kind.cron_job (cron_job_key conf)))
    add_found conf found
