-- ===== src/Snapshots.antt =====
-- `deleteSnapshots` of controllers/backupsession_controller_helper.go: the job that deletes the
-- restic snapshots of a backup session.
pub mod Laws
use formol.Prelude.{
  ℕ, String, Bool, true, false, Option, none, some, List, [], ◌∷◌, ◌==◌, ◌<>◌, if◌then◌else◌,
}
use formol.Api.Meta.{named}
use formol.Api.Config.{BackupConfiguration}
use formol.Api.Session.{TargetStatus, BackupSession}
use formol.Api.Pod.{Container, PodSpec}
use formol.Api.Objects.{Kind, Job}
use formol.Client.{Client}
use formol.Outcome.{Action, return}

-- `JOBTTL`, in seconds.
abbrev pub job_ttl : ℕ
job_ttl = 7200

abbrev pub delete_args : BackupConfiguration → String → List String
delete_args conf id =
    "snapshot" ∷ "delete" ∷ "--namespace" ∷ conf.metadata.namespace ∷ "--name" ∷ conf.metadata.name
    ∷ "--snapshot-id" ∷ id ∷ []

-- The containers for the targets that have a snapshot.
unfoldable pub snapshot_containers : BackupConfiguration → List TargetStatus → List Container
snapshot_containers conf [] = []
snapshot_containers conf (target ∷ rest) =
    let later = snapshot_containers conf rest in
    if target.snapshot_id == ""
    then later
    else record {
      name = target.target_name;
      image = conf.spec.image;
      args = delete_args conf target.snapshot_id;
      env = [];
      volume_mounts = [];
      privileged = none;
    }
      ∷ later

-- The deletions are sequential: the first snapshot is left to the container that runs after the
-- init containers.
abbrev pub delete_job : BackupSession → Container → List Container → Job
delete_job session first rest = record {
  metadata = record (named session.metadata.namespace "") {
    generate_name = "delete-" <> session.metadata.name <> "-";
  };
  ttl_seconds_after_finished = some job_ttl;
  pod_spec = record {
    init_containers = rest;
    containers = first ∷ [];
    volumes = [];
    share_process_namespace = none;
    service_account_name = "";
    restart_policy = "OnFailure";
  };
}

abbrev pub snapshot_job : BackupSession → List Container → Option Job
snapshot_job session [] = none
snapshot_job session (first ∷ rest) = some (delete_job session first rest)

module _ (C : Client) where
  abbrev pub create_job : Option Job → Action C.World (Unit {0})
  create_job none = return tt
  create_job (some job) = C.create Kind.job job

  unfoldable pub delete_snapshots : BackupSession → BackupConfiguration → Action C.World (Unit {0})
  unfolding snapshot_containers
  delete_snapshots session conf =
      create_job (snapshot_job session (snapshot_containers conf session.status.targets))
