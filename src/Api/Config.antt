-- ===== src/Api/Config.antt =====
-- api/v1alpha1/backupconfiguration_types.go: what is backed up, when, and how long it is kept.
use formol.Prelude.{ℤ, String, Bool, Option, List}
use formol.Api.Meta.{Time, ObjectMeta}

pub data TargetKind : Type 0 where
  deployment stateful_set pod : TargetKind

pub data BackupType : Type 0 where
  snapshot_kind online_kind job_kind : BackupType

pub record Step : Type 0 where
  pub finalize : Option String
  pub initialize : Option String
  pub backup : Option String
  pub restore : Option String

pub record TargetContainer : Type 0 where
  pub name : String
  pub paths : List String
  pub steps : List Step
  pub share_path : String
  pub job : List Step

pub record Target : Type 0 where
  pub backup_type : BackupType
  pub target_kind : TargetKind
  pub target_name : String
  pub containers : List TargetContainer
  pub retry : ℤ
  pub volume_snapshot_class : String

-- The fields are `int32`.
pub record Keep : Type 0 where
  pub last : ℤ
  pub daily : ℤ
  pub weekly : ℤ
  pub monthly : ℤ
  pub yearly : ℤ

pub record BackupConfigurationSpec : Type 0 where
  pub repository : String
  pub image : String
  pub suspend : Option Bool
  pub schedule : String
  pub keep : Keep
  pub targets : List Target

pub record BackupConfigurationStatus : Type 0 where
  pub last_backup_time : Option Time
  pub suspended : Bool
  pub active_cron_job : Bool
  pub active_sidecar : Bool

pub record BackupConfiguration : Type 0 where
  pub metadata : ObjectMeta
  pub spec : BackupConfigurationSpec
  pub status : BackupConfigurationStatus
