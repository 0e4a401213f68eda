-- ===== src/Api/Session.antt =====
-- api/v1alpha1/backupsession_types.go and restoresession_types.go: the two kinds of session.
use formol.Prelude.{ℤ, String, Bool, true, false, Option, List, ◌==◌}
use formol.Api.Meta.{Time, ObjectMeta}
use formol.Api.Config.{TargetKind, BackupType}

-- The Go type is a string. `unset` is "", and `other` is a text that is none of the constants.
pub data SessionState : Type 0 where
  unset new initializing initialized running waiting waiting_for_job : SessionState
  finalize success failure : SessionState
  other : String → SessionState

-- The text of a state.
unfoldable pub state_name : SessionState → String
state_name unset = ""
state_name new = "New"
state_name initializing = "Initializing"
state_name initialized = "Initialized"
state_name running = "Running"
state_name waiting = "Waiting"
state_name waiting_for_job = "WaitingForJob"
state_name finalize = "Finalize"
state_name success = "Success"
state_name failure = "Failure"
state_name (other s) = s

-- Go's `==` on two session states.
abbrev pub same_state : SessionState → SessionState → Bool
same_state unset unset = true
same_state new new = true
same_state initializing initializing = true
same_state initialized initialized = true
same_state running running = true
same_state waiting waiting = true
same_state waiting_for_job waiting_for_job = true
same_state finalize finalize = true
same_state success success = true
same_state failure failure = true
same_state (other s) (other t) = s == t
same_state _ _ = false

pub record TargetStatus : Type 0 where
  pub backup_type : BackupType
  pub target_name : String
  pub target_kind : TargetKind
  pub session_state : SessionState
  pub snapshot_id : String
  pub start_time : Option Time
  pub duration : Option ℤ
  pub try : ℤ

-- `corev1.ObjectReference`, as far as it is used.
pub record ObjectReference : Type 0 where
  pub namespace : String
  pub name : String

pub record BackupSessionSpec : Type 0 where
  pub ref : ObjectReference

pub record BackupSessionStatus : Type 0 where
  pub session_state : SessionState
  pub start_time : Option Time
  pub targets : List TargetStatus
  pub keep : String

pub record BackupSession : Type 0 where
  pub metadata : ObjectMeta
  pub spec : BackupSessionSpec
  pub status : BackupSessionStatus

pub record BackupSessionRef : Type 0 where
  pub spec : BackupSessionSpec
  pub status : BackupSessionStatus

pub record RestoreSessionSpec : Type 0 where
  pub backup_session_ref : BackupSessionRef

pub record RestoreSessionStatus : Type 0 where
  pub session_state : SessionState
  pub start_time : Option Time
  pub targets : List TargetStatus

pub record RestoreSession : Type 0 where
  pub metadata : ObjectMeta
  pub spec : RestoreSessionSpec
  pub status : RestoreSessionStatus
