-- ===== src/Client/Laws.antt =====
-- Documented behaviour of the client and of controllerutil, as hypotheses of theorems: a client that
-- reads its own writes, and the helpers for finalizers.
use formol.Prelude.{◌≡◌, ◌≢◌, ◌⊎◌, false}
use formol.Outcome.{ok, err, not_found}
use formol.Api.Meta.{ObjectKey, key_of}
use formol.Api.Session.{BackupSession, RestoreSession}
use formol.Api.Config.{BackupConfiguration}
use formol.Api.Objects.{Kind, CronJob}
use formol.Client.Defs.{Client}

-- Reads and writes of the backup sessions. A status update that succeeds stores the status and
-- nothing else.
pub record IsSessionStore (C : Client) : Type 0 where
  pub get-key :
      (key : ObjectKey) (w : C.World) (s : BackupSession)
      → C.get Kind.backup_session key w ≡ ok s
      → key_of s.metadata ≡ key
  pub get-update_status :
      (s old : BackupSession) (w : C.World)
      → C.get Kind.backup_session (key_of s.metadata) w ≡ ok old
      → (C.update_status Kind.backup_session s w).0 ≡ ok tt
      → C.get Kind.backup_session (key_of s.metadata) (C.update_status Kind.backup_session s w).1
        ≡ ok (record old { status = s.status })

-- There is no session under the key, or it is being deleted.
abbrev pub IsGone : (C : Client) → ObjectKey → C.World → Type 0
IsGone C key w =
    (C.get Kind.backup_session key w ≡ err not_found)
    ⊎ ((s : BackupSession) × (C.get Kind.backup_session key w ≡ ok s)
        × (C.is_zero s.metadata.deletion_timestamp ≡ false))

-- The backup sessions of a cluster in which nobody else writes during a run, and no write to a session
-- that is there fails. A deletion takes a session away, or only marks it as long as it has finalizers.
pub record IsSessionCluster (C : Client) : Type 0 where
  pub update_status_ok :
      (s old : BackupSession) (w : C.World)
      → C.get Kind.backup_session (key_of s.metadata) w ≡ ok old
      → (C.update_status Kind.backup_session s w).0 ≡ ok tt
  pub get-update_status :
      (s old : BackupSession) (w : C.World)
      → C.get Kind.backup_session (key_of s.metadata) w ≡ ok old
      → C.get Kind.backup_session (key_of s.metadata) (C.update_status Kind.backup_session s w).1
        ≡ ok (record old { status = s.status })
  pub delete_ok :
      (s old : BackupSession) (w : C.World)
      → C.get Kind.backup_session (key_of s.metadata) w ≡ ok old
      → (C.delete Kind.backup_session s w).0 ≡ ok tt
  pub get-delete :
      (s old : BackupSession) (w : C.World)
      → C.get Kind.backup_session (key_of s.metadata) w ≡ ok old
      → IsGone C (key_of s.metadata) (C.delete Kind.backup_session s w).1
  pub get-update_status_elsewhere :
      (s : BackupSession) (key : ObjectKey) (w : C.World)
      → key ≢ key_of s.metadata
      → C.get Kind.backup_session key (C.update_status Kind.backup_session s w).1
        ≡ C.get Kind.backup_session key w
  pub get-delete_elsewhere :
      (s : BackupSession) (key : ObjectKey) (w : C.World)
      → key ≢ key_of s.metadata
      → C.get Kind.backup_session key (C.delete Kind.backup_session s w).1
        ≡ C.get Kind.backup_session key w

-- The restore sessions: a status update that succeeds stores the status and nothing else.
pub record IsRestoreStore (C : Client) : Type 0 where
  pub get-key :
      (key : ObjectKey) (w : C.World) (s : RestoreSession)
      → C.get Kind.restore_session key w ≡ ok s
      → key_of s.metadata ≡ key
  pub get-update_status :
      (s old : RestoreSession) (w : C.World)
      → C.get Kind.restore_session (key_of s.metadata) w ≡ ok old
      → (C.update_status Kind.restore_session s w).0 ≡ ok tt
      → C.get Kind.restore_session (key_of s.metadata) (C.update_status Kind.restore_session s w).1
        ≡ ok (record old { status = s.status })

-- `SetControllerReference` changes the owners of an object and nothing else.
pub record IsOwnerSetter (C : Client) : Type 0 where
  pub owned :
      (conf : BackupConfiguration) (job job' : CronJob)
      → C.set_controller_reference conf job ≡ ok job'
      → job' ≡ record job {
        metadata = record job.metadata { owner_references = job'.metadata.owner_references };
      }
