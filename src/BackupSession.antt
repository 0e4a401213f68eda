-- ===== src/BackupSession.antt =====
-- controllers/backupsession_controller.go: the reconciler of backup sessions.
pub mod States
pub mod Deletion
pub mod Changes
pub mod Progress
pub mod Ending
pub mod System
use formol.Prelude.{
  ℕ, String, Bool, true, false, not, Option, none, some, List, [], ◌∷◌, if◌then◌else◌,
}
use formol.Api.Meta.{ObjectKey}
use formol.Api.Config.{BackupConfiguration}
use formol.Api.Session.{
  SessionState, unset, new, initializing, initialized, running, waiting, waiting_for_job, finalize,
  success, failure, other, same_state, BackupSession, BackupSessionStatus,
}
use formol.Api.Objects.{Kind}
use formol.Client.{Client}
use formol.Outcome.{
  Result, ok, err, panic, is_not_found, Error, Action, return, throw, read, lift, resume, ◌>>=◌,
  ◌>>◌, ignore, attempt, caught,
}
use formol.Session.{
  Verdict, is_backup_ongoing, init_session, check_initialized, check_waiting, check_success,
}
use formol.Retention.{Dated, cleanup_sessions}
use formol.Snapshots.{delete_snapshots}

abbrev pub finalizer_name : String
finalizer_name = "finalizer.backupsession.formol.desmojim.fr"

-- `ctrl.Result`: the seconds after which the request is queued again, 0 for none.
pub record ReconcileResult : Type 0 where
  pub requeue_after : ℕ

abbrev pub done : ReconcileResult
done = record { requeue_after = 0 }

-- How the `switch` on the state ends: the request is put off, or goes on to the status update with
-- the new state, "" for none, and the status with its other fields as the branch leaves them.
pub data Next : Type 0 where
  put_off : Next
  move : SessionState → BackupSessionStatus → Next

abbrev pub with_verdict : BackupSessionStatus → Verdict → Next
with_verdict status v = move v.state (record status { targets = v.targets })

-- A target that fails to finalize does not make the backup a failure.
abbrev pub forgiven : Verdict → Verdict
forgiven v = record v { state = if same_state v.state failure then success else v.state }

abbrev pub map_verdict : (Verdict → Verdict) → Result Verdict → Result Verdict
map_verdict f (ok v) = ok (f v)
map_verdict f (err e) = err e
map_verdict f panic = panic

abbrev pub conf_key : BackupSession → ObjectKey
conf_key session = record { namespace = session.spec.ref.namespace; name = session.spec.ref.name }

module _ (C : Client) where
  abbrev pub is_deleting : BackupSession → Bool
  is_deleting session = not (C.is_zero session.metadata.deletion_timestamp)

  abbrev pub has_finalizer : BackupSession → Bool
  has_finalizer session = C.contains_finalizer session.metadata finalizer_name

  abbrev pub without_finalizer : BackupSession → BackupSession
  without_finalizer session = record session {
    metadata = C.remove_finalizer session.metadata finalizer_name;
  }

  abbrev pub with_finalizer : BackupSession → BackupSession
  with_finalizer session = record session {
    metadata = C.add_finalizer session.metadata finalizer_name;
  }

  abbrev pub store_state : BackupSession → Next → Action C.World ReconcileResult
  store_state session put_off = return (record { requeue_after = 30 })
  store_state session (move state status) =
      if same_state state unset
      then return done
      else C.update_status Kind.backup_session
          (record session { status = record status { session_state = state } })
        >> return done

  abbrev pub absent : Error → Action C.World ReconcileResult
  absent e = if is_not_found e then return done else throw e

module _ (C : Client) (newest_first : List Dated → List Dated) where
  abbrev pub start_session : BackupConfiguration → BackupSessionStatus → Bool → Action C.World Next
  start_session conf status true = return put_off
  start_session conf status false =
      λ w. (ok (move initializing (record status { targets = init_session (C.clock w) conf })), w)

  abbrev pub checked : BackupSessionStatus → (C.World → Result Verdict) → Action C.World Next
  checked status check = do v ← read check; return (with_verdict status v)

  -- The `switch`.
  unfoldable pub advance :
      SessionState → BackupConfiguration → BackupSessionStatus → Action C.World Next
  unfolding is_backup_ongoing cleanup_sessions
  advance new conf status = do
    ongoing ← read (is_backup_ongoing C conf)
    start_session conf status ongoing
  advance initializing conf status =
      checked status (λ w. check_initialized status.targets conf (C.clock w 0))
  advance running conf status =
      checked status (λ w. check_waiting status.targets conf (C.clock w 0))
  advance finalize conf status =
      checked status (λ w. map_verdict forgiven (check_success status.targets conf (C.clock w 0)))
  advance success conf status = do cleanup_sessions C newest_first conf; return (move unset status)
  advance failure conf status = return (move unset status)
  advance _ conf status =
      λ w. (ok (move new (record status { start_time = some (C.clock w 0) })), w)

  -- From the test for the finalizer on.
  unfoldable pub reconcile_live :
      BackupSession → BackupConfiguration → Action C.World ReconcileResult
  reconcile_live session conf =
      if has_finalizer C session
      then advance session.status.session_state conf session.status >>= store_state C session
      else C.update Kind.backup_session (with_finalizer C session) >> return done

  -- From the test for the deletion on.
  unfoldable pub reconcile_found :
      BackupSession → BackupConfiguration → Action C.World ReconcileResult
  reconcile_found session conf =
      if is_deleting C session
      then ignore (delete_snapshots C session conf)
        >> (if has_finalizer C session
            then C.update Kind.backup_session (without_finalizer C session) >> return done
            else reconcile_live session conf)
      else reconcile_live session conf

  -- `Reconcile`
  unfoldable pub reconcile : ObjectKey → Action C.World ReconcileResult
  reconcile req w = elim (C.get Kind.backup_session req w) [
    | err e ↦ absent C e w
    | panic ↦ (panic, w)
    | ok session ↦
        (do
          conf ← read (C.get Kind.backup_configuration (conf_key session))
          reconcile_found session conf)
          w
  ]
