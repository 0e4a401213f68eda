-- ===== src/RestoreSession.antt =====
-- controllers/restoresession_controller.go: the reconciler of restore sessions. It runs the targets of
-- the configuration through the same stages as a backup.
pub mod Laws
pub mod Refines
use formol.Prelude.{ℕ, Bool, true, false, Option, none, some, List, if◌then◌else◌}
use formol.Api.Meta.{ObjectKey}
use formol.Api.Config.{BackupConfiguration}
use formol.Api.Session.{
  SessionState, unset, new, initializing, running, finalize, success, failure, same_state,
  RestoreSession, RestoreSessionStatus,
}
use formol.Api.Objects.{Kind}
use formol.Client.{Client}
use formol.Outcome.{Result, ok, err, panic, Action, return, read, resume, ◌>>=◌, ◌>>◌}
use formol.Session.{
  Verdict, is_backup_ongoing, init_session, check_initialized, check_waiting, check_success,
}
use formol.BackupSession.{ReconcileResult, done, forgiven, map_verdict, absent}

-- `initRestore`, which nothing calls.
pub init_restore : RestoreSession → BackupConfiguration → SessionState
init_restore session conf = running

-- How the `switch` ends, as for a backup session.
pub data Next : Type 0 where
  put_off : Next
  move : SessionState → RestoreSessionStatus → Next

abbrev pub with_verdict : RestoreSessionStatus → Verdict → Next
with_verdict status v = move v.state (record status { targets = v.targets })

module _ (C : Client) where
  abbrev pub start_session : BackupConfiguration → RestoreSessionStatus → Bool → Action C.World Next
  start_session conf status true = return put_off
  start_session conf status false =
      λ w. (ok (move initializing (record status { targets = init_session (C.clock w) conf })), w)

  abbrev pub checked : RestoreSessionStatus → (C.World → Result Verdict) → Action C.World Next
  checked status check = do v ← read check; return (with_verdict status v)

  -- The `switch`. In a state without a case nothing happens.
  unfoldable pub advance :
      SessionState → BackupConfiguration → RestoreSessionStatus → Action C.World Next
  advance new conf status = do
    ongoing ← read (is_backup_ongoing C conf)
    start_session conf status ongoing
  advance initializing conf status =
      checked status (λ w. check_initialized status.targets conf (C.clock w 0))
  advance running conf status =
      checked status (λ w. check_waiting status.targets conf (C.clock w 0))
  advance finalize conf status =
      checked status (λ w. map_verdict forgiven (check_success status.targets conf (C.clock w 0)))
  advance unset conf status =
      λ w. (ok (move new (record status { start_time = some (C.clock w 0) })), w)
  advance _ conf status = return (move unset status)

  abbrev pub store_state : RestoreSession → Next → Action C.World ReconcileResult
  store_state session put_off = return (record { requeue_after = 30 })
  store_state session (move state status) =
      if same_state state unset
      then return done
      else C.update_status Kind.restore_session
          (record session { status = record status { session_state = state } })
        >> return done

  -- The configuration is that of the backup session which the restore session holds a copy of.
  abbrev pub conf_key : RestoreSession → ObjectKey
  conf_key session =
      let ref = session.spec.backup_session_ref.spec.ref in
      record { namespace = ref.namespace; name = ref.name }

  unfoldable pub reconcile_found :
      RestoreSession → BackupConfiguration → Action C.World ReconcileResult
  reconcile_found session conf = do
    next ← advance session.status.session_state conf session.status
    store_state session next

  -- `Reconcile`
  unfoldable pub reconcile : ObjectKey → Action C.World ReconcileResult
  reconcile req w = elim (C.get Kind.restore_session req w) [
    | err e ↦ absent C e w
    | panic ↦ (panic, w)
    | ok session ↦
        (do
          conf ← read (C.get Kind.backup_configuration (conf_key session))
          reconcile_found session conf)
          w
  ]
