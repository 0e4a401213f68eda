-- ===== src/Session/Stage.antt =====
-- The three stages of a session, by the states that `checkInitialized`, `checkWaiting` and
-- `checkSuccess` pass to `checkSessionState`, and the state that a sidecar reports for a target when
-- it has done the work of the stage (the comments of `Reconcile` name these).
use formol.Prelude.{◌≡◌, ◌≢◌, refl, ap, Bool, true, false, List, arith, eq_iff}
use formol.Api.Meta.{Time}
use formol.Api.Config.{BackupConfiguration}
use formol.Api.Session.{
  SessionState, unset, new, initializing, initialized, running, waiting, finalize, success, other,
  same_state, TargetStatus,
}
use formol.Outcome.{Result}
use formol.Session.{Verdict, check_session_state, check_initialized, check_waiting, check_success}

pub data Stage : Type 0 where
  preparing backing_up finalizing : Stage

abbrev pub current_of : Stage → SessionState
current_of preparing = unset
current_of backing_up = initialized
current_of finalizing = waiting

abbrev pub wait_of : Stage → SessionState
wait_of preparing = initializing
wait_of backing_up = running
wait_of finalizing = finalize

abbrev pub next_of : Stage → SessionState
next_of preparing = running
next_of backing_up = finalize
next_of finalizing = success

abbrev pub done_of : Stage → SessionState
done_of preparing = initialized
done_of backing_up = waiting
done_of finalizing = success

-- The state that the comment of `checkSessionState` gives a target whose job is over. No constant has
-- this text.
abbrev pub finalized_text : SessionState
finalized_text = other "Finalized"

-- The check that `Reconcile` makes in a stage.
unfoldable pub check_stage : Stage → List TargetStatus → BackupConfiguration → Time → Result Verdict
check_stage preparing = check_initialized
check_stage backing_up = check_waiting
check_stage finalizing = check_success

pub check_stage_lem :
    (stage : Stage) (tss : List TargetStatus) (conf : BackupConfiguration) (now : Time)
    → check_stage stage tss conf now
      ≡ check_session_state tss conf now (current_of stage) (wait_of stage) (next_of stage)
unfolding check_stage check_initialized check_waiting check_success
check_stage_lem preparing tss conf now = refl
check_stage_lem backing_up tss conf now = refl
check_stage_lem finalizing tss conf now = refl

pub same_state_eq : (a b : SessionState) → same_state a b ≡ true → a ≡ b
same_state_eq (other s) (other t) h = ap other ((eq_iff s t).0 h)
same_state_eq unset unset h = refl
same_state_eq new new h = refl
same_state_eq _ _ h = ground arith

-- A target that its sidecar works at.
abbrev pub is_busy : Stage → TargetStatus → Bool
is_busy stage ts = same_state ts.session_state (wait_of stage)

-- A target that the stage has not started.
abbrev pub is_current : Stage → TargetStatus → Bool
is_current stage ts = same_state ts.session_state (current_of stage)

pub not_busy_of_current :
    (stage : Stage) (ts : TargetStatus) → is_current stage ts ≡ true → is_busy stage ts ≡ false
not_busy_of_current preparing ts h = rw (same_state_eq ts.session_state unset h)
not_busy_of_current backing_up ts h = rw (same_state_eq ts.session_state initialized h)
not_busy_of_current finalizing ts h = rw (same_state_eq ts.session_state waiting h)

pub wait_of-ne-unset : (stage : Stage) → wait_of stage ≢ unset
wait_of-ne-unset preparing = ground arith
wait_of-ne-unset backing_up = ground arith
wait_of-ne-unset finalizing = ground arith
