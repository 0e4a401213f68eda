-- ===== src/Session.antt =====
-- controllers/session.go: what the two session controllers share.
pub mod Check
pub mod Moves
pub mod Returns
pub mod Within
pub mod Next
pub mod Health
pub mod Stage
pub mod Order
pub mod Rounds
pub mod Ready
use formol.Prelude.{
  ℕ, zero, suc, ◌+◌, ltb, length, String, Bool, true, false, ◌||◌, Option, none, some, List, [],
  ◌∷◌, get_elem?, is_empty, ltb_ℤ, suc_ℤ, pos, if◌then◌else◌,
}
use formol.Api.Meta.{Time}
use formol.Api.Config.{Target, BackupConfiguration}
use formol.Api.Session.{
  SessionState, unset, initializing, initialized, running, waiting, waiting_for_job, finalize,
  success, failure, same_state, TargetStatus, BackupSession,
}
use formol.Client.{Client}
use formol.Outcome.{Result, ok, err, panic}

module _ (C : Client) where
  -- `isBackupOngoing`. A list that fails counts as an ongoing backup.
  unfoldable pub is_backup_ongoing : BackupConfiguration → C.World → Result Bool
  is_backup_ongoing conf w = elim (C.list_backup_sessions conf.metadata.namespace running w) [
    | ok items ↦ ok (ltb 0 (length items))
    | err _ ↦ ok true
    | panic ↦ panic
  ]

-- `initSession`: the loop over the targets, with the clock read once for each.
unfoldable pub init_targets : (ℕ → Time) → ℕ → List Target → List TargetStatus
init_targets clock i [] = []
init_targets clock i (target ∷ rest) =
    record {
      backup_type = target.backup_type;
      target_name = target.target_name;
      target_kind = target.target_kind;
      session_state = unset;
      snapshot_id = "";
      start_time = some (clock i);
      duration = none;
      try = pos 1;
    }
    ∷ init_targets clock (suc i) rest

unfoldable pub init_session : (ℕ → Time) → BackupConfiguration → List TargetStatus
unfolding init_targets
init_session clock conf = init_targets clock 0 conf.spec.targets

-- The state that `checkSessionState` returns, and the targets as it leaves them.
pub record Verdict : Type 0 where
  pub state : SessionState
  pub targets : List TargetStatus

-- The targets that the loop has passed stay as they are.
abbrev pub passing : TargetStatus → Result Verdict → Result Verdict
passing ts (ok v) = ok (record v { targets = ts ∷ v.targets })
passing ts (err e) = err e
passing ts panic = panic

-- A deferred function sets the returned state to `waitState`.
abbrev pub deferring : SessionState → Bool → SessionState → SessionState
deferring wait true state = wait
deferring wait false state = state

abbrev pub retried : SessionState → Time → TargetStatus → TargetStatus
retried wait now ts = record ts { session_state = wait; try = suc_ℤ ts.try; start_time = some now }

-- The case of a failed target. `Spec.Targets[i]` panics where the configuration has no target i.
unfoldable pub check_failed :
    SessionState → Time → Option Target → Bool → TargetStatus → List TargetStatus → Result Verdict
check_failed wait now none deferred ts rest = panic
check_failed wait now (some target) deferred ts rest =
    if ltb_ℤ ts.try target.retry
    then ok (record { state = deferring wait deferred wait; targets = retried wait now ts ∷ rest })
    else ok (record { state = deferring wait deferred failure; targets = ts ∷ rest })

module _ (targets : List Target) (now : Time) (current wait next : SessionState) where
  -- The loop from index `i`; `deferred` says whether a function has been deferred.
  -- `i == len(tss)-1` holds where no target is left.
  unfoldable pub check_from : ℕ → Bool → List TargetStatus → Result Verdict
  unfolding check_failed
  check_from i deferred [] = ok (record { state = deferring wait deferred unset; targets = [] })
  check_from i deferred (ts ∷ rest) =
      let is_job = same_state ts.session_state waiting_for_job in
      let later = passing ts (check_from (suc i) (deferred || is_job) rest) in
      if same_state ts.session_state current
      then ok (record {
        state = deferring wait deferred wait;
        targets = record ts { session_state = wait } ∷ rest;
      })
      else if same_state ts.session_state failure
      then check_failed wait now (get_elem? targets i) deferred ts rest
      else if same_state ts.session_state wait
      then ok (record { state = deferring wait deferred unset; targets = ts ∷ rest })
      else if is_job
      then later
      else if is_empty rest
      then ok (record { state = deferring wait deferred next; targets = ts ∷ rest })
      else later

unfoldable pub check_session_state :
    List TargetStatus
    → BackupConfiguration
    → Time
    → SessionState
    → SessionState
    → SessionState
    → Result Verdict
unfolding check_from
check_session_state tss conf now current wait next =
    check_from conf.spec.targets now current wait next 0 false tss

unfoldable pub check_initialized : List TargetStatus → BackupConfiguration → Time → Result Verdict
unfolding check_session_state
check_initialized tss conf now = check_session_state tss conf now unset initializing running

unfoldable pub check_waiting : List TargetStatus → BackupConfiguration → Time → Result Verdict
unfolding check_session_state
check_waiting tss conf now = check_session_state tss conf now initialized running finalize

unfoldable pub check_success : List TargetStatus → BackupConfiguration → Time → Result Verdict
unfolding check_session_state
check_success tss conf now = check_session_state tss conf now waiting finalize success
