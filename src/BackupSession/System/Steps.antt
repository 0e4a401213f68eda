-- ===== src/BackupSession/System/Steps.antt =====
-- Steps of the system that a run of the reconciler, or the sidecar of a target, can make next.
use formol.Prelude.{◌≡◌, ◌≢◌, refl, ◌⊎◌, inl, true, ◌||◌, List, [], ◌∷◌, ◌++◌, if◌then◌else◌}
use formol.Api.Config.{BackupConfiguration}
use formol.Api.Session.{
  SessionState, unset, success, failure, same_state, TargetStatus, BackupSessionStatus,
}
use formol.Client.{Client}
use formol.Outcome.{ok}
use formol.Session.{Verdict}
use formol.Session.Check.{is_job}
use formol.Session.Stage.{Stage, preparing, backing_up, finalizing, wait_of, check_stage, is_busy}
use formol.Session.Rounds.{finished}
use formol.Retention.{Dated}
use formol.BackupSession.{move, advance}
use formol.BackupSession.System.{Works, report, later, Step, reconciled, reported}

-- A session in a stage, with its targets.
abbrev pub at_stage : Stage → BackupSessionStatus → List TargetStatus → BackupSessionStatus
at_stage stage status tss = record status { session_state = wait_of stage; targets = tss }

-- The state that `advance` makes of the answer of a check.
abbrev pub judged : Stage → SessionState → SessionState
judged finalizing state = if same_state state failure then success else state
judged _ state = state

Works-append :
    (stage : Stage) (pre : List TargetStatus) {tss tss' : List TargetStatus}
    → Works stage tss tss'
    → Works stage (pre ++ tss) (pre ++ tss')
Works-append stage [] r = r
Works-append stage (ts ∷ pre) r = later ts _ _ (Works-append stage pre r)

module _ (C : Client) (newest_first : List Dated → List Dated) where
  -- Success or Failure can be reached.
  pub data CanEnd : BackupSessionStatus → Type 0 where
    over :
        {a : BackupSessionStatus}
        → (a.session_state ≡ success) ⊎ (a.session_state ≡ failure)
        → CanEnd a
    goes_on : {a b : BackupSessionStatus} → Step C newest_first a b → CanEnd b → CanEnd a

  -- The sidecar of a target that it works at succeeds.
  pub target_done :
      (stage : Stage) (status : BackupSessionStatus) (pre : List TargetStatus) (ts : TargetStatus)
      (rest : List TargetStatus)
      → (is_busy stage ts || is_job ts) ≡ true
      → Step C newest_first
          (at_stage stage status (pre ++ ts ∷ rest))
          (at_stage stage status (pre ++ finished stage ts ∷ rest))
  target_done stage status pre ts rest h =
      reported stage (at_stage stage status (pre ++ ts ∷ rest)) _ refl
        (Works-append stage pre (report ts (finished stage ts) rest h (inl refl)))

  advance-judged :
      (stage : Stage) (conf : BackupConfiguration) (status : BackupSessionStatus) (w : C.World)
      (v : Verdict)
      → check_stage stage status.targets conf (C.clock w 0) ≡ ok v
      → advance C newest_first (wait_of stage) conf status w
        ≡ (ok (move (judged stage v.state) (record status { targets = v.targets })), w)
  unfolding advance check_stage
  advance-judged preparing conf status w v h = rw h
  advance-judged backing_up conf status w v h = rw h
  advance-judged finalizing conf status w v h = rw h

  -- A run that checks a stage.
  pub stage_checked :
      (stage : Stage) (conf : BackupConfiguration) (status : BackupSessionStatus) (w : C.World)
      (tss : List TargetStatus) (v : Verdict)
      → check_stage stage tss conf (C.clock w 0) ≡ ok v
      → judged stage v.state ≢ unset
      → Step C newest_first
          (at_stage stage status tss)
          (record status { session_state = judged stage v.state; targets = v.targets })
  stage_checked stage conf status w tss v h n =
      reconciled conf (at_stage stage status tss)
        (record (at_stage stage status tss) { targets = v.targets }) (judged stage v.state) w w
        (advance-judged stage conf (at_stage stage status tss) w v h) n
