-- ===== src/Session/Health.antt =====
-- The states that the targets of a session can have in a stage, and what a check does to them.
use formol.Prelude.{ℕ, ◌≡◌, refl, sym, ◌∙◌, Bool, true, ◌||◌, List, [], ◌∷◌, All, arith}
use formol.Api.Meta.{Time}
use formol.Api.Config.{Target, BackupConfiguration}
use formol.Api.Session.{failure, same_state, TargetStatus}
use formol.Outcome.{ok}
use formol.Session.{Verdict}
use formol.Session.Check.{is_job}
use formol.Session.Moves.{Moves, same, start, retry, skip, check_session_state-Moves}
use formol.Session.Next.{IsNext, IsOver, check_session_state-next}
use formol.Session.Stage.{
  Stage, preparing, backing_up, finalizing, current_of, wait_of, next_of, done_of, finalized_text,
  check_stage, check_stage_lem, is_busy, is_current, wait_of-ne-unset,
}

abbrev pub is_done : Stage → TargetStatus → Bool
is_done stage ts =
    same_state ts.session_state (done_of stage) || same_state ts.session_state finalized_text

-- Not started, busy, waiting for a job, done or failed.
abbrev pub is_sound : Stage → TargetStatus → Bool
is_sound stage ts =
    is_current stage ts
    || (is_busy stage ts
        || (is_job ts || (is_done stage ts || same_state ts.session_state failure)))

abbrev pub AllSound : Stage → List TargetStatus → Type 0
AllSound stage = All (λ ts. is_sound stage ts ≡ true)

abbrev pub AllDone : Stage → List TargetStatus → Type 0
AllDone stage = All (λ ts. is_done stage ts ≡ true)

stage-IsNext : (stage : Stage) → IsNext (wait_of stage) (next_of stage)
stage-IsNext preparing = (λ e. ground arith, λ e. ground arith, λ e. ground arith)
stage-IsNext backing_up = (λ e. ground arith, λ e. ground arith, λ e. ground arith)
stage-IsNext finalizing = (λ e. ground arith, λ e. ground arith, λ e. ground arith)

started_sound :
    (stage : Stage) (ts : TargetStatus)
    → ts.session_state ≡ wait_of stage
    → is_sound stage ts ≡ true
started_sound preparing ts h = rw h
started_sound backing_up ts h = rw h
started_sound finalizing ts h = rw h

Moves-AllSound :
    (stage : Stage) {targets : List Target} {now : Time} {i : ℕ} {tss tss' : List TargetStatus}
    → Moves targets now (current_of stage) (wait_of stage) i tss tss'
    → AllSound stage tss
    → AllSound stage tss'
Moves-AllSound stage (same i tss) h = h
Moves-AllSound stage (start i ts rest c) h =
    (started_sound stage (record ts { session_state = wait_of stage }) refl, h.1)
Moves-AllSound stage (retry i target ts rest f o below) h =
    (started_sound stage (record ts { session_state = wait_of stage }) refl, h.1)
Moves-AllSound stage (skip i ts rest rest' o m) h = (h.0, Moves-AllSound stage m h.1)

over-AllDone :
    (stage : Stage) (tss : List TargetStatus)
    → AllSound stage tss
    → IsOver (current_of stage) (wait_of stage) tss
    → AllDone stage tss
over-AllDone stage [] h o = tt
over-AllDone stage (ts ∷ rest) h ((closed, passed), no_job) =
    (ground arith, over-AllDone stage rest h.1 (passed, ground arith))

-- A check of a stage keeps the targets sound, and lets the session go on only if every target has
-- done the work of the stage.
pub check_stage-AllSound :
    (stage : Stage) (tss : List TargetStatus) (conf : BackupConfiguration) (now : Time)
    (v : Verdict)
    → check_stage stage tss conf now ≡ ok v
    → AllSound stage tss
    → AllSound stage v.targets × (v.state ≡ next_of stage → AllDone stage v.targets)
check_stage-AllSound stage tss conf now v h sound =
    let run = sym (check_stage_lem stage tss conf now) ∙ h in
    (
      Moves-AllSound stage
          (check_session_state-Moves tss conf now (current_of stage) (wait_of stage) (next_of stage)
            v (wait_of-ne-unset stage) run).0
          sound,
      λ e.
          let (over, unchanged) =
            check_session_state-next conf now (current_of stage) (wait_of stage) (next_of stage)
              (stage-IsNext stage) tss v run e in
          rw unchanged (over-AllDone stage tss sound over),
    )

-- The targets that have done the work of a stage are those that the following stage has not started.
pub done-sound_backing_up :
    (tss : List TargetStatus) → AllDone preparing tss → AllSound backing_up tss
done-sound_backing_up [] h = tt
done-sound_backing_up (ts ∷ rest) h = (ground arith, done-sound_backing_up rest h.1)

pub done-sound_finalizing :
    (tss : List TargetStatus) → AllDone backing_up tss → AllSound finalizing tss
done-sound_finalizing [] h = tt
done-sound_finalizing (ts ∷ rest) h = (ground arith, done-sound_finalizing rest h.1)
