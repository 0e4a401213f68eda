-- ===== src/Session/Order.antt =====
-- How many targets are worked at at the same time within a stage.
use formol.Prelude.{
  ℕ, suc, ◌+◌, ◌≤◌, ◌≡◌, refl, sym, ◌∙◌, true, false, List, [], ◌∷◌, count_if, All, arith,
}
use mathlib.Core.Path.{subst}
use formol.Api.Meta.{Time}
use formol.Api.Config.{Target, BackupConfiguration}
use formol.Api.Session.{
  SessionState, unset, initialized, waiting, failure, same_state, TargetStatus,
}
use formol.Outcome.{ok}
use formol.Session.{Verdict}
use formol.Session.Check.{is_open, is_job}
use formol.Session.Moves.{Moves, same, start, retry, skip, check_session_state-Moves}
use formol.Session.Stage.{
  Stage, preparing, backing_up, finalizing, wait_of-ne-unset, same_state_eq, current_of, wait_of,
  next_of, check_stage, check_stage_lem, is_busy, is_current, not_busy_of_current,
}

-- Some targets come first of which at most k are open (to be worked at, busy or failed), and then those
-- that the stage has not started.
pub data Opened (stage : Stage) : ℕ → List TargetStatus → Type 0 where
  untouched :
      {k : ℕ} (tss : List TargetStatus)
      → All (λ t. is_current stage t ≡ true) tss
      → Opened stage k tss
  closed :
      {k : ℕ} (ts : TargetStatus) {rest : List TargetStatus}
      → is_open (current_of stage) (wait_of stage) ts ≡ false
      → Opened stage k rest
      → Opened stage k (ts ∷ rest)
  opened :
      {k : ℕ} (ts : TargetStatus) {rest : List TargetStatus}
      → Opened stage k rest
      → Opened stage (suc k) (ts ∷ rest)

Opened-suc :
    (stage : Stage) {k : ℕ} {tss : List TargetStatus}
    → Opened stage k tss
    → Opened stage (suc k) tss
Opened-suc stage (untouched tss h) = untouched tss h
Opened-suc stage (closed ts c o) = closed ts c (Opened-suc stage o)
Opened-suc stage (opened ts o) = opened ts (Opened-suc stage o)

count-busy_of_current :
    (stage : Stage) (tss : List TargetStatus)
    → All (λ t. is_current stage t ≡ true) tss
    → count_if (is_busy stage) tss ≡ 0
count-busy_of_current stage [] h = refl
count-busy_of_current stage (ts ∷ rest) h =
    rw (not_busy_of_current stage ts h.0) (count-busy_of_current stage rest h.1)

count-busy-le :
    (stage : Stage) {k : ℕ} {tss : List TargetStatus}
    → Opened stage k tss
    → count_if (is_busy stage) tss ≤ k
count-busy-le stage (untouched tss h) = omega (arith, count-busy_of_current stage tss h)
count-busy-le stage (closed ts c o) = ground (arith, count-busy-le stage o)
count-busy-le stage (opened ts o) = ground (arith, count-busy-le stage o)

Moves-Opened :
    (stage : Stage) {targets : List Target} {now : Time} {i : ℕ} {tss tss' : List TargetStatus}
    {k : ℕ}
    → Moves targets now (current_of stage) (wait_of stage) i tss tss'
    → Opened stage (suc k) tss
    → Opened stage (suc k) tss'
Moves-Opened stage (same i tss) o = o
Moves-Opened stage (start i ts rest c) (untouched _ h) = opened _ (untouched rest h.1)
Moves-Opened stage (start i ts rest c) (closed _ n o) = ground arith
Moves-Opened stage (start i ts rest c) (opened _ o) = opened _ o
Moves-Opened stage (retry i target ts rest f b below) (untouched _ h) =
    opened _ (untouched rest h.1)
Moves-Opened stage (retry i target ts rest f b below) (closed _ n o) = ground arith
Moves-Opened stage (retry i target ts rest f b below) (opened _ o) = opened _ o
Moves-Opened stage (skip i ts rest rest' c m) (untouched _ h) =
    closed ts c (Moves-Opened stage m (untouched rest h.1))
Moves-Opened stage (skip i ts rest rest' c m) (closed _ n o) = closed ts c (Moves-Opened stage m o)
Moves-Opened stage (skip i ts rest rest' c m) (opened _ o) =
    closed ts c (Moves-Opened stage m (Opened-suc stage o))

-- What the sidecars do to the targets in a stage, with the number of jobs that open their target
-- again: the sidecar of a busy target reports any state, and so does a job. A job that is over without
-- a failure leaves its target passed; any other report of a job counts.
pub data Reports (stage : Stage) : ℕ → List TargetStatus → List TargetStatus → Type 0 where
  report :
      (ts : TargetStatus) (state : SessionState) (rest : List TargetStatus)
      → is_busy stage ts ≡ true
      → Reports stage 0 (ts ∷ rest) (record ts { session_state = state } ∷ rest)
  job_over :
      (ts : TargetStatus) (state : SessionState) (rest : List TargetStatus)
      → is_job ts ≡ true
      → same_state state (current_of stage) ≡ false
      → same_state state (wait_of stage) ≡ false
      → same_state state failure ≡ false
      → Reports stage 0 (ts ∷ rest) (record ts { session_state = state } ∷ rest)
  job_back :
      (ts : TargetStatus) (state : SessionState) (rest : List TargetStatus)
      → is_job ts ≡ true
      → Reports stage 1 (ts ∷ rest) (record ts { session_state = state } ∷ rest)
  later :
      {n : ℕ} (ts : TargetStatus) (rest rest' : List TargetStatus)
      → Reports stage n rest rest'
      → Reports stage n (ts ∷ rest) (ts ∷ rest')

not_job_of_current :
    (stage : Stage) (ts : TargetStatus) → is_current stage ts ≡ true → is_job ts ≡ false
not_job_of_current preparing ts h = rw (same_state_eq ts.session_state unset h)
not_job_of_current backing_up ts h = rw (same_state_eq ts.session_state initialized h)
not_job_of_current finalizing ts h = rw (same_state_eq ts.session_state waiting h)

not_Reports_of_current :
    (stage : Stage) {n : ℕ} {tss tss' : List TargetStatus}
    → Reports stage n tss tss'
    → ¬ All (λ t. is_current stage t ≡ true) tss
not_Reports_of_current stage (report ts state rest b) h = cc (not_busy_of_current stage ts h.0)
not_Reports_of_current stage (job_over ts state rest j _ _ _) h =
    cc (not_job_of_current stage ts h.0)
not_Reports_of_current stage (job_back ts state rest j) h = cc (not_job_of_current stage ts h.0)
not_Reports_of_current stage (later ts rest rest' r) h = not_Reports_of_current stage r h.1

suc_moved : (n k : ℕ) → suc (n + k) ≡ n + suc k
suc_moved n k = omega arith

plus_zero : (k : ℕ) → k ≡ 0 + k
plus_zero k = omega arith

plus_one : (k : ℕ) → suc k ≡ 1 + k
plus_one k = omega arith

Opened-subst :
    (stage : Stage) {k m : ℕ} {tss : List TargetStatus}
    → k ≡ m
    → Opened stage k tss
    → Opened stage m tss
Opened-subst stage {tss = tss} e o = subst (λ j. Opened stage j tss) e o

Reports-Opened :
    (stage : Stage) {n k : ℕ} {tss tss' : List TargetStatus}
    → Reports stage n tss tss'
    → Opened stage k tss
    → Opened stage (n + k) tss'
Reports-Opened stage r (untouched _ h) = absurd (not_Reports_of_current stage r h)
Reports-Opened stage (report ts state rest b) (closed _ c o) = ground arith
Reports-Opened stage (report ts state rest b) (opened {k} _ o) =
    Opened-subst stage (plus_zero (suc k)) (opened _ o)
Reports-Opened stage {k = k} (job_over ts state rest j c w f) (closed _ _ o) =
    Opened-subst stage (plus_zero k) (closed _ (ground arith) o)
Reports-Opened stage (job_over ts state rest j c w f) (opened {k} _ o) =
    Opened-subst stage (plus_zero (suc k)) (opened _ o)
Reports-Opened stage {k = k} (job_back ts state rest j) (closed _ c o) =
    Opened-subst stage (plus_one k) (opened _ o)
Reports-Opened stage (job_back ts state rest j) (opened {k} _ o) =
    Opened-subst stage (plus_one (suc k)) (opened _ (Opened-suc stage o))
Reports-Opened stage (later ts rest rest' r) (closed _ c o) = closed ts c (Reports-Opened stage r o)
Reports-Opened stage {n = n} (later ts rest rest' r) (opened {k} _ o) =
    Opened-subst stage (suc_moved n k) (opened ts (Reports-Opened stage r o))

-- A stage as it goes: checks by the controller, and reports by the sidecars, in any order, with the
-- number of jobs that have opened their target again.
pub data Runs (conf : BackupConfiguration) (stage : Stage) (tss : List TargetStatus)
    : ℕ → List TargetStatus → Type 0 where
  begin : Runs conf stage tss 0 tss
  checked :
      {n : ℕ} {tss' : List TargetStatus} (now : Time) (v : Verdict)
      → Runs conf stage tss n tss'
      → check_stage stage tss' conf now ≡ ok v
      → Runs conf stage tss n v.targets
  reported :
      {n m : ℕ} {tss' tss'' : List TargetStatus}
      → Runs conf stage tss n tss'
      → Reports stage m tss' tss''
      → Runs conf stage tss (m + n) tss''

Runs-Opened :
    (conf : BackupConfiguration) (stage : Stage) {tss : List TargetStatus} {n : ℕ}
    {tss' : List TargetStatus}
    → Runs conf stage tss n tss'
    → All (λ t. is_current stage t ≡ true) tss
    → Opened stage (suc n) tss'
Runs-Opened conf stage begin h = untouched _ h
Runs-Opened conf stage (checked {tss' = b} now v r e) h =
    Moves-Opened stage
      (check_session_state-Moves b conf now (current_of stage) (wait_of stage) (next_of stage) v
        (wait_of-ne-unset stage) (sym (check_stage_lem stage b conf now) ∙ e)).0
      (Runs-Opened conf stage r h)
Runs-Opened conf stage (reported {n} {m} r s) h =
    Opened-subst stage (sym (suc_moved m n)) (Reports-Opened stage s (Runs-Opened conf stage r h))

-- Let a stage begin with every target in the state that the stage starts from, and go on by checks of
-- the controller and reports of the sidecars of busy targets and of jobs, in any order. If no job fails
-- or starts its target again, at most one target is busy at any time; each job that does can make one
-- more busy at the same time. The targets that are not started yet come last.
pub Runs-sequential :
    (conf : BackupConfiguration) (stage : Stage) {tss : List TargetStatus} {n : ℕ}
    {tss' : List TargetStatus}
    → All (λ t. is_current stage t ≡ true) tss
    → Runs conf stage tss n tss'
    → Opened stage (suc n) tss' × (count_if (is_busy stage) tss' ≤ suc n)
Runs-sequential conf stage h r = let o = Runs-Opened conf stage r h in (o, count-busy-le stage o)
