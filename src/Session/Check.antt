-- ===== src/Session/Check.antt =====
-- `checkSessionState` against an independent description: the loop passes the targets that have
-- nothing to do, and the first other target decides.
use formol.Prelude.{
  ℕ, suc, ◌+◌, ◌≡◌, Bool, true, false, not, ◌&&◌, ◌||◌, List, [], ◌∷◌, ◌++◌, length, get_elem?,
  is_empty, any, All, arith, if◌then◌else◌,
}
use formol.Api.Meta.{Time}
use formol.Api.Config.{Target, BackupConfiguration}
use formol.Api.Session.{SessionState, unset, waiting_for_job, failure, same_state, TargetStatus}
use formol.Outcome.{Result, ok}
use formol.Session.{Verdict, passing, deferring, check_failed, check_from, check_session_state}

-- A target that waits for a snapshot job.
abbrev pub is_job : TargetStatus → Bool
is_job ts = same_state ts.session_state waiting_for_job

or_false : (a : Bool) → (a || false) ≡ a
or_false a = ground arith

or_assoc : (a b c : Bool) → ((a || b) || c) ≡ (a || (b || c))
or_assoc a b c = ground arith

-- A target at which the loop stops: it can start, has failed, or is busy.
abbrev pub is_open : SessionState → SessionState → TargetStatus → Bool
is_open current wait ts =
    same_state ts.session_state current
    || (same_state ts.session_state failure || same_state ts.session_state wait)

abbrev pub Passed : SessionState → SessionState → List TargetStatus → Type 0
Passed current wait = All (λ ts. is_open current wait ts ≡ false)

abbrev pub passing_all : List TargetStatus → Result Verdict → Result Verdict
passing_all [] r = r
passing_all (ts ∷ pre) r = passing ts (passing_all pre r)

module _ (targets : List Target) (now : Time) (current wait : SessionState) where
  -- What the open target at index `i` makes of the session.
  abbrev pub decide_at : ℕ → Bool → TargetStatus → List TargetStatus → Result Verdict
  decide_at i deferred ts rest =
      if same_state ts.session_state current
      then ok (record {
        state = deferring wait deferred wait;
        targets = record ts { session_state = wait } ∷ rest;
      })
      else if same_state ts.session_state failure
      then check_failed wait now (get_elem? targets i) deferred ts rest
      else ok (record { state = deferring wait deferred unset; targets = ts ∷ rest })

module _ (targets : List Target) (now : Time) (current wait next : SessionState) where
  abbrev check : ℕ → Bool → List TargetStatus → Result Verdict
  check = check_from targets now current wait next

  pub check_from-open :
      (i : ℕ) (deferred : Bool) (ts : TargetStatus) (rest : List TargetStatus)
      → is_open current wait ts ≡ true
      → check i deferred (ts ∷ rest) ≡ decide_at targets now current wait i deferred ts rest
  unfolding check_from
  check_from-open i deferred ts rest h = ground arith

  pub check_from-pass :
      (i : ℕ) (deferred : Bool) (ts : TargetStatus) (rest : List TargetStatus)
      → is_open current wait ts ≡ false
      → check i deferred (ts ∷ rest) ≡ (
          if is_empty rest && not (is_job ts)
          then ok (record { state = deferring wait deferred next; targets = ts ∷ [] })
          else passing ts (check (suc i) (deferred || is_job ts) rest))
  unfolding check_from
  check_from-pass i deferred ts [] h = ground arith
  check_from-pass i deferred ts (r ∷ rest) h = ground arith

  -- With a target after it, a passed target only adds itself to the result.
  check_from-pass_more :
      (i : ℕ) (deferred : Bool) (ts : TargetStatus) (pre : List TargetStatus) (x : TargetStatus)
      (rest : List TargetStatus)
      → is_open current wait ts ≡ false
      → check i deferred (ts ∷ pre ++ x ∷ rest)
        ≡ passing ts (check (suc i) (deferred || is_job ts) (pre ++ x ∷ rest))
  check_from-pass_more i deferred ts [] x rest h = check_from-pass i deferred ts (x ∷ rest) h
  check_from-pass_more i deferred ts (p ∷ pre) x rest h =
      check_from-pass i deferred ts (p ∷ pre ++ x ∷ rest) h

  pub check_from-first_open :
      (i j : ℕ) (deferred : Bool) (pre : List TargetStatus) (ts : TargetStatus)
      (rest : List TargetStatus)
      → i + length pre ≡ j
      → Passed current wait pre
      → is_open current wait ts ≡ true
      → check i deferred (pre ++ ts ∷ rest)
        ≡ passing_all pre
            (decide_at targets now current wait j (deferred || any is_job pre) ts rest)
  check_from-first_open i j deferred [] ts rest e p h =
      let e' : i ≡ j = omega arith in rw (← e', or_false) (check_from-open i deferred ts rest h)
  check_from-first_open i j deferred (x ∷ pre) ts rest e p h = rw (
    check_from-pass_more i deferred x pre ts rest p.0,
    check_from-first_open (suc i) j (deferred || is_job x) pre ts rest (omega arith) p.1 h,
    or_assoc,
  )

  pub check_from-Passed :
      (i : ℕ) (deferred : Bool) (tss : List TargetStatus)
      → Passed current wait tss
      → check i deferred tss
        ≡ ok (record {
          state =
              deferring wait (deferred || any is_job tss) (if is_empty tss then unset else next);
          targets = tss;
        })
  unfolding check_from
  check_from-Passed i deferred [] p = ground arith
  check_from-Passed i deferred (x ∷ []) p = ground arith
  check_from-Passed i deferred (x ∷ y ∷ tss) p = rw (
    check_from-pass i deferred x (y ∷ tss) p.0,
    check_from-Passed (suc i) (deferred || is_job x) (y ∷ tss) p.1,
    or_assoc,
  )

module _ (conf : BackupConfiguration) (now : Time) (current wait next : SessionState) where
  -- The targets before the first open one are passed and stay as they are. The open target decides
  -- the state of the session and what becomes of itself, by its own state and by the retries that
  -- the configuration gives it; the targets after it stay as they are. If a passed target waits
  -- for a job, the state is the wait state whatever was decided.
  pub check_session_state-first_open :
      (pre : List TargetStatus) (ts : TargetStatus) (rest : List TargetStatus)
      → Passed current wait pre
      → is_open current wait ts ≡ true
      → check_session_state (pre ++ ts ∷ rest) conf now current wait next
        ≡ passing_all pre
            (decide_at conf.spec.targets now current wait (length pre) (any is_job pre) ts rest)
  unfolding check_session_state
  check_session_state-first_open pre ts rest p h =
      check_from-first_open conf.spec.targets now current wait next 0 (length pre) false pre ts rest
        (omega arith) p h

  -- If no target is open, none changes. The session takes the next state, or stays where it is if
  -- it has no target at all; if a target waits for a job, it takes the wait state.
  pub check_session_state-Passed :
      (tss : List TargetStatus)
      → Passed current wait tss
      → check_session_state tss conf now current wait next
        ≡ ok (record {
          state = deferring wait (any is_job tss) (if is_empty tss then unset else next);
          targets = tss;
        })
  unfolding check_session_state
  check_session_state-Passed tss p =
      check_from-Passed conf.spec.targets now current wait next 0 false tss p
