-- ===== src/Session/Returns.antt =====
-- Whether `checkSessionState` returns, or panics on the index of a target.
use formol.Prelude.{
  ℕ, suc, ◌+◌, ◌≤◌, ◌≡◌, refl, if◌then◌else◌, inl, inr, Bool, true, false, ◌||◌, some, List, [],
  ◌∷◌, length, get_elem?, get_elem?-some, arith, Bool-cases,
}
use formol.Api.Meta.{Time}
use formol.Api.Config.{Target, BackupConfiguration}
use formol.Api.Session.{SessionState, TargetStatus}
use formol.Outcome.{Result, ok, err, panic}
use formol.Session.{Verdict, passing, check_failed, check_from, check_session_state}
use formol.Session.Check.{is_open, is_job, decide_at, check_from-open, check_from-pass}

abbrev is_ok : Result Verdict → Bool
is_ok (ok _) = true
is_ok _ = false

is_ok-eq : (r : Result Verdict) → is_ok r ≡ true → (v : Verdict) × (r ≡ ok v)
is_ok-eq (ok v) h = (v, refl)
is_ok-eq (err _) h = cc
is_ok-eq panic h = cc

module _ (targets : List Target) (now : Time) (current wait next : SessionState) where
  abbrev check : ℕ → Bool → List TargetStatus → Result Verdict
  check = check_from targets now current wait next

  open_returns :
      (i : ℕ) (deferred : Bool) (ts : TargetStatus) (rest : List TargetStatus) (target : Target)
      → get_elem? targets i ≡ some target
      → is_ok (decide_at targets now current wait i deferred ts rest) ≡ true
  unfolding check_failed
  open_returns i deferred ts rest target found = rw found (ground arith)

  passed_returns :
      (last : Bool) (ts : TargetStatus) (v : Verdict) (r : Result Verdict)
      → is_ok r ≡ true
      → is_ok (if last then ok v else passing ts r) ≡ true
  passed_returns last ts v r h = ground arith

  check_from-returns :
      (i : ℕ) (deferred : Bool) (tss : List TargetStatus)
      → i + length tss ≤ length targets
      → is_ok (check i deferred tss) ≡ true
  unfolding check_from
  check_from-returns i deferred [] h = refl
  check_from-returns i deferred (ts ∷ rest) h =
      let (target, found) = get_elem?-some targets i (omega arith) in
      elim (Bool-cases (is_open current wait ts)) [
        | inl o ↦
            rw (check_from-open targets now current wait next i deferred ts rest o)
              (open_returns i deferred ts rest target found)
        | inr o ↦ rw (check_from-pass targets now current wait next i deferred ts rest o) (
            passed_returns _ ts _ _
              (check_from-returns (suc i) (deferred || is_job ts) rest (omega arith)))
      ]

module _ (tss : List TargetStatus) (conf : BackupConfiguration) (now : Time)
    (current wait next : SessionState) where
  -- If the session has at most as many targets as the configuration, the check returns: it does not
  -- panic on the index of a failed target.
  pub check_session_state_total :
      length tss ≤ length conf.spec.targets
      → (v : Verdict) × (check_session_state tss conf now current wait next ≡ ok v)
  unfolding check_session_state
  check_session_state_total h =
      is_ok-eq _
        (check_from-returns conf.spec.targets now current wait next 0 false tss (omega arith))
