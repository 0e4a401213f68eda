-- ===== src/Session/Next.antt =====
-- When `checkSessionState` lets a session go on to the next state.
use formol.Prelude.{
  ℕ, suc, ◌≡◌, ◌≢◌, refl, sym, ap, ◌∙◌, Bool, true, false, not, ◌&&◌, ◌||◌, List, [], ◌∷◌, any,
  is_empty, get_elem?, Option, Bool-cases, inl, inr, if◌then◌else◌, arith,
}
use formol.Api.Meta.{Time}
use formol.Api.Config.{Target, BackupConfiguration}
use formol.Api.Session.{SessionState, unset, failure, TargetStatus}
use formol.Outcome.{Result, ok}
use formol.Session.{Verdict, passing, deferring, check_failed, check_from, check_session_state}
use formol.Session.Check.{is_open, is_job, Passed, decide_at, check_from-open, check_from-pass}
use formol.Session.Moves.{passing-eq-ok, is_last-nil}

-- The next state is none of the other states that a check can answer.
abbrev pub IsNext : SessionState → SessionState → Type 0
IsNext wait next = (wait ≢ next) × (unset ≢ next) × (failure ≢ next)

-- Nothing is left to do for the targets.
abbrev pub IsOver : SessionState → SessionState → List TargetStatus → Type 0
IsOver current wait tss = Passed current wait tss × (any is_job tss ≡ false)

or-eq-false : (a b : Bool) → (a || b) ≡ false → (a ≡ false) × (b ≡ false)
or-eq-false a b h = ground arith

alone :
    (rest : List TargetStatus) (job : Bool)
    → (is_empty rest && not job) ≡ true
    → (rest ≡ []) × (job ≡ false)
alone rest job h = (is_last-nil rest job h, ground arith)

module _ (targets : List Target) (now : Time) (current wait next : SessionState)
    (distinct : IsNext wait next) where
  deferring-next :
      (deferred : Bool) (state : SessionState)
      → deferring wait deferred state ≡ next
      → (deferred ≡ false) × (state ≡ next)
  deferring-next true state h = absurd (distinct.0 h)
  deferring-next false state h = (refl, h)

  ok_state :
      (s : SessionState) (tss : List TargetStatus) (v : Verdict)
      → ok (record { state = s; targets = tss }) ≡ ok v
      → (s ≡ v.state) × (tss ≡ v.targets)
  ok_state s tss v h = ground arith

  failed_stays :
      (o : Option Target) (deferred : Bool) (ts : TargetStatus) (rest : List TargetStatus)
      (v : Verdict)
      → check_failed wait now o deferred ts rest ≡ ok v
      → v.state ≢ next
  unfolding check_failed
  failed_stays o deferred ts rest v h e = ground (arith, distinct.0, distinct.1, distinct.2)

  open_stays :
      (i : ℕ) (deferred : Bool) (ts : TargetStatus) (rest : List TargetStatus) (v : Verdict)
      → decide_at targets now current wait i deferred ts rest ≡ ok v
      → v.state ≢ next
  open_stays i deferred ts rest v h e =
      ground (arith, distinct.0, distinct.1, failed_stays (get_elem? targets i) deferred ts rest v)

  passed_next :
      (last deferred : Bool) (ts : TargetStatus) (rest : List TargetStatus) (r : Result Verdict)
      (v : Verdict)
      → is_open current wait ts ≡ false
      → (last ≡ true → (rest ≡ []) × (is_job ts ≡ false))
      → ((u : Verdict)
          → r ≡ ok u
          → u.state ≡ next
          → ((deferred || is_job ts) ≡ false) × IsOver current wait rest × (u.targets ≡ rest))
      → (if last
          then ok (record { state = deferring wait deferred next; targets = ts ∷ [] })
          else passing ts r)
        ≡ ok v
      → v.state ≡ next
      → (deferred ≡ false) × IsOver current wait (ts ∷ rest) × (v.targets ≡ ts ∷ rest)
  passed_next true deferred ts rest r v o l ih h e =
      let (empty, no_job) = l refl in
      let (same, same_targets) = ok_state _ _ v h in
      let (quiet, _) = deferring-next deferred next (same ∙ e) in
      rw (empty, no_job) (quiet, ((o, tt), refl), sym same_targets)
  passed_next false deferred ts rest r v o l ih h e =
      let (u, later, added) = passing-eq-ok targets now current wait next ts r v h in
      let (quiet, (passed, no_jobs), same) = ih u later (ap (λ x. x.state) added ∙ e) in
      let (quiet_before, no_job) = or-eq-false deferred (is_job ts) quiet in
      (
        quiet_before,
        ((o, passed), rw (no_job, no_jobs)),
        sym (ap (λ x. x.targets) added) ∙ ap (λ rest'. ts ∷ rest') same,
      )

  check_from-next :
      (i : ℕ) (deferred : Bool) (tss : List TargetStatus) (v : Verdict)
      → check_from targets now current wait next i deferred tss ≡ ok v
      → v.state ≡ next
      → (deferred ≡ false) × IsOver current wait tss × (v.targets ≡ tss)
  unfolding check_from
  check_from-next i deferred [] v h e =
      let (same, _) = ok_state _ _ v h in
      absurd (distinct.1 (deferring-next deferred unset (same ∙ e)).1)
  check_from-next i deferred (ts ∷ rest) v h e = elim (Bool-cases (is_open current wait ts)) [
    | inl o ↦ absurd (
        open_stays i deferred ts rest v
          (sym (check_from-open targets now current wait next i deferred ts rest o) ∙ h) e)
    | inr o ↦
        passed_next _ deferred ts rest _ v o (alone rest (is_job ts))
          (λ u k q. check_from-next (suc i) (deferred || is_job ts) rest u k q)
          (sym (check_from-pass targets now current wait next i deferred ts rest o) ∙ h) e
  ]

module _ (conf : BackupConfiguration) (now : Time) (current wait next : SessionState)
    (distinct : IsNext wait next) where
  -- Where the next state is none of the other answers, a check that answers it has found no target
  -- that could start, has failed or is busy, and no target that waits for a job, and it has changed
  -- nothing.
  pub check_session_state-next :
      (tss : List TargetStatus) (v : Verdict)
      → check_session_state tss conf now current wait next ≡ ok v
      → v.state ≡ next
      → IsOver current wait tss × (v.targets ≡ tss)
  unfolding check_session_state
  check_session_state-next tss v h e =
      let (_, over, same) =
        check_from-next conf.spec.targets now current wait next distinct 0 false tss v h e in
      (over, same)
