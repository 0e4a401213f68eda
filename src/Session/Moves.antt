-- ===== src/Session/Moves.antt =====
-- What one call of `checkSessionState` changes in the list of targets, when it returns, and what
-- its answer says of them.
use formol.Prelude.{
  ℕ, suc, ◌≡◌, refl, ◌≢◌, sym, ◌∙◌, ◌&&◌, not, is_empty, if◌then◌else◌, inl, inr, Bool, true, false,
  ◌||◌, Option, none, some, List, [], ◌∷◌, get_elem?, arith, Bool-cases, ltb_ℤ,
}
use formol.Api.Meta.{Time}
use formol.Api.Config.{Target, BackupConfiguration}
use formol.Api.Session.{SessionState, unset, failure, same_state, TargetStatus}
use formol.Outcome.{Result, ok, err, panic}
use formol.Session.{
  Verdict, passing, deferring, retried, check_failed, check_from, check_session_state,
}
use formol.Session.Check.{is_open, is_job, decide_at, check_from-open, check_from-pass}

-- The list keeps its length, and at most one target of it changes: the first open one. It is
-- started, or tried once more while `Try` is below the `Retry` that the configuration gives it.
pub data Moves (targets : List Target) (now : Time) (current wait : SessionState)
    : ℕ → List TargetStatus → List TargetStatus → Type 0 where
  same : (i : ℕ) (tss : List TargetStatus) → Moves targets now current wait i tss tss
  start :
      (i : ℕ) (ts : TargetStatus) (rest : List TargetStatus)
      → same_state ts.session_state current ≡ true
      → Moves targets now current wait i (ts ∷ rest) (record ts { session_state = wait } ∷ rest)
  retry :
      (i : ℕ) (target : Target) (ts : TargetStatus) (rest : List TargetStatus)
      → same_state ts.session_state failure ≡ true
      → get_elem? targets i ≡ some target
      → ltb_ℤ ts.try target.retry ≡ true
      → Moves targets now current wait i (ts ∷ rest) (retried wait now ts ∷ rest)
  skip :
      (i : ℕ) (ts : TargetStatus) (rest rest' : List TargetStatus)
      → is_open current wait ts ≡ false
      → Moves targets now current wait (suc i) rest rest'
      → Moves targets now current wait i (ts ∷ rest) (ts ∷ rest')

pub is_last-nil :
    (rest : List TargetStatus) (job : Bool) → (is_empty rest && not job) ≡ true → rest ≡ []
is_last-nil [] job h = refl
is_last-nil (x ∷ rest) job h = cc

module _ (targets : List Target) (now : Time) (current wait next : SessionState) where
  abbrev check : ℕ → Bool → List TargetStatus → Result Verdict
  check = check_from targets now current wait next

  ok-injective : (a b : Verdict) → ok a ≡ ok b → a ≡ b
  ok-injective a b h = ground arith

  pub passing-eq-ok :
      (ts : TargetStatus) (r : Result Verdict) (v : Verdict)
      → passing ts r ≡ ok v
      → (u : Verdict) × (r ≡ ok u) × (record u { targets = ts ∷ u.targets } ≡ v)
  passing-eq-ok ts (ok u) v h = (u, refl, ok-injective _ v h)
  passing-eq-ok ts (err e) v h = cc
  passing-eq-ok ts panic v h = cc

  failed-Moves :
      (i : ℕ) (o : Option Target) (deferred : Bool) (ts : TargetStatus) (rest : List TargetStatus)
      (v : Verdict)
      → get_elem? targets i ≡ o
      → same_state ts.session_state failure ≡ true
      → check_failed wait now o deferred ts rest ≡ ok v
      → Moves targets now current wait i (ts ∷ rest) v.targets
  unfolding check_failed
  failed-Moves i none deferred ts rest v o f h = cc
  failed-Moves i (some target) deferred ts rest v o f h =
      elim (Bool-cases (ltb_ℤ ts.try target.retry)) [
        | inl below ↦ rw (← ok-injective _ v (rw below at h)) (retry i target ts rest f o below)
        | inr above ↦ rw (← ok-injective _ v (rw above at h)) (same i (ts ∷ rest))
      ]

  open-Moves :
      (i : ℕ) (deferred : Bool) (ts : TargetStatus) (rest : List TargetStatus) (v : Verdict)
      → decide_at targets now current wait i deferred ts rest ≡ ok v
      → Moves targets now current wait i (ts ∷ rest) v.targets
  open-Moves i deferred ts rest v h = elim (Bool-cases (same_state ts.session_state current)) [
    | inl c ↦ rw (← ok-injective _ v (rw c at h)) (start i ts rest c)
    | inr c ↦ elim (Bool-cases (same_state ts.session_state failure)) [
      | inl f ↦ failed-Moves i _ deferred ts rest v refl f (rw (c, f) at h)
      | inr f ↦ rw (← ok-injective _ v (rw (c, f) at h)) (same i (ts ∷ rest))
    ]
  ]

  -- `last` says that nothing is left after the target and that it waits for no job.
  passed-Moves :
      (i : ℕ) (last deferred : Bool) (ts : TargetStatus) (rest : List TargetStatus)
      (r : Result Verdict) (v : Verdict)
      → is_open current wait ts ≡ false
      → (last ≡ true → rest ≡ [])
      → ((u : Verdict) → r ≡ ok u → Moves targets now current wait (suc i) rest u.targets)
      → (if last
          then ok (record { state = deferring wait deferred next; targets = ts ∷ [] })
          else passing ts r)
        ≡ ok v
      → Moves targets now current wait i (ts ∷ rest) v.targets
  passed-Moves i true deferred ts rest r v o l ih h =
      rw (← ok-injective _ v h, l refl) (same i (ts ∷ []))
  passed-Moves i false deferred ts rest r v o l ih h =
      let (u, later, e) = passing-eq-ok ts r v h in
      rw (← e) (skip i ts rest u.targets o (ih u later))

  pub check_from-Moves :
      (i : ℕ) (deferred : Bool) (tss : List TargetStatus) (v : Verdict)
      → check i deferred tss ≡ ok v
      → Moves targets now current wait i tss v.targets
  unfolding check_from
  check_from-Moves i deferred [] v h = rw (← ok-injective _ v h) (same i [])
  check_from-Moves i deferred (ts ∷ rest) v h = elim (Bool-cases (is_open current wait ts)) [
    | inl o ↦
        open-Moves i deferred ts rest v
          (sym (check_from-open targets now current wait next i deferred ts rest o) ∙ h)
    | inr o ↦
        passed-Moves i _ deferred ts rest _ v o (is_last-nil rest (is_job ts))
          (λ u k. check_from-Moves (suc i) (deferred || is_job ts) rest u k)
          (sym (check_from-pass targets now current wait next i deferred ts rest o) ∙ h)
  ]

  failed_quiet :
      (o : Option Target) (deferred : Bool) (ts : TargetStatus) (rest : List TargetStatus)
      (v : Verdict)
      → wait ≢ unset
      → check_failed wait now o deferred ts rest ≡ ok v
      → v.state ≡ unset
      → v.targets ≡ ts ∷ rest
  unfolding check_failed
  failed_quiet o deferred ts rest v nw h e = ground arith

  open_quiet :
      (i : ℕ) (deferred : Bool) (ts : TargetStatus) (rest : List TargetStatus) (v : Verdict)
      → wait ≢ unset
      → decide_at targets now current wait i deferred ts rest ≡ ok v
      → v.state ≡ unset
      → v.targets ≡ ts ∷ rest
  open_quiet i deferred ts rest v nw h e =
      ground (arith, failed_quiet (get_elem? targets i) deferred ts rest v nw)

  passed_quiet :
      (last deferred : Bool) (ts : TargetStatus) (rest : List TargetStatus) (r : Result Verdict)
      (v : Verdict)
      → (last ≡ true → rest ≡ [])
      → ((u : Verdict) → r ≡ ok u → u.state ≡ unset → u.targets ≡ rest)
      → (if last
          then ok (record { state = deferring wait deferred next; targets = ts ∷ [] })
          else passing ts r)
        ≡ ok v
      → v.state ≡ unset
      → v.targets ≡ ts ∷ rest
  passed_quiet true deferred ts rest r v l ih h e = ground (arith, l refl)
  passed_quiet false deferred ts rest r v l ih h e =
      let (u, later, e') = passing-eq-ok ts r v h in ground (arith, ih u later)

  check_from-quiet :
      (i : ℕ) (deferred : Bool) (tss : List TargetStatus) (v : Verdict)
      → wait ≢ unset
      → check i deferred tss ≡ ok v
      → v.state ≡ unset
      → v.targets ≡ tss
  unfolding check_from
  check_from-quiet i deferred [] v nw h e = ground arith
  check_from-quiet i deferred (ts ∷ rest) v nw h e = elim (Bool-cases (is_open current wait ts)) [
    | inl o ↦
        open_quiet i deferred ts rest v nw
          (sym (check_from-open targets now current wait next i deferred ts rest o) ∙ h) e
    | inr o ↦
        passed_quiet _ deferred ts rest _ v (is_last-nil rest (is_job ts))
          (λ u k q. check_from-quiet (suc i) (deferred || is_job ts) rest u nw k q)
          (sym (check_from-pass targets now current wait next i deferred ts rest o) ∙ h) e
  ]

module _ (tss : List TargetStatus) (conf : BackupConfiguration) (now : Time)
    (current wait next : SessionState) where
  -- A check that returns changes at most one target, the first open one: it starts it, or it tries a
  -- failed one again while `Try` is below `Retry`. If the wait state is not "" and the answer is "",
  -- which is not stored, it has changed no target.
  pub check_session_state-Moves :
      (v : Verdict)
      → wait ≢ unset
      → check_session_state tss conf now current wait next ≡ ok v
      → Moves conf.spec.targets now current wait 0 tss v.targets
        × (v.state ≡ unset → v.targets ≡ tss)
  unfolding check_session_state
  check_session_state-Moves v nw h = (
    check_from-Moves conf.spec.targets now current wait next 0 false tss v h,
    check_from-quiet conf.spec.targets now current wait next 0 false tss v nw h,
  )
