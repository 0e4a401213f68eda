-- ===== src/BackupSession/System/Stages.antt =====
-- From a stage of a session to the end of the stage.
use formol.Prelude.{
  ◌+◌, ◌≤◌, ◌<◌, ◌≡◌, refl, sym, ◌⊎◌, inl, inr, Bool-cases, true, false, ◌||◌, some, List, [], ◌∷◌,
  ◌++◌, snoc, length, length-append, get_elem?, get_elem?-some, is_empty, All, ltb_ℤ, arith,
}
use mathlib.Core.List.{append_assoc, append-nil}
use mathlib.Core.Path.{subst}
use formol.Api.Config.{Target, BackupConfiguration}
use formol.Api.Session.{failure, same_state, TargetStatus, BackupSessionStatus}
use formol.Client.{Client}
use formol.Outcome.{ok}
use formol.Session.{retried}
use formol.Session.Check.{is_job}
use formol.Session.Stage.{
  Stage, preparing, backing_up, finalizing, wait_of, next_of, done_of, finalized_text, check_stage,
  is_busy, is_current, same_state_eq,
}
use formol.Session.Rounds.{finished, IsDone, snoc-IsDone, check_stage-start}
use formol.Session.Ready.{check_stage-retried, check_stage-given_up, check_stage-done}
use formol.Session.Health.{is_done, is_sound, AllSound, AllDone}
use formol.Retention.{Dated}
use formol.BackupSession.System.Steps.{at_stage, CanEnd, over, goes_on, target_done, stage_checked}

is_done-IsDone : (stage : Stage) (ts : TargetStatus) → is_done stage ts ≡ true → IsDone stage ts
is_done-IsDone stage ts h = elim (Bool-cases (same_state ts.session_state (done_of stage))) [
  | inl d ↦ inl (same_state_eq ts.session_state (done_of stage) d)
  | inr n ↦ inr (same_state_eq ts.session_state finalized_text (rw n at h))
]

IsDone-is_done : (stage : Stage) (ts : TargetStatus) → IsDone stage ts → is_done stage ts ≡ true
IsDone-is_done preparing ts (inl h) = rw h refl
IsDone-is_done backing_up ts (inl h) = rw h refl
IsDone-is_done finalizing ts (inl h) = rw h refl
IsDone-is_done preparing ts (inr h) = rw h refl
IsDone-is_done backing_up ts (inr h) = rw h refl
IsDone-is_done finalizing ts (inr h) = rw h refl

sound-cases :
    (stage : Stage) (ts : TargetStatus)
    → is_sound stage ts ≡ true
    → (is_current stage ts ≡ true)
      ⊎ (((is_busy stage ts || is_job ts) ≡ true)
          ⊎ (IsDone stage ts ⊎ (ts.session_state ≡ failure)))
sound-cases stage ts h = elim (Bool-cases (is_current stage ts)) [
  | inl c ↦ inl c
  | inr c ↦ elim (Bool-cases (is_busy stage ts || is_job ts)) [
    | inl b ↦ inr (inl b)
    | inr b ↦ elim (Bool-cases (is_done stage ts)) [
      | inl d ↦ inr (inr (inl (is_done-IsDone stage ts d)))
      | inr d ↦ inr (inr (inr (same_state_eq ts.session_state failure (ground arith))))
    ]
  ]
]

waiting_busy :
    (stage : Stage) (ts : TargetStatus)
    → ts.session_state ≡ wait_of stage
    → (is_busy stage ts || is_job ts) ≡ true
waiting_busy preparing ts h = rw h
waiting_busy backing_up ts h = rw h
waiting_busy finalizing ts h = rw h

IsDone-AllDone :
    (stage : Stage) (tss : List TargetStatus) → All (IsDone stage) tss → AllDone stage tss
IsDone-AllDone stage [] h = tt
IsDone-AllDone stage (ts ∷ rest) h = (IsDone-is_done stage ts h.0, IsDone-AllDone stage rest h.1)

filled : (tss : List TargetStatus) → 0 < length tss → is_empty tss ≡ false
filled [] h = elim h [ ]
filled (ts ∷ tss) h = refl

-- The session has targets, and not more than the configuration.
abbrev pub Fits : BackupConfiguration → List TargetStatus → Type 0
Fits conf tss = (0 < length tss) × (length tss ≤ length conf.spec.targets)

module _ (C : Client) (newest_first : List Dated → List Dated) (conf : BackupConfiguration)
    (w : C.World) where
  abbrev At : Stage → BackupSessionStatus → List TargetStatus → Type 0
  At stage status tss = CanEnd C newest_first (at_stage stage status tss)

  after_wait :
      (stage : Stage) (status : BackupSessionStatus) (tss tss' : List TargetStatus)
      → check_stage stage tss conf (C.clock w 0)
        ≡ ok (record { state = wait_of stage; targets = tss' })
      → At stage status tss'
      → At stage status tss
  after_wait preparing status tss tss' h e =
      goes_on (stage_checked C newest_first preparing conf status w tss _ h (λ f. ground arith)) e
  after_wait backing_up status tss tss' h e =
      goes_on (stage_checked C newest_first backing_up conf status w tss _ h (λ f. ground arith)) e
  after_wait finalizing status tss tss' h e =
      goes_on (stage_checked C newest_first finalizing conf status w tss _ h (λ f. ground arith)) e

  after_failure :
      (stage : Stage) (status : BackupSessionStatus) (tss tss' : List TargetStatus)
      → check_stage stage tss conf (C.clock w 0) ≡ ok (record { state = failure; targets = tss' })
      → At stage status tss
  after_failure preparing status tss tss' h =
      goes_on (stage_checked C newest_first preparing conf status w tss _ h (λ f. ground arith))
        (over (inr refl))
  after_failure backing_up status tss tss' h =
      goes_on (stage_checked C newest_first backing_up conf status w tss _ h (λ f. ground arith))
        (over (inr refl))
  after_failure finalizing status tss tss' h =
      goes_on (stage_checked C newest_first finalizing conf status w tss _ h (λ f. ground arith))
        (over (inl refl))

  after_done :
      (stage : Stage) (status : BackupSessionStatus) (tss : List TargetStatus)
      → check_stage stage tss conf (C.clock w 0)
        ≡ ok (record { state = next_of stage; targets = tss })
      → CanEnd C newest_first (record status { session_state = next_of stage; targets = tss })
      → At stage status tss
  after_done preparing status tss h e =
      goes_on (stage_checked C newest_first preparing conf status w tss _ h (λ f. ground arith)) e
  after_done backing_up status tss h e =
      goes_on (stage_checked C newest_first backing_up conf status w tss _ h (λ f. ground arith)) e
  after_done finalizing status tss h e =
      goes_on (stage_checked C newest_first finalizing conf status w tss _ h (λ f. ground arith)) e

  module _ (stage : Stage) (status : BackupSessionStatus) where
    -- A target that is being worked at.
    after_busy :
        (pre : List TargetStatus) (ts : TargetStatus) (rest : List TargetStatus)
        → ((ts' : TargetStatus) → IsDone stage ts' → At stage status (pre ++ ts' ∷ rest))
        → (is_busy stage ts || is_job ts) ≡ true
        → At stage status (pre ++ ts ∷ rest)
    after_busy pre ts rest k b =
        goes_on (target_done C newest_first stage status pre ts rest b)
          (k (finished stage ts) (inl refl))

    -- A target that has failed is tried again, or it fails the session.
    after_failed :
        (pre : List TargetStatus) (ts : TargetStatus) (rest : List TargetStatus) (target : Target)
        → All (IsDone stage) pre
        → get_elem? conf.spec.targets (length pre) ≡ some target
        → ((ts' : TargetStatus) → IsDone stage ts' → At stage status (pre ++ ts' ∷ rest))
        → ts.session_state ≡ failure
        → At stage status (pre ++ ts ∷ rest)
    after_failed pre ts rest target d found k failed =
        let now = C.clock w 0 in
        elim (Bool-cases (ltb_ℤ ts.try target.retry)) [
          | inl h ↦
              after_wait stage status _ _
                (check_stage-retried stage conf now pre d ts rest target failed found h)
                (after_busy pre (retried (wait_of stage) now ts) rest k
                  (waiting_busy stage (retried (wait_of stage) now ts) refl))
          | inr h ↦
              after_failure stage status _ _
                (check_stage-given_up stage conf now pre d ts rest target failed found h)
        ]

    after_target :
        (pre : List TargetStatus) (ts : TargetStatus) (rest : List TargetStatus) (target : Target)
        → All (IsDone stage) pre
        → is_sound stage ts ≡ true
        → get_elem? conf.spec.targets (length pre) ≡ some target
        → ((ts' : TargetStatus) → IsDone stage ts' → At stage status (pre ++ ts' ∷ rest))
        → At stage status (pre ++ ts ∷ rest)
    after_target pre ts rest target d sound found k = elim (sound-cases stage ts sound) [
      | inl c ↦
          let started : TargetStatus = record ts { session_state = wait_of stage } in
          after_wait stage status _ _ (check_stage-start stage conf (C.clock w 0) pre ts rest d c)
            (after_busy pre started rest k (waiting_busy stage started refl))
      | inr (inl b) ↦ after_busy pre ts rest k b
      | inr (inr (inl e)) ↦ k ts e
      | inr (inr (inr e)) ↦ after_failed pre ts rest target d found k e
    ]

    after_targets :
        (pre rest : List TargetStatus)
        → All (IsDone stage) pre
        → AllSound stage rest
        → length pre + length rest ≤ length conf.spec.targets
        → ((out : List TargetStatus)
            → All (IsDone stage) out
            → length out ≡ length pre + length rest
            → At stage status out)
        → At stage status (pre ++ rest)
    after_targets pre [] d sound n k =
        subst (At stage status) (sym (append-nil pre)) (k pre d (omega arith))
    after_targets pre (ts ∷ rest) d sound n k =
        let (target, found) = get_elem?-some conf.spec.targets (length pre) (omega arith) in
        after_target pre ts rest target d sound.0 found (λ ts' e.
          let one_more = length-append pre (ts' ∷ []) in
          subst (At stage status) (append_assoc pre (ts' ∷ []) rest) (
            after_targets (snoc pre ts') rest (snoc-IsDone stage pre ts' d e) sound.1 (omega arith)
              (λ out od l. k out od (omega arith))))

    -- It is enough that the session can end with all targets done, or ends by a failure before.
    pub after_stage :
        (tss : List TargetStatus)
        → AllSound stage tss
        → Fits conf tss
        → ((out : List TargetStatus)
            → AllDone stage out
            → Fits conf out
            → CanEnd C newest_first
                (record status { session_state = next_of stage; targets = out }))
        → At stage status tss
    after_stage tss sound fits k = after_targets [] tss tt sound (omega (arith, fits.1)) (λ out d l.
        let fits_out : Fits conf out = (omega (arith, fits.0), omega (arith, fits.1)) in
        after_done stage status out
          (check_stage-done stage conf (C.clock w 0) out d (filled out fits_out.0))
          (k out (IsDone-AllDone stage out d) fits_out))
