-- ===== src/Session/Rounds.antt =====
-- The rounds of a stage in which the sidecars succeed.
use formol.Prelude.{
  ℕ, zero, suc, ◌≡◌, refl, ◌⊎◌, inl, inr, sym, ◌∙◌, ap, true, false, List, [], ◌∷◌, ◌++◌, map,
  length, any, All, snoc, is_empty, arith, if◌then◌else◌,
}
use mathlib.Core.List.{append_assoc, map-append}
use formol.Api.Meta.{Time}
use formol.Api.Config.{BackupConfiguration}
use formol.Api.Session.{unset, same_state, TargetStatus}
use formol.Outcome.{ok, err, panic}
use formol.Session.{Verdict}
use formol.Session.Check.{
  is_open, is_job, Passed, passing_all, check_session_state-first_open, check_session_state-Passed,
}
use formol.Session.Stage.{
  Stage, preparing, backing_up, finalizing, current_of, wait_of, next_of, done_of, finalized_text,
  check_stage, check_stage_lem, is_busy, is_current, not_busy_of_current,
}

-- The target as its sidecar leaves it when it has done the work of the stage.
abbrev pub finished : Stage → TargetStatus → TargetStatus
finished stage ts = record ts { session_state = done_of stage }

abbrev pub complete : Stage → TargetStatus → TargetStatus
complete stage ts = if is_busy stage ts then finished stage ts else ts

-- One check by the controller, whose targets are stored if it answers a state, and then the sidecar
-- of the busy target does its work.
unfoldable pub round : BackupConfiguration → Time → Stage → List TargetStatus → List TargetStatus
round conf now stage tss = elim (check_stage stage tss conf now) [
  | ok v ↦ map (complete stage) (if same_state v.state unset then tss else v.targets)
  | err _ ↦ tss
  | panic ↦ tss
]

unfoldable pub rounds :
    BackupConfiguration → Time → Stage → ℕ → List TargetStatus → List TargetStatus
rounds conf now stage zero tss = tss
rounds conf now stage (suc n) tss = rounds conf now stage n (round conf now stage tss)

abbrev pub IsDone : Stage → TargetStatus → Type 0
IsDone stage ts = (ts.session_state ≡ done_of stage) ⊎ (ts.session_state ≡ finalized_text)

done_passes :
    (stage : Stage) (ts : TargetStatus)
    → IsDone stage ts
    → (is_open (current_of stage) (wait_of stage) ts ≡ false)
      × (is_job ts ≡ false)
      × (is_busy stage ts ≡ false)
done_passes preparing ts (inl h) = rw h (refl, refl, refl)
done_passes backing_up ts (inl h) = rw h (refl, refl, refl)
done_passes finalizing ts (inl h) = rw h (refl, refl, refl)
done_passes preparing ts (inr h) = rw h (refl, refl, refl)
done_passes backing_up ts (inr h) = rw h (refl, refl, refl)
done_passes finalizing ts (inr h) = rw h (refl, refl, refl)

same_state-wait_of : (stage : Stage) → same_state (wait_of stage) (wait_of stage) ≡ true
same_state-wait_of preparing = refl
same_state-wait_of backing_up = refl
same_state-wait_of finalizing = refl

wait_of-set : (stage : Stage) → same_state (wait_of stage) unset ≡ false
wait_of-set preparing = refl
wait_of-set backing_up = refl
wait_of-set finalizing = refl

pub is_empty-map :
    (f : TargetStatus → TargetStatus) (tss : List TargetStatus)
    → is_empty (map f tss) ≡ is_empty tss
is_empty-map f [] = refl
is_empty-map f (ts ∷ tss) = refl

module _ (stage : Stage) where
  pub done-Passed :
      (pre : List TargetStatus)
      → All (IsDone stage) pre
      → Passed (current_of stage) (wait_of stage) pre × (any is_job pre ≡ false)
  done-Passed [] h = (tt, refl)
  done-Passed (ts ∷ pre) h =
      let (p, j, _) = done_passes stage ts h.0 in
      let (ps, js) = done-Passed pre h.1 in ((p, ps), rw j js)

  complete-done :
      (pre : List TargetStatus) → All (IsDone stage) pre → map (complete stage) pre ≡ pre
  complete-done [] h = refl
  complete-done (ts ∷ pre) h =
      let (_, _, b) = done_passes stage ts h.0 in rw (b, complete-done pre h.1)

  complete-current :
      (rest : List TargetStatus)
      → All (λ t. is_current stage t ≡ true) rest
      → map (complete stage) rest ≡ rest
  complete-current [] h = refl
  complete-current (ts ∷ rest) h = rw (not_busy_of_current stage ts h.0, complete-current rest h.1)

  pub snoc-IsDone :
      (pre : List TargetStatus) (ts : TargetStatus)
      → All (IsDone stage) pre
      → IsDone stage ts
      → All (IsDone stage) (snoc pre ts)
  snoc-IsDone [] ts d e = (e, tt)
  snoc-IsDone (p ∷ pre) ts d e = (d.0, snoc-IsDone pre ts d.1 e)

  pub passing_all-ok :
      (pre : List TargetStatus) (v : Verdict)
      → passing_all pre (ok v) ≡ ok (record v { targets = pre ++ v.targets })
  passing_all-ok [] v = refl
  passing_all-ok (ts ∷ pre) v = rw (passing_all-ok pre v)

  module _ (conf : BackupConfiguration) (now : Time) where
    pub check_stage-start :
        (pre : List TargetStatus) (ts : TargetStatus) (rest : List TargetStatus)
        → All (IsDone stage) pre
        → is_current stage ts ≡ true
        → check_stage stage (pre ++ ts ∷ rest) conf now
          ≡ ok (record {
            state = wait_of stage;
            targets = pre ++ record ts { session_state = wait_of stage } ∷ rest;
          })
    check_stage-start pre ts rest d c =
        let (p, j) = done-Passed pre d in
        rw (
          check_stage_lem,
          check_session_state-first_open conf now (current_of stage) (wait_of stage) (next_of stage)
              pre ts rest p (ground arith),
          j,
          c,
          passing_all-ok,
        )

    round_lem :
        (pre : List TargetStatus) (ts : TargetStatus) (rest : List TargetStatus)
        → All (IsDone stage) pre
        → is_current stage ts ≡ true
        → All (λ t. is_current stage t ≡ true) rest
        → round conf now stage (pre ++ ts ∷ rest) ≡ pre ++ finished stage ts ∷ rest
    unfolding round
    round_lem pre ts rest d c h = rw (
      check_stage-start pre ts rest d c,
      round,
      wait_of-set stage,
      map-append,
      complete-done pre d,
      complete-current rest h,
      same_state-wait_of stage,
    )

    rounds_lem :
        (pre rest : List TargetStatus)
        → All (IsDone stage) pre
        → All (λ t. is_current stage t ≡ true) rest
        → rounds conf now stage (length rest) (pre ++ rest) ≡ pre ++ map (finished stage) rest
    unfolding rounds
    rounds_lem pre [] d h = refl
    rounds_lem pre (ts ∷ rest) d h =
        ap (rounds conf now stage (length rest))
          (round_lem pre ts rest d h.0 h.1 ∙ sym (append_assoc pre (finished stage ts ∷ []) rest))
        ∙ rounds_lem (snoc pre (finished stage ts)) rest
            (snoc-IsDone pre (finished stage ts) d (inl refl)) h.1
        ∙ append_assoc pre (finished stage ts ∷ []) (map (finished stage) rest)

  All-IsDone : (tss : List TargetStatus) → All (IsDone stage) (map (finished stage) tss)
  All-IsDone [] = tt
  All-IsDone (ts ∷ tss) = (inl refl, All-IsDone tss)

-- A stage that begins with n targets, at least one, none of them started, has all of them done after
-- n rounds in which the sidecars succeed; the next check moves the session to the next state.
pub check_stage-rounds :
    (stage : Stage) (conf : BackupConfiguration) (now : Time) (tss : List TargetStatus)
    → is_empty tss ≡ false
    → All (λ t. is_current stage t ≡ true) tss
    → (rounds conf now stage (length tss) tss ≡ map (finished stage) tss)
      × (check_stage stage (rounds conf now stage (length tss) tss) conf now
          ≡ ok (record { state = next_of stage; targets = map (finished stage) tss }))
check_stage-rounds stage conf now tss n h =
    let e = rounds_lem stage conf now [] tss tt h in
    let (p, j) = done-Passed stage (map (finished stage) tss) (All-IsDone stage tss) in
    (
      e,
      rw (
        e,
        check_stage_lem,
        check_session_state-Passed conf now (current_of stage) (wait_of stage) (next_of stage)
            (map (finished stage) tss) p,
        j,
        is_empty-map (finished stage) tss,
        n,
      ),
    )
