-- ===== src/Api/Text.antt =====
-- The texts of session states: a state in the cluster is a string, which the model reads into its
-- data type (SessionState of api/v1alpha1/backupsession_types.go).
use formol.Prelude.{
  ◌≡◌, ◌⊎◌, refl, sym, ap, ◌∙◌, String, true, false, ◌==◌, eq_iff, Bool-cases, inl, inr,
  if◌then◌else◌, arith,
}
use formol.Api.Session.{
  SessionState, unset, new, initializing, initialized, running, waiting, waiting_for_job, finalize,
  success, failure, other, state_name, same_state,
}

-- The state that a text stands for.
unfoldable pub state_of : String → SessionState
state_of text =
    if text == ""
    then unset
    else if text == "New"
    then new
    else if text == "Initializing"
    then initializing
    else if text == "Initialized"
    then initialized
    else if text == "Running"
    then running
    else if text == "Waiting"
    then waiting
    else if text == "WaitingForJob"
    then waiting_for_job
    else if text == "Finalize"
    then finalize
    else if text == "Success"
    then success
    else if text == "Failure"
    then failure
    else other text

-- One test of a text.
named_or :
    (text name : String) (s later : SessionState)
    → state_name s ≡ name
    → state_name later ≡ text
    → state_name (if text == name then s else later) ≡ text
named_or text name s later e h = elim (Bool-cases (text == name)) [
  | inl k ↦ rw k (e ∙ sym ((eq_iff text name).0 k))
  | inr k ↦ rw k h
]

pub state_name-state_of : (text : String) → state_name (state_of text) ≡ text
unfolding state_name state_of
state_name-state_of text = named_or text "" unset _ refl (
    named_or text "New" new _ refl (
      named_or text "Initializing" initializing _ refl (
        named_or text "Initialized" initialized _ refl (
          named_or text "Running" running _ refl (
            named_or text "Waiting" waiting _ refl (
              named_or text "WaitingForJob" waiting_for_job _ refl (
                named_or text "Finalize" finalize _ refl (
                  named_or text "Success" success _ refl
                    (named_or text "Failure" failure (other text) refl refl)))))))))

same_state_refl : (s : SessionState) → same_state s s ≡ true
same_state_refl (other t) = (eq_iff t t).1 refl
same_state_refl unset = refl
same_state_refl new = refl
same_state_refl initializing = refl
same_state_refl initialized = refl
same_state_refl running = refl
same_state_refl waiting = refl
same_state_refl waiting_for_job = refl
same_state_refl finalize = refl
same_state_refl success = refl
same_state_refl failure = refl

same_state_equal : (s t : SessionState) → same_state s t ≡ true → s ≡ t
same_state_equal (other s) (other t) h = ap other ((eq_iff s t).0 h)
same_state_equal unset unset h = refl
same_state_equal new new h = refl
same_state_equal _ _ h = ground arith

-- The comparison of two states is that of their texts: the test `same_state` on the states that two
-- texts stand for says whether the texts are equal, and a state has the text that it stands for.
same_state-state_of :
    (a b : String)
    → (same_state (state_of a) (state_of b) ≡ (a == b)) × (state_name (state_of a) ≡ a)
same_state-state_of a b = (compared (Bool-cases (a == b)), state_name-state_of a)
  where
    compared :
        ((a == b) ≡ true) ⊎ ((a == b) ≡ false) → same_state (state_of a) (state_of b) ≡ (a == b)
    compared (inl h) =
        let e : a ≡ b = (eq_iff a b).0 h in
        ap (λ t. same_state (state_of a) (state_of t)) (sym e)
        ∙ same_state_refl (state_of a)
        ∙ sym h
    compared (inr h) = elim (Bool-cases (same_state (state_of a) (state_of b))) [
      | inl k ↦
          let e : a ≡ b =
            sym (state_name-state_of a)
            ∙ ap state_name (same_state_equal (state_of a) (state_of b) k)
            ∙ state_name-state_of b in
          absurd (cc (h, (eq_iff a b).1 e))
      | inr k ↦ k ∙ sym h
    ]
