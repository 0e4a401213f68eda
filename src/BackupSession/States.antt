-- ===== src/BackupSession/States.antt =====
-- The states that a backup session goes through.
use formol.Prelude.{
  ℕ, suc, ◌≡◌, refl, ltb_ℤ, ◌⊎◌, inl, inr, Bool, true, false, ◌||◌, Option, none, some, List, [],
  ◌∷◌, is_empty, get_elem?, if◌then◌else◌, arith,
}
use mathlib.Core.Path.{subst}
use formol.Api.Meta.{Time}
use formol.Api.Config.{Target, BackupConfiguration}
use formol.Api.Session.{
  SessionState, unset, new, initializing, initialized, running, waiting, finalize, success, failure,
  same_state, TargetStatus, BackupSessionStatus,
}
use formol.Client.{Client}
use formol.Outcome.{resume, return, Result, Error, ok, err, panic}
use formol.Session.{
  Verdict, passing, deferring, check_failed, check_from, check_session_state, check_initialized,
  check_waiting, check_success, is_backup_ongoing,
}
use formol.Session.Check.{is_job}
use formol.Retention.{Dated, cleanup_sessions}
use formol.BackupSession.{Next, move, advance, start_session, checked, forgiven, map_verdict}

-- The states that a verdict can name.
abbrev pub Named : SessionState → SessionState → SessionState → Type 0
Named wait next state = (state ≡ unset) ⊎ ((state ≡ wait) ⊎ ((state ≡ next) ⊎ (state ≡ failure)))

-- A predicate on the state of a result, where there is one.
pub data Answers (P : SessionState → Type 0) : Result Verdict → Type 0 where
  answers : (v : Verdict) → P v.state → Answers P (ok v)
  fails : (e : Error) → Answers P (err e)
  panics : Answers P panic

Answers-passing :
    (P : SessionState → Type 0) (ts : TargetStatus) {r : Result Verdict}
    → Answers P r
    → Answers P (passing ts r)
Answers-passing P ts (answers v h) = answers (record v { targets = ts ∷ v.targets }) h
Answers-passing P ts (fails e) = fails e
Answers-passing P ts panics = panics

Answers-if :
    (P : SessionState → Type 0) (b : Bool) {r r' : Result Verdict}
    → Answers P r
    → Answers P r'
    → Answers P (if b then r else r')
Answers-if P true h h' = h
Answers-if P false h h' = h'

module _ (targets : List Target) (now : Time) (current wait next : SessionState) where
  Named-deferring :
      (deferred : Bool) (state : SessionState) (tss : List TargetStatus)
      → Named wait next state
      → Answers
          (Named wait next)
          (ok (record { state = deferring wait deferred state; targets = tss }))
  Named-deferring true state tss h = answers _ (inr (inl refl))
  Named-deferring false state tss h = answers _ h

  check_failed-Named :
      (o : Option Target) (deferred : Bool) (ts : TargetStatus) (rest : List TargetStatus)
      → Answers (Named wait next) (check_failed wait now o deferred ts rest)
  unfolding check_failed
  check_failed-Named none deferred ts rest = panics
  check_failed-Named (some target) deferred ts rest =
      Answers-if (Named wait next) (ltb_ℤ ts.try target.retry)
        (Named-deferring deferred wait _ (inr (inl refl)))
        (Named-deferring deferred failure _ (inr (inr (inr refl))))

  check_from-Named :
      (i : ℕ) (deferred : Bool) (tss : List TargetStatus)
      → Answers (Named wait next) (check_from targets now current wait next i deferred tss)
  unfolding check_from
  check_from-Named i deferred [] = Named-deferring deferred unset [] (inl refl)
  check_from-Named i deferred (ts ∷ rest) =
      let later =
        Answers-passing (Named wait next) ts
          (check_from-Named (suc i) (deferred || is_job ts) rest) in
      Answers-if (Named wait next) (same_state ts.session_state current)
        (Named-deferring deferred wait _ (inr (inl refl)))
        (Answers-if (Named wait next) (same_state ts.session_state failure)
          (check_failed-Named (get_elem? targets i) deferred ts rest)
          (Answers-if (Named wait next) (same_state ts.session_state wait)
            (Named-deferring deferred unset _ (inl refl))
            (Answers-if (Named wait next) (is_job ts) later (
              Answers-if (Named wait next) (is_empty rest)
                (Named-deferring deferred next _ (inr (inr (inl refl)))) later))))

-- The state that a check answers is "", its wait state, its next state or Failure.
pub check_session_state-Named :
    (tss : List TargetStatus) (conf : BackupConfiguration) (now : Time)
    (current wait next : SessionState) (v : Verdict)
    → check_session_state tss conf now current wait next ≡ ok v
    → Named wait next v.state
unfolding check_session_state
check_session_state-Named tss conf now current wait next v h = named_state v (
    subst (Answers (Named wait next)) h
      (check_from-Named conf.spec.targets now current wait next 0 false tss))
  where
    named_state : (u : Verdict) → Answers (Named wait next) (ok u) → Named wait next u.state
    named_state u (answers _ n) = n

-- A state in which the switch has no case, so that the session counts as just created.
abbrev pub is_fresh : SessionState → Bool
is_fresh new = false
is_fresh initializing = false
is_fresh running = false
is_fresh finalize = false
is_fresh success = false
is_fresh failure = false
is_fresh _ = true

-- The states that may follow a state, "" standing for no change.
pub data Follows : SessionState → SessionState → Type 0 where
  stays : (state : SessionState) → Follows state unset
  created : (state : SessionState) → is_fresh state ≡ true → Follows state new
  started : Follows new initializing
  preparing : Follows initializing initializing
  prepared : Follows initializing running
  not_prepared : Follows initializing failure
  backing_up : Follows running running
  backed_up : Follows running finalize
  not_backed_up : Follows running failure
  finalizing : Follows finalize finalize
  finalized : Follows finalize success

module _ (C : Client) (newest_first : List Dated → List Dated) (conf : BackupConfiguration)
    (status : BackupSessionStatus) where
  move-state :
      (a s : SessionState) (x t : BackupSessionStatus) (w w' : C.World)
      → ◌≡◌ {A = Result Next × C.World} (ok (move a x), w) (ok (move s t), w')
      → a ≡ s
  move-state a s x t w w' h = ground arith

  -- What the branch of a check hands to the status update, where it does not fail.
  checked_Follows :
      (state : SessionState) (r : Result Verdict) (w w' : C.World) (s : SessionState)
      (t : BackupSessionStatus)
      → ((v : Verdict) → r ≡ ok v → Follows state v.state)
      → checked C newest_first status (λ _. r) w ≡ (ok (move s t), w')
      → Follows state s
  checked_Follows state (ok v) w w' s t f h = rw (← move-state v.state s _ t w w' h) (f v refl)
  checked_Follows state (err e) w w' s t f h = absurd (ground arith)
  checked_Follows state panic w w' s t f h = absurd (ground arith)

  initializing_Follows : (s : SessionState) → Named initializing running s → Follows initializing s
  initializing_Follows s (inl e) = rw e (stays initializing)
  initializing_Follows s (inr (inl e)) = rw e preparing
  initializing_Follows s (inr (inr (inl e))) = rw e prepared
  initializing_Follows s (inr (inr (inr e))) = rw e not_prepared

  running_Follows : (s : SessionState) → Named running finalize s → Follows running s
  running_Follows s (inl e) = rw e (stays running)
  running_Follows s (inr (inl e)) = rw e backing_up
  running_Follows s (inr (inr (inl e))) = rw e backed_up
  running_Follows s (inr (inr (inr e))) = rw e not_backed_up

  finalize_Follows :
      (v : Verdict) → Named finalize success v.state → Follows finalize (forgiven v).state
  finalize_Follows v (inl e) = rw e (stays finalize)
  finalize_Follows v (inr (inl e)) = rw e finalizing
  finalize_Follows v (inr (inr (inl e))) = rw e finalized
  finalize_Follows v (inr (inr (inr e))) = rw e finalized

  forgiven_Follows :
      (r : Result Verdict)
      → ((v : Verdict) → r ≡ ok v → Named finalize success v.state)
      → (u : Verdict) → map_verdict forgiven r ≡ ok u
      → Follows finalize u.state
  forgiven_Follows (ok v) n u h =
      let e : forgiven v ≡ u = ground arith in rw (← e) (finalize_Follows v (n v refl))
  forgiven_Follows (err e) n u h = absurd (cc)
  forgiven_Follows panic n u h = absurd (cc)

  started_Follows :
      (r : Result Bool) (w w' : C.World) (s : SessionState) (t : BackupSessionStatus)
      → resume (start_session C newest_first conf status) r w ≡ (ok (move s t), w')
      → Follows new s
  started_Follows (ok true) w w' s t h = absurd (ground arith)
  started_Follows (ok false) w w' s t h = rw (← move-state initializing s _ t w w' h) started
  started_Follows (err e) w w' s t h = absurd (ground arith)
  started_Follows panic w w' s t h = absurd (ground arith)

  cleaned_Follows :
      (r : Result (Unit {0})) (w w' : C.World) (s : SessionState) (t : BackupSessionStatus)
      → resume (λ _. return (move unset status)) r w ≡ (ok (move s t), w')
      → Follows success s
  cleaned_Follows (ok _) w w' s t h = rw (← move-state unset s _ t w w' h) (stays success)
  cleaned_Follows (err e) w w' s t h = absurd (ground arith)
  cleaned_Follows panic w w' s t h = absurd (ground arith)

  -- Whatever the client answers, the state that the switch hands to the status update may follow the
  -- state of the session: none at all, New in a state that the switch does not know, and else the
  -- states of the three stages in their order, with Failure only from the first two.
  pub advance_Follows :
      (state s : SessionState) (t : BackupSessionStatus) (w w' : C.World)
      → advance C newest_first state conf status w ≡ (ok (move s t), w')
      → Follows state s
  unfolding advance check_initialized check_waiting check_success
  advance_Follows new s t w w' h = started_Follows (is_backup_ongoing C conf w) w w' s t h
  advance_Follows initializing s t w w' h =
      checked_Follows initializing (check_initialized status.targets conf (C.clock w 0)) w w' s t
        (λ v k. initializing_Follows v.state (
          check_session_state-Named status.targets conf (C.clock w 0) unset initializing running v
            k))
        h
  advance_Follows running s t w w' h =
      checked_Follows running (check_waiting status.targets conf (C.clock w 0)) w w' s t
        (λ v k. running_Follows v.state (
          check_session_state-Named status.targets conf (C.clock w 0) initialized running finalize v
            k))
        h
  advance_Follows finalize s t w w' h =
      checked_Follows finalize
        (map_verdict forgiven (check_success status.targets conf (C.clock w 0))) w w' s t
        (forgiven_Follows _ (λ v k.
          check_session_state-Named status.targets conf (C.clock w 0) waiting finalize success v k))
        h
  advance_Follows success s t w w' h =
      let (r, w₁) = cleanup_sessions C newest_first conf w in cleaned_Follows r w₁ w' s t h
  advance_Follows failure s t w w' h = rw (← move-state unset s _ t w w' h) (stays failure)
  advance_Follows _ s t w w' h = rw (← move-state new s _ t w w' h) (created _ refl)
