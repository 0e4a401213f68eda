-- ===== src/BackupSession/System/Sound.antt =====
-- The states of the targets in the states of the system.
use formol.Prelude.{
  ◌≡◌, ◌≢◌, refl, sym, ap, inl, inr, Bool, true, false, ℕ, suc, List, [], ◌∷◌, arith,
}
use formol.Api.Meta.{Time}
use formol.Api.Config.{Target, BackupConfiguration}
use formol.Api.Session.{
  SessionState, unset, new, initializing, initialized, running, waiting, finalize, success, failure,
  TargetStatus, BackupSessionStatus,
}
use formol.Client.{Client}
use formol.Outcome.{Result, ok, err, panic, resume, return}
use formol.Session.{
  Verdict, init_session, init_targets, check_initialized, check_waiting, check_success,
}
use formol.Session.Stage.{Stage, preparing, backing_up, finalizing, wait_of, check_stage}
use formol.Session.Health.{
  is_sound, AllSound, AllDone, check_stage-AllSound, done-sound_backing_up, done-sound_finalizing,
}
use formol.Retention.{Dated, cleanup_sessions}
use formol.BackupSession.{Next, move, advance, checked, forgiven, map_verdict, start_session}
use formol.BackupSession.States.{Named, check_session_state-Named}
use formol.BackupSession.System.{
  Reported, Works, report, later, IsSound, Step, reconciled, reported, Reachable, created, steps,
}

Reported-sound :
    (stage : Stage) (ts : TargetStatus) → Reported stage ts.session_state → is_sound stage ts ≡ true
Reported-sound preparing ts r = ground arith
Reported-sound backing_up ts r = ground arith
Reported-sound finalizing ts r = ground arith

Works-AllSound :
    (stage : Stage) {tss tss' : List TargetStatus}
    → Works stage tss tss'
    → AllSound stage tss
    → AllSound stage tss'
Works-AllSound stage (report ts ts' rest b r) h = (Reported-sound stage ts' r, h.1)
Works-AllSound stage (later ts rest rest' w) h = (h.0, Works-AllSound stage w h.1)

pub init-AllSound :
    (clock : ℕ → Time) (i : ℕ) (targets : List Target)
    → AllSound preparing (init_targets clock i targets)
unfolding init_targets
init-AllSound clock i [] = tt
init-AllSound clock i (t ∷ targets) = (refl, init-AllSound clock (suc i) targets)

module _ (C : Client) (newest_first : List Dated → List Dated) where
  pub moved :
      {a s : SessionState} {x t : BackupSessionStatus} {w w' : C.World}
      → ◌≡◌ {A = Result Next × C.World} (ok (move a x), w) (ok (move s t), w')
      → (a ≡ s) × (x ≡ t)
  moved h = ground arith

  module _ (status : BackupSessionStatus) (w w' : C.World) (s : SessionState)
      (t : BackupSessionStatus) where
    pub checked_moved :
        (r : Result Verdict)
        → checked C newest_first status (λ _. r) w ≡ (ok (move s t), w')
        → (v : Verdict) × (r ≡ ok v) × (v.state ≡ s) × (v.targets ≡ t.targets)
    checked_moved (ok v) h =
        let (e, f) = moved h in (v, refl, e, ap (λ (x : BackupSessionStatus). x.targets) f)
    checked_moved (err e) h = absurd (ground arith)
    checked_moved panic h = absurd (ground arith)

  -- What each stage makes of sound targets, by the state that the check answers.
  after_preparing :
      (s : SessionState) (tss : List TargetStatus)
      → Named initializing running s
      → AllSound preparing tss
      → (s ≡ running → AllDone preparing tss)
      → IsSound s tss
  after_preparing s tss (inl e) h d = rw e tt
  after_preparing s tss (inr (inl e)) h d = rw e h
  after_preparing s tss (inr (inr (inl e))) h d = rw e (done-sound_backing_up tss (d e))
  after_preparing s tss (inr (inr (inr e))) h d = rw e (inl h)

  after_backing_up :
      (s : SessionState) (tss : List TargetStatus)
      → Named running finalize s
      → AllSound backing_up tss
      → (s ≡ finalize → AllDone backing_up tss)
      → IsSound s tss
  after_backing_up s tss (inl e) h d = rw e tt
  after_backing_up s tss (inr (inl e)) h d = rw e h
  after_backing_up s tss (inr (inr (inl e))) h d = rw e (done-sound_finalizing tss (d e))
  after_backing_up s tss (inr (inr (inr e))) h d = rw e (inr h)

  after_finalizing :
      (v : Verdict)
      → Named finalize success v.state
      → AllSound finalizing v.targets
      → IsSound (forgiven v).state v.targets
  after_finalizing v (inl e) h = rw e tt
  after_finalizing v (inr (inl e)) h = rw e h
  after_finalizing v (inr (inr (inl e))) h = rw e h
  after_finalizing v (inr (inr (inr e))) h = rw e h

  forgiven_from :
      (r : Result Verdict) (u : Verdict)
      → map_verdict forgiven r ≡ ok u
      → (v : Verdict) × (r ≡ ok v) × (forgiven v ≡ u)
  forgiven_from (ok v) u h = (v, refl, ground arith)
  forgiven_from (err e) u h = absurd (cc)
  forgiven_from panic u h = absurd (cc)

  started :
      (conf : BackupConfiguration) (old t : BackupSessionStatus) (s : SessionState) (w w' : C.World)
      (r : Result Bool)
      → resume (start_session C newest_first conf old) r w ≡ (ok (move s t), w')
      → IsSound s t.targets
  unfolding init_session
  started conf old t s w w' (ok true) h = absurd (ground arith)
  started conf old t s w w' (ok false) h =
      let (e, f) = moved h in rw (← e, ← f) (init-AllSound (C.clock w) 0 conf.spec.targets)
  started conf old t s w w' (err e) h = absurd (ground arith)
  started conf old t s w w' panic h = absurd (ground arith)

  cleaned :
      (old t : BackupSessionStatus) (s : SessionState) (w w' : C.World) (r : Result (Unit {0}))
      → resume (λ _. return (move unset old)) r w ≡ (ok (move s t), w')
      → unset ≡ s
  cleaned old t s w w' (ok _) h = (moved h).0
  cleaned old t s w w' (err e) h = absurd (ground arith)
  cleaned old t s w w' panic h = absurd (ground arith)

  advance-IsSound :
      (state : SessionState) (conf : BackupConfiguration) (old t : BackupSessionStatus)
      (s : SessionState) (w w' : C.World)
      → IsSound state old.targets
      → advance C newest_first state conf old w ≡ (ok (move s t), w')
      → s ≢ unset
      → IsSound s t.targets
  unfolding advance check_stage check_initialized check_waiting check_success init_session
  advance-IsSound new conf old t s w w' i h n = started conf old t s w w' _ h
  advance-IsSound initializing conf old t s w w' i h n =
      let (v, run, e, f) = checked_moved old w w' s t _ h in
      let (sound, over) = check_stage-AllSound preparing old.targets conf (C.clock w 0) v run i in
      rw (← e, ← f)
        (after_preparing v.state v.targets
          (check_session_state-Named old.targets conf (C.clock w 0) unset initializing running v
            run)
          sound over)
  advance-IsSound running conf old t s w w' i h n =
      let (v, run, e, f) = checked_moved old w w' s t _ h in
      let (sound, over) = check_stage-AllSound backing_up old.targets conf (C.clock w 0) v run i in
      rw (← e, ← f)
        (after_backing_up v.state v.targets
          (check_session_state-Named old.targets conf (C.clock w 0) initialized running finalize v
            run)
          sound over)
  advance-IsSound finalize conf old t s w w' i h n =
      let (u, judged, e, f) = checked_moved old w w' s t _ h in
      let (v, run, same) = forgiven_from _ u judged in
      let (sound, over) = check_stage-AllSound finalizing old.targets conf (C.clock w 0) v run i in
      rw (← e, ← f, ← same)
        (after_finalizing v
          (check_session_state-Named old.targets conf (C.clock w 0) waiting finalize success v run)
          sound)
  advance-IsSound success conf old t s w w' i h n =
      let (r, w1) = cleanup_sessions C newest_first conf w in
      absurd (n (sym (cleaned old t s w1 w' r h)))
  advance-IsSound failure conf old t s w w' i h n = absurd (n (sym (moved h).0))
  advance-IsSound _ conf old t s w w' i h n = rw (← (moved h).0) tt

  Works-IsSound :
      (stage : Stage) (state : SessionState) {tss tss' : List TargetStatus}
      → state ≡ wait_of stage
      → Works stage tss tss'
      → IsSound state tss
      → IsSound state tss'
  Works-IsSound preparing state e w i = rw e (Works-AllSound preparing w (rw e at i))
  Works-IsSound backing_up state e w i = rw e (Works-AllSound backing_up w (rw e at i))
  Works-IsSound finalizing state e w i = rw e (Works-AllSound finalizing w (rw e at i))

  Step-IsSound :
      {a b : BackupSessionStatus}
      → Step C newest_first a b
      → IsSound a.session_state a.targets
      → IsSound b.session_state b.targets
  Step-IsSound (reconciled conf old t s w w' h n) i =
      advance-IsSound old.session_state conf old t s w w' i h n
  Step-IsSound (reported stage old tss e w) i = Works-IsSound stage old.session_state e w i

  -- Let a session come about, from its creation on, by runs of the reconciler, whatever they read, and
  -- by reports of sidecars, in any order and also while the configuration changes. A sidecar reports only
  -- for a target that it works at or whose job goes on, and only that it is done, by the state that ends
  -- the stage, that it has failed, that a job goes on, or "Finalized". Then the states of the targets fit
  -- that of the session: in Initializing, Running and Finalize each target has one of the states of that
  -- stage, "Finalized" among them, in Success one of those of Finalize, and in Failure all have those of
  -- Initializing or all those of Running.
  pub Reachable-IsSound :
      {status : BackupSessionStatus}
      → Reachable C newest_first status
      → IsSound status.session_state status.targets
  Reachable-IsSound (created status e) = rw e tt
  Reachable-IsSound (steps r s) = Step-IsSound s (Reachable-IsSound r)
