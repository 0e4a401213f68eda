-- ===== src/BackupSession/System/Ends.antt =====
-- From the states of the system to the end of a session.
use formol.Prelude.{
  ℕ, suc, ◌<◌, ◌≡◌, refl, ap, inl, inr, Bool, true, false, some, List, [], ◌∷◌, length, arith,
}
use formol.Api.Meta.{Time}
use formol.Api.Config.{Target, BackupConfiguration}
use formol.Api.Session.{
  SessionState, new, initializing, running, finalize, success, failure, TargetStatus,
  BackupSessionStatus,
}
use formol.Client.{Client}
use formol.Outcome.{ok}
use formol.Session.{init_session, init_targets, is_backup_ongoing}
use formol.Session.Stage.{preparing, backing_up, finalizing}
use formol.Session.Health.{AllSound, done-sound_backing_up, done-sound_finalizing}
use formol.Retention.{Dated}
use formol.BackupSession.{move, advance}
use formol.BackupSession.System.{IsSound, reconciled, Reachable}
use formol.BackupSession.System.Sound.{Reachable-IsSound, init-AllSound}
use formol.BackupSession.System.Steps.{CanEnd, over, goes_on, at_stage}
use formol.BackupSession.System.Stages.{Fits, after_stage}

length-init :
    (clock : ℕ → Time) (i : ℕ) (targets : List Target)
    → length (init_targets clock i targets) ≡ length targets
unfolding init_targets
length-init clock i [] = refl
length-init clock i (t ∷ targets) = ap suc (length-init clock (suc i) targets)

-- The states in which the targets are checked.
abbrev pub in_stage : SessionState → Bool
in_stage initializing = true
in_stage running = true
in_stage finalize = true
in_stage _ = false

module _ (C : Client) (newest_first : List Dated → List Dated) (conf : BackupConfiguration)
    (w : C.World) where
  from_finalize :
      (status : BackupSessionStatus) (tss : List TargetStatus)
      → AllSound finalizing tss
      → Fits conf tss
      → CanEnd C newest_first (at_stage finalizing status tss)
  from_finalize status tss sound fits =
      after_stage C newest_first conf w finalizing status tss sound fits
        (λ out d f. over (inl refl))

  from_running :
      (status : BackupSessionStatus) (tss : List TargetStatus)
      → AllSound backing_up tss
      → Fits conf tss
      → CanEnd C newest_first (at_stage backing_up status tss)
  from_running status tss sound fits =
      after_stage C newest_first conf w backing_up status tss sound fits
        (λ out d f. from_finalize status out (done-sound_finalizing out d) f)

  from_initializing :
      (status : BackupSessionStatus) (tss : List TargetStatus)
      → AllSound preparing tss
      → Fits conf tss
      → CanEnd C newest_first (at_stage preparing status tss)
  from_initializing status tss sound fits =
      after_stage C newest_first conf w preparing status tss sound fits
        (λ out d f. from_running status out (done-sound_backing_up out d) f)

  abbrev Idle : Type 0
  Idle = C.list_backup_sessions conf.metadata.namespace running w ≡ ok []

  not_ongoing : Idle → is_backup_ongoing C conf w ≡ ok false
  unfolding is_backup_ongoing
  not_ongoing idle = rw (is_backup_ongoing, idle) (ground arith)

  new_starts :
      Idle
      → (status : BackupSessionStatus)
      → advance C newest_first new conf status w
        ≡ (ok (move initializing (record status { targets = init_session (C.clock w) conf })), w)
  unfolding advance
  new_starts idle status = rw (not_ongoing idle)

  from_new :
      Idle
      → 0 < length conf.spec.targets
      → (status : BackupSessionStatus)
      → CanEnd C newest_first (record status { session_state = new })
  unfolding init_session
  from_new idle targeted status =
      let tss = init_targets (C.clock w) 0 conf.spec.targets in
      let same_length = length-init (C.clock w) 0 conf.spec.targets in
      goes_on
        (reconciled conf (record status { session_state = new }) _ initializing w w
          (new_starts idle (record status { session_state = new })) (λ e. ground arith))
        (from_initializing status tss (init-AllSound (C.clock w) 0 conf.spec.targets)
          (omega (arith, same_length), omega (arith, same_length)))

  from_state :
      (state : SessionState) (status : BackupSessionStatus)
      → IsSound state status.targets
      → (in_stage state ≡ true → Fits conf status.targets)
      → (in_stage state ≡ false → Idle × (0 < length conf.spec.targets))
      → CanEnd C newest_first (record status { session_state = state })
  unfolding advance
  from_state new status sound fits starts = from_new (starts refl).0 (starts refl).1 status
  from_state initializing status sound fits starts =
      from_initializing status status.targets sound (fits refl)
  from_state running status sound fits starts = from_running status status.targets sound (fits refl)
  from_state finalize status sound fits starts =
      from_finalize status status.targets sound (fits refl)
  from_state success status sound fits starts = over (inl refl)
  from_state failure status sound fits starts = over (inr refl)
  from_state state status sound fits starts =
      goes_on
        (reconciled conf (record status { session_state = state }) _ new w w refl
          (λ e. ground arith))
        (from_new (starts refl).0 (starts refl).1
          (record status { start_time = some (C.clock w 0) }))

  -- Let a session come about by runs of the reconciler, whatever they read, and by reports of sidecars,
  -- only of targets that are worked at or whose job goes on, and only that they are done, have failed,
  -- wait for a job or are "Finalized". Then there are runs of the reconciler and such reports that bring
  -- it to Success or to Failure. In the states Initializing, Running and Finalize this asks that the
  -- session has targets, and not more than the configuration; in the other states, that the
  -- configuration has targets and that no session of its namespace is listed as running.
  pub Reachable-CanEnd :
      {status : BackupSessionStatus}
      → Reachable C newest_first status
      → (in_stage status.session_state ≡ true → Fits conf status.targets)
      → (in_stage status.session_state ≡ false
          → (C.list_backup_sessions conf.metadata.namespace running w ≡ ok [])
            × (0 < length conf.spec.targets))
      → CanEnd C newest_first status
  Reachable-CanEnd {status} r fits starts =
      from_state status.session_state status (Reachable-IsSound C newest_first r) fits starts
