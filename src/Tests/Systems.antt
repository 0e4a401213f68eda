-- ===== src/Tests/Systems.antt =====
-- A session with its sidecars, from its creation to its finalization.
use formol.Prelude.{◌≡◌, ◌≢◌, refl, inl, some, List, [], ◌∷◌, ◌⊎◌, arith}
use formol.Api.Meta.{zero_time}
use formol.Api.Session.{
  SessionState, unset, new, initializing, initialized, running, waiting, finalize, BackupSession,
  BackupSessionStatus, TargetStatus,
}
use formol.Api.Objects.{Kind}
use formol.Outcome.{ok}
use formol.Api.Config.{BackupConfiguration}
use formol.Session.{
  check_session_state, check_initialized, check_waiting, is_backup_ongoing, init_session,
}
use formol.Session.Stage.{preparing, backing_up}
use formol.Session.Health.{AllDone}
use formol.Session.Next.{IsOver, check_session_state-next}
use formol.BackupSession.{move, advance, done}
use formol.BackupSession.System.{
  IsSound, report, Step, reconciled, reported, Reachable, created, steps,
}
use formol.BackupSession.System.Sound.{Reachable-IsSound}
use formol.BackupSession.System.Gate.{Step-finalize}
use formol.BackupSession.System.Steps.{CanEnd}
use formol.BackupSession.System.Ends.{Reachable-CanEnd}
use formol.BackupSession.System.Refines.{reconcile-Step}
use formol.Tests.Samples.{
  Memory, memory, memory-IsSessionStore, conf_of, target, in_state, two, session_of, key, holding,
}
use formol.Tests.Reconciling.{as_listed, fresh, after_start, first_run}

abbrev one : BackupConfiguration
one = conf_of (target "db" 2 ∷ [])

abbrev in_stage : SessionState → TargetStatus
in_stage state = record (in_state "db" state) { start_time = some zero_time }

abbrev at : SessionState → List TargetStatus → BackupSessionStatus
at state tss = (session_of state tss).status

abbrev world : Memory
world = holding fresh one

-- A run of the reconciler.
abbrev Runs : BackupSessionStatus → SessionState → List TargetStatus → Type 0
Runs old s tss =
    advance memory as_listed old.session_state one old world
    ≡ (ok (move s (record old { targets = tss })), world)

run_step :
    (old : BackupSessionStatus) (s : SessionState) (tss : List TargetStatus)
    → Runs old s tss
    → s ≢ unset
    → Step memory as_listed old (record old { session_state = s; targets = tss })
run_step old s tss h n = reconciled one old (record old { targets = tss }) s world world h n

accepts : Runs (at unset []) new []
unfolding advance
accepts = refl

starts : Runs (at new []) initializing (in_stage unset ∷ [])
unfolding advance is_backup_ongoing init_session
starts = refl

prepares : Runs (at initializing (in_stage unset ∷ [])) initializing (in_stage initializing ∷ [])
unfolding advance check_initialized check_session_state
prepares = refl

is_prepared : Runs (at initializing (in_stage initialized ∷ [])) running (in_stage initialized ∷ [])
unfolding advance check_initialized check_session_state
is_prepared = refl

backs_up : Runs (at running (in_stage initialized ∷ [])) running (in_stage running ∷ [])
unfolding advance check_waiting check_session_state
backs_up = refl

is_backed_up : Runs (at running (in_stage waiting ∷ [])) finalize (in_stage waiting ∷ [])
unfolding advance check_waiting check_session_state
is_backed_up = refl

-- The session before the step to Finalize.
over : Reachable memory as_listed (at running (in_stage waiting ∷ []))
over =
    steps
      (steps
        (steps
          (steps
            (steps
              (steps
                (steps (created (at unset []) refl)
                  (run_step (at unset []) new [] accepts (ground arith)))
                (run_step (at new []) initializing _ starts (ground arith)))
              (run_step (at initializing (in_stage unset ∷ [])) initializing _ prepares
                (ground arith)))
            (reported preparing (at initializing (in_stage initializing ∷ [])) _ refl
              (report _ (in_stage initialized) [] refl (inl refl))))
          (run_step (at initializing (in_stage initialized ∷ [])) running _ is_prepared
            (ground arith)))
        (run_step (at running (in_stage initialized ∷ [])) running _ backs_up (ground arith)))
      (reported backing_up (at running (in_stage running ∷ [])) _ refl
        (report _ (in_stage waiting) [] refl (inl refl)))

Reachable-IsSound_example : IsSound running (in_stage waiting ∷ [])
Reachable-IsSound_example = Reachable-IsSound memory as_listed over

Step-finalize_example : AllDone backing_up (in_stage waiting ∷ [])
Step-finalize_example =
    Step-finalize memory as_listed over
      (run_step (at running (in_stage waiting ∷ [])) finalize _ is_backed_up (ground arith)) refl
      refl

reconcile-Step_example :
    (t : BackupSession) × (memory.get Kind.backup_session key after_start ≡ ok t)
    × ((t ≡ fresh)
        ⊎ ((t.metadata ≡ fresh.metadata)
            × (t.spec ≡ fresh.spec)
            × Step memory as_listed fresh.status t.status))
reconcile-Step_example =
    reconcile-Step memory as_listed memory-IsSessionStore fresh two key (holding fresh two)
      after_start done refl refl refl refl (λ e. ground arith) first_run

moves_on :
    check_session_state (in_stage waiting ∷ []) one zero_time initialized running finalize
    ≡ ok (record { state = finalize; targets = in_stage waiting ∷ [] })
unfolding check_session_state
moves_on = refl

check_session_state-next_example :
    IsOver initialized running (in_stage waiting ∷ [])
    × (◌≡◌ {A = List TargetStatus} (in_stage waiting ∷ []) (in_stage waiting ∷ []))
check_session_state-next_example =
    check_session_state-next one zero_time initialized running finalize
      ((λ e. ground arith), (λ e. ground arith), (λ e. ground arith)) (in_stage waiting ∷ [])
      (record { state = finalize; targets = in_stage waiting ∷ [] }) moves_on refl

-- A session as it is created.
abbrev unseen : BackupSessionStatus
unseen = at unset []

Reachable-CanEnd_example : CanEnd memory as_listed unseen
Reachable-CanEnd_example =
    Reachable-CanEnd memory as_listed one world (created unseen refl) (λ e. ground arith)
      (λ e. (refl, omega arith))
