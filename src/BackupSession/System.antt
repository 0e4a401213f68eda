-- ===== src/BackupSession/System.antt =====
-- A backup session together with what works at it: the runs of the reconciler, which store what
-- `advance` hands on, and the sidecars, which report on the targets. The steps come in any order, and
-- the configuration and the cluster may change between them.
pub mod Sound
pub mod Gate
pub mod Refines
pub mod Steps
pub mod Stages
pub mod Ends
use formol.Prelude.{
  ◌≡◌, ◌≢◌, refl, sym, ap, ◌∙◌, ◌⊎◌, inl, inr, Bool, true, false, ◌||◌, ℕ, suc, List, [], ◌∷◌, All,
  arith,
}
use formol.Api.Meta.{Time}
use formol.Api.Config.{Target, BackupConfiguration}
use formol.Api.Session.{
  SessionState, unset, new, initializing, initialized, running, waiting, waiting_for_job, finalize,
  success, failure, TargetStatus, BackupSessionStatus,
}
use formol.Client.{Client}
use formol.Outcome.{Result, ok, err, panic, resume, return}
use formol.Session.{
  Verdict, init_session, init_targets, is_backup_ongoing, check_initialized, check_waiting,
  check_success,
}
use formol.Session.Check.{is_job}
use formol.Session.Stage.{
  Stage, preparing, backing_up, finalizing, wait_of, done_of, finalized_text, check_stage, is_busy,
}
use formol.Session.Health.{
  is_sound, AllSound, AllDone, check_stage-AllSound, done-sound_backing_up, done-sound_finalizing,
}
use formol.Retention.{Dated, cleanup_sessions}
use formol.BackupSession.{Next, move, advance, checked, forgiven, map_verdict, start_session}
use formol.BackupSession.States.{Named, check_session_state-Named}

-- What a sidecar can report: that it is done, that it has failed, that a job goes on, or, by the text
-- in the comment of `checkSessionState`, that a job is over.
abbrev pub Reported : Stage → SessionState → Type 0
Reported stage state =
    (state ≡ done_of stage)
    ⊎ ((state ≡ failure) ⊎ ((state ≡ waiting_for_job) ⊎ (state ≡ finalized_text)))

-- The sidecar of a target that is busy, or waits for a job, reports. It may write what else it likes.
pub data Works (stage : Stage) : List TargetStatus → List TargetStatus → Type 0 where
  report :
      (ts ts' : TargetStatus) (rest : List TargetStatus)
      → (is_busy stage ts || is_job ts) ≡ true
      → Reported stage ts'.session_state
      → Works stage (ts ∷ rest) (ts' ∷ rest)
  later :
      (ts : TargetStatus) (rest rest' : List TargetStatus)
      → Works stage rest rest'
      → Works stage (ts ∷ rest) (ts ∷ rest')

-- What the state of a session says of its targets. In Finalize and in Success every target has a
-- state of the stage Finalize, which follows the backup.
abbrev pub IsSound : SessionState → List TargetStatus → Type 0
IsSound initializing tss = AllSound preparing tss
IsSound running tss = AllSound backing_up tss
IsSound finalize tss = AllSound finalizing tss
IsSound success tss = AllSound finalizing tss
IsSound failure tss = AllSound preparing tss ⊎ AllSound backing_up tss
IsSound _ tss = Unit

module _ (C : Client) (newest_first : List Dated → List Dated) where
  -- A run of the reconciler on the session, with what it stores, or a report of a sidecar.
  pub data Step : BackupSessionStatus → BackupSessionStatus → Type 0 where
    reconciled :
        (conf : BackupConfiguration) (old t : BackupSessionStatus) (s : SessionState)
        (w w' : C.World)
        → advance C newest_first old.session_state conf old w ≡ (ok (move s t), w')
        → s ≢ unset
        → Step old (record t { session_state = s })
    reported :
        (stage : Stage) (old : BackupSessionStatus) (tss : List TargetStatus)
        → old.session_state ≡ wait_of stage
        → Works stage old.targets tss
        → Step old (record old { targets = tss })

  -- From a session as it is created on.
  pub data Reachable : BackupSessionStatus → Type 0 where
    created : (status : BackupSessionStatus) → status.session_state ≡ unset → Reachable status
    steps : {a b : BackupSessionStatus} → Reachable a → Step a b → Reachable b
