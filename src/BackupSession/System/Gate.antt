-- ===== src/BackupSession/System/Gate.antt =====
-- The step of a session from Running to Finalize.
use formol.Prelude.{◌≡◌, ◌∙◌, List, arith}
use formol.Api.Config.{BackupConfiguration}
use formol.Api.Session.{SessionState, running, finalize, BackupSessionStatus}
use formol.Client.{Client}
use formol.Outcome.{ok}
use formol.Session.Stage.{backing_up, check_stage}
use formol.Session.Health.{AllDone, check_stage-AllSound}
use formol.Retention.{Dated}
use formol.BackupSession.{move, advance}
use formol.BackupSession.System.{IsSound, Step, reconciled, reported, Reachable}
use formol.BackupSession.System.Sound.{checked_moved, Reachable-IsSound}

module _ (C : Client) (newest_first : List Dated → List Dated) where
  backed_up :
      (state : SessionState) (conf : BackupConfiguration) (old t : BackupSessionStatus)
      (s : SessionState) (w w' : C.World)
      → state ≡ running
      → advance C newest_first state conf old w ≡ (ok (move s t), w')
      → s ≡ finalize
      → IsSound state old.targets
      → AllDone backing_up t.targets
  unfolding advance check_stage
  backed_up state conf old t s w w' r h e sound =
      let (v, run, same, f) = checked_moved C newest_first old w w' s t _ (rw r at h) in
      let (_, over) =
        check_stage-AllSound backing_up old.targets conf (C.clock w 0) v run (rw r at sound) in
      rw (← f) (over (same ∙ e))

  -- Let a session have come about by runs of the reconciler, and by reports of sidecars that say, of a
  -- target that is worked at or whose job goes on, that it is done, has failed, waits for a job or is
  -- "Finalized". Then a step takes it from Running to Finalize only if every target is in the state
  -- Waiting, by which its sidecar reports that the backup is done, or "Finalized".
  pub Step-finalize :
      {a b : BackupSessionStatus}
      → Reachable C newest_first a
      → Step C newest_first a b
      → a.session_state ≡ running
      → b.session_state ≡ finalize
      → AllDone backing_up b.targets
  Step-finalize r (reconciled conf old t s w w' h n) e f =
      backed_up old.session_state conf old t s w w' e h f (Reachable-IsSound C newest_first r)
  Step-finalize r (reported stage old tss e' w) e f = absurd (ground arith)
