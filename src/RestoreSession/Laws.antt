-- ===== src/RestoreSession/Laws.antt =====
-- A restore session against a backup session.
use formol.Prelude.{◌≡◌, refl, List, Bool, true, false}
use formol.Api.Config.{BackupConfiguration}
use formol.Api.Session.{
  SessionState, unset, new, initializing, running, finalize, failure, BackupSessionStatus,
  RestoreSessionStatus,
}
use formol.Client.{Client}
use formol.Outcome.{Result, ok, err, panic, resume}
use formol.Session.{Verdict, is_backup_ongoing, check_initialized, check_waiting, check_success}
use formol.Retention.{Dated}
use formol.BackupSession
use formol.BackupSession.{forgiven, map_verdict}
use formol.RestoreSession
use formol.RestoreSession.{Next, put_off, move, advance}

-- The status of a backup session as that of a restore session, without the `Keep` text.
abbrev pub restored : BackupSessionStatus → RestoreSessionStatus
restored s = record {
  session_state = s.session_state;
  start_time = s.start_time;
  targets = s.targets;
}

abbrev pub restored_next : BackupSession.Next → Next
restored_next BackupSession.Next.put_off = put_off
restored_next (BackupSession.Next.move state s) = move state (restored s)

abbrev pub restored_result : Result BackupSession.Next → Result Next
restored_result (ok n) = ok (restored_next n)
restored_result (err e) = err e
restored_result panic = panic

-- The states in which the two switches agree.
abbrev pub agree : SessionState → Bool
agree unset = true
agree new = true
agree initializing = true
agree running = true
agree finalize = true
agree failure = true
agree _ = false

module _ (C : Client) (newest_first : List Dated → List Dated) where
  judged :
      (s : BackupSessionStatus) (w : C.World) (r : Result Verdict)
      → RestoreSession.checked C (restored s) (λ _. r) w ≡ (
          let (n, w') = BackupSession.checked C newest_first s (λ _. r) w in
          (restored_result n, w'))
  judged s w (ok v) = refl
  judged s w (err e) = refl
  judged s w panic = refl

  -- From the creation to the end, in any of the states of a session but Success, a restore session
  -- takes the step of a backup session with the same start time and targets, on every client. In
  -- Success, and in a state that is none of a session's own, it does nothing.
  pub advance-restored :
      (state : SessionState) (conf : BackupConfiguration) (s : BackupSessionStatus) (w : C.World)
      → let (r, w') = BackupSession.advance C newest_first state conf s w in
        (agree state ≡ true → advance C state conf (restored s) w ≡ (restored_result r, w'))
        × (agree state ≡ false
            → advance C state conf (restored s) w ≡ (ok (move unset (restored s)), w))
  unfolding advance BackupSession.advance
  advance-restored unset conf s w = (λ _. refl, λ h. cc)
  advance-restored new conf s w = (λ _. started (is_backup_ongoing C conf w), λ h. cc)
    where
      started :
          (r : Result Bool)
          → resume (RestoreSession.start_session C conf (restored s)) r w ≡ (
              let (n, w') = resume (BackupSession.start_session C newest_first conf s) r w in
              (restored_result n, w'))
      started (ok true) = refl
      started (ok false) = refl
      started (err e) = refl
      started panic = refl
  advance-restored initializing conf s w =
      (λ _. judged s w (check_initialized s.targets conf (C.clock w 0)), λ h. cc)
  advance-restored running conf s w =
      (λ _. judged s w (check_waiting s.targets conf (C.clock w 0)), λ h. cc)
  advance-restored finalize conf s w =
      (λ _. judged s w (map_verdict forgiven (check_success s.targets conf (C.clock w 0))), λ h. cc)
  advance-restored failure conf s w = (λ _. refl, λ h. cc)
  advance-restored _ conf s w = (λ h. cc, λ _. refl)
