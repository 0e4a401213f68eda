-- ===== src/Tests/Reconciling.antt =====
-- Runs of the reconcilers over the client in memory.
use formol.Prelude.{◌≡◌, refl, inl, inr, true, false, some, List, [], map, arith}
use formol.Api.Meta.{zero_time}
use formol.Api.Session.{
  unset, new, initializing, running, success, failure, BackupSession, BackupSessionStatus,
}
use formol.Api.Objects.{Kind}
use formol.Outcome.{ok, return, ◌>>◌}
use formol.Session.{init_session, is_backup_ongoing}
use formol.Session.Stage.{preparing, backing_up, finalizing}
use formol.Session.Rounds.{finished}
use formol.Retention.{Dated, cleanup_sessions}
use formol.BackupSession.{done, move, advance, reconcile, reconcile_found, reconcile_live}
use formol.BackupSession.States.{Follows, advance_Follows}
use formol.BackupSession.Deletion.{reconcile_ended}
use formol.BackupSession.Progress.{Stored, reconcile-Stored}
use formol.BackupSession.Ending.{EndsStage, session_succeeds, reconcile_without_targets}
use formol.RestoreSession
use formol.RestoreSession.Laws.{restored, restored_result, agree, advance-restored}
use formol.Tests.Samples.{
  Memory, memory, memory-IsSessionStore, two, conf_of, session_of, key, holding,
}

abbrev pub as_listed : List Dated → List Dated
as_listed ds = ds

abbrev pub fresh : BackupSession
fresh = session_of new []

abbrev started : BackupSessionStatus
started = record fresh.status { targets = init_session (λ i. zero_time) two }

starts :
    advance memory as_listed new two fresh.status (holding fresh two)
    ≡ (ok (move initializing started), holding fresh two)
unfolding advance is_backup_ongoing
starts = refl

advance_Follows_example : Follows new initializing
advance_Follows_example =
    advance_Follows memory as_listed two fresh.status new initializing started (holding fresh two)
      (holding fresh two) starts

-- A session that is being deleted.
abbrev deleted : BackupSession
deleted =
    let s = session_of success [] in
    record s { metadata = record s.metadata { deletion_timestamp = some zero_time } }

abbrev lost : BackupSession
lost = session_of failure []

-- A session that has failed is left alone.
lost_stays :
    (lost.status.session_state ≡ failure
      → reconcile memory as_listed key (holding lost two) ≡ (ok done, holding lost two))
    × (lost.status.session_state ≡ success
        → reconcile memory as_listed key (holding lost two)
          ≡ (cleanup_sessions memory as_listed two >> return done) (holding lost two))
lost_stays = reconcile_ended memory as_listed key (holding lost two) lost two refl refl refl refl

abbrev pub after_start : Memory
after_start =
    holding (record fresh { status = record started { session_state = initializing } }) two

pub first_run : reconcile memory as_listed key (holding fresh two) ≡ (ok done, after_start)
unfolding reconcile reconcile_found reconcile_live advance is_backup_ongoing
first_run = refl

reconcile-Stored_example :
    (t : BackupSession) × (memory.get Kind.backup_session key after_start ≡ ok t)
    × Stored memory as_listed fresh t
reconcile-Stored_example =
    reconcile-Stored memory as_listed memory-IsSessionStore fresh two key (holding fresh two)
      after_start done refl refl refl refl (λ e. ground arith) first_run

session_succeeds_example :
    let start = init_session (λ i. zero_time) two in
    let second = map (finished preparing) start in
    let third = map (finished backing_up) second in
    EndsStage preparing two zero_time start
    × EndsStage backing_up two zero_time second
    × EndsStage finalizing two zero_time third
session_succeeds_example = session_succeeds (λ i. zero_time) two zero_time refl

abbrev idle : BackupSession
idle = session_of running []

reconcile_without_targets_example :
    reconcile memory as_listed key (holding idle (conf_of []))
    ≡ (ok done, holding idle (conf_of []))
reconcile_without_targets_example =
    reconcile_without_targets memory as_listed key (holding idle (conf_of [])) idle (conf_of [])
      refl refl refl refl refl (inr (inl refl))

advance-restored_example :
    let (r, w') = advance memory as_listed running two idle.status (holding idle two) in
    (agree running ≡ true
      → RestoreSession.advance memory running two (restored idle.status) (holding idle two)
        ≡ (restored_result r, w'))
    × (agree running ≡ false
        → RestoreSession.advance memory running two (restored idle.status) (holding idle two)
          ≡ (ok (RestoreSession.move unset (restored idle.status)), holding idle two))
advance-restored_example =
    advance-restored memory as_listed running two idle.status (holding idle two)
