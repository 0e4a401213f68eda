-- ===== src/Session/Ready.antt =====
-- What a check of a stage answers after targets that are done: about a target that has failed, and
-- where no target is left.
use formol.Prelude.{
  ◌≡◌, true, false, some, List, ◌∷◌, ◌++◌, length, get_elem?, is_empty, All, ltb_ℤ, arith,
}
use formol.Api.Meta.{Time}
use formol.Api.Config.{Target, BackupConfiguration}
use formol.Api.Session.{failure, same_state, TargetStatus}
use formol.Outcome.{ok}
use formol.Session.{retried, check_failed}
use formol.Session.Check.{
  is_open, passing_all, check_session_state-first_open, check_session_state-Passed,
}
use formol.Session.Stage.{
  Stage, preparing, backing_up, finalizing, current_of, wait_of, next_of, check_stage,
  check_stage_lem,
}
use formol.Session.Rounds.{IsDone, done-Passed, passing_all-ok}

failed_open :
    (stage : Stage) (ts : TargetStatus)
    → ts.session_state ≡ failure
    → (is_open (current_of stage) (wait_of stage) ts ≡ true)
      × (same_state ts.session_state (current_of stage) ≡ false)
failed_open preparing ts h = ground arith
failed_open backing_up ts h = ground arith
failed_open finalizing ts h = ground arith

module _ (stage : Stage) (conf : BackupConfiguration) (now : Time) (pre : List TargetStatus)
    (done : All (IsDone stage) pre) where
  module _ (ts : TargetStatus) (rest : List TargetStatus) (target : Target)
      (failed : ts.session_state ≡ failure)
      (found : get_elem? conf.spec.targets (length pre) ≡ some target) where
    check_stage-failed :
        check_stage stage (pre ++ ts ∷ rest) conf now
        ≡ passing_all pre (check_failed (wait_of stage) now (some target) false ts rest)
    check_stage-failed =
        let (p, j) = done-Passed stage pre done in
        let (o, c) = failed_open stage ts failed in
        rw (
          check_stage_lem,
          check_session_state-first_open conf now (current_of stage) (wait_of stage) (next_of stage)
              pre ts rest p o,
          j,
          c,
          failed,
          found,
        )

    -- A failed target with tries left is started again.
    pub check_stage-retried :
        ltb_ℤ ts.try target.retry ≡ true
        → check_stage stage (pre ++ ts ∷ rest) conf now
          ≡ ok (record {
            state = wait_of stage;
            targets = pre ++ retried (wait_of stage) now ts ∷ rest;
          })
    unfolding check_failed
    check_stage-retried h = rw (check_stage-failed, h, passing_all-ok stage)

    -- Without tries left, the session fails.
    pub check_stage-given_up :
        ltb_ℤ ts.try target.retry ≡ false
        → check_stage stage (pre ++ ts ∷ rest) conf now
          ≡ ok (record { state = failure; targets = pre ++ ts ∷ rest })
    unfolding check_failed
    check_stage-given_up h = rw (check_stage-failed, h, passing_all-ok stage)

  -- With all targets done, at least one, the session goes on.
  pub check_stage-done :
      is_empty pre ≡ false
      → check_stage stage pre conf now ≡ ok (record { state = next_of stage; targets = pre })
  check_stage-done n =
      let (p, j) = done-Passed stage pre done in
      rw (
        check_stage_lem,
        check_session_state-Passed conf now (current_of stage) (wait_of stage) (next_of stage) pre
            p,
        j,
        n,
      )
