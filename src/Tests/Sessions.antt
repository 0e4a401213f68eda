-- ===== src/Tests/Sessions.antt =====
-- The checks of the targets of a session, on two targets.
use formol.Prelude.{◌≤◌, ◌≡◌, refl, pos, Option, List, [], ◌∷◌, count_if, arith}
use formol.Api.Meta.{zero_time}
use formol.Api.Session.{
  unset, initialized, running, waiting, waiting_for_job, finalize, failure, TargetStatus,
}
use formol.Outcome.{ok, panic}
use formol.Session.{Verdict, check_session_state, check_success}
use formol.Session.Check.{check_session_state-first_open, check_session_state-Passed}
use formol.Session.Moves.{Moves, check_session_state-Moves}
use formol.Session.Returns.{check_session_state_total}
use formol.Session.Within.{Within, check_session_state-Within}
use formol.Session.Stage.{finalizing, check_stage, is_busy}
use formol.Session.Order.{Opened, Runs, begin, checked, reported, report, job_back, Runs-sequential}
use formol.Tests.Samples.{two, conf_of, in_state}

-- The first target is done, the second has failed once.
abbrev tss : List TargetStatus
tss = in_state "db" waiting ∷ in_state "web" failure ∷ []

abbrev retried_web : Verdict
retried_web = record {
  state = running;
  targets =
      in_state "db" waiting
      ∷ record (in_state "web" running) { try = pos 2; start_time = Option.some zero_time }
      ∷ [];
}

retries : check_session_state tss two zero_time initialized running finalize ≡ ok retried_web
unfolding check_session_state
retries = refl

-- A configuration that has lost its targets.
shrunk : check_session_state tss (conf_of []) zero_time initialized running finalize ≡ panic
unfolding check_session_state
shrunk = refl

check_session_state-first_open_example :
    check_session_state tss two zero_time initialized running finalize ≡ ok retried_web
unfolding check_session_state
check_session_state-first_open_example =
    check_session_state-first_open two zero_time initialized running finalize
      (in_state "db" waiting ∷ []) (in_state "web" failure) [] (refl, tt) refl

check_session_state-Passed_example :
    check_session_state
      (in_state "db" waiting ∷ in_state "web" waiting_for_job ∷ [])
      two
      zero_time
      initialized
      running
      finalize
    ≡ ok (record {
      state = running;
      targets = in_state "db" waiting ∷ in_state "web" waiting_for_job ∷ [];
    })
check_session_state-Passed_example =
    check_session_state-Passed two zero_time initialized running finalize
      (in_state "db" waiting ∷ in_state "web" waiting_for_job ∷ []) (refl, (refl, tt))

check_session_state_total_example :
    (v : Verdict) × (check_session_state tss two zero_time initialized running finalize ≡ ok v)
check_session_state_total_example =
    check_session_state_total tss two zero_time initialized running finalize (omega arith)

check_session_state-Moves_example :
    Moves two.spec.targets zero_time initialized running 0 tss retried_web.targets
    × (retried_web.state ≡ unset → retried_web.targets ≡ tss)
check_session_state-Moves_example =
    check_session_state-Moves tss two zero_time initialized running finalize retried_web (λ e. cc)
      retries

check_session_state-Within_example : Within two.spec.targets 0 tss retried_web.targets
check_session_state-Within_example =
    check_session_state-Within tss two zero_time initialized running finalize retried_web retries

abbrev backed_up : List TargetStatus
backed_up = in_state "db" waiting ∷ in_state "web" waiting ∷ []

abbrev first_started : Verdict
first_started = record {
  state = finalize;
  targets = in_state "db" finalize ∷ in_state "web" waiting ∷ [];
}

starts : check_stage finalizing backed_up two zero_time ≡ ok first_started
unfolding check_stage check_success
starts = refl

-- The first target waits for its job.
abbrev second_started : Verdict
second_started = record {
  state = finalize;
  targets = in_state "db" waiting_for_job ∷ in_state "web" finalize ∷ [];
}

starts_next :
    check_stage finalizing
      (in_state "db" waiting_for_job ∷ in_state "web" waiting ∷ [])
      two
      zero_time
    ≡ ok second_started
unfolding check_stage check_success
starts_next = refl

-- The job of the first target has failed after the second one was started: both are worked at.
abbrev both_busy : Verdict
both_busy = record {
  state = finalize;
  targets =
      record (in_state "db" finalize) { try = pos 2; start_time = Option.some zero_time }
      ∷ in_state "web" finalize
      ∷ [];
}

job_failed :
    check_stage finalizing (in_state "db" failure ∷ in_state "web" finalize ∷ []) two zero_time
    ≡ ok both_busy
unfolding check_stage check_success
job_failed = refl

both_are_busy : count_if (is_busy finalizing) both_busy.targets ≡ 2
both_are_busy = refl

run : Runs two finalizing backed_up 1 both_busy.targets
run =
    checked zero_time both_busy
      (reported
        (checked zero_time second_started
          (reported (checked zero_time first_started begin starts)
            (report (in_state "db" finalize) waiting_for_job (in_state "web" waiting ∷ []) refl))
          starts_next)
        (job_back (in_state "db" waiting_for_job) failure (in_state "web" finalize ∷ []) refl))
      job_failed

-- The bound is reached.
Runs-sequential_example :
    Opened finalizing 2 both_busy.targets × (count_if (is_busy finalizing) both_busy.targets ≤ 2)
Runs-sequential_example = Runs-sequential two finalizing (refl, (refl, tt)) run
