-- ===== src/Tests/Keeping.antt =====
-- The retention rules, on three sessions of January, and the snapshots of a session.
use formol.Prelude.{
  ℕ, ◌+◌, ◌≤◌, ◌<◌, ◌≡◌, refl, pos, true, false, Option, String, List, [], ◌∷◌, map, keep_if,
  length, count_if, some, get_elem?,
}
use formol.Api.Meta.{Weekday, Time}
use formol.Api.Pod.{Container}
use formol.Api.Objects.{Job}
use formol.Api.Session.{success, BackupSession}
use formol.Retention.{reasons, after_session, Dated, buckets_of}
use formol.Retention.Plan.{Decision, is_kept, plan}
use formol.Retention.Bound.{count-plan-le}
use formol.Retention.Again.{remaining, settled, plan-remaining}
use formol.Retention.Newest.{has, plan-newest}
use formol.Retention.Calendar.{dailies, Apart, plan-dailies, plan-january}
use formol.Api.Meta.{zero_time}
use formol.Snapshots.{delete_args, delete_job}
use formol.Tests.Samples.{two, in_state, session_of}

abbrev pub january : ℕ → Time
january day = record {
  unix = pos (1672531200 + day);
  year = 2023;
  month = 1;
  day = day;
  year_day = day;
  weekday = Weekday.monday;
}

abbrev dated : ℕ → Dated
dated day = record { session = session_of success []; time = january day }

abbrev three : List Dated
three = dated 3 ∷ dated 2 ∷ dated 1 ∷ []

abbrev first : Decision
first = record { session = session_of success []; time = january 3; keep = "last" ∷ "daily" ∷ [] }

-- The third, of the first of January, is deleted.
three_planned :
    plan "conf" (buckets_of two.spec.keep) three
    ≡ first
      ∷ record { session = session_of success []; time = january 2; keep = "daily" ∷ [] }
      ∷ record { session = session_of success []; time = january 1; keep = [] }
      ∷ []
unfolding plan reasons after_session buckets_of
three_planned = refl

first_planned : get_elem? (plan "conf" (buckets_of two.spec.keep) three) 0 ≡ some first
unfolding plan reasons after_session buckets_of
first_planned = refl

count-plan-le_example : count_if is_kept (plan "conf" (buckets_of two.spec.keep) three) ≤ 4
count-plan-le_example = count-plan-le "conf" two.spec.keep three

plan-remaining_example :
    plan "conf" (buckets_of two.spec.keep) (remaining "conf" (buckets_of two.spec.keep) three)
    ≡ map settled (keep_if is_kept (plan "conf" (buckets_of two.spec.keep) three))
plan-remaining_example = plan-remaining "conf" (buckets_of two.spec.keep) three

plan-newest_example : (has "last" first.keep ≡ true) × (0 < 1 → is_kept first ≡ true)
plan-newest_example = plan-newest "conf" two.spec.keep three 0 first first_planned

plan-dailies_example :
    let kept = dailies (plan "conf" (buckets_of two.spec.keep) three) in
    Apart zero_time kept × (length kept ≤ 2)
plan-dailies_example = plan-dailies "conf" two.spec.keep three

plan-january_example : has "monthly" first.keep ≡ false
plan-january_example =
    plan-january "conf" two.spec.keep three 0 first (refl, (refl, (refl, tt))) first_planned

abbrev saved : BackupSession
saved = session_of success (
    record (in_state "db" success) { snapshot_id = "a1" }
    ∷ in_state "web" success
    ∷ record (in_state "log" success) { snapshot_id = "b2" }
    ∷ [])

abbrev container : String → String → Container
container name id = record {
  name = name;
  image = "formol:1";
  args = delete_args two id;
  env = [];
  volume_mounts = [];
  privileged = Option.none;
}

abbrev cleaning : Job
cleaning = delete_job saved (container "db" "a1") (container "log" "b2" ∷ [])
