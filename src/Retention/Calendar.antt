-- ===== src/Retention/Calendar.antt =====
-- The daily and the monthly rule, and what the zero time that the rules start from makes of backups
-- in January.
use formol.Prelude.{
  ℕ, zero, suc, ◌≤◌, ◌≡◌, ◌≢◌, pos_part, refl, String, true, false, List, [], ◌∷◌, All, keep_if,
  get_elem?, some, ◌∙◌, length, Bool-cases, inl, inr, arith,
}
use mathlib.Core.Option.{some-injective}
use formol.Api.Meta.{Time, zero_time}
use formol.Api.Config.{Keep}
use formol.Retention.{
  Buckets, Dated, buckets_of, after_session, reasons, is_own, keeps_daily, keeps_monthly,
}
use formol.Retention.Plan.{Decision, plan}
use formol.Retention.Newest.{has, reasons-has}

-- The decisions to keep a session as a daily backup.
abbrev pub dailies : List Decision → List Decision
dailies = keep_if (λ d. has "daily" d.keep)

-- No two neighbours have the same day of the year, nor has the first the day of `previous`.
abbrev pub Apart : Time → List Decision → Type 0
Apart previous [] = Unit
Apart previous (d ∷ rest) = (d.time.year_day ≢ previous.year_day) × Apart d.time rest

daily_differ :
    (b : Buckets) (t : Time) → keeps_daily b t ≡ true → t.year_day ≢ b.daily.last.year_day
unfolding keeps_daily
daily_differ b t h = ground arith

daily_counts :
    (b : Buckets) (t : Time)
    → keeps_daily b t ≡ true
    → suc (pos_part (after_session b t).daily.counter) ≤ pos_part b.daily.counter
unfolding after_session
daily_counts b t h = ground arith

daily_kept : (b : Buckets) (t : Time) → keeps_daily b t ≡ true → (after_session b t).daily.last ≡ t
unfolding after_session
daily_kept b t h = ground arith

daily_skipped :
    (b : Buckets) (t : Time) → keeps_daily b t ≡ false → (after_session b t).daily ≡ b.daily
unfolding after_session
daily_skipped b t h = ground arith

Dailies : Buckets → List Decision → Type 0
Dailies b ds = Apart b.daily.last (dailies ds) × (length (dailies ds) ≤ pos_part b.daily.counter)

first_daily :
    (b : Buckets) (d : Decision) (later : List Decision)
    → d.keep ≡ reasons b d.time
    → Dailies (after_session b d.time) later
    → Dailies b (d ∷ later)
unfolding Dailies
first_daily b d later k (apart, few) = elim (Bool-cases (keeps_daily b d.time)) [
  | inl kept ↦
      rw (k, (reasons-has b d.time).1, kept)
        (
          (daily_differ b d.time kept, rw (daily_kept b d.time kept) at apart),
          omega (arith, daily_counts b d.time kept, few),
        )
  | inr skipped ↦
      rw (k, (reasons-has b d.time).1, skipped)
        (rw (daily_skipped b d.time skipped) at apart, rw (daily_skipped b d.time skipped) at few)
]

plan-Dailies : (name : String) (b : Buckets) (ds : List Dated) → Dailies b (plan name b ds)
unfolding plan
plan-Dailies name b [] = unfold Dailies in (tt, omega arith)
plan-Dailies name b (d ∷ rest) = elim (Bool-cases (is_own name d.session)) [
  | inl own ↦ rw own (
      first_daily b (record { session = d.session; time = d.time; keep = reasons b d.time }) _ refl
        (plan-Dailies name (after_session b d.time) rest))
  | inr other ↦ rw other (plan-Dailies name b rest)
]

-- At most `Daily` sessions are kept as daily backups. Of these, in the order in which they are listed,
-- no two neighbours have the same day of the year, and the first has not the day of the zero time,
-- which is the first of January.
pub plan-dailies :
    (name : String) (keep : Keep) (ds : List Dated)
    → let kept = dailies (plan name (buckets_of keep) ds) in
      Apart zero_time kept × (length kept ≤ pos_part keep.daily)
unfolding buckets_of Dailies
plan-dailies name keep ds = plan-Dailies name (buckets_of keep) ds

monthly_skipped :
    (b : Buckets) (t : Time)
    → t.month ≡ b.monthly.last.month
    → (keeps_monthly b t ≡ false) × ((after_session b t).monthly ≡ b.monthly)
unfolding keeps_monthly after_session
monthly_skipped b t h = ground arith

first_monthly :
    (b : Buckets) (d : Decision) (later : List Decision) (i : ℕ) (e : Decision)
    → d.keep ≡ reasons b d.time
    → keeps_monthly b d.time ≡ false
    → ((j : ℕ) → get_elem? later j ≡ some e → has "monthly" e.keep ≡ false)
    → get_elem? (d ∷ later) i ≡ some e
    → has "monthly" e.keep ≡ false
first_monthly b d later zero e k skipped ih h =
    rw (← some-injective d e h, k) ((reasons-has b d.time).3 ∙ skipped)
first_monthly b d later (suc j) e k skipped ih h = ih j h

plan_january :
    (name : String) (b : Buckets) (ds : List Dated) (i : ℕ) (e : Decision)
    → b.monthly.last.month ≡ 1
    → All (λ d. d.time.month ≡ 1) ds
    → get_elem? (plan name b ds) i ≡ some e
    → has "monthly" e.keep ≡ false
unfolding plan
plan_january name b [] i e m a h = cc
plan_january name b (d ∷ rest) i e m a h = elim (Bool-cases (is_own name d.session)) [
  | inl own ↦
      let (skipped, unchanged) = monthly_skipped b d.time (omega arith) in
      first_monthly b (record { session = d.session; time = d.time; keep = reasons b d.time })
        (plan name (after_session b d.time) rest) i e refl skipped
        (λ j. plan_january name (after_session b d.time) rest j e (rw unchanged m) a.1)
        (rw own at h)
  | inr other ↦ plan_january name b rest i e m a.1 (rw other at h)
]

-- Where all sessions were started in a January, none is kept as a monthly backup, however many the
-- configuration asks for: the zero time, from which the rule starts, lies in January itself.
pub plan-january :
    (name : String) (keep : Keep) (ds : List Dated) (i : ℕ) (e : Decision)
    → All (λ d. d.time.month ≡ 1) ds
    → get_elem? (plan name (buckets_of keep) ds) i ≡ some e
    → has "monthly" e.keep ≡ false
unfolding buckets_of
plan-january name keep ds i e a h = plan_january name (buckets_of keep) ds i e refl a h
