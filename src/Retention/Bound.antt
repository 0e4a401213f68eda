-- ===== src/Retention/Bound.antt =====
-- How many backups are kept.
use formol.Prelude.{
  ℕ, ◌+◌, ◌≤◌, ◌≡◌, pos, pos_part, ltb_ℤ, ◌&&◌, ◌++◌, refl, String, Bool, true, false, not, List,
  [], ◌∷◌, count_if, is_empty, Bool-cases, inl, inr, arith,
}
use formol.Api.Meta.{Time}
use formol.Api.Config.{Keep}
use formol.Retention.{
  KeepBackup, Buckets, Dated, buckets_of, after_session, reasons, is_own, counted, count_last,
  label, keeps_last, keeps_daily, keeps_weekly, keeps_monthly, keeps_yearly,
}
use formol.Retention.Plan.{is_kept, plan}

-- How many more backups the buckets have room for.
abbrev pub room : Buckets → ℕ
room b =
    pos_part b.last.counter
    + pos_part b.daily.counter
    + pos_part b.weekly.counter
    + pos_part b.monthly.counter
    + pos_part b.yearly.counter

abbrev as_number : Bool → ℕ
as_number true = 1
as_number false = 0

counted_room :
    (passes rest : Bool) (t : Time) (k : KeepBackup)
    → passes ≡ (ltb_ℤ (pos 0) k.counter && rest)
    → pos_part (counted passes t k).counter + as_number passes ≤ pos_part k.counter
counted_room passes rest t k h = ground arith

count_last_room :
    (passes : Bool) (k : KeepBackup)
    → passes ≡ ltb_ℤ (pos 0) k.counter
    → pos_part (count_last passes k).counter + as_number passes ≤ pos_part k.counter
count_last_room passes k h = ground arith

kept_number :
    (a b c d e : Bool)
    → as_number (
        not (
          is_empty (
            label a "last"
            ++ (label b "daily" ++ (label c "weekly" ++ (label d "monthly" ++ label e "yearly"))))))
      ≤ as_number a + as_number b + as_number c + as_number d + as_number e
kept_number a b c d e = ground arith

room-after_session :
    (b : Buckets) (t : Time)
    → room (after_session b t) + as_number (not (is_empty (reasons b t))) ≤ room b
unfolding after_session reasons
room-after_session b t = omega (
  arith,
  kept_number (keeps_last b t) (keeps_daily b t) (keeps_weekly b t) (keeps_monthly b t)
      (keeps_yearly b t),
  count_last_room (keeps_last b t) b.last refl,
  counted_room (keeps_daily b t) _ t b.daily refl,
  counted_room (keeps_weekly b t) _ t b.weekly refl,
  counted_room (keeps_monthly b t) _ t b.monthly refl,
  counted_room (keeps_yearly b t) _ t b.yearly refl,
)

count-plan :
    (name : String) (b : Buckets) (ds : List Dated) → count_if is_kept (plan name b ds) ≤ room b
unfolding plan
count-plan name b [] = omega arith
count-plan name b (d ∷ rest) = elim (Bool-cases (is_own name d.session)) [
  | inl own ↦
      rw own
        (ground (arith, room-after_session b d.time, count-plan name (after_session b d.time) rest))
  | inr other ↦ rw other (count-plan name b rest)
]

-- At most as many sessions are kept as the five numbers of the configuration add up to, where a
-- negative number counts as 0.
pub count-plan-le :
    (name : String) (keep : Keep) (ds : List Dated)
    → count_if is_kept (plan name (buckets_of keep) ds)
      ≤ pos_part keep.last
        + pos_part keep.daily
        + pos_part keep.weekly
        + pos_part keep.monthly
        + pos_part keep.yearly
unfolding buckets_of
count-plan-le name keep ds = count-plan name (buckets_of keep) ds
