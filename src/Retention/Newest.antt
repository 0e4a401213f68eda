-- ===== src/Retention/Newest.antt =====
-- Which backups the plan keeps for which reason: the newest ones, and at most one for each day.
use formol.Prelude.{
  ℕ, zero, suc, ◌<◌, ◌≡◌, ◌∙◌, pos_part, ltb, ◌++◌, refl, String, Bool, true, false, not, some,
  List, [], ◌∷◌, any, get_elem?, is_empty, ◌==◌, Bool-cases, inl, inr, arith,
}
use mathlib.Core.Option.{some-injective}
use formol.Api.Meta.{Time}
use formol.Api.Config.{Keep}
use formol.Retention.{
  Buckets, Dated, buckets_of, after_session, reasons, is_own, label, keeps_last, keeps_daily,
  keeps_weekly, keeps_monthly, keeps_yearly,
}
use formol.Retention.Plan.{Decision, is_kept, plan}

-- Whether a reason is among the reasons to keep a session.
abbrev pub has : String → List String → Bool
has reason = any (λ s. s == reason)

labels_has :
    (a b c d e : Bool)
    → let keep =
        label a "last"
        ++ (label b "daily" ++ (label c "weekly" ++ (label d "monthly" ++ label e "yearly"))) in
      (has "last" keep ≡ a)
      × (has "daily" keep ≡ b)
      × (has "weekly" keep ≡ c)
      × (has "monthly" keep ≡ d)
      × (has "yearly" keep ≡ e)
labels_has true b c d e = ground arith
labels_has false b c d e = ground arith

pub reasons-has :
    (b : Buckets) (t : Time)
    → (has "last" (reasons b t) ≡ keeps_last b t)
      × (has "daily" (reasons b t) ≡ keeps_daily b t)
      × (has "weekly" (reasons b t) ≡ keeps_weekly b t)
      × (has "monthly" (reasons b t) ≡ keeps_monthly b t)
      × (has "yearly" (reasons b t) ≡ keeps_yearly b t)
unfolding reasons
reasons-has b t = labels_has _ _ _ _ _

keeps_last-ltb : (b : Buckets) (t : Time) → keeps_last b t ≡ ltb 0 (pos_part b.last.counter)
unfolding keeps_last
keeps_last-ltb b t = ground arith

last_after :
    (b : Buckets) (t : Time) (i : ℕ)
    → ltb i (pos_part (after_session b t).last.counter) ≡ ltb (suc i) (pos_part b.last.counter)
unfolding after_session
last_after b t i = ground arith

-- One session of the plan: the first has what the buckets say, the others what the plan of the rest
-- says.
first_last :
    (b : Buckets) (d : Decision) (later : List Decision) (i : ℕ) (e : Decision)
    → d.keep ≡ reasons b d.time
    → ((j : ℕ)
        → get_elem? later j ≡ some e
        → has "last" e.keep ≡ ltb j (pos_part (after_session b d.time).last.counter))
    → get_elem? (d ∷ later) i ≡ some e
    → has "last" e.keep ≡ ltb i (pos_part b.last.counter)
first_last b d later zero e k ih h =
    let same : d ≡ e = some-injective d e h in
    rw (← same, k) ((reasons-has b d.time).0 ∙ keeps_last-ltb b d.time)
first_last b d later (suc j) e k ih h = ih j h ∙ last_after b d.time j

plan-last :
    (name : String) (b : Buckets) (ds : List Dated) (i : ℕ) (e : Decision)
    → get_elem? (plan name b ds) i ≡ some e
    → has "last" e.keep ≡ ltb i (pos_part b.last.counter)
unfolding plan
plan-last name b [] i e h = cc
plan-last name b (d ∷ rest) i e h = elim (Bool-cases (is_own name d.session)) [
  | inl own ↦
      first_last b (record { session = d.session; time = d.time; keep = reasons b d.time })
        (plan name (after_session b d.time) rest) i e refl
        (λ j. plan-last name (after_session b d.time) rest j e) (rw own at h)
  | inr other ↦ plan-last name b rest i e (rw other at h)
]

kept_of_has :
    (reason : String) (keep : List String) → has reason keep ≡ true → not (is_empty keep) ≡ true
kept_of_has reason [] h = h
kept_of_has reason (s ∷ keep) h = refl

lt_ltb : (a b : ℕ) → a < b → ltb a b ≡ true
lt_ltb a b h = ground arith

-- Of the sessions of the configuration, in the order in which they are listed, exactly those with an
-- index below `Last` are kept as one of the last, whatever the other rules say: none of these is
-- deleted.
pub plan-newest :
    (name : String) (keep : Keep) (ds : List Dated) (i : ℕ) (e : Decision)
    → get_elem? (plan name (buckets_of keep) ds) i ≡ some e
    → (has "last" e.keep ≡ ltb i (pos_part keep.last)) × (i < pos_part keep.last → is_kept e ≡ true)
unfolding buckets_of
plan-newest name keep ds i e h =
    let l = plan-last name (buckets_of keep) ds i e h in
    (l, λ below. kept_of_has "last" e.keep (l ∙ lt_ltb i _ below))
