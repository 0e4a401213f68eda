-- ===== src/Retention/Again.antt =====
-- The retention rules on the sessions that they have left.
use formol.Prelude.{
  ◌≡◌, refl, ap, ◌∙◌, String, Bool, true, false, List, [], ◌∷◌, ◌++◌, map, keep_if, is_empty,
  if◌then◌else◌, Bool-cases, inl, inr, arith,
}
use formol.Api.Meta.{Time}
use formol.Api.Session.{BackupSession}
use formol.Retention.{Buckets, Dated, after_session, reasons, is_own, join, label}
use formol.Retention.Plan.{Decision, is_kept, plan}

-- A session as `settle` stores it when it is kept.
abbrev pub with_keep : BackupSession → List String → BackupSession
with_keep s keep = record s { status = record s.status { keep = join keep } }

abbrev pub settled : Decision → Decision
settled d = record d { session = with_keep d.session d.keep }

-- What is left of the sessions of a namespace: those of the configuration that are kept, and all of
-- the others.
unfoldable pub remaining : String → Buckets → List Dated → List Dated
remaining name b [] = []
remaining name b (d ∷ rest) =
    let own = is_own name d.session in
    let keep = reasons b d.time in
    let later = remaining name (if own then after_session b d.time else b) rest in
    if own
    then (if is_empty keep then later else record d { session = with_keep d.session keep } ∷ later)
    else d ∷ later

no_labels :
    (a b c d e : Bool)
    → is_empty (
        label a "last"
        ++ (label b "daily" ++ (label c "weekly" ++ (label d "monthly" ++ label e "yearly"))))
      ≡ true
    → (a ≡ false) × (b ≡ false) × (c ≡ false) × (d ≡ false) × (e ≡ false)
no_labels true b c d e h = cc
no_labels false true c d e h = cc
no_labels false false true d e h = cc
no_labels false false false true e h = cc
no_labels false false false false e h = (refl, refl, refl, refl, ground arith)

-- A session that is deleted is not counted.
after_deleted : (b : Buckets) (t : Time) → is_empty (reasons b t) ≡ true → after_session b t ≡ b
unfolding reasons after_session
after_deleted b t h = let (l, d, w, m, y) = no_labels _ _ _ _ _ h in rw (l, d, w, m, y) refl

plan-own :
    (name : String) (b : Buckets) (d : Dated) (rest : List Dated)
    → is_own name d.session ≡ true
    → plan name b (d ∷ rest)
      ≡ record { session = d.session; time = d.time; keep = reasons b d.time }
        ∷ plan name (after_session b d.time) rest
unfolding plan
plan-own name b d rest own = rw own

plan-other :
    (name : String) (b : Buckets) (d : Dated) (rest : List Dated)
    → is_own name d.session ≡ false
    → plan name b (d ∷ rest) ≡ plan name b rest
unfolding plan
plan-other name b d rest other = rw other

-- The rules, applied once more to the sessions that they have left, in the same order, keep all of
-- those of the configuration, each for the reasons that it was kept for.
pub plan-remaining :
    (name : String) (b : Buckets) (ds : List Dated)
    → plan name b (remaining name b ds) ≡ map settled (keep_if is_kept (plan name b ds))
unfolding plan remaining
plan-remaining name b [] = refl
plan-remaining name b (d ∷ rest) = elim (Bool-cases (is_own name d.session)) [
  | inl own ↦ elim (Bool-cases (is_empty (reasons b d.time))) [
    | inl deleted ↦ rw (own, deleted, after_deleted b d.time deleted) (plan-remaining name b rest)
    | inr kept ↦
        rw (own, kept)
          (plan-own name b (record d { session = with_keep d.session (reasons b d.time) }) _ own
            ∙ ap
                (λ l.
                  settled (record { session = d.session; time = d.time; keep = reasons b d.time })
                  ∷ l)
                (plan-remaining name (after_session b d.time) rest))
  ]
  | inr other ↦ rw other (plan-other name b d _ other ∙ plan-remaining name b rest)
]
