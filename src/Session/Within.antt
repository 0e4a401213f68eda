-- ===== src/Session/Within.antt =====
-- How far the targets, and the number of their tries, change in one call of `checkSessionState`.
use formol.Prelude.{
  ℕ, suc, ◌≡◌, refl, ◌⊎◌, ◌≤ℤ◌, inl, inr, true, false, some, List, [], ◌∷◌, get_elem?, arith, ltb_ℤ,
  ℤ, suc_ℤ,
}
use formol.Api.Meta.{Time}
use formol.Api.Config.{Target, BackupConfiguration}
use formol.Api.Session.{SessionState, TargetStatus}
use formol.Outcome.{ok}
use formol.Session.{Verdict, check_session_state}
use formol.Session.Moves.{Moves, same, start, retry, skip, check_from-Moves}

-- `Try` as it was, or at most the `Retry` of the target with that index.
abbrev pub TryWithin : List Target → ℕ → TargetStatus → TargetStatus → Type 0
TryWithin targets i ts ts' =
    (ts'.try ≡ ts.try)
    ⊎ ((target : Target) × (get_elem? targets i ≡ some target) × (ts'.try ≤ℤ target.retry))

abbrev pub Within : List Target → ℕ → List TargetStatus → List TargetStatus → Type 0
Within targets i [] [] = Unit
Within targets i (ts ∷ rest) (ts' ∷ rest') =
    TryWithin targets i ts ts'
    × (ts'.target_name ≡ ts.target_name)
    × (ts'.snapshot_id ≡ ts.snapshot_id)
    × Within targets (suc i) rest rest'
Within targets i _ _ = ⊥

Within-refl : (targets : List Target) (i : ℕ) (tss : List TargetStatus) → Within targets i tss tss
Within-refl targets i [] = tt
Within-refl targets i (ts ∷ rest) = (inl refl, refl, refl, Within-refl targets (suc i) rest)

suc_le_of_lt : (a b : ℤ) → ltb_ℤ a b ≡ true → suc_ℤ a ≤ℤ b
suc_le_of_lt a b h = ground arith

pub Moves-Within :
    {targets : List Target} {now : Time} {current wait : SessionState} {i : ℕ}
    {tss tss' : List TargetStatus}
    → Moves targets now current wait i tss tss'
    → Within targets i tss tss'
Moves-Within {targets} (same i tss) = Within-refl targets i tss
Moves-Within {targets} (start i ts rest c) =
    (inl refl, refl, refl, Within-refl targets (suc i) rest)
Moves-Within {targets} (retry i target ts rest f o below) = (
  inr (target, o, suc_le_of_lt ts.try target.retry below),
  refl,
  refl,
  Within-refl targets (suc i) rest,
)
Moves-Within (skip i ts rest rest' o m) = (inl refl, refl, refl, Moves-Within m)

-- A check that returns leaves the targets as many as they are, in the same order, with the same
-- names and snapshots. It keeps each `Try`, or leaves it at most at the `Retry` of the target.
pub check_session_state-Within :
    (tss : List TargetStatus) (conf : BackupConfiguration) (now : Time)
    (current wait next : SessionState) (v : Verdict)
    → check_session_state tss conf now current wait next ≡ ok v
    → Within conf.spec.targets 0 tss v.targets
unfolding check_session_state
check_session_state-Within tss conf now current wait next v h =
    Moves-Within (check_from-Moves conf.spec.targets now current wait next 0 false tss v h)
