-- ===== src/Retention/Plan.antt =====
-- The loop of `cleanupSessions` against a plan: first decide for each session of the configuration,
-- then carry the decisions out.
use formol.Prelude.{
  ◌≡◌, refl, ap, String, Bool, not, List, [], ◌∷◌, map, keep_if, is_empty, if◌then◌else◌,
  Bool-cases, inl, inr,
}
use formol.Api.Meta.{Time}
use formol.Api.Session.{BackupSession}
use formol.Client.{Client}
use formol.Outcome.{Action, return, ◌>>◌}
use formol.Retention.{Buckets, Dated, after_session, reasons, is_own, settle, cleanup_loop}

-- What becomes of a session: it is kept for the reasons given, and deleted if there is none.
pub record Decision : Type 0 where
  pub session : BackupSession
  pub time : Time
  pub keep : List String

abbrev pub is_kept : Decision → Bool
is_kept d = not (is_empty d.keep)

unfoldable pub plan : String → Buckets → List Dated → List Decision
plan name b [] = []
plan name b (d ∷ rest) =
    let own = is_own name d.session in
    let later = plan name (if own then after_session b d.time else b) rest in
    if own
    then record { session = d.session; time = d.time; keep = reasons b d.time } ∷ later
    else later

-- The sessions that the plan speaks of are those of the configuration, each once, in their order.
pub plan-sessions :
    (name : String) (b : Buckets) (ds : List Dated)
    → map (λ d. d.session) (plan name b ds) ≡ keep_if (is_own name) (map (λ d. d.session) ds)
unfolding plan
plan-sessions name b [] = refl
plan-sessions name b (d ∷ rest) = elim (Bool-cases (is_own name d.session)) [
  | inl own ↦ rw (own, plan-sessions name (after_session b d.time) rest)
  | inr other ↦ rw (other, plan-sessions name b rest)
]

module _ (C : Client) where
  unfoldable pub perform : List Decision → Action C.World (Unit {0})
  perform [] = return tt
  perform (d ∷ rest) = settle C d.session d.keep >> perform rest

  -- The loop carries out the plan for the same sessions and buckets, in the order of the plan, on
  -- every client: it settles each session of the configuration once and touches no other.
  pub cleanup_loop-perform :
      (name : String) (b : Buckets) (ds : List Dated)
      → cleanup_loop C name b ds ≡ perform (plan name b ds)
  unfolding cleanup_loop perform plan
  cleanup_loop-perform name b [] = refl
  cleanup_loop-perform name b (d ∷ rest) = elim (Bool-cases (is_own name d.session)) [
    | inl own ↦ rw own (
        ap (λ k. settle C d.session (reasons b d.time) >> k)
          (cleanup_loop-perform name (after_session b d.time) rest))
    | inr other ↦ rw (other, cleanup_loop-perform name b rest)
  ]
