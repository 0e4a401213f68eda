-- ===== src/Retention/Settled.antt =====
-- What the retention rules leave of the sessions in the cluster.
use formol.Prelude.{
  ◌≡◌, ◌≢◌, refl, sym, ap, ◌∙◌, String, Bool, List, [], ◌∷◌, All, map, keep_if, Bool-cases, inl,
  inr,
}
use mathlib.Core.Path.{subst}
use formol.Api.Meta.{ObjectKey, key_of}
use formol.Api.Session.{BackupSession}
use formol.Api.Objects.{Kind}
use formol.Client.{Client}
use formol.Client.Laws.{IsSessionCluster, IsGone}
use formol.Outcome.{ok, Action, ignore, ◌>>◌}
use formol.Retention.{Buckets, Dated, is_own, settle, cleanup_loop}
use formol.Retention.Plan.{Decision, plan, plan-sessions, perform, cleanup_loop-perform}
use formol.Retention.Again.{with_keep}

abbrev pub key_in : BackupSession → ObjectKey
key_in s = key_of s.metadata

-- No two of the sessions are under the same key.
abbrev pub Distinct : List BackupSession → Type 0
Distinct [] = Unit
Distinct (s ∷ rest) = All (λ t. key_in s ≢ key_in t) rest × Distinct rest

module _ (P : BackupSession → Type 0) (p : BackupSession → Bool) where
  All-keep_if : (ss : List BackupSession) → All P ss → All P (keep_if p ss)
  All-keep_if [] h = tt
  All-keep_if (s ∷ rest) h = elim (Bool-cases (p s)) [
    | inl e ↦ rw e (h.0, All-keep_if rest h.1)
    | inr e ↦ rw e (All-keep_if rest h.1)
  ]

Distinct-keep_if :
    (p : BackupSession → Bool) (ss : List BackupSession) → Distinct ss → Distinct (keep_if p ss)
Distinct-keep_if p [] h = tt
Distinct-keep_if p (s ∷ rest) h = elim (Bool-cases (p s)) [
  | inl e ↦ rw e (All-keep_if (λ t. key_in s ≢ key_in t) p rest h.0, Distinct-keep_if p rest h.1)
  | inr e ↦ rw e (Distinct-keep_if p rest h.1)
]

module _ (C : Client) (L : IsSessionCluster C) where
  -- The session is read as it has been listed.
  abbrev pub IsRead : C.World → BackupSession → Type 0
  IsRead w s = C.get Kind.backup_session (key_in s) w ≡ ok s

  -- A session that is kept has the reasons in its status, and one that is not is gone.
  abbrev pub Settled : C.World → BackupSession → List String → Type 0
  Settled w s [] = IsGone C (key_in s) w
  Settled w s (r ∷ rest) = C.get Kind.backup_session (key_in s) w ≡ ok (with_keep s (r ∷ rest))

  ignored_ok :
      (m : Action C.World (Unit {0})) (w : C.World)
      → (m w).0 ≡ ok tt
      → ignore m w ≡ (ok tt, (m w).1)
  ignored_ok m w h = rw h refl

  -- A session is settled, and all others are left as they are.
  settle-Settled :
      (s : BackupSession) (keep : List String) (w : C.World)
      → IsRead w s
      → ((settle C s keep w).0 ≡ ok tt)
        × Settled (settle C s keep w).1 s keep
        × ((key : ObjectKey)
            → key ≢ key_in s
            → C.get Kind.backup_session key (settle C s keep w).1 ≡ C.get Kind.backup_session key w)
  unfolding settle
  settle-Settled s [] w h =
      let run = ignored_ok (C.delete Kind.backup_session s) w (L.delete_ok s s w h) in
      rw run (refl, L.get-delete s s w h, λ key n. L.get-delete_elsewhere s key w n)
  settle-Settled s (r ∷ rest) w h =
      let new = with_keep s (r ∷ rest) in
      let run =
        ignored_ok (C.update_status Kind.backup_session new) w (L.update_status_ok new s w h) in
      rw run
        (refl, L.get-update_status new s w h, λ key n. L.get-update_status_elsewhere new key w n)

  kept-Settled :
      (w w' : C.World) (s : BackupSession) (keep : List String)
      → C.get Kind.backup_session (key_in s) w' ≡ C.get Kind.backup_session (key_in s) w
      → Settled w s keep
      → Settled w' s keep
  kept-Settled w w' s [] e (inl h) = inl (e ∙ h)
  kept-Settled w w' s [] e (inr (t, h, g)) = inr (t, e ∙ h, g)
  kept-Settled w w' s (r ∷ rest) e h = e ∙ h

  kept-IsRead :
      (w w' : C.World) (ss : List BackupSession) (gone : ObjectKey)
      → ((key : ObjectKey)
          → key ≢ gone
          → C.get Kind.backup_session key w' ≡ C.get Kind.backup_session key w)
      → All (λ t. gone ≢ key_in t) ss
      → All (IsRead w) ss
      → All (IsRead w') ss
  kept-IsRead w w' [] gone same n h = tt
  kept-IsRead w w' (s ∷ rest) gone same n h =
      (same (key_in s) (λ e. n.0 (sym e)) ∙ h.0, kept-IsRead w w' rest gone same n.1 h.1)

  -- Of the state v after the decisions in the state w.
  abbrev Left : List Decision → C.World → C.World → Type 0
  Left ds w v =
      All (λ d. Settled v d.session d.keep) ds
      × ((key : ObjectKey)
          → All (λ s. key ≢ key_in s) (map (λ d. d.session) ds)
          → C.get Kind.backup_session key v ≡ C.get Kind.backup_session key w)

  perform-Settled :
      (ds : List Decision) (w : C.World)
      → Distinct (map (λ d. d.session) ds)
      → All (IsRead w) (map (λ d. d.session) ds)
      → Left ds w (perform C ds w).1
  unfolding perform
  perform-Settled [] w n h = (tt, λ key k. refl)
  perform-Settled (d ∷ rest) w n h =
      let first = settle C d.session d.keep in
      let w1 = (first w).1 in
      let (done, there, elsewhere) = settle-Settled d.session d.keep w h.0 in
      let (others, apart) =
        perform-Settled rest w1 n.1
          (kept-IsRead w w1 (map (λ x. x.session) rest) (key_in d.session) elsewhere n.0 h.1) in
      let run : (first >> perform C rest) w ≡ perform C rest w1 = rw done refl in
      let here =
        kept-Settled w1 (perform C rest w1).1 d.session d.keep (apart (key_in d.session) n.0)
          there in
      subst (Left (d ∷ rest) w) (sym (ap (λ p. p.1) run))
        ((here, others), λ key k. apart key k.1 ∙ elsewhere key k.0)

  -- In a cluster in which nobody else writes and no write to a session that is there fails, the loop
  -- over sessions that are in the cluster as they have been listed, no two of them under the same key,
  -- leaves each session of the configuration as the plan says: with the reasons to keep it in its
  -- status, or, if there is none, gone or marked as being deleted.
  pub cleanup_loop-Settled :
      (name : String) (b : Buckets) (ds : List Dated) (w : C.World)
      → Distinct (map (λ d. d.session) ds)
      → All (IsRead w) (map (λ d. d.session) ds)
      → All (λ d. Settled (cleanup_loop C name b ds w).1 d.session d.keep) (plan name b ds)
  cleanup_loop-Settled name b ds w n h =
      let sessions = map (λ (d : Dated). d.session) ds in
      let own = sym (plan-sessions name b ds) in
      let distinct = subst Distinct own (Distinct-keep_if (is_own name) sessions n) in
      let read = subst (All (IsRead w)) own (All-keep_if (IsRead w) (is_own name) sessions h) in
      let run = cleanup_loop-perform C name b ds in
      rw run (perform-Settled (plan name b ds) w distinct read).0
