-- ===== src/BackupSession/Changes.antt =====
-- What one run of the reconciler stores in a session.
use formol.Prelude.{
  ◌≡◌, ◌≢◌, refl, sym, ap, ◌∙◌, ◌⊎◌, inl, inr, true, false, List, Bool-cases, arith,
}
use formol.Api.Meta.{ObjectKey, key_of}
use formol.Api.Config.{BackupConfiguration}
use formol.Api.Session.{
  SessionState, unset, new, success, same_state, BackupSession, BackupSessionStatus,
}
use formol.Api.Objects.{Kind}
use formol.Client.{Client}
use formol.Client.Laws.{IsSessionStore}
use formol.Outcome.{Result, ok, err, panic, Action, return, ◌>>◌, ◌>>=◌, resume}
use formol.Retention.{Dated}
use formol.BackupSession.{
  ReconcileResult, done, conf_key, is_deleting, has_finalizer, reconcile, reconcile_found,
  reconcile_live, advance, store_state, Next, put_off, move,
}
use formol.BackupSession.Deletion.{reconcile-found}

pub written :
    {W : Type 0} (m : Action W (Unit {0})) (w : W) (r : ReconcileResult) (w' : W)
    → (m >> return done) w ≡ (ok r, w')
    → ((m w).0 ≡ ok tt) × ((m w).1 ≡ w')
written m w r w' h = ground arith

pub unstored :
    {W : Type 0} {w : W} (r : ReconcileResult) (w' : W)
    → ◌≡◌ {A = Result ReconcileResult × W} (ok done, w) (ok r, w')
    → w ≡ w'
unstored r w' h = ground arith

pub not_unset : (s : SessionState) → same_state s unset ≡ false → s ≢ unset
not_unset s h e = ground arith

pub pair_eq : {A W : Type 0} {p : A × W} {a : A} {w : W} → p.0 ≡ a → p.1 ≡ w → p ≡ (a, w)
pair_eq e f = ground arith

-- The session as it was, or with a status that the switch has handed on.
abbrev pub Changed :
    (SessionState → BackupSessionStatus → Type 0) → BackupSession → BackupSession → Type 0
Changed P old s =
    (s ≡ old)
    ⊎ ((x : SessionState) × (t : BackupSessionStatus) × P x t
        × (x ≢ unset)
        × (s ≡ record old { status = record t { session_state = x } }))

module _ (C : Client) (newest_first : List Dated → List Dated) where
  -- Only the retention rules, in a session that has succeeded, change the cluster in the switch.
  pub advance_world :
      (state : SessionState) (conf : BackupConfiguration) (status : BackupSessionStatus)
      (w : C.World)
      → state ≢ success
      → (advance C newest_first state conf status w).1 ≡ w
  unfolding advance
  advance_world new conf status w h = ground arith
  advance_world success conf status w h = absurd (h refl)
  advance_world _ conf status w h = ground arith

  module _ (L : IsSessionStore C) (session : BackupSession) (w : C.World)
      (P : SessionState → BackupSessionStatus → Type 0)
      (found : C.get Kind.backup_session (key_of session.metadata) w ≡ ok session) where
    updated :
        (s : SessionState) (status : BackupSessionStatus) (r : ReconcileResult) (w' : C.World)
        → P s status
        → s ≢ unset
        → (C.update_status Kind.backup_session
                (record session { status = record status { session_state = s } })
              >> return done)
            w
          ≡ (ok r, w')
        → (t : BackupSession) × (C.get Kind.backup_session (key_of session.metadata) w' ≡ ok t)
          × Changed P session t
    updated s status r w' f n h =
        let (done_well, same) =
          written
            (C.update_status Kind.backup_session
              (record session { status = record status { session_state = s } }))
            w r w' h in
        (
          record session { status = record status { session_state = s } },
          rw (← same) (L.get-update_status _ session w found done_well),
          inr (s, status, f, n, refl),
        )

    store_state-Changed :
        (next : Next) (r : ReconcileResult) (w' : C.World)
        → ((s : SessionState) (t : BackupSessionStatus) → next ≡ move s t → P s t)
        → store_state C session next w ≡ (ok r, w')
        → (t : BackupSession) × (C.get Kind.backup_session (key_of session.metadata) w' ≡ ok t)
          × Changed P session t
    store_state-Changed put_off r w' f h =
        let same : w ≡ w' = ground arith in (session, rw (← same) found, inl refl)
    store_state-Changed (move s status) r w' f h = elim (Bool-cases (same_state s unset)) [
      | inl quiet ↦
          let same : w ≡ w' = unstored r w' (rw quiet at h) in
          (session, rw (← same) found, inl refl)
      | inr loud ↦ updated s status r w' (f s status refl) (not_unset s loud) (rw loud at h)
    ]

    advanced :
        (a : Action C.World Next) (r : ReconcileResult) (w' : C.World)
        → (a w).1 ≡ w
        → ((s : SessionState) (t : BackupSessionStatus) → (a w).0 ≡ ok (move s t) → P s t)
        → (a >>= store_state C session) w ≡ (ok r, w')
        → (t : BackupSession) × (C.get Kind.backup_session (key_of session.metadata) w' ≡ ok t)
          × Changed P session t
    advanced a r w' same f h = go (a w).0 f (rw same at h)
      where
        go :
            (n : Result Next)
            → ((s : SessionState) (t : BackupSessionStatus) → n ≡ ok (move s t) → P s t)
            → resume (store_state C session) n w ≡ (ok r, w')
            → (t : BackupSession) × (C.get Kind.backup_session (key_of session.metadata) w' ≡ ok t)
              × Changed P session t
        go (ok next) g k = store_state-Changed next r w' (λ s t e. g s t (ap ok e)) k
        go (err e) g k = absurd (ground arith)
        go panic g k = absurd (ground arith)

  -- A run that returns without an error, for a session that is not deleted, has its finalizer and has
  -- not succeeded yet, leaves the session as it was, or with what the switch hands on.
  pub reconcile-Changed :
      IsSessionStore C
      → (session : BackupSession) (conf : BackupConfiguration) (req : ObjectKey) (w w' : C.World)
        (r : ReconcileResult)
      → C.get Kind.backup_session req w ≡ ok session
      → C.get Kind.backup_configuration (conf_key session) w ≡ ok conf
      → is_deleting C session ≡ false
      → has_finalizer C session ≡ true
      → session.status.session_state ≢ success
      → reconcile C newest_first req w ≡ (ok r, w')
      → (t : BackupSession) × (C.get Kind.backup_session req w' ≡ ok t)
        × Changed
            (λ x st.
              advance C newest_first session.status.session_state conf session.status w
              ≡ (ok (move x st), w))
            session
            t
  unfolding reconcile_found reconcile_live
  reconcile-Changed L session conf req w w' r found configured d f n h =
      let key : key_of session.metadata ≡ req = L.get-key req w session found in
      let same = advance_world session.status.session_state conf session.status w n in
      let run = sym (reconcile-found C newest_first req w session conf found configured) ∙ h in
      rw key at (
        advanced L session w _ (rw (← key) at found)
          (advance C newest_first session.status.session_state conf session.status) r w' same
          (λ s t e. pair_eq e same) (rw (d, f) at run))
