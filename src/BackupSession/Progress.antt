-- ===== src/BackupSession/Progress.antt =====
-- When a session starts, and how one run of the reconciler changes its state.
use formol.Prelude.{◌≡◌, ◌≢◌, refl, ◌⊎◌, inl, inr, Bool, true, false, List, [], arith}
use formol.Api.Meta.{ObjectKey}
use formol.Api.Config.{BackupConfiguration}
use formol.Api.Session.{
  SessionState, unset, new, running, success, BackupSession, BackupSessionStatus,
}
use formol.Api.Objects.{Kind}
use formol.Client.{Client}
use formol.Client.Laws.{IsSessionStore}
use formol.Outcome.{Result, ok, resume}
use formol.Session.{is_backup_ongoing, init_session}
use formol.Retention.{Dated}
use formol.BackupSession.{
  ReconcileResult, conf_key, is_deleting, has_finalizer, reconcile, advance, start_session, move,
}
use formol.BackupSession.States.{Follows, advance_Follows}
use formol.BackupSession.Changes.{Changed, reconcile-Changed}

module _ (C : Client) (newest_first : List Dated → List Dated) where
  start_idle :
      (conf : BackupConfiguration) (status : BackupSessionStatus) (items : Result Bool)
      (w w' : C.World) (s : SessionState) (t : BackupSessionStatus)
      → resume (start_session C newest_first conf status) items w ≡ (ok (move s t), w')
      → (items ≡ ok false) × (t.targets ≡ init_session (C.clock w) conf) × (w' ≡ w)
  start_idle conf status items w w' s t h = ground arith

  idle_empty :
      (conf : BackupConfiguration) (w : C.World)
      → is_backup_ongoing C conf w ≡ ok false
      → C.list_backup_sessions conf.metadata.namespace running w ≡ ok []
  unfolding is_backup_ongoing
  idle_empty conf w h = ground arith

  -- A new session starts only if the list of the running backup sessions in the namespace of its
  -- configuration could be read and is empty. It then gets one target status for each target.
  pub advance_new_idle :
      (conf : BackupConfiguration) (status t : BackupSessionStatus) (s : SessionState)
      (w w' : C.World)
      → advance C newest_first new conf status w ≡ (ok (move s t), w')
      → (C.list_backup_sessions conf.metadata.namespace running w ≡ ok [])
        × (t.targets ≡ init_session (C.clock w) conf)
        × (w' ≡ w)
  unfolding advance
  advance_new_idle conf status t s w w' h =
      let (idle, targets, same) = start_idle conf status (is_backup_ongoing C conf w) w w' s t h in
      (idle_empty conf w idle, targets, same)

  -- The session as a run leaves it: as it was, or with a state that may follow its state.
  abbrev pub Stored : BackupSession → BackupSession → Type 0
  Stored old s =
      (s ≡ old)
      ⊎ ((s.metadata ≡ old.metadata)
          × (s.spec ≡ old.spec)
          × Follows old.status.session_state s.status.session_state
          × (s.status.session_state ≢ unset))

  -- On a client that reads its own writes, a run that returns without an error, for a session that is
  -- not deleted, has its finalizer and has not succeeded yet, leaves the session as it was, or with
  -- the same metadata and specification and a state that may follow its state.
  pub reconcile-Stored :
      IsSessionStore C
      → (session : BackupSession) (conf : BackupConfiguration) (req : ObjectKey) (w w' : C.World)
        (r : ReconcileResult)
      → C.get Kind.backup_session req w ≡ ok session
      → C.get Kind.backup_configuration (conf_key session) w ≡ ok conf
      → is_deleting C session ≡ false
      → has_finalizer C session ≡ true
      → session.status.session_state ≢ success
      → reconcile C newest_first req w ≡ (ok r, w')
      → (t : BackupSession) × (C.get Kind.backup_session req w' ≡ ok t) × Stored session t
  reconcile-Stored L session conf req w w' r found configured d f n h =
      let (t, stored, changed) =
        reconcile-Changed C newest_first L session conf req w w' r found configured d f n h in
      (t, stored, followed t changed)
    where
      followed :
          (t : BackupSession)
          → Changed
              (λ x st.
                advance C newest_first session.status.session_state conf session.status w
                ≡ (ok (move x st), w))
              session
              t
          → Stored session t
      followed t (inl e) = inl e
      followed t (inr (x, st, a, m, e)) = rw e (
          inr (
            refl,
            refl,
            advance_Follows C newest_first conf session.status session.status.session_state x st w w
                a,
            m,
          ))
