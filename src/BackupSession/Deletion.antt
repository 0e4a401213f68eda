-- ===== src/BackupSession/Deletion.antt =====
-- Reconciling a backup session that cannot be read, is deleted, or has ended.
use formol.Prelude.{◌≡◌, ◌≢◌, refl, true, false, List, if◌then◌else◌, arith}
use formol.Api.Meta.{ObjectKey}
use formol.Api.Config.{BackupConfiguration}
use formol.Api.Session.{unset, success, failure, BackupSession, BackupSessionStatus}
use formol.Api.Objects.{Kind}
use formol.Client.{Client}
use formol.Outcome.{Result, Error, ok, err, panic, is_not_found, return, ◌>>◌, resume}
use formol.Retention.{Dated, cleanup_sessions}
use formol.Outcome.Laws.{ignored}
use formol.Snapshots.{delete_snapshots}
use formol.BackupSession.{
  done, conf_key, is_deleting, has_finalizer, without_finalizer, with_finalizer, reconcile,
  reconcile_found, reconcile_live, advance, store_state, move,
}

-- An action that hands no state to the status update stores nothing.
unmoved :
    (C : Client) (session : BackupSession) (status : BackupSessionStatus) (r : Result (Unit {0}))
    (w : C.World)
    → let (next, w') = resume (λ _. return (move unset status)) r w in
      resume (store_state C session) next w' ≡ resume (λ _. return done) r w
unmoved C session status (ok _) w = refl
unmoved C session status (err e) w = refl
unmoved C session status panic w = refl

module _ (C : Client) (newest_first : List Dated → List Dated) (req : ObjectKey) (w : C.World) where
  -- A run that cannot read the session writes nothing, and returns the error unless the session is
  -- gone. A run that reads the session and not its configuration writes nothing either and returns
  -- the error, also where the session is being deleted and where the configuration is gone.
  reconcile_unread :
      (e : Error)
      → (C.get Kind.backup_session req w ≡ err e
          → reconcile C newest_first req w ≡ (if is_not_found e then ok done else err e, w))
        × ((session : BackupSession)
            → C.get Kind.backup_session req w ≡ ok session
            → C.get Kind.backup_configuration (conf_key session) w ≡ err e
            → reconcile C newest_first req w ≡ (err e, w))
  unfolding reconcile
  reconcile_unread e = (λ h. rw (h, reconcile) (ground arith), λ session h k. rw (h, reconcile, k))

  module _ (session : BackupSession) (conf : BackupConfiguration)
      (found : C.get Kind.backup_session req w ≡ ok session)
      (configured : C.get Kind.backup_configuration (conf_key session) w ≡ ok conf) where
    pub reconcile-found :
        reconcile C newest_first req w ≡ reconcile_found C newest_first session conf w
    unfolding reconcile
    reconcile-found = rw (found, reconcile, configured)

    -- A session that is being deleted loses its finalizer after the job for its snapshots has been
    -- created, also where that failed with an error: the update alone decides the result.
    reconcile_deleting :
        is_deleting C session ≡ true
        → has_finalizer C session ≡ true
        → (delete_snapshots C session conf w).0 ≢ panic
        → reconcile C newest_first req w
          ≡ (C.update Kind.backup_session (without_finalizer C session) >> return done)
              (delete_snapshots C session conf w).1
    unfolding reconcile_found
    reconcile_deleting d f p =
        rw (reconcile-found, reconcile_found, d, f)
          (ignored (delete_snapshots C session conf) _ w p)

    -- A session that is being deleted and has lost the finalizer is passed to `deleteSnapshots` like
    -- one that has it, and unless that panics the run then updates it with the finalizer added.
    reconcile_deleting_again :
        is_deleting C session ≡ true
        → has_finalizer C session ≡ false
        → (delete_snapshots C session conf w).0 ≢ panic
        → reconcile C newest_first req w
          ≡ (C.update Kind.backup_session (with_finalizer C session) >> return done)
              (delete_snapshots C session conf w).1
    unfolding reconcile_found reconcile_live
    reconcile_deleting_again d f p =
        rw (reconcile-found, reconcile_found, d, f)
          (ignored (delete_snapshots C session conf) _ w p)

    -- A session that has ended, is not deleted and has its finalizer is not written: after a failure
    -- nothing is, and after a success only the retention rules are applied.
    pub reconcile_ended :
        is_deleting C session ≡ false
        → has_finalizer C session ≡ true
        → (session.status.session_state ≡ failure → reconcile C newest_first req w ≡ (ok done, w))
          × (session.status.session_state ≡ success
              → reconcile C newest_first req w
                ≡ (cleanup_sessions C newest_first conf >> return done) w)
    unfolding reconcile_found reconcile_live advance
    reconcile_ended d f = (
      λ e. rw (reconcile-found, reconcile_found, d, reconcile_live, f, e, advance),
      λ e.
          rw (reconcile-found, reconcile_found, d, reconcile_live, f, e, advance)
            (unmoved C
              (record session { status = record session.status { session_state = success } }) _
              (cleanup_sessions C newest_first conf w).0 _),
    )
