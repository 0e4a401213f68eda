-- ===== src/BackupSession/System/Refines.antt =====
-- The runs of the reconciler and the steps of the system.
use formol.Prelude.{◌≡◌, ◌≢◌, ap, ◌⊎◌, inl, inr, false, true, List, sym}
use mathlib.Core.Path.{subst}
use formol.Api.Meta.{ObjectKey}
use formol.Api.Config.{BackupConfiguration}
use formol.Api.Session.{success, BackupSession}
use formol.Api.Objects.{Kind}
use formol.Client.{Client}
use formol.Client.Laws.{IsSessionStore}
use formol.Outcome.{ok}
use formol.Retention.{Dated}
use formol.BackupSession.{
  ReconcileResult, conf_key, is_deleting, has_finalizer, reconcile, advance, move,
}
use formol.BackupSession.Changes.{Changed, reconcile-Changed}
use formol.BackupSession.System.{Step, reconciled}

module _ (C : Client) (newest_first : List Dated → List Dated) where
  stepped :
      (session t : BackupSession) (conf : BackupConfiguration) (w : C.World)
      → Changed
          (λ x st.
            advance C newest_first session.status.session_state conf session.status w
            ≡ (ok (move x st), w))
          session
          t
      → (t ≡ session)
        ⊎ ((t.metadata ≡ session.metadata)
            × (t.spec ≡ session.spec)
            × Step C newest_first session.status t.status)
  stepped session t conf w (inl e) = inl e
  stepped session t conf w (inr (x, st, a, m, e)) = inr (
    ap (λ (s : BackupSession). s.metadata) e,
    ap (λ (s : BackupSession). s.spec) e,
    subst (Step C newest_first session.status) (sym (ap (λ (s : BackupSession). s.status) e))
        (reconciled conf session.status st x w w a m),
  )

  -- On a client that reads its own writes, a run that returns without an error, for a session that is
  -- not deleted, has its finalizer and has not succeeded yet, leaves the session as it was, or takes
  -- its status by a step of the system and keeps its metadata and specification.
  pub reconcile-Step :
      IsSessionStore C
      → (session : BackupSession) (conf : BackupConfiguration) (req : ObjectKey) (w w' : C.World)
        (r : ReconcileResult)
      → C.get Kind.backup_session req w ≡ ok session
      → C.get Kind.backup_configuration (conf_key session) w ≡ ok conf
      → is_deleting C session ≡ false
      → has_finalizer C session ≡ true
      → session.status.session_state ≢ success
      → reconcile C newest_first req w ≡ (ok r, w')
      → (t : BackupSession) × (C.get Kind.backup_session req w' ≡ ok t)
        × ((t ≡ session)
            ⊎ ((t.metadata ≡ session.metadata)
                × (t.spec ≡ session.spec)
                × Step C newest_first session.status t.status))
  reconcile-Step L session conf req w w' r found configured d f n h =
      let (t, stored, changed) =
        reconcile-Changed C newest_first L session conf req w w' r found configured d f n h in
      (t, stored, stepped session t conf w changed)
