-- ===== src/RestoreSession/Refines.antt =====
-- The runs of the reconciler of restore sessions (controllers/restoresession_controller.go) and the steps
-- of the system of a backup session.
use formol.Prelude.{◌≡◌, ◌≢◌, refl, sym, ap, ◌∙◌, ◌⊎◌, inl, inr, List, true, Bool-cases, arith}
use formol.Api.Meta.{ObjectKey, key_of}
use formol.Api.Config.{BackupConfiguration}
use formol.Api.Session.{
  SessionState, unset, success, same_state, BackupSessionStatus, RestoreSessionStatus,
  RestoreSession,
}
use formol.Api.Objects.{Kind}
use formol.Client.{Client}
use formol.Client.Laws.{IsRestoreStore}
use formol.Outcome.{Result, ok, err, panic, resume, return, ◌>>◌, ◌>>=◌}
use formol.Retention.{Dated}
use formol.BackupSession
use formol.BackupSession.{ReconcileResult, done}
use formol.BackupSession.Changes.{written, unstored, not_unset, advance_world}
use formol.BackupSession.System.{Step, reconciled}
use formol.RestoreSession.{advance, store_state, conf_key, reconcile_found, reconcile}
use formol.RestoreSession.Laws.{restored, restored_result, agree, advance-restored}

-- The status of a restore session as that of a backup session.
abbrev pub as_backup : RestoreSessionStatus → BackupSessionStatus
as_backup s = record {
  session_state = s.session_state;
  start_time = s.start_time;
  targets = s.targets;
  keep = "";
}

agree-ne-success : (s : SessionState) → agree s ≡ true → s ≢ success
agree-ne-success s h e = ground (arith, ap agree e)

module _ (C : Client) (newest_first : List Dated → List Dated) (L : IsRestoreStore C)
    (session : RestoreSession) (conf : BackupConfiguration) (req : ObjectKey) (w : C.World)
    (found : C.get Kind.restore_session req w ≡ ok session) where
  -- The session as it was, or after a step of the system.
  abbrev pub Stepped : RestoreSession → Type 0
  Stepped t =
      (t ≡ session)
      ⊎ ((t.metadata ≡ session.metadata)
          × (t.spec ≡ session.spec)
          × ((b : BackupSessionStatus) × Step C newest_first (as_backup session.status) b
              × (t.status ≡ restored b)))

  abbrev Stores : C.World → Type 0
  Stores w' = (t : RestoreSession) × (C.get Kind.restore_session req w' ≡ ok t) × Stepped t

  unchanged : (w' : C.World) → w ≡ w' → Stores w'
  unchanged w' e = (session, rw (← e) found, inl refl)

  updated :
      (s : SessionState) (t : BackupSessionStatus) (r : ReconcileResult) (w' : C.World)
      → BackupSession.advance C newest_first session.status.session_state conf
          (as_backup session.status)
          w
        ≡ (ok (BackupSession.move s t), w)
      → s ≢ unset
      → (C.update_status Kind.restore_session
              (record session { status = record (restored t) { session_state = s } })
            >> return done)
          w
        ≡ (ok r, w')
      → Stores w'
  updated s t r w' a n h =
      let key : key_of session.metadata ≡ req = L.get-key req w session found in
      let new : RestoreSession = record session {
        status = record (restored t) { session_state = s };
      } in
      let (succeeded, same) = written (C.update_status Kind.restore_session new) w r w' h in
      let stored = L.get-update_status new session w (rw (← key) at found) succeeded in
      (
        new,
        rw (← key, ← same) stored,
        inr (
          refl,
          refl,
          (
            record t { session_state = s },
            reconciled conf (as_backup session.status) t s w w a n,
            refl,
          ),
        ),
      )

  stored :
      (n : Result BackupSession.Next) (r : ReconcileResult) (w' : C.World)
      → BackupSession.advance C newest_first session.status.session_state conf
          (as_backup session.status)
          w
        ≡ (n, w)
      → resume (store_state C session) (restored_result n) w ≡ (ok r, w')
      → Stores w'
  stored (ok BackupSession.Next.put_off) r w' a h = unchanged w' (ground arith)
  stored (ok (BackupSession.Next.move s t)) r w' a h = elim (Bool-cases (same_state s unset)) [
    | inl quiet ↦ unchanged w' (unstored r w' (rw quiet at h))
    | inr loud ↦ updated s t r w' a (not_unset s loud) (rw loud at h)
  ]
  stored (err e) r w' a h = absurd (ground arith)
  stored panic r w' a h = absurd (ground arith)

  reconcile-found :
      C.get Kind.backup_configuration (conf_key C session) w ≡ ok conf
      → reconcile C req w
        ≡ (advance C session.status.session_state conf session.status >>= store_state C session) w
  unfolding reconcile reconcile_found
  reconcile-found configured = rw (reconcile, found, configured) refl

  -- On a client that reads its own writes, a run that returns without an error leaves the restore
  -- session as it was, or keeps its metadata and specification and takes its status by a step of the
  -- system of a backup session, which is taken with the same states, start time and targets.
  pub reconcile-Stepped :
      (w' : C.World) (r : ReconcileResult)
      → C.get Kind.backup_configuration (conf_key C session) w ≡ ok conf
      → reconcile C req w ≡ (ok r, w')
      → (t : RestoreSession) × (C.get Kind.restore_session req w' ≡ ok t) × Stepped t
  reconcile-Stepped w' r configured h =
      let state = session.status.session_state in
      let old = as_backup session.status in
      let step = BackupSession.advance C newest_first state conf old w in
      let run = sym (reconcile-found configured) ∙ h in
      let (agreed, apart) = advance-restored C newest_first state conf old w in
      elim (Bool-cases (agree state)) [
        | inl a ↦
            let same : step.1 ≡ w =
              advance_world C newest_first state conf old w (agree-ne-success state a) in
            stored step.0 r w' (ap (λ v. (step.0, v)) same) (rw (agreed a, same) at run)
        | inr a ↦ unchanged w' (unstored r w' (rw (apart a) at run))
      ]
