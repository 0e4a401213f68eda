-- ===== src/Manager/Index.antt =====
-- The index of the sessions by their state, and what the controllers read by it.
use formol.Prelude.{
  ltb, length, ◌≡◌, refl, ap, ◌∙◌, String, Bool, true, false, ◌&&◌, ◌==◌, List, [], ◌∷◌, any,
  keep_if, Bool-cases, inl, inr, if◌then◌else◌, arith,
}
use formol.Api.Config.{BackupConfiguration}
use formol.Api.Session.{
  SessionState, state_name, new, initializing, running, BackupSession, BackupSessionStatus,
}
use formol.Client.{Client}
use formol.Outcome.{ok}
use formol.Session.{is_backup_ongoing, init_session}
use formol.Retention.{Dated}
use formol.BackupSession.{move, put_off, start_session, advance}
use formol.Manager.{session_index}

-- A session of the namespace with the state among the values that it is indexed by.
abbrev pub is_indexed : String → SessionState → BackupSession → Bool
is_indexed namespace state session =
    (session.metadata.namespace == namespace)
    && any (λ value. value == state_name state) (session_index session)

-- The documented behaviour of a list by an indexed field: it has those of the sessions in the cache of
-- the manager that are indexed by the value, in the order of the cache.
abbrev pub IsIndexed : (C : Client) → (C.World → List BackupSession) → Type 0
IsIndexed C cached =
    (namespace : String) (state : SessionState) (w : C.World)
    → C.list_backup_sessions namespace state w
      ≡ ok (keep_if (is_indexed namespace state) (cached w))

-- A session of the namespace whose state reads "Running".
abbrev pub is_running_in : String → BackupSession → Bool
is_running_in namespace session =
    (session.metadata.namespace == namespace)
    && (state_name session.status.session_state == "Running")

indexed-running :
    (namespace : String) (session : BackupSession)
    → is_indexed namespace running session ≡ is_running_in namespace session
unfolding session_index state_name
indexed-running namespace session = ground arith

kept-any :
    (namespace : String) (sessions : List BackupSession)
    → ltb 0 (length (keep_if (is_indexed namespace running) sessions))
      ≡ any (is_running_in namespace) sessions
kept-any namespace [] = refl
kept-any namespace (s ∷ rest) = elim (Bool-cases (is_running_in namespace s)) [
  | inl h ↦ rw (indexed-running namespace s ∙ h, h) (ground arith)
  | inr h ↦ rw (indexed-running namespace s ∙ h, h) (kept-any namespace rest)
]

module _ (C : Client) (newest_first : List Dated → List Dated)
    (cached : C.World → List BackupSession) (indexed : IsIndexed C cached) where
  is_backup_ongoing-any :
      (conf : BackupConfiguration) (w : C.World)
      → is_backup_ongoing C conf w ≡ ok (any (is_running_in conf.metadata.namespace) (cached w))
  unfolding is_backup_ongoing
  is_backup_ongoing-any conf w =
      rw (is_backup_ongoing, indexed conf.metadata.namespace running w)
        (ap ok (kept-any conf.metadata.namespace (cached w)))

  start_if :
      (conf : BackupConfiguration) (status : BackupSessionStatus) (ongoing : Bool) (w : C.World)
      → start_session C newest_first conf status ongoing w ≡ (
        ok (
            if ongoing
            then put_off
            else move initializing (record status { targets = init_session (C.clock w) conf })),
        w,
      )
  start_if conf status true w = refl
  start_if conf status false w = refl

  -- With the index that `SetupWithManager` registers, a new session starts, with one target status
  -- for each target of its configuration, if no session of the namespace of the configuration is in
  -- the state Running in the cache of the manager, and is put off otherwise.
  pub advance_new-cached :
      (conf : BackupConfiguration) (status : BackupSessionStatus) (w : C.World)
      → advance C newest_first new conf status w ≡ (
        ok (
            if any (is_running_in conf.metadata.namespace) (cached w)
            then put_off
            else move initializing (record status { targets = init_session (C.clock w) conf })),
        w,
      )
  unfolding advance
  advance_new-cached conf status w = rw (is_backup_ongoing-any conf w) (start_if conf status _ w)
