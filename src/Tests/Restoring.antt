-- ===== src/Tests/Restoring.antt =====
-- A restore session over a cluster in which a status update stores the status and nothing else.
use formol.Prelude.{◌≡◌, refl, sym, ap, ◌∙◌, some, [], ◌∷◌}
use formol.Api.Meta.{ObjectKey, named, key_of, zero_time}
use formol.Api.Session.{new, initializing, success, RestoreSession}
use formol.Api.Objects.{Kind, Object}
use formol.Client.{Client}
use formol.Client.Laws.{IsRestoreStore}
use formol.Outcome.{Result, ok, err, panic}
use formol.Session.{is_backup_ongoing, init_session}
use formol.BackupSession.{done}
use formol.RestoreSession.{advance, reconcile_found, reconcile}
use formol.RestoreSession.Refines.{Stepped, reconcile-Stepped}
use formol.Tests.Samples.{two, session_of}
use formol.Tests.Reconciling.{as_listed}
use formol.Tests.Server.{
  Objects, put, find, without, server, server_put, server-IsStore, find-key, find-own,
}

abbrev own : RestoreSession → ObjectKey
own s = key_of s.metadata

abbrev with_status : RestoreSession → Result RestoreSession → Objects → Result (Unit {0}) × Objects
with_status s (ok old) w = (
  ok tt,
  put Kind.restore_session
      (record old { status = s.status }
        ∷ without own (key_of old.metadata) (w Kind.restore_session))
      w,
)
with_status s (err e) w = (err e, w)
with_status s panic w = (panic, w)

abbrev status_put : (k : Kind) → Object k → Objects → Result (Unit {0}) × Objects
status_put Kind.restore_session s w =
    with_status s (find own (w Kind.restore_session) (key_of s.metadata)) w
status_put k o w = server_put k o w

abbrev restoring : Client
restoring = record server {
  update_status = status_put;
  list_backup_sessions = λ namespace state w. ok [];
}

stored_status :
    (s old : RestoreSession) (w : Objects)
    → find own (w Kind.restore_session) (key_of s.metadata) ≡ ok old
    → find own
        ((with_status s (find own (w Kind.restore_session) (key_of s.metadata)) w).1
          Kind.restore_session)
        (key_of s.metadata)
      ≡ ok (record old { status = s.status })
stored_status s old w h =
    let same : key_of old.metadata ≡ key_of s.metadata =
      find-key own (w Kind.restore_session) (key_of s.metadata) old h in
    let now =
      record old { status = s.status }
      ∷ without own (key_of old.metadata) (w Kind.restore_session) in
    rw h (
      ap (find own now) (sym same)
      ∙ find-own own (record old { status = s.status })
          (without own (key_of old.metadata) (w Kind.restore_session)))

restoring-IsRestoreStore : IsRestoreStore restoring
restoring-IsRestoreStore = record {
  get-key = λ key w s h. (server-IsStore Kind.restore_session).get-key key w s h;
  get-update_status = λ s old w h _. stored_status s old w h;
}

abbrev asked : RestoreSession
asked =
    let backup = session_of success [] in
    record {
      metadata = named "ns" "r1";
      spec = record { backup_session_ref = record { spec = backup.spec; status = backup.status } };
      status = record { session_state = new; start_time = some zero_time; targets = [] };
    }

abbrev start : Objects
start Kind.backup_configuration = two ∷ []
start Kind.restore_session = asked ∷ []
start _ = []

abbrev request : ObjectKey
request = record { namespace = "ns"; name = "r1" }

abbrev begun : Objects
begun = (reconcile restoring request start).1

begins : reconcile restoring request start ≡ (ok done, begun)
unfolding reconcile reconcile_found advance is_backup_ongoing
begins = refl

-- The session is taken to Initializing, with its targets.
initialized :
    begun Kind.restore_session
    ≡ record asked {
      status = record asked.status {
        session_state = initializing;
        targets = init_session (λ i. zero_time) two;
      };
    }
      ∷ []
unfolding reconcile reconcile_found advance is_backup_ongoing
initialized = refl

reconcile-Stepped_example :
    (t : RestoreSession) × (restoring.get Kind.restore_session request begun ≡ ok t)
    × Stepped restoring as_listed restoring-IsRestoreStore asked two request start refl t
reconcile-Stepped_example =
    reconcile-Stepped restoring as_listed restoring-IsRestoreStore asked two request start refl
      begun done refl begins
