-- ===== src/Tests/Samples.antt =====
-- A client over a memory with one backup session and one configuration, and sample objects.
use formol.Prelude.{
  ℕ, pos, ◌≡◌, String, Bool, true, false, not, ◌&&◌, Option, none, some, List, [], ◌∷◌, ◌==◌,
  eq_iff, any, keep_if, snoc, if◌then◌else◌, arith,
}
use formol.Api.Meta.{Time, zero_time, ObjectKey, ObjectMeta, named, key_of}
use formol.Api.Config.{TargetKind, BackupType, Target, BackupConfiguration}
use formol.Api.Session.{SessionState, same_state, TargetStatus, BackupSession}
use formol.Api.Objects.{Kind, Object}
use formol.Outcome.{Result, ok, err, not_found}
use formol.Client.{Client}
use formol.Client.Laws.{IsSessionStore}

pub record Memory : Type 0 where
  pub session : Option BackupSession
  pub conf : Option BackupConfiguration

abbrev pub same_key : ObjectKey → ObjectKey → Bool
same_key a b = (a.namespace == b.namespace) && (a.name == b.name)

abbrev pub slot : {A : Type 0} → (A → ObjectMeta) → Option A → ObjectKey → Result A
slot meta none key = err not_found
slot meta (some a) key = if same_key (key_of (meta a)) key then ok a else err not_found

abbrev pub memory_get : (k : Kind) → ObjectKey → Memory → Result (Object k)
memory_get Kind.backup_session key w = slot (λ s. s.metadata) w.session key
memory_get Kind.backup_configuration key w = slot (λ c. c.metadata) w.conf key
memory_get _ key w = err not_found

abbrev pub with_status :
    Option BackupSession → BackupSession → Result (Unit {0}) × Option BackupSession
with_status none s = (err not_found, none)
with_status (some old) s =
    if same_key (key_of old.metadata) (key_of s.metadata)
    then (ok tt, some (record old { status = s.status }))
    else (err not_found, some old)

abbrev pub memory_update_status : (k : Kind) → Object k → Memory → Result (Unit {0}) × Memory
memory_update_status Kind.backup_session s w =
    let (r, session) = with_status w.session s in (r, record w { session = session })
memory_update_status _ o w = (ok tt, w)

abbrev pub memory_update : (k : Kind) → Object k → Memory → Result (Unit {0}) × Memory
memory_update Kind.backup_session s w = (ok tt, record w { session = some s })
memory_update _ o w = (ok tt, w)

abbrev pub memory_delete : (k : Kind) → Object k → Memory → Result (Unit {0}) × Memory
memory_delete Kind.backup_session s w = (ok tt, record w { session = none })
memory_delete _ o w = (ok tt, w)

abbrev pub listed : Option BackupSession → SessionState → List BackupSession
listed none state = []
listed (some s) state = if same_state s.status.session_state state then s ∷ [] else []

abbrev pub is_nil : Option Time → Bool
is_nil none = true
is_nil (some t) = false

abbrev pub memory : Client
memory = record {
  World = Memory;
  get = memory_get;
  create = λ k o w. (ok tt, w);
  update = memory_update;
  update_status = memory_update_status;
  delete = memory_delete;
  get_nil = λ key w. err not_found;
  list_backup_sessions = λ namespace state w. ok (listed w.session state);
  clock = λ w i. zero_time;
  is_zero = is_nil;
  contains_finalizer = λ m f. any (λ g. g == f) m.finalizers;
  add_finalizer = λ m f. record m { finalizers = snoc m.finalizers f };
  remove_finalizer = λ m f. record m { finalizers = keep_if (λ g. not (g == f)) m.finalizers };
  set_controller_reference = λ conf job. ok job;
}

same_key_eq : (a b : ObjectKey) → same_key a b ≡ true → a ≡ b
same_key_eq a b h = ground (arith, eq_iff a.namespace b.namespace, eq_iff a.name b.name)

slot-key :
    (o : Option BackupSession) (key : ObjectKey) (s : BackupSession)
    → slot (λ (x : BackupSession). x.metadata) o key ≡ ok s
    → key_of s.metadata ≡ key
slot-key none key s h = cc
slot-key (some a) key s h = ground (arith, same_key_eq (key_of a.metadata) key)

slot-status :
    (o : Option BackupSession) (s old : BackupSession)
    → slot (λ (x : BackupSession). x.metadata) o (key_of s.metadata) ≡ ok old
    → slot (λ (x : BackupSession). x.metadata) (with_status o s).1 (key_of s.metadata)
      ≡ ok (record old { status = s.status })
slot-status o s old h = ground arith

pub memory-IsSessionStore : IsSessionStore memory
memory-IsSessionStore = record {
  get-key = λ key w s h. slot-key w.session key s h;
  get-update_status = λ s old w h _. slot-status w.session s old h;
}

abbrev pub target : String → ℕ → Target
target name retry = record {
  backup_type = BackupType.online_kind;
  target_kind = TargetKind.deployment;
  target_name = name;
  containers = [];
  retry = pos retry;
  volume_snapshot_class = "";
}

abbrev pub conf_of : List Target → BackupConfiguration
conf_of targets = record {
  metadata = named "ns" "conf";
  spec = record {
    repository = "repo";
    image = "formol:1";
    suspend = some false;
    schedule = "0 3 * * *";
    keep = record { last = pos 1; daily = pos 2; weekly = pos 0; monthly = pos 1; yearly = pos 0 };
    targets = targets;
  };
  status = record {
    last_backup_time = none;
    suspended = false;
    active_cron_job = false;
    active_sidecar = false;
  };
}

abbrev pub two : BackupConfiguration
two = conf_of (target "db" 2 ∷ target "web" 2 ∷ [])

abbrev pub in_state : String → SessionState → TargetStatus
in_state name state = record {
  backup_type = BackupType.online_kind;
  target_name = name;
  target_kind = TargetKind.deployment;
  session_state = state;
  snapshot_id = "";
  start_time = none;
  duration = none;
  try = pos 1;
}

abbrev pub finalizers : List String
finalizers = "finalizer.backupsession.formol.desmojim.fr" ∷ []

abbrev pub session_of : SessionState → List TargetStatus → BackupSession
session_of state tss = record {
  metadata = record (named "ns" "s1") { finalizers = finalizers };
  spec = record { ref = record { namespace = "ns"; name = "conf" } };
  status = record { session_state = state; start_time = some zero_time; targets = tss; keep = "" };
}

abbrev pub key : ObjectKey
key = record { namespace = "ns"; name = "s1" }

abbrev pub holding : BackupSession → BackupConfiguration → Memory
holding s conf = record { session = some s; conf = some conf }
