-- ===== src/Tests/Starting.antt =====
-- Starts of the manager, and the sessions that its index lists.
use formol.Prelude.{◌≡◌, ◌≢◌, refl, ◌⊎◌, String, List, [], ◌∷◌, keep_if, snoc}
use formol.Api.Session.{state_name, new, running, BackupSession}
use formol.Api.Objects.{Kind}
use formol.Client.{Client}
use formol.Outcome.{ok, err, failed, Action}
use formol.BackupSession.{put_off, advance}
use formol.Manager.{default_flags, parsed, Runtime, main}
use formol.Manager.Calls.{Performed, Stopped, calls, main-calls}
use formol.Manager.Index.{is_indexed, IsIndexed, advance_new-cached}
use formol.Tests.Samples.{Memory, memory, two, session_of, holding}
use formol.Tests.Reconciling.{as_listed, fresh}

-- A call that is noted.
abbrev noted : String → Action (List String) (Unit {0})
noted name log = (ok tt, snoc log name)

abbrev controller : Kind → String
controller Kind.backup_configuration = "BackupConfiguration"
controller Kind.backup_session = "BackupSession"
controller _ = "RestoreSession"

abbrev runtime : Runtime
runtime = record {
  World = List String;
  Config = Unit;
  parse = λ flags log. parsed flags;
  get_config = λ log. (ok tt, log);
  new_manager = λ config options. noted options.leader_election_id;
  index_field = λ field index. noted field;
  complete = λ kind. noted (controller kind);
  add_healthz_check = noted;
  add_readyz_check = noted;
  start = noted "start";
}

all_set_up : main runtime [] ≡ (
  0,
  "6846258d.desmojim.fr" ∷ "BackupConfiguration" ∷ ".metadata.state" ∷ "BackupSession"
      ∷ "RestoreSession" ∷ "healthz" ∷ "readyz" ∷ "start" ∷ [],
)
unfolding main
all_set_up = refl

-- The index is refused.
abbrev without_index : Runtime
without_index = record runtime { index_field = λ field index log. (err (failed "index"), log) }

stopped : main without_index [] ≡ (1, "6846258d.desmojim.fr" ∷ "BackupConfiguration" ∷ [])
unfolding main
stopped = refl

main-calls_example :
    (((main without_index []).0 ≡ 0)
      × Performed (calls without_index default_flags) [] (main without_index []).1)
    ⊎ (((main without_index []).0 ≢ 0)
        × Stopped (calls without_index default_flags) [] (main without_index []).1)
main-calls_example = main-calls without_index default_flags [] refl

abbrev busy : BackupSession
busy = session_of running []

-- A manager whose cache has two sessions.
abbrev sessions : Memory → List BackupSession
sessions w = fresh ∷ busy ∷ []

abbrev listing : Client
listing = record memory {
  list_backup_sessions =
      λ namespace state w. ok (keep_if (is_indexed namespace state) (sessions w));
}

listing-IsIndexed : IsIndexed listing sessions
listing-IsIndexed namespace state w = refl

advance_new-cached_example :
    advance listing as_listed new two fresh.status (holding fresh two)
    ≡ (ok put_off, holding fresh two)
unfolding state_name
advance_new-cached_example =
    advance_new-cached listing as_listed sessions listing-IsIndexed two fresh.status
      (holding fresh two)
