-- ===== src/Manager.antt =====
-- main.go, and the SetupWithManager of the three reconcilers under controllers/.
pub mod Calls
pub mod Index
pub mod Scheme
use formol.Prelude.{ℕ, String, Bool, false, List, [], ◌∷◌}
use formol.Api.Session.{SessionState, state_name, BackupSession}
use formol.Api.Objects.{Kind}
use formol.Outcome.{Result, ok, err, panic, Action, ◌>>=◌, ◌>>◌}

-- `sessionState`, the field by which the sessions are listed.
abbrev pub session_state_field : String
session_state_field = ".metadata.state"

-- The variables that the command line sets.
pub record Flags : Type 0 where
  pub metrics_addr : String
  pub probe_addr : String
  pub enable_leader_election : Bool

abbrev pub default_flags : Flags
default_flags = record {
  metrics_addr = ":8080";
  probe_addr = ":8081";
  enable_leader_election = false;
}

-- `flag.Parse`, which ends the program after `-help` and after an error.
pub data Parsed : Type 0 where
  parsed : Flags → Parsed
  help refused : Parsed

-- `ctrl.Options`, without the scheme.
pub record Options : Type 0 where
  pub metrics_bind_address : String
  pub port : ℕ
  pub health_probe_bind_address : String
  pub leader_election : Bool
  pub leader_election_id : String

abbrev pub options_of : Flags → Options
options_of flags = record {
  metrics_bind_address = flags.metrics_addr;
  port = 9443;
  health_probe_bind_address = flags.probe_addr;
  leader_election = flags.enable_leader_election;
  leader_election_id = "6846258d.desmojim.fr";
}

-- What `main` uses of controller-runtime, over an unknown state of the process, which has the manager.
-- The code of these operations is not in the repository.
pub record Runtime : Type 1 where
  pub World : Type 0
  pub Config : Type 0
  pub parse : Flags → World → Parsed
  -- `GetConfigOrDie`, where an error is the end of the program with the code 1.
  pub get_config : Action World Config
  pub new_manager : Config → Options → Action World (Unit {0})
  -- `GetFieldIndexer().IndexField` for backup sessions.
  pub index_field : String → (BackupSession → List String) → Action World (Unit {0})
  -- `NewControllerManagedBy(mgr).For(...).Complete(r)`
  pub complete : Kind → Action World (Unit {0})
  pub add_healthz_check : String → Action World (Unit {0})
  pub add_readyz_check : String → Action World (Unit {0})
  pub start : Action World (Unit {0})

-- The values that a session is indexed by.
unfoldable pub session_index : BackupSession → List String
session_index session = state_name session.status.session_state ∷ []

-- The code of the process after `os.Exit(1)`, after a return from `main`, and after a panic.
abbrev pub exit_code : Result (Unit {0}) → ℕ
exit_code (ok _) = 0
exit_code (err _) = 1
exit_code panic = 2

module _ (R : Runtime) where
  abbrev pub create_manager : Flags → Action R.World (Unit {0})
  create_manager flags = do config ← R.get_config; R.new_manager config (options_of flags)

  -- `SetupWithManager` of `BackupConfigurationReconciler`, `BackupSessionReconciler` and
  -- `RestoreSessionReconciler`.
  abbrev pub set_up_backup_configuration : Action R.World (Unit {0})
  set_up_backup_configuration = R.complete Kind.backup_configuration

  unfoldable pub set_up_backup_session : Action R.World (Unit {0})
  set_up_backup_session = do
    R.index_field session_state_field session_index
    R.complete Kind.backup_session

  abbrev pub set_up_restore_session : Action R.World (Unit {0})
  set_up_restore_session = R.complete Kind.restore_session

  -- `main` after `flag.Parse`, where an error is one that ends the process.
  unfoldable pub serve : Flags → Action R.World (Unit {0})
  unfolding set_up_backup_session
  serve flags = do
    create_manager flags
    set_up_backup_configuration
    set_up_backup_session
    set_up_restore_session
    R.add_healthz_check "healthz"
    R.add_readyz_check "readyz"
    R.start

  -- `main`: the code of the process, with the state in which it ends.
  unfoldable pub main : R.World → ℕ × R.World
  unfolding serve
  main w = elim (R.parse default_flags w) [
    | parsed flags ↦ let (r, w') = serve flags w in (exit_code r, w')
    | help ↦ (0, w)
    | refused ↦ (2, w)
  ]
