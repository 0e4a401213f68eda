-- ===== src/Api/Types.antt =====
-- api/v1alpha1: the resource Function (function_types.go), the lists of resources, and the types of
-- the group with their registration (groupversion_info.go and the init functions of the other files).
use formol.Prelude.{String, List, [], ◌∷◌}
use formol.Api.Meta.{ObjectMeta}
use formol.Api.Config.{BackupConfiguration}
use formol.Api.Session.{BackupSession, RestoreSession}
use formol.Api.Pod.{Container}
use formol.Api.Objects.{Repo}
use formol.Outcome.{Action}

-- A function is a container; its status has no fields.
pub record Function : Type 0 where
  pub metadata : ObjectMeta
  pub spec : Container
  pub status : Unit {0}

pub record FunctionList : Type 0 where
  pub items : List Function

pub record BackupConfigurationList : Type 0 where
  pub items : List BackupConfiguration

pub record BackupSessionList : Type 0 where
  pub items : List BackupSession

pub record RestoreSessionList : Type 0 where
  pub items : List RestoreSession

pub record RepoList : Type 0 where
  pub items : List Repo

-- The types of the group, by name.
pub data ApiType : Type 0 where
  backup_configuration_type backup_configuration_list : ApiType
  backup_session_type backup_session_list : ApiType
  function_type function_list : ApiType
  repo_type repo_list : ApiType
  restore_session_type restore_session_list : ApiType

abbrev pub Struct : ApiType → Type 0
Struct backup_configuration_type = BackupConfiguration
Struct backup_configuration_list = BackupConfigurationList
Struct backup_session_type = BackupSession
Struct backup_session_list = BackupSessionList
Struct function_type = Function
Struct function_list = FunctionList
Struct repo_type = Repo
Struct repo_list = RepoList
Struct restore_session_type = RestoreSession
Struct restore_session_list = RestoreSessionList

pub record GroupVersion : Type 0 where
  pub group : String
  pub version : String

abbrev pub group_version : GroupVersion
group_version = record { group = "formol.desmojim.fr"; version = "v1alpha1" }

-- What the registration uses of apimachinery, controller-runtime and client-go, over unknown schemes
-- and builders. The code of these operations is not in the repository.
pub record Registry : Type 1 where
  pub Scheme : Type 0
  pub Builder : Type 0
  pub new_scheme : Scheme
  -- `&scheme.Builder{GroupVersion: GroupVersion}`
  pub new_builder : GroupVersion → Builder
  -- `Register`, and `AddToScheme` of a builder and of client-go.
  pub register : List ApiType → Builder → Builder
  pub add_to_scheme : Builder → Action Scheme (Unit {0})
  pub client_go_add_to_scheme : Action Scheme (Unit {0})
  -- `utilruntime.Must`
  pub must : Action Scheme (Unit {0}) → Action Scheme (Unit {0})
  -- `Recognizes`
  pub recognizes : Scheme → GroupVersion → ApiType → Type 0

module _ (R : Registry) where
  -- The init functions of the files of the package.
  abbrev pub init_backup_configuration : R.Builder → R.Builder
  init_backup_configuration =
      R.register (backup_configuration_type ∷ backup_configuration_list ∷ [])

  abbrev pub init_backup_session : R.Builder → R.Builder
  init_backup_session = R.register (backup_session_type ∷ backup_session_list ∷ [])

  abbrev pub init_function : R.Builder → R.Builder
  init_function = R.register (function_type ∷ function_list ∷ [])

  abbrev pub init_repo : R.Builder → R.Builder
  init_repo = R.register (repo_type ∷ repo_list ∷ [])

  abbrev pub init_restore_session : R.Builder → R.Builder
  init_restore_session = R.register (restore_session_type ∷ restore_session_list ∷ [])

  -- `SchemeBuilder` after them. Go runs them in the order of the files' names.
  unfoldable pub scheme_builder : R.Builder
  scheme_builder = init_restore_session (
      init_repo (
        init_function
          (init_backup_session (init_backup_configuration (R.new_builder group_version)))))
