-- ===== src/Api/Objects.antt =====
-- The objects of the other API groups that the controllers create, and the kinds of objects.
-- api/v1alpha1/repo_types.go: a repository, by the part that the controllers read.
use formol.Prelude.{ℕ, String, Bool, Option, List}
use formol.Api.Meta.{ObjectMeta}
use formol.Api.Config.{BackupConfiguration}
use formol.Api.Session.{BackupSession, RestoreSession}
use formol.Api.Pod.{PodSpec, VolumeSource}

pub record S3 : Type 0 where
  pub server : String
  pub bucket : String
  pub prefix : String

pub record Local : Type 0 where
  pub volume_source : VolumeSource

pub record Backend : Type 0 where
  pub s3 : Option S3
  pub local : Option Local

pub record RepoSpec : Type 0 where
  pub backend : Backend
  pub repository_secrets : String

pub record Repo : Type 0 where
  pub metadata : ObjectMeta
  pub spec : RepoSpec

pub record Job : Type 0 where
  pub metadata : ObjectMeta
  pub ttl_seconds_after_finished : Option ℕ
  pub pod_spec : PodSpec

pub record CronJob : Type 0 where
  pub metadata : ObjectMeta
  pub suspend : Option Bool
  pub schedule : String
  pub pod_spec : PodSpec

-- A Deployment or a StatefulSet, with the specification of its pod template.
pub record Workload : Type 0 where
  pub metadata : ObjectMeta
  pub pod_spec : PodSpec

pub record ServiceAccount : Type 0 where
  pub metadata : ObjectMeta

pub record PolicyRule : Type 0 where
  pub verbs : List String
  pub api_groups : List String
  pub resources : List String

-- A Role or a ClusterRole.
pub record Role : Type 0 where
  pub metadata : ObjectMeta
  pub rules : List PolicyRule

pub record Subject : Type 0 where
  pub kind : String
  pub name : String
  pub namespace : String

pub record RoleRef : Type 0 where
  pub api_group : String
  pub kind : String
  pub name : String

-- A RoleBinding or a ClusterRoleBinding.
pub record RoleBinding : Type 0 where
  pub metadata : ObjectMeta
  pub subjects : List Subject
  pub role_ref : RoleRef

pub data Kind : Type 0 where
  backup_session backup_configuration restore_session repo cron_job job : Kind
  deployment stateful_set service_account role role_binding : Kind
  cluster_role cluster_role_binding : Kind

-- The Go type of the objects of a kind.
abbrev pub Object : Kind → Type 0
Object Kind.backup_session = BackupSession
Object Kind.backup_configuration = BackupConfiguration
Object Kind.restore_session = RestoreSession
Object Kind.repo = Repo
Object Kind.cron_job = CronJob
Object Kind.job = Job
Object Kind.deployment = Workload
Object Kind.stateful_set = Workload
Object Kind.service_account = ServiceAccount
Object Kind.role = Role
Object Kind.role_binding = RoleBinding
Object Kind.cluster_role = Role
Object Kind.cluster_role_binding = RoleBinding
