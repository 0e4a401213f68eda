-- ===== src/Sidecar.antt =====
-- The sidecar of a target: api/v1alpha1/common.go, GetTargetObjects of
-- api/v1alpha1/backupconfiguration_types.go, and the part of addSidecar
-- (controllers/backupconfiguration_controller_helpers.go) that changes a pod specification.
pub mod Mounts
pub mod Removal
pub mod Untag
pub mod RoundTrip
pub mod Choice
pub mod Once
pub mod Cleaned
use Prim.Native.String.{String}
use formol.Prelude.{
  ℕ, suc, ltb, length, Bool, true, false, not, ◌&&◌, ◌||◌, Option, none, some, List, [], ◌∷◌, ◌++◌,
  ◌==◌, ◌<>◌, any, snoc, keep_if, if◌then◌else◌,
}
use formol.Api.Config.{TargetKind, BackupType, TargetContainer, Target, BackupConfiguration}
use formol.Api.Pod.{EnvVar, VolumeMount, VolumeSource, Volume, Container, PodSpec}
use formol.Api.Objects.{Repo, Local}
use formol.Sidecar.Mounts.{PathOps, get_volume_mounts, path_list}

abbrev pub sidecar_container_name : String
sidecar_container_name = "formol"

abbrev pub target_container_tag : String
target_container_tag = "FORMOL_TARGET"

abbrev pub formol_shared_volume : String
formol_shared_volume = "formol-shared"

abbrev pub restic_repo_volume : String
restic_repo_volume = "restic-volume"

-- `GetTargetObjects`: the kind of object that is fetched, none for a nil object.
pub data WorkloadKind : Type 0 where
  deployment stateful_set : WorkloadKind

unfoldable pub get_target_objects : TargetKind → Option WorkloadKind
get_target_objects TargetKind.deployment = some deployment
get_target_objects TargetKind.stateful_set = some stateful_set
get_target_objects TargetKind.pod = none

abbrev pub env_var : String → String → EnvVar
env_var name value = record { name = name; value = value; value_from = none }

abbrev pub shared_mount : TargetContainer → VolumeMount
shared_mount tc = record {
  name = formol_shared_volume;
  read_only = false;
  mount_path = tc.share_path;
  sub_path = "";
}

abbrev pub shared_volume : Volume
shared_volume = record { name = formol_shared_volume; volume_source = VolumeSource.empty_dir }

abbrev pub add_shared_volume : List Volume → List Volume
add_shared_volume volumes =
    if any (λ (v : Volume). v.name == formol_shared_volume) volumes
    then volumes
    else snoc volumes shared_volume

-- `GetSharedPath`: the volumes of the pod and its container at the index, and the mounts returned.
unfoldable pub get_shared_path :
    List Volume → Container → TargetContainer → List Volume × Container × List VolumeMount
get_shared_path volumes c tc = (
  add_shared_volume volumes,
  record c { volume_mounts = snoc c.volume_mounts (shared_mount tc) },
  shared_mount tc ∷ [],
)

-- `GetSidecar`
unfoldable pub get_sidecar : BackupConfiguration → Target → Container
get_sidecar conf target = record {
  name = sidecar_container_name;
  image = conf.spec.image;
  args = "server" ∷ [];
  env =
      env_var "TARGET_NAME" target.target_name
      ∷ record { name = "POD_NAMESPACE"; value = ""; value_from = some "metadata.namespace" }
      ∷ [];
  volume_mounts = [];
  privileged = some true;
}

-- What the loops of `addSidecar` change: a container, the volumes of the pod, and the sidecar.
pub record Tagging : Type 0 where
  pub container : Container
  pub volumes : List Volume
  pub sidecar : Container

pub record Tagged : Type 0 where
  pub containers : List Container
  pub volumes : List Volume
  pub sidecar : Container

abbrev pub tag_of : Container → EnvVar
tag_of c = env_var target_container_tag c.name

module _ (P : PathOps) where
  -- The inner `switch`, on the container as it was found and as it is now.
  unfoldable pub mount_for : BackupType → Container → TargetContainer → Tagging → Tagging
  unfolding get_shared_path
  mount_for BackupType.online_kind found tc t =
      let (paths, vms) = get_volume_mounts P found tc in
      record t {
        sidecar = record t.sidecar {
          env = snoc t.sidecar.env (env_var "BACKUP_PATHS" (path_list paths));
          volume_mounts = vms;
        };
      }
  mount_for BackupType.job_kind found tc t =
      let (volumes, c, vms) = get_shared_path t.volumes t.container tc in
      record {
        container = c;
        volumes = volumes;
        sidecar = record t.sidecar { volume_mounts = vms };
      }
  mount_for BackupType.snapshot_kind found tc t = t

  -- The inner loop, over the target containers. The environment is that of the container as found.
  unfoldable pub tag_container : BackupType → List TargetContainer → Container → Tagging → Tagging
  unfolding mount_for
  tag_container kind [] found t = t
  tag_container kind (tc ∷ rest) found t = tag_container kind rest found (
      if tc.name == found.name
      then mount_for kind found tc
          (record t { container = record t.container { env = snoc found.env (tag_of found) } })
      else t)

  -- The outer loop, over the containers of the pod.
  unfoldable pub tag_containers : Target → List Container → List Volume → Container → Tagged
  unfolding tag_container
  tag_containers target [] volumes sidecar = record {
    containers = [];
    volumes = volumes;
    sidecar = sidecar;
  }
  tag_containers target (c ∷ rest) volumes sidecar =
      let t : Tagging =
        tag_container target.backup_type target.containers c
          (record { container = c; volumes = volumes; sidecar = sidecar }) in
      let later = tag_containers target rest t.volumes t.sidecar in
      record later { containers = t.container ∷ later.containers }

  -- A local repository is mounted in the sidecar, and its volume added to the pod.
  abbrev pub mount_repo : Option Local → Tagged → Tagged
  mount_repo none t = t
  mount_repo (some local) t = record t {
    sidecar = record t.sidecar {
      volume_mounts = snoc t.sidecar.volume_mounts (record {
        name = restic_repo_volume;
        read_only = false;
        mount_path = "/restic-repo";
        sub_path = "";
      });
    };
    volumes =
        snoc t.volumes (record { name = restic_repo_volume; volume_source = local.volume_source });
  }

  -- The part of `addSidecar` between the RBAC objects and the update.
  unfoldable pub attach : BackupConfiguration → Target → Repo → PodSpec → PodSpec
  unfolding tag_containers get_sidecar
  attach conf target repo pod =
      let t =
        mount_repo repo.spec.backend.local
          (tag_containers target pod.containers pod.volumes (get_sidecar conf target)) in
      record pod {
        containers = snoc t.containers t.sidecar;
        volumes = t.volumes;
        share_process_namespace = some true;
      }

abbrev pub is_sidecar : Container → Bool
is_sidecar c = c.name == sidecar_container_name

-- `hasSidecar`, with the image of the first sidecar in place of its index.
unfoldable pub sidecar_image : List Container → Option String
sidecar_image [] = none
sidecar_image (c ∷ rest) = if is_sidecar c then some c.image else sidecar_image rest

unfoldable pub set_sidecar_image : String → List Container → List Container
set_sidecar_image image [] = []
set_sidecar_image image (c ∷ rest) =
    if is_sidecar c then record c { image = image } ∷ rest else c ∷ set_sidecar_image image rest
