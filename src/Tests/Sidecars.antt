-- ===== src/Tests/Sidecars.antt =====
-- The sidecar of a pod with two containers, of which one is backed up.
use formol.Prelude.{
  ◌≡◌, refl, String, true, false, none, some, List, [], ◌∷◌, ◌<>◌, map, ◌==◌, if◌then◌else◌,
}
use formol.Api.Meta.{named}
use formol.Api.Config.{BackupType, TargetContainer, Target}
use formol.Api.Pod.{VolumeMount, Container, PodSpec, source}
use formol.Api.Objects.{Repo}
use formol.Sidecar.{attach}
use formol.Sidecar.Removal.{detach}
use formol.Sidecar.Mounts.{PathOps, get_volume_mounts}
use formol.Sidecar.RoundTrip.{detach-attach}
use formol.Tests.Samples.{target, two}

-- The operations on paths, at the few paths of the tests.
abbrev split_of : String → List String
split_of path =
    if path == "/data"
    then "" ∷ "data" ∷ []
    else if path == "/data/foo"
    then "" ∷ "data" ∷ "foo" ∷ []
    else "" ∷ "zzz" ∷ "foo" ∷ []

abbrev rel_of : String → String → String
rel_of base path = if base == "/data" then "foo" else "../../data/foo"

abbrev join_of : String → String → String
join_of a b = if b == "../../data/foo" then "/data/foo" else a <> ("/" <> b)

abbrev pub paths : PathOps
paths = record {
  clean = λ p. p;
  split = split_of;
  rel = rel_of;
  join = join_of;
  decimal = λ i. "0";
}

abbrev mount : String → String → VolumeMount
mount name path = record { name = name; read_only = false; mount_path = path; sub_path = "" }

abbrev container : String → List VolumeMount → Container
container name vms = record {
  name = name;
  image = "image";
  args = [];
  env = [];
  volume_mounts = vms;
  privileged = none;
}

abbrev pub pod : PodSpec
pod = record {
  init_containers = [];
  containers = container "db" (mount "disk" "/data" ∷ []) ∷ container "web" [] ∷ [];
  volumes = record { name = "disk"; volume_source = source "claim" } ∷ [];
  share_process_namespace = none;
  service_account_name = "";
  restart_policy = "";
}

abbrev db : TargetContainer
db = record { name = "db"; paths = "/data/foo" ∷ []; steps = []; share_path = "/dump"; job = [] }

abbrev pub of_kind : BackupType → Target
of_kind kind = record (target "db" 2) { backup_type = kind; containers = db ∷ [] }

abbrev pub repo : Repo
repo = record {
  metadata = named "ns" "repo";
  spec = record {
    backend = record { s3 = none; local = some (record { volume_source = source "nfs" }) };
    repository_secrets = "secrets";
  };
}

sidecar_added :
    map (λ c. c.name) (attach paths two (of_kind BackupType.job_kind) repo pod).containers
    ≡ "db" ∷ "web" ∷ "formol" ∷ []
unfolding attach
sidecar_added = refl

volumes_added :
    map (λ v. v.name) (attach paths two (of_kind BackupType.job_kind) repo pod).volumes
    ≡ "disk" ∷ "formol-shared" ∷ "restic-volume" ∷ []
unfolding attach
volumes_added = refl

detach-attach_example :
    detach (of_kind BackupType.job_kind) (attach paths two (of_kind BackupType.job_kind) repo pod)
    ≡ record pod { share_process_namespace = some true }
detach-attach_example =
    detach-attach paths two (of_kind BackupType.job_kind) repo pod refl refl refl

-- The path under the mount is found.
path_found :
    (get_volume_mounts paths (container "db" (mount "disk" "/data" ∷ [])) db).0
    ≡ "/backup0/foo" ∷ []
unfolding get_volume_mounts
path_found = refl

-- A mount that the path does not lie under is chosen for the item that it shares with the path, in
-- place of the one that the path lies under.
other_mount_chosen :
    map
      (λ vm. vm.name)
      (get_volume_mounts paths
        (container "db" (mount "disk" "/data" ∷ mount "other" "/zzz/foo" ∷ []))
        db).1
    ≡ "other" ∷ []
unfolding get_volume_mounts
other_mount_chosen = refl

-- For a path that no mount lies over, the mount has no name.
unmounted_path : map (λ vm. vm.name) (get_volume_mounts paths (container "db" []) db).1 ≡ "" ∷ []
unfolding get_volume_mounts
unmounted_path = refl

abbrev vms : List VolumeMount
vms = mount "disk" "/data" ∷ []
