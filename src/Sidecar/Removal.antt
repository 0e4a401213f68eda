-- ===== src/Sidecar/Removal.antt =====
-- The part of DeleteSidecar (controllers/backupconfiguration_controller_helpers.go) that changes a pod
-- specification.
use formol.Prelude.{
  ltb, length, Bool, true, false, not, ◌&&◌, ◌||◌, Option, none, some, String, List, [], ◌∷◌, ◌==◌,
  keep_if, if◌then◌else◌,
}
use formol.Api.Config.{TargetContainer, Target}
use formol.Api.Pod.{EnvVar, VolumeMount, Volume, Container, PodSpec}
use formol.Sidecar.{target_container_tag, formol_shared_volume, restic_repo_volume, is_sidecar}

abbrev pub is_tag : EnvVar → Bool
is_tag e = e.name == target_container_tag

-- The last element, for a list that has one, and the others.
abbrev pub last_or : EnvVar → List EnvVar → EnvVar
last_or e [] = e
last_or e (x ∷ rest) = last_or x rest

abbrev pub but_last : List EnvVar → List EnvVar
but_last [] = []
but_last (x ∷ []) = []
but_last (x ∷ y ∷ rest) = x ∷ but_last (y ∷ rest)

abbrev pub ends_in_tag : List EnvVar → Bool
ends_in_tag [] = false
ends_in_tag (e ∷ rest) = is_tag (last_or e rest)

abbrev pub push : EnvVar → Option (List EnvVar) → Option (List EnvVar)
push e none = none
push e (some rest) = some (e ∷ rest)

-- The first tag is overwritten by the last element of the array.
abbrev pub overwrite_tag : EnvVar → List EnvVar → Option (List EnvVar)
overwrite_tag last [] = none
overwrite_tag last (e ∷ rest) =
    if is_tag e then some (last ∷ rest) else push e (overwrite_tag last rest)

abbrev pub overwrite : List EnvVar → Option (List EnvVar)
overwrite [] = none
overwrite (e ∷ rest) = overwrite_tag (last_or e rest) (e ∷ rest)

-- The array under the environment of a container, and whether the container has been given the
-- array without its last element: both slices share the array.
pub record Env : Type 0 where
  pub array : List EnvVar
  pub shorter : Bool

abbrev pub overwritten : Env → Option (List EnvVar) → Env
overwritten e none = e
overwritten e (some array) = record { array = array; shorter = true }

-- The body of `removeTags` for a target container of the container's name.
unfoldable pub untag_once : Env → Env
untag_once e =
    if ltb 1 (length e.array) && ends_in_tag e.array
    then record e { shorter = true }
    else overwritten e (overwrite e.array)

unfoldable pub untag : List TargetContainer → String → Env → Env
unfolding untag_once
untag [] name e = e
untag (tc ∷ rest) name e = untag rest name (if tc.name == name then untag_once e else e)

abbrev pub env_of : Env → List EnvVar
env_of e = if e.shorter then but_last e.array else e.array

-- `removeTags`, for one container.
unfoldable pub remove_tags : List TargetContainer → Container → Container
unfolding untag
remove_tags tcs c = record c {
  env = env_of (untag tcs c.name (record { array = c.env; shorter = false }));
}

abbrev pub is_shared_mount : VolumeMount → Bool
is_shared_mount vm = vm.name == formol_shared_volume

abbrev pub is_formol_volume : Volume → Bool
is_formol_volume v = (v.name == restic_repo_volume) || (v.name == formol_shared_volume)

-- The containers but the sidecars, without the mounts of the shared volume.
unfoldable pub restore_containers : List Container → List Container
restore_containers [] = []
restore_containers (c ∷ rest) =
    let later = restore_containers rest in
    if is_sidecar c
    then later
    else record c { volume_mounts = keep_if (λ vm. not (is_shared_mount vm)) c.volume_mounts }
      ∷ later

abbrev pub remove_all_tags : List TargetContainer → List Container → List Container
remove_all_tags tcs [] = []
remove_all_tags tcs (c ∷ rest) = remove_tags tcs c ∷ remove_all_tags tcs rest

-- What `DeleteSidecar` does to the pod of a target.
unfoldable pub detach : Target → PodSpec → PodSpec
unfolding restore_containers remove_tags
detach target pod = record pod {
  containers = remove_all_tags target.containers (restore_containers pod.containers);
  volumes = keep_if (λ v. not (is_formol_volume v)) pod.volumes;
}
