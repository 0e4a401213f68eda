-- ===== src/Api/Pod.antt =====
-- The parts of a pod specification that the controllers read or write (`corev1`).
use formol.Prelude.{String, Bool, Option, List}

-- The value of a variable is a text, or the field of the pod that it is taken from.
pub record EnvVar : Type 0 where
  pub name : String
  pub value : String
  pub value_from : Option String

pub record VolumeMount : Type 0 where
  pub name : String
  pub read_only : Bool
  pub mount_path : String
  pub sub_path : String

-- A volume that is empty at the start, or any other source, by its description.
pub data VolumeSource : Type 0 where
  empty_dir : VolumeSource
  source : String → VolumeSource

pub record Volume : Type 0 where
  pub name : String
  pub volume_source : VolumeSource

pub record Container : Type 0 where
  pub name : String
  pub image : String
  pub args : List String
  pub env : List EnvVar
  pub volume_mounts : List VolumeMount
  pub privileged : Option Bool

pub record PodSpec : Type 0 where
  pub init_containers : List Container
  pub containers : List Container
  pub volumes : List Volume
  pub share_process_namespace : Option Bool
  pub service_account_name : String
  pub restart_policy : String
