-- ===== src/Workload/Objects.antt =====
-- The fields of `corev1` and `appsv1` objects that the code sets.
use kube_combo.Prelude.{ℕ, String, Bool, false, Option, none, List, [], Slice}
use kube_combo.Prelude.Dict.{Dict}
use kube_combo.Api.Meta.{ObjectMeta, Toleration, Affinity}

pub data EnvValue : Type 0 where
  value : String → EnvValue
  field_ref : String → EnvValue
  -- A key of a config map, which may be missing.
  config_map_key : String → String → EnvValue

pub record EnvVar : Type 0 where
  pub name : String
  pub source : EnvValue

pub record VolumeMount : Type 0 where
  pub name : String
  pub mount_path : String
  pub read_only : Bool

pub data HostPathType : Type 0 where
  unset directory directory_or_create : HostPathType

pub data VolumeSource : Type 0 where
  -- A secret that may be missing.
  secret : String → VolumeSource
  host_path : String → HostPathType → VolumeSource
  -- A config map, with the keys that are mounted (each under its own name) and the file mode.
  config_map : String → Slice String → Option ℕ → VolumeSource

pub record Volume : Type 0 where
  pub name : String
  pub source : VolumeSource

pub record ContainerPort : Type 0 where
  pub container_port : ℕ
  pub name : String
  pub protocol : String

-- A list of resources; a quantity stands as the text that it was parsed from.
pub record ResourceList : Type 0 where
  pub cpu : String
  pub memory : String

pub record SecurityContext : Type 0 where
  pub privileged : Bool
  pub allow_privilege_escalation : Bool
  pub run_as_user : Option ℕ
  pub capabilities : List String

pub record Container : Type 0 where
  pub name : String
  pub image : String
  pub volume_mounts : List VolumeMount
  pub limits : ResourceList
  pub requests : Option ResourceList
  pub command : List String
  pub ports : List ContainerPort
  pub env : List EnvVar
  pub image_pull_policy : String
  pub security_context : SecurityContext

pub record PodSpec : Type 0 where
  pub node_name : String
  pub containers : List Container
  pub volumes : List Volume
  pub restart_policy : String
  pub host_network : Bool
  pub host_pid : Bool
  pub service_account : String
  pub run_as_user : Option ℕ
  pub node_selector : Option Dict
  pub tolerations : Slice Toleration
  pub affinity : Option Affinity

pub record PodTemplate : Type 0 where
  pub name : String
  pub namespace : String
  pub labels : Dict
  pub annotations : Dict
  pub spec : PodSpec

pub record StatefulSet : Type 0 where
  pub meta : ObjectMeta
  pub replicas : ℕ
  pub selector : Dict
  pub template : PodTemplate
  pub update_strategy : String

pub record DaemonSet : Type 0 where
  pub meta : ObjectMeta
  pub selector : Dict
  pub template : PodTemplate
  pub update_strategy : String
  pub max_unavailable : Option String

pub record Pod : Type 0 where
  pub meta : ObjectMeta
  pub spec : PodSpec

abbrev pub pull_if_not_present : String
pull_if_not_present = "IfNotPresent"

abbrev pub rolling_update : String
rolling_update = "RollingUpdate"

abbrev pub plain : String → String → EnvVar
plain name v = record { name = name; source = value v }

-- The zero value of the pod fields that a builder leaves out.
abbrev pub empty_pod_spec : PodSpec
empty_pod_spec = record {
  node_name = "";
  containers = [];
  volumes = [];
  restart_policy = "";
  host_network = false;
  host_pid = false;
  service_account = "";
  run_as_user = none;
  node_selector = none;
  tolerations = none;
  affinity = none;
}
