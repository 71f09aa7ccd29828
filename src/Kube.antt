-- ===== src/Kube.antt =====
-- The Kubernetes objects that the program reads and writes, with the fields that it uses. They are
-- data from k8s.io/api, not code of this repository.
use grpc_test_infra.Base.{ℕ, String, Bool, Option, List, []}
use grpc_test_infra.Base.Int.{ℤ}
use grpc_test_infra.Base.Dict.{Dict}

pub record EnvVar : Type 0 where
  pub name : String
  pub value : String

pub record VolumeMount : Type 0 where
  pub name : String
  pub mount_path : String
  pub read_only : Bool

pub record ContainerPort : Type 0 where
  pub name : String
  pub protocol : String
  pub container_port : ℕ

pub record Container : Type 0 where
  pub name : String
  pub image : String
  pub command : List String
  pub args : List String
  pub env : List EnvVar
  pub ports : List ContainerPort
  pub working_dir : String
  pub volume_mounts : List VolumeMount

pub record Volume : Type 0 where
  pub name : String
  pub config_map : Option String

-- One required term of a pod's anti-affinity.
pub record AffinityTerm : Type 0 where
  pub key : String
  pub operator : String
  pub topology_key : String

pub record PodSpec : Type 0 where
  pub init_containers : List Container
  pub containers : List Container
  pub volumes : List Volume
  pub node_selector : Dict String
  pub restart_policy : String
  pub anti_affinity : List AffinityTerm

-- `Terminated` with its exit code, and `Waiting` with its reason.
pub record ContainerState : Type 0 where
  pub terminated : Option ℤ
  pub waiting : Option String

pub record ContainerStatus : Type 0 where
  pub name : String
  pub ready : Bool
  pub state : ContainerState

pub data PodPhase : Type 0 where
  pod_pending pod_running pod_succeeded pod_failed pod_unknown : PodPhase

pub record PodStatus : Type 0 where
  pub phase : PodPhase
  pub pod_ip : String
  pub init_container_statuses : List ContainerStatus
  pub container_statuses : List ContainerStatus

pub record Pod : Type 0 where
  pub name : String
  pub namespace : String
  pub labels : Dict String
  pub spec : PodSpec
  pub status : PodStatus

pub record Node : Type 0 where
  pub name : String
  pub labels : Dict String

pub record ConfigMap : Type 0 where
  pub name : String
  pub namespace : String
  pub contents : Dict String

-- The status of a pod that has only been constructed.
abbrev pub new_status : PodStatus
new_status = record {
  phase = pod_unknown;
  pod_ip = "";
  init_container_statuses = [];
  container_statuses = [];
}
