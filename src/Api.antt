-- ===== src/Api.antt =====
-- api/v1/loadtest_types.go: the load test resource. A pointer field is an `Option`; `int32` seconds
-- are natural numbers, since the resource's schema admits no value below 1. Times are nanoseconds.
use grpc_test_infra.Base.{ℕ, String, Bool, true, false, Option, none, List, Message, plain}
use grpc_test_infra.Base.Dict.{Dict}
use grpc_test_infra.Kube.{EnvVar, VolumeMount}

pub record Clone : Type 0 where
  pub image : Option String
  pub repo : Option String
  pub git_ref : Option String

pub record Build : Type 0 where
  pub image : Option String
  pub command : List String
  pub args : List String
  pub env : List EnvVar

pub record Run : Type 0 where
  pub image : Option String
  pub command : List String
  pub args : List String
  pub env : List EnvVar
  pub volume_mounts : List VolumeMount

-- Go declares `Driver`, `Server` and `Client` apart, with these same six fields.
pub record Component : Type 0 where
  pub name : Option String
  pub language : String
  pub pool : Option String
  pub clone : Option Clone
  pub build : Option Build
  pub run : Run

abbrev pub Driver : Type 0
Driver = Component

abbrev pub Server : Type 0
Server = Component

abbrev pub Client : Type 0
Client = Component

pub record Results : Type 0 where
  pub big_query_table : Option String

pub record LoadTestSpec : Type 0 where
  pub driver : Option Driver
  pub servers : List Server
  pub clients : List Client
  pub results : Option Results
  pub scenarios_json : String
  pub timeout_seconds : ℕ
  pub ttl_seconds : ℕ

-- Go's type is a string with five named values: `other` is any string beside them.
pub data LoadTestState : Type 0 where
  unknown initializing running succeeded errored : LoadTestState
  other : String → LoadTestState

unfoldable pub is_terminated : LoadTestState → Bool
is_terminated succeeded = true
is_terminated errored = true
is_terminated _ = false

abbrev pub init_container_error : String
init_container_error = "InitContainerError"

abbrev pub container_error : String
container_error = "ContainerError"

abbrev pub failed_setting_defaults_error : String
failed_setting_defaults_error = "FailedSettingDefaults"

abbrev pub configuration_error : String
configuration_error = "ConfigurationError"

abbrev pub pods_missing : String
pods_missing = "PodsMissing"

abbrev pub pool_error : String
pool_error = "PoolError"

abbrev pub timeout_errored : String
timeout_errored = "TimeoutErrored"

abbrev pub kubernetes_error : String
kubernetes_error = "KubernetesError"

pub record LoadTestStatus : Type 0 where
  pub state : LoadTestState
  pub reason : String
  pub message : Message
  pub start_time : Option ℕ
  pub stop_time : Option ℕ

-- `LoadTestStatus{}`
abbrev pub empty_status : LoadTestStatus
empty_status = record {
  state = other "";
  reason = "";
  message = plain "";
  start_time = none;
  stop_time = none;
}

pub record LoadTest : Type 0 where
  pub name : String
  pub namespace : String
  pub labels : Dict String
  pub annotations : Dict String
  pub spec : LoadTestSpec
  pub status : LoadTestStatus
