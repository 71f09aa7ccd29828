-- ===== src/PodBuilder/Base.antt =====
-- `New`, `newPod` and `safeStrUnwrap` of podbuilder/podbuilder.go.
use grpc_test_infra.Base.{String, false, Option, none, some, List, [], ◌∷◌, ◌++◌, get_or}
use grpc_test_infra.Base.Text.{cat_all}
use grpc_test_infra.Config.Constants.{
  bazel_cache_mount_path, bazel_cache_volume_name, build_init_container_name, clone_git_ref_env,
  clone_init_container_name, clone_repo_env, component_name_label, load_test_label, role_label,
  run_container_name, workspace_mount_path, workspace_volume_name,
}
use grpc_test_infra.Config.Images.{Defaults}
use grpc_test_infra.Api.{Clone, Build, Run, LoadTest}
use grpc_test_infra.Kube.{EnvVar, VolumeMount, Container, Volume, Pod, new_status}

pub record PodBuilder : Type 0 where
  pub test : LoadTest
  pub defaults : Defaults
  pub name : String
  pub role : String
  pub pool : String
  pub clone : Option Clone
  pub build : Option Build
  pub run : Run

abbrev nil_run : Run
nil_run = record { image = none; command = []; args = []; env = []; volume_mounts = [] }

-- `New`: every other field has its zero value. A nil `run` stands as an empty one, since each method
-- sets it before it is read.
unfoldable pub new : Defaults → LoadTest → PodBuilder
new defaults test = record {
  test = test;
  defaults = defaults;
  name = "";
  role = "";
  pool = "";
  clone = none;
  build = none;
  run = nil_run;
}

abbrev pub safe_str_unwrap : Option String → String
safe_str_unwrap = get_or ""

abbrev pub workspace_mount : VolumeMount
workspace_mount = record {
  name = workspace_volume_name;
  mount_path = workspace_mount_path;
  read_only = false;
}

abbrev pub bazel_cache_mount : VolumeMount
bazel_cache_mount = record {
  name = bazel_cache_volume_name;
  mount_path = bazel_cache_mount_path;
  read_only = false;
}

abbrev env_if_set : String → Option String → List EnvVar
env_if_set name none = []
env_if_set name (some value) = record { name = name; value = value } ∷ []

abbrev pub clone_container : Clone → Container
clone_container clone = record {
  name = clone_init_container_name;
  image = safe_str_unwrap clone.image;
  command = [];
  args = [];
  env = env_if_set clone_repo_env clone.repo ++ env_if_set clone_git_ref_env clone.git_ref;
  ports = [];
  working_dir = "";
  volume_mounts = workspace_mount ∷ [];
}

abbrev pub build_container : Build → Container
build_container build = record {
  name = build_init_container_name;
  image = safe_str_unwrap build.image;
  command = build.command;
  args = build.args;
  env = build.env;
  ports = [];
  working_dir = workspace_mount_path;
  volume_mounts = workspace_mount ∷ bazel_cache_mount ∷ [];
}

abbrev pub clone_containers : Option Clone → List Container
clone_containers none = []
clone_containers (some clone) = clone_container clone ∷ []

abbrev pub build_containers : Option Build → List Container
build_containers none = []
build_containers (some build) = build_container build ∷ []

abbrev pub run_container : Run → Container
run_container run = record {
  name = run_container_name;
  image = safe_str_unwrap run.image;
  command = run.command;
  args = run.args;
  env = run.env;
  ports = [];
  working_dir = workspace_mount_path;
  volume_mounts = workspace_mount ∷ bazel_cache_mount ∷ [];
}

abbrev pub plain_volume : String → Volume
plain_volume name = record { name = name; config_map = none }

unfoldable pub new_pod : PodBuilder → Pod
new_pod pb = record {
  name = cat_all (pb.test.name ∷ "-" ∷ pb.role ∷ "-" ∷ pb.name ∷ []);
  namespace = pb.test.namespace;
  labels =
      (load_test_label, pb.test.name)
      ∷ (role_label, pb.role)
      ∷ (component_name_label, pb.name)
      ∷ [];
  spec = record {
    init_containers = clone_containers pb.clone ++ build_containers pb.build;
    containers = run_container pb.run ∷ [];
    volumes = plain_volume workspace_volume_name ∷ plain_volume bazel_cache_volume_name ∷ [];
    node_selector = [];
    restart_policy = "Never";
    anti_affinity =
        record {
          key = load_test_label;
          operator = "Exists";
          topology_key = "kubernetes.io/hostname";
        }
        ∷ [];
  };
  status = new_status;
}
