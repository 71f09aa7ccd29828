-- ===== src/Config/Constants.antt =====
-- config/constants.go: the names of labels, roles, containers, volumes and variables.
use Prim.Native.Nat.{ℕ}
use Prim.Native.String.{String}

abbrev pub bazel_cache_volume_name : String
bazel_cache_volume_name = "bazel-cache"

abbrev pub bazel_cache_mount_path : String
bazel_cache_mount_path = "/root/.cache/bazel"

abbrev pub big_query_table_env : String
big_query_table_env = "BQ_RESULT_TABLE"

abbrev pub build_init_container_name : String
build_init_container_name = "build"

abbrev pub client_role : String
client_role = "client"

abbrev pub clone_git_ref_env : String
clone_git_ref_env = "CLONE_GIT_REF"

abbrev pub clone_init_container_name : String
clone_init_container_name = "clone"

abbrev pub clone_repo_env : String
clone_repo_env = "CLONE_REPO"

abbrev pub component_name_label : String
component_name_label = "loadtest-component"

abbrev pub driver_role : String
driver_role = "driver"

abbrev pub driver_port : ℕ
driver_port = 10000

abbrev pub load_test_label : String
load_test_label = "loadtest"

abbrev pub pool_label : String
pool_label = "pool"

abbrev pub ready_init_container_name : String
ready_init_container_name = "ready"

abbrev pub ready_mount_path : String
ready_mount_path = "/var/data/qps_workers"

-- `ReadyMountPath + "/addresses"`
abbrev pub ready_output_file : String
ready_output_file = "/var/data/qps_workers/addresses"

abbrev pub ready_volume_name : String
ready_volume_name = "worker-addresses"

abbrev pub role_label : String
role_label = "loadtest-role"

abbrev pub run_container_name : String
run_container_name = "run"

abbrev pub scenarios_file_env : String
scenarios_file_env = "SCENARIOS_FILE"

abbrev pub scenarios_mount_path : String
scenarios_mount_path = "/src/scenarios"

abbrev pub server_role : String
server_role = "server"

abbrev pub workspace_mount_path : String
workspace_mount_path = "/src/workspace"

abbrev pub workspace_volume_name : String
workspace_volume_name = "workspace"
