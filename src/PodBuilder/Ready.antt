-- ===== src/PodBuilder/Ready.antt =====
-- The ready init container of the driver's pod: `newReadyContainer` and `addReadyInitContainer`.
use grpc_test_infra.Base.{
  String, false, Option, none, some, List, [], ◌∷◌, ◌++◌, Outcome, returns, ◌>>=◌, deref,
}
use grpc_test_infra.Base.Text.{cat_all, decimal}
use grpc_test_infra.Config.Constants.{
  client_role, component_name_label, load_test_label, ready_init_container_name, ready_mount_path,
  ready_output_file, ready_volume_name, role_label, server_role,
}
use grpc_test_infra.Config.Images.{Defaults}
use grpc_test_infra.Api.{Component, LoadTest}
use grpc_test_infra.Kube.{VolumeMount, Container, PodSpec}
use grpc_test_infra.PodBuilder.Base.{plain_volume}

-- `%s=%s,%s=%s,%s=%s`
abbrev pub selector_arg : String → String → String → String
selector_arg test role name = cat_all (
    load_test_label ∷ "=" ∷ test ∷ "," ∷ role_label ∷ "=" ∷ role ∷ "," ∷ component_name_label ∷ "="
    ∷ name ∷ [])

unfoldable pub selector_args : String → String → List Component → Outcome (List String)
selector_args test role [] = returns []
selector_args test role (c ∷ cs) = deref c.name >>= λ name.
    selector_args test role cs >>= λ args. returns (selector_arg test role name ∷ args)

abbrev pub ready_mount : VolumeMount
ready_mount = record { name = ready_volume_name; mount_path = ready_mount_path; read_only = false }

abbrev empty_container : Container
empty_container = record {
  name = "";
  image = "";
  command = [];
  args = [];
  env = [];
  ports = [];
  working_dir = "";
  volume_mounts = [];
}

abbrev pub ready_container : Defaults → LoadTest → List String → Container
ready_container defs test args = record {
  name = ready_init_container_name;
  image = defs.ready_image;
  command = "ready" ∷ [];
  args = args;
  env =
      record { name = "READY_OUTPUT_FILE"; value = ready_output_file }
      ∷ record {
        name = "READY_TIMEOUT";
        value = cat_all (decimal test.spec.timeout_seconds ∷ "s" ∷ []);
      }
      ∷ [];
  ports = [];
  working_dir = "";
  volume_mounts = ready_mount ∷ [];
}

unfoldable pub new_ready_container : Option Defaults → LoadTest → Outcome Container
new_ready_container none test = returns empty_container
new_ready_container (some defs) test = do
  server_args ← selector_args test.name server_role test.spec.servers
  client_args ← selector_args test.name client_role test.spec.clients
  returns (ready_container defs test (server_args ++ client_args))

-- What `addReadyInitContainer` appends to the pod's spec and to its run container.
abbrev pub with_ready : Container → PodSpec → PodSpec
with_ready ready spec = record spec {
  init_containers = spec.init_containers ++ ready ∷ [];
  volumes = spec.volumes ++ plain_volume ready_volume_name ∷ [];
}

abbrev pub with_workers_file : Container → Container
with_workers_file container = record container {
  env = container.env ++ record { name = "QPS_WORKERS_FILE"; value = ready_output_file } ∷ [];
  volume_mounts = container.volume_mounts ++ ready_mount ∷ [];
}

-- Both pointers are set where it is called; without defaults it changes nothing.
unfoldable pub add_ready_init_container :
    Option Defaults → LoadTest → PodSpec → Container → Outcome (PodSpec × Container)
add_ready_init_container none test spec container = returns (spec, container)
add_ready_init_container (some defs) test spec container =
    new_ready_container (some defs) test >>= λ ready.
    returns (with_ready ready spec, with_workers_file container)
