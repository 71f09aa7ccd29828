-- ===== src/Examples/Fixtures.antt =====
-- A load test with one server and two clients, its defaults and some pods.
use grpc_test_infra.Base.{ℕ, String, Option, none, some, List, [], ◌∷◌, true, false}
use grpc_test_infra.Base.Int.{pos}
use grpc_test_infra.Config.Images.{Defaults}
use grpc_test_infra.Api.{Run, Component, LoadTest, LoadTestSpec, empty_status}
use grpc_test_infra.Kube.{ContainerStatus, PodStatus, Pod, PodSpec, pod_running}

abbrev pub go_run : Run
go_run = record { image = some "go-run"; command = []; args = []; env = []; volume_mounts = [] }

abbrev pub worker : String → Option String → Component
worker name pool = record {
  name = some name;
  language = "go";
  pool = pool;
  clone = none;
  build = none;
  run = go_run;
}

-- A client as a user writes it: no name and no images.
abbrev pub bare_client : Component
bare_client = record {
  name = none;
  language = "go";
  pool = none;
  clone = some (record { image = none; repo = some "repo"; git_ref = none });
  build = some (record { image = none; command = []; args = []; env = [] });
  run = record { image = none; command = []; args = []; env = []; volume_mounts = [] };
}

abbrev pub spec_of : Option Component → List Component → List Component → LoadTestSpec
spec_of driver servers clients = record {
  driver = driver;
  servers = servers;
  clients = clients;
  results = none;
  scenarios_json = "{}";
  timeout_seconds = 300;
  ttl_seconds = 600;
}

abbrev pub test_of : LoadTestSpec → LoadTest
test_of spec = record {
  name = "t";
  namespace = "ns";
  labels = [];
  annotations = [];
  spec = spec;
  status = empty_status;
}

abbrev pub driver : Component
driver = worker "d" (some "drivers")

abbrev pub server : Component
server = worker "s" (some "workers")

abbrev pub client_a : Component
client_a = worker "a" (some "workers")

abbrev pub client_b : Component
client_b = worker "b" none

abbrev pub test : LoadTest
test = test_of (spec_of (some driver) (server ∷ []) (client_a ∷ client_b ∷ []))

abbrev pub bare_test : LoadTest
bare_test = test_of (spec_of none [] (bare_client ∷ []))

abbrev pub defaults : Defaults
defaults = record {
  component_namespace = "default";
  default_pool_labels = some (record { client = "dc"; driver = "dd"; server = "ds" });
  clone_image = "clone-image";
  ready_image = "ready-image";
  driver_image = "driver-image";
  languages =
      record { language = "go"; build_image = "go-build"; run_image = "go-run" }
      ∷ record { language = "cxx"; build_image = "cxx-build"; run_image = "cxx-run" }
      ∷ [];
}

abbrev pub exited : String → ℕ → ContainerStatus
exited name code = record {
  name = name;
  ready = false;
  state = record { terminated = some (pos code); waiting = none };
}

abbrev pub waiting : String → String → ContainerStatus
waiting name reason = record {
  name = name;
  ready = false;
  state = record { terminated = none; waiting = some reason };
}

abbrev pub active : String → ContainerStatus
active name = record {
  name = name;
  ready = true;
  state = record { terminated = none; waiting = none };
}

abbrev pub status_of : List ContainerStatus → PodStatus
status_of containers = record {
  phase = pod_running;
  pod_ip = "10.0.0.1";
  init_container_statuses = [];
  container_statuses = containers;
}

abbrev pub empty_spec : PodSpec
empty_spec = record {
  init_containers = [];
  containers = [];
  volumes = [];
  node_selector = [];
  restart_policy = "Never";
  anti_affinity = [];
}

abbrev pub pod_of : String → String → List ContainerStatus → Pod
pod_of role name containers = record {
  name = name;
  namespace = "ns";
  labels =
      ("loadtest", "t")
      ∷ ("loadtest-role", role)
      ∷ ("loadtest-component", name)
      ∷ ("pool", "workers")
      ∷ [];
  spec = empty_spec;
  status = status_of containers;
}
