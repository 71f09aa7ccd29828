-- ===== src/PodBuilder/Worker.antt =====
-- `PodForClient`, `PodForServer` and `PodForDriver`: each returns the builder that it has changed.
use grpc_test_infra.Base.{
  String, true, Option, none, some, List, [], ◌∷◌, ◌++◌, Outcome, returns, ◌>>=◌, deref, Message,
  plain, fill_text, wrap, Result, ok, err, ◌==◌, if◌then◌else◌,
}
use grpc_test_infra.Base.Text.{cat_all, decimal}
use grpc_test_infra.Base.Dict.{Dict}
use grpc_test_infra.Config.Constants.{
  big_query_table_env, client_role, driver_port, driver_role, run_container_name,
  scenarios_file_env, scenarios_mount_path, server_role,
}
use grpc_test_infra.Config.Images.{Defaults, PoolLabelMap}
use grpc_test_infra.Api.{Component, Client, Driver, Server, Results, LoadTest}
use grpc_test_infra.Kube.{EnvVar, Container, PodSpec, Pod}
use grpc_test_infra.KubeHelpers.{container_for_name, write_container}
use grpc_test_infra.PodBuilder.Base.{PodBuilder, safe_str_unwrap, new_pod}
use grpc_test_infra.PodBuilder.Ready.{add_ready_init_container}

-- The assignments to the builder at the start of each method.
unfoldable pub prepare : PodBuilder → String → Component → PodBuilder
prepare pb role c = record pb {
  name = safe_str_unwrap c.name;
  role = role;
  pool = safe_str_unwrap c.pool;
  clone = c.clone;
  build = c.build;
  run = c.run;
}

abbrev default_selector : String → Option (Dict String)
default_selector label = if label == "" then none else some ((label, "true") ∷ [])

-- The node selector of a pod, or nothing where no pool is known.
unfoldable pub node_selector :
    (PoolLabelMap → String) → Option PoolLabelMap → Option String → Option (Dict String)
node_selector label labels (some pool) = some (("pool", pool) ∷ [])
node_selector label none none = none
node_selector label (some labels) none = default_selector (label labels)

abbrev pub with_selector : Pod → Dict String → Pod
with_selector pod selector = record pod { spec = record pod.spec { node_selector = selector } }

-- `fmt.Sprintf("--driver_port=%d", config.DriverPort)` and the container's port.
unfoldable pub expose_driver_port : Container → Container
unfolding decimal
expose_driver_port c = record c {
  args = c.args ++ cat_all ("--driver_port=" ∷ decimal driver_port ∷ []) ∷ [];
  ports =
      c.ports ++ record { name = "driver"; protocol = "TCP"; container_port = driver_port } ∷ [];
}

unfoldable pub expose_run_container : Pod → Outcome Pod
unfolding container_for_name write_container expose_driver_port
expose_run_container pod =
    deref (container_for_name run_container_name pod.spec.containers) >>= λ c. returns (record pod {
      spec = record pod.spec {
        containers = write_container run_container_name (expose_driver_port c) pod.spec.containers;
      };
    })

unfoldable pub finish_worker : Message → Pod → Option (Dict String) → Outcome (Result Pod)
unfolding expose_run_container
finish_worker failure pod none = returns (err (wrap failure (plain "pool is missing")))
finish_worker failure pod (some selector) =
    expose_run_container (with_selector pod selector) >>= λ built. returns (ok built)

unfoldable pub pod_for_client : PodBuilder → Client → PodBuilder × Outcome (Result Pod)
unfolding prepare node_selector finish_worker
pod_for_client given client =
    let pb = prepare given client_role client in
    (
      pb,
      finish_worker
          (fill_text (plain "could not determine pool for client %q (no explicit value or default)")
            pb.name)
          (new_pod pb)
          (node_selector (λ labels. labels.client) pb.defaults.default_pool_labels client.pool),
    )

unfoldable pub pod_for_server : PodBuilder → Server → PodBuilder × Outcome (Result Pod)
unfolding prepare node_selector finish_worker
pod_for_server given server =
    let pb = prepare given server_role server in
    (
      pb,
      finish_worker
          (fill_text (plain "could not determine pool for server %q (no explicit value or default)")
            pb.name)
          (new_pod pb)
          (node_selector (λ labels. labels.server) pb.defaults.default_pool_labels server.pool),
    )

abbrev pub results_env : Option Results → List EnvVar
results_env none = []
results_env (some results) = elim results.big_query_table [
  | none ↦ []
  | some table ↦ record { name = big_query_table_env; value = table } ∷ []
]

-- What `PodForDriver` adds behind the ready container: the scenarios, and the results table.
abbrev pub add_scenarios : LoadTest → PodSpec × Container → PodSpec
add_scenarios test (spec, c) =
    let run = record c {
      volume_mounts =
          c.volume_mounts
          ++ record { name = "scenarios"; mount_path = scenarios_mount_path; read_only = true }
            ∷ [];
      env =
          (c.env
            ++ record { name = scenarios_file_env; value = "/src/scenarios/scenarios.json" } ∷ [])
          ++ results_env test.spec.results;
    } in
    record spec {
      volumes = spec.volumes ++ record { name = "scenarios"; config_map = some test.name } ∷ [];
      containers = write_container run_container_name run spec.containers;
    }

unfoldable pub finish_driver :
    Defaults → LoadTest → Pod → Option (Dict String) → Outcome (Result Pod)
unfolding container_for_name write_container add_ready_init_container
finish_driver defaults test pod none = returns (
    err (
      wrap (plain "could not determine pool for driver (no explicit value or default)")
        (plain "pool is missing")))
finish_driver defaults test pod (some selector) = do
  let placed = with_selector pod selector
  c ← deref (container_for_name run_container_name placed.spec.containers)
  added ← add_ready_init_container (some defaults) test placed.spec c
  returns (ok (record placed { spec = add_scenarios test added }))

unfoldable pub pod_for_driver : PodBuilder → Driver → PodBuilder × Outcome (Result Pod)
unfolding prepare node_selector finish_driver
pod_for_driver given driver =
    let pb = prepare given driver_role driver in
    (
      pb,
      finish_driver pb.defaults pb.test (new_pod pb)
          (node_selector (λ labels. labels.driver) pb.defaults.default_pool_labels driver.pool),
    )
