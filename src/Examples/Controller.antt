-- ===== src/Examples/Controller.antt =====
-- Reconciliations of the sample test in a small cluster.
use grpc_test_infra.Base.{String, true, none, List, [], ◌∷◌, All, refl}
use grpc_test_infra.Base.Dict.{Dict}
use grpc_test_infra.Api.{LoadTest}
use grpc_test_infra.Kube.{Node, Pod, ConfigMap}
use grpc_test_infra.Controller.Cluster.{Cluster, granted}
use grpc_test_infra.Controller.Prepare.{Request}
use grpc_test_infra.Controller.Reconcile.{reconcile}
use grpc_test_infra.Controller.Conduct.Whole.{EndsOrCrashes, reconcile-IsRetry}
use grpc_test_infra.Base.Dict.{lookup, has, lookup_or, insert}
use grpc_test_infra.Base.Int.{◌-ℤ◌}
use grpc_test_infra.Controller.Pools.{
  capacities, count_nodes, availabilities, take_nodes, copy, check_pools,
}
use grpc_test_infra.Controller.Pools.Availability.{IsMet, check_pools-IsMet}
use grpc_test_infra.Examples.Missing.{in_order}
use grpc_test_infra.Examples.Fixtures.{test, defaults, pod_of}

abbrev node_of : String → Dict String → Node
node_of name labels = record { name = name; labels = labels }

abbrev pub nodes : List Node
nodes =
    node_of "n1" (("pool", "drivers") ∷ ("dd", "true") ∷ [])
    ∷ node_of "n2" (("pool", "workers") ∷ ("ds", "true") ∷ ("dc", "true") ∷ [])
    ∷ node_of "n3" (("pool", "workers") ∷ [])
    ∷ node_of "n4" (("pool", "workers") ∷ [])
    ∷ []

abbrev scenarios : ConfigMap
scenarios = record { name = "t"; namespace = "ns"; contents = [] }

-- A cluster that has the test, its scenarios and the four nodes, and grants each call.
abbrev pub cluster_with : LoadTest → List Pod → Cluster
cluster_with stored pods = record {
  load_test = λ h. granted stored;
  config_map = λ h. granted scenarios;
  pods = λ h. granted pods;
  nodes = λ h. granted nodes;
  synced = λ h. true;
  refuses = λ h call. none;
  now = λ h. 5;
  readings = λ h. record { start = 5; check = 5; stop = 5 };
  fresh = λ h n. "u";
  order = λ h. in_order;
  pool_order = λ h d. d;
}

abbrev pub req : Request
req = record { name = "t"; namespace = "ns" }

reconcile-IsRetry_example : EndsOrCrashes (reconcile req defaults (cluster_with test []) []).0
reconcile-IsRetry_example = reconcile-IsRetry (cluster_with test []) defaults req

abbrev free_pod : Pod
free_pod = pod_of "client" "x" []

check_pools-IsMet_example : All (IsMet nodes (free_pod ∷ [])) (("workers", 2) ∷ ("drivers", 1) ∷ [])
unfolding capacities count_nodes availabilities take_nodes copy check_pools lookup has lookup_or
    insert ◌-ℤ◌
check_pools-IsMet_example =
    check_pools-IsMet defaults.default_pool_labels nodes (free_pod ∷ [])
      (("workers", 2) ∷ ("drivers", 1) ∷ []) refl
