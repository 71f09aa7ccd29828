-- ===== src/Examples/Pods.antt =====
-- The pods of the sample test.
use grpc_test_infra.Base.{true, [], ◌∷◌, returns, ok, ◌≡◌, refl, inl, inr}
use grpc_test_infra.Config.Constants.{server_role, driver_role}
use grpc_test_infra.Kube.{Pod}
use grpc_test_infra.PodBuilder.Base.{PodBuilder, new, new_pod}
use grpc_test_infra.PodBuilder.Worker.{
  prepare, finish_worker, node_selector, pod_for_server, pod_for_driver,
}
use grpc_test_infra.PodBuilder.Built.{IsPodOf, worker_pod}
use grpc_test_infra.PodBuilder.Labels.{WaitsForWorkers, WorkersAreBuilt, pod_for_driver-IsPodOf}
use grpc_test_infra.PodBuilder.Mounts.{mounts_declared, pods-mounts_declared}
use grpc_test_infra.Examples.Fixtures.{test, defaults, driver, server}

abbrev builder : PodBuilder
builder = new defaults test

pod_for_driver-IsPodOf_example :
    (pod : Pod) × ((pod_for_driver builder driver).1 ≡ returns (ok pod))
    × IsPodOf builder.test driver_role "d" (("pool", "drivers") ∷ []) pod
    × WaitsForWorkers builder.test pod
    × WorkersAreBuilt builder
unfolding new node_selector
pod_for_driver-IsPodOf_example =
    pod_for_driver-IsPodOf builder driver "d" (("pool", "drivers") ∷ []) refl (refl, tt)
      (refl, (refl, tt)) refl

abbrev server_pod : Pod
server_pod = worker_pod (prepare builder server_role server) (("pool", "workers") ∷ [])

pods-mounts_declared_example : mounts_declared server_pod ≡ true
unfolding pod_for_server new node_selector finish_worker new_pod
pods-mounts_declared_example = pods-mounts_declared builder server server_pod (inr (inl refl))
