-- ===== src/Examples/Gang.antt =====
-- The creation of the pods of the sample test, its end, and a cluster without default pools.
use mathlib.Core.List.{Memᴰ}
use grpc_test_infra.Base.{
  List, Option, none, true, returns, ap, subst, some, [], ◌∷◌, ◌≡◌, ◌≢◌, refl,
}
use grpc_test_infra.Base.Int.{pos}
use grpc_test_infra.Base.Dict.{lookup, has, lookup_or, insert}
use grpc_test_infra.Api.{LoadTest, succeeded, is_terminated}
use grpc_test_infra.PodBuilder.Worker.{node_selector}
use grpc_test_infra.Status.Missing.{LoadTestMissing, check_missing_pods, is_empty}
use grpc_test_infra.Status.LoadTest.{pods_for_load_test}
use grpc_test_infra.Kube.{Pod}
use grpc_test_infra.Controller.Converges.{schedule_pods-converges}
use grpc_test_infra.Controller.Cluster.{Call, create_pod, History, goes_on}
use grpc_test_infra.Controller.Pools.{DefaultPools, no_pools, adjust_all, check_pools, fits}
use grpc_test_infra.Controller.Pools.Blocked.{check_pools_blocked}
use grpc_test_infra.Controller.Schedule.{schedule_pods}
use grpc_test_infra.Controller.Reconcile.{reconcile}
use grpc_test_infra.Controller.Gang.{IsReady, AreCreated, schedule_pods-AreCreated}
use grpc_test_infra.Controller.Terminated.{settled, reconcile-settled}
use grpc_test_infra.Examples.Fixtures.{test, defaults, driver, server, client_a, client_b}
use grpc_test_infra.Examples.Controller.{cluster_with, req}
use grpc_test_infra.Examples.Missing.{in_order, in_order-IsOrder, test-IsNamed}

abbrev missing : LoadTestMissing
missing = record {
  driver = some driver;
  servers = server ∷ [];
  clients = client_a ∷ client_b ∷ [];
  node_count_by_pool =
      ("__default_pool (clients)", 1)
      ∷ ("__default_pool (drivers)", 0)
      ∷ ("__default_pool (servers)", 0)
      ∷ ("workers", 2)
      ∷ ("drivers", 1)
      ∷ [];
}

abbrev pools : DefaultPools
pools = record { client = "workers"; driver = "drivers"; server = "workers" }

is_ready : IsReady test defaults missing
unfolding node_selector
is_ready = record {
  servers_named = (refl, tt);
  clients_named = (refl, (refl, tt));
  servers = ((refl, _, refl), tt);
  clients = ((refl, _, refl), ((refl, _, refl), tt));
  driver = ((refl, _, refl), tt);
}

schedule_pods-AreCreated_example :
    (after : History) × (schedule_pods defaults test pools missing (cluster_with test []) []
      ≡ (goes_on tt, after))
    × AreCreated test defaults missing after
schedule_pods-AreCreated_example =
    schedule_pods-AreCreated test defaults (cluster_with test []) pools missing [] (λ h call. refl)
      is_ready

-- The history of the creation, and the pods that it has created.
abbrev created : History
created =
    (schedule_pods-AreCreated test defaults (cluster_with test []) pools missing [] (λ h call. refl)
      is_ready).0

abbrev created_pod : Call → Option Pod
created_pod (create_pod pod) = some pod
created_pod _ = none

abbrev and_pods : Option Pod → List Pod → List Pod
and_pods none pods = pods
and_pods (some pod) pods = pod ∷ pods

abbrev created_pods : History → List Pod
created_pods [] = []
created_pods (call ∷ h) = and_pods (created_pod call) (created_pods h)

and_pods-Mem :
    (o : Option Pod) (pods : List Pod) (pod : Pod) → Memᴰ pod pods → Memᴰ pod (and_pods o pods)
and_pods-Mem none pods pod m = m
and_pods-Mem (some p) pods pod m = Memᴰ.tail m

created-Mem : (h : History) (pod : Pod) → Memᴰ (create_pod pod) h → Memᴰ pod (created_pods h)
created-Mem [] pod m = elim m [ ]
created-Mem (call ∷ h) pod (Memᴰ.head e) =
    subst (λ o. Memᴰ pod (and_pods o (created_pods h))) (ap created_pod e) (Memᴰ.head refl)
created-Mem (call ∷ h) pod (Memᴰ.tail m) =
    and_pods-Mem (created_pod call) (created_pods h) pod (created-Mem h pod m)

schedule_pods-converges_example :
    (m : LoadTestMissing) × (check_missing_pods in_order test
        (pods_for_load_test (some test) (created_pods created))
      ≡ returns m)
    × (is_empty m ≡ true)
unfolding check_missing_pods lookup has lookup_or insert pods_for_load_test
schedule_pods-converges_example =
    schedule_pods-converges (cluster_with test []) pools in_order in_order test defaults driver "d"
      [] (created_pods created) missing [] created (λ h call. refl) in_order-IsOrder
      in_order-IsOrder test-IsNamed refl is_ready
      ((schedule_pods-AreCreated test defaults (cluster_with test []) pools missing []
        (λ h call. refl) is_ready).1)
      (record { listed = λ pod m owned. elim m [ ]; created = created-Mem created })

abbrev pub done : LoadTest
done = record test {
  status = record test.status { state = succeeded; start_time = some 1; stop_time = some 2 };
}

reconcile-settled_example :
    reconcile req defaults (cluster_with done []) [] ≡ settled (cluster_with done []) done (some 1)
unfolding is_terminated
reconcile-settled_example = reconcile-settled req defaults (cluster_with done []) done refl refl

check_pools_blocked_example :
    check_pools
      (adjust_all no_pools missing.node_count_by_pool)
      (("workers", pos 3) ∷ ("drivers", pos 1) ∷ [])
    ≢ fits
unfolding check_missing_pods lookup has lookup_or insert
check_pools_blocked_example =
    check_pools_blocked in_order test [] missing no_pools (λ m. m)
      (("workers", pos 3) ∷ ("drivers", pos 1) ∷ []) refl refl (λ m p. refl) refl
