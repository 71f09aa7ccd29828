-- ===== src/Controller/Schedule.antt =====
-- The gang scheduling of `Reconcile`: the check of the pools, then one pod for each missing component.
use grpc_test_infra.Base.{
  ℕ, ◌+◌, ◌*◌, String, Bool, true, false, Option, none, some, List, [], ◌∷◌, Message, plain,
  fill_text, fill_number, fill_error, Outcome, Result, ok, err, get_or,
}
use grpc_test_infra.Base.Int.{pos}
use grpc_test_infra.Base.Dict.{insert}
use grpc_test_infra.Config.Constants.{pool_label}
use grpc_test_infra.Config.Images.{Defaults}
use grpc_test_infra.Api.{
  Component, LoadTest, errored, configuration_error, kubernetes_error, pool_error,
}
use grpc_test_infra.Kube.{Pod, Node}
use grpc_test_infra.PodBuilder.{PodBuilder}
use grpc_test_infra.PodBuilder.Base.{new}
use grpc_test_infra.PodBuilder.Worker.{pod_for_client, pod_for_server, pod_for_driver}
use grpc_test_infra.Status.LoadTest.{second, pods_for_load_test}
use grpc_test_infra.Status.Missing.{LoadTestMissing, check_missing_pods, is_empty}
use grpc_test_infra.Controller.Cluster.{
  ApiError, already_exists, other_error, list_nodes, list_pods, wait_for_cache_sync, update_status,
  set_pod_owner, create_pod, Action, finished, retry, after, ◌>>=◌, ◌>>◌, pure, return, run_pure,
  ask, observe, write,
}
use grpc_test_infra.Controller.Pools.{
  DefaultPools, Fit, fits, no_pool, too_few, capacities, availabilities, adjust_all, check_pools,
}
use grpc_test_infra.Controller.Prepare.{with_error, describe, granted_or_retry}

-- `pod.Labels[config.PoolLabel] = …`
abbrev pub label_pool : String → Option String → Pod → Pod
label_pool default_pool pool pod = record pod {
  labels = insert pool_label (get_or default_pool pool) pod.labels;
}

unfoldable pub create_if_owned : Pod → Option ApiError → Action (Option ApiError)
create_if_owned pod none = write (create_pod pod)
create_if_owned pod (some e) = pure (some e)

-- `createPod`: the error of the owner's reference or of the creation.
unfoldable pub create_owned : Pod → Action (Option ApiError)
unfolding create_if_owned
create_owned pod = do unowned ← write (set_pod_owner pod); create_if_owned pod unowned

-- The loop goes on when the pod exists already.
unfoldable pub after_create : LoadTest → Message → Option ApiError → Action (Unit {0})
after_create test format none = pure tt
after_create test format (some already_exists) = pure tt
after_create test format (some e) = do
  refused ←
      write
        (update_status (with_error test errored kubernetes_error (fill_error format (describe e))))
  return (retry e)

-- What a component's role decides in its loop.
pub record Loop : Type 0 where
  pub build : PodBuilder → Component → PodBuilder × Outcome (Result Pod)
  pub default_pool : String
  pub not_built : ℕ → Message
  pub not_created : ℕ → Message

unfoldable pub place : Loop → LoadTest → ℕ → Component → Result Pod → Action (Unit {0})
unfolding after_create
place loop test i c (err e) = do
  refused ← write (
      update_status (with_error test errored configuration_error (fill_error (loop.not_built i) e)))
  return finished
place loop test i c (ok pod) = do
  refused ← create_owned (label_pool loop.default_pool c.pool pod)
  after_create test (loop.not_created i) refused

-- One round of a loop, which leaves the builder as the method of the role did.
unfoldable pub schedule_one : Loop → LoadTest → ℕ → Component → PodBuilder → Action PodBuilder
unfolding place
schedule_one loop test i c builder = do
  built ← run_pure (loop.build builder c).1
  place loop test i c built >> pure (loop.build builder c).0

unfoldable pub schedule_each : Loop → LoadTest → ℕ → List Component → PodBuilder → Action PodBuilder
schedule_each loop test i [] builder = pure builder
schedule_each loop test i (c ∷ cs) builder =
    schedule_one loop test i c builder >>= schedule_each loop test (i + 1) cs

abbrev pub server_loop : DefaultPools → Loop
server_loop pools = record {
  build = pod_for_server;
  default_pool = pools.server;
  not_built =
      λ i. fill_number (plain "failed to construct a pod for server at index %d: %v") (pos i);
  not_created = λ i. fill_number (plain "failed to create pod for server at index %d: %v") (pos i);
}

abbrev pub client_loop : DefaultPools → Loop
client_loop pools = record {
  build = pod_for_client;
  default_pool = pools.client;
  not_built =
      λ i. fill_number (plain "failed to construct a pod for client at index %d: %v") (pos i);
  not_created = λ i. fill_number (plain "failed to create pod for client at index %d: %v") (pos i);
}

abbrev pub driver_loop : DefaultPools → Loop
driver_loop pools = record {
  build = pod_for_driver;
  default_pool = pools.driver;
  not_built = λ i. plain "failed to construct a pod for driver: %v";
  not_created = λ i. plain "failed to create pod for driver: %v";
}

abbrev pub if_missing : Option Component → List Component
if_missing none = []
if_missing (some c) = c ∷ []

-- The three loops: servers, clients, and the driver if it is missing.
unfoldable pub schedule_pods :
    Defaults → LoadTest → DefaultPools → LoadTestMissing → Action (Unit {0})
schedule_pods defaults test pools missing = do
  b ← schedule_each (server_loop pools) test 0 missing.servers (new defaults test)
  c ← schedule_each (client_loop pools) test 0 missing.clients b
  d ← schedule_each (driver_loop pools) test 0 (if_missing missing.driver) c
  pure tt

unfoldable pub require_fit : LoadTest → Fit → Action (Unit {0})
require_fit test fits = pure tt
require_fit test (no_pool pool) = do
  refused ← write (
      update_status (
        with_error test errored pool_error
          (fill_text (plain "requested pool %q does not exist") pool)))
  return finished
require_fit test too_few = return (after (pos (5 * second)))

abbrev err_cache_sync : ApiError
err_cache_sync = other_error (plain "failed to sync cache")

unfoldable pub require_sync : Bool → Action (Unit {0})
require_sync true = pure tt
require_sync false = return (retry err_cache_sync)

-- From the nodes and the pods on: the check of every pool, and the creation of the missing pods.
unfoldable pub gang_schedule :
    Defaults → LoadTest → List Node → List Pod → LoadTestMissing → Action (Unit {0})
unfolding require_fit
gang_schedule defaults test nodes pods missing = do
  range ← observe (λ k h. k.pool_order h)
  let found = capacities defaults.default_pool_labels nodes
  require_fit test (
        check_pools (range (adjust_all found.defaults missing.node_count_by_pool))
          (availabilities found.capacity pods))
      >> schedule_pods defaults test found.defaults missing

unfoldable pub unless : Bool → Action (Unit {0}) → Action (Unit {0})
unless true action = pure tt
unless false action = action

-- The block under `if !missingPods.IsEmpty()`.
unfoldable pub schedule_fresh : Defaults → LoadTest → Action (Unit {0})
unfolding require_sync unless
schedule_fresh defaults test = do
  synced ← ask wait_for_cache_sync (λ k h. k.synced h)
  require_sync synced
  nodes ← ask list_nodes (λ k h. k.nodes h) >>= granted_or_retry
  pods ← ask list_pods (λ k h. k.pods h) >>= granted_or_retry
  order ← observe (λ k h. k.order h)
  missing ← run_pure (check_missing_pods order test (pods_for_load_test (some test) pods))
  unless (is_empty missing) (gang_schedule defaults test nodes pods missing)

unfoldable pub schedule : Defaults → LoadTest → List Pod → Action (Unit {0})
unfolding unless
schedule defaults test owned = do
  order ← observe (λ k h. k.order h)
  missing ← run_pure (check_missing_pods order test owned)
  unless (is_empty missing) (schedule_fresh defaults test)
