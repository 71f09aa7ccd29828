-- ===== src/Controller/Prepare.antt =====
-- `Reconcile` up to the update of the status: the load test, its defaults, its scenarios and status.
use native.Mathlib.Decide.{ℕ_discrete}
use mathlib.Core.Logic.{ite}
use grpc_test_infra.Base.{
  ◌+◌, ◌*◌, String, Bool, true, false, Option, none, some, List, [], ◌∷◌, Message, plain,
  fill_error, deref, leb,
}
use grpc_test_infra.Base.Text.{String-discrete}
use grpc_test_infra.Config.Images.{Defaults}
use grpc_test_infra.Config.Defaults.{set_load_test_defaults}
use grpc_test_infra.Api.{
  LoadTest, LoadTestState, is_terminated, unknown, errored, failed_setting_defaults_error,
  kubernetes_error,
}
use grpc_test_infra.Kube.{ConfigMap, Pod}
use grpc_test_infra.Status.LoadTest.{second, pods_for_load_test, for_load_test}
use grpc_test_infra.Controller.Cluster.{
  ApiError, not_found, conflict, already_exists, other_error, Reply, granted, denied, get_load_test,
  get_config_map, list_pods, read_clock, delete_load_test, update_load_test, update_status,
  create_config_map, set_config_map_owner, Action, finished, retry, ◌>>=◌, pure, return, run_pure,
  ask, observe, write,
}

-- `req.NamespacedName`
pub record Request : Type 0 where
  pub name : String
  pub namespace : String

-- `reflect.DeepEqual` on two load tests.
pub LoadTest-discrete : Discrete LoadTest
LoadTest-discrete = hlevel (ℕ_discrete, String-discrete)

abbrev pub with_error : LoadTest → LoadTestState → String → Message → LoadTest
with_error test state reason message = record test {
  status = record test.status { state = state; reason = reason; message = message };
}

-- The text of an error of the API.
abbrev pub describe : ApiError → Message
describe not_found = plain "not found"
describe conflict = plain "conflict"
describe already_exists = plain "already exists"
describe (other_error m) = m

-- A test that is gone needs nothing.
unfoldable pub with_test : Reply LoadTest → Action LoadTest
with_test (granted test) = pure test
with_test (denied not_found) = return finished
with_test (denied e) = return (retry e)

unfoldable pub fetch_test : Action LoadTest
unfolding with_test
fetch_test = do reply ← ask get_load_test (λ k h. k.load_test h); with_test reply

unfoldable pub return_error : Option ApiError → Action (Unit {0})
return_error none = return finished
return_error (some e) = return (retry e)

unfoldable pub delete_if : Bool → LoadTest → Action (Unit {0})
unfolding return_error
delete_if true test = do refused ← write (delete_load_test test); return_error refused
delete_if false test = return finished

unfoldable pub expire_if : Bool → LoadTest → Action (Unit {0})
unfolding delete_if
expire_if true test = do
  now ← ask read_clock (λ k h. k.now h)
  start ← run_pure (deref test.status.start_time)
  delete_if (leb (start + test.spec.ttl_seconds * second) now) test
expire_if false test = pure tt

-- A terminated test is deleted when its time to live is over, and left alone before that.
unfoldable pub expire : LoadTest → Action (Unit {0})
unfolding expire_if
expire test = expire_if (is_terminated test.status.state) test

unfoldable pub go_on_unless : Option ApiError → LoadTest → Action LoadTest
go_on_unless none test = pure test
go_on_unless (some e) test = return (retry e)

unfoldable pub store_defaults : LoadTest → LoadTest → Option Message → Action LoadTest
unfolding go_on_unless
store_defaults raw test (some e) = do
  refused ← write (
      update_status (
        with_error test errored failed_setting_defaults_error
          (fill_error (plain "failed to reconcile tests with defaults: %v") e)))
  return finished
store_defaults raw test none =
    ite (LoadTest-discrete raw test) (pure test)
      (do refused ← write (update_load_test test); go_on_unless refused test)

unfoldable pub apply_defaults : Defaults → LoadTest → Action LoadTest
unfolding store_defaults
apply_defaults defaults raw = do
  fresh ← observe (λ k h. k.fresh h)
  store_defaults raw (set_load_test_defaults fresh defaults raw).0
      (set_load_test_defaults fresh defaults raw).1

abbrev scenarios_of : Request → LoadTest → ConfigMap
scenarios_of req test = record {
  name = req.name;
  namespace = req.namespace;
  contents = ("scenarios.json", test.spec.scenarios_json) ∷ [];
}

-- The status that tells of an error of the API, written before a retry.
unfoldable pub retry_with_status : LoadTest → String → ApiError → Action (Unit {0})
retry_with_status test format e = do
  refused ← write (
      update_status
        (with_error test unknown kubernetes_error (fill_error (plain format) (describe e))))
  return (retry e)

unfoldable pub retry_if : Option ApiError → Action (Unit {0})
retry_if none = pure tt
retry_if (some e) = return (retry e)

unfoldable pub create_scenarios : LoadTest → ConfigMap → Option ApiError → Action (Unit {0})
unfolding retry_with_status retry_if
create_scenarios test map (some e) =
    retry_with_status test
      "kubernetes error (retrying): could not setup garbage collection for scenarios ConfigMap: %v"
      e
create_scenarios test map none = do refused ← write (create_config_map map); retry_if refused

unfoldable pub with_config_map : Request → LoadTest → Reply ConfigMap → Action (Unit {0})
unfolding create_scenarios
with_config_map req test (granted map) = pure tt
with_config_map req test (denied not_found) = do
  unowned ← write (set_config_map_owner (scenarios_of req test))
  create_scenarios test (scenarios_of req test) unowned
with_config_map req test (denied e) =
    retry_with_status test "kubernetes error (retrying): failed to get scenarios ConfigMap: %v" e

unfoldable pub ensure_config_map : Request → LoadTest → Action (Unit {0})
unfolding with_config_map
ensure_config_map req test = do
  reply ← ask get_config_map (λ k h. k.config_map h)
  with_config_map req test reply

-- A listing, or a return that asks for a retry.
unfoldable pub granted_or_retry {ℓ} : {A : Type ℓ} → Reply A → Action A
granted_or_retry (granted a) = pure a
granted_or_retry (denied e) = return (retry e)

unfoldable pub after_status : LoadTest → Option ApiError → Action LoadTest
after_status test none = pure test
after_status test (some conflict) = return finished
after_status test (some e) = return (retry e)

-- The test with its new status, once that is stored. A conflict is no error: another round has
-- stored the status already.
unfoldable pub refresh_status : LoadTest → Action (LoadTest × List Pod)
unfolding after_status
refresh_status test = do
  pods ← ask list_pods (λ k h. k.pods h) >>= granted_or_retry
  let owned = pods_for_load_test (some test) pods
  readings ← observe (λ k h. k.readings h)
  status ← run_pure (for_load_test readings test owned)
  refused ← write (update_status (record test { status = status }))
  updated ← after_status (record test { status = status }) refused
  pure (updated, owned)
