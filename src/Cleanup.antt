-- ===== src/Cleanup.antt =====
-- cleanup/cleanup.go: the agent that tells the workers of a terminated test to quit.
pub mod Quits
pub mod Completes
use grpc_test_infra.Base.{
  String, Bool, true, false, Option, none, some, panics, List, [], ◌∷◌, ◌==◌, if◌then◌else◌,
}
use grpc_test_infra.Base.Int.{pos}
use grpc_test_infra.Base.Dict.{lookup_or}
use grpc_test_infra.Config.Constants.{role_label, driver_role}
use grpc_test_infra.Api.{LoadTest, is_terminated}
use grpc_test_infra.Kube.{Pod}
use grpc_test_infra.Status.Container.{Verdict, is_pending, state_for_pod_status}
use grpc_test_infra.Status.LoadTest.{pods_for_load_test}
use grpc_test_infra.Controller.Cluster.{
  ApiError, not_found, Reply, granted, denied, get_load_test, list_pods, dial_worker, quit_worker,
  Reconciled, finished, Action, ◌>>=◌, ◌>>◌, pure, return, run_pure, ask, write,
}
use grpc_test_infra.Controller.Prepare.{granted_or_retry}

-- `ctrl.Result{}` with an error.
abbrev pub give_up : ApiError → Reconciled
give_up e = record { requeue = false; requeue_after = pos 0; error = some e }

-- A test that is gone has nothing to clean up.
unfoldable pub with_fetched : Reply LoadTest → Action LoadTest
with_fetched (granted test) = pure test
with_fetched (denied not_found) = return finished
with_fetched (denied e) = return (give_up e)

unfoldable pub require_terminated : Bool → Action (Unit {0})
require_terminated true = pure tt
require_terminated false = return finished

-- `callQuit` behind the dial. Where it failed there is no connection, and the deferred `Close` of a nil
-- connection panics; an error of the RPC is logged, and changes nothing.
unfoldable pub quit_dialled : Option ApiError → Pod → Action (Unit {0})
quit_dialled (some e) pod = run_pure panics
quit_dialled none pod = do refused ← write (quit_worker pod); pure tt

unfoldable pub call_quit : Pod → Action (Unit {0})
unfolding quit_dialled
call_quit pod = do undialled ← write (dial_worker pod); quit_dialled undialled pod

unfoldable pub quit_if : Bool → Pod → Action (Unit {0})
unfolding call_quit
quit_if false pod = pure tt
quit_if true pod = call_quit pod

unfoldable pub quit_unless_driver : Bool → Pod → Action (Unit {0})
unfolding quit_if
quit_unless_driver true pod = pure tt
quit_unless_driver false pod = do
  verdict ← run_pure (state_for_pod_status pod.status)
  quit_if (is_pending verdict.state) pod

abbrev pub is_driver : Pod → Bool
is_driver pod = lookup_or "" role_label pod.labels == driver_role

unfoldable pub quit_workers : List Pod → Action (Unit {0})
unfolding quit_unless_driver
quit_workers [] = pure tt
quit_workers (pod ∷ pods) = quit_unless_driver (is_driver pod) pod >> quit_workers pods

-- `Agent.Reconcile`
unfoldable pub reconcile_agent : Action (Unit {0})
unfolding with_fetched require_terminated
reconcile_agent = do
  reply ← ask get_load_test (λ k h. k.load_test h)
  test ← with_fetched reply
  require_terminated (is_terminated test.status.state)
  pods ← ask list_pods (λ k h. k.pods h) >>= granted_or_retry
  quit_workers (pods_for_load_test (some test) pods)
  return finished
