-- ===== src/Examples/Cleanup.antt =====
-- A terminated test with two workers and the driver still there.
use grpc_test_infra.Base.{List, [], ◌∷◌, refl, All}
use grpc_test_infra.Kube.{Pod}
use grpc_test_infra.Status.Container.{state_for_pod_status, state_for_container_status}
use grpc_test_infra.Cleanup.{reconcile_agent, quit_workers}
use grpc_test_infra.Cleanup.Quits.{MayCall, reconcile_agent-MayCall}
use grpc_test_infra.Cleanup.Completes.{RunsOr, DialFailed, IsReadable, IsQuit, quit_workers-IsQuit}
use grpc_test_infra.Examples.Fixtures.{active, exited, pod_of}
use grpc_test_infra.Examples.Controller.{cluster_with}
use grpc_test_infra.Examples.Gang.{done}

abbrev pods : List Pod
pods =
    pod_of "client" "a" (active "run" ∷ [])
    ∷ pod_of "server" "s" (exited "run" 0 ∷ [])
    ∷ pod_of "driver" "d" (exited "run" 0 ∷ [])
    ∷ []

reconcile_agent-MayCall_example :
    All (MayCall (cluster_with done pods)) (reconcile_agent (cluster_with done pods) []).1
reconcile_agent-MayCall_example = reconcile_agent-MayCall (cluster_with done pods)

pods-IsReadable : All IsReadable pods
unfolding state_for_pod_status state_for_container_status
pods-IsReadable = (λ e. (_, refl), (λ e. (_, refl), (λ e. (_, refl), tt)))

quit_workers-IsQuit_example :
    RunsOr
      (cluster_with done pods)
      (quit_workers pods)
      []
      (λ after. All (IsQuit after) pods)
      (DialFailed (cluster_with done pods) pods)
quit_workers-IsQuit_example = quit_workers-IsQuit (cluster_with done pods) pods [] pods-IsReadable
