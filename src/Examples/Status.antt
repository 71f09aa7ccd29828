-- ===== src/Examples/Status.antt =====
-- The verdict on pods and the status of the test at concrete inputs.
use grpc_test_infra.Base.{
  ◌≤◌, false, some, List, [], ◌∷◌, returns, panics, ◌≡◌, refl, ◌↔◌, length, All,
}
use grpc_test_infra.Config.Constants.{driver_role, server_role, client_role}
use grpc_test_infra.Base.Dict.{lookup}
use grpc_test_infra.Api.{LoadTestStatus, running, empty_status}
use grpc_test_infra.Kube.{ContainerStatus, PodStatus, Pod}
use grpc_test_infra.Status.Container.{
  state_for_container_status, state_for_pod_status, errored_verdict,
}
use grpc_test_infra.Status.PodVerdict.{
  pod_verdict, culprit, IsCrashLooping, state_for_pod_status-eq-verdict,
  state_for_pod_status_panics,
}
use grpc_test_infra.Base.{ℕ, ◌*◌, none}
use grpc_test_infra.Base.Int.{ℤ, pos}
use grpc_test_infra.Status.LoadTest.{second, Readings, for_load_test, scan_pods}
use grpc_test_infra.Controller.Reconcile.{get_requeue_time}
use grpc_test_infra.Controller.Reconcile.Wakes.{left_to_live, get_requeue_time-refreshed}
use grpc_test_infra.Status.Health.{required_pods, timed_out}
use grpc_test_infra.Status.Consistent.{IsConsistent, for_load_test-IsConsistent}
use grpc_test_infra.Status.Running.{IsUndecided, for_load_test_running}
use grpc_test_infra.Examples.Fixtures.{test, exited, waiting, active, status_of, pod_of}

abbrev crashing : PodStatus
crashing = status_of (exited "a" 0 ∷ waiting "b" "CrashLoopBackOff" ∷ [])

crashing_panics : state_for_pod_status crashing ≡ panics
unfolding state_for_pod_status state_for_container_status errored_verdict
crashing_panics = refl

state_for_pod_status-eq-verdict_example : state_for_pod_status crashing ≡ pod_verdict crashing
state_for_pod_status-eq-verdict_example = state_for_pod_status-eq-verdict crashing

state_for_pod_status_panics_example :
    (state_for_pod_status crashing ≡ panics)
    ↔ ((c : ContainerStatus) × (culprit crashing ≡ some c) × IsCrashLooping c)
state_for_pod_status_panics_example = state_for_pod_status_panics crashing

abbrev clock : Readings
clock = record { start = 5000000000; check = 5000000001; stop = 5000000002 }

abbrev all_running : List Pod
all_running =
    pod_of driver_role "d" (active "run" ∷ [])
    ∷ pod_of server_role "s" (active "run" ∷ [])
    ∷ pod_of client_role "a" (exited "run" 0 ∷ [])
    ∷ pod_of client_role "b" (active "run" ∷ [])
    ∷ []

abbrev running_status : LoadTestStatus
running_status = record empty_status { state = running; start_time = some 5000000000 }

runs : for_load_test clock test all_running ≡ returns running_status
unfolding for_load_test scan_pods state_for_pod_status state_for_container_status lookup
runs = refl

for_load_test-IsConsistent_example : IsConsistent clock test running_status
for_load_test-IsConsistent_example =
    for_load_test-IsConsistent clock test all_running running_status runs

for_load_test_running_example :
    (timed_out clock test ≡ false)
    × All IsUndecided all_running
    × (required_pods test ≤ length all_running)
for_load_test_running_example =
    for_load_test_running clock test all_running running_status runs refl

get_requeue_time-refreshed_example :
    (d : ℤ) × (get_requeue_time (record test { status = running_status }) test.status ≡ returns d)
    × (test.status.start_time ≡ none → d ≡ pos (test.spec.timeout_seconds * second))
    × ((start stop : ℕ)
        → test.status.start_time ≡ some start
        → test.status.stop_time ≡ none
        → running_status.stop_time ≡ some stop
        → d ≡ left_to_live test start stop)
get_requeue_time-refreshed_example =
    get_requeue_time-refreshed clock test all_running running_status runs
