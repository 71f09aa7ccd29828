-- ===== src/Status/Container.antt =====
-- status/status.go: the state of a container and of a pod.
use grpc_test_infra.Base.{
  zero, String, Bool, true, false, ◌&&◌, ◌||◌, not, Option, none, some, List, [], ◌∷◌, Outcome,
  returns, ◌>>=◌, deref, Message, plain, fill_text, fill_number, ◌==◌, if◌then◌else◌,
}
use grpc_test_infra.Base.Int.{ℤ, pos}
use grpc_test_infra.Api.{init_container_error, container_error}
use grpc_test_infra.Kube.{ContainerStatus, PodStatus}

pub data State : Type 0 where
  pending succeeded errored : State

abbrev pub is_pending : State → Bool
is_pending pending = true
is_pending _ = false

abbrev pub is_succeeded : State → Bool
is_succeeded succeeded = true
is_succeeded _ = false

abbrev pub is_errored : State → Bool
is_errored errored = true
is_errored _ = false

abbrev pub is_zero : ℤ → Bool
is_zero (pos zero) = true
is_zero _ = false

state_for_waiting : Option String → State × Option ℤ
state_for_waiting none = (pending, none)
state_for_waiting (some reason) =
    if "CrashLoopBackOff" == reason then (errored, none) else (pending, none)

unfoldable pub state_for_terminated : Option ℤ → Option String → State × Option ℤ
unfolding state_for_waiting
state_for_terminated (some code) waiting = (if is_zero code then succeeded else errored, some code)
state_for_terminated none waiting = state_for_waiting waiting

unfoldable pub state_for_container_status : ContainerStatus → State × Option ℤ
unfolding state_for_terminated
state_for_container_status c = state_for_terminated c.state.terminated c.state.waiting

-- The state, the reason and the message of a pod.
pub record Verdict : Type 0 where
  pub state : State
  pub reason : String
  pub message : Message

-- The early return: the message dereferences the exit code.
unfoldable pub errored_verdict : String → String → String → Option ℤ → Outcome Verdict
errored_verdict format reason name code = deref code >>= λ exit_code. returns (record {
  state = errored;
  reason = reason;
  message = fill_number (fill_text (plain format) name) exit_code;
})

-- The loop over the init containers; `rest` is what follows the loop.
unfoldable pub check_init_containers : List ContainerStatus → Outcome Verdict → Outcome Verdict
unfolding errored_verdict
check_init_containers [] rest = rest
check_init_containers (c ∷ cs) rest =
    let later = check_init_containers cs rest in
    let (state, code) = state_for_container_status c in
    if is_errored state
    then errored_verdict "init container %q terminated with exit code %d" init_container_error
        c.name code
    else later

-- The loop over the containers, with `i == 0` and the variable `podState`.
unfoldable pub check_containers : Bool → State → List ContainerStatus → Outcome Verdict
unfolding errored_verdict
check_containers first pod_state [] =
    returns (record { state = pod_state; reason = ""; message = plain "" })
check_containers first pod_state (c ∷ cs) =
    let (state, code) = state_for_container_status c in
    let replaced = first && is_pending pod_state || not (is_succeeded state) in
    let later = check_containers false (if replaced then state else pod_state) cs in
    if is_errored state
    then errored_verdict "container %q terminated with exit code %d" container_error c.name code
    else later

unfoldable pub state_for_pod_status : PodStatus → Outcome Verdict
unfolding check_init_containers check_containers
state_for_pod_status status =
    check_init_containers status.init_container_statuses
      (check_containers true pending status.container_statuses)
