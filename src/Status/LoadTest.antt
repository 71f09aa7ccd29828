-- ===== src/Status/LoadTest.antt =====
-- status/relationships.go and `ForLoadTest` of status/status.go.
use grpc_test_infra.Base.{
  ℕ, ◌+◌, ◌*◌, String, Bool, false, ◌&&◌, not, Option, none, some, List, [], ◌∷◌, Outcome, returns,
  ◌>>=◌, plain, fill_number, ◌==◌, if◌then◌else◌, leb, ltb, length, get_or,
}
use grpc_test_infra.Base.Int.{pos}
use grpc_test_infra.Base.Dict.{lookup}
use grpc_test_infra.Config.Constants.{load_test_label, role_label, driver_role}
use grpc_test_infra.Api.{
  LoadTest, LoadTestStatus, succeeded, errored, initializing, running, timeout_errored,
  pods_missing, empty_status,
}
use grpc_test_infra.Kube.{Pod}
use grpc_test_infra.Status.Container.{Verdict, is_succeeded, is_errored, state_for_pod_status}

abbrev carries : String → Option String → Bool
carries name none = false
carries name (some parent) = parent == name

-- The body of the loop of `PodsForLoadTest`: whether the pod is appended.
unfoldable pub belongs_to : LoadTest → Pod → Bool
unfolding lookup
belongs_to test pod = carries test.name (lookup load_test_label pod.labels)

unfoldable pub pods_for_load_test : Option LoadTest → List Pod → List Pod
unfolding belongs_to
pods_for_load_test none all_pods = []
pods_for_load_test (some test) [] = []
pods_for_load_test (some test) (pod ∷ pods) =
    let rest = pods_for_load_test (some test) pods in
    if belongs_to test pod then pod ∷ rest else rest

-- `time.Second` in nanoseconds.
abbrev pub second : ℕ
second = 1000000000

-- What the clock reads at its three calls: for the start time, for the timeout, for the stop time.
pub record Readings : Type 0 where
  pub start : ℕ
  pub check : ℕ
  pub stop : ℕ

-- The loop over the pods either returns a status, or falls through with the one it has.
pub data Scan : Type 0 where
  decided : LoadTestStatus → Scan
  undecided : LoadTestStatus → Scan

abbrev pub with_stop_time : LoadTest → ℕ → LoadTestStatus → LoadTestStatus
with_stop_time test now status = record status {
  stop_time = some (get_or now test.status.stop_time);
}

-- One round of the loop, for a pod with a role: `rest` goes on with the next pod.
unfoldable pub judge_pod :
    LoadTest
    → ℕ
    → String
    → Verdict
    → LoadTestStatus
    → (LoadTestStatus → Outcome Scan)
    → Outcome Scan
judge_pod test now role verdict status rest =
    if not (is_succeeded verdict.state) && not (is_errored verdict.state)
    then rest status
    else let noted = record status { reason = verdict.reason; message = verdict.message } in
      if role == driver_role
      then returns (
          decided (
            with_stop_time test now
              (record noted { state = if is_succeeded verdict.state then succeeded else errored })))
      else if is_succeeded verdict.state
      then rest noted
      else returns (decided (with_stop_time test now (record noted { state = errored })))

unfoldable pub judge_labelled :
    LoadTest
    → ℕ
    → Option String
    → Pod
    → LoadTestStatus
    → (LoadTestStatus → Outcome Scan)
    → Outcome Scan
unfolding judge_pod state_for_pod_status
judge_labelled test now none pod status rest = rest status
judge_labelled test now (some role) pod status rest =
    state_for_pod_status pod.status >>= λ verdict. judge_pod test now role verdict status rest

unfoldable pub scan_pods : LoadTest → ℕ → List Pod → LoadTestStatus → Outcome Scan
unfolding judge_labelled lookup
scan_pods test now [] status = returns (undecided status)
scan_pods test now (pod ∷ pods) status =
    judge_labelled test now (lookup role_label pod.labels) pod status (scan_pods test now pods)

-- The part of `ForLoadTest` below the loop.
unfoldable pub finish_status : LoadTest → List Pod → Scan → LoadTestStatus
finish_status test pods (decided status) = status
finish_status test pods (undecided status) =
    let required = length test.spec.servers + length test.spec.clients + 1 in
    if ltb (length pods) required
    then record status {
      state = initializing;
      reason = pods_missing;
      message =
          fill_number
            (fill_number (plain "load test has created %d/%d required pods") (pos (length pods)))
            (pos required);
    }
    else record status { state = running }

unfoldable pub for_load_test : Readings → LoadTest → List Pod → Outcome LoadTestStatus
unfolding scan_pods finish_status
for_load_test now test pods =
    let start = get_or now.start test.status.start_time in
    let status = record empty_status { start_time = some start } in
    if leb (start + test.spec.timeout_seconds * second) now.check
    then returns (record status {
      stop_time = some now.stop;
      state = errored;
      reason = timeout_errored;
      message = plain "timeout exceeded";
    })
    else (scan_pods test now.stop pods status >>= λ scan. returns (finish_status test pods scan))
