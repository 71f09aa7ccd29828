-- ===== src/Status/Health.antt =====
-- The status of a load test, described by the first decisive pod.
use grpc_test_infra.Base.{
  ℕ, ◌+◌, ◌*◌, String, Bool, false, ◌&&◌, Option, none, some, List, [], ◌∷◌, Outcome, returns,
  panics, ◌>>=◌, plain, fill_number, length, ap, Bool-cases, inl, inr, ◌≡◌, refl, ◌==◌,
  if◌then◌else◌, leb, get_or, arith,
}
use grpc_test_infra.Base.Int.{pos}
use grpc_test_infra.Base.Dict.{lookup}
use grpc_test_infra.Config.Constants.{role_label, driver_role}
use grpc_test_infra.Api.{
  LoadTest, LoadTestState, LoadTestStatus, succeeded, errored, initializing, running, empty_status,
}
use grpc_test_infra.Kube.{Pod, PodStatus, ContainerStatus}
use grpc_test_infra.Status.Container.{
  State, Verdict, is_succeeded, is_errored, errored_verdict, state_for_pod_status,
}
use grpc_test_infra.Status.PodVerdict.{
  by_init_containers, by_containers, state_for_pod_status-eq-verdict,
}
use grpc_test_infra.Status.LoadTest.{
  Readings, Scan, decided, undecided, with_stop_time, judge_pod, judge_labelled, scan_pods,
  finish_status, for_load_test, second,
}

-- What a pod with a role decides: an errored pod fails the test, and only a driver completes it.
abbrev pub pick : String → Verdict → Option (LoadTestState × Verdict)
pick role v =
    if is_errored v.state
    then some (errored, v)
    else if is_succeeded v.state && (role == driver_role)
    then some (succeeded, v)
    else none

abbrev pub decision : Option String → PodStatus → Outcome (Option (LoadTestState × Verdict))
decision none status = returns none
decision (some role) status = state_for_pod_status status >>= λ v. returns (pick role v)

abbrev pub or_later :
    Option (LoadTestState × Verdict)
    → Outcome (Option (LoadTestState × Verdict))
    → Outcome (Option (LoadTestState × Verdict))
or_later (some d) later = returns (some d)
or_later none later = later

-- The decision of the first pod, in the order of the list, that decides anything.
abbrev pub first_decision : List Pod → Outcome (Option (LoadTestState × Verdict))
first_decision [] = returns none
first_decision (pod ∷ pods) =
    let later = first_decision pods in
    decision (lookup role_label pod.labels) pod.status >>= λ d. or_later d later

abbrev pub settle : LoadTest → ℕ → LoadTestStatus → Option (LoadTestState × Verdict) → Scan
settle test now status none = undecided status
settle test now status (some (state, v)) = decided (
    with_stop_time test now
      (record status { reason = v.reason; message = v.message; state = state }))

abbrev IsQuiet : Verdict → Type 0
IsQuiet v = (v.reason ≡ "") × (v.message ≡ plain "")

IsQuiet-pod_verdict :
    (a b : Option ContainerStatus) (quiet : State) (v : Verdict)
    → by_init_containers a (by_containers b quiet) ≡ returns v
    → is_errored v.state ≡ false
    → IsQuiet v
unfolding errored_verdict
IsQuiet-pod_verdict (some c) b quiet v h s = ground arith
IsQuiet-pod_verdict none (some c) quiet v h s = ground arith
IsQuiet-pod_verdict none none quiet v h s = ground arith

-- A pod that has not errored has no reason and no message.
IsQuiet-unless_errored :
    (status : PodStatus) (v : Verdict)
    → state_for_pod_status status ≡ returns v
    → is_errored v.state ≡ false
    → IsQuiet v
IsQuiet-unless_errored status v h s =
    IsQuiet-pod_verdict _ _ _ v (rw state_for_pod_status-eq-verdict at h) s

pub note-quiet :
    (status : LoadTestStatus) (v : Verdict)
    → status.reason ≡ ""
    → status.message ≡ plain ""
    → IsQuiet v
    → record status { reason = v.reason; message = v.message } ≡ status
note-quiet status v r m q = ground arith

module _ (test : LoadTest) (now : ℕ) (status : LoadTestStatus) where
  abbrev settled : Outcome (Option (LoadTestState × Verdict)) → Outcome Scan
  settled later = later >>= λ d. returns (settle test now status d)

  judge_pod-eq :
      (role : String) (v : Verdict) (rest : LoadTestStatus → Outcome Scan)
      (later : Outcome (Option (LoadTestState × Verdict)))
      → (is_errored v.state ≡ false
          → record status { reason = v.reason; message = v.message } ≡ status)
      → rest status ≡ settled later
      → judge_pod test now role v status rest ≡ settled (or_later (pick role v) later)
  unfolding judge_pod
  judge_pod-eq role v rest later same h = ground arith

  judge_labelled-eq :
      (role : Option String) (pod : Pod) (rest : LoadTestStatus → Outcome Scan)
      (later : Outcome (Option (LoadTestState × Verdict)))
      → status.reason ≡ ""
      → status.message ≡ plain ""
      → rest status ≡ settled later
      → judge_labelled test now role pod status rest
        ≡ settled (decision role pod.status >>= λ d. or_later d later)
  unfolding judge_labelled
  judge_labelled-eq none pod rest later r m h = h
  judge_labelled-eq (some role) pod rest later r m h = go (state_for_pod_status pod.status) refl
    where
      go :
          (o : Outcome Verdict)
          → state_for_pod_status pod.status ≡ o
          → (o >>= λ v. judge_pod test now role v status rest)
            ≡ settled ((o >>= λ v. returns (pick role v)) >>= λ d. or_later d later)
      go panics e = refl
      go (returns v) e =
          judge_pod-eq role v rest later
            (λ q. note-quiet status v r m (IsQuiet-unless_errored pod.status v e q)) h

pub scan_pods-eq :
    (test : LoadTest) (now : ℕ) (pods : List Pod) (status : LoadTestStatus)
    → status.reason ≡ ""
    → status.message ≡ plain ""
    → scan_pods test now pods status ≡ settled test now status (first_decision pods)
unfolding scan_pods
scan_pods-eq test now [] status r m = refl
scan_pods-eq test now (pod ∷ pods) status r m =
    judge_labelled-eq test now status (lookup role_label pod.labels) pod (scan_pods test now pods)
      (first_decision pods) r m (scan_pods-eq test now pods status r m)

abbrev pub started_at : Readings → LoadTest → ℕ
started_at now test = get_or now.start test.status.start_time

abbrev pub timed_out : Readings → LoadTest → Bool
timed_out now test = leb (started_at now test + test.spec.timeout_seconds * second) now.check

-- The pods of all the servers, of all the clients, and of the driver.
abbrev pub required_pods : LoadTest → ℕ
required_pods test = length test.spec.servers + length test.spec.clients + 1

-- The status without a decision: it waits for pods, or all of them are there.
abbrev waiting : LoadTest → List Pod → ℕ → LoadTestStatus
waiting test pods start = record {
  state = initializing;
  reason = "PodsMissing";
  message =
      fill_number
        (fill_number (plain "load test has created %d/%d required pods") (pos (length pods)))
        (pos (required_pods test));
  start_time = some start;
  stop_time = none;
}

abbrev complete : ℕ → LoadTestStatus
complete start = record {
  state = running;
  reason = "";
  message = plain "";
  start_time = some start;
  stop_time = none;
}

-- The status of a test that is in time, by the decision of its pods.
abbrev pub conclude :
    Readings → LoadTest → List Pod → Option (LoadTestState × Verdict) → LoadTestStatus
conclude now test pods (some (state, v)) = record {
  state = state;
  reason = v.reason;
  message = v.message;
  start_time = some (started_at now test);
  stop_time = some (get_or now.stop test.status.stop_time);
}
conclude now test pods none =
    if leb (required_pods test) (length pods)
    then complete (started_at now test)
    else waiting test pods (started_at now test)

abbrev pub health : Readings → LoadTest → List Pod → Outcome LoadTestStatus
health now test pods =
    if timed_out now test
    then returns (record {
      state = errored;
      reason = "TimeoutErrored";
      message = plain "timeout exceeded";
      start_time = some (started_at now test);
      stop_time = some now.stop;
    })
    else (first_decision pods >>= λ d. returns (conclude now test pods d))

finish_status-eq :
    (now : Readings) (test : LoadTest) (pods : List Pod) (d : Option (LoadTestState × Verdict))
    → finish_status test pods
        (settle test now.stop (record empty_status { start_time = some (started_at now test) }) d)
      ≡ conclude now test pods d
unfolding finish_status
finish_status-eq now test pods none = ground arith
finish_status-eq now test pods (some (state, v)) = refl

pub for_load_test-eq-health :
    (now : Readings) (test : LoadTest) (pods : List Pod)
    → for_load_test now test pods ≡ health now test pods
unfolding for_load_test
for_load_test-eq-health now test pods =
    let fresh : LoadTestStatus = record empty_status { start_time = some (started_at now test) } in
    elim (Bool-cases (timed_out now test)) [
      | inl late ↦ rw late refl
      | inr timely ↦
          rw timely
            (rw (scan_pods-eq test now.stop pods fresh refl refl) (concluded (first_decision pods)))
    ]
  where
    concluded :
        (o : Outcome (Option (LoadTestState × Verdict)))
        → ((o >>= λ d. returns (
              settle test now.stop
                (record empty_status { start_time = some (started_at now test) })
                d))
            >>= λ scan. returns (finish_status test pods scan))
          ≡ (o >>= λ d. returns (conclude now test pods d))
    concluded panics = refl
    concluded (returns d) = ap returns (finish_status-eq now test pods d)
