-- ===== src/Status/Consistent.antt =====
-- How the parts of the status of a load test fit together.
use grpc_test_infra.Base.{
  String, true, false, ◌&&◌, Option, none, some, List, [], ◌∷◌, returns, >>=-eq-returns,
  returns-injective, subst, ◌≡◌, refl, ◌==◌, get_or, is_some, arith, Bool-cases, inl, inr,
}
use grpc_test_infra.Base.Dict.{lookup}
use grpc_test_infra.Config.Constants.{role_label, driver_role}
use grpc_test_infra.Api.{LoadTest, LoadTestState, LoadTestStatus, errored, is_terminated}
use grpc_test_infra.Kube.{Pod, PodStatus}
use grpc_test_infra.Status.Container.{Verdict, is_succeeded, is_errored, state_for_pod_status}
use grpc_test_infra.Status.LoadTest.{Readings, for_load_test}
use grpc_test_infra.Status.Health.{
  decision, first_decision, for_load_test-eq-health, or_later, pick, conclude, started_at,
  timed_out,
}

-- What holds of each status that `ForLoadTest` returns.
pub record IsConsistent (now : Readings) (test : LoadTest) (s : LoadTestStatus) : Type 0 where
  pub started : s.start_time ≡ some (started_at now test)
  pub stopped : is_some s.stop_time ≡ is_terminated s.state
  pub stop_kept :
      timed_out now test ≡ false
      → is_terminated s.state ≡ true
      → s.stop_time ≡ some (get_or now.stop test.status.stop_time)
  pub timeout : timed_out now test ≡ true → s.state ≡ errored

abbrev pub IsEnded : Option (LoadTestState × Verdict) → Type 0
IsEnded none = Unit
IsEnded (some (state, v)) = is_terminated state ≡ true

pub pick-IsEnded : (role : String) (v : Verdict) → IsEnded (pick role v)
unfolding is_terminated
pick-IsEnded role v = elim (Bool-cases (is_errored v.state)) [
  | inl e ↦ rw e refl
  | inr e ↦ rw e (elim (Bool-cases (is_succeeded v.state && (role == driver_role))) [
    | inl f ↦ rw f refl
    | inr f ↦ rw f tt
  ])
]

pub decision-IsEnded :
    (role : Option String) (status : PodStatus) (d : Option (LoadTestState × Verdict))
    → decision role status ≡ returns d
    → IsEnded d
decision-IsEnded none status none h = tt
decision-IsEnded none status (some d) h = cc
decision-IsEnded (some role) status d h =
    let (v, _, e) = >>=-eq-returns (state_for_pod_status status) (λ v. returns (pick role v)) h in
    subst IsEnded (returns-injective e) (pick-IsEnded role v)

pub first_decision-IsEnded :
    (pods : List Pod) (d : Option (LoadTestState × Verdict))
    → first_decision pods ≡ returns d
    → IsEnded d
first_decision-IsEnded [] none h = tt
first_decision-IsEnded [] (some d) h = cc
first_decision-IsEnded (pod ∷ pods) d h =
    let (a, e, f) =
      >>=-eq-returns (decision (lookup role_label pod.labels) pod.status)
        (λ a. or_later a (first_decision pods)) h in
    go a (decision-IsEnded (lookup role_label pod.labels) pod.status a e)
      (first_decision-IsEnded pods d) f
  where
    go :
        (a : Option (LoadTestState × Verdict))
        → IsEnded a
        → (first_decision pods ≡ returns d → IsEnded d)
        → or_later a (first_decision pods) ≡ returns d
        → IsEnded d
    go none ended rest f = rest f
    go (some a) ended rest f = subst IsEnded (returns-injective f) ended

pub settled-IsConsistent :
    (now : Readings) (test : LoadTest) (pods : List Pod) (d : Option (LoadTestState × Verdict))
    → timed_out now test ≡ false
    → IsEnded d
    → IsConsistent now test (conclude now test pods d)
unfolding is_terminated
settled-IsConsistent now test pods none late h = ground arith
settled-IsConsistent now test pods (some (state, v)) late h = ground arith

-- Whatever the pods are, if a status is returned then: the start time is the old one or now; the stop
-- time is set exactly when the state is terminated, and then it is the old one or now unless the
-- timeout has passed; and a test past its timeout is errored.
pub for_load_test-IsConsistent :
    (now : Readings) (test : LoadTest) (pods : List Pod) (s : LoadTestStatus)
    → for_load_test now test pods ≡ returns s
    → IsConsistent now test s
unfolding is_terminated
for_load_test-IsConsistent now test pods s h = elim (Bool-cases (timed_out now test)) [
  | inl late ↦
      subst (IsConsistent now test)
        (returns-injective (rw late at (rw for_load_test-eq-health at h))) (ground arith)
  | inr timely ↦
      let (d, e, f) =
        >>=-eq-returns (first_decision pods) _ (rw timely at (rw for_load_test-eq-health at h)) in
      subst (IsConsistent now test) (returns-injective f)
        (settled-IsConsistent now test pods d timely (first_decision-IsEnded pods d e))
]
