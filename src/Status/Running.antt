-- ===== src/Status/Running.antt =====
-- When a load test is reported as running.
use grpc_test_infra.Base.{
  ◌≤◌, false, Option, none, some, List, [], ◌∷◌, returns, >>=-eq-returns, returns-injective, subst,
  sym, ap, ◌≡◌, length, arith, Bool-cases, All, inl, inr,
}
use grpc_test_infra.Base.Dict.{lookup}
use grpc_test_infra.Config.Constants.{role_label}
use grpc_test_infra.Api.{LoadTest, LoadTestState, LoadTestStatus, running, is_terminated}
use grpc_test_infra.Kube.{Pod}
use grpc_test_infra.Status.Container.{Verdict}
use grpc_test_infra.Status.LoadTest.{Readings, for_load_test}
use grpc_test_infra.Status.Health.{
  decision, first_decision, for_load_test-eq-health, or_later, conclude, required_pods, timed_out,
}
use grpc_test_infra.Status.Consistent.{first_decision-IsEnded, IsEnded}

-- A pod that decides nothing: it has no role, or it is pending, or it is a worker that succeeded.
abbrev pub IsUndecided : Pod → Type 0
IsUndecided pod = decision (lookup role_label pod.labels) pod.status ≡ returns none

first_decision-none : (pods : List Pod) → first_decision pods ≡ returns none → All IsUndecided pods
first_decision-none [] h = tt
first_decision-none (pod ∷ pods) h =
    let (a, e, f) =
      >>=-eq-returns (decision (lookup role_label pod.labels) pod.status)
        (λ a. or_later a (first_decision pods)) h in
    go a e (first_decision-none pods) f
  where
    go :
        (a : Option (LoadTestState × Verdict))
        → decision (lookup role_label pod.labels) pod.status ≡ returns a
        → (first_decision pods ≡ returns none → All IsUndecided pods)
        → or_later a (first_decision pods) ≡ returns none
        → IsUndecided pod × All IsUndecided pods
    go none e rest f = (e, rest f)
    go (some a) e rest f = cc

settled_running :
    (now : Readings) (test : LoadTest) (pods : List Pod) (d : Option (LoadTestState × Verdict))
    → IsEnded d
    → (conclude now test pods d).state ≡ running
    → (d ≡ none) × (required_pods test ≤ length pods)
unfolding is_terminated
settled_running now test pods none ended h = ground arith
settled_running now test pods (some (state, v)) ended h = ground arith

-- A test is reported as running only if its timeout has not passed, no pod decides anything, and
-- there are at least as many pods as its servers, its clients and its driver.
pub for_load_test_running :
    (now : Readings) (test : LoadTest) (pods : List Pod) (s : LoadTestStatus)
    → for_load_test now test pods ≡ returns s
    → s.state ≡ running
    → (timed_out now test ≡ false) × All IsUndecided pods × (required_pods test ≤ length pods)
for_load_test_running now test pods s h r = elim (Bool-cases (timed_out now test)) [
  | inl late ↦ cc (
    r,
    ap (λ (s : LoadTestStatus). s.state)
        (returns-injective (rw late at (rw for_load_test-eq-health at h))),
  )
  | inr timely ↦
      let (d, e, f) =
        >>=-eq-returns (first_decision pods) _ (rw timely at (rw for_load_test-eq-health at h)) in
      let (idle, enough) =
        settled_running now test pods d (first_decision-IsEnded pods d e)
          (subst (λ (s : LoadTestStatus). s.state ≡ running) (sym (returns-injective f)) r) in
      (timely, first_decision-none pods (rw idle at e), enough)
]
