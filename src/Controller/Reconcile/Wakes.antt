-- ===== src/Controller/Reconcile/Wakes.antt =====
-- When a reconciliation asks to be woken up.
use grpc_test_infra.Base.{
  ℕ, ◌*◌, Option, none, some, List, ◌≡◌, refl, ap, ◌∙◌, some-injective, returns, deref, ◌>>=◌,
  arith, get_or,
}
use grpc_test_infra.Base.Int.{ℤ, pos, ◌-ℤ◌}
use grpc_test_infra.Api.{LoadTest, LoadTestStatus}
use grpc_test_infra.Kube.{Pod}
use grpc_test_infra.Status.LoadTest.{Readings, second, for_load_test}
use grpc_test_infra.Status.Health.{started_at}
use grpc_test_infra.Status.Consistent.{for_load_test-IsConsistent}
use grpc_test_infra.Controller.Reconcile.{requeue_at_stop, requeue_at_start, get_requeue_time}

-- The time to live, less the running time.
abbrev pub left_to_live : LoadTest → ℕ → ℕ → ℤ
left_to_live test start stop = pos (test.spec.ttl_seconds * second) -ℤ (pos stop -ℤ pos start)

module _ (test : LoadTest) (start : ℕ) (started : test.status.start_time ≡ some start) where
  at_stop :
      (before now : Option ℕ)
      → (d : ℤ) × (requeue_at_stop test before now ≡ returns d)
        × ((stop : ℕ) → before ≡ none → now ≡ some stop → d ≡ left_to_live test start stop)
  unfolding requeue_at_stop
  at_stop none none = (pos 0, refl, λ stop b n. absurd (ground (arith, n)))
  at_stop none (some t) = (
    left_to_live test start t,
    ap (λ o. deref o >>= λ s. returns (left_to_live test s t)) started,
    λ stop b n. ap (left_to_live test start) (some-injective n),
  )
  at_stop (some t) now = (pos 0, refl, λ stop b n. absurd (ground (arith, b)))

  at_start :
      (previous : LoadTestStatus) (before : Option ℕ)
      → (d : ℤ) × (requeue_at_start test previous before (some start) ≡ returns d)
        × (before ≡ none → d ≡ pos (test.spec.timeout_seconds * second))
        × ((earlier stop : ℕ)
            → before ≡ some earlier
            → previous.stop_time ≡ none
            → test.status.stop_time ≡ some stop
            → d ≡ left_to_live test start stop)
  unfolding requeue_at_start
  at_start previous none = (
    pos (test.spec.timeout_seconds * second),
    refl,
    λ b. refl,
    λ earlier stop b. absurd (ground (arith, b)),
  )
  at_start previous (some t) =
      let (d, e, at) = at_stop previous.stop_time test.status.stop_time in
      (d, e, λ b. absurd (ground (arith, b)), λ earlier stop b. at stop)

-- After the status of a test was refreshed, the time of the next round is found without a panic. A
-- test that has just got its start time is looked at again after its timeout; one that had a start
-- time and has just got its stop time, when its time to live less its running time is over.
pub get_requeue_time-refreshed :
    (now : Readings) (test : LoadTest) (pods : List Pod) (s : LoadTestStatus)
    → for_load_test now test pods ≡ returns s
    → (d : ℤ) × (get_requeue_time (record test { status = s }) test.status ≡ returns d)
      × (test.status.start_time ≡ none → d ≡ pos (test.spec.timeout_seconds * second))
      × ((start stop : ℕ)
          → test.status.start_time ≡ some start
          → test.status.stop_time ≡ none
          → s.stop_time ≡ some stop
          → d ≡ left_to_live test start stop)
unfolding get_requeue_time
get_requeue_time-refreshed now test pods s h =
    let begun : s.start_time ≡ some (started_at now test) =
      (for_load_test-IsConsistent now test pods s h).started in
    let (d, e, first, last) =
      at_start (record test { status = s }) (started_at now test) begun test.status
        test.status.start_time in
    (
      d,
      ap (requeue_at_start (record test { status = s }) test.status test.status.start_time) begun
          ∙ e,
      first,
      λ start stop was before after.
          last start stop was before after
          ∙ ap (λ o. left_to_live test (get_or now.start o) stop) was,
    )
