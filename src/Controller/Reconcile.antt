-- ===== src/Controller/Reconcile.antt =====
-- `Reconcile` as a whole, and `getRequeueTime`.
pub mod Wakes
use grpc_test_infra.Base.{
  ℕ, ◌*◌, Option, none, some, Outcome, returns, deref, ◌>>=◌, nat_eq, if◌then◌else◌,
}
use grpc_test_infra.Base.Int.{ℤ, pos, negsuc, ◌-ℤ◌}
use grpc_test_infra.Config.Images.{Defaults}
use grpc_test_infra.Api.{LoadTest, LoadTestStatus}
use grpc_test_infra.Status.LoadTest.{second}
use grpc_test_infra.Controller.Cluster.{Action, Reconciled, finished, after, ◌>>◌, return, run_pure}
use grpc_test_infra.Controller.Cluster.{bind}
use grpc_test_infra.Controller.Prepare.{
  Request, fetch_test, expire, apply_defaults, ensure_config_map, refresh_status,
}
use grpc_test_infra.Controller.Schedule.{schedule}

-- The time a test that has just stopped has left: its time to live less its running time.
pub time_left : LoadTest → Option ℕ → Outcome ℤ
time_left test none = returns (pos 0)
time_left test (some stop) = deref test.status.start_time >>= λ start.
    returns (pos (test.spec.ttl_seconds * second) -ℤ (pos stop -ℤ pos start))

pub requeue_at_stop : LoadTest → Option ℕ → Option ℕ → Outcome ℤ
unfolding time_left
requeue_at_stop test none stop = time_left test stop
requeue_at_stop test (some t) stop = returns (pos 0)

pub requeue_at_start : LoadTest → LoadTestStatus → Option ℕ → Option ℕ → Outcome ℤ
unfolding requeue_at_stop
requeue_at_start test previous none (some t) = returns (pos (test.spec.timeout_seconds * second))
requeue_at_start test previous none none =
    requeue_at_stop test previous.stop_time test.status.stop_time
requeue_at_start test previous (some s) t =
    requeue_at_stop test previous.stop_time test.status.stop_time

-- `getRequeueTime`
unfoldable pub get_requeue_time : LoadTest → LoadTestStatus → Outcome ℤ
unfolding requeue_at_start
get_requeue_time test previous =
    requeue_at_start test previous previous.start_time test.status.start_time

-- The result at the label `setRequeueTime`.
abbrev pub requeue_result : ℤ → Reconciled
requeue_result (pos n) = if nat_eq n 0 then finished else after (pos n)
requeue_result (negsuc n) = after (negsuc n)

abbrev pub set_requeue_time : LoadTest → LoadTestStatus → Action (Unit {0})
set_requeue_time test previous =
    bind (run_pure (get_requeue_time test previous)) (λ d. return (requeue_result d))

-- What is left to do when the test has its defaults.
unfoldable pub manage : Request → Defaults → LoadTest → Action (Unit {0})
manage req defaults test =
    ensure_config_map req test
    >> bind (refresh_status test)
        (λ u. schedule defaults u.0 u.1 >> set_requeue_time u.0 test.status)

unfoldable pub reconcile : Request → Defaults → Action (Unit {0})
reconcile req defaults =
    bind fetch_test
      (λ raw. expire raw >> bind (apply_defaults defaults raw) (λ test. manage req defaults test))
