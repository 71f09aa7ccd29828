-- ===== src/Controller/Conduct.antt =====
-- When a reconciliation may delete a test or create a pod, and with which results it may end.
pub mod Preparing
pub mod Placing
pub mod Scheduling
pub mod Needed
pub mod Whole
use grpc_test_infra.Base.{
  ℕ, ◌+◌, ◌*◌, ◌≤◌, String, true, false, none, some, List, ◌≡◌, ◌⊎◌, returns, is_some, All,
}
use grpc_test_infra.Config.Images.{Defaults}
use mathlib.Core.List.{Memᴰ}
use grpc_test_infra.Config.Constants.{client_role, driver_role, server_role}
use grpc_test_infra.Config.Defaults.{set_load_test_defaults}
use grpc_test_infra.Controller.Filled.{StandsFor}
use grpc_test_infra.Api.{Component, LoadTest, LoadTestStatus, is_terminated}
use grpc_test_infra.Kube.{Pod, Node}
use grpc_test_infra.Status.LoadTest.{second, pods_for_load_test}
use grpc_test_infra.Status.Missing.Uncovered.{Lacks}
use grpc_test_infra.Status.Missing.{LoadTestMissing, check_missing_pods}
use grpc_test_infra.Controller.Cluster.{
  granted, Call, delete_load_test, create_pod, History, Cluster, Reconciled,
}
use grpc_test_infra.Controller.Pools.{capacities, adjust_all}
use grpc_test_infra.Controller.Pools.Availability.{IsMet}
use grpc_test_infra.Controller.Effects.{Rules}

-- The cluster has answered with this value at some time.
abbrev pub Stored : Cluster → LoadTest → Type 0
Stored k test = (h : History) × (k.load_test h ≡ granted test)

-- A test that has ended, and whose time to live was over at some reading of the clock.
pub record IsExpired (k : Cluster) (test : LoadTest) : Type 0 where
  pub stored : Stored k test
  pub terminated : is_terminated test.status.state ≡ true
  pub start : ℕ
  pub started : test.status.start_time ≡ some start
  pub over : (h : History) × (start + test.spec.ttl_seconds * second ≤ k.now h)

-- Gang scheduling: on the nodes and the pods that the cluster listed, every pool that the missing
-- pods of the test are to run in has enough free nodes for all of them.
pub record HasRoom (k : Cluster) (defaults : Defaults) (test : LoadTest) (missing : LoadTestMissing)
    : Type 0 where
  pub nodes : List Node
  pub pods : List Pod
  pub listed_nodes : (h : History) × (k.nodes h ≡ granted nodes)
  pub listed_pods : (h : History) × (k.pods h ≡ granted pods)
  pub lacks :
      (h : History) × (check_missing_pods (k.order h) test (pods_for_load_test (some test) pods)
        ≡ returns missing)
  pub met :
      (h : History) × All (IsMet nodes pods) (
        k.pool_order h (
          adjust_all
            (capacities defaults.default_pool_labels nodes).defaults
            missing.node_count_by_pool))

-- A test that the cluster has stored, not terminated, with its defaults and a newer status.
pub record IsDue (k : Cluster) (defaults : Defaults) (test : LoadTest) : Type 0 where
  pub raw : LoadTest
  pub stored : Stored k raw
  pub going : is_terminated raw.status.state ≡ false
  pub filled : LoadTest
  pub with_defaults :
      (h : History) × (set_load_test_defaults (k.fresh h) defaults raw ≡ (filled, none))
  pub status : LoadTestStatus
  pub refreshed : test ≡ record filled { status = status }

-- A pod of a missing component: it belongs to the test, and has the labels of the component's role
-- and name.
pub record IsPlaced (k : Cluster) (defaults : Defaults) (pod : Pod) : Type 0 where
  pub test : LoadTest
  pub due : IsDue k defaults test
  pub missing : LoadTestMissing
  pub room : HasRoom k defaults test missing
  pub role : String
  pub component : Component
  pub lacking : Lacks missing role component
  pub stands : StandsFor test role component pod

abbrev pub Checked : Cluster → Defaults → Call → Type 0
Checked k defaults (delete_load_test test) = IsExpired k test
Checked k defaults (create_pod pod) = IsPlaced k defaults pod
Checked k defaults _ = Unit

-- An error asks for another round at once, and nothing else does.
abbrev pub IsRetry : Reconciled → Type 0
IsRetry r = r.requeue ≡ is_some r.error

abbrev pub conduct : Cluster → Defaults → Rules
conduct k defaults = record { Allowed = Checked k defaults; Ends = IsRetry }
