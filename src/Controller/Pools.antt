-- ===== src/Controller/Pools.antt =====
-- The arithmetic of gang scheduling in `Reconcile`: capacities, availabilities and required nodes.
pub mod Availability
pub mod Blocked
use grpc_test_infra.Base.{
  ℕ, ◌+◌, String, Bool, true, false, Option, none, some, List, [], ◌∷◌, ◌==◌, if◌then◌else◌,
  is_some,
}
use grpc_test_infra.Base.Int.{ℤ, pos, ◌-ℤ◌, ltb_ℤ}
use grpc_test_infra.Base.Dict.{Dict, lookup, lookup_or, has, insert, delete}
use grpc_test_infra.Config.Constants.{pool_label}
use grpc_test_infra.Config.Images.{PoolLabelMap}
use grpc_test_infra.Kube.{Pod, Node, PodPhase, pod_succeeded, pod_failed}
use grpc_test_infra.Status.Missing.{default_client_pool, default_driver_pool, default_server_pool}

-- `defaultClientPool`, `defaultDriverPool` and `defaultServerPool`: empty until a node is found.
pub record DefaultPools : Type 0 where
  pub client : String
  pub driver : String
  pub server : String

abbrev pub no_pools : DefaultPools
no_pools = record { client = ""; driver = ""; server = "" }

-- The variables of the loop over the nodes.
pub record Capacities : Type 0 where
  pub defaults : DefaultPools
  pub capacity : Dict ℕ

abbrev pick_pool : String → String → String → Dict String → String
pick_pool current pool label labels =
    if current == "" then (if has label labels then pool else current) else current

abbrev pick_defaults : Option PoolLabelMap → String → Dict String → DefaultPools → DefaultPools
pick_defaults none pool labels d = d
pick_defaults (some map) pool labels d = record {
  client = pick_pool d.client pool map.client labels;
  driver = pick_pool d.driver pool map.driver labels;
  server = pick_pool d.server pool map.server labels;
}

abbrev present : Option PoolLabelMap → String → Dict ℕ → Dict ℕ
present none pool m = m
present (some map) pool m = if has pool m then m else insert pool 0 m

count_node : Option PoolLabelMap → Node → Option String → Capacities → Capacities
count_node map node none c = c
count_node map node (some pool) c =
    let counted = present map pool c.capacity in
    record {
      defaults = pick_defaults map pool node.labels c.defaults;
      capacity = insert pool (lookup_or 0 pool counted + 1) counted;
    }

unfoldable pub count_nodes : Option PoolLabelMap → List Node → Capacities → Capacities
unfolding count_node
count_nodes map [] c = c
count_nodes map (node ∷ nodes) c =
    count_nodes map nodes (count_node map node (lookup pool_label node.labels) c)

unfoldable pub capacities : Option PoolLabelMap → List Node → Capacities
capacities map nodes = count_nodes map nodes (record { defaults = no_pools; capacity = [] })

-- `poolAvailabilities`, a copy of the capacities at first.
unfoldable pub copy : Dict ℕ → Dict ℤ
copy [] = []
copy ((pool, n) ∷ m) = (pool, pos n) ∷ copy m

abbrev pub is_over : PodPhase → Bool
is_over pod_succeeded = true
is_over pod_failed = true
is_over _ = false

take_node : Pod → Option String → Dict ℤ → Dict ℤ
take_node pod none m = m
take_node pod (some pool) m =
    if is_over pod.status.phase then m else insert pool (lookup_or (pos 0) pool m -ℤ pos 1) m

-- The loop over the pods: each one that is not over takes a node of its pool.
unfoldable pub take_nodes : List Pod → Dict ℤ → Dict ℤ
unfolding take_node
take_nodes [] m = m
take_nodes (pod ∷ pods) m = take_nodes pods (take_node pod (lookup pool_label pod.labels) m)

unfoldable pub availabilities : Dict ℕ → List Pod → Dict ℤ
availabilities capacity pods = take_nodes pods (copy capacity)

add_count : Option ℕ → String → Dict ℕ → Dict ℕ
add_count none pool m = m
add_count (some c) pool m = insert pool (lookup_or 0 pool m + c) m

-- `adjustAvailabilityForDefaults`
unfoldable pub adjust : String → String → Dict ℕ → Dict ℕ
unfolding add_count
adjust key pool m = delete key (add_count (lookup key m) pool m)

unfoldable pub adjust_all : DefaultPools → Dict ℕ → Dict ℕ
adjust_all d m =
    adjust default_server_pool d.server
      (adjust default_driver_pool d.driver (adjust default_client_pool d.client m))

pub data Fit : Type 0 where
  fits : Fit
  no_pool : String → Fit
  too_few : Fit

pub fit_pool : ℕ → Option ℤ → String → Fit → Fit
fit_pool required none pool later = no_pool pool
fit_pool required (some available) pool later =
    if ltb_ℤ available (pos required) then too_few else later

-- The loop over the required nodes, in the order of the list.
unfoldable pub check_pools : Dict ℕ → Dict ℤ → Fit
unfolding fit_pool
check_pools [] available = fits
check_pools ((pool, required) ∷ m) available =
    fit_pool required (lookup pool available) pool (check_pools m available)
