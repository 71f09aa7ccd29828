-- ===== src/Status/Missing.antt =====
-- status/missing_pods.go: which components have no pod yet, and how many nodes they need.
pub mod Required
pub mod Covered
pub mod Counts
pub mod Contract
pub mod Keys
pub mod Uncovered
use grpc_test_infra.Base.{
  ℕ, ◌+◌, String, Bool, true, false, ◌&&◌, Option, none, some, List, [], ◌∷◌, Outcome, returns,
  ◌>>=◌, deref, ◌==◌, if◌then◌else◌,
}
use grpc_test_infra.Base.Dict.{Dict, lookup, lookup_or, has, insert, delete, values}
use grpc_test_infra.Config.Constants.{
  role_label, component_name_label, driver_role, client_role, server_role,
}
use grpc_test_infra.Api.{Component, Driver, Server, Client, LoadTest}
use grpc_test_infra.Kube.{Pod}

abbrev pub default_client_pool : String
default_client_pool = "__default_pool (clients)"

abbrev pub default_driver_pool : String
default_driver_pool = "__default_pool (drivers)"

abbrev pub default_server_pool : String
default_server_pool = "__default_pool (servers)"

pub record LoadTestMissing : Type 0 where
  pub driver : Option Driver
  pub servers : List Server
  pub clients : List Client
  pub node_count_by_pool : Dict ℕ

abbrev is_nil {ℓ} : {A : Type ℓ} → List A → Bool
is_nil [] = true
is_nil (x ∷ xs) = false

abbrev is_none {ℓ} : {A : Type ℓ} → Option A → Bool
is_none none = true
is_none (some x) = false

unfoldable pub is_empty : LoadTestMissing → Bool
is_empty m = is_none m.driver && is_nil m.servers && is_nil m.clients

-- `requiredClientMap` and `requiredServerMap`: a later component takes the place of an earlier one
-- of the same name.
unfoldable pub require_all : List Component → Dict Component → Outcome (Dict Component)
require_all [] m = returns m
require_all (c ∷ cs) m = deref c.name >>= λ name. require_all cs (insert name c m)

-- The variables of the loop over the owned pods.
pub record Search : Type 0 where
  pub clients : Dict Client
  pub servers : Dict Server
  pub found_driver : Bool

-- `if _, ok := m[k]; ok { delete(m, k) }`
unfoldable pub strike : String → Dict Component → Dict Component
strike k m = if has k m then delete k m else m

strike_driver : Option Driver → String → Search → Outcome Search
strike_driver driver component s = deref driver >>= λ d. deref d.name >>= λ name.
    returns (if name == component then record s { found_driver = true } else s)

strike_pod : Option Driver → String → String → Search → Outcome Search
unfolding strike_driver strike
strike_pod driver role component s =
    if role == driver_role
    then strike_driver driver component s
    else if role == client_role
    then returns (record s { clients = strike component s.clients })
    else if role == server_role
    then returns (record s { servers = strike component s.servers })
    else returns s

-- One round: a pod with no labels is passed over.
visit_labels : Option Driver → Dict String → Search → Outcome Search
unfolding strike_pod lookup_or
visit_labels driver [] s = returns s
visit_labels driver (l ∷ ls) s =
    strike_pod driver (lookup_or "" role_label (l ∷ ls))
      (lookup_or "" component_name_label (l ∷ ls)) s

unfoldable pub search_pods : Option Driver → List Pod → Search → Outcome Search
unfolding visit_labels
search_pods driver [] s = returns s
search_pods driver (pod ∷ pods) s =
    visit_labels driver pod.labels s >>= λ t. search_pods driver pods t

unfoldable pub inc_node_count : String → Dict ℕ → Dict ℕ
inc_node_count pool m =
    let present = if has pool m then m else insert pool 0 m in
    insert pool (lookup_or 0 pool present + 1) present

pub count_pool : String → Option String → Dict ℕ → Dict ℕ
unfolding inc_node_count
count_pool default_key none m = insert default_key (lookup_or 0 default_key m + 1) m
count_pool default_key (some pool) m = inc_node_count pool m

-- The loops over the components that are left: they count the nodes.
unfoldable pub count_nodes : String → List Component → Dict ℕ → Dict ℕ
unfolding count_pool
count_nodes default_key [] m = m
count_nodes default_key (c ∷ cs) m = count_nodes default_key cs (count_pool default_key c.pool m)

-- The order in which Go ranges over the two maps, which the language leaves open.
pub record MapOrder : Type 0 where
  pub clients : Dict Client → Dict Client
  pub servers : Dict Server → Dict Server

abbrev pub no_nodes : Dict ℕ
no_nodes = (default_client_pool, 0) ∷ (default_driver_pool, 0) ∷ (default_server_pool, 0) ∷ []

pub add_driver : Option Driver → Bool → LoadTestMissing → Outcome LoadTestMissing
unfolding count_pool
add_driver driver true m = returns m
add_driver driver false m = deref driver >>= λ d. returns (record m {
  driver = driver;
  node_count_by_pool = count_pool default_driver_pool d.pool m.node_count_by_pool;
})

-- The part of `CheckMissingPods` below the loop over the pods.
pub collect : MapOrder → Option Driver → Search → Outcome LoadTestMissing
unfolding count_nodes add_driver
collect order driver s =
    let clients = values (order.clients s.clients) in
    let servers = values (order.servers s.servers) in
    let counts =
      count_nodes default_server_pool servers (count_nodes default_client_pool clients no_nodes) in
    add_driver driver s.found_driver
      (record { driver = none; servers = servers; clients = clients; node_count_by_pool = counts })

unfoldable pub check_missing_pods : MapOrder → LoadTest → List Pod → Outcome LoadTestMissing
unfolding require_all search_pods collect
check_missing_pods order test pods = do
  clients ← require_all test.spec.clients []
  servers ← require_all test.spec.servers []
  s ←
      search_pods test.spec.driver pods
        (record { clients = clients; servers = servers; found_driver = false })
  collect order test.spec.driver s
