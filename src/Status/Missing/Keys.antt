-- ===== src/Status/Missing/Keys.antt =====
-- The pools under which `CheckMissingPods` counts nodes: no key is ever taken out.
use grpc_test_infra.Base.{
  ℕ, String, Bool, true, false, Option, none, some, List, [], ◌∷◌, ◌≡◌, arith, returns,
  returns-injective, >>=-eq-returns, subst,
}
use grpc_test_infra.Base.Dict.{Dict, has, has-insert, values}
use grpc_test_infra.Api.{Component, LoadTest, Driver}
use grpc_test_infra.Kube.{Pod}
use grpc_test_infra.Status.Missing.{
  MapOrder, LoadTestMissing, Search, default_client_pool, default_server_pool, no_nodes,
  check_missing_pods, count_pool, count_nodes, inc_node_count, collect, add_driver, require_all,
  search_pods,
}

has-count_pool :
    (key p : String) (pool : Option String) (m : Dict ℕ)
    → has p m ≡ true
    → has p (count_pool key pool m) ≡ true
unfolding count_pool inc_node_count
has-count_pool key p none m h = rw has-insert (ground arith)
has-count_pool key p (some pool) m h = rw has-insert (ground (arith, has-insert pool p 0 m))

has-count_nodes :
    (key p : String) (cs : List Component) (m : Dict ℕ)
    → has p m ≡ true
    → has p (count_nodes key cs m) ≡ true
unfolding count_nodes
has-count_nodes key p [] m h = h
has-count_nodes key p (c ∷ cs) m h =
    has-count_nodes key p cs (count_pool key c.pool m) (has-count_pool key p c.pool m h)

has-add_driver :
    (p : String) (driver : Option Driver) (found : Bool) (m missing : LoadTestMissing)
    → has p m.node_count_by_pool ≡ true
    → add_driver driver found m ≡ returns missing
    → has p missing.node_count_by_pool ≡ true
unfolding add_driver
has-add_driver p driver true m missing h e =
    subst (λ x. has p x.node_count_by_pool ≡ true) (returns-injective e) h
has-add_driver p (some d) false m missing h e =
    subst (λ x. has p x.node_count_by_pool ≡ true) (returns-injective e)
      (has-count_pool _ p d.pool m.node_count_by_pool h)
has-add_driver p none false m missing h e = cc

has-collect :
    (order : MapOrder) (driver : Option Driver) (s : Search) (missing : LoadTestMissing)
    (p : String)
    → has p no_nodes ≡ true
    → collect order driver s ≡ returns missing
    → has p missing.node_count_by_pool ≡ true
unfolding collect
has-collect order driver s missing p h e =
    has-add_driver p driver s.found_driver _ missing
      (has-count_nodes default_server_pool p (values (order.servers s.servers)) _
        (has-count_nodes default_client_pool p (values (order.clients s.clients)) no_nodes h))
      e

-- The three default keys are always there.
pub has-check_missing_pods :
    (order : MapOrder) (test : LoadTest) (pods : List Pod) (missing : LoadTestMissing) (p : String)
    → has p no_nodes ≡ true
    → check_missing_pods order test pods ≡ returns missing
    → has p missing.node_count_by_pool ≡ true
unfolding check_missing_pods
has-check_missing_pods order test pods missing p h e =
    let (clients, _, e) = >>=-eq-returns (require_all test.spec.clients []) _ e in
    let (servers, _, e) = >>=-eq-returns (require_all test.spec.servers []) _ e in
    let (s, _, e) =
      >>=-eq-returns
        (search_pods test.spec.driver pods
          (record { clients = clients; servers = servers; found_driver = false }))
        _ e in
    has-collect order test.spec.driver s missing p h e
