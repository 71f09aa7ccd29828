-- ===== src/Status/Missing/Contract.antt =====
-- What `CheckMissingPods` promises, with no maps and no loops.
use mathlib.Core.List.{Perm}
use mathlib.Core.List.Perm
use grpc_test_infra.Base.{
  ℕ, ◌+◌, String, Bool, false, Option, none, some, List, [], ◌∷◌, returns, ◌>>=◌, ◌≡◌, refl, ap,
  ◌∙◌, ◌==◌, if◌then◌else◌, keep, any, tally, arith, subst, Bool-cases, inl, inr,
}
use grpc_test_infra.Base.Dict.{Dict, lookup_or, values}
use grpc_test_infra.Config.Constants.{driver_role, client_role, server_role}
use grpc_test_infra.Api.{Component, Driver, LoadTest}
use grpc_test_infra.Kube.{Pod}
use grpc_test_infra.Status.Missing.{
  LoadTestMissing, Search, MapOrder, no_nodes, default_client_pool, default_server_pool,
  default_driver_pool, count_pool, count_nodes, add_driver, collect, require_all, search_pods,
  check_missing_pods,
}
use grpc_test_infra.Status.Missing.Required.{name_of, AreDistinct, entries, require_all-eq}
use grpc_test_infra.Status.Missing.Covered.{covers, uncovered, searched, search_pods-eq}
use grpc_test_infra.Status.Missing.Counts.{pool_key, lookup_or-count_pool, lookup_or-count_nodes}

-- Ranging over a map visits each of its entries once.
pub record IsOrder (order : MapOrder) : Type 0 where
  pub clients : (m : Dict Component) → Perm (order.clients m) m
  pub servers : (m : Dict Component) → Perm (order.servers m) m

-- A test whose driver and components are named, with distinct names in each role.
pub record IsNamed (test : LoadTest) (driver : Driver) (name : String) : Type 0 where
  pub has_driver : test.spec.driver ≡ some driver
  pub named : driver.name ≡ some name
  pub clients : AreDistinct test.spec.clients
  pub servers : AreDistinct test.spec.servers

abbrev pub listed : Option Driver → List Driver
listed none = []
listed (some d) = d ∷ []

abbrev pub nodes_in : String → LoadTestMissing → ℕ
nodes_in p m =
    tally (λ c. pool_key default_client_pool c == p) m.clients
    + tally (λ c. pool_key default_server_pool c == p) m.servers
    + tally (λ c. pool_key default_driver_pool c == p) (listed m.driver)

pub record IsMissing (test : LoadTest) (driver : Driver) (name : String) (pods : List Pod)
    (m : LoadTestMissing) : Type 0 where
  pub clients :
      Perm m.clients (keep (λ c. uncovered client_role pods (name_of c)) test.spec.clients)
  pub servers :
      Perm m.servers (keep (λ c. uncovered server_role pods (name_of c)) test.spec.servers)
  pub driver_missing :
      m.driver ≡ (if any (λ p. covers driver_role name p.labels) pods then none else some driver)
  pub counts : (p : String) → lookup_or 0 p m.node_count_by_pool ≡ nodes_in p m

values-keep-entries :
    (u : String → Bool) (cs : List Component)
    → values (keep (λ e. u e.0) (entries cs)) ≡ keep (λ c. u (name_of c)) cs
values-keep-entries u [] = refl
values-keep-entries u (c ∷ cs) = ground (arith, values-keep-entries u cs)

lookup_or-no_nodes : (p : String) → lookup_or 0 p no_nodes ≡ 0
unfolding lookup_or
lookup_or-no_nodes p = ground arith

module _ (order : MapOrder) (driver : Driver) (s : Search) where
  abbrev pub worker_counts : Dict ℕ
  worker_counts =
      count_nodes default_server_pool (values (order.servers s.servers))
        (count_nodes default_client_pool (values (order.clients s.clients)) no_nodes)

  abbrev pub collected : LoadTestMissing
  collected = record {
    driver = if s.found_driver then none else some driver;
    servers = values (order.servers s.servers);
    clients = values (order.clients s.clients);
    node_count_by_pool =
        if s.found_driver
        then worker_counts
        else count_pool default_driver_pool driver.pool worker_counts;
  }

  pub collect-eq : collect order (some driver) s ≡ returns collected
  unfolding collect
  collect-eq = elim (Bool-cases s.found_driver) [
    | inl e ↦ rw (e, add_driver) refl
    | inr e ↦ rw (e, add_driver) refl
  ]

  counts-collected :
      (p : String) → lookup_or 0 p collected.node_count_by_pool ≡ nodes_in p collected
  counts-collected p = ground (
    arith,
    lookup_or-count_nodes default_server_pool (values (order.servers s.servers)) p
        (count_nodes default_client_pool (values (order.clients s.clients)) no_nodes),
    lookup_or-count_nodes default_client_pool (values (order.clients s.clients)) p no_nodes,
    lookup_or-no_nodes p,
    lookup_or-count_pool default_driver_pool driver.pool p worker_counts,
  )

-- For a named test the check returns, whatever order Go ranges over its maps in: the missing clients
-- and servers are, up to order, those of the spec that no pod covers by its role and component
-- labels; the driver is missing exactly if no pod covers it; and each key of the node counts holds
-- the number of missing components of that pool, those without a pool under their role's key.
pub check_missing_pods-IsMissing :
    (order : MapOrder) (test : LoadTest) (driver : Driver) (name : String) (pods : List Pod)
    → IsOrder order
    → IsNamed test driver name
    → (m : LoadTestMissing) × (check_missing_pods order test pods ≡ returns m)
      × IsMissing test driver name pods m
unfolding check_missing_pods
check_missing_pods-IsMissing order test driver name pods fair named =
    let found : Search = searched name pods (record {
      clients = entries test.spec.clients;
      servers = entries test.spec.servers;
      found_driver = false;
    }) in
    (
      collected order driver found,
      run,
      record {
        clients = ordered (order.clients) fair.clients client_role test.spec.clients;
        servers = ordered (order.servers) fair.servers server_role test.spec.servers;
        driver_missing = refl;
        counts = counts-collected order driver found;
      },
    )
  where
    ordered :
        (visit : Dict Component → Dict Component)
        → ((m : Dict Component) → Perm (visit m) m)
        → (role : String) (cs : List Component)
        → Perm
            (values (visit (keep (λ e. uncovered role pods e.0) (entries cs))))
            (keep (λ c. uncovered role pods (name_of c)) cs)
    ordered visit any_order role cs =
        subst (Perm (values (visit (keep (λ e. uncovered role pods e.0) (entries cs)))))
          (values-keep-entries (uncovered role pods) cs)
          (Perm.map (λ (e : String × Component). e.1)
            (any_order (keep (λ e. uncovered role pods e.0) (entries cs))))

    start : Search
    start = record {
      clients = entries test.spec.clients;
      servers = entries test.spec.servers;
      found_driver = false;
    }

    run :
        check_missing_pods order test pods
        ≡ returns (collected order driver (searched name pods start))
    run =
        ap
          (λ o. o >>= λ clients. require_all test.spec.servers [] >>= λ servers.
            search_pods test.spec.driver pods
              (record { clients = clients; servers = servers; found_driver = false })
            >>= collect order test.spec.driver)
          (require_all-eq test.spec.clients named.clients)
        ∙ ap
            (λ o. o >>= λ servers.
              search_pods test.spec.driver pods (record {
                clients = entries test.spec.clients;
                servers = servers;
                found_driver = false;
              })
              >>= collect order test.spec.driver)
            (require_all-eq test.spec.servers named.servers)
        ∙ ap (λ d. search_pods d pods start >>= collect order d) named.has_driver
        ∙ ap (λ o. o >>= collect order (some driver))
            (search_pods-eq driver name pods start named.named)
        ∙ collect-eq order driver (searched name pods start)
