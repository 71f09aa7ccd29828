-- ===== src/Controller/Pools/Blocked.antt =====
-- A role without a default pool: its key is renamed to the empty pool name, which no node has.
use grpc_test_infra.Base.{
  ℕ, String, true, false, Option, none, some, List, [], ◌∷◌, ◌≡◌, ◌≢◌, refl, ◌∙◌, ◌==◌, is_some,
  Bool-cases, inl, inr, eq_iff, arith, returns,
}
use grpc_test_infra.Base.Int.{ℤ}
use grpc_test_infra.Base.Dict.{Dict, lookup, has, delete, lookup-delete, has-insert}
use grpc_test_infra.Status.Missing.Keys.{has-check_missing_pods}
use grpc_test_infra.Api.{LoadTest}
use grpc_test_infra.Kube.{Pod}
use grpc_test_infra.Status.Missing.{
  MapOrder, LoadTestMissing, default_client_pool, default_driver_pool, default_server_pool,
  check_missing_pods,
}
use grpc_test_infra.Controller.Pools.{
  DefaultPools, add_count, adjust, adjust_all, Fit, fits, fit_pool, check_pools,
}
use grpc_test_infra.Controller.Pools.Availability.{fit_pool-fits}

has-add_count :
    (o : Option ℕ) (pool p : String) (m : Dict ℕ)
    → has p m ≡ true
    → has p (add_count o pool m) ≡ true
unfolding add_count
has-add_count none pool p m h = h
has-add_count (some c) pool p m h = rw has-insert (ground arith)

has-delete :
    (key p : String) (m : Dict ℕ)
    → (key == p) ≡ false
    → has p m ≡ true
    → has p (delete key m) ≡ true
unfolding has
has-delete key p m apart h = ground (arith, lookup-delete key p m)

-- A key that is another than the one renamed stays.
has-adjust_other :
    (key pool p : String) (m : Dict ℕ)
    → (key == p) ≡ false
    → has p m ≡ true
    → has p (adjust key pool m) ≡ true
unfolding adjust
has-adjust_other key pool p m apart h =
    has-delete key p (add_count (lookup key m) pool m) apart
      (has-add_count (lookup key m) pool p m h)

has-add_count_self :
    (o : Option ℕ) (pool : String) (m : Dict ℕ)
    → is_some o ≡ true
    → has pool (add_count o pool m) ≡ true
unfolding add_count
has-add_count_self none pool m h = ground arith
has-add_count_self (some c) pool m h = rw has-insert (ground (arith, eq_iff pool pool))

-- The new name of a key that is there.
has-adjust :
    (key pool : String) (m : Dict ℕ)
    → (key == pool) ≡ false
    → has key m ≡ true
    → has pool (adjust key pool m) ≡ true
unfolding adjust
has-adjust key pool m apart h =
    has-delete key pool (add_count (lookup key m) pool m) apart
      (has-add_count_self (lookup key m) pool m (unfold has in h))

fit_pool-is_some :
    (n : ℕ) (o : Option ℤ) (pool : String) (later : Fit)
    → fit_pool n o pool later ≡ fits
    → is_some o ≡ true
unfolding fit_pool
fit_pool-is_some n none pool later h = ground arith
fit_pool-is_some n (some a) pool later h = refl

check_pools-blocked :
    (p : String) (m : Dict ℕ) (available : Dict ℤ)
    → has p m ≡ true
    → lookup p available ≡ none
    → check_pools m available ≢ fits
unfolding check_pools has lookup
check_pools-blocked p [] available h closed e = ground arith
check_pools-blocked p ((pool, n) ∷ m) available h closed e =
    let found : is_some (lookup pool available) ≡ true =
      fit_pool-is_some n (lookup pool available) pool (check_pools m available) e in
    elim (Bool-cases (pool == p)) [
      | inl s ↦ ground (arith, found, closed, (eq_iff pool p).0 s)
      | inr s ↦
          check_pools-blocked p m available (ground arith) closed
            (fit_pool-fits n (lookup pool available) pool (check_pools m available) e).1
    ]

-- If no node carries the default pool label of the clients, so that no default client pool was
-- found, and the empty pool name has no availability, the loop over the required pools finds no room
-- for a test that lacks pods, also when each of its components names a pool of its own: the default
-- key of the clients, which is always there, was renamed to the empty name.
pub check_pools_blocked :
    (order : MapOrder) (test : LoadTest) (pods : List Pod) (missing : LoadTestMissing)
    (found : DefaultPools) (range : Dict ℕ → Dict ℕ) (available : Dict ℤ)
    → check_missing_pods order test pods ≡ returns missing
    → found.client ≡ ""
    → ((m : Dict ℕ) (p : String) → has p (range m) ≡ has p m)
    → lookup "" available ≡ none
    → check_pools (range (adjust_all found missing.node_count_by_pool)) available ≢ fits
unfolding adjust_all has
check_pools_blocked order test pods missing found range available lacks none_found visits closed =
    let counts : Dict ℕ = missing.node_count_by_pool in
    let renamed : has "" (adjust default_client_pool found.client counts) ≡ true = rw none_found (
      has-adjust default_client_pool "" counts refl
        (has-check_missing_pods order test pods missing default_client_pool refl lacks)) in
    check_pools-blocked "" (range (adjust_all found counts)) available
      (visits (adjust_all found counts) ""
        ∙ has-adjust_other default_server_pool found.server "" _ refl
            (has-adjust_other default_driver_pool found.driver "" _ refl renamed))
      closed
