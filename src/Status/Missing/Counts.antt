-- ===== src/Status/Missing/Counts.antt =====
-- The counts of nodes by pool.
use grpc_test_infra.Base.{
  ℕ, suc, ◌+◌, String, Option, none, some, List, [], ◌∷◌, ◌≡◌, refl, ◌==◌, eq_iff, if◌then◌else◌,
  get_or, Bool-cases, inl, inr, tally, arith,
}
use grpc_test_infra.Base.Dict.{Dict, has, lookup_or, insert, lookup_or-insert, lookup-insert}
use grpc_test_infra.Api.{Component}
use grpc_test_infra.Status.Missing.{count_pool, count_nodes}

-- The key under which a component is counted.
abbrev pub pool_key : String → Component → String
pool_key default_key c = get_or default_key c.pool

-- Writing 0 under a missing key changes no count.
lookup_or-present :
    (pool p : String) (m : Dict ℕ)
    → lookup_or 0 p (if has pool m then m else insert pool 0 m) ≡ lookup_or 0 p m
unfolding has lookup_or
lookup_or-present pool p m = elim (Bool-cases (has pool m)) [
  | inl e ↦ rw e refl
  | inr e ↦ rw e (ground (arith, lookup-insert pool p 0 m, eq_iff pool p))
]

pub lookup_or-count_pool :
    (default_key : String) (pool : Option String) (p : String) (m : Dict ℕ)
    → lookup_or 0 p (count_pool default_key pool m)
      ≡ (if get_or default_key pool == p then suc (lookup_or 0 p m) else lookup_or 0 p m)
unfolding count_pool
lookup_or-count_pool default_key none p m =
    rw lookup_or-insert (ground (arith, eq_iff default_key p))
lookup_or-count_pool default_key (some pool) p m =
    rw lookup_or-insert
      (ground (arith, eq_iff pool p, lookup_or-present pool p m, lookup_or-present pool pool m))

pub lookup_or-count_nodes :
    (default_key : String) (cs : List Component) (p : String) (m : Dict ℕ)
    → lookup_or 0 p (count_nodes default_key cs m)
      ≡ lookup_or 0 p m + tally (λ c. pool_key default_key c == p) cs
unfolding count_nodes
lookup_or-count_nodes default_key [] p m = omega arith
lookup_or-count_nodes default_key (c ∷ cs) p m = ground (
  arith,
  lookup_or-count_nodes default_key cs p (count_pool default_key c.pool m),
  lookup_or-count_pool default_key c.pool p m,
)
