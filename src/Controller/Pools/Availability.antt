-- ===== src/Controller/Pools/Availability.antt =====
-- What the arithmetic of gang scheduling computes: the free nodes of a pool, counted on the lists.
use grpc_test_infra.Base.{
  ℕ, suc, ◌+◌, ◌≤◌, String, Bool, false, ◌&&◌, not, Option, none, some, List, [], ◌∷◌, ◌≡◌, refl,
  ap, sym, ◌∙◌, ◌==◌, eq_iff, if◌then◌else◌, get_or, Bool-cases, inl, inr, tally, All, All-map,
  arith,
}
use grpc_test_infra.Base.Int.{ℤ, pos, ◌-ℤ◌, ltb_ℤ}
use grpc_test_infra.Base.Dict.{Dict, lookup, lookup_or, has, lookup_or-insert, lookup-insert}
use grpc_test_infra.Config.Constants.{pool_label}
use grpc_test_infra.Config.Images.{PoolLabelMap}
use grpc_test_infra.Kube.{Pod, Node}
use grpc_test_infra.Controller.Pools.{
  Capacities, no_pools, count_node, count_nodes, present, capacities, copy, is_over, take_node,
  take_nodes, availabilities, Fit, fits, fit_pool, check_pools,
}

abbrev pub labelled : String → Option String → Bool
labelled pool none = false
labelled pool (some p) = p == pool

abbrev pub in_pool : String → Node → Bool
in_pool pool node = labelled pool (lookup pool_label node.labels)

-- A pod holds a node of a pool until it has succeeded or failed.
abbrev pub holds_node : String → Pod → Bool
holds_node pool pod = labelled pool (lookup pool_label pod.labels) && not (is_over pod.status.phase)

lookup_or-present :
    (map : Option PoolLabelMap) (pool p : String) (m : Dict ℕ)
    → lookup_or 0 p (present map pool m) ≡ lookup_or 0 p m
lookup_or-present none pool p m = refl
lookup_or-present (some map) pool p m = elim (Bool-cases (has pool m)) [
  | inl e ↦ rw e refl
  | inr e ↦
      rw e
        (unfold has in unfold lookup_or in ground (arith, lookup-insert pool p 0 m, eq_iff pool p))
]

lookup_or-count_node :
    (map : Option PoolLabelMap) (node : Node) (label : Option String) (p : String) (c : Capacities)
    → lookup_or 0 p (count_node map node label c).capacity
      ≡ (if labelled p label then suc (lookup_or 0 p c.capacity) else lookup_or 0 p c.capacity)
unfolding count_node
lookup_or-count_node map node none p c = refl
lookup_or-count_node map node (some pool) p c =
    lookup_or-insert 0 pool p (lookup_or 0 pool (present map pool c.capacity) + 1)
      (present map pool c.capacity)
    ∙ ground (
      arith,
      eq_iff pool p,
      lookup_or-present map pool p c.capacity,
      lookup_or-present map pool pool c.capacity,
    )

lookup_or-count_nodes :
    (map : Option PoolLabelMap) (nodes : List Node) (p : String) (c : Capacities)
    → lookup_or 0 p (count_nodes map nodes c).capacity
      ≡ lookup_or 0 p c.capacity + tally (in_pool p) nodes
unfolding count_nodes
lookup_or-count_nodes map [] p c = omega arith
lookup_or-count_nodes map (node ∷ nodes) p c =
    let label : Option String = lookup pool_label node.labels in
    ground (
      arith,
      lookup_or-count_nodes map nodes p (count_node map node label c),
      lookup_or-count_node map node label p c,
    )

lookup_or-copy : (p : String) (m : Dict ℕ) → lookup_or (pos 0) p (copy m) ≡ pos (lookup_or 0 p m)
unfolding lookup_or copy
lookup_or-copy p [] = refl
lookup_or-copy p ((q, n) ∷ m) = ground (arith, lookup_or-copy p m)

take_one_more : (a : ℤ) (n : ℕ) → (a -ℤ pos 1) -ℤ pos n ≡ a -ℤ pos (suc n)
unfolding ◌-ℤ◌
take_one_more a n = ground arith

take_none : (a : ℤ) → a ≡ a -ℤ pos 0
unfolding ◌-ℤ◌
take_none a = ground arith

lookup_or-take_node :
    (pod : Pod) (label : Option String) (p : String) (m : Dict ℤ)
    → lookup_or (pos 0) p (take_node pod label m) ≡ (
        if labelled p label && not (is_over pod.status.phase)
        then lookup_or (pos 0) p m -ℤ pos 1
        else lookup_or (pos 0) p m)
unfolding take_node
lookup_or-take_node pod none p m = refl
lookup_or-take_node pod (some pool) p m = elim (Bool-cases (is_over pod.status.phase)) [
  | inl e ↦ rw e (ground arith)
  | inr e ↦ rw e (
      lookup_or-insert (pos 0) pool p (lookup_or (pos 0) pool m -ℤ pos 1) m
      ∙ ground (arith, eq_iff pool p))
]

lookup_or-take_nodes :
    (pods : List Pod) (p : String) (m : Dict ℤ)
    → lookup_or (pos 0) p (take_nodes pods m)
      ≡ lookup_or (pos 0) p m -ℤ pos (tally (holds_node p) pods)
unfolding take_nodes
lookup_or-take_nodes [] p m = take_none (lookup_or (pos 0) p m)
lookup_or-take_nodes (pod ∷ pods) p m =
    let label : Option String = lookup pool_label pod.labels in
    ground (
      arith,
      lookup_or-take_nodes pods p (take_node pod label m),
      lookup_or-take_node pod label p m,
      take_one_more (lookup_or (pos 0) p m) (tally (holds_node p) pods),
    )

lookup_or-capacities :
    (map : Option PoolLabelMap) (nodes : List Node) (p : String)
    → lookup_or 0 p (capacities map nodes).capacity ≡ tally (in_pool p) nodes
unfolding capacities lookup_or
lookup_or-capacities map nodes p =
    lookup_or-count_nodes map nodes p (record { defaults = no_pools; capacity = [] }) ∙ omega arith

-- The nodes of a pool less the pods that hold one: what `Reconcile` takes as the availability of a
-- pool, 0 where it has no entry.
pub availabilities-free :
    (map : Option PoolLabelMap) (nodes : List Node) (pods : List Pod) (pool : String)
    → lookup_or (pos 0) pool (availabilities (capacities map nodes).capacity pods)
      ≡ pos (tally (in_pool pool) nodes) -ℤ pos (tally (holds_node pool) pods)
unfolding availabilities
availabilities-free map nodes pods pool =
    rw (lookup_or-take_nodes, lookup_or-copy, lookup_or-capacities) refl

-- A requirement of a pool that its free nodes meet.
abbrev pub IsMet : List Node → List Pod → String × ℕ → Type 0
IsMet nodes pods (pool, required) =
    required + tally (holds_node pool) pods ≤ tally (in_pool pool) nodes

fit-le : (n b c : ℕ) → ltb_ℤ (pos n -ℤ pos b) (pos c) ≡ false → c + b ≤ n
unfolding ◌-ℤ◌
fit-le n b c h = ground arith

abbrev Suffices : Dict ℤ → String × ℕ → Type 0
Suffices available (pool, required) =
    ltb_ℤ (lookup_or (pos 0) pool available) (pos required) ≡ false

pub fit_pool-fits :
    (required : ℕ) (o : Option ℤ) (pool : String) (later : Fit)
    → fit_pool required o pool later ≡ fits
    → (ltb_ℤ (get_or (pos 0) o) (pos required) ≡ false) × (later ≡ fits)
unfolding fit_pool
fit_pool-fits required none pool later h = ground arith
fit_pool-fits required (some a) pool later h = ground arith

check_pools-Suffices :
    (required : Dict ℕ) (available : Dict ℤ)
    → check_pools required available ≡ fits
    → All (Suffices available) required
unfolding check_pools lookup_or
check_pools-Suffices [] available h = tt
check_pools-Suffices ((pool, n) ∷ m) available h =
    let (met, rest) = fit_pool-fits n (lookup pool available) pool (check_pools m available) h in
    (met, check_pools-Suffices m available rest)

-- Where the loop over the required pools finds no fault, each of them has as many free nodes as the
-- test requires of it: its nodes less the pods that hold one.
pub check_pools-IsMet :
    (map : Option PoolLabelMap) (nodes : List Node) (pods : List Pod) (required : Dict ℕ)
    → check_pools required (availabilities (capacities map nodes).capacity pods) ≡ fits
    → All (IsMet nodes pods) required
check_pools-IsMet map nodes pods required h =
    All-map
      (λ (pool, n) met.
        fit-le (tally (in_pool pool) nodes) (tally (holds_node pool) pods) n
          (ap (λ a. ltb_ℤ a (pos n)) (sym (availabilities-free map nodes pods pool)) ∙ met))
      required (check_pools-Suffices required _ h)
