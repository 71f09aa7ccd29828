-- ===== src/Status/Missing/Uncovered.antt =====
-- What CheckMissingPods returns against the pods of the test, also where names of the test are equal.
use mathlib.Core.Bool.{Bool-set}
use mathlib.Core.List.{Memᴰ, Perm}
use mathlib.Core.List.Perm
use mathlib.Core.Logic.{∥∥₁_elim}
use grpc_test_infra.Base.{
  String, Bool, true, false, ◌==◌, not, none, some, List, [], ◌∷◌, returns, >>=-eq-returns,
  returns-injective, deref, deref-returns, get_or, ◌≡◌, ◌⊎◌, sym, ap, subst, ◌∙◌, All, Mem-All,
  keep, any, Bool-cases, inl, inr, if◌then◌else◌,
}
use grpc_test_infra.Base.Dict.{Dict, insert, values}
use grpc_test_infra.Config.Constants.{driver_role, client_role, server_role}
use grpc_test_infra.Api.{Component, Driver, LoadTest}
use grpc_test_infra.Kube.{Pod}
use grpc_test_infra.Status.Missing.{
  LoadTestMissing, Search, MapOrder, collect, require_all, search_pods, check_missing_pods,
}
use grpc_test_infra.Status.Missing.Required.{name_of}
use grpc_test_infra.Status.Missing.Covered.{covers, uncovered, searched, search_pods-eq}
use grpc_test_infra.Status.Missing.Contract.{IsOrder, collected, collect-eq}

-- A component of a role is among the missing ones.
abbrev pub Lacks : LoadTestMissing → String → Component → Type 0
Lacks missing role c =
    ((role ≡ server_role) × Memᴰ c missing.servers)
    ⊎ ((role ≡ client_role) × Memᴰ c missing.clients)
    ⊎ ((role ≡ driver_role) × (missing.driver ≡ some c))

-- Each component stands under its name.
abbrev IsKeyed : Dict Component → Type 0
IsKeyed = All (λ e. e.0 ≡ name_of e.1)

insert-IsKeyed :
    (name : String) (c : Component) (m : Dict Component)
    → name ≡ name_of c
    → IsKeyed m
    → IsKeyed (insert name c m)
unfolding insert
insert-IsKeyed name c [] e h = (e, tt)
insert-IsKeyed name c ((here, held) ∷ m) e (k, h) = elim (Bool-cases (here == name)) [
  | inl same ↦ rw same (e, h)
  | inr other ↦ rw other (k, insert-IsKeyed name c m e h)
]

require_all-IsKeyed :
    (cs : List Component) (m required : Dict Component)
    → IsKeyed m
    → require_all cs m ≡ returns required
    → IsKeyed required
unfolding require_all
require_all-IsKeyed [] m required h e = subst IsKeyed (returns-injective e) h
require_all-IsKeyed (c ∷ cs) m required h e =
    let (name, named, rest) =
      >>=-eq-returns (deref c.name) (λ n. require_all cs (insert n c m)) e in
    require_all-IsKeyed cs (insert name c m) required
      (insert-IsKeyed name c m (sym (ap (get_or "") (deref-returns c.name named))) h) rest

keep-names :
    (u : String → Bool) (m : Dict Component)
    → IsKeyed m
    → All (λ c. u (name_of c) ≡ true) (values (keep (λ e. u e.0) m))
keep-names u [] h = tt
keep-names u ((key, c) ∷ m) (k, h) = elim (Bool-cases (u key)) [
  | inl e ↦ rw e (ap u (sym k) ∙ e, keep-names u m h)
  | inr e ↦ rw e (keep-names u m h)
]

-- In whatever order the map is visited, its components satisfy what was asked of their keys.
visit-names :
    (visit : Dict Component → Dict Component) (u : String → Bool) (m : Dict Component)
    (c : Component)
    → ((d : Dict Component) → Perm (visit d) d)
    → IsKeyed m
    → Memᴰ c (values (visit (keep (λ e. u e.0) m)))
    → u (name_of c) ≡ true
visit-names visit u m c any_order h member =
    ∥∥₁_elim
      ((Perm.mem_iff
          (Perm.map (λ (e : String × Component). e.1) (any_order (keep (λ e. u e.0) m)))).0
        ∣ member ∣₁)
      (Bool-set _ _)
      (Mem-All (λ c. u (name_of c) ≡ true) (values (keep (λ e. u e.0) m)) (keep-names u m h))

driver-uncovered :
    (driver c : Driver) (name : String) (pods : List Pod)
    → driver.name ≡ some name
    → (if any (λ p. covers driver_role name p.labels) pods then none else some driver) ≡ some c
    → uncovered driver_role pods (name_of c) ≡ true
driver-uncovered driver c name pods named h =
    elim (Bool-cases (any (λ p. covers driver_role name p.labels) pods)) [
      | inl e ↦ absurd (none-some (rw e at h))
      | inr e ↦
          subst (λ n. uncovered driver_role pods n ≡ true)
            (sym (ap (get_or "") named) ∙ ap name_of (ap (get_or driver) (rw e at h))) (ap not e)
    ]
  where
    none-some : none ≡ some c → ⊥
    none-some e = cc

module _ (order : MapOrder) (test : LoadTest) (driver : Driver) (name : String) (pods : List Pod)
    (fair : IsOrder order) (has_driver : test.spec.driver ≡ some driver)
    (named : driver.name ≡ some name) where
  collected-uncovered :
      (clients servers : Dict Component) (role : String) (c : Component)
      → IsKeyed clients
      → IsKeyed servers
      → Lacks
          (collected order driver (
            searched name pods
              (record { clients = clients; servers = servers; found_driver = false })))
          role
          c
      → uncovered role pods (name_of c) ≡ true
  collected-uncovered clients servers role c cs ss (inl (e, m)) =
      subst (λ r. uncovered r pods (name_of c) ≡ true) (sym e)
        (visit-names order.servers (uncovered server_role pods) servers c fair.servers ss m)
  collected-uncovered clients servers role c cs ss (inr (inl (e, m))) =
      subst (λ r. uncovered r pods (name_of c) ≡ true) (sym e)
        (visit-names order.clients (uncovered client_role pods) clients c fair.clients cs m)
  collected-uncovered clients servers role c cs ss (inr (inr (e, m))) =
      subst (λ r. uncovered r pods (name_of c) ≡ true) (sym e)
        (driver-uncovered driver c name pods named m)

  -- What the check returns as missing has no pod, by the labels of the role and the name.
  pub check_missing_pods-uncovered :
      (missing : LoadTestMissing) (role : String) (c : Component)
      → check_missing_pods order test pods ≡ returns missing
      → Lacks missing role c
      → uncovered role pods (name_of c) ≡ true
  unfolding check_missing_pods
  check_missing_pods-uncovered missing role c e lacks =
      let (clients, for_clients, e) = >>=-eq-returns (require_all test.spec.clients []) _ e in
      let (servers, for_servers, e) = >>=-eq-returns (require_all test.spec.servers []) _ e in
      let start : Search = record { clients = clients; servers = servers; found_driver = false } in
      let (s, searching, e) = >>=-eq-returns (search_pods test.spec.driver pods start) _ e in
      let found : s ≡ searched name pods start = returns-injective (
        sym searching
        ∙ ap (λ d. search_pods d pods start) has_driver
        ∙ search_pods-eq driver name pods start named) in
      let same : missing ≡ collected order driver (searched name pods start) = returns-injective (
        sym e
        ∙ ap (λ d. collect order d s) has_driver
        ∙ collect-eq order driver s
        ∙ ap (λ s. returns (collected order driver s)) found) in
      collected-uncovered clients servers role c
        (require_all-IsKeyed test.spec.clients [] clients tt for_clients)
        (require_all-IsKeyed test.spec.servers [] servers tt for_servers)
        (subst (λ m. Lacks m role c) same lacks)
