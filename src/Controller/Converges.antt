-- ===== src/Controller/Converges.antt =====
-- The controller converges: once a pod has been created for each missing component, and no pod has
-- gone, the next search finds nothing missing.
use mathlib.Core.List.{Memᴰ, Perm}
use mathlib.Core.List.Perm
use mathlib.Core.Bool.{Bool-set}
use mathlib.Core.Logic.{∥∥₁_elim}
use grpc_test_infra.Base.{
  any-Mem, some_Mem, keep-Mem, String, true, not, Option, none, some, List, [], ◌∷◌, ◌≡◌, refl, sym,
  ap, ◌∙◌, subst, returns, keep, any, All, All-Mem, Mem-All, keep-none, get_or, returns-injective,
  Bool-cases, inl, inr, if◌then◌else◌,
}
use grpc_test_infra.Config.Constants.{client_role, driver_role, server_role}
use grpc_test_infra.Config.Images.{Defaults}
use grpc_test_infra.Api.{Component, Driver, LoadTest}
use grpc_test_infra.Kube.{Pod}
use grpc_test_infra.Status.LoadTest.{belongs_to, pods_for_load_test}
use grpc_test_infra.Status.Missing.{LoadTestMissing, MapOrder, check_missing_pods, is_empty}
use grpc_test_infra.Status.Missing.Required.{name_of}
use grpc_test_infra.Status.Missing.Covered.{covers, uncovered}
use grpc_test_infra.Status.Missing.Contract.{
  IsOrder, IsNamed, IsMissing, check_missing_pods-IsMissing,
}
use grpc_test_infra.Status.Owned.{owned-Mem, Mem-owned}
use grpc_test_infra.Controller.Cluster.{Cluster, History, create_pod, goes_on}
use grpc_test_infra.Controller.Schedule.{if_missing, schedule_pods}
use grpc_test_infra.Controller.Filled.{IsCreated, IsGranting}
use grpc_test_infra.Controller.Gang.{AreCreated, IsReady, schedule_pods-AreCreated}
use grpc_test_infra.Controller.Pools.{DefaultPools}

module _ (test : LoadTest) (before after : List Pod) (h : History) where
  -- No pod of the test has gone: the pods that were listed before and belong to it, and those that
  -- have been created, are listed.
  pub record AreKept : Type 0 where
    pub listed : (pod : Pod) → Memᴰ pod before → belongs_to test pod ≡ true → Memᴰ pod after
    pub created : (pod : Pod) → Memᴰ (create_pod pod) h → Memᴰ pod after

  IsCovered : String → String → Type 0
  IsCovered role name =
      any (λ p. covers role name p.labels) (pods_for_load_test (some test) after) ≡ true

  still-IsCovered :
      (role name : String)
      → AreKept
      → any (λ p. covers role name p.labels) (pods_for_load_test (some test) before) ≡ true
      → IsCovered role name
  unfolding IsCovered
  still-IsCovered role name kept e =
      let (pod, m, stands) =
        some_Mem (λ p. covers role name p.labels) (pods_for_load_test (some test) before) e in
      let (n, owned) = Mem-owned test before pod m in
      any-Mem (λ p. covers role name p.labels) (pods_for_load_test (some test) after) pod
        (owned-Mem test after pod (kept.listed pod n owned) owned) stands

  created-IsCovered :
      (role : String) (c : Component)
      → AreKept
      → IsCreated test role h c
      → IsCovered role (name_of c)
  unfolding IsCovered
  created-IsCovered role c kept (pod, m, (owned, stands)) =
      any-Mem (λ p. covers role (name_of c) p.labels) (pods_for_load_test (some test) after) pod
        (owned-Mem test after pod (kept.created pod m) owned) stands

  -- The components that were missing are those that no pod covered.
  worker-IsCovered :
      (role : String) (cs missing : List Component) (c : Component)
      → AreKept
      → Perm missing
          (keep (λ c. uncovered role (pods_for_load_test (some test) before) (name_of c)) cs)
      → All (IsCreated test role h) missing
      → Memᴰ c cs
      → IsCovered role (name_of c)
  unfolding IsCovered
  worker-IsCovered role cs missing c kept lost created m =
      elim (Bool-cases
        (any (λ p. covers role (name_of c) p.labels) (pods_for_load_test (some test) before))) [
          | inl e ↦ still-IsCovered role (name_of c) kept e
          | inr e ↦
              ∥∥₁_elim
                ((Perm.mem_iff (Perm.symm lost)).0
                  ∣ keep-Mem
                    (λ c. uncovered role (pods_for_load_test (some test) before) (name_of c)) cs c m
                    (ap not e) ∣₁)
                (Bool-set _ _)
                (λ n.
                  created-IsCovered role c kept (Mem-All (IsCreated test role h) missing created n))
        ]

  none_missing :
      (role : String) (cs missing later : List Component)
      → ((c : Component) → Memᴰ c cs → IsCovered role (name_of c))
      → Perm later
          (keep (λ c. uncovered role (pods_for_load_test (some test) after) (name_of c)) cs)
      → later ≡ []
  unfolding IsCovered
  none_missing role cs missing later covered lost = Perm.eq-nil (
      subst (Perm later)
        (keep-none (λ c. uncovered role (pods_for_load_test (some test) after) (name_of c)) cs
          (All-Mem cs (λ c m. ap not (covered c m))))
        lost)

  driver-IsCovered :
      (driver : Driver) (name : String) (missing : Option Driver)
      → AreKept
      → driver.name ≡ some name
      → missing ≡ (
          if any (λ p. covers driver_role name p.labels) (pods_for_load_test (some test) before)
          then none
          else some driver)
      → All (IsCreated test driver_role h) (if_missing missing)
      → IsCovered driver_role name
  driver-IsCovered driver name missing kept named lost created =
      elim (Bool-cases
        (any (λ p. covers driver_role name p.labels) (pods_for_load_test (some test) before))) [
          | inl e ↦ still-IsCovered driver_role name kept e
          | inr e ↦
              let was_missing : missing ≡ some driver = rw e at lost in
              let made : All (IsCreated test driver_role h) (driver ∷ []) =
                subst (λ o. All (IsCreated test driver_role h) (if_missing o)) was_missing
                  created in
              subst (IsCovered driver_role) (ap (get_or "") named)
                (created-IsCovered driver_role driver kept made.0)
        ]

  found_driver :
      (driver : Driver) (name : String) (later : Option Driver)
      → IsCovered driver_role name
      → later ≡ (
          if any (λ p. covers driver_role name p.labels) (pods_for_load_test (some test) after)
          then none
          else some driver)
      → later ≡ none
  unfolding IsCovered
  found_driver driver name later covered left = rw covered at left

  nothing_missing :
      (driver : Driver) (name : String) (defaults : Defaults) (missing later : LoadTestMissing)
      → AreKept
      → IsNamed test driver name
      → IsMissing test driver name (pods_for_load_test (some test) before) missing
      → AreCreated test defaults missing h
      → IsMissing test driver name (pods_for_load_test (some test) after) later
      → is_empty later ≡ true
  unfolding is_empty IsCovered
  nothing_missing driver name defaults missing later kept named lost created left =
      rw
        (found_driver driver name later.driver
          (driver-IsCovered driver name missing.driver kept named.named lost.driver_missing
            created.driver)
          left.driver_missing)
        (rw
          (none_missing server_role test.spec.servers missing.servers later.servers
            (λ c.
              worker-IsCovered server_role test.spec.servers missing.servers c kept lost.servers
                created.servers)
            left.servers)
          (rw
            (none_missing client_role test.spec.clients missing.clients later.clients
              (λ c.
                worker-IsCovered client_role test.spec.clients missing.clients c kept lost.clients
                  created.clients)
              left.clients)
            refl))

-- The controller converges: where the API grants every call and the pods that were missing can be
-- built, then after they have been created a search of the pods, in which none of the test's has gone
-- since, finds nothing missing, whatever order Go ranges over its maps in.
pub schedule_pods-converges :
    (k : Cluster) (pools : DefaultPools) (order order' : MapOrder) (test : LoadTest)
    (defaults : Defaults) (driver : Driver) (name : String) (before after : List Pod)
    (missing : LoadTestMissing) (earlier h : History)
    → IsGranting k
    → IsOrder order
    → IsOrder order'
    → IsNamed test driver name
    → check_missing_pods order test (pods_for_load_test (some test) before) ≡ returns missing
    → IsReady test defaults missing
    → schedule_pods defaults test pools missing k earlier ≡ (goes_on tt, h)
    → AreKept test before after h
    → (m : LoadTestMissing) × (check_missing_pods order' test (pods_for_load_test (some test) after)
        ≡ returns m)
      × (is_empty m ≡ true)
schedule_pods-converges k pools order order' test defaults driver name before after missing earlier
      h grants fair fair' named first is_ready run kept =
    let (m, e, lost) =
      check_missing_pods-IsMissing order test driver name (pods_for_load_test (some test) before)
        fair named in
    let (h', run', created) =
      schedule_pods-AreCreated test defaults k pools missing earlier grants is_ready in
    let (m', e', left) =
      check_missing_pods-IsMissing order' test driver name (pods_for_load_test (some test) after)
        fair' named in
    (
      m',
      e',
      nothing_missing test before after h driver name defaults missing m' kept named
          (subst (IsMissing test driver name (pods_for_load_test (some test) before))
            (returns-injective (sym e ∙ first)) lost)
          (subst (AreCreated test defaults missing) (ap (λ r. r.1) (sym run' ∙ run)) created) left,
    )
