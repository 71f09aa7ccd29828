-- ===== src/Controller/Conduct/Needed.antt =====
-- The pods that Reconcile creates against the pods that the cluster listed.
use grpc_test_infra.Base.{
  true, false, Bool, get_or, some, ◌≡◌, ◌∙◌, sym, ap, Option-cases, subst, arith, inl, inr, any,
  not,
}
use grpc_test_infra.Config.Images.{Defaults}
use grpc_test_infra.Config.Defaults.Complete.{is_complete}
use grpc_test_infra.Config.Defaults.Whole.{IsReady, set_load_test_defaults-IsReady}
use grpc_test_infra.Api.{Driver, LoadTest}
use grpc_test_infra.Kube.{Pod}
use grpc_test_infra.Status.LoadTest.{pods_for_load_test}
use grpc_test_infra.Status.Missing.Required.{name_of}
use grpc_test_infra.Status.Missing.Covered.{covers}
use grpc_test_infra.Status.Missing.Contract.{IsOrder}
use grpc_test_infra.Status.Missing.Uncovered.{check_missing_pods-uncovered}
use grpc_test_infra.Controller.Cluster.{Call, delete_load_test, create_pod, History, Cluster}
use grpc_test_infra.Controller.Conduct.{IsDue, IsPlaced, IsExpired, Checked}

-- Among the listed pods of the test none has the role and the name of the component.
pub record IsNeeded (k : Cluster) (defaults : Defaults) (pod : Pod) : Type 0 where
  pub placed : IsPlaced k defaults pod
  pub unserved :
      any
        (λ p. covers placed.role (name_of placed.component) p.labels)
        (pods_for_load_test (some placed.test) placed.room.pods)
      ≡ false

abbrev pub Allowed : Cluster → Defaults → Call → Type 0
Allowed k defaults (delete_load_test test) = IsExpired k test
Allowed k defaults (create_pod pod) = IsNeeded k defaults pod
Allowed k defaults _ = Unit

not-true : (b : Bool) → not b ≡ true → b ≡ false
not-true b h = ground (arith, h)

some-name_of : (driver : Driver) → is_complete driver ≡ true → driver.name ≡ some (name_of driver)
some-name_of driver h = elim (Option-cases driver.name) [
  | inl e ↦ absurd (ground (arith, e, h))
  | inr (name, e) ↦ e ∙ ap some (sym (ap (get_or "") e))
]

module _ (k : Cluster) (defaults : Defaults) (fair : (h : History) → IsOrder (k.order h)) where
  -- The driver of a test with its defaults has a name.
  IsDue-driver :
      (test : LoadTest)
      → IsDue k defaults test
      → (driver : Driver) × (test.spec.driver ≡ some driver) × (driver.name ≡ some (name_of driver))
  IsDue-driver test due =
      let (h, filled) = due.with_defaults in
      let is_ready : IsReady defaults due.filled =
        subst (λ (t : LoadTest). IsReady defaults t) (ap (λ r. r.0) filled)
          (set_load_test_defaults-IsReady (k.fresh h) defaults due.raw (ap (λ r. r.1) filled)) in
      (
        is_ready.driver,
        ap (λ (t : LoadTest). t.spec.driver) due.refreshed ∙ is_ready.has_driver,
        some-name_of is_ready.driver is_ready.driver_complete,
      )

  IsNeeded-placed : (pod : Pod) → IsPlaced k defaults pod → IsNeeded k defaults pod
  IsNeeded-placed pod placed =
      let (driver, has_driver, named) = IsDue-driver placed.test placed.due in
      let (h, lacks) = placed.room.lacks in
      record {
        placed = placed;
        unserved = not-true _ (
            check_missing_pods-uncovered (k.order h) placed.test driver (name_of driver)
              (pods_for_load_test (some placed.test) placed.room.pods) (fair h) has_driver named
              placed.missing placed.role placed.component lacks placed.lacking);
      }

  pub Checked-Allowed : (call : Call) → Checked k defaults call → Allowed k defaults call
  Checked-Allowed (create_pod pod) placed = IsNeeded-placed pod placed
  Checked-Allowed (delete_load_test test) expired = expired
  Checked-Allowed _ h = tt
