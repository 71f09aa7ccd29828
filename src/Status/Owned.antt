-- ===== src/Status/Owned.antt =====
-- The pods that PodsForLoadTest of status/relationships.go returns.
use mathlib.Core.List.{Memᴰ}
use grpc_test_infra.Base.{true, some, List, [], ◌∷◌, ◌≡◌, sym, ap, ◌∙◌, Bool-cases, inl, inr}
use grpc_test_infra.Api.{LoadTest}
use grpc_test_infra.Kube.{Pod}
use grpc_test_infra.Status.LoadTest.{belongs_to, pods_for_load_test}

-- A pod is among the owned ones exactly if it is listed and belongs to the test.
pub owned-Mem :
    (test : LoadTest) (pods : List Pod) (pod : Pod)
    → Memᴰ pod pods
    → belongs_to test pod ≡ true
    → Memᴰ pod (pods_for_load_test (some test) pods)
unfolding pods_for_load_test
owned-Mem test [] pod m h = elim m [ ]
owned-Mem test (p ∷ ps) pod (Memᴰ.head e) h = rw (ap (belongs_to test) (sym e) ∙ h) (Memᴰ.head e)
owned-Mem test (p ∷ ps) pod (Memᴰ.tail m) h = elim (Bool-cases (belongs_to test p)) [
  | inl e ↦ rw e (Memᴰ.tail (owned-Mem test ps pod m h))
  | inr e ↦ rw e (owned-Mem test ps pod m h)
]

Mem-cons :
    (test : LoadTest) (p : Pod) (ps rest : List Pod) (pod : Pod)
    → belongs_to test p ≡ true
    → (Memᴰ pod rest → Memᴰ pod ps × (belongs_to test pod ≡ true))
    → Memᴰ pod (p ∷ rest)
    → Memᴰ pod (p ∷ ps) × (belongs_to test pod ≡ true)
Mem-cons test p ps rest pod owned later (Memᴰ.head e) =
    (Memᴰ.head e, ap (belongs_to test) e ∙ owned)
Mem-cons test p ps rest pod owned later (Memᴰ.tail m) = let (n, h) = later m in (Memᴰ.tail n, h)

pub Mem-owned :
    (test : LoadTest) (pods : List Pod) (pod : Pod)
    → Memᴰ pod (pods_for_load_test (some test) pods)
    → Memᴰ pod pods × (belongs_to test pod ≡ true)
unfolding pods_for_load_test
Mem-owned test [] pod m = elim m [ ]
Mem-owned test (p ∷ ps) pod m = elim (Bool-cases (belongs_to test p)) [
  | inl e ↦
      Mem-cons test p ps (pods_for_load_test (some test) ps) pod e (Mem-owned test ps pod)
        (rw (e, pods_for_load_test) at m)
  | inr e ↦ let (n, h) = Mem-owned test ps pod (rw (e, pods_for_load_test) at m) in (Memᴰ.tail n, h)
]
