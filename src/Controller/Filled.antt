-- ===== src/Controller/Filled.antt =====
-- What gang scheduling achieves where the API grants its calls: a pod for each missing component.
use mathlib.Core.List.{Memᴰ}
use grpc_test_infra.Base.{
  ℕ, ◌+◌, String, true, Option, none, List, [], ◌∷◌, ◌≡◌, refl, All, returns, ok,
}
use grpc_test_infra.Base.Dict.{lookup-insert, lookup_or-insert}
use grpc_test_infra.Api.{Component, LoadTest}
use grpc_test_infra.Kube.{Pod}
use grpc_test_infra.PodBuilder.{PodBuilder}
use grpc_test_infra.Status.LoadTest.{belongs_to}
use grpc_test_infra.Status.Missing.Covered.{covers}
use grpc_test_infra.Status.Missing.Required.{name_of}
use grpc_test_infra.Controller.Cluster.{
  Call, create_pod, set_pod_owner, History, Cluster, goes_on, Action, bind, pure, write, run_pure,
}
use grpc_test_infra.Controller.Schedule.{
  Loop, label_pool, create_if_owned, create_owned, after_create, place, schedule_one, schedule_each,
}

-- A pod that the controller counts as that of a component of the test.
abbrev pub StandsFor : LoadTest → String → Component → Pod → Type 0
StandsFor test role c pod =
    (belongs_to test pod ≡ true) × (covers role (name_of c) pod.labels ≡ true)

-- The label of the pool changes neither.
pub StandsFor-label_pool :
    (test : LoadTest) (role : String) (c : Component) (pod : Pod) (pool : String)
    (own : Option String)
    → StandsFor test role c pod
    → StandsFor test role c (label_pool pool own pod)
StandsFor-label_pool test role c pod pool own (owned, covering) =
    (unfold belongs_to in rw lookup-insert owned, rw (lookup_or-insert, lookup_or-insert) covering)

-- The pods that a loop builds for its components, one after the other.
abbrev pub Builds : LoadTest → String → Loop → PodBuilder → List Component → Type 0
Builds test role loop b [] = Unit
Builds test role loop b (c ∷ cs) =
    (pod : Pod) × ((loop.build b c).1 ≡ returns (ok pod))
    × StandsFor test role c pod
    × Builds test role loop (loop.build b c).0 cs

abbrev pub IsCreated : LoadTest → String → History → Component → Type 0
IsCreated test role h c = (pod : Pod) × Memᴰ (create_pod pod) h × StandsFor test role c pod

abbrev pub IsGranting : Cluster → Type 0
IsGranting k = (h : History) (call : Call) → k.refuses h call ≡ none

module _ (k : Cluster) (grants : IsGranting k) where
  create_owned-granted :
      (pod : Pod) (h : History)
      → create_owned pod k h ≡ (goes_on none, create_pod pod ∷ set_pod_owner pod ∷ h)
  unfolding create_owned create_if_owned bind write
  create_owned-granted pod h =
      rw (grants h (set_pod_owner pod), grants (set_pod_owner pod ∷ h) (create_pod pod)) refl

  schedule_one-granted :
      (loop : Loop) (test : LoadTest) (i : ℕ) (c : Component) (b : PodBuilder) (pod : Pod)
      (h : History)
      → (loop.build b c).1 ≡ returns (ok pod)
      → schedule_one loop test i c b k h ≡ (
        goes_on (loop.build b c).0,
        create_pod (label_pool loop.default_pool c.pool pod)
            ∷ set_pod_owner (label_pool loop.default_pool c.pool pod)
            ∷ h,
      )
  unfolding schedule_one place bind run_pure pure after_create
  schedule_one-granted loop test i c b pod h built = rw (built, create_owned-granted) refl

  -- The action goes on with a value as it should be, no call is forgotten, and each component has
  -- its pod.
  abbrev pub Fills :
      {A : Type 0} → (A → Type 0) → LoadTest → String → Action A → List Component → Type 0
  Fills {A} Post test role m cs =
      (h : History)
      → (a : A) × (after : History) × Post a
        × (m k h ≡ (goes_on a, after))
        × ((call : Call) → Memᴰ call h → Memᴰ call after)
        × All (IsCreated test role after) cs

  -- A loop that builds a pod for each component, and keeps what is known of the builder.
  module _ (test : LoadTest) (role : String) (loop : Loop) (Known : PodBuilder → Type 0)
      (keeps : (b : PodBuilder) (c : Component) → Known b → Known (loop.build b c).0) where
    pub schedule_each-Fills :
        (i : ℕ) (cs : List Component) (b : PodBuilder)
        → Known b
        → Builds test role loop b cs
        → Fills Known test role (schedule_each loop test i cs b) cs
    unfolding schedule_each pure bind
    schedule_each-Fills i [] b known built h = (b, h, known, refl, λ call m. m, tt)
    schedule_each-Fills i (c ∷ cs) b known (pod, e, stands, rest) h =
        let placed : Pod = label_pool loop.default_pool c.pool pod in
        let h1 : History = create_pod placed ∷ set_pod_owner placed ∷ h in
        let (b', after, known', run, kept, created) =
          schedule_each-Fills (i + 1) cs (loop.build b c).0 (keeps b c known) rest h1 in
        (
          b',
          after,
          known',
          rw (schedule_one-granted loop test i c b pod h e) run,
          λ call m. kept call (Memᴰ.tail (Memᴰ.tail m)),
          (
            (
              placed,
              kept (create_pod placed) (Memᴰ.head refl),
              StandsFor-label_pool test role c pod loop.default_pool c.pool stands,
            ),
            created,
          ),
        )
