-- ===== src/PodBuilder/Labels.antt =====
-- podbuilder/podbuilder.go: the labels of the driver's pod, and those that its ready container awaits.
use grpc_test_infra.Base.{
  String, Option, some, List, [], ◌∷◌, ◌++◌, Outcome, returns, panics, none, ◌>>=◌, >>=-eq-returns,
  returns-injective, ok-injective, sym, deref, ok, ◌≡◌, refl, map, ap, ◌∙◌, subst, get_or, All,
  eq_refl,
}
use grpc_test_infra.Base.Dict.{Dict, lookup_or}
use grpc_test_infra.Config.Constants.{client_role, driver_role, server_role}
use grpc_test_infra.Config.Images.{Defaults}
use grpc_test_infra.Api.{Component, Driver, LoadTest}
use grpc_test_infra.Kube.{Container, Pod}
use grpc_test_infra.PodBuilder.Base.{PodBuilder, new_pod, run_container}
use grpc_test_infra.PodBuilder.Ready.{
  selector_args, selector_arg, new_ready_container, ready_container, with_ready, with_workers_file,
}
use grpc_test_infra.PodBuilder.Worker.{
  prepare, node_selector, with_selector, finish_driver, add_scenarios, pod_for_client,
  pod_for_server, pod_for_driver,
}
use grpc_test_infra.PodBuilder.Built.{
  IsPodOf, IsBuilt, labels_of, pod_for_client-IsBuilt, pod_for_server-IsBuilt,
}
use grpc_test_infra.Base.Text.{cat_all}
use grpc_test_infra.Status.LoadTest.{belongs_to}
use grpc_test_infra.Status.Missing.Required.{name_of}

abbrev pub AreNamed : List Component → Type 0
AreNamed cs = All (λ c. c.name ≡ some (name_of c)) cs

-- The selectors of the pods of components of a role.
abbrev pub selectors : String → String → List Component → List String
selectors test role cs = map (λ c. selector_arg test role (name_of c)) cs

selector_args-eq :
    (test role : String) (cs : List Component)
    → AreNamed cs
    → selector_args test role cs ≡ returns (selectors test role cs)
unfolding selector_args
selector_args-eq test role [] h = refl
selector_args-eq test role (c ∷ cs) (e, h) =
    ap
      (λ (o : Option String). deref o >>= λ name.
        selector_args test role cs >>= λ args. returns (selector_arg test role name ∷ args))
      e
    ∙ rw (selector_args-eq test role cs h)

-- The selectors of all the workers of a test, the servers first.
abbrev pub worker_selectors : LoadTest → List String
worker_selectors test =
    selectors test.name server_role test.spec.servers
    ++ selectors test.name client_role test.spec.clients

new_ready_container-eq :
    (defs : Defaults) (test : LoadTest)
    → AreNamed test.spec.servers
    → AreNamed test.spec.clients
    → new_ready_container (some defs) test
      ≡ returns (ready_container defs test (worker_selectors test))
unfolding new_ready_container
new_ready_container-eq defs test s c = rw (
  selector_args-eq test.name server_role test.spec.servers s,
  selector_args-eq test.name client_role test.spec.clients c,
)

abbrev pub driver_pod_with : Container → PodBuilder → Dict String → Pod
driver_pod_with ready pb selector =
    let pod = with_selector (new_pod pb) selector in
    record pod {
      spec =
          add_scenarios pb.test
            (with_ready ready pod.spec, with_workers_file (run_container pb.run));
    }

finish_driver-with :
    (pb : PodBuilder) (selector : Dict String) (o : Outcome Container)
    → new_ready_container (some pb.defaults) pb.test ≡ o
    → finish_driver pb.defaults pb.test (new_pod pb) (some selector)
      ≡ (o >>= λ ready. returns (ok (driver_pod_with ready pb selector)))
unfolding finish_driver new_pod
finish_driver-with pb selector panics e = rw e refl
finish_driver-with pb selector (returns ready) e = rw e refl

abbrev driver_pod : PodBuilder → Dict String → Pod
driver_pod pb selector =
    driver_pod_with (ready_container pb.defaults pb.test (worker_selectors pb.test)) pb selector

finish_driver-some :
    (pb : PodBuilder) (selector : Dict String)
    → AreNamed pb.test.spec.servers
    → AreNamed pb.test.spec.clients
    → finish_driver pb.defaults pb.test (new_pod pb) (some selector)
      ≡ returns (ok (driver_pod pb selector))
finish_driver-some pb selector s c =
    finish_driver-with pb selector _ (new_ready_container-eq pb.defaults pb.test s c)

driver_pod-IsPodOf :
    (pb : PodBuilder) (ready : Container) (selector : Dict String)
    → IsPodOf pb.test pb.role pb.name selector (driver_pod_with ready pb selector)
unfolding new_pod belongs_to lookup_or
driver_pod-IsPodOf pb ready selector = record {
  labelled = refl;
  owned = eq_refl pb.test.name;
  covering = simp eq_refl;
  has_role = refl;
  namespace = refl;
  placed = refl;
  runs_once = refl;
}

-- A label selector that asks for these labels.
abbrev pieces : Dict String → List String
pieces [] = []
pieces ((key, value) ∷ []) = key ∷ "=" ∷ value ∷ []
pieces ((key, value) ∷ l ∷ ls) = key ∷ "=" ∷ value ∷ "," ∷ pieces (l ∷ ls)

abbrev pub asking_for : Dict String → String
asking_for labels = cat_all (pieces labels)

-- For each worker of a role, the selector that asks for the labels of its pod.
abbrev pub awaited : LoadTest → String → List Component → List String
awaited test role cs = map (λ c. asking_for (labels_of test role (name_of c))) cs

-- The ready init container is the last one, and waits for one pod of each server and each client.
abbrev pub WaitsForWorkers : LoadTest → Pod → Type 0
WaitsForWorkers test pod =
    (before : List Container) × (ready : Container) × (pod.spec.init_containers
      ≡ before ++ ready ∷ [])
    × (ready.args
        ≡ awaited test server_role test.spec.servers ++ awaited test client_role test.spec.clients)

-- The builder refuses a worker of the test, or its pod has the labels that it is awaited by.
abbrev pub WorkersAreBuilt : PodBuilder → Type 0
WorkersAreBuilt given =
    All (λ c. IsBuilt given.test server_role c (pod_for_server given c).1) given.test.spec.servers
    × All (λ c. IsBuilt given.test client_role c (pod_for_client given c).1) given.test.spec.clients

workers-IsBuilt : (given : PodBuilder) → WorkersAreBuilt given
workers-IsBuilt given = (
  each (pod_for_server-IsBuilt given) given.test.spec.servers,
  each (pod_for_client-IsBuilt given) given.test.spec.clients,
)
  where
    each : {P : Component → Type 0} → ((c : Component) → P c) → (cs : List Component) → All P cs
    each p [] = tt
    each p (c ∷ cs) = (p c, each p cs)

-- Where a pool is known for a driver and every server and client is named, the driver's pod is
-- built: it belongs to the test, stands for the driver, carries the node selector, and its last init
-- container waits for one pod of each server and each client, by a selector that asks for the test,
-- the role and the name. These are the labels of the pod of that worker, unless the builder refuses
-- to build it.
pub pod_for_driver-IsPodOf :
    (given : PodBuilder) (c : Driver) (name : String) (selector : Dict String)
    → c.name ≡ some name
    → AreNamed given.test.spec.servers
    → AreNamed given.test.spec.clients
    → node_selector (λ labels. labels.driver) given.defaults.default_pool_labels c.pool
      ≡ some selector
    → (pod : Pod) × ((pod_for_driver given c).1 ≡ returns (ok pod))
      × IsPodOf given.test driver_role name selector pod
      × WaitsForWorkers given.test pod
      × WorkersAreBuilt given
unfolding prepare new_pod
pod_for_driver-IsPodOf given c name selector named servers clients placed =
    let pb : PodBuilder = prepare given driver_role c in
    (
      driver_pod pb selector,
      unfold pod_for_driver in
          ap (finish_driver pb.defaults pb.test (new_pod pb)) placed
          ∙ finish_driver-some pb selector servers clients,
      subst (λ n. IsPodOf given.test driver_role n selector (driver_pod pb selector))
          (ap (get_or "") named)
          (driver_pod-IsPodOf pb (ready_container pb.defaults pb.test (worker_selectors pb.test))
            selector),
      (_, _, refl, refl),
      workers-IsBuilt given,
    )

-- With no assumption on the test, a pod that is built for a driver stands for it.
pub pod_for_driver-built :
    (given : PodBuilder) (c : Driver) (pod : Pod)
    → (pod_for_driver given c).1 ≡ returns (ok pod)
    → (selector : Dict String) × IsPodOf given.test driver_role (name_of c) selector pod
unfolding pod_for_driver
pod_for_driver-built given c pod h =
    go (node_selector (λ labels. labels.driver) pb.defaults.default_pool_labels c.pool) h
  where
    pb : PodBuilder
    pb = prepare given driver_role c

    go :
        (placing : Option (Dict String))
        → finish_driver pb.defaults pb.test (new_pod pb) placing ≡ returns (ok pod)
        → (selector : Dict String) × IsPodOf given.test driver_role (name_of c) selector pod
    go none h = absurd (unfold finish_driver in cc)
    go (some selector) h =
        let (ready, _, e) =
          >>=-eq-returns (new_ready_container (some pb.defaults) pb.test) _
            (sym (finish_driver-with pb selector _ refl) ∙ h) in
        (
          selector,
          subst (IsPodOf given.test driver_role (name_of c) selector)
              (ok-injective (returns-injective e))
              (unfold prepare in driver_pod-IsPodOf pb ready selector),
        )
