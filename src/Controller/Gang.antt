-- ===== src/Controller/Gang.antt =====
-- Gang scheduling as a whole, where the API grants its calls and every missing pod can be built.
use mathlib.Core.List.{Memᴰ}
use grpc_test_infra.Base.{
  String, Option, none, some, List, [], ◌∷◌, ◌≡◌, refl, sym, ap, subst, ◌∙◌, All, All-map,
}
use grpc_test_infra.Base.Dict.{Dict}
use grpc_test_infra.Config.Constants.{client_role, driver_role, server_role}
use grpc_test_infra.Config.Images.{Defaults, PoolLabelMap}
use grpc_test_infra.Api.{Component, LoadTest}
use grpc_test_infra.Kube.{Pod}
use grpc_test_infra.PodBuilder.{PodBuilder}
use grpc_test_infra.PodBuilder.Base.{new}
use grpc_test_infra.PodBuilder.Worker.{
  node_selector, prepare, pod_for_client, pod_for_server, pod_for_driver,
}
use grpc_test_infra.PodBuilder.Built.{IsPodOf, pod_for_client-IsPodOf, pod_for_server-IsPodOf}
use grpc_test_infra.PodBuilder.Labels.{AreNamed, pod_for_driver-IsPodOf}
use grpc_test_infra.Status.Missing.{LoadTestMissing}
use grpc_test_infra.Status.Missing.Required.{name_of}
use grpc_test_infra.Controller.Cluster.{Call, create_pod, History, Cluster, goes_on, bind, pure}
use grpc_test_infra.Controller.Pools.{DefaultPools}
use grpc_test_infra.Controller.Schedule.{
  server_loop, client_loop, driver_loop, if_missing, schedule_pods,
}
use grpc_test_infra.Controller.Filled.{
  StandsFor, Builds, IsCreated, IsGranting, schedule_each-Fills,
}

-- A named component for which a pool is known, by its own field or by a default label.
abbrev pub IsPlaceable : (PoolLabelMap → String) → Defaults → Component → Type 0
IsPlaceable label defaults c =
    (c.name ≡ some (name_of c))
    × (selector : Dict String) × (node_selector label defaults.default_pool_labels c.pool
        ≡ some selector)

module _ (test : LoadTest) (defaults : Defaults) where
  -- A builder of the test.
  abbrev IsFor : PodBuilder → Type 0
  IsFor b = (b.test ≡ test) × (b.defaults ≡ defaults)

  StandsFor-IsPodOf :
      (b : PodBuilder) (role : String) (c : Component) (selector : Dict String) (pod : Pod)
      → IsFor b
      → IsPodOf b.test role (name_of c) selector pod
      → StandsFor test role c pod
  StandsFor-IsPodOf b role c selector pod (same, _) p =
      subst (λ t. StandsFor t role c pod) same (p.owned, p.covering)

  module _ (pools : DefaultPools) where
    Builds-servers :
        (cs : List Component) (b : PodBuilder)
        → IsFor b
        → All (IsPlaceable (λ labels. labels.server) defaults) cs
        → Builds test server_role (server_loop pools) b cs
    Builds-servers [] b known placeable = tt
    Builds-servers (c ∷ cs) b known ((named, selector, placed), rest) =
        let (pod, built, is_pod) = pod_for_server-IsPodOf b c (name_of c) named selector (
          ap
            (λ (d : Defaults). node_selector (λ labels. labels.server) d.default_pool_labels c.pool)
            known.1
          ∙ placed) in
        (
          pod,
          built,
          StandsFor-IsPodOf b server_role c selector pod known is_pod,
          Builds-servers cs (pod_for_server b c).0
              (unfold pod_for_server in unfold prepare in known) rest,
        )

    Builds-clients :
        (cs : List Component) (b : PodBuilder)
        → IsFor b
        → All (IsPlaceable (λ labels. labels.client) defaults) cs
        → Builds test client_role (client_loop pools) b cs
    Builds-clients [] b known placeable = tt
    Builds-clients (c ∷ cs) b known ((named, selector, placed), rest) =
        let (pod, built, is_pod) = pod_for_client-IsPodOf b c (name_of c) named selector (
          ap
            (λ (d : Defaults). node_selector (λ labels. labels.client) d.default_pool_labels c.pool)
            known.1
          ∙ placed) in
        (
          pod,
          built,
          StandsFor-IsPodOf b client_role c selector pod known is_pod,
          Builds-clients cs (pod_for_client b c).0
              (unfold pod_for_client in unfold prepare in known) rest,
        )

    Builds-driver :
        (o : Option Component) (b : PodBuilder)
        → AreNamed test.spec.servers
        → AreNamed test.spec.clients
        → IsFor b
        → All (IsPlaceable (λ labels. labels.driver) defaults) (if_missing o)
        → Builds test driver_role (driver_loop pools) b (if_missing o)
    Builds-driver none b servers clients known placeable = tt
    Builds-driver (some c) b servers clients known ((named, selector, placed), rest) =
        let (pod, built, is_pod, _, _) =
          pod_for_driver-IsPodOf b c (name_of c) selector named
            (subst (λ (t : LoadTest). AreNamed t.spec.servers) (sym known.0) servers)
            (subst (λ (t : LoadTest). AreNamed t.spec.clients) (sym known.0) clients)
            (ap
                (λ (d : Defaults).
                  node_selector (λ labels. labels.driver) d.default_pool_labels c.pool)
                known.1
              ∙ placed) in
        (pod, built, StandsFor-IsPodOf b driver_role c selector pod known is_pod, tt)

  -- Every missing component is named and has a pool, and every worker of the test is named.
  pub record IsReady (missing : LoadTestMissing) : Type 0 where
    pub servers_named : AreNamed test.spec.servers
    pub clients_named : AreNamed test.spec.clients
    pub servers : All (IsPlaceable (λ labels. labels.server) defaults) missing.servers
    pub clients : All (IsPlaceable (λ labels. labels.client) defaults) missing.clients
    pub driver : All (IsPlaceable (λ labels. labels.driver) defaults) (if_missing missing.driver)

  -- Each missing component has got a pod: it belongs to the test and stands for the component.
  pub record AreCreated (missing : LoadTestMissing) (h : History) : Type 0 where
    pub servers : All (IsCreated test server_role h) missing.servers
    pub clients : All (IsCreated test client_role h) missing.clients
    pub driver : All (IsCreated test driver_role h) (if_missing missing.driver)

  IsCreated-later :
      (role : String) (before after : History)
      → ((call : Call) → Memᴰ call before → Memᴰ call after)
      → (cs : List Component) → All (IsCreated test role before) cs
      → All (IsCreated test role after) cs
  IsCreated-later role before after kept cs =
      All-map (λ c (pod, m, stands). (pod, kept (create_pod pod) m, stands)) cs

  -- Where the API grants every call, and the workers of the test are named and a pool is known for
  -- each missing component, the creation of the missing pods goes through: afterwards a pod has been
  -- created for each missing server, client and driver, which belongs to the test and carries the
  -- labels by which the search for missing pods knows that component.
  pub schedule_pods-AreCreated :
      (k : Cluster) (pools : DefaultPools) (missing : LoadTestMissing) (h : History)
      → IsGranting k
      → IsReady missing
      → (after : History) × (schedule_pods defaults test pools missing k h ≡ (goes_on tt, after))
        × AreCreated missing after
  unfolding schedule_pods bind pure
  schedule_pods-AreCreated k pools missing h grants is_ready =
      let (b, h1, known_b, run_b, _, servers) =
        schedule_each-Fills k grants test server_role (server_loop pools) IsFor
          (λ b c known. unfold pod_for_server in unfold prepare in known) 0 missing.servers
          (new defaults test) (unfold new in (refl, refl))
          (Builds-servers pools missing.servers _ (unfold new in (refl, refl)) is_ready.servers)
          h in
      let (c, h2, known_c, run_c, kept_c, clients) =
        schedule_each-Fills k grants test client_role (client_loop pools) IsFor
          (λ b c known. unfold pod_for_client in unfold prepare in known) 0 missing.clients b
          known_b (Builds-clients pools missing.clients b known_b is_ready.clients) h1 in
      let (d, h3, known_d, run_d, kept_d, driver) =
        schedule_each-Fills k grants test driver_role (driver_loop pools) IsFor
          (λ b c known. unfold pod_for_driver in unfold prepare in known) 0
          (if_missing missing.driver) c known_c
          (Builds-driver pools missing.driver c is_ready.servers_named is_ready.clients_named
            known_c is_ready.driver)
          h2 in
      (
        h3,
        rw (run_b, run_c, run_d) refl,
        record {
          servers =
              IsCreated-later server_role h1 h3 (λ call m. kept_d call (kept_c call m))
                missing.servers servers;
          clients = IsCreated-later client_role h2 h3 kept_d missing.clients clients;
          driver = driver;
        },
      )
