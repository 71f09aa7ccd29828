-- ===== src/Controller/Conduct/Placing.antt =====
-- The conduct of the creation of the missing pods: which pods the three loops may create.
use grpc_test_infra.Base.{
  ℕ, ◌+◌, Option, none, some, List, [], ◌∷◌, ◌≡◌, refl, ap, subst, ◌∙◌, Message, returns, Result,
  ok, err, All, String, inl, inr, All-Mem,
}
use grpc_test_infra.Config.Images.{Defaults}
use grpc_test_infra.Api.{Component, LoadTest}
use grpc_test_infra.Kube.{Pod}
use grpc_test_infra.PodBuilder.{PodBuilder}
use grpc_test_infra.Base.Dict.{Dict}
use grpc_test_infra.Config.Constants.{client_role, driver_role, server_role}
use grpc_test_infra.PodBuilder.Base.{new}
use grpc_test_infra.PodBuilder.Worker.{prepare, pod_for_client, pod_for_server, pod_for_driver}
use grpc_test_infra.PodBuilder.Built.{IsPodOf, pod_for_client-built, pod_for_server-built}
use grpc_test_infra.PodBuilder.Labels.{pod_for_driver-built}
use grpc_test_infra.Status.Missing.Required.{name_of}
use grpc_test_infra.Controller.Filled.{StandsFor, StandsFor-label_pool}
use grpc_test_infra.Status.Missing.{LoadTestMissing}
use grpc_test_infra.Controller.Cluster.{
  ApiError, not_found, conflict, already_exists, other_error, Cluster,
}
use grpc_test_infra.Controller.Pools.{DefaultPools}
use grpc_test_infra.Controller.Schedule.{
  Loop, server_loop, client_loop, driver_loop, if_missing, create_if_owned, create_owned,
  after_create, place, schedule_one, schedule_each, schedule_pods,
}
use grpc_test_infra.Controller.Effects.{
  Follows, bind-Follows, pure-Follows, return-Follows, run_pure-Follows, write-Follows,
}
use grpc_test_infra.Controller.Conduct.{HasRoom, IsDue, IsPlaced, conduct}
use grpc_test_infra.Status.Missing.Uncovered.{Lacks}

module _ (k : Cluster) (defaults : Defaults) where
  after_create-Follows :
      (test : LoadTest) (format : Message) (e : Option ApiError)
      → Follows (conduct k defaults) (λ u. Unit) k (after_create test format e)
  unfolding after_create
  after_create-Follows test format none = pure-Follows _ tt
  after_create-Follows test format (some already_exists) = pure-Follows _ tt
  after_create-Follows test format (some not_found) =
      bind-Follows (write-Follows _ tt) (λ e u. return-Follows _ refl)
  after_create-Follows test format (some conflict) =
      bind-Follows (write-Follows _ tt) (λ e u. return-Follows _ refl)
  after_create-Follows test format (some (other_error m)) =
      bind-Follows (write-Follows _ tt) (λ e u. return-Follows _ refl)

  module _ (test : LoadTest) (due : IsDue k defaults test) (missing : LoadTestMissing)
      (room : HasRoom k defaults test missing) where
    create_if_owned-Follows :
        (pod : Pod) (e : Option ApiError)
        → IsPlaced k defaults pod
        → Follows (conduct k defaults) (λ e. Unit) k (create_if_owned pod e)
    unfolding create_if_owned
    create_if_owned-Follows pod none placed = write-Follows _ placed
    create_if_owned-Follows pod (some e) placed = pure-Follows _ tt

    create_owned-Follows :
        (pod : Pod)
        → IsPlaced k defaults pod
        → Follows (conduct k defaults) (λ e. Unit) k (create_owned pod)
    unfolding create_owned
    create_owned-Follows pod placed =
        bind-Follows (write-Follows _ tt) (λ e u. create_if_owned-Follows pod e placed)

    -- The loop of a role: its pods stand for their components, and its builder stays one of the test.
    module _ (loop : Loop) (role : String)
        (stands : (b : PodBuilder) (c : Component) (pod : Pod)
          → b.test ≡ test
          → (loop.build b c).1 ≡ returns (ok pod)
          → StandsFor test role c pod)
        (keeps : (b : PodBuilder) (c : Component)
          → b.test ≡ test
          → (loop.build b c).0.test ≡ test) where
      place-Follows :
          (i : ℕ) (c : Component) (built : Result Pod)
          → Lacks missing role c
          → ((pod : Pod) → built ≡ ok pod → StandsFor test role c pod)
          → Follows (conduct k defaults) (λ u. Unit) k (place loop test i c built)
      unfolding place
      place-Follows i c (err e) lacking stand =
          bind-Follows (write-Follows _ tt) (λ e u. return-Follows _ refl)
      place-Follows i c (ok pod) lacking stand =
          bind-Follows
            (create_owned-Follows _ (record {
              test = test;
              due = due;
              missing = missing;
              room = room;
              role = role;
              component = c;
              lacking = lacking;
              stands =
                  StandsFor-label_pool test role c pod loop.default_pool c.pool (stand pod refl);
            }))
            (λ e u. after_create-Follows test _ e)

      schedule_each-Follows :
          (i : ℕ) (cs : List Component) (b : PodBuilder)
          → b.test ≡ test
          → All (Lacks missing role) cs
          → Follows (conduct k defaults) (λ b. b.test ≡ test) k (schedule_each loop test i cs b)
      unfolding schedule_each schedule_one
      schedule_each-Follows i [] b known lacking = pure-Follows _ known
      schedule_each-Follows i (c ∷ cs) b known (lacks, lacking) =
          bind-Follows {Post = λ b. b.test ≡ test}
            (bind-Follows {Post = λ built. (loop.build b c).1 ≡ returns built}
              (run_pure-Follows _ (λ built e. e))
              (λ built e.
                bind-Follows
                  (place-Follows i c built lacks
                    (λ pod is_ok. stands b c pod known (e ∙ ap returns is_ok)))
                  (λ v u. pure-Follows _ (keeps b c known))))
            (λ b known. schedule_each-Follows (i + 1) cs b known lacking)

    StandsFor-IsPodOf :
        (b : PodBuilder) (role : String) (c : Component) (selector : Dict String) (pod : Pod)
        → b.test ≡ test
        → IsPodOf b.test role (name_of c) selector pod
        → StandsFor test role c pod
    StandsFor-IsPodOf b role c selector pod same p =
        subst (λ t. StandsFor t role c pod) same (p.owned, p.covering)

    missing_driver :
        (o : Option Component) → missing.driver ≡ o → All (Lacks missing driver_role) (if_missing o)
    missing_driver none e = tt
    missing_driver (some c) e = (inr (inr (refl, e)), tt)

    pub schedule_pods-Follows :
        (pools : DefaultPools)
        → Follows (conduct k defaults) (λ u. Unit) k (schedule_pods defaults test pools missing)
    unfolding schedule_pods
    schedule_pods-Follows pools =
        bind-Follows
          (schedule_each-Follows (server_loop pools) server_role
            (λ b c pod known e.
              let (selector, p) = pod_for_server-built b c pod e in
              StandsFor-IsPodOf b server_role c selector pod known p)
            (λ b c known. unfold pod_for_server in unfold prepare in known) 0 missing.servers
            (new defaults test) (unfold new in refl)
            (All-Mem missing.servers (λ c m. inl (refl, m))))
          (λ b known.
            bind-Follows
              (schedule_each-Follows (client_loop pools) client_role
                (λ b c pod known e.
                  let (selector, p) = pod_for_client-built b c pod e in
                  StandsFor-IsPodOf b client_role c selector pod known p)
                (λ b c known. unfold pod_for_client in unfold prepare in known) 0 missing.clients b
                known (All-Mem missing.clients (λ c m. inr (inl (refl, m)))))
              (λ c known.
                bind-Follows
                  (schedule_each-Follows (driver_loop pools) driver_role
                    (λ b c pod known e.
                      let (selector, p) = pod_for_driver-built b c pod e in
                      StandsFor-IsPodOf b driver_role c selector pod known p)
                    (λ b c known. unfold pod_for_driver in unfold prepare in known) 0
                    (if_missing missing.driver) c known (missing_driver missing.driver refl))
                  (λ d u. pure-Follows _ tt)))
