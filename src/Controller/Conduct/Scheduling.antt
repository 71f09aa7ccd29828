-- ===== src/Controller/Conduct/Scheduling.antt =====
-- The conduct of gang scheduling: pods are created only when the check of the pools found room.
use grpc_test_infra.Base.{
  Bool, true, false, some, List, ◌≡◌, refl, sym, ap, subst, ◌∙◌, returns, All,
}
use grpc_test_infra.Config.Images.{Defaults}
use grpc_test_infra.Api.{LoadTest}
use grpc_test_infra.Kube.{Pod, Node}
use grpc_test_infra.Status.Missing.{LoadTestMissing}
use grpc_test_infra.Status.Missing.{check_missing_pods}
use grpc_test_infra.Status.LoadTest.{pods_for_load_test}
use grpc_test_infra.Controller.Cluster.{granted, History, Cluster, Action}
use grpc_test_infra.Controller.Pools.{Fit, fits, no_pool, too_few, capacities, adjust_all}
use grpc_test_infra.Controller.Pools.Availability.{IsMet, check_pools-IsMet}
use grpc_test_infra.Controller.Schedule.{
  require_fit, require_sync, gang_schedule, unless, schedule_fresh, schedule,
}
use grpc_test_infra.Controller.Effects.{
  Follows, bind-Follows, pure-Follows, return-Follows, run_pure-Follows, ask-Follows,
  observe-Follows, write-Follows,
}
use grpc_test_infra.Controller.Conduct.{IsDue, conduct}
use grpc_test_infra.Controller.Conduct.Placing.{schedule_pods-Follows}
use grpc_test_infra.Controller.Conduct.Preparing.{granted_or_retry-Follows}

module _ (k : Cluster) (defaults : Defaults) where
  require_fit-Follows :
      (test : LoadTest) (fit : Fit)
      → Follows (conduct k defaults) (λ u. fit ≡ fits) k (require_fit test fit)
  unfolding require_fit
  require_fit-Follows test fits = pure-Follows _ refl
  require_fit-Follows test (no_pool pool) =
      bind-Follows (write-Follows _ tt) (λ e u. return-Follows _ refl)
  require_fit-Follows test too_few = return-Follows _ refl

  require_sync-Follows : (b : Bool) → Follows (conduct k defaults) (λ u. Unit) k (require_sync b)
  unfolding require_sync
  require_sync-Follows true = pure-Follows _ tt
  require_sync-Follows false = return-Follows _ refl

  unless-Follows :
      (b : Bool) (action : Action (Unit {0}))
      → Follows (conduct k defaults) (λ u. Unit) k action
      → Follows (conduct k defaults) (λ u. Unit) k (unless b action)
  unfolding unless
  unless-Follows true action here = pure-Follows _ tt
  unless-Follows false action here = here

  gang_schedule-Follows :
      (test : LoadTest) (due : IsDue k defaults test) (nodes : List Node) (pods : List Pod)
      (missing : LoadTestMissing)
      → (h : History) × (k.nodes h ≡ granted nodes)
      → (h : History) × (k.pods h ≡ granted pods)
      → (h : History) × (check_missing_pods (k.order h) test (pods_for_load_test (some test) pods)
          ≡ returns missing)
      → Follows (conduct k defaults) (λ u. Unit) k (gang_schedule defaults test nodes pods missing)
  unfolding gang_schedule
  gang_schedule-Follows test due nodes pods missing listed_nodes listed_pods lacks =
      bind-Follows {Post = λ range. (h : History) × (k.pool_order h ≡ range)}
        (observe-Follows _ (λ h. (h, refl)))
        (λ range (h, e). bind-Follows (require_fit-Follows test _) (λ u fit.
          schedule_pods-Follows k defaults test due missing
            (record {
              nodes = nodes;
              pods = pods;
              listed_nodes = listed_nodes;
              listed_pods = listed_pods;
              lacks = lacks;
              met = (
                h,
                subst
                    (λ r. All (IsMet nodes pods) (
                      r (
                        adjust_all (capacities defaults.default_pool_labels nodes).defaults
                          missing.node_count_by_pool)))
                    (sym e) (check_pools-IsMet defaults.default_pool_labels nodes pods _ fit),
              );
            })
            _))

  schedule_fresh-Follows :
      (test : LoadTest)
      → IsDue k defaults test
      → Follows (conduct k defaults) (λ u. Unit) k (schedule_fresh defaults test)
  unfolding schedule_fresh
  schedule_fresh-Follows test due =
      bind-Follows {Post = λ synced. Unit} (ask-Follows _ _ tt (λ h. tt)) (λ synced u.
        bind-Follows (require_sync-Follows synced) (λ v u.
          bind-Follows {Post = λ nodes. (h : History) × (k.nodes h ≡ granted nodes)}
            (bind-Follows {Post = λ reply. (h : History) × (k.nodes h ≡ reply)}
              (ask-Follows _ _ tt (λ h. (h, refl)))
              (λ reply (h, e). granted_or_retry-Follows k defaults reply (λ a g. (h, e ∙ g))))
            (λ nodes listed_nodes.
              bind-Follows {Post = λ pods. (h : History) × (k.pods h ≡ granted pods)}
                (bind-Follows {Post = λ reply. (h : History) × (k.pods h ≡ reply)}
                  (ask-Follows _ _ tt (λ h. (h, refl)))
                  (λ reply (h, e). granted_or_retry-Follows k defaults reply (λ a g. (h, e ∙ g))))
                (λ pods listed_pods.
                  bind-Follows {Post = λ order. (h : History) × (k.order h ≡ order)}
                    (observe-Follows _ (λ h. (h, refl)))
                    (λ order (h, e).
                      bind-Follows (run_pure-Follows _ (λ missing found. found)) (λ missing found.
                        unless-Follows _ _ (
                          gang_schedule-Follows test due nodes pods missing listed_nodes listed_pods
                            (
                              h,
                              ap
                                    (λ o.
                                      check_missing_pods o test
                                        (pods_for_load_test (some test) pods))
                                    e
                                  ∙ found,
                            ))))))))

  pub schedule-Follows :
      (test : LoadTest)
      → IsDue k defaults test
      → (owned : List Pod)
      → Follows (conduct k defaults) (λ u. Unit) k (schedule defaults test owned)
  unfolding schedule
  schedule-Follows test due owned =
      bind-Follows {Post = λ order. Unit} (observe-Follows _ (λ h. tt)) (λ order u.
        bind-Follows {Post = λ missing. Unit} (run_pure-Follows _ (λ a e. tt))
          (λ missing u. unless-Follows _ _ (schedule_fresh-Follows test due)))
