-- ===== src/Cleanup/Quits.antt =====
-- Which workers the agent tells to quit.
use mathlib.Core.List.{Memᴰ}
use grpc_test_infra.Base.{
  Bool, true, false, Option, none, some, List, [], ◌∷◌, ◌≡◌, refl, All, All-map, All-Mem, returns,
  Bool-cases, inl, inr,
}
use grpc_test_infra.Api.{LoadTest, is_terminated}
use grpc_test_infra.Kube.{Pod}
use grpc_test_infra.Status.Container.{Verdict, is_pending, state_for_pod_status}
use grpc_test_infra.Status.LoadTest.{belongs_to, pods_for_load_test}
use grpc_test_infra.Controller.Cluster.{
  ApiError, not_found, conflict, already_exists, other_error, Reply, granted, denied, Call,
  get_load_test, list_pods, dial_worker, quit_worker, History, Cluster,
}
use grpc_test_infra.Controller.Prepare.{granted_or_retry}
use grpc_test_infra.Controller.Effects.{
  Rules, Follows, bind-Follows, pure-Follows, return-Follows, run_pure-Follows, ask-Follows,
  write-Follows,
}
use grpc_test_infra.Cleanup.{
  with_fetched, require_terminated, quit_dialled, call_quit, quit_if, quit_unless_driver, is_driver,
  quit_workers, reconcile_agent,
}

-- A worker's pod that has not ended, of a stored test that has.
pub record IsLeftOver (k : Cluster) (pod : Pod) : Type 0 where
  pub test : LoadTest
  pub stored : (h : History) × (k.load_test h ≡ granted test)
  pub terminated : is_terminated test.status.state ≡ true
  pub pods : List Pod
  pub listed : (h : History) × (k.pods h ≡ granted pods)
  pub among : Memᴰ pod pods
  pub owned : belongs_to test pod ≡ true
  pub is_worker : is_driver pod ≡ false
  pub verdict : Verdict
  pub judged : state_for_pod_status pod.status ≡ returns verdict
  pub unfinished : is_pending verdict.state ≡ true

abbrev pub MayCall : Cluster → Call → Type 0
MayCall k get_load_test = Unit
MayCall k list_pods = Unit
MayCall k (dial_worker pod) = IsLeftOver k pod
MayCall k (quit_worker pod) = IsLeftOver k pod
MayCall k _ = ⊥

abbrev rules : Cluster → Rules
rules k = record { Allowed = MayCall k; Ends = λ r. Unit }

-- What is known of a pod before its verdict.
record IsOwned (k : Cluster) (pod : Pod) : Type 0 where
  test : LoadTest
  stored : (h : History) × (k.load_test h ≡ granted test)
  terminated : is_terminated test.status.state ≡ true
  pods : List Pod
  listed : (h : History) × (k.pods h ≡ granted pods)
  among : Memᴰ pod pods
  owned : belongs_to test pod ≡ true

All-owned :
    (P : Pod → Type 0) (test : LoadTest) (pods : List Pod)
    → All P pods
    → All (λ pod. P pod × (belongs_to test pod ≡ true)) (pods_for_load_test (some test) pods)
unfolding pods_for_load_test
All-owned P test [] h = tt
All-owned P test (pod ∷ pods) (p, h) = elim (Bool-cases (belongs_to test pod)) [
  | inl e ↦ rw e ((p, e), All-owned P test pods h)
  | inr e ↦ rw e (All-owned P test pods h)
]

module _ (k : Cluster) where
  with_fetched-Follows :
      (reply : Reply LoadTest)
      → (h : History) × (k.load_test h ≡ reply)
      → Follows
          (rules k)
          (λ test. (h : History) × (k.load_test h ≡ granted test))
          k
          (with_fetched reply)
  unfolding with_fetched
  with_fetched-Follows (granted test) here = pure-Follows test here
  with_fetched-Follows (denied not_found) here = return-Follows _ tt
  with_fetched-Follows (denied conflict) here = return-Follows _ tt
  with_fetched-Follows (denied already_exists) here = return-Follows _ tt
  with_fetched-Follows (denied (other_error m)) here = return-Follows _ tt

  require_terminated-Follows :
      (b : Bool) → Follows (rules k) (λ u. b ≡ true) k (require_terminated b)
  unfolding require_terminated
  require_terminated-Follows true = pure-Follows _ refl
  require_terminated-Follows false = return-Follows _ tt

  granted-Follows :
      (reply : Reply (List Pod))
      → (h : History) × (k.pods h ≡ reply)
      → Follows
          (rules k)
          (λ pods. (h : History) × (k.pods h ≡ granted pods))
          k
          (granted_or_retry reply)
  unfolding granted_or_retry
  granted-Follows (granted a) here = pure-Follows _ here
  granted-Follows (denied e) here = return-Follows _ tt

  quit_dialled-Follows :
      (e : Option ApiError) (pod : Pod)
      → IsLeftOver k pod
      → Follows (rules k) (λ u. Unit) k (quit_dialled e pod)
  unfolding quit_dialled
  quit_dialled-Follows (some e) pod left = run_pure-Follows _ (λ a h. tt)
  quit_dialled-Follows none pod left =
      bind-Follows (write-Follows _ left) (λ e u. pure-Follows _ tt)

  quit_if-Follows :
      (b : Bool) (pod : Pod)
      → (b ≡ true → IsLeftOver k pod)
      → Follows (rules k) (λ u. Unit) k (quit_if b pod)
  unfolding quit_if call_quit
  quit_if-Follows false pod left = pure-Follows _ tt
  quit_if-Follows true pod left =
      bind-Follows (write-Follows _ (left refl)) (λ e u. quit_dialled-Follows e pod (left refl))

  quit_unless_driver-Follows :
      (b : Bool) (pod : Pod)
      → is_driver pod ≡ b
      → IsOwned k pod
      → Follows (rules k) (λ u. Unit) k (quit_unless_driver b pod)
  unfolding quit_unless_driver
  quit_unless_driver-Follows true pod e o = pure-Follows _ tt
  quit_unless_driver-Follows false pod e o =
      bind-Follows (run_pure-Follows _ (λ verdict judged. judged)) (λ verdict judged.
        quit_if-Follows _ pod (λ unfinished. record {
          test = o.test;
          stored = o.stored;
          terminated = o.terminated;
          pods = o.pods;
          listed = o.listed;
          among = o.among;
          owned = o.owned;
          is_worker = e;
          verdict = verdict;
          judged = judged;
          unfinished = unfinished;
        }))

  quit_workers-Follows :
      (pods : List Pod) → All (IsOwned k) pods → Follows (rules k) (λ u. Unit) k (quit_workers pods)
  unfolding quit_workers
  quit_workers-Follows [] h = pure-Follows _ tt
  quit_workers-Follows (pod ∷ pods) (o, h) =
      bind-Follows (quit_unless_driver-Follows (is_driver pod) pod refl o)
        (λ v u. quit_workers-Follows pods h)

  reconcile_agent-Follows : Follows (rules k) (λ u. Unit) k reconcile_agent
  unfolding reconcile_agent
  reconcile_agent-Follows =
      bind-Follows {Post = λ reply. (h : History) × (k.load_test h ≡ reply)}
        (ask-Follows _ _ tt (λ h. (h, refl)))
        (λ reply here. bind-Follows (with_fetched-Follows reply here) (λ test stored.
          bind-Follows (require_terminated-Follows _) (λ v terminated.
            bind-Follows {Post = λ pods. (h : History) × (k.pods h ≡ granted pods)}
              (bind-Follows {Post = λ reply. (h : History) × (k.pods h ≡ reply)}
                (ask-Follows _ _ tt (λ h. (h, refl))) granted-Follows)
              (λ pods listed.
                bind-Follows
                  (quit_workers-Follows _ (
                    All-map
                      (λ pod (among, owned). record {
                        test = test;
                        stored = stored;
                        terminated = terminated;
                        pods = pods;
                        listed = listed;
                        among = among;
                        owned = owned;
                      })
                      _ (All-owned (λ pod. Memᴰ pod pods) test pods (All-Mem pods (λ pod m. m)))))
                  (λ v u. return-Follows _ tt)))))

  -- The agent makes no call that changes the cluster, and dials a pod or tells it to quit only if it
  -- was listed, belongs to a stored test that has terminated, is not the driver's, and is pending by its
  -- containers.
  pub reconcile_agent-MayCall : All (MayCall k) (reconcile_agent k []).1
  reconcile_agent-MayCall = (reconcile_agent-Follows.runs [] tt).0
