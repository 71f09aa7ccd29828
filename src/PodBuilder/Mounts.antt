-- ===== src/PodBuilder/Mounts.antt =====
-- The volumes of the pods that the builder returns.
use grpc_test_infra.Base.{
  String, Bool, true, Option, none, some, List, ◌++◌, Outcome, returns, panics, Message, ◌>>=◌, inl,
  inr, returns_ok-injective, ok, ◌≡◌, any, all, ◌==◌, ◌⊎◌, subst, arith,
}
use grpc_test_infra.Base.Dict.{Dict}
use grpc_test_infra.Api.{Component}
use grpc_test_infra.Kube.{Pod}
use grpc_test_infra.PodBuilder.Base.{PodBuilder, new_pod, run_container}
use grpc_test_infra.KubeHelpers.{write_container}
use grpc_test_infra.Config.Constants.{client_role, server_role, driver_role}
use grpc_test_infra.PodBuilder.Ready.{
  ready_container, with_ready, with_workers_file, selector_args, new_ready_container,
  add_ready_init_container,
}
use grpc_test_infra.PodBuilder.Worker.{
  prepare, finish_worker, finish_driver, with_selector, add_scenarios, pod_for_client,
  pod_for_server, pod_for_driver,
}
use grpc_test_infra.PodBuilder.Labels.{driver_pod_with}

-- Every volume that a container mounts is a volume of the pod.
abbrev pub mounts_declared : Pod → Bool
mounts_declared pod =
    all (λ c. all (λ m. any (λ v. v.name == m.name) pod.spec.volumes) c.volume_mounts)
      (pod.spec.init_containers ++ pod.spec.containers)

mounts_worker :
    (pb : PodBuilder) (failure : Message) (selector : Option (Dict String)) (pod : Pod)
    → finish_worker failure (new_pod pb) selector ≡ returns (ok pod)
    → mounts_declared pod ≡ true
unfolding new_pod finish_worker
mounts_worker pb failure none pod h = cc
mounts_worker pb failure (some selector) pod h =
    subst (λ p. mounts_declared p ≡ true) (returns_ok-injective h) (ground arith)

mounts_ready :
    (pb : PodBuilder) (selector : Dict String) (args : List String)
    → mounts_declared (driver_pod_with (ready_container pb.defaults pb.test args) pb selector)
      ≡ true
unfolding new_pod write_container
mounts_ready pb selector args = ground arith

mounts_driver :
    (pb : PodBuilder) (selector : Option (Dict String)) (pod : Pod)
    → finish_driver pb.defaults pb.test (new_pod pb) selector ≡ returns (ok pod)
    → mounts_declared pod ≡ true
unfolding new_pod finish_driver add_ready_init_container new_ready_container
mounts_driver pb none pod h = cc
mounts_driver pb (some selector) pod h =
    go (selector_args pb.test.name server_role pb.test.spec.servers)
      (selector_args pb.test.name client_role pb.test.spec.clients) h
  where
    placed : Pod
    placed = with_selector (new_pod pb) selector

    go :
        (a b : Outcome (List String))
        → ((a >>= (λ s. b >>= λ c. returns (ready_container pb.defaults pb.test (s ++ c))))
            >>= (λ ready.
                returns (with_ready ready placed.spec, with_workers_file (run_container pb.run)))
            >>= (λ added. returns (ok (record placed { spec = add_scenarios pb.test added }))))
          ≡ returns (ok pod)
        → mounts_declared pod ≡ true
    go panics b e = cc
    go (returns s) panics e = cc
    go (returns s) (returns c) e =
        subst (λ p. mounts_declared p ≡ true) (returns_ok-injective e)
          (mounts_ready pb selector (s ++ c))

-- Whatever the component, each pod that the builder returns declares every volume that one of its
-- containers, the init containers included, mounts.
pub pods-mounts_declared :
    (given : PodBuilder) (c : Component) (pod : Pod)
    → ((pod_for_client given c).1 ≡ returns (ok pod))
      ⊎ (((pod_for_server given c).1 ≡ returns (ok pod))
          ⊎ ((pod_for_driver given c).1 ≡ returns (ok pod)))
    → mounts_declared pod ≡ true
unfolding pod_for_client pod_for_server pod_for_driver
pods-mounts_declared given c pod (inl h) = mounts_worker (prepare given client_role c) _ _ pod h
pods-mounts_declared given c pod (inr (inl h)) =
    mounts_worker (prepare given server_role c) _ _ pod h
pods-mounts_declared given c pod (inr (inr h)) = mounts_driver (prepare given driver_role c) _ pod h
