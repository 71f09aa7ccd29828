-- ===== src/PodBuilder/Built.antt =====
-- podbuilder/podbuilder.go: the pods of the servers and the clients, with their labels.
use grpc_test_infra.Base.{
  String, true, Option, none, some, [], ◌∷◌, Outcome, returns, Message, Result, ok, err, ◌≡◌, ◌⊎◌,
  inl, inr, refl, ap, subst, get_or, eq_refl, sym, ◌∙◌, returns-injective, ok-injective,
}
use grpc_test_infra.Base.Dict.{Dict, lookup, lookup_or}
use grpc_test_infra.Config.Constants.{client_role, server_role, role_label}
use grpc_test_infra.Api.{Component, LoadTest}
use grpc_test_infra.Kube.{Pod}
use grpc_test_infra.PodBuilder.Base.{PodBuilder, new_pod, run_container}
use grpc_test_infra.PodBuilder.Worker.{
  prepare, node_selector, with_selector, expose_driver_port, finish_worker, pod_for_client,
  pod_for_server,
}
use grpc_test_infra.Status.LoadTest.{belongs_to}
use grpc_test_infra.Status.Missing.Covered.{covers}
use grpc_test_infra.Status.Missing.Required.{name_of}

-- The labels of the pod of a component.
abbrev pub labels_of : LoadTest → String → String → Dict String
labels_of test role name =
    ("loadtest", test.name) ∷ ("loadtest-role", role) ∷ ("loadtest-component", name) ∷ []

-- A pod of a component of a test, placed by a node selector.
pub record IsPodOf (test : LoadTest) (role name : String) (selector : Dict String) (pod : Pod)
    : Type 0 where
  pub labelled : pod.labels ≡ labels_of test role name
  pub owned : belongs_to test pod ≡ true
  pub covering : covers role name pod.labels ≡ true
  pub has_role : lookup role_label pod.labels ≡ some role
  pub namespace : pod.namespace ≡ test.namespace
  pub placed : pod.spec.node_selector ≡ selector
  pub runs_once : pod.spec.restart_policy ≡ "Never"

-- The pod that both kinds of workers get.
abbrev pub worker_pod : PodBuilder → Dict String → Pod
worker_pod pb selector =
    let pod = with_selector (new_pod pb) selector in
    record pod {
      spec = record pod.spec { containers = expose_driver_port (run_container pb.run) ∷ [] };
    }

worker_pod-IsPodOf :
    (pb : PodBuilder) (selector : Dict String)
    → IsPodOf pb.test pb.role pb.name selector (worker_pod pb selector)
unfolding new_pod belongs_to lookup_or
worker_pod-IsPodOf pb selector = record {
  labelled = refl;
  owned = eq_refl pb.test.name;
  covering = simp eq_refl;
  has_role = refl;
  namespace = refl;
  placed = refl;
  runs_once = refl;
}

module _ (given : PodBuilder) (c : Component) (name : String) (named : c.name ≡ some name) where
  -- The builder's fields after the assignments at the start of a method.
  named-prepare : (role : String) → (prepare given role c).name ≡ name
  unfolding prepare
  named-prepare role = ap (get_or "") named

  IsPodOf-prepare :
      (role : String) (selector : Dict String)
      → IsPodOf given.test role name selector (worker_pod (prepare given role c) selector)
  unfolding prepare
  IsPodOf-prepare role selector =
      subst (λ n. IsPodOf given.test role n selector (worker_pod (prepare given role c) selector))
        (named-prepare role) (worker_pod-IsPodOf (prepare given role c) selector)

  -- Where a pool is known for a client, by its own field or by the default label, its pod is built:
  -- it belongs to the test, stands for the client of that name, and carries the node selector.
  pub pod_for_client-IsPodOf :
      (selector : Dict String)
      → node_selector (λ labels. labels.client) given.defaults.default_pool_labels c.pool
        ≡ some selector
      → (pod : Pod) × ((pod_for_client given c).1 ≡ returns (ok pod))
        × IsPodOf given.test client_role name selector pod
  unfolding pod_for_client new_pod
  pod_for_client-IsPodOf selector placed = (
    worker_pod (prepare given client_role c) selector,
    rw placed refl,
    IsPodOf-prepare client_role selector,
  )

  -- Where a pool is known for a server, its pod is built: it belongs to the test, stands for the
  -- server of that name, and carries the node selector.
  pub pod_for_server-IsPodOf :
      (selector : Dict String)
      → node_selector (λ labels. labels.server) given.defaults.default_pool_labels c.pool
        ≡ some selector
      → (pod : Pod) × ((pod_for_server given c).1 ≡ returns (ok pod))
        × IsPodOf given.test server_role name selector pod
  unfolding pod_for_server new_pod
  pod_for_server-IsPodOf selector placed = (
    worker_pod (prepare given server_role c) selector,
    rw placed refl,
    IsPodOf-prepare server_role selector,
  )

-- The builder refuses a component, or returns its pod.
abbrev pub IsBuilt : LoadTest → String → Component → Outcome (Result Pod) → Type 0
IsBuilt test role c o =
    ((e : Message) × (o ≡ returns (err e)))
    ⊎ ((pod : Pod) × (selector : Dict String) × (o ≡ returns (ok pod))
        × IsPodOf test role (name_of c) selector pod)

module _ (given : PodBuilder) (c : Component) where
  finish_worker-IsBuilt :
      (role : String) (failure : Message) (placing : Option (Dict String))
      → IsBuilt given.test role c (finish_worker failure (new_pod (prepare given role c)) placing)
  unfolding finish_worker
  finish_worker-IsBuilt role failure none = inl (_, refl)
  finish_worker-IsBuilt role failure (some selector) = inr (
    worker_pod (prepare given role c) selector,
    selector,
    unfold new_pod in refl,
    unfold prepare in worker_pod-IsPodOf (prepare given role c) selector,
  )

  IsBuilt-ok :
      (role : String) (o : Outcome (Result Pod)) (pod : Pod)
      → IsBuilt given.test role c o
      → o ≡ returns (ok pod)
      → (selector : Dict String) × IsPodOf given.test role (name_of c) selector pod
  IsBuilt-ok role o pod (inl (e, refused)) h = cc
  IsBuilt-ok role o pod (inr (other, selector, built, is_pod)) h = (
    selector,
    subst (IsPodOf given.test role (name_of c) selector)
        (ok-injective (returns-injective (sym built ∙ h))) is_pod,
  )

  pub pod_for_server-IsBuilt : IsBuilt given.test server_role c (pod_for_server given c).1
  unfolding pod_for_server
  pod_for_server-IsBuilt = finish_worker-IsBuilt server_role _ _

  pub pod_for_client-IsBuilt : IsBuilt given.test client_role c (pod_for_client given c).1
  unfolding pod_for_client
  pod_for_client-IsBuilt = finish_worker-IsBuilt client_role _ _

  -- With no assumption on the test, a pod that is built for a worker stands for it.
  pub pod_for_server-built :
      (pod : Pod)
      → (pod_for_server given c).1 ≡ returns (ok pod)
      → (selector : Dict String) × IsPodOf given.test server_role (name_of c) selector pod
  pod_for_server-built pod = IsBuilt-ok server_role _ pod pod_for_server-IsBuilt

  pub pod_for_client-built :
      (pod : Pod)
      → (pod_for_client given c).1 ≡ returns (ok pod)
      → (selector : Dict String) × IsPodOf given.test client_role (name_of c) selector pod
  pod_for_client-built pod = IsBuilt-ok client_role _ pod pod_for_client-IsBuilt
