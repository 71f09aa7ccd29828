-- ===== src/Status/Missing/Covered.antt =====
-- The loop over the owned pods strikes exactly the components that a pod covers.
use grpc_test_infra.Base.{
  String, Bool, true, false, ◌&&◌, ◌||◌, not, some, List, [], ◌∷◌, returns, ◌≡◌, refl, ◌∙◌, ◌==◌,
  eq_iff, subst, sym, keep, keep-true, keep-keep, any, Bool-cases, inl, inr, arith,
}
use grpc_test_infra.Base.Dict.{Dict, lookup_or, has, delete-keep, delete-missing}
use grpc_test_infra.Config.Constants.{
  role_label, component_name_label, driver_role, client_role, server_role,
}
use grpc_test_infra.Api.{Component, Driver}
use grpc_test_infra.Kube.{Pod}
use grpc_test_infra.Status.Missing.{Search, strike, strike_pod, visit_labels, search_pods}

-- A pod with these labels stands for the component of that role and name.
abbrev pub covers : String → String → Dict String → Bool
covers role name labels =
    (lookup_or "" role_label labels == role) && (lookup_or "" component_name_label labels == name)

strike-keep : (k : String) (m : Dict Component) → strike k m ≡ keep (λ e. not (k == e.0)) m
unfolding strike
strike-keep k m = elim (Bool-cases (has k m)) [
  | inl e ↦ rw e (delete-keep k m)
  | inr e ↦ rw e (sym (delete-missing k m e) ∙ delete-keep k m)
]

-- What a pod of a role and a name leaves of the search.
abbrev after : String → String → String → Search → Search
after name role component s = record {
  clients = keep (λ e. not ((role == client_role) && (component == e.0))) s.clients;
  servers = keep (λ e. not ((role == server_role) && (component == e.0))) s.servers;
  found_driver = s.found_driver || (role == driver_role) && (component == name);
}

or_false : (b : Bool) → (b || false) ≡ b
or_false true = refl
or_false false = refl

strike_pod-after :
    (driver : Driver) (name role component : String) (s : Search)
    → driver.name ≡ some name
    → strike_pod (some driver) role component s ≡ returns (after name role component s)
unfolding strike_pod
strike_pod-after driver name role component s named = elim (Bool-cases (role == driver_role)) [
  | inl e ↦
      subst (λ r. strike_pod (some driver) r component s ≡ returns (after name r component s))
        (sym ((eq_iff role driver_role).0 e))
        (rw named (simp keep-true (ground (arith, eq_iff name component, eq_iff component name))))
  | inr e ↦ elim (Bool-cases (role == client_role)) [
    | inl f ↦
        subst (λ r. strike_pod (some driver) r component s ≡ returns (after name r component s))
          (sym ((eq_iff role client_role).0 f)) (simp (keep-true, strike-keep, or_false))
    | inr f ↦ elim (Bool-cases (role == server_role)) [
      | inl g ↦
          subst (λ r. strike_pod (some driver) r component s ≡ returns (after name r component s))
            (sym ((eq_iff role server_role).0 g)) (simp (keep-true, strike-keep, or_false))
      | inr g ↦ rw (e, f, g) (simp (keep-true, or_false))
    ]
  ]
]

-- What a pod with these labels leaves of the search.
abbrev after_labels : String → Dict String → Search → Search
after_labels name labels s =
    after name (lookup_or "" role_label labels) (lookup_or "" component_name_label labels) s

visit_labels-after :
    (driver : Driver) (name : String) (labels : Dict String) (s : Search)
    → driver.name ≡ some name
    → visit_labels (some driver) labels s ≡ returns (after_labels name labels s)
unfolding visit_labels
visit_labels-after driver name [] s named = simp (keep-true, or_false)
visit_labels-after driver name (l ∷ ls) s named = strike_pod-after driver name _ _ s named

abbrev pub uncovered : String → List Pod → String → Bool
uncovered role pods name = not (any (λ p. covers role name p.labels) pods)

-- The search is left with the components that no pod covers.
abbrev pub searched : String → List Pod → Search → Search
searched name pods s = record {
  clients = keep (λ e. uncovered client_role pods e.0) s.clients;
  servers = keep (λ e. uncovered server_role pods e.0) s.servers;
  found_driver = s.found_driver || any (λ p. covers driver_role name p.labels) pods;
}

demorgan : (a b : Bool) → not (a || b) ≡ (not a && not b)
demorgan true b = refl
demorgan false b = refl

or_assoc : (a b c : Bool) → (a || b || c) ≡ (a || (b || c))
or_assoc a b c = ground arith

uncovered-cons :
    (role : String) (pod : Pod) (pods : List Pod) (m : Dict Component)
    → keep (λ e. uncovered role pods e.0) (keep (λ e. not (covers role e.0 pod.labels)) m)
      ≡ keep (λ e. uncovered role (pod ∷ pods) e.0) m
uncovered-cons role pod pods m =
    keep-keep (λ e. uncovered role pods e.0) (λ e. not (covers role e.0 pod.labels))
      (λ e. uncovered role (pod ∷ pods) e.0) m (λ e. demorgan _ _)

pub search_pods-eq :
    (driver : Driver) (name : String) (pods : List Pod) (s : Search)
    → driver.name ≡ some name
    → search_pods (some driver) pods s ≡ returns (searched name pods s)
unfolding search_pods
search_pods-eq driver name [] s named = simp (keep-true, or_false)
search_pods-eq driver name (pod ∷ pods) s named =
    rw (visit_labels-after driver name pod.labels s named) (
      search_pods-eq driver name pods (after_labels name pod.labels s) named ∙ (λ i.
        returns (record {
          clients = uncovered-cons client_role pod pods s.clients i;
          servers = uncovered-cons server_role pod pods s.servers i;
          found_driver =
              or_assoc s.found_driver (covers driver_role name pod.labels)
                (any (λ p. covers driver_role name p.labels) pods) i;
        })))
