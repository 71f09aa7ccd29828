-- ===== src/Ready/Main/Workers.antt =====
-- The pod builder and the init container together: the arguments and the environment that
-- podbuilder.go gives to the ready container, run by main of ready.go.
pub mod Parted
pub mod Built
use mathlib.Core.List.{append-nil, cons-ne-nil}
use grpc_test_infra.Base.{
  ℕ, suc, String, Bool, true, Option, none, some, List, [], ◌∷◌, ◌++◌, Result, ok, err, Outcome,
  returns, panics, ◌>>=◌, >>=-eq-returns, returns-injective, deref, deref-returns, ◌≡◌, ◌≢◌, refl,
  sym, ap, ◌∙◌, subst, get_or, ◌==◌, if◌then◌else◌, All, ok-injective, Result-cases, inl, inr,
}
use grpc_test_infra.Base.Strings.{split}
use grpc_test_infra.Base.Decimals.{Lacks}
use grpc_test_infra.Base.Dict.{Dict, lookup}
use grpc_test_infra.Config.Constants.{
  client_role, component_name_label, load_test_label, ready_output_file, role_label, server_role,
}
use grpc_test_infra.Config.Images.{Defaults}
use grpc_test_infra.Api.{Component, LoadTest}
use grpc_test_infra.Kube.{EnvVar, Container, Pod}
use grpc_test_infra.PodBuilder.Ready.{
  selector_arg, selector_args, ready_container, new_ready_container,
}
use grpc_test_infra.Ready.{
  Round, Waited, ready, is_pod_ready, address_of, parse_from, parse_selectors,
}
use grpc_test_infra.Ready.Assigned.{Serves, AllServed, WasListed}
use grpc_test_infra.Ready.Main.{
  Environment, wrote, ready_main, output_file_env, default_output_file,
}
use grpc_test_infra.Ready.Main.Written.{ready_main-AllServed, ready_main-parsed}

-- The value of a variable that a container's environment sets.
unfoldable pub env_value : List EnvVar → String → Option String
env_value [] name = none
env_value (e ∷ es) name =
    let later = env_value es name in if e.name == name then some e.value else later

-- The pod carries the labels of a component of the test.
abbrev pub IsWorker : String → String → String → Dict String → Type 0
IsWorker test role name labels =
    (lookup load_test_label labels ≡ some test)
    × (lookup role_label labels ≡ some role)
    × (lookup component_name_label labels ≡ some name)

-- The components of a role, each with the address of a pod that was listed, was ready and carries the
-- labels of the component.
abbrev pub AreServed : (Pod → Type 0) → String → String → List Component → List String → Type 0
AreServed Seen test role [] [] = Unit
AreServed Seen test role (c ∷ cs) (a ∷ others) =
    ((name : String) × (pod : Pod) × (c.name ≡ some name)
      × Seen pod
      × (is_pod_ready pod ≡ true)
      × IsWorker test role name pod.labels
      × (a ≡ address_of pod))
    × AreServed Seen test role cs others
AreServed Seen test role _ _ = ⊥

-- The addresses of the servers, and behind them those of the clients.
pub record WorkersServed (Seen : Pod → Type 0) (test : LoadTest) (addresses : List String)
    : Type 0 where
  pub servers : List String
  pub clients : List String
  pub in_order : addresses ≡ servers ++ clients
  pub servers_served : AreServed Seen test.name server_role test.spec.servers servers
  pub clients_served : AreServed Seen test.name client_role test.spec.clients clients

module _ {Selector : Type 0} (parse : String → Result Selector)
    (matches : Selector → Dict String → Bool) where
  -- The documented meaning of a label selector that asks for three values: what it matches has them.
  abbrev pub Selects : String → String → Component → Type 0
  Selects test role c =
      (s : Selector) (labels : Dict String)
      → parse (selector_arg test role (get_or "" c.name)) ≡ ok s
      → matches s labels ≡ true
      → IsWorker test role (get_or "" c.name) labels

  abbrev pub SelectsWorkers : LoadTest → Type 0
  SelectsWorkers test =
      All (Selects test.name server_role) test.spec.servers
      × All (Selects test.name client_role) test.spec.clients

  -- The selectors of the arguments, in their order.
  abbrev pub ParsedAs : List String → List Selector → Type 0
  ParsedAs [] [] = Unit
  ParsedAs (arg ∷ args) (s ∷ ss) = (parse arg ≡ ok s) × ParsedAs args ss
  ParsedAs _ _ = ⊥

  parse_from-ParsedAs :
      (i : ℕ) (args : List String) (ss : List Selector)
      → parse_from parse i args ≡ ok ss
      → ParsedAs args ss
  unfolding parse_from
  parse_from-ParsedAs i [] ss h = subst (ParsedAs []) (ok-injective h) tt
  parse_from-ParsedAs i (arg ∷ args) ss h = elim (Result-cases (parse arg)) [
    | inl (m, e) ↦ absurd (cc (rw (e, parse_from) at h))
    | inr (s, e) ↦ elim (Result-cases (parse_from parse (suc i) args)) [
      | inl (m, e') ↦ absurd (cc (rw (e, e', parse_from) at h))
      | inr (rest, e') ↦
          subst (ParsedAs (arg ∷ args)) (ok-injective (rw (e, e', parse_from) at h))
            (e, parse_from-ParsedAs (suc i) args rest e')
    ]
  ]

  pub parse_selectors-ParsedAs :
      (args : List String) (ss : List Selector)
      → parse_selectors parse args ≡ ok ss
      → ParsedAs args ss
  unfolding parse_selectors
  parse_selectors-ParsedAs = parse_from-ParsedAs 0

  -- The arguments of the components of a role.
  abbrev pub ArgsOf : String → String → List Component → List String → Type 0
  ArgsOf test role [] [] = Unit
  ArgsOf test role (c ∷ cs) (arg ∷ args) =
      ((name : String) × (c.name ≡ some name) × (arg ≡ selector_arg test role name))
      × ArgsOf test role cs args
  ArgsOf test role _ _ = ⊥

  pub selector_args-ArgsOf :
      (test role : String) (cs : List Component) (args : List String)
      → selector_args test role cs ≡ returns args
      → ArgsOf test role cs args
  unfolding selector_args
  selector_args-ArgsOf test role [] args h = subst (ArgsOf test role []) (returns-injective h) tt
  selector_args-ArgsOf test role (c ∷ cs) args h =
      let (name, named, h') = >>=-eq-returns (deref c.name) _ h in
      let (rest, others, h'') = >>=-eq-returns (selector_args test role cs) _ h' in
      subst (ArgsOf test role (c ∷ cs)) (returns-injective h'')
        ((name, deref-returns c.name named, refl), selector_args-ArgsOf test role cs rest others)
