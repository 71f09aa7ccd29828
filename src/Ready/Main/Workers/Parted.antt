-- ===== src/Ready/Main/Workers/Parted.antt =====
-- The addresses of the wait, parted into those of the servers and those of the clients.
use grpc_test_infra.Base.{
  String, Bool, true, some, List, [], ◌∷◌, ◌++◌, Result, ok, ◌≡◌, refl, sym, ap, ◌∙◌, subst, get_or,
  All,
}
use grpc_test_infra.Base.Dict.{Dict}
use grpc_test_infra.Api.{Component}
use grpc_test_infra.Kube.{Pod}
use grpc_test_infra.PodBuilder.Ready.{selector_arg}
use grpc_test_infra.Ready.Assigned.{AllServed}
use grpc_test_infra.Ready.Main.Workers.{IsWorker, AreServed, Selects, ParsedAs, ArgsOf}

module _ {Selector : Type 0} (parse : String → Result Selector)
    (matches : Selector → Dict String → Bool) (Seen : Pod → Type 0) where
  selected :
      (test role : String) (c : Component) (name : String) (s : Selector) (labels : Dict String)
      → Selects parse matches test role c
      → c.name ≡ some name
      → parse (selector_arg test role name) ≡ ok s
      → matches s labels ≡ true
      → IsWorker test role name labels
  selected test role c name s labels meaning named parsed match =
      let same : get_or "" c.name ≡ name = ap (get_or "") named in
      subst (λ n. IsWorker test role n labels) same
        (meaning s labels (ap (λ n. parse (selector_arg test role n)) same ∙ parsed) match)

  -- The addresses of the components of a role, and those of what comes behind them.
  pub record Parted (test role : String) (cs : List Component) (rest addresses : List String)
      : Type 0 where
    pub front : List String
    pub back : List String
    pub selectors : List Selector
    pub in_order : addresses ≡ front ++ back
    pub served : AreServed Seen test role cs front
    pub parsed : ParsedAs parse matches rest selectors
    pub waited : AllServed matches Seen selectors back

  pub parted :
      (test role : String) (cs : List Component) (args rest : List String) (ss : List Selector)
      (addresses : List String)
      → All (Selects parse matches test role) cs
      → ArgsOf parse matches test role cs args
      → ParsedAs parse matches (args ++ rest) ss
      → AllServed matches Seen ss addresses
      → Parted test role cs rest addresses
  parted test role [] [] rest ss addresses m a p w = record {
    front = [];
    back = addresses;
    selectors = ss;
    in_order = refl;
    served = tt;
    parsed = p;
    waited = w;
  }
  parted test role [] (arg ∷ args) rest ss addresses m a p w = elim a [ ]
  parted test role (c ∷ cs) [] rest ss addresses m a p w = elim a [ ]
  parted test role (c ∷ cs) (arg ∷ args) rest [] addresses m a p w = elim p [ ]
  parted test role (c ∷ cs) (arg ∷ args) rest (s ∷ ss) [] m a p w = elim w [ ]
  parted test role (c ∷ cs) (arg ∷ args) rest (s ∷ ss) (b ∷ bs) m a p w =
      let ((name, named, e), more) = a in
      let (pod, seen, live, match, at_pod) = w.0 in
      let h : Parted test role cs rest bs = parted test role cs args rest ss bs m.1 more p.1 w.1 in
      record {
        front = b ∷ h.front;
        back = h.back;
        selectors = h.selectors;
        in_order = ap (λ l. b ∷ l) h.in_order;
        served = (
          (
            name,
            pod,
            named,
            seen,
            live,
            selected test role c name s pod.labels m.0 named (ap parse (sym e) ∙ p.0) match,
            at_pod,
          ),
          h.served,
        );
        parsed = h.parsed;
        waited = h.waited;
      }
