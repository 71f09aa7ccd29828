-- ===== src/Ready.antt =====
-- containers/init/ready/ready.go: the init container that waits for the workers of a test. Label
-- selectors are the Kubernetes library's: a section takes their type, their parser and their test.
pub mod Assigned
pub mod Ends
pub mod Main
use grpc_test_infra.Base.{
  ℕ, suc, ◌+◌, String, Bool, true, false, ◌&&◌, not, Option, none, some, List, [], ◌∷◌, Message,
  plain, fill_number, fill_text, fill_error, wrap, Result, ok, err, ◌==◌, if◌then◌else◌, ltb,
  nat_eq, length, all, map, get_or,
}
use grpc_test_infra.Base.Int.{pos}
use grpc_test_infra.Base.Text.{cat_all, decimal}
use grpc_test_infra.Base.Dict.{Dict, has, insert}
use grpc_test_infra.Kube.{ContainerPort, Container, ContainerStatus, Pod}

abbrev pub default_driver_port : ℕ
default_driver_port = 10000

unfoldable pub is_pod_ready : Pod → Bool
is_pod_ready pod =
    if pod.status.pod_ip == ""
    then false
    else if not (nat_eq (length pod.spec.containers) (length pod.status.container_statuses))
    then false
    else all (λ c. c.ready) pod.status.container_statuses

-- The two loops of `findDriverPort`: `rest` is what follows a container without such a port.
port_of : List ContainerPort → ℕ → ℕ
port_of [] rest = rest
port_of (p ∷ ps) rest =
    let later = port_of ps rest in if p.name == "driver" then p.container_port else later

search_containers : List Container → ℕ
unfolding port_of
search_containers [] = default_driver_port
search_containers (c ∷ cs) = port_of c.ports (search_containers cs)

unfoldable pub find_driver_port : Pod → ℕ
unfolding search_containers
find_driver_port pod = search_containers pod.spec.containers

-- `fmt.Sprintf("%s:%d", ip, driverPort)`
unfoldable pub address_of : Pod → String
address_of pod = cat_all (pod.status.pod_ip ∷ ":" ∷ decimal (find_driver_port pod) ∷ [])

-- The variables of the loop of `WaitForReadyPods`.
pub record Wait : Type 0 where
  pub addresses : List String
  pub match_count : ℕ
  pub matching_pods : Dict Bool

-- One request to the Kubernetes API: what the clock reads before it, and the pods that it lists. An
-- error of the API ends the program.
pub record Round : Type 0 where
  pub now : ℕ
  pub pods : Option (List Pod)

pub data Waited : Type 0 where
  ready : List String → Waited
  failed : Message → Waited
  fatal : Waited
  waiting : Waited

module _ {Selector : Type 0} (parse : String → Result Selector) where
  parse_from : ℕ → List String → Result (List Selector)
  parse_from i [] = ok []
  parse_from i (arg ∷ args) = elim (parse arg) [
    | err e ↦ err (
        wrap
          (fill_error
            (fill_text (fill_number (plain "failed to parse selector #%d (%s): %v") (pos (i + 1)))
              arg)
            e)
          e)
    | ok selector ↦ elim (parse_from (suc i) args) [
      | err e ↦ err e
      | ok selectors ↦ ok (selector ∷ selectors)
    ]
  ]

  unfoldable pub parse_selectors : List String → Result (List Selector)
  unfolding parse_from
  parse_selectors = parse_from 0

abbrev pub is_late : Option ℕ → ℕ → Bool
is_late none now = false
is_late (some deadline) now = ltb deadline now

abbrev pub push : String → Option (List String) → Option (List String)
push a none = none
push a (some others) = some (a ∷ others)

module _ {Selector : Type 0} (matches : Selector → Dict String → Bool) where
  -- The loop over the selectors: the addresses after the first free selector that matches.
  unfoldable pub assign : Pod → List Selector → List String → Option (List String)
  assign pod [] addresses = none
  assign pod (s ∷ ss) [] = none
  assign pod (s ∷ ss) (a ∷ others) =
      let later = push a (assign pod ss others) in
      if not (a == "")
      then later
      else if matches s pod.labels
      then some (address_of pod ∷ others)
      else later

  -- The body of the loop over the pods.
  unfoldable pub visit : List Selector → Pod → Wait → Wait
  visit selectors pod w =
      if not (is_pod_ready pod)
      then w
      else if has pod.name w.matching_pods
      then w
      else elim (assign pod selectors w.addresses) [
        | none ↦ w
        | some addresses ↦ record {
          addresses = addresses;
          match_count = suc w.match_count;
          matching_pods = insert pod.name true w.matching_pods;
        }
      ]

  unfoldable pub visit_all : List Selector → List Pod → Wait → Wait
  visit_all selectors [] w = w
  visit_all selectors (pod ∷ pods) w = visit_all selectors pods (visit selectors pod w)

  -- The endless loop, over the rounds that the environment gives; it still waits when they end.
  unfoldable pub wait_rounds : Option ℕ → List Selector → List Round → Wait → Waited
  wait_rounds deadline selectors [] w = waiting
  wait_rounds deadline selectors (r ∷ rs) w =
      if is_late deadline r.now
      then failed (fill_number (plain "deadline exceeded (%v)") (pos (get_or 0 deadline)))
      else elim r.pods [
        | none ↦ fatal
        | some pods ↦
            let w' = visit_all selectors pods w in
            let later = wait_rounds deadline selectors rs w' in
            if nat_eq w'.match_count (length selectors) then ready w'.addresses else later
      ]

abbrev pub start {ℓ} : {Selector : Type ℓ} → List Selector → Wait
start selectors = record {
  addresses = map (λ s. "") selectors;
  match_count = 0;
  matching_pods = [];
}

unfoldable pub wait_for_ready_pods :
    {Selector : Type 0} (parse : String → Result Selector) (matches : Selector → Dict String → Bool)
    → Option ℕ
    → List String
    → List Round
    → Waited
wait_for_ready_pods parse matches deadline sels rounds = elim (parse_selectors parse sels) [
  | err e ↦ failed e
  | ok selectors ↦ wait_rounds matches deadline selectors rounds (start selectors)
]
