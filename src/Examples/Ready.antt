-- ===== src/Examples/Ready.antt =====
-- A wait for two workers, with selectors that name the component which a pod must have.
use mathlib.Core.List.{Memᴰ}
use grpc_test_infra.Base.{
  String, Bool, none, some, List, [], ◌∷◌, ◌≢◌, refl, Result, ok, ◌==◌, arith,
}
use grpc_test_infra.Base.Dict.{Dict, lookup_or, lookup, has, insert}
use grpc_test_infra.Base.Text.{decimal}
use grpc_test_infra.Base.{
  true, false, Option, some, ◌≡◌, sym, ap, subst, ◌&&◌, err, plain, if◌then◌else◌, eq_iff,
  ok-injective, some-injective, Mem-All, All,
}
use grpc_test_infra.Base.Int.{pos}
use grpc_test_infra.Base.Strings.{split}
use grpc_test_infra.Base.Decimals.{Lacks}
use grpc_test_infra.Api.{LoadTest}
use grpc_test_infra.Config.Constants.{ready_output_file}
use grpc_test_infra.PodBuilder.Ready.{ready_container, new_ready_container, selector_args}
use grpc_test_infra.Ready.Main.{Environment, ready_main}
use grpc_test_infra.Ready.Main.Workers.{env_value, IsWorker, WorkersServed, SelectsWorkers}
use grpc_test_infra.Ready.Main.Workers.Built.{new_ready_container-served}
use grpc_test_infra.Kube.{Pod, Container}
use grpc_test_infra.Ready.{
  Round, waiting, wait_for_ready_pods, parse_selectors, wait_rounds, visit_all, visit, assign,
  is_pod_ready, address_of, find_driver_port,
}
use grpc_test_infra.Ready.Assigned.{WasListed}
use grpc_test_infra.Ready.Ends.{wait_for_ready_pods-ends}
use grpc_test_infra.Examples.Fixtures.{
  active, pod_of, empty_spec, defaults, driver, server, client_a, test_of, spec_of,
}

abbrev parse : String → Result String
parse s = ok s

abbrev matches : String → Dict String → Bool
matches s labels = lookup_or "" "loadtest-component" labels == s

abbrev run : Container
run = record {
  name = "run";
  image = "go-run";
  command = [];
  args = [];
  env = [];
  ports = record { name = "driver"; container_port = 10010; protocol = "TCP" } ∷ [];
  working_dir = "";
  volume_mounts = [];
}

abbrev ready_pod : String → Pod
ready_pod name = record (pod_of "client" name (active "run" ∷ [])) {
  spec = record empty_spec { containers = run ∷ [] };
}

-- The pod of `b` is there from the second round on.
abbrev rounds : List Round
rounds =
    record { now = 1; pods = some (ready_pod "a" ∷ []) }
    ∷ record { now = 2; pods = some (ready_pod "a" ∷ ready_pod "b" ∷ []) }
    ∷ []

abbrev late_rounds : List Round
late_rounds = record { now = 1; pods = some [] } ∷ record { now = 9; pods = some [] } ∷ []

wait_for_ready_pods-ends_example :
    wait_for_ready_pods parse matches (some 5) ("a" ∷ []) late_rounds ≢ waiting
wait_for_ready_pods-ends_example =
    wait_for_ready_pods-ends parse matches 5 ("a" ∷ []) late_rounds
      (record { now = 9; pods = some [] }) (Memᴰ.tail (Memᴰ.head refl)) (omega arith)

-- A server and a client, whose pods are ready in the first round.
abbrev small_test : LoadTest
small_test = test_of (spec_of (some driver) (server ∷ []) (client_a ∷ []))

abbrev pod_in : String → String → Pod
pod_in role name = record (pod_of role name (active "run" ∷ [])) {
  spec = record empty_spec { containers = run ∷ [] };
}

abbrev listed : List Pod
listed = pod_in "client" "a" ∷ pod_in "server" "s" ∷ []

abbrev one_round : List Round
one_round = record { now = 1; pods = some listed } ∷ []

abbrev server_arg : String
server_arg = "loadtest=t,loadtest-role=server,loadtest-component=s"

abbrev client_arg : String
client_arg = "loadtest=t,loadtest-role=client,loadtest-component=a"

-- A selector asks for a role and a component of the test.
abbrev parse_labels : String → Result (String × String)
parse_labels arg =
    if arg == server_arg
    then ok ("server", "s")
    else if arg == client_arg
    then ok ("client", "a")
    else err (plain "invalid selector")

abbrev is_value : String → Option String → Bool
is_value v none = false
is_value v (some w) = w == v

abbrev matches_labels : String × String → Dict String → Bool
matches_labels (role, name) labels =
    is_value "t" (lookup "loadtest" labels)
    && (is_value role (lookup "loadtest-role" labels)
        && is_value name (lookup "loadtest-component" labels))

value_is : (v : String) (o : Option String) → is_value v o ≡ true → o ≡ some v
value_is v none h = absurd (ground (arith, h))
value_is v (some w) h = ap some ((eq_iff w v).0 h)

both : (b c : Bool) → (b && c) ≡ true → (b ≡ true) × (c ≡ true)
both b c h = (ground (arith, h), ground (arith, h))

matched :
    (role name : String) (labels : Dict String)
    → matches_labels (role, name) labels ≡ true
    → IsWorker "t" role name labels
matched role name labels h =
    let (of_test, rest) = both _ _ h in
    let (of_role, of_name) = both _ _ rest in
    (value_is "t" _ of_test, value_is role _ of_role, value_is name _ of_name)

small_test-SelectsWorkers : SelectsWorkers parse_labels matches_labels small_test
small_test-SelectsWorkers = (
  (
    λ s labels parsed match.
        matched "server" "s" labels
          (subst (λ s. matches_labels s labels ≡ true) (sym (ok-injective parsed)) match),
    tt,
  ),
  (
    λ s labels parsed match.
        matched "client" "a" labels
          (subst (λ s. matches_labels s labels ≡ true) (sym (ok-injective parsed)) match),
    tt,
  ),
)

abbrev PlainIp : Pod → Type 0
PlainIp pod = Lacks "," pod.status.pod_ip

plain_ips : (pod : Pod) → WasListed one_round pod → PlainIp pod
plain_ips pod (r, pods, in_rounds, e, m) =
    Mem-All PlainIp pods
      (Mem-All (λ (r : Round). (ps : List Pod) → r.pods ≡ some ps → All PlainIp ps) one_round
        (λ ps e. subst (All PlainIp) (some-injective e) (all_plain, (all_plain, tt)), tt) in_rounds
        pods e)
      m
  where
    all_plain : Lacks "," "10.0.0.1"
    all_plain = (refl, (refl, (refl, (refl, (refl, (refl, (refl, (refl, tt))))))))

abbrev environment : Environment
environment = record {
  lookup_env = env_value (ready_container defaults small_test []).env;
  parse_duration = λ text. ok (pos 300000000000);
  connect = λ config. none;
  now = 1;
}

abbrev built : Container
built = ready_container defaults small_test (server_arg ∷ client_arg ∷ [])

new_ready_container-served_example :
    ("/var/data/qps_workers/addresses" ≡ ready_output_file)
    × WorkersServed (WasListed one_round) small_test (split "," "10.0.0.1:10010,10.0.0.1:10010")
unfolding ready_main wait_for_ready_pods parse_selectors wait_rounds visit_all visit assign
    is_pod_ready address_of find_driver_port has lookup insert lookup_or decimal env_value
    new_ready_container selector_args
new_ready_container-served_example =
    new_ready_container-served parse_labels matches_labels environment defaults small_test built
      one_round refl (cc) refl small_test-SelectsWorkers plain_ips refl
