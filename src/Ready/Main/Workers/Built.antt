-- ===== src/Ready/Main/Workers/Built.antt =====
-- The ready container as the pod builder makes it, run to its end.
use mathlib.Core.List.{append-nil, cons-ne-nil}
use grpc_test_infra.Base.{
  String, Bool, some, List, [], ◌∷◌, ◌++◌, Result, ok, returns, >>=-eq-returns, returns-injective,
  ◌≡◌, ◌≢◌, refl, sym, ap, ◌∙◌, subst, get_or,
}
use grpc_test_infra.Base.Strings.{split}
use grpc_test_infra.Base.Decimals.{Lacks}
use grpc_test_infra.Base.Dict.{Dict}
use grpc_test_infra.Config.Constants.{client_role, ready_output_file, server_role}
use grpc_test_infra.Config.Images.{Defaults}
use grpc_test_infra.Api.{LoadTest}
use grpc_test_infra.Kube.{Container, Pod}
use grpc_test_infra.PodBuilder.Ready.{selector_args, ready_container, new_ready_container}
use grpc_test_infra.Ready.{Round, parse_selectors}
use grpc_test_infra.Ready.Assigned.{AllServed, WasListed}
use grpc_test_infra.Ready.Main.{
  Environment, wrote, ready_main, output_file_env, default_output_file,
}
use grpc_test_infra.Ready.Main.Written.{ready_main-AllServed, ready_main-parsed}
use grpc_test_infra.Ready.Main.Workers.{
  env_value, WorkersServed, SelectsWorkers, ParsedAs, parse_selectors-ParsedAs,
  selector_args-ArgsOf,
}
use grpc_test_infra.Ready.Main.Workers.Parted.{Parted, parted}

-- The ready container of a test, as the pod builder makes it.
record IsBuilt (defs : Defaults) (test : LoadTest) (c : Container) : Type 0 where
  server_args : List String
  client_args : List String
  for_servers : selector_args test.name server_role test.spec.servers ≡ returns server_args
  for_clients : selector_args test.name client_role test.spec.clients ≡ returns client_args
  built : ready_container defs test (server_args ++ client_args) ≡ c

new_ready_container-IsBuilt :
    (defs : Defaults) (test : LoadTest) (c : Container)
    → new_ready_container (some defs) test ≡ returns c
    → IsBuilt defs test c
unfolding new_ready_container
new_ready_container-IsBuilt defs test c h =
    let (server_args, servers, h') =
      >>=-eq-returns (selector_args test.name server_role test.spec.servers) _ h in
    let (client_args, clients, h'') =
      >>=-eq-returns (selector_args test.name client_role test.spec.clients) _ h' in
    record {
      server_args = server_args;
      client_args = client_args;
      for_servers = servers;
      for_clients = clients;
      built = returns-injective h'';
    }

output_file_set :
    (defs : Defaults) (test : LoadTest) (args : List String)
    → env_value (ready_container defs test args).env output_file_env ≡ some ready_output_file
unfolding env_value
output_file_set defs test args = refl

module _ {Selector : Type 0} (parse : String → Result Selector)
    (matches : Selector → Dict String → Bool) (Seen : Pod → Type 0) where
  nothing_left :
      (ss : List Selector) (addresses : List String)
      → ParsedAs parse matches [] ss
      → AllServed matches Seen ss addresses
      → addresses ≡ []
  nothing_left [] [] p w = refl
  nothing_left [] (a ∷ others) p w = elim w [ ]
  nothing_left (s ∷ ss) addresses p w = elim p [ ]

  workers-served :
      (defs : Defaults) (test : LoadTest) (c : Container) (ss : List Selector)
      (addresses : List String)
      → SelectsWorkers parse matches test
      → IsBuilt defs test c
      → parse_selectors parse c.args ≡ ok ss
      → AllServed matches Seen ss addresses
      → WorkersServed Seen test addresses
  workers-served defs test c ss addresses meaning b parsed w =
      let p : ParsedAs parse matches (b.server_args ++ b.client_args) ss =
        subst (λ args. ParsedAs parse matches args ss) (sym (ap (λ c. c.args) b.built))
          (parse_selectors-ParsedAs parse matches c.args ss parsed) in
      let h : Parted parse matches Seen test.name server_role test.spec.servers b.client_args
          addresses =
        parted parse matches Seen test.name server_role test.spec.servers b.server_args
          b.client_args ss addresses meaning.0
          (selector_args-ArgsOf parse matches test.name server_role test.spec.servers b.server_args
            b.for_servers)
          p w in
      let k : Parted parse matches Seen test.name client_role test.spec.clients [] h.back =
        parted parse matches Seen test.name client_role test.spec.clients b.client_args []
          h.selectors h.back meaning.1
          (selector_args-ArgsOf parse matches test.name client_role test.spec.clients b.client_args
            b.for_clients)
          (subst (λ args. ParsedAs parse matches args h.selectors) (sym (append-nil b.client_args))
            h.parsed)
          h.waited in
      record {
        servers = h.front;
        clients = k.front;
        in_order =
            h.in_order
            ∙ ap (λ l. h.front ++ l)
                (k.in_order
                  ∙ ap (λ l. k.front ++ l) (nothing_left k.selectors k.back k.parsed k.waited)
                  ∙ append-nil k.front);
        servers_served = h.served;
        clients_served = k.served;
      }

  some_selector :
      (args : List String) (ss : List Selector)
      → args ≢ []
      → parse_selectors parse args ≡ ok ss
      → ss ≢ []
  some_selector [] ss given parsed = absurd (given refl)
  some_selector (arg ∷ args) [] given parsed =
      elim (parse_selectors-ParsedAs parse matches (arg ∷ args) [] parsed) [ ]
  some_selector (arg ∷ args) (s ∷ ss) given parsed = cons-ne-nil s ss

module _ {Selector : Type 0} (parse : String → Result Selector)
    (matches : Selector → Dict String → Bool) (environment : Environment) where
  -- The ready container that the pod builder gives to the driver of a test, run with its arguments
  -- and its variable for the file, where the test has a worker, a selector of three labels means what
  -- it says and no IP address has a comma: if it succeeds, it has written the file that the driver
  -- is told to read, and the pieces between its commas are one address for each server and then for
  -- each client of the test, in their order, each that of a pod which was listed, was ready, and
  -- carries the name of the test and the role and the name of that component.
  pub new_ready_container-served :
      {path body : String} (defs : Defaults) (test : LoadTest) (c : Container) (rounds : List Round)
      → new_ready_container (some defs) test ≡ returns c
      → c.args ≢ []
      → environment.lookup_env output_file_env ≡ env_value c.env output_file_env
      → SelectsWorkers parse matches test
      → ((pod : Pod) → WasListed rounds pod → Lacks "," pod.status.pod_ip)
      → ready_main parse matches environment c.args rounds ≡ wrote path body
      → (path ≡ ready_output_file) × WorkersServed (WasListed rounds) test (split "," body)
  new_ready_container-served {path} {body} defs test c rounds made some_arg set meaning ips h =
      let b : IsBuilt defs test c = new_ready_container-IsBuilt defs test c made in
      let (ss, parsed) = ready_main-parsed parse matches environment c.args rounds h in
      let (named, served) =
        ready_main-AllServed parse matches environment c.args ss rounds h parsed
          (some_selector parse matches (WasListed rounds) c.args ss some_arg parsed) ips in
      (
        named
            ∙ ap (get_or default_output_file) (
                set
                ∙ ap (λ c. env_value c.env output_file_env) (sym b.built)
                ∙ output_file_set defs test (b.server_args ++ b.client_args)),
        workers-served parse matches (WasListed rounds) defs test c ss (split "," body) meaning b
            parsed served,
      )
