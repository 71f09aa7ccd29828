-- ===== src/Ready/Main/Written.antt =====
-- What the driver reads in the file that the init container has written.
use grpc_test_infra.Base.{
  ℕ, String, Bool, Option, none, some, List, [], ◌∷◌, Message, Result, ok, err, ◌≡◌, ◌≢◌, refl, sym,
  ap, subst, get_or, Result-cases, inl, inr, All,
}
use grpc_test_infra.Base.Int.{ℤ}
use grpc_test_infra.Base.Text.{decimal}
use grpc_test_infra.Base.Strings.{split, join}
use grpc_test_infra.Base.Decimals.{Lacks, decimal-Lacks}
use grpc_test_infra.Base.Splits.{split-join, append-Lacks}
use grpc_test_infra.Base.Dict.{Dict}
use grpc_test_infra.Kube.{Pod}
use grpc_test_infra.Ready.{
  Round, Waited, ready, failed, fatal, waiting, address_of, find_driver_port, parse_selectors,
  wait_for_ready_pods,
}
use grpc_test_infra.Ready.Assigned.{AllServed, WasListed, wait_for_ready_pods-AllServed}
use grpc_test_infra.Ready.Main.{
  Environment, Ran, wrote, write_addresses, when_connected, with_timeout, ready_main, deadline_of,
  default_output_file, output_file_env, kube_config_env,
}

address_of-Lacks : (pod : Pod) → Lacks "," pod.status.pod_ip → Lacks "," (address_of pod)
unfolding address_of
address_of-Lacks pod h = append-Lacks "," pod.status.pod_ip _ h (
    append-Lacks "," ":" _ (refl, tt)
      (append-Lacks "," (decimal (find_driver_port pod)) ""
        (decimal-Lacks "," (find_driver_port pod) refl) tt))

module _ {Selector : Type 0} (matches : Selector → Dict String → Bool) (Seen : Pod → Type 0) where
  AllServed-Lacks :
      (ss : List Selector) (addresses : List String)
      → ((pod : Pod) → Seen pod → Lacks "," pod.status.pod_ip)
      → AllServed matches Seen ss addresses
      → All (Lacks ",") addresses
  AllServed-Lacks [] [] ips h = tt
  AllServed-Lacks [] (a ∷ others) ips h = elim h [ ]
  AllServed-Lacks (s ∷ ss) [] ips h = elim h [ ]
  AllServed-Lacks (s ∷ ss) (a ∷ others) ips ((pod, listed, live, match, e), h) = (
    subst (Lacks ",") (sym e) (address_of-Lacks pod (ips pod listed)),
    AllServed-Lacks ss others ips h,
  )

  split-AllServed :
      (ss : List Selector) (addresses : List String)
      → ss ≢ []
      → ((pod : Pod) → Seen pod → Lacks "," pod.status.pod_ip)
      → AllServed matches Seen ss addresses
      → AllServed matches Seen ss (split "," (join "," addresses))
  split-AllServed [] addresses some_selector ips h = absurd (some_selector refl)
  split-AllServed (s ∷ ss) [] some_selector ips h = elim h [ ]
  split-AllServed (s ∷ ss) (a ∷ others) some_selector ips h =
      subst (AllServed matches Seen (s ∷ ss))
        (sym (split-join "," a others (AllServed-Lacks (s ∷ ss) (a ∷ others) ips h))) h

module _ {Selector : Type 0} (parse : String → Result Selector)
    (matches : Selector → Dict String → Bool) (environment : Environment) where
  -- The wait that was behind a file of addresses.
  record Wrote (args : List String) (rounds : List Round) (path body : String) : Type 0 where
    deadline : ℕ
    addresses : List String
    waited : wait_for_ready_pods parse matches (some deadline) args rounds ≡ ready addresses
    named : path ≡ get_or default_output_file (environment.lookup_env output_file_env)
    text : body ≡ join "," addresses

  path_of : String → Ran → String
  path_of d (wrote path body) = path
  path_of d _ = d

  body_of : String → Ran → String
  body_of d (wrote path body) = body
  body_of d _ = d

  write-Wrote :
      (deadline : ℕ) (args : List String) (rounds : List Round) (path body : String) (w : Waited)
      → wait_for_ready_pods parse matches (some deadline) args rounds ≡ w
      → write_addresses (get_or default_output_file (environment.lookup_env output_file_env)) w
        ≡ wrote path body
      → Wrote args rounds path body
  unfolding path_of body_of
  write-Wrote deadline args rounds path body (ready addresses) e h = record {
    deadline = deadline;
    addresses = addresses;
    waited = e;
    named = sym (ap (path_of path) h);
    text = sym (ap (body_of body) h);
  }
  write-Wrote deadline args rounds path body (failed m) e h = cc
  write-Wrote deadline args rounds path body fatal e h = cc
  write-Wrote deadline args rounds path body waiting e h = cc

  connected-Wrote :
      (timeout : ℤ) (args : List String) (rounds : List Round) (path body : String)
      (config : Option String) (e : Option Message)
      → when_connected parse matches environment timeout args rounds config e ≡ wrote path body
      → Wrote args rounds path body
  connected-Wrote timeout args rounds path body config (some m) h = cc
  connected-Wrote timeout args rounds path body config none h =
      write-Wrote (deadline_of environment.now timeout) args rounds path body _ refl h

  timeout-Wrote :
      (args : List String) (rounds : List Round) (path body : String) (timeout : Result ℤ)
      → with_timeout parse matches environment args rounds timeout ≡ wrote path body
      → Wrote args rounds path body
  timeout-Wrote args rounds path body (err m) h = cc
  timeout-Wrote args rounds path body (ok timeout) h =
      connected-Wrote timeout args rounds path body (environment.lookup_env kube_config_env) _ h

  pub ready_main-parsed :
      {path body : String} (args : List String) (rounds : List Round)
      → ready_main parse matches environment args rounds ≡ wrote path body
      → (selectors : List Selector) × (parse_selectors parse args ≡ ok selectors)
  unfolding ready_main wait_for_ready_pods
  ready_main-parsed {path} {body} args rounds h =
      let w : Wrote args rounds path body = timeout-Wrote args rounds path body _ h in
      elim (Result-cases (parse_selectors parse args)) [
        | inl (m, e) ↦ absurd (cc (rw (e, wait_for_ready_pods) at w.waited))
        | inr found ↦ found
      ]

  -- If the init container succeeds, the file is the one that its environment names, or the default,
  -- and the pieces between the commas of what it writes are, where no pod's IP address has a comma
  -- and there is a selector, one address for each selector, in their order, of a ready pod that was
  -- listed and which the selector matches.
  pub ready_main-AllServed :
      {path body : String} (args : List String) (selectors : List Selector) (rounds : List Round)
      → ready_main parse matches environment args rounds ≡ wrote path body
      → parse_selectors parse args ≡ ok selectors
      → selectors ≢ []
      → ((pod : Pod) → WasListed rounds pod → Lacks "," pod.status.pod_ip)
      → (path ≡ get_or default_output_file (environment.lookup_env output_file_env))
        × AllServed matches (WasListed rounds) selectors (split "," body)
  unfolding ready_main
  ready_main-AllServed {path} {body} args selectors rounds h parsed some_selector ips =
      let w : Wrote args rounds path body = timeout-Wrote args rounds path body _ h in
      (
        w.named,
        subst (λ s. AllServed matches (WasListed rounds) selectors (split "," s)) (sym w.text)
            (split-AllServed matches (WasListed rounds) selectors w.addresses some_selector ips (
              wait_for_ready_pods-AllServed parse matches (some w.deadline) args selectors rounds
                w.addresses parsed w.waited)),
      )
