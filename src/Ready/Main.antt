-- ===== src/Ready/Main.antt =====
-- main of containers/init/ready/ready.go: the environment of the container, the wait, and the file of
-- addresses. The parser of durations and the connection to the cluster are parameters.
pub mod Written
pub mod Workers
use grpc_test_infra.Base.{
  ℕ, ◌+◌, ◌-◌, ◌*◌, String, Option, none, some, List, Message, plain, fill_error, fill_text, Result,
  ok, err, Bool, get_or,
}
use grpc_test_infra.Base.Int.{ℤ, pos, pos_part, neg_part}
use grpc_test_infra.Base.Strings.{join}
use grpc_test_infra.Base.Dict.{Dict}
use grpc_test_infra.Ready.{Round, Waited, ready, failed, fatal, waiting, wait_for_ready_pods}

abbrev pub timeout_env : String
timeout_env = "READY_TIMEOUT"

-- 25 minutes, in nanoseconds.
abbrev pub default_timeout : ℤ
default_timeout = pos (25 * 60 * 1000000000)

abbrev pub output_file_env : String
output_file_env = "READY_OUTPUT_FILE"

abbrev pub default_output_file : String
default_output_file = "/tmp/loadtest_workers"

abbrev pub kube_config_env : String
kube_config_env = "KUBE_CONFIG"

-- `os.LookupEnv`, `time.ParseDuration` in nanoseconds, the error of a connection with a file of the
-- cluster's configuration or without one, and the clock when the timeout starts.
pub record Environment : Type 0 where
  pub lookup_env : String → Option String
  pub parse_duration : String → Result ℤ
  pub connect : Option String → Option Message
  pub now : ℕ

-- main ends with a message, is ended by an error of the API, still waits, or writes a text to a file
-- and succeeds: the error of the write is dropped.
pub data Ran : Type 0 where
  exited : Message → Ran
  killed : Ran
  waits : Ran
  wrote : String → String → Ran

abbrev pub timeout_of : (String → Result ℤ) → Option String → Result ℤ
timeout_of parse_duration none = ok default_timeout
timeout_of parse_duration (some text) = parse_duration text

abbrev pub connect_error : Option String → String
connect_error (some file) = "failed to read kubeconfig: %v"
connect_error none = "failed to connect with implicit kubeconfig: %v"

abbrev pub write_addresses : String → Waited → Ran
write_addresses output_file (ready addresses) = wrote output_file (join "," addresses)
write_addresses output_file (failed e) =
    exited (fill_error (plain "failed to wait for ready pods: %v") e)
write_addresses output_file fatal = killed
write_addresses output_file waiting = waits

abbrev pub deadline_of : ℕ → ℤ → ℕ
deadline_of now timeout = now + pos_part timeout - neg_part timeout

module _ {Selector : Type 0} (parse : String → Result Selector)
    (matches : Selector → Dict String → Bool) (environment : Environment) where
  abbrev pub when_connected : ℤ → List String → List Round → Option String → Option Message → Ran
  when_connected timeout args rounds config (some e) =
      exited (fill_error (plain (connect_error config)) e)
  when_connected timeout args rounds config none =
      write_addresses (get_or default_output_file (environment.lookup_env output_file_env))
        (wait_for_ready_pods parse matches (some (deadline_of environment.now timeout)) args rounds)

  abbrev pub with_timeout : List String → List Round → Result ℤ → Ran
  with_timeout args rounds (err e) =
      exited (fill_error (fill_text (plain "failed to parse $%s: %v") timeout_env) e)
  with_timeout args rounds (ok timeout) =
      when_connected timeout args rounds (environment.lookup_env kube_config_env)
        (environment.connect (environment.lookup_env kube_config_env))

  -- main, by its arguments and the requests to the API.
  unfoldable pub ready_main : List String → List Round → Ran
  unfolding join wait_for_ready_pods
  ready_main args rounds =
      with_timeout args rounds
        (timeout_of environment.parse_duration (environment.lookup_env timeout_env))
