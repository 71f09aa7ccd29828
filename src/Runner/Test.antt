-- ===== src/Runner/Test.antt =====
-- The life of one test in tools/runner/runner.go: runTest, and the texts of its reports. The answers
-- of the cluster are given as a list; the run ends with the call that has no answer yet. What a
-- message of the status reads as is a parameter.
pub mod Sends
pub mod Once
use Prim.Native.String.{◌++◌}
use grpc_test_infra.Base.{
  ℕ, zero, suc, ◌+◌, String, Bool, true, false, Option, none, some, List, [], ◌∷◌, Message, plain,
  fill_text, fill_number, fill_error, Result, ok, err, ◌==◌, if◌then◌else◌, ltb, not,
}
use grpc_test_infra.Base.Text.{cat}
use grpc_test_infra.Base.Int.{pos}
use grpc_test_infra.Base.Strings.{split, join, trim_space}
use grpc_test_infra.Base.Dict.{lookup, lookup_or}
use grpc_test_infra.Api.{
  LoadTest, LoadTestState, unknown, initializing, running, succeeded, errored, other, is_terminated,
}

-- Two lists of words behind one another.
abbrev pub append_words : List String → List String → List String
append_words [] ws = ws
append_words (v ∷ vs) ws = v ∷ append_words vs ws

abbrev pub unless_empty : String → List String → List String
unless_empty s words = if s == "" then [] else words

-- The part of `nameString` that follows the two lookups.
unfoldable pub full_name : LoadTest → String → String → String
unfolding split join lookup_or
full_name config prefix scenario =
    let uniquifier = lookup_or "" "uniquifier" config.annotations in
    let name = join "-" (
      prefix
      ∷ append_words (unless_empty scenario (split "_" scenario))
          (unless_empty uniquifier (uniquifier ∷ []))) in
    if name == config.name then config.name else cat name (cat " [" (cat config.name "]"))

abbrev pub name_if : LoadTest → Option String → Option String → String
name_if config none scenario = config.name
name_if config (some prefix) none = config.name
name_if config (some prefix) (some scenario) = full_name config prefix scenario

unfoldable pub name_string : LoadTest → String
unfolding full_name lookup
name_string config =
    name_if config (lookup "prefix" config.labels) (lookup "scenario" config.annotations)

-- The string that Go's type of states is.
abbrev pub state_text : LoadTestState → String
state_text unknown = "Unknown"
state_text initializing = "Initializing"
state_text running = "Running"
state_text succeeded = "Succeeded"
state_text errored = "Errored"
state_text (other s) = s

unfoldable pub status_string : (Message → String) → LoadTest → String
unfolding join trim_space
status_string text config =
    let reason = trim_space config.status.reason in
    let message = trim_space (text config.status.message) in
    join "; " (
      state_text config.status.state
      ∷ append_words (unless_empty reason (reason ∷ [])) (unless_empty message (message ∷ [])))

-- What a run does: its calls of the cluster, its reports, its waits, and the end, at which it sends
-- its reporter.
pub data Event : Type 0 where
  create_call : LoadTest → Event
  get_call : String → Event
  info warning error_report : Message → Event
  interval : Event
  send : Event

abbrev pub is_running : LoadTestState → Bool
is_running running = true
is_running _ = false

abbrev pub with_status : LoadTest → LoadTest → LoadTest
with_status config found = record config { status = found.status }

-- The variables of the second loop.
pub record Poll : Type 0 where
  pub retries : ℕ
  pub config : LoadTest
  pub status : String

-- The variables after a round that has seen a status.
unfoldable pub seen : (Message → String) → Poll → LoadTest → Poll
unfolding status_string
seen text p found =
    let config = with_status p.config found in
    record { retries = 0; config = config; status = status_string text config }

-- The `switch` of the second loop, before the rounds that come after it.
unfoldable pub observe : (Message → String) → Poll → LoadTest → List Event → List Event
unfolding seen is_terminated
observe text p found later =
    let status = (seen text p found).status in
    let report = info (fill_text (plain "%s") status) in
    if is_terminated found.status.state
    then report ∷ send ∷ []
    else if is_running found.status.state
    then report ∷ interval ∷ later
    else if not (p.status == status)
    then report ∷ interval ∷ interval ∷ later
    else interval ∷ interval ∷ later

module _ (limit : ℕ) where
  abbrev pub scheduled : String → ℕ → Message
  scheduled format retries = fill_number (fill_number (plain format) (pos retries)) (pos limit)

  abbrev pub aborted : String → String → Message → Message
  aborted format name e = fill_error (fill_text (fill_number (plain format) (pos limit)) name) e

  abbrev pub failed : String → String → Message → Message
  failed format name e = fill_error (fill_text (plain format) name) e

  -- The second loop.
  unfoldable pub poll_rounds : (Message → String) → Poll → List (Result LoadTest) → List Event
  unfolding observe name_string
  poll_rounds text p [] = get_call p.config.name ∷ []
  poll_rounds text p (err e ∷ answers) =
      let again = poll_rounds text (record p { retries = p.retries + 1 }) answers in
      let name = name_string p.config in
      get_call p.config.name
      ∷ warning (failed "Failed to poll test %s: %v" name e)
      ∷ (if ltb p.retries limit
          then info (scheduled "Scheduling retry %d/%d to poll test" (p.retries + 1))
            ∷ interval
            ∷ again
          else error_report (aborted "Aborting test after %d retries to poll test %s: %v" name e)
            ∷ send
            ∷ [])
  poll_rounds text p (ok found ∷ answers) =
      let later = poll_rounds text (seen text p found) answers in
      get_call p.config.name ∷ observe text p found later

  -- The second loop starts with the status that `Create` has returned.
  abbrev pub first_poll : LoadTest → LoadTest → Poll
  first_poll config created = record {
    retries = 0;
    config = with_status config created;
    status = "";
  }

  -- The first loop, and the second one behind it.
  unfoldable pub create_rounds :
      (Message → String)
      → ℕ
      → LoadTest
      → List (Result LoadTest)
      → List (Result LoadTest)
      → List Event
  unfolding poll_rounds name_string
  create_rounds text retries config polls [] = create_call config ∷ []
  create_rounds text retries config polls (err e ∷ answers) =
      let again = create_rounds text (retries + 1) config polls answers in
      let name = name_string config in
      create_call config
      ∷ warning (failed "Failed to create test %s: %v" name e)
      ∷ (if ltb retries limit
          then info (scheduled "Scheduling retry %d/%d to create test" (retries + 1))
            ∷ interval
            ∷ again
          else error_report (aborted "Aborting after %d retries to create test %s: %v" name e)
            ∷ send
            ∷ [])
  create_rounds text retries config polls (ok created ∷ answers) =
      create_call config
      ∷ info (fill_text (plain "Created test %s") (name_string config))
      ∷ poll_rounds text (first_poll config created) polls

  -- `runTest`, given the answers of the calls of `Create` and those of the calls of `Get`.
  unfoldable pub run_test :
      (Message → String) → LoadTest → List (Result LoadTest) → List (Result LoadTest) → List Event
  unfolding create_rounds
  run_test text config creates polls = create_rounds text 0 config polls creates
