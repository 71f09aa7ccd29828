-- ===== src/Examples/Runs.antt =====
-- The runner's input and the life of a test: two files of tests, the flags, and the answers of a
-- cluster.
use mathlib.Core.List.{Memᴰ, Perm}
use grpc_test_infra.Base.{
  ℕ, ◌<◌, ◌≤◌, String, Bool, true, false, some, List, [], ◌∷◌, ◌≡◌, refl, ◌↔◌, ◌⊎◌, All, Message,
  eq_iff, inr, plain, Result, ok, err, ◌==◌, if◌then◌else◌, arith,
}
use grpc_test_infra.Base.Int.{pos}
use grpc_test_infra.Base.Dict.{Dict, has, lookup}
use grpc_test_infra.Api.{LoadTest, errored, empty_status}
use grpc_test_infra.Runner.{Round, Step, Reach, first_round, start, receive, finish, here, next}
use grpc_test_infra.Runner.Configs.{decode_from_file, decode_from_files, separator}
use grpc_test_infra.Runner.Configs.Documents.{read_lines, decode_from_file-documents}
use grpc_test_infra.Runner.Configs.RoundTrip.{
  Written, AreDocuments, separated, terminated, documents_of, decode_from_file-separated,
  decode_from_file-dropped,
}
use grpc_test_infra.Runner.Flags.{set_all, set_level, set_file_name}
use grpc_test_infra.Runner.Flags.Levels.{IsLevel, set_level-bounds}
use grpc_test_infra.Runner.Flags.RoundTrip.{AreNew, set_level-roundtrip}
use grpc_test_infra.Base.Text.{decimal}
use grpc_test_infra.Base.Strings.{join}
use grpc_test_infra.Runner.Queues.{queue_all}
use grpc_test_infra.Runner.Main.{Started, Flags, run_main, runs}
use grpc_test_infra.Runner.Main.Whole.{AllDone, all_finished, run_main-goes_on, run_main-finished}
use grpc_test_infra.Runner.Test.{poll_rounds, first_poll, run_test}
use grpc_test_infra.Runner.Test.Sends.{sends, SeesEnd, Fails, poll_rounds-sends}
use grpc_test_infra.Runner.Test.Once.{EndsAtSend, creates_of, run_test-once}
use grpc_test_infra.Runner.Reports.{log_prefix_fmt}
use grpc_test_infra.Examples.Fixtures.{test}

abbrev first_test : LoadTest
first_test = record test { annotations = ("pool", "a") ∷ [] }

abbrev second_test : LoadTest
second_test = record test { annotations = ("pool", "b") ∷ [] }

abbrev written : Written
written = (first_test, "name: a" ∷ []) ∷ (second_test, "name: b" ∷ "kind: LoadTest" ∷ []) ∷ []

abbrev unmarshal : String → Result LoadTest
unmarshal s =
    if s == "name: a"
    then ok first_test
    else if s == "name: b\nkind: LoadTest"
    then ok second_test
    else err (plain "no test")

abbrev scan : String → Result (List String)
scan name =
    if name == "tests.yaml"
    then ok (separated (documents_of written))
    else if name == "marked.yaml"
    then ok (terminated (documents_of written) (separator ∷ "name: a" ∷ []))
    else err (plain "no such file")

written-AreDocuments : AreDocuments unmarshal written
unfolding join
written-AreDocuments = (
  record { some_line = cc; no_separator = (refl, tt); meaning = refl },
  (record { some_line = cc; no_separator = (refl, (refl, tt)); meaning = refl }, tt),
)

decode_from_file-documents_example :
    decode_from_file unmarshal scan "tests.yaml"
    ≡ read_lines unmarshal "tests.yaml" (scan "tests.yaml")
decode_from_file-documents_example = decode_from_file-documents unmarshal scan "tests.yaml"

decode_from_file-separated_example :
    decode_from_file unmarshal scan "tests.yaml" ≡ ok (first_test ∷ second_test ∷ [])
decode_from_file-separated_example =
    decode_from_file-separated unmarshal scan "tests.yaml" written written-AreDocuments refl

decode_from_file-dropped_example :
    decode_from_file unmarshal scan "marked.yaml" ≡ ok (first_test ∷ second_test ∷ [])
decode_from_file-dropped_example =
    decode_from_file-dropped unmarshal scan "marked.yaml" written ("name: a" ∷ [])
      written-AreDocuments refl

abbrev some_levels : Dict ℕ
some_levels = ("a", 2) ∷ ("b", 10) ∷ []

some_levels-AreNew : AreNew some_levels []
unfolding has lookup
some_levels-AreNew =
    (ground (arith, eq_iff "a" ""), refl, (ground (arith, eq_iff "b" ""), refl, tt))

set_level-roundtrip_example :
    set_all set_level ("a:2" ∷ "b:10" ∷ []) [] ≡ some (("a", pos 2) ∷ ("b", pos 10) ∷ [])
unfolding decimal
set_level-roundtrip_example =
    set_level-roundtrip some_levels
      (
        record { no_colon = (refl, tt); positive = omega arith; fits = omega arith },
        (record { no_colon = (refl, tt); positive = omega arith; fits = omega arith }, tt),
      )
      some_levels-AreNew

levels_set : set_all set_level ("a:2" ∷ "b:+3" ∷ []) [] ≡ some (("a", pos 2) ∷ ("b", pos 3) ∷ [])
unfolding set_all set_level
levels_set = refl

set_level-bounds_example :
    All IsLevel (("a", pos 2) ∷ ("b", pos 3) ∷ [])
    × (has "" (("a", pos 2) ∷ ("b", pos 3) ∷ []) ≡ true → ◌≡◌ {A = ℕ} 2 1)
set_level-bounds_example =
    set_level-bounds ("a:2" ∷ "b:+3" ∷ []) (("a", pos 2) ∷ ("b", pos 3) ∷ []) levels_set

abbrev flags : Flags
flags = record {
  file_names = "tests.yaml" ∷ [];
  levels = "a:2" ∷ "b:3" ∷ [];
  annotation_key = "pool";
}

abbrev started : List Started
started =
    record { queue = "a"; configs = first_test ∷ []; level = pos 2 }
    ∷ record { queue = "b"; configs = second_test ∷ []; level = pos 3 }
    ∷ []

main_starts : run_main unmarshal scan flags ≡ runs started
unfolding run_main join queue_all has
main_starts = refl

files_set : set_all set_file_name ("tests.yaml" ∷ []) [] ≡ some ("tests.yaml" ∷ [])
unfolding set_all set_file_name
files_set = refl

files_decoded :
    decode_from_files unmarshal scan ("tests.yaml" ∷ []) ≡ ok (first_test ∷ second_test ∷ [])
unfolding decode_from_files join
files_decoded = refl

run_main-goes_on_example : (r : Round) × Step 2 (first_round (first_test ∷ [])) r
run_main-goes_on_example =
    run_main-goes_on unmarshal scan flags started main_starts (Memᴰ.head refl) here refl

abbrev round_of : List LoadTest → List LoadTest → ℕ → ℕ → Bool → Round
round_of active finished n count done = record {
  pending = [];
  running = active;
  finished = finished;
  n = n;
  count = count;
  done = done;
}

one_test :
    (level : ℕ) (config : LoadTest)
    → 0 < level
    → Reach level (config ∷ []) 3 (round_of [] (config ∷ []) 0 1 true)
one_test level config positive =
    next
      (next (next here (start (first_round (config ∷ [])) config [] refl refl positive)) (
        receive (round_of (config ∷ []) [] 1 0 false) [] config [] refl (inr (refl, omega arith))
          refl))
      (finish (round_of [] (config ∷ []) 0 1 false) refl refl refl)

abbrev rounds : List Round
rounds = round_of [] (first_test ∷ []) 0 1 true ∷ round_of [] (second_test ∷ []) 0 1 true ∷ []

all_done : AllDone started rounds
all_done = (
  (3, one_test 2 first_test (omega arith), refl),
  ((3, one_test 3 second_test (omega arith), refl), tt),
)

run_main-finished_example : Perm (all_finished rounds) (first_test ∷ second_test ∷ [])
run_main-finished_example =
    run_main-finished unmarshal scan flags started rounds main_starts files_set files_decoded
      all_done

abbrev failed_test : LoadTest
failed_test = record first_test { status = record empty_status { state = errored } }

abbrev no_answer : Result LoadTest
no_answer = err (plain "timeout")

abbrev polls : List (Result LoadTest)
polls = no_answer ∷ ok first_test ∷ no_answer ∷ ok failed_test ∷ []

abbrev text : Message → String
text m = "message"

poll_rounds-sends_example :
    (sends (poll_rounds 1 text (first_poll 1 first_test first_test) polls) ≡ true)
    ↔ (SeesEnd polls ⊎ Fails 2 polls)
poll_rounds-sends_example = poll_rounds-sends 1 text first_test first_test polls

polls_end : sends (poll_rounds 1 text (first_poll 1 first_test first_test) polls) ≡ true
unfolding poll_rounds
polls_end = refl

run_test-once_example :
    EndsAtSend (run_test 1 text first_test (no_answer ∷ ok first_test ∷ []) polls)
    × (creates_of (run_test 1 text first_test (no_answer ∷ ok first_test ∷ []) polls) ≤ 2)
run_test-once_example = run_test-once 1 text first_test (no_answer ∷ ok first_test ∷ []) polls

some_widths :
    log_prefix_fmt (("a", first_test ∷ []) ∷ ("queue", second_test ∷ []) ∷ []) ≡ "[%-5s %1d] "
unfolding log_prefix_fmt
some_widths = refl
