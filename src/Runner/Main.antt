-- ===== src/Runner/Main.antt =====
-- cmd/runner/main.go: the flags, the tests of the files, their queues, and a run for each queue.
pub mod Queued
pub mod Whole
use grpc_test_infra.Base.{
  String, List, [], ◌∷◌, map, Option, none, some, Message, plain, fill_error, Result, ok, err,
  length, ℕ,
}
use grpc_test_infra.Base.Int.{ℤ, pos}
use grpc_test_infra.Base.Dict.{Dict, lookup_or}
use grpc_test_infra.Api.{LoadTest}
use grpc_test_infra.Runner.Configs.{decode_from_files}
use grpc_test_infra.Runner.Flags.{set_file_name, set_level, set_all}
use grpc_test_infra.Runner.Queues.{
  create_queue_map, queue_selector_from_annotation, validate_concurrency_levels,
}

-- A goroutine that main starts: `r.Run(configs, reporter, c[qName], done)`.
pub record Started : Type 0 where
  pub queue : String
  pub configs : List LoadTest
  pub level : ℤ

-- Package flag ends the program at a value that is refused, main ends it with a message, or the runs
-- are started.
pub data Main : Type 0 where
  refused : Main
  fatal : Message → Main
  runs : List Started → Main

unfoldable pub start_queues : Dict ℤ → Dict (List LoadTest) → List Started
unfolding lookup_or
start_queues levels [] = []
start_queues levels ((queue, configs) ∷ m) =
    record { queue = queue; configs = configs; level = lookup_or (pos 0) queue levels }
    ∷ start_queues levels m

abbrev pub start_unless : Option Message → Dict ℤ → Dict (List LoadTest) → Main
start_unless (some e) levels m =
    fatal (fill_error (plain "Failed to validate concurrency levels: %v") e)
start_unless none levels m = runs (start_queues levels m)

unfoldable pub start_runs : String → Dict ℤ → Result (List LoadTest) → Main
unfolding create_queue_map queue_selector_from_annotation validate_concurrency_levels start_queues
start_runs annotation_key levels (err e) = fatal (fill_error (plain "Failed to decode: %v") e)
start_runs annotation_key levels (ok configs) =
    let m = create_queue_map configs (queue_selector_from_annotation annotation_key) in
    start_unless (validate_concurrency_levels m levels) levels m

-- The files `-i`, the levels `-c` and the annotation key `-annotation-key`.
pub record Flags : Type 0 where
  pub file_names : List String
  pub levels : List String
  pub annotation_key : String

abbrev pub run_parsed :
    (String → Result LoadTest)
    → (String → Result (List String))
    → String
    → Option (List String)
    → Option (Dict ℤ)
    → Main
run_parsed unmarshal scan key none levels = refused
run_parsed unmarshal scan key (some names) none = refused
run_parsed unmarshal scan key (some names) (some levels) =
    start_runs key levels (decode_from_files unmarshal scan names)

unfoldable pub run_main :
    (String → Result LoadTest) → (String → Result (List String)) → Flags → Main
unfolding set_all start_runs decode_from_files set_file_name set_level
run_main unmarshal scan flags =
    run_parsed unmarshal scan flags.annotation_key (set_all set_file_name flags.file_names [])
      (set_all set_level flags.levels [])
