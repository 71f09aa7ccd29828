-- ===== src/Runner/Main/Whole.antt =====
-- The runner as a whole: from the flags to the end of the last test.
use mathlib.Core.List.{Memᴰ, Perm}
use mathlib.Core.List.Perm
use grpc_test_infra.Base.{
  String, ℕ, true, false, Option, none, some, Result, ok, err, Message, List, [], ◌∷◌, ◌++◌, ◌≡◌,
  refl, ap, subst, All, Mem-All, some-injective, ok-injective, sym, ◌∙◌,
}
use grpc_test_infra.Base.Int.{ℤ, pos_part}
use grpc_test_infra.Base.Dict.{Dict}
use grpc_test_infra.Api.{LoadTest}
use grpc_test_infra.Runner.{Round, Step, Reach}
use grpc_test_infra.Runner.Rounds.{Reach-done}
use grpc_test_infra.Runner.Bounds.{Reach-goes_on}
use grpc_test_infra.Runner.Configs.{decode_from_files}
use grpc_test_infra.Runner.Flags.{set_level, set_file_name, set_all}
use grpc_test_infra.Runner.Flags.Levels.{IsLevel, set_level-bounds}
use grpc_test_infra.Runner.Queues.{
  create_queue_map, queue_selector_from_annotation, validate_concurrency_levels,
  validate_concurrency_levels-HasLevel,
}
use grpc_test_infra.Runner.Main.{
  Started, Main, refused, fatal, runs, Flags, run_main, run_parsed, start_runs, start_unless,
}
use grpc_test_infra.Runner.Main.Queued.{all_started, IsPositive, started-Perm, started-IsPositive}

started_of : Main → List Started
started_of refused = []
started_of (fatal e) = []
started_of (runs started) = started

-- What has happened when the runs have been started.
record Running (tests : Result (List LoadTest)) (started : List Started) : Type 0 where
  configs : List LoadTest
  decoded : tests ≡ ok configs
  conserved : Perm (all_started started) configs
  positive : All IsPositive started

unless-Running :
    (qs : LoadTest → String) (configs : List LoadTest) (levels : Dict ℤ) (started : List Started)
    (o : Option Message)
    → All IsLevel levels
    → validate_concurrency_levels (create_queue_map configs qs) levels ≡ o
    → start_unless o levels (create_queue_map configs qs) ≡ runs started
    → Running (ok configs) started
unfolding started_of
unless-Running qs configs levels started none h valid e =
    subst (Running (ok configs)) (ap started_of e) (record {
      configs = configs;
      decoded = refl;
      conserved = started-Perm qs configs levels;
      positive =
          started-IsPositive levels (create_queue_map configs qs) h
            ((validate_concurrency_levels-HasLevel (create_queue_map configs qs) levels).0 valid);
    })
unless-Running qs configs levels started (some m) h valid e = cc

start_runs-Running :
    (key : String) (levels : Dict ℤ) (tests : Result (List LoadTest)) (started : List Started)
    → All IsLevel levels
    → start_runs key levels tests ≡ runs started
    → Running tests started
unfolding start_runs
start_runs-Running key levels (err e) started h r = cc
start_runs-Running key levels (ok configs) started h r =
    unless-Running (queue_selector_from_annotation key) configs levels started _ h refl r

-- Each run has come to a round in which it has sent the name of its queue.
abbrev pub AllDone : List Started → List Round → Type 0
AllDone [] [] = Unit
AllDone (s ∷ ss) (r ∷ rs) =
    ((i : ℕ) × Reach (pos_part s.level) s.configs i r × (r.done ≡ true)) × AllDone ss rs
AllDone _ _ = ⊥

abbrev pub all_finished : List Round → List LoadTest
all_finished [] = []
all_finished (r ∷ rs) = r.finished ++ all_finished rs

finished-Perm :
    (started : List Started) (rounds : List Round)
    → AllDone started rounds
    → Perm (all_finished rounds) (all_started started)
finished-Perm [] [] h = Perm.refl []
finished-Perm [] (r ∷ rs) h = elim h [ ]
finished-Perm (s ∷ ss) [] h = elim h [ ]
finished-Perm (s ∷ ss) (r ∷ rs) h =
    let (i, reach, over) = h.0 in Perm.append (Reach-done reach over) (finished-Perm ss rs h.1)

module _ (unmarshal : String → Result LoadTest) (scan : String → Result (List String))
    (flags : Flags) (started : List Started) where
  run_parsed-Running :
      (names : Option (List String)) (levels : Option (Dict ℤ))
      → set_all set_file_name flags.file_names [] ≡ names
      → set_all set_level flags.levels [] ≡ levels
      → run_parsed unmarshal scan flags.annotation_key names levels ≡ runs started
      → (given : List String) × (set_all set_file_name flags.file_names [] ≡ some given)
        × Running (decode_from_files unmarshal scan given) started
  run_parsed-Running none levels n l r = cc
  run_parsed-Running (some given) none n l r = cc
  run_parsed-Running (some given) (some levels) n l r = (
    given,
    n,
    start_runs-Running flags.annotation_key levels (decode_from_files unmarshal scan given) started
        (set_level-bounds flags.levels levels l).0 r,
  )

  main-Running :
      run_main unmarshal scan flags ≡ runs started
      → (given : List String) × (set_all set_file_name flags.file_names [] ≡ some given)
        × Running (decode_from_files unmarshal scan given) started
  unfolding run_main
  main-Running = run_parsed-Running _ _ refl refl

  -- If main starts the runs of the queues, none of them gets stuck: as long as a run has not sent the
  -- name of its queue, it has a next turn.
  pub run_main-goes_on :
      {s : Started} {i : ℕ} {r : Round}
      → run_main unmarshal scan flags ≡ runs started
      → Memᴰ s started
      → Reach (pos_part s.level) s.configs i r
      → r.done ≡ false
      → (next : Round) × Step (pos_part s.level) r next
  run_main-goes_on {s} e m reach going =
      let (given, names, h) = main-Running e in
      Reach-goes_on (Mem-All IsPositive started h.positive m) reach going

  -- If main starts the runs of the queues, then when all of them have sent the names of their queues
  -- every test that was decoded from the files has finished, and each just once.
  pub run_main-finished :
      {names : List String} {configs : List LoadTest} (rounds : List Round)
      → run_main unmarshal scan flags ≡ runs started
      → set_all set_file_name flags.file_names [] ≡ some names
      → decode_from_files unmarshal scan names ≡ ok configs
      → AllDone started rounds
      → Perm (all_finished rounds) configs
  run_main-finished {names} {configs} rounds e files tests over =
      let (given, parsed, h) = main-Running e in
      subst (Perm (all_finished rounds))
        (ok-injective (
          sym h.decoded
          ∙ ap (decode_from_files unmarshal scan) (some-injective (sym parsed ∙ files))
          ∙ tests))
        (Perm.trans (finished-Perm started rounds over) h.conserved)
