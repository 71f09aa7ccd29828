-- ===== src/Runner/Configs.antt =====
-- tools/runner/configs.go: the tests of a set of files, each a list of YAML documents. What the
-- scanner gives of a file is the list of its lines; opening a file and reading YAML are parameters.
pub mod Documents
pub mod RoundTrip
use grpc_test_infra.Base.{
  ℕ, zero, suc, String, List, [], ◌∷◌, ◌++◌, ◌≡◌, refl, Option, none, some, Message, plain,
  fill_text, fill_error, Result, ok, err, ◌==◌, if◌then◌else◌, length,
}
use grpc_test_infra.Base.Strings.{join}
use grpc_test_infra.Api.{LoadTest}

abbrev pub separator : String
separator = "---"

-- The loop of `decodeNext`: the lines up to a separator, and those that the scanner still has.
unfoldable pub next_part : List String → List String × List String
next_part [] = ([], [])
next_part (line ∷ lines) =
    let rest = next_part lines in if line == separator then ([], lines) else (line ∷ rest.0, rest.1)

abbrev pub decoded : Result LoadTest → Result (Option LoadTest)
decoded (ok config) = ok (some config)
decoded (err e) = err e

-- The rest of `decodeNext`: no lines are no test.
unfoldable pub decode_part : (String → Result LoadTest) → List String → Result (Option LoadTest)
decode_part unmarshal [] = ok none
decode_part unmarshal (line ∷ lines) = decoded (unmarshal (join "\n" (line ∷ lines)))

abbrev pub in_file : String → Message → Message
in_file name e = fill_error (fill_text (plain "error decoding config from %q: %v") name) e

abbrev pub prepend : LoadTest → Result (List LoadTest) → Result (List LoadTest)
prepend config (ok configs) = ok (config ∷ configs)
prepend config (err e) = err e

-- The body of the loop of `decodeFromFile`, before the rounds that come after it.
unfoldable pub add_next :
    String → Result (Option LoadTest) → Result (List LoadTest) → Result (List LoadTest)
add_next name (err e) later = err (in_file name e)
add_next name (ok none) later = ok []
add_next name (ok (some config)) later = prepend config later

-- The loop of `decodeFromFile`, with a bound on its rounds.
unfoldable pub decode_rounds :
    (String → Result LoadTest) → String → ℕ → List String → Result (List LoadTest)
unfolding next_part decode_part add_next
decode_rounds unmarshal name zero lines = ok []
decode_rounds unmarshal name (suc fuel) lines =
    add_next name (decode_part unmarshal (next_part lines).0)
      (decode_rounds unmarshal name fuel (next_part lines).1)

abbrev pub decode_lines :
    (String → Result LoadTest) → String → Result (List String) → Result (List LoadTest)
decode_lines unmarshal name (err e) = err e
decode_lines unmarshal name (ok lines) = decode_rounds unmarshal name (suc (length lines)) lines

unfoldable pub decode_from_file :
    (String → Result LoadTest) → (String → Result (List String)) → String → Result (List LoadTest)
unfolding decode_rounds
decode_from_file unmarshal scan name = decode_lines unmarshal name (scan name)

abbrev pub append_result : Result (List LoadTest) → Result (List LoadTest) → Result (List LoadTest)
append_result (err e) later = err e
append_result (ok configs) (err e) = err e
append_result (ok configs) (ok others) = ok (configs ++ others)

unfoldable pub decode_from_files :
    (String → Result LoadTest)
    → (String → Result (List String))
    → List String
    → Result (List LoadTest)
unfolding decode_from_file
decode_from_files unmarshal scan [] = ok []
decode_from_files unmarshal scan (name ∷ names) =
    append_result (decode_from_file unmarshal scan name) (decode_from_files unmarshal scan names)
