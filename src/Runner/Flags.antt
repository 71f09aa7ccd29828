-- ===== src/Runner/Flags.antt =====
-- tools/runner/flags.go: the flags that collect file names and concurrency levels. A call of `Set`
-- gives the value that it leaves and its error.
pub mod Levels
pub mod RoundTrip
use grpc_test_infra.Base.{
  ℕ, String, List, [], ◌∷◌, ◌++◌, Option, none, some, Message, plain, fill_text, fill_number, ◌==◌,
  ltb, if◌then◌else◌, not, length, ◌&&◌, Bool,
}
use grpc_test_infra.Base.Int.{ℤ, pos, ltb_ℤ}
use grpc_test_infra.Base.Strings.{split_two, atoi}
use grpc_test_infra.Base.Dict.{Dict, insert, lookup_or}

-- `FileNames.Set`
unfoldable pub set_file_name : String → List String → List String × Option Message
set_file_name value names =
    if value == ""
    then (names, some (plain "value must not be empty"))
    else (names ++ value ∷ [], none)

-- What `Set` finds in the value: a key, which may be empty, and the text of the level.
abbrev pub key_and_level : List String → String × String
key_and_level [] = ("", "")
key_and_level (level ∷ []) = ("", level)
key_and_level (key ∷ level ∷ _) = (key, level)

abbrev pub not_a_number : String → String → Message
not_a_number key level =
    if key == ""
    then plain "value must be of the form [<queue name>:]<concurrrency level>"
    else fill_text (plain "concurrency level must be an integer, got %s") level

abbrev pub mixed : Dict ℤ → Bool
mixed levels = ltb_ℤ (pos 0) (lookup_or (pos 0) "" levels) && ltb 1 (length levels)

-- The part of `Set` that stores the level.
unfoldable pub store_level : String → ℤ → Dict ℤ → Dict ℤ × Option Message
unfolding insert lookup_or
store_level key level levels =
    let stored = insert key level levels in
    (
      stored,
      if mixed stored
          then some (plain "global capacity and queue names are mutually exclusive")
          else none,
    )

abbrev pub check_level : String → String → Option ℤ → Dict ℤ → Dict ℤ × Option Message
check_level key text none levels = (levels, some (not_a_number key text))
check_level key text (some level) levels =
    if not (ltb_ℤ (pos 0) level)
    then (levels, some (fill_number (plain "concurrency level must be positive, got %d") level))
    else store_level key level levels

-- `ConcurrencyLevels.Set`
unfoldable pub set_level : String → Dict ℤ → Dict ℤ × Option Message
unfolding split_two atoi store_level
set_level value levels =
    let found = key_and_level (split_two ":" value) in
    check_level found.0 found.1 (atoi found.1) levels

abbrev pub unless_error {ℓ} : {A : Type ℓ} → Option Message → Option A → Option A
unless_error none later = later
unless_error (some e) later = none

-- The values of a flag that is given several times, as long as there is no error: package flag ends
-- the program at the first one.
unfoldable pub set_all {ℓ} :
    {A : Type ℓ} → (String → A → A × Option Message) → List String → A → Option A
set_all set [] held = some held
set_all set (value ∷ values) held =
    unless_error (set value held).1 (set_all set values (set value held).0)
