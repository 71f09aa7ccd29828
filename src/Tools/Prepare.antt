-- ===== src/Tools/Prepare.antt =====
-- tools/prepare_prebuilt_workers/prepare_prebuilt_workers.go: the checks of the flags, the pairs of
-- languages and git references, and the commands that make an image. Whether a command succeeds is a
-- function of the command.
pub mod Pairs
use grpc_test_infra.Base.{
  ℕ, String, Bool, true, false, Option, none, some, List, [], ◌∷◌, ◌++◌, Message, plain, fill_text,
  ◌==◌, if◌then◌else◌, ltb, length, not,
}
use grpc_test_infra.Base.Text.{cat}
use grpc_test_infra.Base.Strings.{split, byte_length}
use grpc_test_infra.Base.Dict.{Dict, lookup_or, insert}

-- `Tests` and `languagesSelected`, as the flags set them.
pub record Tests : Type 0 where
  pub pre_built_image_prefix : String
  pub test_tag : String
  pub dockerfile_root : String
  pub build_only : Bool
  pub languages_selected : List String

abbrev pub no_language : List String → Option Message
no_language [] = some (
    plain
      "Failed preparing prebuilt images: no language and its gitref pair specified, please provide languages and the GITREF as cxx:master")
no_language (pair ∷ pairs) = none

unfoldable pub check_tests : Tests → Option Message
unfolding byte_length
check_tests test =
    if test.pre_built_image_prefix == ""
    then some (
        plain
          "No registry provided, please provide a container registry.If the images are not intended to be pushed to a registry, please provide a prefix for naming the built images")
    else if test.test_tag == ""
    then some (plain "Failed preparing prebuilt images: no image tag provided")
    else if ltb 128 (byte_length test.test_tag)
    then some (
        plain
          "Failed preparing prebuilt images: invalid tag name, a tag name may not start with a period or a dash and may contain a maximum of 128 characters.")
    else if test.dockerfile_root == ""
    then some (plain "Fail preparing prebuilt images: no root directory for Dockerfiles provided")
    else no_language test.languages_selected

abbrev pub converter_to_image_language : Dict String
converter_to_image_language =
    ("c++", "cxx")
    ∷ ("node_purejs", "node")
    ∷ ("php7_protobuf_c", "php7")
    ∷ ("python_asyncio", "python")
    ∷ []

-- The image of a language is its own, if no other is named.
unfoldable pub image_language : String → String
unfolding lookup_or
image_language lang = lookup_or lang lang converter_to_image_language

abbrev pub pair_of : List String → Option (String × String)
pair_of (lang ∷ gitref ∷ []) = if gitref == "" then none else some (lang, gitref)
pair_of _ = none

unfoldable pub read_pair : String → Option (String × String)
unfolding split
read_pair pair = pair_of (split ":" pair)

-- The entry of a pair in the map from image languages to git references.
abbrev pub store_pair : String × String → Dict String → Dict String
store_pair (lang, gitref) m = insert (image_language lang) gitref m

abbrev pub and_then {ℓ κ} : {A : Type ℓ} {B : Type κ} → Option A → (A → Option B) → Option B
and_then none f = none
and_then (some a) f = f a

-- The loop over the pairs: none where it ends the program.
unfoldable pub read_pairs : List String → Dict String → Option (Dict String)
unfolding read_pair image_language insert
read_pairs [] m = some m
read_pairs (pair ∷ pairs) m =
    and_then (read_pair pair) (λ found. read_pairs pairs (store_pair found m))

pub data Docker : Type 0 where
  build : String → String → String → String → Docker
  push : String → Docker

-- The goroutine of one language: the commands that it runs, and the message with which it ends the
-- program.
pub record Made : Type 0 where
  pub commands : List Docker
  pub failure : Option Message

abbrev image_of : Tests → String → String
image_of test lang = cat test.pre_built_image_prefix (cat "/" (cat lang (cat ":" test.test_tag)))

abbrev location_of : Tests → String → String
location_of test lang = cat test.dockerfile_root (cat "/" (cat lang "/"))

abbrev made : List Docker → Option Message → Made
made commands failure = record { commands = commands; failure = failure }

unfoldable pub make_image : (Docker → Bool) → Tests → String → String × String → Made
make_image succeeds test cache_breaker (lang, gitref) =
    let image = image_of test lang in
    let built = build (location_of test lang) image gitref cache_breaker in
    if not (succeeds built)
    then made (built ∷ []) (some (fill_text (plain "Failed building %s image: %s") lang))
    else if test.build_only
    then made (built ∷ []) none
    else if not (succeeds (push image))
    then made (built ∷ push image ∷ [])
        (some (fill_text (plain "Failed pushing %s image: %s") lang))
    else made (built ∷ push image ∷ []) none

pub data Prepared : Type 0 where
  fatal : Message → Prepared
  makes : Dict String → Prepared

abbrev pub make_all : Option (Dict String) → Prepared
make_all none = fatal (
    plain
      "Input error in language and gitref selection, please follow the format as language:gitref, for example: c++:<commit-sha>")
make_all (some m) = makes m

abbrev pub prepare_if : Option Message → List String → Prepared
prepare_if (some e) pairs = fatal e
prepare_if none pairs = make_all (read_pairs pairs [])

-- What main makes an image of: a map from languages to git references.
unfoldable pub prepare : Tests → Prepared
unfolding check_tests read_pairs
prepare test = prepare_if (check_tests test) test.languages_selected
