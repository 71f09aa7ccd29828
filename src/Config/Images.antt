-- ===== src/Config/Images.antt =====
-- config/defaults_internal.go and the data types of config/defaults.go.
pub mod Lookup
use grpc_test_infra.Base.{
  ℕ, String, Option, none, some, List, [], ◌∷◌, Message, plain, fill_text, Result, ok, err,
}
use grpc_test_infra.Base.Dict.{Dict, lookup, insert}

pub record LanguageDefault : Type 0 where
  pub language : String
  pub build_image : String
  pub run_image : String

pub record PoolLabelMap : Type 0 where
  pub client : String
  pub driver : String
  pub server : String

pub record Defaults : Type 0 where
  pub component_namespace : String
  pub default_pool_labels : Option PoolLabelMap
  pub clone_image : String
  pub ready_image : String
  pub driver_image : String
  pub languages : List LanguageDefault

abbrev pub ImageMap : Type 0
ImageMap = Dict LanguageDefault

-- The loop of `newImageMap`: a later default of a language takes the place of an earlier one.
unfoldable pub add_languages : List LanguageDefault → ImageMap → ImageMap
add_languages [] m = m
add_languages (ld ∷ lds) m = add_languages lds (insert ld.language ld m)

unfoldable pub new_image_map : List LanguageDefault → ImageMap
unfolding add_languages
new_image_map lds = add_languages lds []

abbrev no_image : String → Message
no_image language = fill_text (plain "cannot find image for language %q") language

unfoldable pub build_image : ImageMap → String → Result String
build_image im language = elim (lookup language im) [
  | none ↦ err (no_image language)
  | some ld ↦ ok ld.build_image
]

unfoldable pub run_image : ImageMap → String → Result String
run_image im language = elim (lookup language im) [
  | none ↦ err (no_image language)
  | some ld ↦ ok ld.run_image
]
