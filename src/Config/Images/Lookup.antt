-- ===== src/Config/Images/Lookup.antt =====
-- Which default a language has.
use grpc_test_infra.Base.{String, Option, none, some, List, [], ◌∷◌, ◌≡◌, refl, ◌==◌, if◌then◌else◌}
use grpc_test_infra.Base.Dict.{lookup, lookup-insert}
use grpc_test_infra.Config.Images.{LanguageDefault, ImageMap, add_languages, new_image_map}

-- The last default that is listed for a language.
abbrev pub last_default :
    Option LanguageDefault → String → List LanguageDefault → Option LanguageDefault
last_default so_far language [] = so_far
last_default so_far language (ld ∷ lds) =
    last_default (if ld.language == language then some ld else so_far) language lds

lookup-add_languages :
    (language : String) (lds : List LanguageDefault) (m : ImageMap)
    → lookup language (add_languages lds m) ≡ last_default (lookup language m) language lds
unfolding add_languages
lookup-add_languages language [] m = refl
lookup-add_languages language (ld ∷ lds) m =
    rw (lookup-add_languages language lds) (rw lookup-insert)

pub lookup-new_image_map :
    (language : String) (lds : List LanguageDefault)
    → lookup language (new_image_map lds) ≡ last_default none language lds
unfolding new_image_map lookup
lookup-new_image_map language lds = lookup-add_languages language lds []
