-- ===== src/Config/Defaults/Valid.antt =====
-- What `Validate` ensures of the images that the setters infer.
use grpc_test_infra.Base.{
  ℕ, suc, String, Bool, true, false, Option, none, some, List, [], ◌∷◌, ok, ◌≡◌, ◌==◌,
  if◌then◌else◌, All, arith,
}
use grpc_test_infra.Base.Dict.{lookup}
use grpc_test_infra.Config.Images.{
  LanguageDefault, Defaults, ImageMap, new_image_map, build_image, run_image,
}
use grpc_test_infra.Config.Images.Lookup.{last_default, lookup-new_image_map}
use grpc_test_infra.Config.Defaults.{validate_languages, validate}

abbrev HasImages : LanguageDefault → Type 0
HasImages ld =
    ((ld.language == "") ≡ false)
    × ((ld.build_image == "") ≡ false)
    × ((ld.run_image == "") ≡ false)

validate_languages-HasImages :
    (i : ℕ) (lds : List LanguageDefault) → validate_languages i lds ≡ none → All HasImages lds
unfolding validate_languages
validate_languages-HasImages i [] h = tt
validate_languages-HasImages i (ld ∷ lds) h =
    (ground arith, validate_languages-HasImages (suc i) lds (ground arith))

abbrev OrHasImages : Option LanguageDefault → Type 0
OrHasImages none = Unit
OrHasImages (some ld) = HasImages ld

last_default-HasImages :
    (so_far : Option LanguageDefault) (language : String) (lds : List LanguageDefault)
    → OrHasImages so_far
    → All HasImages lds
    → OrHasImages (last_default so_far language lds)
last_default-HasImages so_far language [] h all = h
last_default-HasImages so_far language (ld ∷ lds) h all =
    last_default-HasImages (if ld.language == language then some ld else so_far) language lds
      (pick (ld.language == language)) all.1
  where
    pick : (b : Bool) → OrHasImages (if b then some ld else so_far)
    pick true = all.0
    pick false = h

validate-languages : (d : Defaults) → validate d ≡ none → validate_languages 0 d.languages ≡ none
unfolding validate
validate-languages d h = ground arith

module _ (im : ImageMap) (language image : String) where
  image_of_found :
      (found : Option LanguageDefault)
      → lookup language im ≡ found
      → OrHasImages found
      → (build_image im language ≡ ok image → (image == "") ≡ false)
        × (run_image im language ≡ ok image → (image == "") ≡ false)
  unfolding build_image run_image
  image_of_found none e h = ground arith
  image_of_found (some ld) e h = ground arith

-- With valid defaults every image that is inferred for a build or a run is a non-empty name, and so
-- are the images of the clone and ready init containers and of the driver.
pub validate-images :
    (d : Defaults) (language image : String)
    → validate d ≡ none
    → (build_image (new_image_map d.languages) language ≡ ok image → (image == "") ≡ false)
      × (run_image (new_image_map d.languages) language ≡ ok image → (image == "") ≡ false)
      × ((d.clone_image == "") ≡ false)
      × ((d.ready_image == "") ≡ false)
      × ((d.driver_image == "") ≡ false)
unfolding validate
validate-images d language image h =
    let listed = validate_languages-HasImages 0 d.languages (validate-languages d h) in
    let (build, run) =
      image_of_found (new_image_map d.languages) language image
        (last_default none language d.languages) (lookup-new_image_map language d.languages)
        (last_default-HasImages none language d.languages tt listed) in
    (build, run, ground arith, ground arith, ground arith)
