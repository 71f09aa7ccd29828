-- ===== src/Examples/Defaults.antt =====
-- The defaults set on the sample tests.
use grpc_test_infra.Base.{ℕ, String, false, ◌&&◌, none, some, ok, ◌≡◌, refl, ◌∙◌, ◌==◌}
use grpc_test_infra.Base.Dict.{insert, has}
use grpc_test_infra.Config.Images.{new_image_map, build_image, run_image}
use grpc_test_infra.Config.Defaults.{or_new, validate, set_load_test_defaults}
use grpc_test_infra.Config.Defaults.Complete.{is_supported, is_ok, none_of_is_ok, all_supported}
use grpc_test_infra.Config.Defaults.Whole.{
  driver_language, IsReady, set_load_test_defaults-ok, set_load_test_defaults-IsReady,
  set_load_test_defaults-fixed,
}
use grpc_test_infra.Config.Defaults.Valid.{validate-images}
use grpc_test_infra.Examples.Fixtures.{test, bare_test, defaults, driver}

abbrev uuid : ℕ → String
uuid k = "uuid"

set_load_test_defaults-ok_example : is_ok (set_load_test_defaults uuid defaults bare_test).1 ≡ (
    is_supported
      (new_image_map defaults.languages)
      (driver_language bare_test.spec.driver)
      (or_new bare_test.spec.driver).build
      (some "")
    && all_supported (new_image_map defaults.languages) bare_test.spec.servers
    && all_supported (new_image_map defaults.languages) bare_test.spec.clients)
set_load_test_defaults-ok_example = set_load_test_defaults-ok uuid defaults bare_test

bare_test_accepted : (set_load_test_defaults uuid defaults bare_test).1 ≡ none
unfolding new_image_map insert has
bare_test_accepted = none_of_is_ok _ (set_load_test_defaults-ok uuid defaults bare_test ∙ refl)

set_load_test_defaults-IsReady_example :
    IsReady defaults (set_load_test_defaults uuid defaults bare_test).0
set_load_test_defaults-IsReady_example =
    set_load_test_defaults-IsReady uuid defaults bare_test bare_test_accepted

test-IsReady : IsReady defaults test
test-IsReady = record {
  driver = driver;
  has_driver = refl;
  driver_complete = refl;
  driver_speaks = refl;
  servers_complete = refl;
  clients_complete = refl;
  namespace = refl;
}

set_load_test_defaults-fixed_example : set_load_test_defaults uuid defaults test ≡ (test, none)
set_load_test_defaults-fixed_example = set_load_test_defaults-fixed uuid defaults test test-IsReady

defaults_valid : validate defaults ≡ none
unfolding validate
defaults_valid = refl

validate-images_example :
    (build_image (new_image_map defaults.languages) "go" ≡ ok "go-build"
      → ("go-build" == "") ≡ false)
    × (run_image (new_image_map defaults.languages) "go" ≡ ok "go-build"
        → ("go-build" == "") ≡ false)
    × ((defaults.clone_image == "") ≡ false)
    × ((defaults.ready_image == "") ≡ false)
    × ((defaults.driver_image == "") ≡ false)
validate-images_example = validate-images defaults "go" "go-build" defaults_valid
