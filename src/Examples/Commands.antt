-- ===== src/Examples/Commands.antt =====
-- The defaults file: written by the configure command, and read by the controller.
use mathlib.Core.List.{Memᴰ}
use grpc_test_infra.Base.{
  String, none, [], ◌∷◌, plain, Result, ok, err, ◌≡◌, refl, ◌==◌, if◌then◌else◌, eq_iff, arith,
}
use grpc_test_infra.Config.Images.{Defaults}
use grpc_test_infra.Config.Defaults.{validate}
use grpc_test_infra.Commands.Configure
use grpc_test_infra.Commands.Configure.{DefaultsData, configure}
use grpc_test_infra.Commands.Controller
use grpc_test_infra.Commands.Controller.{controller_main, served}
use grpc_test_infra.Commands.Defaults.{configure-controller_main}
use grpc_test_infra.Examples.Fixtures.{defaults}

abbrev read_yaml : String → Result Defaults
read_yaml text = if text == "driver: latest" then ok defaults else err (plain "no defaults")

abbrev host : Configure.Host String
host = record {
  parse_files = λ file. ok "driver: ";
  execute = λ templ values. ok "driver: latest";
  unmarshal = read_yaml;
  create = λ path. none;
  write_string = λ path text. none;
}

abbrev server : Controller.Host
server = record {
  read_file = λ file. ok "driver: latest";
  unmarshal = read_yaml;
  new_manager = none;
  set_up = λ d. none;
  start = none;
}

abbrev values : DefaultsData
values = record {
  version = "latest";
  init_image_prefix = "";
  image_prefix = "";
  build_image_prefix = "";
}

configure-controller_main_example :
    (d : Defaults) × (validate d ≡ none) × (controller_main server "defaults.yaml" ≡ served d none)
unfolding configure
configure-controller_main_example =
    configure-controller_main host server values ("defaults_template.yaml" ∷ "defaults.yaml" ∷ [])
      "driver: latest" "defaults.yaml" (Memᴰ.head refl) refl
      (λ e. ground (arith, e, eq_iff "defaults.yaml" "")) refl refl (λ d. refl)
