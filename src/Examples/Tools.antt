-- ===== src/Examples/Tools.antt =====
-- The tools for prebuilt workers: a registry with two repositories, and the flags of a build.
use grpc_test_infra.Base.{All, keep, not}
use grpc_test_infra.Base.{
  String, true, false, List, [], ◌∷◌, ◌≡◌, ◌↔◌, refl, returns, ◌==◌, if◌then◌else◌,
}
use grpc_test_infra.Tools.Delete.{
  Command, list_images, list_tags, untag, delete_image, Gcloud, delete_prebuilt, ends,
  repositories_of,
}
use grpc_test_infra.Tools.Delete.Deletes.{AreJustified}
use grpc_test_infra.Tools.Delete.Handles.{IsHandled, delete_prebuilt-IsHandled}
use grpc_test_infra.Tools.Prepare.{Tests, prepare}
use grpc_test_infra.Tools.Prepare.Pairs.{AreValid, is_made, prepare-AreValid}

abbrev answer : Command → String
answer (list_images prefix) = "NAME\nr/cxx\nr/go\n"
answer (list_tags repository tag) =
    if repository == "r/cxx"
    then "DIGEST TAGS\nabc  old,new  2020\n"
    else "DIGEST TAGS\ndef old 2020\n"
answer _ = ""

abbrev gcloud : Gcloud
gcloud before command = answer command

abbrev commands : List Command
commands =
    delete_image "r/go:old"
    ∷ list_tags "r/go" "old"
    ∷ untag "r/cxx:old"
    ∷ list_tags "r/cxx" "old"
    ∷ list_images "r"
    ∷ []

deletes : delete_prebuilt gcloud "r" "old" ≡ ends (returns commands)
unfolding delete_prebuilt
deletes = refl

delete_prebuilt-IsHandled_example :
    All (IsHandled gcloud "old" commands) (keep (λ r. not (r == "")) (repositories_of gcloud "r"))
    × AreJustified gcloud "old" commands
delete_prebuilt-IsHandled_example = delete_prebuilt-IsHandled gcloud "r" "old" commands deletes

abbrev tests : Tests
tests = record {
  pre_built_image_prefix = "r";
  test_tag = "old";
  dockerfile_root = "docker";
  build_only = false;
  languages_selected = "c++:master" ∷ "go:v1" ∷ [];
}

prepare-AreValid_example : (is_made (prepare tests) ≡ true) ↔ AreValid tests
prepare-AreValid_example = prepare-AreValid tests

tests_accepted : is_made (prepare tests) ≡ true
unfolding prepare
tests_accepted = refl
