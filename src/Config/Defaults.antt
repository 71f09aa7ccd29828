-- ===== src/Config/Defaults.antt =====
-- config/defaults.go: the validation of the defaults, and the defaults set on a load test. A setter
-- returns the object it has changed, and the error if there is one. `fresh` is what the UUID library
-- gives: `fresh k` to the k-th place that may ask for a name.
pub mod Complete
pub mod Whole
pub mod Valid
use grpc_test_infra.Base.{
  ℕ, zero, suc, ◌+◌, String, Bool, true, false, Option, none, some, List, [], ◌∷◌, Message, plain,
  fill_text, fill_number, fill_error, wrap, Result, ok, err, ◌==◌, if◌then◌else◌, length,
}
use grpc_test_infra.Base.Int.{pos}
use grpc_test_infra.Api.{
  Clone, Build, Run, Component, Driver, Client, Server, LoadTest, LoadTestSpec,
}
use grpc_test_infra.Config.Images.{
  LanguageDefault, Defaults, ImageMap, new_image_map, build_image, run_image,
}

-- The loop of `Validate`, from index `i`.
pub validate_languages : ℕ → List LanguageDefault → Option Message
validate_languages i [] = none
validate_languages i (ld ∷ lds) =
    let later = validate_languages (suc i) lds in
    if ld.language == ""
    then some (fill_number (plain "language (index %d) unnamed") (pos i))
    else if ld.build_image == ""
    then some (
        fill_number
          (fill_text (plain "language %q (index %d) missing image for build init container")
            ld.language)
          (pos i))
    else if ld.run_image == ""
    then some (
        fill_number
          (fill_text (plain "language %q (index %d) missing image for run container") ld.language)
          (pos i))
    else later

unfoldable pub validate : Defaults → Option Message
unfolding validate_languages
validate d =
    if d.clone_image == ""
    then some (plain "missing image for clone init container")
    else if d.ready_image == ""
    then some (plain "missing image for ready init container")
    else if d.driver_image == ""
    then some (plain "missing image for driver container")
    else validate_languages 0 d.languages

unwrap_str_or_uuid : String → Option String → Option String
unwrap_str_or_uuid uuid none = some uuid
unwrap_str_or_uuid uuid (some name) = some name

or_image : Option String → String → Option String
or_image none image = some image
or_image (some image) default_image = some image

set_clone_or_default : Defaults → Option Clone → Option Clone
unfolding or_image
set_clone_or_default d none = none
set_clone_or_default d (some clone) =
    some (record clone { image = or_image clone.image d.clone_image })

fill_build : Build → Result String → Option Build × Option Message
fill_build build (ok image) = (some (record build { image = some image }), none)
fill_build build (err e) = (some build, some (wrap (plain "could not infer default build image") e))

set_build_image : ImageMap → String → Build → Option String → Option Build × Option Message
unfolding fill_build
set_build_image im language build none = fill_build build (build_image im language)
set_build_image im language build (some image) = (some build, none)

unfoldable pub set_build_or_default :
    ImageMap → String → Option Build → Option Build × Option Message
unfolding set_build_image
set_build_or_default im language none = (none, none)
set_build_or_default im language (some build) = set_build_image im language build build.image

fill_run : Run → Result String → Run × Option Message
fill_run run (ok image) = (record run { image = some image }, none)
fill_run run (err e) = (run, some (wrap (plain "could not infer default run image") e))

set_run_image : ImageMap → String → Run → Option String → Run × Option Message
unfolding fill_run
set_run_image im language run none = fill_run run (run_image im language)
set_run_image im language run (some image) = (run, none)

unfoldable pub set_run_or_default : ImageMap → String → Run → Run × Option Message
unfolding set_run_image
set_run_or_default im language run = set_run_image im language run run.image

wrap_error : String → Option Message → Option Message
wrap_error context none = none
wrap_error context (some e) = some (wrap (plain context) e)

-- The two calls at the end of each setter: the second is made only if the first succeeds.
set_run : ImageMap → String → Component → Option Message → Component × Option Message
unfolding set_run_or_default wrap_error
set_run im run_context c (some e) = (c, some e)
set_run im run_context c none =
    let (run, failed) = set_run_or_default im c.language c.run in
    (record c { run = run }, wrap_error run_context failed)

pub set_images : ImageMap → String → String → Component → Component × Option Message
unfolding set_build_or_default set_run
set_images im build_context run_context c =
    let (build, failed) = set_build_or_default im c.language c.build in
    set_run im run_context (record c { build = build }) (wrap_error build_context failed)

abbrev pub no_run : Run
no_run = record { image = none; command = []; args = []; env = []; volume_mounts = [] }

-- `new(grpcv1.Driver)`
abbrev pub new_driver : Driver
new_driver = record {
  name = none;
  language = "";
  pool = none;
  clone = none;
  build = none;
  run = no_run;
}

abbrev pub or_new : Option Driver → Driver
or_new none = new_driver
or_new (some driver) = driver

-- `client.Name = unwrapStrOrUUID(client.Name)` and `d.setCloneOrDefault(client.Clone)`, and so for
-- a server.
pub name_and_clone : Defaults → String → Component → Component
unfolding unwrap_str_or_uuid set_clone_or_default
name_and_clone d uuid c = record c {
  name = unwrap_str_or_uuid uuid c.name;
  clone = set_clone_or_default d c.clone;
}

-- The language and the image of a driver.
pub prepare_driver : Defaults → Driver → Driver
unfolding or_image
prepare_driver d driver = record driver {
  language = if driver.language == "" then "cxx" else driver.language;
  run = record driver.run { image = or_image driver.run.image d.driver_image };
}

unfoldable pub set_driver_defaults :
    Defaults → ImageMap → String → Option Driver → Driver × Option Message
set_driver_defaults d im uuid given =
    set_images im "failed to set defaults on instructions to build the driver"
      "failed to set defaults on instructions to run the driver"
      (name_and_clone d uuid (prepare_driver d (or_new given)))

unfoldable pub set_client_defaults : Defaults → ImageMap → String → Client → Client × Option Message
set_client_defaults d im uuid client =
    set_images im "failed to set defaults on instructions to build the client"
      "failed to set defaults on instructions to run the client" (name_and_clone d uuid client)

unfoldable pub set_server_defaults : Defaults → ImageMap → String → Server → Server × Option Message
set_server_defaults d im uuid server =
    set_images im "failed to set defaults on instructions to build the server"
      "failed to set defaults on instructions to run the server" (name_and_clone d uuid server)

-- A loop over servers or clients from index `i`: an error ends it, and the rest stays as it is.
pub set_each :
    (ℕ → Component → Component × Option Message)
    → String
    → ℕ
    → List Component
    → List Component × Option Message
set_each set context i [] = ([], none)
set_each set context i (c ∷ cs) =
    let (c', failed) = set i c in
    let rest = set_each set context (suc i) cs in
    elim failed [
      | none ↦ (c' ∷ rest.0, rest.1)
      | some e ↦ (c' ∷ cs, some (wrap (fill_number (plain context) (pos i)) e))
    ]

pub set_clients :
    Defaults → ImageMap → (ℕ → String) → LoadTest → Option Message → LoadTest × Option Message
set_clients d im fresh test (some e) = (test, some e)
set_clients d im fresh test none =
    let (clients, failed) =
      set_each (λ i. set_client_defaults d im (fresh (1 + length test.spec.servers + i)))
        "could not set defaults for client at index %d" 0 test.spec.clients in
    (record test { spec = record test.spec { clients = clients } }, failed)

pub set_servers :
    Defaults → ImageMap → (ℕ → String) → LoadTest → Option Message → LoadTest × Option Message
set_servers d im fresh test (some e) =
    (test, some (wrap (plain "could not set defaults for driver") e))
set_servers d im fresh test none =
    let (servers, failed) =
      set_each (λ i. set_server_defaults d im (fresh (1 + i)))
        "could not set defaults for server at index %d" 0 test.spec.servers in
    (record test { spec = record test.spec { servers = servers } }, failed)

abbrev pub or_namespace : Defaults → String → String
or_namespace d namespace = if namespace == "" then d.component_namespace else namespace

unfoldable pub set_load_test_defaults :
    (ℕ → String) → Defaults → LoadTest → LoadTest × Option Message
set_load_test_defaults fresh d test =
    let im = new_image_map d.languages in
    let (driver, failed) = set_driver_defaults d im (fresh 0) test.spec.driver in
    let named = record test {
      namespace = or_namespace d test.namespace;
      spec = record test.spec { driver = some driver };
    } in
    let (served, server_failed) = set_servers d im fresh named failed in
    set_clients d im fresh served server_failed
