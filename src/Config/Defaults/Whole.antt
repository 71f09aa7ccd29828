-- ===== src/Config/Defaults/Whole.antt =====
-- The defaults of a whole load test: when they can be set, what they leave, and that they are set once.
use grpc_test_infra.Base.{
  ℕ, ◌+◌, String, true, false, ◌&&◌, Option, none, some, Message, ◌≡◌, refl, ◌∙◌, ap, sym, ◌==◌,
  if◌then◌else◌, is_some, all, arith, length, Bool-cases, inl, inr,
}
use grpc_test_infra.Api.{Driver, LoadTest}
use grpc_test_infra.Config.Images.{Defaults, ImageMap, new_image_map}
use grpc_test_infra.Config.Defaults.{
  or_new, prepare_driver, name_and_clone, set_driver_defaults, set_client_defaults,
  set_server_defaults, set_clients, set_servers, or_namespace, set_load_test_defaults,
}
use grpc_test_infra.Config.Defaults.Complete.{
  is_complete, is_supported, is_ok, all_supported, client-Sets, server-Sets, set_each-ok,
  set_each_complete, set_each-fixed, language-set_images, set_images-ok, set_images_complete,
  set_images-fixed, name_and_clone_complete, name_and_clone-fixed,
}

abbrev pub driver_language : Option Driver → String
driver_language given = if (or_new given).language == "" then "cxx" else (or_new given).language

abbrev build_context : String
build_context = "failed to set defaults on instructions to build the driver"

abbrev run_context : String
run_context = "failed to set defaults on instructions to run the driver"

prepare_driver_lem :
    (d : Defaults) (driver : Driver)
    → (is_some (prepare_driver d driver).run.image ≡ true)
      × (((prepare_driver d driver).language == "") ≡ false)
unfolding prepare_driver
prepare_driver_lem d driver = elim (Bool-cases (driver.language == "")) [
  | inl e ↦ rw e (ground arith)
  | inr e ↦ rw (e, e) (ground arith)
]

prepare_driver-fixed :
    (d : Defaults) (driver : Driver)
    → is_some driver.run.image ≡ true
    → (driver.language == "") ≡ false
    → prepare_driver d driver ≡ driver
unfolding prepare_driver
prepare_driver-fixed d driver h l = ground arith

module _ (d : Defaults) (im : ImageMap) (uuid : String) where
  abbrev prepared : Option Driver → Driver
  prepared given = name_and_clone d uuid (prepare_driver d (or_new given))

  driver-ok :
      (given : Option Driver)
      → is_ok (set_driver_defaults d im uuid given).1
        ≡ is_supported im (driver_language given) (or_new given).build (some "")
  unfolding set_driver_defaults name_and_clone prepare_driver
  driver-ok given = set_images-ok im build_context run_context (prepared given) ∙ ground arith

  driver_complete :
      (given : Option Driver)
      → (set_driver_defaults d im uuid given).1 ≡ none
      → (is_complete (set_driver_defaults d im uuid given).0 ≡ true)
        × (((set_driver_defaults d im uuid given).0.language == "") ≡ false)
  unfolding set_driver_defaults
  driver_complete given h =
      let (named, cloned) = name_and_clone_complete d uuid (prepare_driver d (or_new given)) in
      (
        set_images_complete im build_context run_context (prepared given) named cloned h,
        rw language-set_images (unfold name_and_clone in (prepare_driver_lem d (or_new given)).1),
      )

  driver-fixed :
      (driver : Driver)
      → is_complete driver ≡ true
      → (driver.language == "") ≡ false
      → set_driver_defaults d im uuid (some driver) ≡ (driver, none)
  unfolding set_driver_defaults
  driver-fixed driver h l =
      rw (prepare_driver-fixed d driver (ground arith) l, name_and_clone-fixed d uuid driver h)
        (set_images-fixed im build_context run_context driver h)

-- A load test with nothing left to set: it has a driver with a language, every component has a name
-- and its images, and the namespace is the default one if it was empty.
pub record IsReady (d : Defaults) (test : LoadTest) : Type 0 where
  pub driver : Driver
  pub has_driver : test.spec.driver ≡ some driver
  pub driver_complete : is_complete driver ≡ true
  pub driver_speaks : (driver.language == "") ≡ false
  pub servers_complete : all is_complete test.spec.servers ≡ true
  pub clients_complete : all is_complete test.spec.clients ≡ true
  pub namespace : or_namespace d test.namespace ≡ test.namespace

module _ (d : Defaults) (im : ImageMap) (fresh : ℕ → String) where
  set_servers-ok :
      (test : LoadTest) (failed : Option Message)
      → is_ok (set_servers d im fresh test failed).1
        ≡ (is_ok failed && all_supported im test.spec.servers)
  unfolding set_servers
  set_servers-ok test (some e) = refl
  set_servers-ok test none = set_each-ok im _ (λ i. server-Sets d im _) _ 0 test.spec.servers

  clients-set_servers :
      (test : LoadTest) (failed : Option Message)
      → (set_servers d im fresh test failed).0.spec.clients ≡ test.spec.clients
  unfolding set_servers
  clients-set_servers test (some e) = refl
  clients-set_servers test none = refl

  set_clients-ok :
      (test : LoadTest) (failed : Option Message)
      → is_ok (set_clients d im fresh test failed).1
        ≡ (is_ok failed && all_supported im test.spec.clients)
  unfolding set_clients
  set_clients-ok test (some e) = refl
  set_clients-ok test none = set_each-ok im _ (λ i. client-Sets d im _) _ 0 test.spec.clients

  -- What holds after the driver, and what the two loops then add.
  IsReady-set_servers :
      (test : LoadTest) (failed : Option Message)
      → (set_servers d im fresh test failed).1 ≡ none
      → (failed ≡ none)
        × (all is_complete (set_servers d im fresh test failed).0.spec.servers ≡ true)
        × ((set_servers d im fresh test failed).0.spec.driver ≡ test.spec.driver)
        × ((set_servers d im fresh test failed).0.namespace ≡ test.namespace)
  unfolding set_servers
  IsReady-set_servers test (some e) h = cc
  IsReady-set_servers test none h =
      (refl, set_each_complete im _ (λ i. server-Sets d im _) _ 0 test.spec.servers h, refl, refl)

  IsReady-set_clients :
      (test : LoadTest) (failed : Option Message)
      → (set_clients d im fresh test failed).1 ≡ none
      → (failed ≡ none)
        × (all is_complete (set_clients d im fresh test failed).0.spec.clients ≡ true)
        × ((set_clients d im fresh test failed).0.spec.servers ≡ test.spec.servers)
        × ((set_clients d im fresh test failed).0.spec.driver ≡ test.spec.driver)
        × ((set_clients d im fresh test failed).0.namespace ≡ test.namespace)
  unfolding set_clients
  IsReady-set_clients test (some e) h = cc
  IsReady-set_clients test none h = (
    refl,
    set_each_complete im _ (λ i. client-Sets d im _) _ 0 test.spec.clients h,
    refl,
    refl,
    refl,
  )

  set_servers-fixed :
      (test : LoadTest)
      → all is_complete test.spec.servers ≡ true
      → set_servers d im fresh test none ≡ (test, none)
  unfolding set_servers
  set_servers-fixed test h = rw (
      set_each-fixed im (λ i. set_server_defaults d im (fresh (1 + i))) (λ i. server-Sets d im _)
        "could not set defaults for server at index %d" 0 test.spec.servers h)

  set_clients-fixed :
      (test : LoadTest)
      → all is_complete test.spec.clients ≡ true
      → set_clients d im fresh test none ≡ (test, none)
  unfolding set_clients
  set_clients-fixed test h = rw (
      set_each-fixed im (λ i. set_client_defaults d im (fresh (1 + length test.spec.servers + i)))
        (λ i. client-Sets d im _) "could not set defaults for client at index %d" 0
        test.spec.clients h)

-- The defaults can be set exactly if every image that is still to be inferred, for a build or for a
-- server's or a client's run, belongs to a language that the defaults list.
pub set_load_test_defaults-ok :
    (fresh : ℕ → String) (d : Defaults) (test : LoadTest)
    → is_ok (set_load_test_defaults fresh d test).1 ≡ (
        is_supported
          (new_image_map d.languages)
          (driver_language test.spec.driver)
          (or_new test.spec.driver).build
          (some "")
        && all_supported (new_image_map d.languages) test.spec.servers
        && all_supported (new_image_map d.languages) test.spec.clients)
unfolding set_load_test_defaults
set_load_test_defaults-ok fresh d test =
    let im = new_image_map d.languages in
    simp (set_clients-ok, set_servers-ok, clients-set_servers, driver-ok)

abbrev with_driver : Defaults → LoadTest → Driver → LoadTest
with_driver d test driver = record test {
  namespace = or_namespace d test.namespace;
  spec = record test.spec { driver = some driver };
}

-- The rest of `set_load_test_defaults`, after its servers and after its driver.
abbrev after_servers :
    (ℕ → String) → Defaults → LoadTest × Option Message → LoadTest × Option Message
after_servers fresh d served = set_clients d (new_image_map d.languages) fresh served.0 served.1

abbrev after_driver :
    (ℕ → String) → Defaults → LoadTest → Driver × Option Message → LoadTest × Option Message
after_driver fresh d test p =
    after_servers fresh d
      (set_servers d (new_image_map d.languages) fresh (with_driver d test p.0) p.1)

or_namespace_idem :
    (d : Defaults) (ns : String) → or_namespace d (or_namespace d ns) ≡ or_namespace d ns
or_namespace_idem d ns = elim (Bool-cases (ns == "")) [
  | inl e ↦ rw e (ground arith)
  | inr e ↦ rw (e, e)
]

-- If the defaults can be set, the load test is ready.
pub set_load_test_defaults-IsReady :
    (fresh : ℕ → String) (d : Defaults) (test : LoadTest)
    → (set_load_test_defaults fresh d test).1 ≡ none
    → IsReady d (set_load_test_defaults fresh d test).0
unfolding set_load_test_defaults
set_load_test_defaults-IsReady fresh d test h =
    let im : ImageMap = new_image_map d.languages in
    let (driver, failed) = set_driver_defaults d im (fresh 0) test.spec.driver in
    let named : LoadTest = with_driver d test driver in
    let (served, server_failed) = set_servers d im fresh named failed in
    let (f, clients, servers_same, driver_same, namespace_same) =
      IsReady-set_clients d im fresh served server_failed h in
    let (g, servers, driver_kept, namespace_kept) = IsReady-set_servers d im fresh named failed f in
    let (complete, speaks) = driver_complete d im (fresh 0) test.spec.driver g in
    record {
      driver = driver;
      has_driver = driver_same ∙ driver_kept;
      driver_complete = complete;
      driver_speaks = speaks;
      servers_complete = ap (all is_complete) servers_same ∙ servers;
      clients_complete = clients;
      namespace =
          ap (or_namespace d) (namespace_same ∙ namespace_kept)
          ∙ or_namespace_idem d test.namespace
          ∙ sym (namespace_same ∙ namespace_kept);
    }

-- A ready load test is left as it is, whatever names the UUID library would give.
pub set_load_test_defaults-fixed :
    (fresh : ℕ → String) (d : Defaults) (test : LoadTest)
    → IsReady d test
    → set_load_test_defaults fresh d test ≡ (test, none)
unfolding set_load_test_defaults
set_load_test_defaults-fixed fresh d test r =
    ap (λ given. after_driver fresh d test (set_driver_defaults d im (fresh 0) given)) r.has_driver
    ∙ ap (after_driver fresh d test)
        (driver-fixed d im (fresh 0) r.driver r.driver_complete r.driver_speaks)
    ∙ ap (λ t. after_servers fresh d (set_servers d im fresh t none))
        (λ i. record test {
          namespace = r.namespace i;
          spec = record test.spec { driver = sym r.has_driver i };
        })
    ∙ ap (after_servers fresh d) (set_servers-fixed d im fresh test r.servers_complete)
    ∙ set_clients-fixed d im fresh test r.clients_complete
  where
    im : ImageMap
    im = new_image_map d.languages
