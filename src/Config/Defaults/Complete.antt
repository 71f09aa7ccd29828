-- ===== src/Config/Defaults/Complete.antt =====
-- When setting the defaults succeeds, and what it then leaves.
use grpc_test_infra.Base.{
  ℕ, suc, String, Bool, true, false, ◌&&◌, Option, none, some, List, [], ◌∷◌, Message, ◌≡◌, refl,
  if◌then◌else◌, is_some, all, arith,
}
use grpc_test_infra.Base.Dict.{has}
use grpc_test_infra.Api.{Clone, Build, Component}
use grpc_test_infra.Config.Images.{Defaults, ImageMap, build_image, run_image}
use grpc_test_infra.Config.Defaults.{
  name_and_clone, set_images, set_client_defaults, set_server_defaults, set_each,
}

abbrev pub clone_is_complete : Option Clone → Bool
clone_is_complete none = true
clone_is_complete (some clone) = is_some clone.image

abbrev pub build_is_complete : Option Build → Bool
build_is_complete none = true
build_is_complete (some build) = is_some build.image

-- A component with a name and an image for each of its containers.
abbrev pub is_complete : Component → Bool
is_complete c =
    is_some c.name && clone_is_complete c.clone && build_is_complete c.build && is_some c.run.image

abbrev pub needs_no_build_image : Option Build → Bool
needs_no_build_image none = true
needs_no_build_image (some build) = is_some build.image

-- Each image that has to be inferred has a default for the language.
abbrev pub is_supported : ImageMap → String → Option Build → Option String → Bool
is_supported im language build image =
    if needs_no_build_image build && is_some image then true else has language im

abbrev pub is_ok : Option Message → Bool
is_ok none = true
is_ok (some e) = false

pub none_of_is_ok : (failed : Option Message) → is_ok failed ≡ true → failed ≡ none
none_of_is_ok none h = refl
none_of_is_ok (some e) h = cc

module _ (im : ImageMap) (build_context run_context : String) where
  pub set_images-ok :
      (c : Component)
      → is_ok (set_images im build_context run_context c).1
        ≡ is_supported im c.language c.build c.run.image
  unfolding set_images build_image run_image has
  set_images-ok c = ground arith

  pub language-set_images :
      (c : Component) → (set_images im build_context run_context c).0.language ≡ c.language
  unfolding set_images
  language-set_images c = ground arith

  pub set_images_complete :
      (c : Component)
      → is_some c.name ≡ true
      → clone_is_complete c.clone ≡ true
      → (set_images im build_context run_context c).1 ≡ none
      → is_complete (set_images im build_context run_context c).0 ≡ true
  unfolding set_images
  set_images_complete c named cloned h = ground arith

  pub set_images-fixed :
      (c : Component) → is_complete c ≡ true → set_images im build_context run_context c ≡ (c, none)
  unfolding set_images
  set_images-fixed c h = ground arith

-- What the three setters do to one component.
pub record Sets (im : ImageMap) (set : Component → Component × Option Message) : Type 0 where
  pub succeeds : (c : Component) → is_ok (set c).1 ≡ is_supported im c.language c.build c.run.image
  pub completes : (c : Component) → (set c).1 ≡ none → is_complete (set c).0 ≡ true
  pub fixes : (c : Component) → is_complete c ≡ true → set c ≡ (c, none)

module _ (d : Defaults) (uuid : String) (c : Component) where
  pub name_and_clone_complete :
      (is_some (name_and_clone d uuid c).name ≡ true)
      × (clone_is_complete (name_and_clone d uuid c).clone ≡ true)
  unfolding name_and_clone
  name_and_clone_complete = ground arith

  pub name_and_clone-fixed : is_complete c ≡ true → name_and_clone d uuid c ≡ c
  unfolding name_and_clone
  name_and_clone-fixed h = ground arith

worker-Sets :
    (d : Defaults) (im : ImageMap) (uuid build_context run_context : String)
    → Sets im (λ c. set_images im build_context run_context (name_and_clone d uuid c))
worker-Sets d im uuid build_context run_context = record {
  succeeds = λ c.
      unfold name_and_clone in set_images-ok im build_context run_context (name_and_clone d uuid c);
  completes = λ c h.
      let (named, cloned) = name_and_clone_complete d uuid c in
      set_images_complete im build_context run_context (name_and_clone d uuid c) named cloned h;
  fixes = λ c h.
      rw (name_and_clone-fixed d uuid c h) (set_images-fixed im build_context run_context c h);
}

pub client-Sets :
    (d : Defaults) (im : ImageMap) (uuid : String) → Sets im (set_client_defaults d im uuid)
unfolding set_client_defaults
client-Sets d im uuid = worker-Sets d im uuid _ _

pub server-Sets :
    (d : Defaults) (im : ImageMap) (uuid : String) → Sets im (set_server_defaults d im uuid)
unfolding set_server_defaults
server-Sets d im uuid = worker-Sets d im uuid _ _

abbrev pub all_supported : ImageMap → List Component → Bool
all_supported im cs = all (λ c. is_supported im c.language c.build c.run.image) cs

module _ (im : ImageMap) (set : ℕ → Component → Component × Option Message)
    (sets : (i : ℕ) → Sets im (set i)) (context : String) where
  pub set_each-ok :
      (i : ℕ) (cs : List Component) → is_ok (set_each set context i cs).1 ≡ all_supported im cs
  unfolding set_each
  set_each-ok i [] = refl
  set_each-ok i (c ∷ cs) = ground (arith, (sets i).succeeds c, set_each-ok (suc i) cs)

  pub set_each_complete :
      (i : ℕ) (cs : List Component)
      → (set_each set context i cs).1 ≡ none
      → all is_complete (set_each set context i cs).0 ≡ true
  unfolding set_each
  set_each_complete i [] h = refl
  set_each_complete i (c ∷ cs) h =
      ground (arith, (sets i).completes c, set_each_complete (suc i) cs)

  pub set_each-fixed :
      (i : ℕ) (cs : List Component)
      → all is_complete cs ≡ true
      → set_each set context i cs ≡ (cs, none)
  unfolding set_each
  set_each-fixed i [] h = refl
  set_each-fixed i (c ∷ cs) h = ground (arith, (sets i).fixes c, set_each-fixed (suc i) cs)
