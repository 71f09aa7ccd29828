-- ===== src/Commands/Defaults.antt =====
-- What the configure command writes, the controller starts with.
use mathlib.Core.List.{Memᴰ}
use grpc_test_infra.Base.{
  String, true, Option, none, some, List, [], ◌∷◌, Message, Result, ok, err, ◌≡◌, ◌≢◌, refl, ap,
  ◌∙◌, ◌==◌, All, Mem-All, Bool-cases, inl, inr, eq_iff,
}
use grpc_test_infra.Config.Images.{Defaults}
use grpc_test_infra.Config.Defaults.{validate}
use grpc_test_infra.Commands.Configure
use grpc_test_infra.Commands.Configure.{
  DefaultsData, Effect, truncate, write, Ran, configure, check_output, check_parsed, write_unless,
  after_write, generate, create_output, with_template,
}
use grpc_test_infra.Commands.Controller
use grpc_test_infra.Commands.Controller.{
  Served, served, controller_main, with_contents, with_defaults, manage_unless, set_up_unless,
  start_unless,
}

abbrev pub texts_of : List Effect → List String
texts_of [] = []
texts_of (truncate path ∷ effects) = texts_of effects
texts_of (write path text ∷ effects) = text ∷ texts_of effects

-- The text of a defaults file that can be read and passes the validation.
pub record IsValidText (unmarshal : String → Result Defaults) (text : String) : Type 0 where
  pub defaults : Defaults
  pub parsed : unmarshal text ≡ ok defaults
  pub valid : validate defaults ≡ none

module _ {T : Type 0} (host : Configure.Host T) where
  WritesValid : Ran → Type 0
  WritesValid r = All (IsValidText host.unmarshal) (texts_of r.effects)

  after_write-WritesValid :
      (path output : String) (e : Option Message)
      → IsValidText host.unmarshal output
      → WritesValid (after_write host path output e)
  unfolding WritesValid
  after_write-WritesValid path output none h = (h, tt)
  after_write-WritesValid path output (some e) h = (h, tt)

  write_unless-WritesValid :
      (path output : String) (defaults : Defaults) (e : Option Message)
      → host.unmarshal output ≡ ok defaults
      → validate defaults ≡ e
      → WritesValid (write_unless host path output e)
  unfolding WritesValid
  write_unless-WritesValid path output defaults none p v =
      after_write-WritesValid path output (host.write_string path output)
        (record { defaults = defaults; parsed = p; valid = v })
  write_unless-WritesValid path output defaults (some e) p v = tt

  check_parsed-WritesValid :
      (path output : String) (found : Result Defaults)
      → host.unmarshal output ≡ found
      → WritesValid (check_parsed host path output found)
  unfolding WritesValid
  check_parsed-WritesValid path output (err e) p = tt
  check_parsed-WritesValid path output (ok defaults) p =
      write_unless-WritesValid path output defaults (validate defaults) p refl

  generate-WritesValid :
      (path : String) (output : Result String) → WritesValid (generate host true path output)
  unfolding WritesValid check_output
  generate-WritesValid path (err e) = tt
  generate-WritesValid path (ok output) =
      check_parsed-WritesValid path output (host.unmarshal output) refl

  with_template-WritesValid :
      (values : DefaultsData) (path : String) (templ : Result T)
      → WritesValid (with_template host values true path templ)
  unfolding WritesValid
  with_template-WritesValid values path (err e) = tt
  with_template-WritesValid values path (ok templ) = created (host.create path)
    where
      created : (e : Option Message) → WritesValid (create_output host values true templ path e)
      created none = generate-WritesValid path (host.execute templ values)
      created (some e) = tt

  -- With `-validate`, whatever the configure command writes is a text that YAML reads as defaults
  -- which pass the validation.
  pub configure-IsValidText :
      (values : DefaultsData) (args : List String)
      → All (IsValidText host.unmarshal) (texts_of (configure host values true args).effects)
  unfolding configure WritesValid
  configure-IsValidText values [] = tt
  configure-IsValidText values (template_file ∷ []) = tt
  configure-IsValidText values (template_file ∷ output_file ∷ []) =
      with_template-WritesValid values output_file (host.parse_files template_file)
  configure-IsValidText values (template_file ∷ output_file ∷ more ∷ args) = tt

module _ {T : Type 0} (host : Configure.Host T) (server : Controller.Host) where
  -- A text that was written by the configure command with `-validate` makes the controller start: it
  -- serves with defaults that pass the validation, if it can read the file and the manager can be
  -- created and set up.
  pub configure-controller_main :
      (values : DefaultsData) (args : List String) (text defaults_file : String)
      → Memᴰ text (texts_of (configure host values true args).effects)
      → server.unmarshal text ≡ host.unmarshal text
      → defaults_file ≢ ""
      → server.read_file defaults_file ≡ ok text
      → server.new_manager ≡ none
      → ((d : Defaults) → server.set_up d ≡ none)
      → (d : Defaults) × (validate d ≡ none)
        × (controller_main server defaults_file ≡ served d server.start)
  unfolding controller_main
  configure-controller_main values args text defaults_file m same named read manager set_up =
      let h : IsValidText host.unmarshal text =
        Mem-All (IsValidText host.unmarshal) _ (configure-IsValidText host values args) m in
      (
        h.defaults,
        h.valid,
        elim (Bool-cases (defaults_file == "")) [
          | inl empty ↦ absurd (named ((eq_iff defaults_file "").0 empty))
          | inr other ↦ rw other (
              ap (with_contents server) read
              ∙ ap (with_defaults server) (same ∙ h.parsed)
              ∙ ap (manage_unless server h.defaults) h.valid
              ∙ ap (set_up_unless server h.defaults) manager
              ∙ ap (start_unless server h.defaults) (set_up h.defaults))
        ],
      )
