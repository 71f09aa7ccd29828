-- ===== src/Commands/Configure.antt =====
-- config/cmd/configure.go: main. The templates, the files and the reader of YAML are parameters.
use grpc_test_infra.Base.{
  ℕ, String, Bool, true, false, Option, none, some, List, [], ◌∷◌, Message, plain, fill_error,
  Result, ok, err,
}
use grpc_test_infra.Config.Images.{Defaults}
use grpc_test_infra.Config.Defaults.{validate}

pub record DefaultsData : Type 0 where
  pub version : String
  pub init_image_prefix : String
  pub image_prefix : String
  pub build_image_prefix : String

-- `template.ParseFiles`, `Template.Execute` into a string builder, `yaml.Unmarshal`, `os.Create` and
-- `File.WriteString`, each with the error that it returns.
pub record Host (T : Type 0) : Type 0 where
  pub parse_files : String → Result T
  pub execute : T → DefaultsData → Result String
  pub unmarshal : String → Result Defaults
  pub create : String → Option Message
  pub write_string : String → String → Option Message

-- What the command does to the output file: it empties it, and it writes a text to it.
pub data Effect : Type 0 where
  truncate : String → Effect
  write : String → String → Effect

-- The effects of a run, and the exit code and message if `exitWithErrorf` ended it.
pub record Ran : Type 0 where
  pub effects : List Effect
  pub failure : Option (ℕ × Message)

abbrev ran : List Effect → Option (ℕ × Message) → Ran
ran effects failure = record { effects = effects; failure = failure }

-- `exitWithErrorf`
abbrev exit_with_error : List Effect → String → Message → Ran
exit_with_error effects format e = ran effects (some (1, fill_error (plain format) e))

module _ {T : Type 0} (host : Host T) where
  abbrev pub after_write : String → String → Option Message → Ran
  after_write path output none = ran (truncate path ∷ write path output ∷ []) none
  after_write path output (some e) =
      exit_with_error (truncate path ∷ write path output ∷ [])
        "could not write config to output file: %v" e

  abbrev pub write_unless : String → String → Option Message → Ran
  write_unless path output none = after_write path output (host.write_string path output)
  write_unless path output (some e) =
      exit_with_error (truncate path ∷ []) "generated config is invalid: %v" e

  abbrev pub check_parsed : String → String → Result Defaults → Ran
  check_parsed path output (err e) =
      exit_with_error (truncate path ∷ []) "generated config is not parsable as YAML: %v" e
  check_parsed path output (ok defs) = write_unless path output (validate defs)

  -- The part of main that has the output.
  unfoldable pub check_output : Bool → String → String → Ran
  unfolding validate
  check_output true path output = check_parsed path output (host.unmarshal output)
  check_output false path output = after_write path output (host.write_string path output)

  abbrev pub generate : Bool → String → Result String → Ran
  generate validated path (err e) =
      exit_with_error (truncate path ∷ []) "could not generate config from template: %v" e
  generate validated path (ok output) = check_output validated path output

  abbrev pub create_output : DefaultsData → Bool → T → String → Option Message → Ran
  create_output values validated templ path (some e) =
      exit_with_error [] "could not create <output-file>: %v" e
  create_output values validated templ path none =
      generate validated path (host.execute templ values)

  abbrev pub with_template : DefaultsData → Bool → String → Result T → Ran
  with_template values validated path (err e) =
      exit_with_error [] "could not open and parse <template-file>: %v" e
  with_template values validated path (ok templ) =
      create_output values validated templ path (host.create path)

  -- main, by its flags and its arguments.
  unfoldable pub configure : DefaultsData → Bool → List String → Ran
  unfolding check_output
  configure values validated (template_file ∷ output_file ∷ []) =
      with_template values validated output_file (host.parse_files template_file)
  configure values validated _ = ran [] (some (1, plain "missing required arguments"))
