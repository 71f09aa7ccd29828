-- ===== src/Commands/Controller.antt =====
-- cmd/controller/main.go: main. The file, the reader of YAML and the manager of the framework are
-- parameters.
use grpc_test_infra.Base.{
  String, Option, none, some, Message, plain, wrap, Result, ok, err, ◌==◌, if◌then◌else◌,
}
use grpc_test_infra.Config.Images.{Defaults}
use grpc_test_infra.Config.Defaults.{validate}

-- `ioutil.ReadFile` and `yaml.Unmarshal`, and the errors of `ctrl.NewManager`, of `SetupWithManager`
-- for a reconciler with the defaults, and of `mgr.Start`.
pub record Host : Type 0 where
  pub read_file : String → Result String
  pub unmarshal : String → Result Defaults
  pub new_manager : Option Message
  pub set_up : Defaults → Option Message
  pub start : Option Message

-- The command exits with code 1 before the manager has started, or it has served the reconciler with
-- its defaults, until the manager stopped with or without an error.
pub data Served : Type 0 where
  exited : Message → Served
  served : Defaults → Option Message → Served

module _ (host : Host) where
  abbrev pub start_unless : Defaults → Option Message → Served
  start_unless defaults (some e) = exited (wrap (plain "unable to create controller") e)
  start_unless defaults none = served defaults host.start

  abbrev pub set_up_unless : Defaults → Option Message → Served
  set_up_unless defaults (some e) = exited (wrap (plain "unable to start manager") e)
  set_up_unless defaults none = start_unless defaults (host.set_up defaults)

  abbrev pub manage_unless : Defaults → Option Message → Served
  manage_unless defaults (some e) =
      exited (wrap (plain "failed to start due to invalid defaults") e)
  manage_unless defaults none = set_up_unless defaults host.new_manager

  abbrev pub with_defaults : Result Defaults → Served
  with_defaults (err e) = exited (wrap (plain "could not parse the defaults file contents") e)
  with_defaults (ok defaults) = manage_unless defaults (validate defaults)

  abbrev pub with_contents : Result String → Served
  with_contents (err e) = exited (wrap (plain "could not read defaults file") e)
  with_contents (ok contents) = with_defaults (host.unmarshal contents)

  unfoldable pub controller_main : String → Served
  unfolding validate
  controller_main defaults_file =
      if defaults_file == ""
      then exited
          (wrap (plain "cannot start without defaults") (plain "missing flag -defaults-file"))
      else with_contents (host.read_file defaults_file)
