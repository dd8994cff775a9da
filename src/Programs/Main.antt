-- ===== src/Programs/Main.antt =====
-- The main functions of examples/single_service, single_service_custom_manager, run_until_success,
-- multi_service and multi_service_rpc. Their loggers' own lines are left out.
pub mod Exits
use rxd.Base.{ℕ, ◌*◌, String, Bool, true, false, Option, none, some, List, [], ◌∷◌}
use rxd.Errors.{GoError}
use rxd.Log.Level.{info}
use rxd.Log.Handler.{new_handler, with_writers, os_stdout, os_stderr}
use rxd.Log.Logger.{Address, Store, new_logger}
use rxd.Daemon.Services.{
  ManagerValue, Service, Registered, Added, adds, fails, add_panics, other_value, add_service,
  add_services,
}
use rxd.Daemon.Options.{
  Sink, streams, Configured, DaemonOption, with_signals, with_prestart, with_service_logger,
  with_rpc, sigint, sigterm, Files, new_daemon,
}
use rxd.Daemon.Start.{
  Daemon, World, Started, refuses, no_topic, in_prestart, in_services, ends, start,
}

-- A call of AddService or of AddServices.
pub data Registration : Type 0 where
  one : Service → Registration
  many : List Service → Registration

unfoldable pub register : Registration → Registered → Registered × Added
register (one service) d = add_service d service
register (many services) d = add_services d services

pub record Program : Type 0 where
  pub name : String
  pub options : List DaemonOption
  pub registration : Registration

-- The process's exit status. A panic that nothing recovers ends it with 2.
pub data Exit : Type 0 where
  exits : ℕ → Exit
  runs_on : Exit

abbrev pub after_start : Daemon × Started → Exit
after_start (d, refuses e) = exits 1
after_start (d, no_topic e) = exits 1
after_start (d, in_prestart) = runs_on
after_start (d, in_services published) = runs_on
after_start (d, ends published) = exits 0

abbrev pub after_register : Daemon → World → Registered × Added → Exit
after_register d w (r, adds) = after_start (start (record d { registered = r }) w)
after_register d w (r, fails e) = exits 1
after_register d w (r, add_panics) = exits 2

-- What the five mains do once their values are made.
unfoldable pub run_program : ManagerValue → Files → Program → World → Store Sink → Exit
unfolding register
run_program default files p w st =
    let d = (new_daemon p.name default files p.options st).0.daemon in
    after_register d w (register p.registration d.registered)

abbrev pub second : ℕ
second = 1000000000

-- A manager that is a struct value and no pointer.
abbrev struct_manager : ℕ → String → ManagerValue
struct_manager identity type_name = record {
  identity = identity;
  is_nil_pointer = false;
  type_name = type_name;
  receiver = other_value;
}

-- A service with its runner, by a number, and the manager that NewService or an option gives it.
abbrev managed : String → ℕ → ManagerValue → Service
managed name runner manager = record { name = name; runner = runner; manager = some manager }

abbrev bare : String → ℕ → Service
bare name runner = record { name = name; runner = runner; manager = none }

abbrev single_service_options : Address → List DaemonOption
single_service_options logger =
    with_signals (sigint ∷ sigint ∷ sigterm ∷ [])
    ∷ with_prestart true (10 * second) ("timer-ready" ∷ [])
    ∷ with_service_logger (some logger)
    ∷ []

abbrev single_service_of : Address × Store Sink → Program × Store Sink
single_service_of (logger, st) = (
  record {
    name = "single-service";
    options = single_service_options logger;
    registration = one (managed "helloworld-api" 0 (struct_manager 0 "rxd.RunContinuousManager"));
  },
  st,
)

unfoldable pub single_service : Store Sink → Program × Store Sink
single_service st = single_service_of (new_logger info (streams (new_handler [])) st)

-- The loggers of the other mains are used for their own lines alone, and left out.
abbrev pub custom_manager : Program
custom_manager = record {
  name = "single-service";
  options = with_signals (sigint ∷ sigint ∷ sigterm ∷ []) ∷ [];
  registration = one (managed "helloworld-api" 0 (struct_manager 0 "main.CustomManager"));
}

abbrev pub run_until_success : Program
run_until_success = record {
  name = "single-service";
  options = with_signals (sigint ∷ sigint ∷ sigterm ∷ []) ∷ [];
  registration = one (managed "startup-job" 0 (struct_manager 0 "rxd.RunUntilSuccessManager"));
}

abbrev both_services : List Service
both_services = bare "HelloWorldAPI" 0 ∷ bare "PollService" 1 ∷ []

abbrev pub multi_service : Program
multi_service = record {
  name = "multi-service-daemon";
  options = [];
  registration = many both_services;
}

abbrev pub multi_service_rpc : Program
multi_service_rpc = record {
  name = "multi-service-daemon";
  options = with_rpc (record { addr = "localhost"; port = 1337 }) ∷ [];
  registration = many both_services;
}
