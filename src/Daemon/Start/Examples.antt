-- ===== src/Daemon/Start/Examples.antt =====
-- A daemon with two services under RunContinuousManager.
use rxd.Base.{
  ◌≡◌, refl, true, false, String, List, [], ◌∷◌, Dict, lookup, map, none, some, IsMap, Entries,
  last_or, if◌then◌else◌, str_eq,
}
use rxd.Errors.{plain, daemon_started, adding_service_once_started}
use rxd.States.{ServiceStates, exit, internal_service_states}
use rxd.Manager.{succeeds, panics, fails, Turn, done, fires, Trace}
use rxd.Manager.Continuous
use rxd.Manager.Continuous.{RunContinuousManager}
use rxd.Manager.Continuous.Announced.{continuous-Told}
use rxd.Intracom.Registry.{new_intracom}
use rxd.Daemon.Prestart
use rxd.Daemon.Prestart.{completes}
use rxd.Daemon.Services.{struct_value, ManagerValue, DaemonService, add_service}
use rxd.Daemon.Services.{fails as refuses_service}
use rxd.Daemon.Watcher.Latest.{at_start}
use rxd.Daemon.Start.{Daemon, World, ends, refuses, start}
use rxd.Daemon.Start.Updates.{entering}
use rxd.Daemon.Start.Launch.{IsLaunched}
use rxd.Daemon.Start.Exits.{start_exits}
use rxd.Daemon.Start.Guards.{start_once}

abbrev continuous : RunContinuousManager
continuous = record { default_delay = 10; startup_delay = 10; state_timeouts = [] }

-- The service "b" panics in its Idle.
abbrev turns : String → List Turn
turns k =
    if str_eq k "b"
    then fires succeeds ∷ fires (panics "nil map") ∷ []
    else fires succeeds ∷ fires succeeds ∷ fires (fails (plain "lost")) ∷ done ∷ []

abbrev runs : String → Trace
runs k = Continuous.manage continuous k (turns k) succeeds

abbrev manager : ManagerValue
manager = record {
  identity = 1;
  is_nil_pointer = false;
  type_name = "rxd.RunContinuousManager";
  receiver = struct_value;
}

abbrev services : Dict DaemonService
services = ("a", record { name = "a"; runner = 1 }) ∷ ("b", record { name = "b"; runner = 2 }) ∷ []

abbrev managers : Dict ManagerValue
managers = ("a", manager) ∷ ("b", manager) ∷ []

abbrev a_daemon : Daemon
a_daemon = record {
  registered = record {
    started = false;
    services = services;
    managers = managers;
    default = manager;
  };
  prestart = record { restart_on_error = true; restart_delay = 0; stages = [] };
  registry = new_intracom "rxd-intracom";
}

abbrev a_world : World
a_world = record {
  prestart_turns = [];
  runs = runs;
  schedule = "b" ∷ "a" ∷ "b" ∷ [];
  shutdown = none;
}

launched : Entries (IsLaunched managers runs) services
unfolding lookup Continuous.manage Continuous.loop Continuous.run_state Continuous.proceed
    Continuous.finish
launched = (
  record {
    named = refl;
    managed = refl;
    ended = continuous-Told continuous "a" (turns "a") succeeds;
  },
  (
    record {
      named = refl;
      managed = refl;
      ended = continuous-Told continuous "b" (turns "b") succeeds;
    },
    tt,
  ),
)

once : IsMap services
unfolding lookup
once = (refl, (refl, tt))

found : lookup "b" services ≡ some (record { name = "b"; runner = 2 })
unfolding lookup
found = refl

no_topic_yet : lookup internal_service_states a_daemon.registry.topics ≡ none
unfolding new_intracom lookup
no_topic_yet = refl

start_exits_example :
    (d' : Daemon) × (published : List ServiceStates) × (start a_daemon a_world
      ≡ (d', ends published))
    × (last_or (at_start "b" ("a" ∷ "b" ∷ []) none) (map (lookup "b") published)
        ≡ some (entering exit))
    × (d'.registry.closed ≡ true)
start_exits_example =
    start_exits a_daemon a_world "b" (record { name = "b"; runner = 2 }) refl once launched
      (unfold Prestart.run in refl) (unfold new_intracom in refl) no_topic_yet tt found

start_once_example :
    let (d', r) = start a_daemon a_world in
    (start d' a_world ≡ (d', refuses daemon_started))
    × (add_service d'.registered (record { name = "c"; runner = 3; manager = none })
        ≡ (d'.registered, refuses_service adding_service_once_started))
start_once_example =
    start_once a_daemon a_world a_world (record { name = "c"; runner = 3; manager = none })
