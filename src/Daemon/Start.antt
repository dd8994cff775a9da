-- ===== src/Daemon/Start.antt =====
-- daemon.go: Start, from its guards to the shutdown, as a function of what its goroutines do.
pub mod Updates
pub mod Launch
pub mod Exits
pub mod Guards
mod Examples
use rxd.Base.{
  ℕ, ◌≡◌, Bool, true, false, ◌&&◌, String, List, [], ◌∷◌, ◌++◌, Dict, lookup, insert, keys, Option,
  none, some, if◌then◌else◌,
}
use rxd.Errors.{GoError, daemon_started, no_services}
use rxd.States.{State, StateTransition, ServiceStates, ServiceStateUpdate, internal_service_states}
use rxd.Manager.{
  Effect, sends, calls, logs, arms, Status, returned, waiting, panicked, recovered, Trace,
}
use rxd.Intracom.Failures.{Failure}
use rxd.Intracom.Registry.{Intracom, Made, topic, refused, create_topic, close_intracom}
use rxd.Intracom.Topic.{TopicConfig}
use rxd.Daemon.Prestart
use rxd.Daemon.Prestart.{Pipeline, Ending, stops, completes, waits}
use rxd.Daemon.Services.{DaemonService, ManagerValue, Registered}
use rxd.Daemon.Watcher.{states_watcher}

pub record Daemon : Type 0 where
  pub registered : Registered
  pub prestart : Pipeline
  pub registry : Intracom ServiceStates

-- What happens while Start runs: the turns of the pipeline, the run of each service's manager, the
-- order in which the services' updates come, by their names, and how the shutdown of the RPC
-- server ends, if there is one.
pub record World : Type 0 where
  pub prestart_turns : List Prestart.Turn
  pub runs : String → Trace
  pub schedule : List String
  pub shutdown : Option (Option GoError)

abbrev pub sent : List Effect → List ServiceStateUpdate
sent [] = []
sent (sends u ∷ es) = u ∷ sent es
sent (calls s ∷ es) = sent es
sent (logs l m ∷ es) = sent es
sent (arms d ∷ es) = sent es

-- The deferred function of a service's goroutine: the update that a panic leaves.
abbrev pub recovery : String → Status → List ServiceStateUpdate
recovery name (panicked v) =
    record { name = name; state = State.exit; transition = StateTransition.entering } ∷ []
recovery name returned = []
recovery name waiting = []
recovery name (recovered v) = []

-- The updates of a service's goroutine.
unfoldable pub service_updates : String → Trace → List ServiceStateUpdate
service_updates name t = sent t.effects ++ recovery name t.status

abbrev launch_one :
    String
    → Option ManagerValue
    → Trace
    → Dict (List ServiceStateUpdate)
    → Dict (List ServiceStateUpdate)
launch_one name none t rest = rest
launch_one name (some m) t rest = (name, service_updates name t) ∷ rest

-- The loop that launches the services: one without a manager is skipped.
unfoldable pub launch :
    Dict DaemonService → Dict ManagerValue → (String → Trace) → Dict (List ServiceStateUpdate)
launch [] managers runs = []
launch ((k, s) ∷ services) managers runs =
    launch_one s.name (lookup s.name managers) (runs s.name) (launch services managers runs)

abbrev pub concat : Dict (List ServiceStateUpdate) → List ServiceStateUpdate
concat [] = []
concat ((k, us) ∷ m) = us ++ concat m

-- One service's next update goes out, if it has one.
abbrev next_of :
    Option (List ServiceStateUpdate)
    → (ServiceStateUpdate → List ServiceStateUpdate → List ServiceStateUpdate)
    → List ServiceStateUpdate
    → List ServiceStateUpdate
next_of none goes skips = skips
next_of (some []) goes skips = skips
next_of (some (u ∷ us)) goes skips = goes u us

-- The updates of all services on one channel, in the order of the schedule, and then the rest.
unfoldable pub interleave : List String → Dict (List ServiceStateUpdate) → List ServiceStateUpdate
interleave [] m = concat m
interleave (name ∷ schedule) m =
    next_of (lookup name m) (λ u us. u ∷ interleave schedule (insert name us m))
      (interleave schedule m)

-- Whether every service launched has ended, so that the wait group is done.
abbrev is_over : Status → Bool
is_over waiting = false
is_over returned = true
is_over (panicked v) = true
is_over (recovered v) = true

unfoldable pub all_over : Dict DaemonService → (String → Trace) → Bool
all_over [] runs = true
all_over ((k, s) ∷ services) runs = is_over (runs s.name).status && all_over services runs

-- Where Start is: it has returned an error, or nil with the maps that were published, or it waits
-- for the pipeline or for the services.
pub data Started : Type 0 where
  refuses : GoError → Started
  no_topic : Failure → Started
  in_prestart : Started
  in_services ends : List ServiceStates → Started

abbrev pub registry_or :
    Intracom ServiceStates → Option (Intracom ServiceStates) → Intracom ServiceStates
registry_or ic none = ic
registry_or ic (some ic') = ic'

-- The shutdown, once every service has ended: an error of the RPC server's shutdown is returned
-- before the registry is closed.
unfoldable pub shut_down : Daemon → List ServiceStates → Option (Option GoError) → Daemon × Started
unfolding close_intracom
shut_down d published (some (some e)) = (d, refuses e)
shut_down d published _ = (
  record d { registry = registry_or d.registry (close_intracom (some d.registry)).0 },
  ends published,
)

unfoldable pub run_services : Daemon → World → Daemon × Started
unfolding launch interleave all_over shut_down
run_services d w =
    let r = d.registered in
    let published =
      states_watcher (keys r.services)
        (interleave w.schedule (launch r.services r.managers w.runs)) in
    if all_over r.services w.runs
    then shut_down d published w.shutdown
    else (d, in_services published)

abbrev after_topic : Daemon → World → Option (Intracom ServiceStates) → Made → Daemon × Started
after_topic d w ic (refused f) = (record d { registry = registry_or d.registry ic }, no_topic f)
after_topic d w ic (topic i) = run_services (record d { registry = registry_or d.registry ic }) w

-- The configuration of the topic of service states.
abbrev pub states_topic : TopicConfig
states_topic = record {
  name = internal_service_states;
  err_if_exists = true;
  subscriber_aware = false;
}

unfoldable pub after_prestart : Daemon → World → Ending → Daemon × Started
unfolding run_services
after_prestart d w (waits t) = (d, in_prestart)
after_prestart d w _ =
    let (ic, made) = create_topic "rxd.ServiceStates" (some d.registry) states_topic in
    after_topic d w ic made

abbrev is_empty : Dict DaemonService → Bool
is_empty [] = true
is_empty (s ∷ ss) = false

-- started.Swap comes before the test for services.
unfoldable pub start : Daemon → World → Daemon × Started
unfolding after_prestart
start d w =
    let d' = record d { registered = record (d.registered) { started = true } } in
    let rest = after_prestart d' w (Prestart.run d.prestart w.prestart_turns).0 in
    if d.registered.started
    then (d, refuses daemon_started)
    else if is_empty d.registered.services
    then (d', refuses no_services)
    else rest
