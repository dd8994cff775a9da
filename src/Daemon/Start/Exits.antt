-- ===== src/Daemon/Start/Exits.antt =====
-- What the services' states are when Start returns.
use rxd.Base.{
  ◌≡◌, refl, ap, ◌∙◌, true, false, String, List, [], ◌∷◌, Dict, lookup, keys, map, Option, none,
  some, if◌then◌else◌, IsMap, Entries, Entries-lookup, str_eq, if-true, if-false, last_or,
}
use rxd.Errors.{GoError}
use rxd.States.{StateUpdate, ServiceStates, ServiceStateUpdate, exit, internal_service_states}
use rxd.Manager.{Trace}
use rxd.Intracom.Failures.{Failure}
use rxd.Intracom.Registry.{Intracom, Made, close_intracom}
use rxd.Intracom.Registry.Creation.{create_new, with_topic}
use rxd.Daemon.Prestart
use rxd.Daemon.Prestart.{completes}
use rxd.Daemon.Services.{DaemonService, ManagerValue}
use rxd.Daemon.Watcher.{states_watcher}
use rxd.Daemon.Watcher.Latest.{history, at_start, map-states_watcher}
use rxd.Daemon.Start.{
  Daemon, World, launch, interleave, all_over, ends, shut_down, run_services, after_topic,
  after_prestart, is_empty, start, registry_or, states_topic,
}
use rxd.Daemon.Start.Updates.{final, final_of, final-interleave, entering}
use rxd.Daemon.Start.Launch.{
  IsLaunched, launched_updates, lookup-launch, launch-IsMap, launch-AreNamed, launched_over,
  final-service_updates,
}

last-history :
    (k : String) (us : List ServiceStateUpdate) (o : Option StateUpdate)
    → last_or o (history k o us) ≡ final k o us
last-history k [] o = refl
last-history k (u ∷ us) o =
    last-history k us
      (if str_eq u.name k then some (record { state = u.state; transition = u.transition }) else o)

-- The state of the service once its updates have been published.
published_last :
    (managers : Dict ManagerValue) (runs : String → Trace) (services : Dict DaemonService)
    (schedule names : List String) (k : String) (s : DaemonService)
    → IsMap services
    → Entries (IsLaunched managers runs) services
    → lookup k services ≡ some s
    → last_or (at_start k names none) (
        map (lookup k) (states_watcher names (interleave schedule (launch services managers runs))))
      ≡ some (entering exit)
unfolding launched_updates
published_last managers runs services schedule names k s v h e =
    let m = launch services managers runs in
    let o = at_start k names none in
    ap (last_or o) (map-states_watcher k names (interleave schedule m))
    ∙ last-history k (interleave schedule m) o
    ∙ final-interleave k o schedule m (launch-IsMap managers runs services h v)
        (launch-AreNamed managers runs services h)
    ∙ ap (final_of k o)
        (lookup-launch managers runs k services h ∙ ap (launched_updates managers runs k) e)
    ∙ final-service_updates k (runs k) o
        (Entries-lookup (IsLaunched managers runs) k s services h e).ended

nonempty :
    (k : String) (s : DaemonService) (services : Dict DaemonService)
    → lookup k services ≡ some s
    → is_empty services ≡ false
unfolding lookup
nonempty k s [] e = let x : none ≡ some s = e in cc
nonempty k s (x ∷ services) e = refl

-- There is no RPC server, or its shutdown does not fail.
abbrev pub ShutsWell : Option (Option GoError) → Type 0
ShutsWell none = Unit
ShutsWell (some none) = Unit
ShutsWell (some (some e)) = ⊥

shut_down-ends :
    (d : Daemon) (published : List ServiceStates) (o : Option (Option GoError))
    → ShutsWell o
    → shut_down d published o ≡ (
      record d { registry = registry_or d.registry (close_intracom (some d.registry)).0 },
      ends published,
    )
unfolding shut_down
shut_down-ends d published none h = refl
shut_down-ends d published (some none) h = refl
shut_down-ends d published (some (some e)) h = absurd h

-- Start on a daemon that has not started and has services, each with a manager: if its pipeline
-- completes, its registry is open with no topic of states, each service's run tells the watcher the
-- truth and is over by returning or by a panic, and no RPC server's shutdown fails, then Start returns nil,
-- whatever the order in which the services' updates come. The last map published has every service
-- entering Exit, and the registry is closed.
pub start_exits :
    (d : Daemon) (w : World) (k : String) (s : DaemonService)
    → d.registered.started ≡ false
    → IsMap d.registered.services
    → Entries (IsLaunched d.registered.managers w.runs) d.registered.services
    → (Prestart.run d.prestart w.prestart_turns).0 ≡ completes
    → d.registry.closed ≡ false
    → lookup internal_service_states d.registry.topics ≡ none
    → ShutsWell w.shutdown
    → lookup k d.registered.services ≡ some s
    → (d' : Daemon) × (published : List ServiceStates) × (start d w ≡ (d', ends published))
      × (last_or (at_start k (keys d.registered.services) none) (map (lookup k) published)
          ≡ some (entering exit))
      × (d'.registry.closed ≡ true)
unfolding start after_prestart run_services shut_down close_intracom
start_exits d w k s fresh once launched done is_open no_topic no_rpc e =
    let services = d.registered.services in
    let managers = d.registered.managers in
    let d1 = record d { registered = record (d.registered) { started = true } } in
    let d2 = record d1 { registry = with_topic "rxd.ServiceStates" d.registry states_topic } in
    let published =
      states_watcher (keys services) (interleave w.schedule (launch services managers w.runs)) in
    let created = create_new "rxd.ServiceStates" d.registry states_topic is_open no_topic in
    let d3 = record d2 {
      registry = registry_or d2.registry (close_intracom (some d2.registry)).0;
    } in
    (
      d3,
      published,
      if-false d.registered.started _ _ fresh
          ∙ if-false (is_empty services) _ _ (nonempty k s services e)
          ∙ ap (after_prestart d1 w) done
          ∙ ap {A = Option (Intracom ServiceStates) × Made} (λ p. after_topic d1 w p.0 p.1) created
          ∙ if-true (all_over services w.runs) _ _ (launched_over managers w.runs services launched)
          ∙ shut_down-ends d2 published w.shutdown no_rpc,
      published_last managers w.runs services w.schedule (keys services) k s once launched e,
      ap {A = Option (Intracom ServiceStates) × Option Failure}
          (λ p. (registry_or d2.registry p.0).closed) (if-false d.registry.closed _ _ is_open),
    )
