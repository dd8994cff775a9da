-- ===== src/Daemon/Start/Guards.antt =====
-- A daemon starts once.
use rxd.Base.{◌≡◌, refl, ap, Bool, true, false, List, Option, none, some, if◌then◌else◌, if-true}
use rxd.Errors.{GoError, daemon_started, no_services, adding_service_once_started}
use rxd.States.{ServiceStates}
use rxd.Intracom.Registry.{Intracom, Made, topic, refused, create_topic}
use rxd.Daemon.Prestart
use rxd.Daemon.Prestart.{Ending, stops, completes, waits}
use rxd.Daemon.Services.{Service, fails, add_service}
use rxd.Daemon.Start.{
  Daemon, World, Started, refuses, in_services, shut_down, run_services, all_over, after_topic,
  after_prestart, is_empty, start, states_topic,
}

shut_down-same :
    (d : Daemon) (published : List ServiceStates) (o : Option (Option GoError))
    → (shut_down d published o).0.registered ≡ d.registered
unfolding shut_down
shut_down-same d published (some (some e)) = refl
shut_down-same d published (some none) = refl
shut_down-same d published none = refl

run_services-same : (d : Daemon) (w : World) → (run_services d w).0.registered ≡ d.registered
unfolding run_services
run_services-same d w = gate (all_over d.registered.services w.runs) _
  where
    gate :
        (c : Bool) (published : List ServiceStates)
        → (if◌then◌else◌ {A = Daemon × Started} c
            (shut_down d published w.shutdown)
            (d, in_services published)).0.registered
          ≡ d.registered
    gate true published = shut_down-same d published w.shutdown
    gate false published = refl

after_topic-same :
    (d : Daemon) (w : World) (ic : Option (Intracom ServiceStates)) (made : Made)
    → (after_topic d w ic made).0.registered ≡ d.registered
after_topic-same d w ic (refused f) = refl
after_topic-same d w ic (topic i) = run_services-same _ w

after_prestart-same :
    (d : Daemon) (w : World) (e : Ending) → (after_prestart d w e).0.registered ≡ d.registered
unfolding after_prestart
after_prestart-same d w (waits t) = refl
after_prestart-same d w stops =
    let r = create_topic "rxd.ServiceStates" (some d.registry) states_topic in
    after_topic-same d w r.0 r.1
after_prestart-same d w completes =
    let r = create_topic "rxd.ServiceStates" (some d.registry) states_topic in
    after_topic-same d w r.0 r.1

start-started : (d : Daemon) (w : World) → (start d w).0.registered.started ≡ true
unfolding start
start-started d w =
    gate d.registered.started refl (is_empty d.registered.services) _
      (ap (λ r. r.started) (after_prestart-same _ w (Prestart.run d.prestart w.prestart_turns).0))
  where
    gate :
        (b : Bool)
        → d.registered.started ≡ b
        → (c : Bool) (rest : Daemon × Started) → rest.0.registered.started ≡ true
        → (if◌then◌else◌ {A = Daemon × Started} b
            (d, refuses daemon_started)
            (if c
              then (
                record d { registered = record (d.registered) { started = true } },
                refuses no_services,
              )
              else rest)).0.registered.started
          ≡ true
    gate true e c rest h = e
    gate false e true rest h = refl
    gate false e false rest h = h

-- However Start ends or wherever it waits, also when it refuses a daemon without services, a later
-- Start is refused and changes nothing, and no service can be added any more.
pub start_once :
    (d : Daemon) (w later : World) (service : Service)
    → let (d', r) = start d w in
      (start d' later ≡ (d', refuses daemon_started))
      × (add_service d'.registered service ≡ (d'.registered, fails adding_service_once_started))
unfolding start add_service
start_once d w later service =
    let h = start-started d w in
    (if-true (start d w).0.registered.started _ _ h, if-true (start d w).0.registered.started _ _ h)
