-- ===== src/Programs/Main/Exits.antt =====
-- The exit status of the examples' programs.
use text.Mathlib.TextPositions.{eq_refl}
use rxd.Base.{
  ◌≡◌, refl, ap, sym, ◌∙◌, subst, String, true, false, Option, none, some, List, [], ◌∷◌, Dict,
  lookup, IsMap, Entries, All, str_eq, eq_iff, is_some, arith, Option-cases, Bool-cases, inl, inr,
  if-true, if-false, insert-IsMap, lookup-insert,
}
use rxd.States.{internal_service_states}
use rxd.Intracom.Registry.{new_intracom}
use rxd.Log.Logger.{Store}
use rxd.Log.Logger.Sound.{IsStore}
use rxd.Daemon.Prestart
use rxd.Daemon.Prestart.{completes}
use rxd.Daemon.Services.{ManagerValue, Service, DaemonService, Registered, Added, adds}
use rxd.Daemon.Services.Adding.{
  IsAddable, IsPaired, added, added_all, added-IsPaired, add_service-IsAddable, add_services-All,
}
use rxd.Daemon.Options.{Sink, Files, new_daemon}
use rxd.Daemon.Options.Ready.{Given, new_daemon-IsReady, unstarted}
use rxd.Daemon.Start.{Daemon, World, start}
use rxd.Daemon.Start.Launch.{IsLaunched, IsEnded}
use rxd.Daemon.Start.Exits.{ShutsWell, start_exits}
use rxd.Programs.Main.{
  Registration, one, many, register, Program, exits, run_program, after_start, after_register,
}

-- What holds of each key and its value holds of all entries.
Entries-of_lookup {ℓ κ} :
    {V : Type ℓ} (P : String → V → Type κ) (m : Dict V)
    → IsMap m
    → ((k : String) (v : V) → lookup k m ≡ some v → P k v)
    → Entries P m
unfolding lookup
Entries-of_lookup P [] h f = tt
Entries-of_lookup P ((j, w) ∷ m) h f = (
  f j w (if-true (str_eq j j) _ _ (eq_refl j)),
  Entries-of_lookup P m h.1 (λ k v e. f k v (elim (Bool-cases (str_eq j k)) [
    | inl y ↦
        let x : none ≡ some v = sym h.0 ∙ ap (λ i. lookup i m) ((eq_iff j k).0 y) ∙ e in cc (x)
    | inr y ↦ if-false (str_eq j k) _ _ y ∙ e
  ])),
)

abbrev pub services_of : Registration → List Service
services_of (one service) = service ∷ []
services_of (many services) = services

-- A service of the program is over in this world.
abbrev pub Over : World → Registered → Type 0
Over w d =
    (k : String) (s : DaemonService)
    → lookup k d.services ≡ some s
    → (s.name ≡ k) × IsEnded k (w.runs k) (w.runs k).status

some_name : (s t : DaemonService) → some s ≡ some t → t.name ≡ s.name
some_name s t e = sym (ap (λ o. name_of o s.name) e)
  where
    name_of : Option DaemonService → String → String
    name_of none d = d
    name_of (some v) d = v.name

-- What holds of the daemon before each addition.
record Held (w : World) (d : Registered) : Type 0 where
  once : IsMap d.services
  paired : IsPaired d
  over : Over w d

added-Held :
    (w : World) (d : Registered) (service : Service)
    → IsEnded service.name (w.runs service.name) (w.runs service.name).status
    → Held w d
    → Held w (added d service)
added-Held w d service e h =
    let s : DaemonService = record { name = service.name; runner = service.runner } in
    record {
      once = insert-IsMap service.name s d.services h.once;
      paired = added-IsPaired d service h.paired;
      over = λ k t found.
          let here = sym (lookup-insert service.name k s d.services) ∙ found in
          elim (Bool-cases (str_eq service.name k)) [
            | inl y ↦
                let same : some s ≡ some t = sym (if-true (str_eq service.name k) _ _ y) ∙ here in
                let name : service.name ≡ k = (eq_iff service.name k).0 y in
                (
                  some_name s t same ∙ name,
                  subst (λ i. IsEnded i (w.runs i) (w.runs i).status) name e,
                )
            | inr y ↦ h.over k t (sym (if-false (str_eq service.name k) _ _ y) ∙ here)
          ];
    }

added_all-Held :
    (w : World) (d : Registered) (services : List Service)
    → All (λ v. IsEnded v.name (w.runs v.name) (w.runs v.name).status) services
    → Held w d
    → Held w (added_all d services)
added_all-Held w d [] e h = h
added_all-Held w d (service ∷ services) e h =
    added_all-Held w (added d service) services e.1 (added-Held w d service e.0 h)

-- A service once added stays.
stays :
    (d : Registered) (services : List Service) (k : String)
    → is_some (lookup k d.services) ≡ true
    → is_some (lookup k (added_all d services).services) ≡ true
stays d [] k h = h
stays d (service ∷ services) k h =
    let s : DaemonService = record { name = service.name; runner = service.runner } in
    stays (added d service) services k
      (ground (arith, h, lookup-insert service.name k s d.services))

present :
    (d : Registered) (service : Service) (services : List Service)
    → is_some (lookup service.name (added_all d (service ∷ services)).services) ≡ true
present d service services =
    let s : DaemonService = record { name = service.name; runner = service.runner } in
    stays (added d service) services service.name (
      ap is_some (
        lookup-insert service.name service.name s d.services
        ∙ if-true (str_eq service.name service.name) _ _ (eq_refl service.name)))

register-added :
    (d : Registered) (r : Registration)
    → d.started ≡ false
    → All (IsAddable d.default) (services_of r)
    → register r d ≡ (added_all d (services_of r), adds)
unfolding register
register-added d (one service) h v = add_service-IsAddable d service h v.0
register-added d (many services) h v =
    let a = add_services-All d services "" h v in λ i. (a.2 i, a.0 i)

added_all-started :
    (d : Registered) (services : List Service) → (added_all d services).started ≡ d.started
added_all-started d [] = refl
added_all-started d (service ∷ services) = added_all-started (added d service) services

-- Start on a daemon to which these services were added returns nil.
start-added :
    (default : ManagerValue) (d : Daemon) (w : World) (first : Service) (rest : List Service)
    → d.registered ≡ added_all (unstarted default) (first ∷ rest)
    → d.registry ≡ new_intracom "rxd-intracom"
    → All (λ v. IsEnded v.name (w.runs v.name) (w.runs v.name).status) (first ∷ rest)
    → (Prestart.run d.prestart w.prestart_turns).0 ≡ completes
    → ShutsWell w.shutdown
    → after_start (start d w) ≡ exits 0
unfolding new_intracom lookup
start-added default d w first rest same fresh over done no_rpc =
    let services = first ∷ rest in
    let held : Held w d.registered = subst (Held w) (sym same) (
      added_all-Held w (unstarted default) services over (record {
        once = tt;
        paired = record { paired = λ k. refl };
        over = λ k s e. let x : none ≡ some s = e in cc (x);
      })) in
    let launched =
      Entries-of_lookup (IsLaunched d.registered.managers w.runs) d.registered.services held.once
        (λ k s e. record {
          named = (held.over k s e).0;
          managed = sym (held.paired.paired k) ∙ ap is_some e;
          ended = (held.over k s e).1;
        }) in
    let there : is_some (lookup first.name d.registered.services) ≡ true =
      ap (λ r. is_some (lookup first.name r.services)) same
      ∙ present (unstarted default) first rest in
    elim (Option-cases (lookup first.name d.registered.services)) [
      | inl e ↦ let x : false ≡ true = sym (ap is_some e) ∙ there in cc (x)
      | inr (s, e) ↦
          let r =
            start_exits d w first.name s
              (ap (λ r. r.started) same ∙ added_all-started (unstarted default) services) held.once
              launched done (ap (λ ic. ic.closed) fresh)
              (ap (λ ic. lookup internal_service_states ic.topics) fresh) no_rpc e in
          ap after_start r.2
    ]

-- A program whose services can be added, at least one, exits with status 0, whatever its options
-- and the order of the services' updates, if the loggers among the options are in use, its
-- pipeline completes, every service's manager tells the watcher the truth, as RunContinuousManager
-- does, and RunUntilSuccessManager with positive delays, but not the custom manager of the
-- examples, and is over by returning or by a panic, and there is no RPC server or its shutdown does
-- not fail.
pub run_program-exits :
    (default : ManagerValue) (files : Files) (p : Program) (w : World) (st : Store Sink)
    (first : Service) (rest : List Service)
    → IsStore st
    → All (Given st.next_logger) p.options
    → services_of p.registration ≡ first ∷ rest
    → All (IsAddable default) (first ∷ rest)
    → All (λ v. IsEnded v.name (w.runs v.name) (w.runs v.name).status) (first ∷ rest)
    → (let d = (new_daemon p.name default files p.options st).0.daemon in
        (Prestart.run d.prestart w.prestart_turns).0 ≡ completes)
    → ShutsWell w.shutdown
    → run_program default files p w st ≡ exits 0
unfolding run_program
run_program-exits default files p w st first rest sound given which addable over done no_rpc =
    let d = (new_daemon p.name default files p.options st).0.daemon in
    let ready = new_daemon-IsReady p.name default files p.options st sound given in
    let services = added_all (unstarted default) (first ∷ rest) in
    ap (λ r. after_register d w (register p.registration r)) ready.registered
    ∙ ap (after_register d w) (
        register-added (unstarted default) p.registration refl
          (subst (All (IsAddable default)) (sym which) addable)
        ∙ ap (λ ss. let r : Registered × Added = (added_all (unstarted default) ss, adds) in r)
            which)
    ∙ start-added default (record d { registered = services }) w first rest refl ready.registry over
        done no_rpc
