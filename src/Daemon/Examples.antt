-- ===== src/Daemon/Examples.antt =====
-- A prestart pipeline, a set of services and their states.
use rxd.Base.{
  ℕ, zero, suc, inl, eq_iff, ◌≡◌, refl, true, false, List, [], ◌∷◌, map, length, lookup, none, some,
}
use rxd.Errors.{no_service_name}
use rxd.States.{State, StateTransition, ServiceStateUpdate}
use rxd.Daemon.Prestart.{
  Pipeline, StageRun, returned, timer_fires, completes, run, run_loop, run_stages,
}
use rxd.Daemon.Prestart.Success.{passes, run_restarts}
use rxd.Daemon.Prestart.Reports.{once_ends, reports, run_once}
use rxd.Daemon.Services.{
  struct_value, ManagerValue, Service, Registered, fails, add_service, check_nil_struct_pointer,
}
use rxd.Daemon.Services.Adding.{IsAddable, IsPaired, added_all}
use rxd.Daemon.Watcher.{states_watcher}
use rxd.Daemon.Watcher.Latest.{history, at_start, map-states_watcher}

abbrev restarting : Pipeline
restarting = record { restart_on_error = true; restart_delay = 100; stages = "db" ∷ "cache" ∷ [] }

abbrev single : Pipeline
single = record restarting { restart_on_error = false }

abbrev first_fails : ℕ → StageRun
first_fails zero = returned (some "refused")
first_fails (suc n) = returned none

abbrev last_fails : ℕ → StageRun
last_fails zero = returned none
last_fails (suc n) = returned (some "refused")

abbrev all_succeed : ℕ → StageRun
all_succeed n = returned none

run_restarts_example :
    let r = run restarting (passes (first_fails ∷ []) (timer_fires all_succeed ∷ [])) in
    (r.0 ≡ completes) × (length r.1 ≡ 1)
run_restarts_example =
    run_restarts restarting (first_fails ∷ []) all_succeed [] refl (λ e. cc)
      (inl ("refused", refl), tt) (refl, (refl, tt))

completes_at_once : (run restarting (timer_fires all_succeed ∷ [])).0 ≡ completes
unfolding run run_loop run_stages
completes_at_once = refl

run_once_example :
    run single (timer_fires last_fails ∷ map timer_fires (all_succeed ∷ []))
    ≡ (once_ends (some "refused"), reports single.stages last_fails 0)
run_once_example =
    run_once single last_fails (some "refused") (all_succeed ∷ []) refl ((none, refl), refl)

abbrev manager : ManagerValue
manager = record {
  identity = 1;
  is_nil_pointer = false;
  type_name = "rxd.RunContinuousManager";
  receiver = struct_value;
}

abbrev empty_daemon : Registered
empty_daemon = record { started = false; services = []; managers = []; default = manager }

abbrev first_a : Service
first_a = record { name = "a"; runner = 10; manager = none }

abbrev second_a : Service
second_a = record { name = "a"; runner = 11; manager = some manager }

abbrev unnamed : Service
unnamed = record { name = ""; runner = 12; manager = none }

first_a-IsAddable : IsAddable manager first_a
unfolding check_nil_struct_pointer
first_a-IsAddable = record {
  named = λ e. let x : false ≡ true = (eq_iff "a" "").1 e in cc;
  managed = refl;
}

second_a-IsAddable : IsAddable manager second_a
unfolding check_nil_struct_pointer
second_a-IsAddable = record {
  named = λ e. let x : false ≡ true = (eq_iff "a" "").1 e in cc;
  managed = refl;
}

unnamed_fails :
    add_service (added_all empty_daemon (first_a ∷ [])) unnamed
    ≡ (added_all empty_daemon (first_a ∷ []), fails no_service_name)
unfolding add_service
unnamed_fails = refl

empty_daemon-IsPaired : IsPaired empty_daemon
empty_daemon-IsPaired = record { paired = λ k. unfold lookup in refl }

abbrev updates : List ServiceStateUpdate
updates =
    record { name = "a"; state = State.init; transition = StateTransition.entering }
    ∷ record { name = "a"; state = State.init; transition = StateTransition.exited }
    ∷ []

map-states_watcher_example :
    map (lookup "a") (states_watcher ("a" ∷ "b" ∷ []) updates)
    ≡ history "a" (at_start "a" ("a" ∷ "b" ∷ []) none) updates
map-states_watcher_example = map-states_watcher "a" ("a" ∷ "b" ∷ []) updates
