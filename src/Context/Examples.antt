-- ===== src/Context/Examples.antt =====
-- Contexts and watchers on small inputs.
use rxd.Base.{
  ℕ, eq_iff, arith, List, [], ◌∷◌, ◌≡◌, ◌↔◌, refl, true, String, List, [], ◌∷◌, lookup,
  if◌then◌else◌,
}
use rxd.Base.{none as nothing}
use rxd.States.{
  State, StateTransition, StateUpdate, ServiceStates, ServiceAction, internal_states_consumer,
  internal_all_states_consumer,
}
use rxd.Log.Field.{string_field}
use rxd.Log.Logger.{Logger, Store, new_logger, log_message}
use rxd.Log.Logger.Sound.{IsStore, new_logger-IsStore}
use rxd.Context.Logging.{
  new_logged_context, log_in, logged_with_name, logged_with_parent, log_in-new_logged_context,
}
use rxd.Context.{ServiceContext, Context}
use rxd.Context.Watch.{
  Turn, cancelled, receives, Act, subscribes, interested, all_found, any_found, watch_services,
}
use rxd.Context.Watch.AllStates.{watch_all_states}
use rxd.Context.Watch.Selection.{IsDistinct}
use rxd.Context.Watch.Counting.{AllMeet, all_found_iff}
use rxd.Context.Watch.Filter.{FilterMode, new_service_filter, filtered, selects, lookup-filtered}
use rxd.Context.Watch.Lifetime.{Leaves, has_end, watch_releases}

abbrev running : StateUpdate
running = record { state = State.run; transition = StateTransition.entering }

abbrev two_states : ServiceStates
two_states =
    ("a", running) ∷ ("b", record { state = State.idle; transition = StateTransition.exited }) ∷ []

abbrev two_names : List String
two_names = "a" ∷ "b" ∷ []

abbrev service : ServiceContext
service = record { context = 1 ∷ []; name = "a"; fqcn = "a" }

abbrev other_parent : Context
other_parent = 7 ∷ []

all_found_iff_example :
    (all_found two_names (interested ServiceAction.not_in State.stop two_states two_names []).0
      ≡ true)
    ↔ (IsDistinct two_names × AllMeet ServiceAction.not_in State.stop two_states two_names)
all_found_iff_example = all_found_iff ServiceAction.not_in State.stop two_states two_names

lookup-filtered_example :
    lookup "b" (filtered (new_service_filter FilterMode.exclude ("a" ∷ [])) two_states)
    ≡ (if selects FilterMode.exclude ("a" ∷ []) "b" then lookup "b" two_states else nothing)
lookup-filtered_example =
    lookup-filtered FilterMode.exclude ("a" ∷ []) two_states "b"
      (unfold lookup in (refl, (refl, tt)))

abbrev watching : List Turn
watching = receives two_states true ∷ cancelled ∷ []

watch_releases_example :
    ((acts : List Act) × (watch_services any_found ServiceAction.entering State.run two_names "a"
          nothing watching
        ≡ subscribes (internal_states_consumer ServiceAction.entering State.run "a") ∷ acts)
      × Leaves
          (internal_states_consumer ServiceAction.entering State.run "a")
          (has_end watching)
          acts)
    × ((acts : List Act) × (watch_all_states
            (new_service_filter FilterMode.include two_names)
            "a"
            nothing
            watching
          ≡ subscribes (internal_all_states_consumer "a") ∷ acts)
        × Leaves (internal_all_states_consumer "a") (has_end watching) acts)
watch_releases_example =
    watch_releases any_found ServiceAction.entering State.run two_names
      (new_service_filter FilterMode.include two_names) "a" watching

abbrev no_logger : Logger ℕ
no_logger = record { handler = 0; fields = record { array = 0; len = 0; cap = 0 }; level = 0 }

abbrev bare_store : Store ℕ
bare_store = record {
  levels = λ p. 0;
  arrays = λ p. [];
  loggers = λ p. no_logger;
  next_level = 0;
  next_array = 0;
  next_logger = 0;
}

-- The service logger at 0 and the internal one at 1.
abbrev both_loggers : Store ℕ
both_loggers = (new_logger 7 8 (new_logger 6 9 bare_store).1).1

-- A runtime that allots what is needed.
abbrev exactly : ℕ → ℕ → ℕ
exactly cap needed = needed

both_loggers-IsStore : IsStore both_loggers
both_loggers-IsStore =
    new_logger-IsStore 7 8 (new_logger 6 9 bare_store).1
      (new_logger-IsStore 6 9 bare_store (λ p lt. absurd (omega (arith, lt))))

log_in-new_logged_context_example :
    (let (sc, after) = new_logged_context exactly [] "api" 0 1 5 both_loggers in
      (log_in after sc 6 "hello" []
        ≡ log_message both_loggers 0 6 "hello" (string_field "service" "api" ∷ []))
      × (log_in after (logged_with_name sc "worker" 6) 6 "hello" [] ≡ log_in after sc 6 "hello" [])
      × (log_in after (logged_with_parent sc (3 ∷ []) 6) 6 "hello" []
          ≡ log_in after sc 6 "hello" []))
unfolding new_logger
log_in-new_logged_context_example =
    log_in-new_logged_context exactly [] (3 ∷ []) "api" "worker" 0 1 5 6 both_loggers 6 "hello" []
      (λ cap needed. omega arith) both_loggers-IsStore (omega arith) (omega arith) (omega arith)
      (ground (arith, eq_iff "api" ""))
