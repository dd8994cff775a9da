-- ===== src/Context/Watch.antt =====
-- service_context.go: WatchAllServices, WatchAnyServices and WatchAllStates. Each is a goroutine
-- that reads the states topic. `Turn` is what one pass of its loop meets: the end of its context,
-- a closed subscription, or a states map with what the `select` around the send then does.
pub mod Filter
pub mod Lifetime
pub mod AllStates
pub mod Selection
pub mod Counting
use rxd.Base.{
  ℕ, ◌≡◌, Bool, true, false, ◌&&◌, ◌||◌, String, List, [], ◌∷◌, ◌++◌, Dict, lookup, insert, length,
  if◌then◌else◌, ◌==◌, ltb, Option, none, some, is_some,
}
use rxd.States.{
  State, StateTransition, StateUpdate, ServiceStates, ServiceAction, same_state, same_transition,
  internal_states_consumer, internal_all_states_consumer,
}
use rxd.Errors.{GoError}

pub data Turn : Type 0 where
  cancelled closed : Turn
  receives : ServiceStates → Bool → Turn

-- What a watcher does, in order. `warns name`: the service is not in the map.
pub data Act : Type 0 where
  subscribes unsubscribes : String → Act
  fails : GoError → Act
  warns : String → Act
  signals : ServiceStates → Act
  closes : Act

-- The tests of the four cases of `switch action`.
unfoldable pub matches : ServiceAction → State → StateUpdate → Bool
matches ServiceAction.entering target u =
    same_state u.state target && same_transition u.transition StateTransition.entering
matches ServiceAction.exited target u =
    same_state u.state target && same_transition u.transition StateTransition.exited
matches ServiceAction.changing target u = same_state u.state target
matches ServiceAction.not_in target u = not_same (same_state u.state target)
  where
    not_same : Bool → Bool
    not_same true = false
    not_same false = true
matches ServiceAction.other target u = false

-- One pass of `for _, name := range services`.
unfoldable pub consider :
    ServiceAction → State → ServiceStates → String → ServiceStates → ServiceStates × List Act
unfolding matches
consider ServiceAction.other target states name found = (found, [])
consider a target states name found = elim (lookup name states) [
  | none ↦ (found, warns name ∷ [])
  | some u ↦ (if matches a target u then insert name u found else found, [])
]

-- interestedServices, and the warnings on the way.
unfoldable pub interested :
    ServiceAction → State → ServiceStates → List String → ServiceStates → ServiceStates × List Act
interested a target states [] found = (found, [])
interested a target states (name ∷ names) found =
    let (found', w) = consider a target states name found in
    let (all, ws) = interested a target states names found' in (all, w ++ ws)

-- The test of WatchAllServices, `len(interestedServices) == len(services)`.
unfoldable pub all_found : List String → ServiceStates → Bool
all_found names found = length found == length names

-- The test of WatchAnyServices, `len(interestedServices) > 0`.
unfoldable pub any_found : List String → ServiceStates → Bool
any_found names found = ltb 0 (length found)

-- The loop that the two share; they differ in the test alone. The deferred calls run last to
-- first: RemoveSubscription, then close(ch).
unfoldable pub watch_loop :
    (List String → ServiceStates → Bool)
    → ServiceAction
    → State
    → List String
    → String
    → List Turn
    → List Act
watch_loop test a target names consumer [] = []
watch_loop test a target names consumer (cancelled ∷ ts) = unsubscribes consumer ∷ closes ∷ []
watch_loop test a target names consumer (closed ∷ ts) = unsubscribes consumer ∷ closes ∷ []
watch_loop test a target names consumer (receives states sent ∷ ts) =
    let rest = watch_loop test a target names consumer ts in
    let (found, ws) = interested a target states names [] in
    ws
    ++ (if test names found
        then (if sent then signals found ∷ rest else unsubscribes consumer ∷ closes ∷ [])
        else rest)

-- The goroutine: `refused` is the error of CreateSubscription, if it returns one.
unfoldable pub watch_services :
    (List String → ServiceStates → Bool)
    → ServiceAction
    → State
    → List String
    → String
    → Option GoError
    → List Turn
    → List Act
watch_services test a target names fqcn (some e) ts =
    subscribes (internal_states_consumer a target fqcn) ∷ fails e ∷ closes ∷ []
watch_services test a target names fqcn none ts =
    let consumer = internal_states_consumer a target fqcn in
    subscribes consumer ∷ watch_loop test a target names consumer ts

unfoldable pub watch_all_services :
    ServiceAction → State → List String → String → Option GoError → List Turn → List Act
unfolding watch_services
watch_all_services = watch_services all_found

unfoldable pub watch_any_services :
    ServiceAction → State → List String → String → Option GoError → List Turn → List Act
unfolding watch_services
watch_any_services = watch_services any_found
