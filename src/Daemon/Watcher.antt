-- ===== src/Daemon/Watcher.antt =====
-- daemon.go: the goroutine of statesWatcher as a function of the names it starts from and of the
-- updates it receives until their channel closes.
pub mod Latest
use rxd.Base.{
  ℕ, ◌≡◌, refl, Bool, true, false, String, List, [], ◌∷◌, ◌++◌, Dict, lookup, insert, Option, none,
  some, if◌then◌else◌, str_eq,
}
use rxd.States.{State, StateTransition, StateUpdate, ServiceStates, ServiceStateUpdate, copy_states}

-- The map before the first update.
unfoldable pub initial_states : List String → ServiceStates → ServiceStates
initial_states [] states = states
initial_states (name ∷ names) states =
    initial_states names
      (insert name (record { state = State.unknown; transition = StateTransition.entering }) states)

-- The maps published, in order: one for each update, and each a copy.
unfoldable pub watch_updates : ServiceStates → List ServiceStateUpdate → List ServiceStates
unfolding copy_states
watch_updates states [] = []
watch_updates states (u ∷ us) =
    let states' = insert u.name (record { state = u.state; transition = u.transition }) states in
    copy_states states' [] ∷ watch_updates states' us

unfoldable pub states_watcher : List String → List ServiceStateUpdate → List ServiceStates
unfolding initial_states watch_updates
states_watcher names us = watch_updates (initial_states names []) us

abbrev unknown_entering : StateUpdate
unknown_entering = record { state = State.unknown; transition = StateTransition.entering }
