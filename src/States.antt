-- ===== src/States.antt =====
-- service_states.go and service_action.go: states, transitions, actions and the states map.
use Prim.Native.String
use rxd.Base.{ℕ, ◌+◌, ◌≡◌, Bool, true, false, ◌==◌, String, Dict, insert, [], ◌∷◌, arith}

-- `State` is a uint8; `other n` is the value n + 6, which no constant names.
pub data State : Type 0 where
  unknown exit init idle run stop : State
  other : ℕ → State

abbrev pub code : State → ℕ
code unknown = 0
code exit = 1
code init = 2
code idle = 3
code run = 4
code stop = 5
code (other n) = n + 6

abbrev pub same_state : State → State → Bool
same_state s t = code s == code t

pub code-injective : (s t : State) → code s ≡ code t → s ≡ t
code-injective s t h = ground arith

unfoldable pub state_string : State → String
state_string unknown = "unknown"
state_string init = "init"
state_string idle = "idle"
state_string run = "run"
state_string stop = "stop"
state_string exit = "exit"
state_string (other n) = "unknown"

pub data StateTransition : Type 0 where
  unknown entering exited : StateTransition

pub record StateUpdate : Type 0 where
  pub state : State
  pub transition : StateTransition

abbrev pub ServiceStates : Type 0
ServiceStates = Dict StateUpdate

pub record ServiceStateUpdate : Type 0 where
  pub name : String
  pub state : State
  pub transition : StateTransition

-- `other` stands for the uint8 values past NotIn.
pub data ServiceAction : Type 0 where
  entering exited changing not_in other : ServiceAction

unfoldable pub action_string : ServiceAction → String
action_string ServiceAction.changing = "changing"
action_string ServiceAction.entering = "entering"
action_string ServiceAction.exited = "exited"
action_string ServiceAction.not_in = "not_in"
action_string ServiceAction.other = "unknown"

abbrev pub same_transition : StateTransition → StateTransition → Bool
same_transition StateTransition.entering StateTransition.entering = true
same_transition StateTransition.exited StateTransition.exited = true
same_transition StateTransition.unknown StateTransition.unknown = true
same_transition _ _ = false

-- The consumer groups under which a service watches the states topic: the parts joined by dots.
abbrev pub internal_service_states : String
internal_service_states = "_rxd.states"

abbrev pub join_dot : String → String → String
join_dot a b = String.◌++◌ a (String.◌++◌ "." b)

unfoldable pub internal_all_states_consumer : String → String
internal_all_states_consumer consumer = join_dot internal_service_states (join_dot "all" consumer)

unfoldable pub internal_states_consumer : ServiceAction → State → String → String
internal_states_consumer a t consumer =
    join_dot internal_service_states
      (join_dot (action_string a) (join_dot (state_string t) consumer))

-- The map of names to updates is copied entry by entry.
unfoldable pub copy_states : ServiceStates → ServiceStates → ServiceStates
copy_states [] c = c
copy_states ((k, v) ∷ s) c = copy_states s (insert k v c)
