-- ===== src/Manager.antt =====
-- service_manager.go: what the two managers have in common. A manager's run is a trace of effects
-- in program order. One pass of the loop is a `Turn`: what its `select` receives and, where a
-- method of the runner is called, how that call ends.
pub mod Continuous
pub mod UntilSuccess
pub mod Custom
pub mod Options
pub mod Protocol
mod Examples
use rxd.Base.{
  ℕ, ◌+◌, ◌≡◌, refl, ap, Bool, true, false, String, List, [], ◌∷◌, ◌++◌, if◌then◌else◌, ◌==◌,
  Option, none, some, str_eq, ◌&&◌, append_assoc, arith,
}
use rxd.Errors.{GoError, error_text, is_cancelled}
use rxd.States.{
  State, StateTransition, ServiceStateUpdate, same_state, code, unknown, exit, init, idle, run,
  stop, other,
}
use rxd.Log.Level.{Level}
use rxd.Log.Level

-- How a call of a runner's method ends; `panics` has the text that the panic's value prints as.
pub data Outcome : Type 0 where
  succeeds : Outcome
  panics : String → Outcome
  fails : GoError → Outcome

pub data Turn : Type 0 where
  done : Turn
  fires : Outcome → Turn

-- `sends`: a value sent on updateC. `calls s`: the runner's method for the state s is called.
-- `arms d`: the timer or ticker is set to d.
pub data Effect : Type 0 where
  sends : ServiceStateUpdate → Effect
  calls : State → Effect
  logs : Level → String → Effect
  arms : ℕ → Effect

pub data Status : Type 0 where
  returned waiting : Status
  panicked recovered : String → Status

-- `recovered`: a deferred function recovered the panic, so that the manager returned after all.
-- `waiting`: the turns are used up and the manager stands at its `select`.
pub record Trace : Type 0 where
  pub effects : List Effect
  pub status : Status

abbrev pub after : List Effect → Trace → Trace
after es t = record { effects = es ++ t.effects; status = t.status }

abbrev pub enters : String → State → Effect
enters name s = sends (record { name = name; state = s; transition = StateTransition.entering })

abbrev pub exits : String → State → Effect
exits name s = sends (record { name = name; state = s; transition = StateTransition.exited })

-- The log of an error that a method returned: none for a cancellation.
unfoldable pub report : GoError → List Effect
report e = if is_cancelled e then [] else logs Level.error (error_text e) ∷ []

-- How one pass of the `switch` ends.
pub data Switch : Type 0 where
  moves : State → Bool → List Effect → Switch
  crashes : String → List Effect → Switch

-- The lifecycle methods that a trace calls, in order.
abbrev pub call_list : List Effect → List State
call_list [] = []
call_list (calls s ∷ es) = s ∷ call_list es
call_list (sends u ∷ es) = call_list es
call_list (logs l m ∷ es) = call_list es
call_list (arms d ∷ es) = call_list es

pub call_list-append : (xs ys : List Effect) → call_list (xs ++ ys) ≡ call_list xs ++ call_list ys
call_list-append [] ys = refl
call_list-append (calls s ∷ es) ys = ap (◌∷◌ s) (call_list-append es ys)
call_list-append (sends u ∷ es) ys = call_list-append es ys
call_list-append (logs l m ∷ es) ys = call_list-append es ys
call_list-append (arms d ∷ es) ys = call_list-append es ys

pub call_list-report : (e : GoError) → call_list (report e) ≡ []
unfolding report
call_list-report e = ground arith

pub call_list-reported :
    (e : GoError) (es : List Effect) → call_list (report e ++ es) ≡ call_list es
call_list-reported e es = rw (call_list-append (report e) es, call_list-report e)
