-- ===== src/Manager/Custom.antt =====
-- examples/single_service_custom_manager/manager.go: the manager of the examples, by the same turns
-- and effects as the two of the library.
pub mod Order
use rxd.Base.{ℕ, ◌≡◌, Bool, true, false, String, List, [], ◌∷◌, ◌++◌, if◌then◌else◌}
use rxd.Errors.{GoError, error_text}
use rxd.States.{State, StateTransition, same_state, exit, init, idle, run, stop}
use rxd.Log.Level
use rxd.Manager.{
  Outcome, succeeds, panics, fails, Turn, done, fires, Effect, sends, calls, logs, arms, Status,
  returned, panicked, waiting, Trace, after, enters, exits,
}

-- How one pass of the `switch` ends: the next state, or a method that panicked.
pub data Pass : Type 0 where
  goes : State → List Effect → Pass
  breaks : String → List Effect → Pass

-- The timer's delay between states, a second.
abbrev pub second : ℕ
second = 1000000000

abbrev pub called : String → State → List Effect → List Effect
called name s es = calls s ∷ (es ++ exits name s ∷ [])

abbrev pub logged : GoError → List Effect
logged e = logs Level.error (error_text e) ∷ []

-- The `switch state`: the exit state, which a cancellation sets, has no case.
unfoldable pub pass : String → State → Outcome → Pass
pass name init (panics v) = breaks v (calls init ∷ [])
pass name init succeeds = goes idle (called name init [])
pass name init (fails e) = goes exit (called name init (logged e))
pass name idle (panics v) = breaks v (calls idle ∷ [])
pass name idle succeeds = goes run (called name idle [])
pass name idle (fails e) = goes stop (called name idle (logged e))
pass name run (panics v) = breaks v (calls run ∷ [])
pass name run succeeds = goes stop (called name run [])
pass name run (fails e) = goes stop (called name run (logged e))
pass name stop (panics v) = breaks v (calls stop ∷ [])
pass name stop succeeds = goes init (called name stop [])
pass name stop (fails e) = goes exit (called name stop (logged e))
pass name s o = goes s []

-- The last update has no transition.
abbrev pub farewell : String → Trace
farewell name = record {
  effects = sends (record { name = name; state = exit; transition = StateTransition.unknown }) ∷ [];
  status = returned;
}

abbrev pub move_on : (State → Trace) → Pass → Trace
move_on again (goes next es) = after (es ++ arms second ∷ []) (again next)
move_on again (breaks v es) = record { effects = es; status = panicked v }

-- `for state != rxd.StateExit`.
unfoldable pub custom_loop : String → State → List Turn → Trace
custom_loop name s [] =
    if same_state s exit
    then farewell name
    else record { effects = enters name s ∷ []; status = waiting }
custom_loop name s (done ∷ ts) =
    if same_state s exit
    then farewell name
    else after (enters name s ∷ arms second ∷ []) (farewell name)
custom_loop name s (fires r ∷ ts) =
    let rest = move_on (λ next. custom_loop name next ts) (pass name s r) in
    if same_state s exit then farewell name else after (enters name s ∷ []) rest

unfoldable pub custom_manage : String → List Turn → Trace
custom_manage name ts = after (arms second ∷ []) (custom_loop name init ts)
