-- ===== src/Manager/Continuous.antt =====
-- service_manager.go: RunContinuousManager.
pub mod Order
pub mod Ending
pub mod Announced
use rxd.Base.{
  ℕ, ◌≡◌, Bool, true, false, String, List, [], ◌∷◌, ◌++◌, if◌then◌else◌, Option, none, some,
}
use rxd.States.{State, same_state, unknown, exit, init, idle, run, stop, other, state_string}
use rxd.Log.Level
use rxd.Manager.{
  Outcome, succeeds, panics, fails, Turn, done, fires, Effect, sends, calls, logs, arms, Status,
  returned, panicked, recovered, waiting, Trace, after, enters, exits, report, Switch, moves,
  crashes,
}

-- `state_timeouts` is the map ManagerStateTimeouts.
pub record RunContinuousManager : Type 0 where
  pub default_delay : ℕ
  pub startup_delay : ℕ
  pub state_timeouts : List (State × ℕ)

unfoldable pub state_timeout : State → List (State × ℕ) → Option ℕ
state_timeout s [] = none
state_timeout s ((t, d) ∷ m) = if same_state t s then some d else state_timeout s m

-- The timer's next delay: the state's own, or the default.
unfoldable pub next_delay : RunContinuousManager → State → ℕ
next_delay m s = elim (state_timeout s m.state_timeouts) [ some d ↦ d | none ↦ m.default_delay ]

-- The `switch state` of Manage: the next state, hasStopped, and what happens.
unfoldable pub run_state : String → State → Outcome → Switch
run_state name init (panics v) = crashes v (calls init ∷ [])
run_state name init succeeds = moves idle false (calls init ∷ exits name init ∷ [])
run_state name init (fails e) = moves stop false (calls init ∷ report e ++ exits name init ∷ [])
run_state name idle (panics v) = crashes v (calls idle ∷ [])
run_state name idle succeeds = moves run false (calls idle ∷ exits name idle ∷ [])
run_state name idle (fails e) = moves stop false (calls idle ∷ report e ++ exits name idle ∷ [])
run_state name run (panics v) = crashes v (calls run ∷ [])
run_state name run succeeds = moves stop false (calls run ∷ exits name run ∷ [])
run_state name run (fails e) = moves stop false (calls run ∷ report e ++ exits name run ∷ [])
run_state name stop (panics v) = crashes v (calls stop ∷ [])
run_state name stop succeeds = moves init true (calls stop ∷ exits name stop ∷ [])
run_state name stop (fails e) = moves init true (calls stop ∷ report e ++ exits name stop ∷ [])
run_state name s o = moves s false (logs Level.error "unknown state encountered" ∷ [])

-- What follows the loop: Stop, if it did not run last, and the last update.
unfoldable pub finish : String → Bool → Outcome → Trace
finish name true o = record { effects = enters name exit ∷ []; status = returned }
finish name false (panics v) = record {
  effects = enters name stop ∷ calls stop ∷ [];
  status = panicked v;
}
finish name false succeeds = record {
  effects = enters name stop ∷ calls stop ∷ exits name stop ∷ enters name exit ∷ [];
  status = returned;
}
finish name false (fails e) = record {
  effects = enters name stop ∷ calls stop ∷ report e ++ (exits name stop ∷ enters name exit ∷ []);
  status = returned;
}

-- After the `switch`: the timer is set for the next state and the loop goes on.
unfoldable pub proceed : RunContinuousManager → (State → Bool → Trace) → Switch → Trace
proceed m again (moves next stopped es) =
    after (es ++ arms (next_delay m next) ∷ []) (again next stopped)
proceed m again (crashes v es) = record { effects = es; status = panicked v }

-- `for state != StateExit`. The outcome is that of the Stop after the loop.
unfoldable pub loop : RunContinuousManager → String → State → Bool → List Turn → Outcome → Trace
loop m name s stopped [] o =
    if same_state s exit
    then finish name stopped o
    else record { effects = enters name s ∷ []; status = waiting }
loop m name s stopped (done ∷ ts) o =
    if same_state s exit
    then finish name stopped o
    else after (enters name s ∷ []) (finish name stopped o)
loop m name s stopped (fires r ∷ ts) o =
    let rest =
      after (enters name s ∷ [])
        (proceed m (λ next stopped'. loop m name next stopped' ts o) (run_state name s r)) in
    if same_state s exit then finish name stopped o else rest

unfoldable pub manage : RunContinuousManager → String → List Turn → Outcome → Trace
manage m name ts o = after (arms m.startup_delay ∷ []) (loop m name init false ts o)
