-- ===== src/Manager/UntilSuccess.antt =====
-- service_manager.go: RunUntilSuccessManager.
pub mod Steps
pub mod Order
pub mod Ending
pub mod Announced
use Prim.Native.String
use rxd.Base.{ℕ, Bool, true, false, String, List, [], ◌∷◌, ◌++◌, ◌==◌, if◌then◌else◌}
use rxd.States.{State, same_state, exit, init, idle, run, stop}
use rxd.Log.Level
use rxd.Manager.{
  Outcome, succeeds, panics, fails, Turn, done, fires, Effect, calls, logs, arms, Status, returned,
  panicked, recovered, waiting, Trace, after, enters, exits, report, Switch, moves, crashes,
}

pub record RunUntilSuccessManager : Type 0 where
  pub startup_delay : ℕ
  pub default_delay : ℕ

-- NewRunUntilSuccessManager takes the two delays in the other order.
unfoldable pub new_run_until_success_manager : ℕ → ℕ → RunUntilSuccessManager
new_run_until_success_manager default startup = record {
  startup_delay = startup;
  default_delay = default;
}

-- The `switch state` of the loop. It has no default case.
unfoldable pub run_state : String → State → Outcome → Switch
run_state name init (panics v) = crashes v (calls init ∷ [])
run_state name init succeeds = moves idle false (calls init ∷ exits name init ∷ [])
run_state name init (fails e) = moves stop false (calls init ∷ report e ++ exits name init ∷ [])
run_state name idle (panics v) = crashes v (calls idle ∷ [])
run_state name idle succeeds = moves run false (calls idle ∷ exits name idle ∷ [])
run_state name idle (fails e) = moves stop false (calls idle ∷ report e ++ exits name idle ∷ [])
run_state name run (panics v) = crashes v (calls run ∷ [])
run_state name run succeeds = moves exit false (calls run ∷ exits name run ∷ [])
run_state name run (fails e) = moves stop false (calls run ∷ report e ++ exits name run ∷ [])
run_state name stop (panics v) = crashes v (calls stop ∷ [])
run_state name stop succeeds = moves init true (calls stop ∷ exits name stop ∷ [])
run_state name stop (fails e) = moves stop true (calls stop ∷ report e ++ exits name stop ∷ [])
run_state name s o = moves s false []

-- The deferred function: a panic is logged, and Manage returns.
abbrev recover_text : String → String
recover_text v = String.◌++◌ "recovered from a panic: " v

unfoldable pub recovers : String → List Effect → Trace
recovers v es = record {
  effects = es ++ logs Level.error (recover_text v) ∷ [];
  status = recovered v;
}

unfoldable pub finish : String → Bool → Outcome → Trace
finish name true o = record { effects = enters name exit ∷ []; status = returned }
finish name false (panics v) = recovers v (enters name stop ∷ calls stop ∷ [])
finish name false succeeds = record {
  effects = enters name stop ∷ calls stop ∷ exits name stop ∷ enters name exit ∷ [];
  status = returned;
}
finish name false (fails e) = record {
  effects = enters name stop ∷ calls stop ∷ report e ++ (exits name stop ∷ enters name exit ∷ []);
  status = returned;
}

unfoldable pub proceed : (State → Bool → Trace) → Switch → Trace
unfolding recovers
proceed again (moves next stopped es) = after es (again next stopped)
proceed again (crashes v es) = recovers v es

-- `for state != StateExit`; the ticker keeps its period.
unfoldable pub loop : String → State → Bool → List Turn → Outcome → Trace
loop name s stopped [] o =
    if same_state s exit
    then finish name stopped o
    else record { effects = enters name s ∷ []; status = waiting }
loop name s stopped (done ∷ ts) o =
    if same_state s exit
    then finish name stopped o
    else after (enters name s ∷ []) (finish name stopped o)
loop name s stopped (fires r ∷ ts) o =
    let rest =
      after (enters name s ∷ [])
        (proceed (λ next stopped'. loop name next stopped' ts o) (run_state name s r)) in
    if same_state s exit then finish name stopped o else rest

-- time.NewTicker and Ticker.Reset panic for a delay that is not positive, and the deferred function
-- recovers that. A delay of 0 stands for the negative ones too.
unfoldable pub set_ticker : ℕ → String → Trace → Trace
unfolding recovers
set_ticker delay text t = if delay == 0 then recovers text [] else after (arms delay ∷ []) t

abbrev pub new_ticker_text : String
new_ticker_text = "non-positive interval for NewTicker"

abbrev pub reset_text : String
reset_text = "non-positive interval for Ticker.Reset"

-- The `select` before the loop: the first Init, after which hasStopped is still true.
unfoldable pub start : RunUntilSuccessManager → String → List Turn → Outcome → Trace
unfolding recovers set_ticker
start m name [] o = record { effects = []; status = waiting }
start m name (done ∷ ts) o = loop name exit true ts o
start m name (fires (panics v) ∷ ts) o = recovers v (enters name init ∷ calls init ∷ [])
start m name (fires succeeds ∷ ts) o =
    after (enters name init ∷ calls init ∷ exits name init ∷ [])
      (set_ticker m.default_delay reset_text (loop name idle true ts o))
start m name (fires (fails e) ∷ ts) o =
    after (enters name init ∷ calls init ∷ report e ++ exits name init ∷ [])
      (set_ticker m.default_delay reset_text (loop name stop true ts o))

unfoldable pub manage : RunUntilSuccessManager → String → List Turn → Outcome → Trace
unfolding set_ticker
manage m name ts o = set_ticker m.startup_delay new_ticker_text (start m name ts o)
