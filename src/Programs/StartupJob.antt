-- ===== src/Programs/StartupJob.antt =====
-- The StartupJobService of examples/run_until_success, and its calls by RunUntilSuccessManager.
pub mod Retries
use rxd.Base.{ℕ, ◌+◌, Bool, true, false, String, List, [], ◌∷◌, ltb, if◌then◌else◌}
use rxd.Errors.{plain}
use rxd.States.{State, init, idle, run, stop}
use rxd.Log.Level.{info}
use rxd.Manager.{Outcome, succeeds, fails, Turn, done, fires, Switch, moves, crashes}
use rxd.Manager.UntilSuccess.{run_state}
use rxd.Programs.HelloWorld.{Lines}

pub record StartupJob : Type 0 where
  pub attempts : ℕ

abbrev pub new_startup_job_service : StartupJob
new_startup_job_service = record { attempts = 0 }

-- How a method ends, the service after it, and what it logs.
pub record JobCall : Type 0 where
  pub outcome : Outcome
  pub job : StartupJob
  pub lines : Lines

abbrev job_call : Outcome → StartupJob → Lines → JobCall
job_call o j lines = record { outcome = o; job = j; lines = lines }

-- `cancelled`: the method's `select` finds the context done.
unfoldable pub job_run : (cancelled : Bool) → StartupJob → JobCall
job_run true j = job_call succeeds j ((info, "entering run") ∷ [])
job_run false j =
    let lines = (info, "entering run") ∷ (info, "performing work") ∷ [] in
    if ltb j.attempts 3
    then job_call (fails (plain "failed to run startup job")) (record { attempts = j.attempts + 1 })
        lines
    else job_call succeeds j lines

-- In these three both cases of the `select` return nil.
unfoldable pub job_init : (cancelled : Bool) → StartupJob → JobCall
job_init cancelled j = job_call succeeds j ((info, "entering init") ∷ [])

unfoldable pub job_idle : (cancelled : Bool) → StartupJob → JobCall
job_idle cancelled j = job_call succeeds j ((info, "entering idle") ∷ [])

unfoldable pub job_stop : (cancelled : Bool) → StartupJob → JobCall
job_stop cancelled j = job_call succeeds j ((info, "entering stop") ∷ [])

-- The method that the manager calls in a state.
unfoldable pub job_method : State → (cancelled : Bool) → StartupJob → JobCall
unfolding job_run job_init job_idle job_stop
job_method init cancelled j = job_init cancelled j
job_method idle cancelled j = job_idle cancelled j
job_method run cancelled j = job_run cancelled j
job_method stop cancelled j = job_stop cancelled j
job_method _ cancelled j = job_call succeeds j []

-- What the manager's `select` receives: the context is done, or the timer fires, and then the
-- method may find the context done.
pub data Moment : Type 0 where
  gone : Moment
  ticks : (cancelled : Bool) → Moment

abbrev next_state : Switch → State
next_state (moves s stopped es) = s
next_state (crashes v es) = stop

-- The turns of the manager's loop from a state on when this service answers its calls.
unfoldable pub job_turns : String → List Moment → State → StartupJob → List Turn
unfolding job_method run_state
job_turns name [] s j = []
job_turns name (gone ∷ es) s j = done ∷ job_turns name es s j
job_turns name (ticks c ∷ es) s j =
    let called = job_method s c j in
    fires called.outcome
    ∷ job_turns name es (next_state (run_state name s called.outcome)) called.job
