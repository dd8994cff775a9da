-- ===== src/Daemon/Prestart.antt =====
-- daemon_prestart.go: the pipeline of stages that runs before the services start.
pub mod Success
pub mod Reports
use rxd.Base.{
  ℕ, suc, ◌+◌, ◌==◌, Bool, true, false, String, Option, none, some, List, [], ◌∷◌, ◌++◌,
  if◌then◌else◌,
}
use rxd.Log.Level.{Level, error, warning}
use rxd.Log.Field.{Field, string_field, error_field}

-- A time.Duration in nanoseconds. A stage stands by its name; what its function does is part of the
-- turn in which it runs.
pub record Pipeline : Type 0 where
  pub restart_on_error : Bool
  pub restart_delay : ℕ
  pub stages : List String

unfoldable pub new_prestart_pipeline : Bool → ℕ → List String → Pipeline
new_prestart_pipeline restart delay stages = record {
  restart_on_error = restart;
  restart_delay = delay;
  stages = stages;
}

unfoldable pub add_stage : Pipeline → String → Pipeline
add_stage p stage = record p { stages = p.stages ++ stage ∷ [] }

pub record DaemonLog : Type 0 where
  pub level : Level
  pub message : String
  pub fields : List Field

-- Where the test of the context and the stage's function end: the context is done, or the function
-- returns an error or nil.
pub data StageRun : Type 0 where
  cancelled : StageRun
  returned : Option String → StageRun

-- The loop over the stages: it returns, is left by `break`, or ends with what `err` then holds.
pub data StagesEnd : Type 0 where
  leaves : StagesEnd
  breaks : StagesEnd
  ends_with : Option String → StagesEnd

abbrev pub prestart_failed : Bool → String → String → DaemonLog
prestart_failed restart stage e = record {
  level = if restart then warning else error;
  message = "prestart failed";
  fields = error_field "error" e ∷ string_field "stage" stage ∷ [];
}

-- What a stage does, given what follows if the loop goes on.
abbrev after_stage :
    Bool
    → String
    → StageRun
    → StagesEnd × List DaemonLog
    → StagesEnd × List DaemonLog
    → StagesEnd × List DaemonLog
after_stage restart stage cancelled ok failed = (leaves, [])
after_stage restart stage (returned none) ok failed = ok
after_stage restart stage (returned (some e)) ok failed =
    if restart
    then (breaks, prestart_failed restart stage e ∷ [])
    else (failed.0, prestart_failed restart stage e ∷ failed.1)

abbrev failure : StageRun → Option String
failure cancelled = none
failure (returned e) = e

-- `runs` gives what the stage at each index does.
unfoldable pub run_stages :
    Bool → Option String → List String → (ℕ → StageRun) → ℕ → StagesEnd × List DaemonLog
run_stages restart err [] runs i = (ends_with err, [])
run_stages restart err (stage ∷ stages) runs i =
    after_stage restart stage (runs i) (run_stages restart none stages runs (i + 1))
      (run_stages restart (failure (runs i)) stages runs (i + 1))

-- The outer select: the context is done, or the timer fires and the stages run so.
pub data Turn : Type 0 where
  ctx_done : Turn
  timer_fires : (ℕ → StageRun) → Turn

-- How Run's goroutine ends: cancelled, or with all stages done; or it still waits at the select,
-- with its timer armed, for the delay given, or not.
pub data Ending : Type 0 where
  stops completes : Ending
  waits : Option ℕ → Ending

-- The rest of a pass, and of the loop: `again` is the loop with the timer armed, `idle` with the
-- timer as it is after it fired.
abbrev after_stages :
    StagesEnd → Ending × List DaemonLog → Ending × List DaemonLog → Ending × List DaemonLog
after_stages leaves again idle = (stops, [])
after_stages breaks again idle = again
after_stages (ends_with none) again idle = (completes, [])
after_stages (ends_with (some e)) again idle = idle

abbrev pub log_first : List DaemonLog → Ending × List DaemonLog → Ending × List DaemonLog
log_first logs r = (r.0, logs ++ r.1)

abbrev pub retry_delay : Pipeline → ℕ
retry_delay p = if p.restart_delay == 0 then 5000000000 else p.restart_delay

-- The loop of Run. A timer that is not armed never fires: such a turn does not come.
unfoldable pub run_loop : Pipeline → Option ℕ → List Turn → Ending × List DaemonLog
unfolding run_stages
run_loop p timer [] = (waits timer, [])
run_loop p timer (ctx_done ∷ ts) = (stops, [])
run_loop p none (timer_fires runs ∷ ts) = run_loop p none ts
run_loop p (some delay) (timer_fires runs ∷ ts) =
    let (end, logs) = run_stages p.restart_on_error none p.stages runs 0 in
    log_first logs (after_stages end (run_loop p (some (retry_delay p)) ts) (run_loop p none ts))

abbrev unless_empty : List String → Ending × List DaemonLog → Ending × List DaemonLog
unless_empty [] r = (completes, [])
unless_empty (stage ∷ stages) r = r

-- The timer is made with a delay of 0.
unfoldable pub run : Pipeline → List Turn → Ending × List DaemonLog
unfolding run_loop
run p ts = unless_empty p.stages (run_loop p (some 0) ts)
