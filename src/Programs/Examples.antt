-- ===== src/Programs/Examples.antt =====
-- The examples' programs, run.
use rxd.Base.{
  last_or, if◌then◌else◌, ◌+◌, ◌≤◌, ◌<◌, ◌≡◌, ◌≢◌, refl, false, String, none, some, List, [], ◌∷◌,
  length, eq_iff, arith,
}
use rxd.Errors.{plain, canceled}
use rxd.Manager.{succeeds, fails, returned, Turn, done, fires, Trace, call_list}
use rxd.Manager.Continuous
use rxd.Manager.Continuous.{RunContinuousManager}
use rxd.Manager.Continuous.Announced.{continuous-Told}
use rxd.Manager.Custom.{custom_manage}
use rxd.Manager.UntilSuccess.{RunUntilSuccessManager, new_run_until_success_manager}
use rxd.Manager.Options.{service_manager}
use rxd.Log.Logger.{Store, Logger}
use rxd.Daemon.Prestart
use rxd.Daemon.Services.{ManagerValue, other_value, passes, check_nil_struct_pointer}
use rxd.Daemon.Options.{Sink, own_sink, Files}
use rxd.Daemon.Options.{new_daemon}
use rxd.Daemon.Start.{World}
use rxd.Daemon.Start.Launch.{IsEnded}
use rxd.Programs.Main.{run_program, multi_service_rpc, exits}
use rxd.Programs.Main.Exits.{run_program-exits}
use rxd.Programs.HelloWorld.{new_hello_world_service, times_out}
use rxd.Programs.HelloWorld.Multi.{shuts, left_rpc}
use rxd.Programs.HelloWorld.{left_custom, crashes, goes_quietly}
use rxd.Manager.UntilSuccess.Steps.{is_stop}
use rxd.States.{stop}
use rxd.Programs.HelloWorld.Methods.{single, custom, multi, rpc}
use rxd.Programs.HelloWorld.Served.{Sound, after_calls, hello_world_served}
use rxd.Programs.Polling
use rxd.Programs.Polling.{
  new_api_polling_service, run_polling, run_polling_rpc, get_fails, answers, waits,
}
use rxd.Programs.StartupJob.{Moment, ticks}
use rxd.Programs.StartupJob.Retries.{job_runs, AreQuiet, job_trace, startup_job_retried}
use rxd.Programs.Polling.Counting.{requests, failures, run_polling-requests}

abbrev manager : ManagerValue
manager = record {
  identity = 9;
  is_nil_pointer = false;
  type_name = "rxd.RunContinuousManager";
  receiver = other_value;
}

abbrev no_files : Files
no_files path = []

abbrev no_logger : Logger Sink
no_logger = record {
  handler = own_sink 0;
  fields = record { array = 0; len = 0; cap = 0 };
  level = 0;
}

abbrev bare_store : Store Sink
bare_store = record {
  levels = λ p. 0;
  arrays = λ p. [];
  loggers = λ p. no_logger;
  next_level = 0;
  next_array = 0;
  next_logger = 0;
}

-- Run fails once, and the context ends after the Stop that follows.
abbrev some_turns : List Turn
some_turns =
    fires succeeds ∷ fires succeeds ∷ fires (fails (plain "lost")) ∷ fires succeeds ∷ done ∷ []

abbrev runs : String → Trace
runs k = Continuous.manage service_manager k some_turns succeeds

abbrev world : World
world = record {
  prestart_turns = [];
  runs = runs;
  schedule = "PollService" ∷ "HelloWorldAPI" ∷ [];
  shutdown = some none;
}

checked : check_nil_struct_pointer manager "Manage" ≡ passes
unfolding check_nil_struct_pointer
checked = refl

hello_named : ◌≢◌ {A = String} "HelloWorldAPI" ""
hello_named = ground (arith, eq_iff "HelloWorldAPI" "")

poller_named : ◌≢◌ {A = String} "PollService" ""
poller_named = ground (arith, eq_iff "PollService" "")

abbrev Ended : String → Type 0
Ended k = IsEnded k (world.runs k) (world.runs k).status

hello_over : Ended "HelloWorldAPI"
unfolding Continuous.manage Continuous.loop Continuous.proceed Continuous.run_state
    Continuous.finish
hello_over = continuous-Told service_manager "HelloWorldAPI" some_turns succeeds

poller_over : Ended "PollService"
unfolding Continuous.manage Continuous.loop Continuous.proceed Continuous.run_state
    Continuous.finish
poller_over = continuous-Told service_manager "PollService" some_turns succeeds

run_program-exits_example :
    run_program manager no_files multi_service_rpc world bare_store ≡ exits 0
unfolding new_daemon Prestart.run
run_program-exits_example =
    run_program-exits manager no_files multi_service_rpc world bare_store _ _
      (λ p lt. absurd (omega (arith, lt))) (tt, tt) refl
      (
        record { named = hello_named; managed = checked },
        (record { named = poller_named; managed = checked }, tt),
      )
      (hello_over, (poller_over, tt)) refl tt

hello_world_served_example :
    let ms = call_list (runs "helloworld-api").effects in
    let ns = call_list (custom_manage "helloworld-api" some_turns).effects in
    Sound single (λ qs. times_out none) ms
    × Sound multi (λ qs. shuts none) ms
    × Sound rpc (λ qs. shuts none) ms
    × Sound custom (λ qs. times_out none) ns
    × (left_rpc (after_calls rpc (λ qs. shuts none) new_hello_world_service ms)
        ≡ (if is_stop (last_or stop ms) then crashes else goes_quietly))
    × (left_custom (after_calls custom (λ qs. times_out none) new_hello_world_service ns)
        ≡ (if is_stop (last_or stop ns) then crashes else goes_quietly))
hello_world_served_example =
    hello_world_served service_manager "helloworld-api" some_turns succeeds (λ ns. times_out none)
      (λ ns. shuts none)

-- A request that fails, two that are answered, and the turn that ends the Run.
abbrev poll_turns : List Polling.Turn
poll_turns =
    Polling.fires (get_fails "refused")
    ∷ Polling.fires (answers 200 "map[hello:world]" "{}")
    ∷ Polling.fires (answers 200 "map[hello:world]" "{}")
    ∷ []

run_polling-requests_example :
    (requests (run_polling new_api_polling_service canceled poll_turns).acts ≤ 2)
    × (2 < length poll_turns
        → (run_polling new_api_polling_service canceled poll_turns).finish ≢ waits)
    × (requests (run_polling_rpc new_api_polling_service poll_turns).acts ≤ 3 + failures poll_turns)
run_polling-requests_example = run_polling-requests new_api_polling_service canceled poll_turns

abbrev job_manager : RunUntilSuccessManager
job_manager = new_run_until_success_manager 1000000000 3000000000

-- Fifteen ticks, and nothing is cancelled.
abbrev quiet_moments : List Moment
quiet_moments =
    let five = λ (es : List Moment).
      ticks false ∷ ticks false ∷ ticks false ∷ ticks false ∷ ticks false ∷ es in
    five (five (five []))

startup_job_retried_example :
    (job_runs (call_list (job_trace job_manager "startup-job" quiet_moments).effects) ≤ 4)
    × (15 ≤ length quiet_moments
        → ((job_trace job_manager "startup-job" quiet_moments).status ≡ returned)
          × (AreQuiet quiet_moments
              → job_runs (call_list (job_trace job_manager "startup-job" quiet_moments).effects)
                ≡ 4))
unfolding new_run_until_success_manager
startup_job_retried_example =
    startup_job_retried job_manager "startup-job" quiet_moments (omega arith) (omega arith)
