-- ===== src/Programs/Polling.antt =====
-- The APIPollingService of examples/multi_service and multi_service_rpc.
pub mod Counting
use Prim.Native.String.{◌++◌}
use rxd.Base.{
  ℕ, ◌+◌, ◌*◌, ◌≡◌, String, Bool, true, false, Option, none, some, List, [], ◌∷◌, ltb,
  if◌then◌else◌,
}
use rxd.Errors.{GoError, plain, lifecycle_done}
use rxd.Log.Level.{Level, info, debug, error}
use rxd.Log.Text.{decimal}

pub record ApiPollingService : Type 0 where
  pub api_base : String
  pub retry_duration : ℕ
  pub max_poll_count : ℕ

abbrev second : ℕ
second = 1000000000

abbrev polling_service : ℕ → ApiPollingService
polling_service max = record {
  api_base = "http://localhost:8000";
  retry_duration = 10000000000;
  max_poll_count = max;
}

-- NewAPIPollingService of the two programs.
abbrev pub new_api_polling_service : ApiPollingService
new_api_polling_service = polling_service 2

abbrev pub new_api_polling_service_rpc : ApiPollingService
new_api_polling_service_rpc = polling_service 5

-- How a request ends: Get fails, or answers with a status and then reading or decoding the body
-- fails, or it is printed as `shown` and `body`.
pub data Response : Type 0 where
  get_fails : String → Response
  read_fails : ℕ → String → Response
  decode_fails : ℕ → String → Response
  answers : ℕ → (shown body : String) → Response

-- What the select of Run receives.
pub data Turn : Type 0 where
  done : Turn
  states : Turn
  fires : Response → Turn

-- What Run does: requests, settings of the timer, and lines of the log.
pub data Act : Type 0 where
  gets : String → Act
  resets : ℕ → Act
  logs : Level → String → Act

-- How Run ends: with the error that it returns, or it still waits.
pub data End : Type 0 where
  returns : Option GoError → End
  waits : End

pub record Polls : Type 0 where
  pub acts : List Act
  pub finish : End

abbrev acting : List Act → Polls → Polls
acting [] p = p
acting (a ∷ acts) p =
    let rest = acting acts p in record { acts = a ∷ rest.acts; finish = rest.finish }

abbrev stops : List Act → Option GoError → Polls
stops acts e = record { acts = acts; finish = returns e }

abbrev request : ApiPollingService → Act
request s = gets (s.api_base ++ "/api")

-- multi_service: after the count and the request. `again` is the next pass.
abbrev responded : ApiPollingService → Response → Polls → Polls
responded s (get_fails e) again =
    acting
      (request s ∷ resets s.retry_duration ∷ logs error ("error making request to API: " ++ e) ∷ [])
      again
responded s (read_fails code e) again =
    stops (request s ∷ logs error ("error reading response body: " ++ e) ∷ []) (some (plain e))
responded s (decode_fails code e) again =
    stops (request s ∷ logs error ("error unmarshalling response body: " ++ e) ∷ [])
      (some (plain e))
responded s (answers code shown body) again =
    acting
      (request s
        ∷ logs info ("received response from the API: " ++ shown)
        ∷ resets s.retry_duration
        ∷ [])
      again

abbrev at_maximum : Act
at_maximum = logs info "reached maximum poll count, stopping"

-- The loop of Run in multi_service, which counts before the request. `ctx_err` is ctx.Err().
unfoldable pub poll_loop : ApiPollingService → GoError → ℕ → List Turn → Polls
poll_loop s ctx_err count [] = record { acts = []; finish = waits }
poll_loop s ctx_err count (done ∷ ts) = stops [] (some ctx_err)
poll_loop s ctx_err count (states ∷ ts) = stops [] none
poll_loop s ctx_err count (fires r ∷ ts) =
    let again = poll_loop s ctx_err (count + 1) ts in
    if ltb s.max_poll_count (count + 1)
    then stops (at_maximum ∷ []) (some lifecycle_done)
    else responded s r again

unfoldable pub run_polling : ApiPollingService → GoError → List Turn → Polls
unfolding poll_loop
run_polling s ctx_err ts =
    acting (logs info "entered run state" ∷ resets second ∷ logs info "starting to poll" ∷ [])
      (poll_loop s ctx_err 0 ts)

-- multi_service_rpc: it counts after an answer. `same` and `next` are the next pass at the same
-- count and at one more.
abbrev responded_rpc : ApiPollingService → Response → Polls → Polls → Polls
responded_rpc s (get_fails e) same next = acting (request s ∷ resets s.retry_duration ∷ []) same
responded_rpc s (read_fails code e) same next =
    stops (request s ∷ logs info ("received response from the API: " ++ decimal code) ∷ [])
      (some (plain e))
responded_rpc s (decode_fails code e) same next =
    stops (request s ∷ logs info ("received response from the API: " ++ decimal code) ∷ [])
      (some (plain e))
responded_rpc s (answers code shown body) same next =
    acting
      (request s
        ∷ logs info ("received response from the API: " ++ decimal code)
        ∷ logs debug ("response body: " ++ body)
        ∷ resets (10 * second)
        ∷ [])
      next

unfoldable pub poll_loop_rpc : ApiPollingService → ℕ → List Turn → Polls
poll_loop_rpc s count [] = record { acts = []; finish = waits }
poll_loop_rpc s count (done ∷ ts) = stops [] none
poll_loop_rpc s count (states ∷ ts) = stops [] none
poll_loop_rpc s count (fires r ∷ ts) =
    let same = poll_loop_rpc s count ts in
    let next = poll_loop_rpc s (count + 1) ts in
    if ltb s.max_poll_count count then stops (at_maximum ∷ []) none else responded_rpc s r same next

unfoldable pub run_polling_rpc : ApiPollingService → List Turn → Polls
unfolding poll_loop_rpc
run_polling_rpc s ts =
    acting (logs debug "entered run state" ∷ resets second ∷ logs info "starting to poll" ∷ [])
      (poll_loop_rpc s 0 ts)
