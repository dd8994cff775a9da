-- ===== src/Programs/Polling/Counting.antt =====
-- How often the service polls.
use rxd.Base.{ℕ, ◌+◌, ◌≤◌, ◌<◌, ◌≢◌, List, [], ◌∷◌, ltb, length, arith, Bool-cases, inl, inr}
use rxd.Errors.{GoError}
use rxd.Programs.Polling.{
  ApiPollingService, Response, get_fails, read_fails, decode_fails, answers, Turn, done, states,
  fires, Act, gets, resets, logs, waits, Polls, responded, responded_rpc, poll_loop, run_polling,
  poll_loop_rpc, run_polling_rpc,
}

-- The requests among the acts.
abbrev pub requests : List Act → ℕ
requests [] = 0
requests (gets url ∷ acts) = requests acts + 1
requests (resets d ∷ acts) = requests acts
requests (logs l m ∷ acts) = requests acts

responded-requests :
    (s : ApiPollingService) (r : Response) (again : Polls)
    → requests (responded s r again).acts ≤ requests again.acts + 1
responded-requests s (get_fails e) again = omega arith
responded-requests s (read_fails code e) again = omega arith
responded-requests s (decode_fails code e) again = omega arith
responded-requests s (answers code shown body) again = omega arith

poll_loop-requests :
    (s : ApiPollingService) (ctx_err : GoError) (count : ℕ) (ts : List Turn)
    → count ≤ s.max_poll_count
    → requests (poll_loop s ctx_err count ts).acts + count ≤ s.max_poll_count
unfolding poll_loop
poll_loop-requests s ctx_err count [] h = omega (arith, h)
poll_loop-requests s ctx_err count (done ∷ ts) h = omega (arith, h)
poll_loop-requests s ctx_err count (states ∷ ts) h = omega (arith, h)
poll_loop-requests s ctx_err count (fires r ∷ ts) h =
    elim (Bool-cases (ltb s.max_poll_count (count + 1))) [
      | inl y ↦ rw y (omega (arith, h))
      | inr y ↦
          let ih = poll_loop-requests s ctx_err (count + 1) ts (ground (arith, y)) in
          rw y (omega (arith, ih, responded-requests s r (poll_loop s ctx_err (count + 1) ts)))
    ]

-- More than so many turns of the timer end the run.
responded-waits :
    (s : ApiPollingService) (r : Response) (again : Polls)
    → again.finish ≢ waits
    → (responded s r again).finish ≢ waits
responded-waits s (get_fails e) again h = h
responded-waits s (read_fails code e) again h = λ q. cc
responded-waits s (decode_fails code e) again h = λ q. cc
responded-waits s (answers code shown body) again h = h

poll_loop-ends :
    (s : ApiPollingService) (ctx_err : GoError) (count : ℕ) (ts : List Turn)
    → count ≤ s.max_poll_count
    → s.max_poll_count < count + length ts
    → (poll_loop s ctx_err count ts).finish ≢ waits
unfolding poll_loop
poll_loop-ends s ctx_err count [] le h = absurd (omega (arith, le, h))
poll_loop-ends s ctx_err count (done ∷ ts) le h = λ q. cc
poll_loop-ends s ctx_err count (states ∷ ts) le h = λ q. cc
poll_loop-ends s ctx_err count (fires r ∷ ts) le h =
    elim (Bool-cases (ltb s.max_poll_count (count + 1))) [
      | inl y ↦ rw y (λ q. cc)
      | inr y ↦ rw y (
          responded-waits s r (poll_loop s ctx_err (count + 1) ts)
            (poll_loop-ends s ctx_err (count + 1) ts (ground (arith, y)) (omega (arith, h))))
    ]

-- The turns whose request fails.
abbrev pub failures : List Turn → ℕ
failures [] = 0
failures (fires (get_fails e) ∷ ts) = failures ts + 1
failures (t ∷ ts) = failures ts

poll_loop_rpc-requests :
    (s : ApiPollingService) (count : ℕ) (ts : List Turn)
    → count ≤ s.max_poll_count + 1
    → requests (poll_loop_rpc s count ts).acts + count ≤ s.max_poll_count + 1 + failures ts
unfolding poll_loop_rpc
poll_loop_rpc-requests s count [] h = omega (arith, h)
poll_loop_rpc-requests s count (done ∷ ts) h = omega (arith, h)
poll_loop_rpc-requests s count (states ∷ ts) h = omega (arith, h)
poll_loop_rpc-requests s count (fires r ∷ ts) h = elim (Bool-cases (ltb s.max_poll_count count)) [
  | inl y ↦ rw y (omega (arith, h))
  | inr y ↦
      let room : count ≤ s.max_poll_count = ground (arith, y) in
      rw y (
        answered r (poll_loop_rpc-requests s count ts h)
          (poll_loop_rpc-requests s (count + 1) ts (omega (arith, room))) room)
]
  where
    answered :
        (q : Response)
        → requests (poll_loop_rpc s count ts).acts + count ≤ s.max_poll_count + 1 + failures ts
        → requests (poll_loop_rpc s (count + 1) ts).acts + (count + 1)
          ≤ s.max_poll_count + 1 + failures ts
        → count ≤ s.max_poll_count
        → requests
              (responded_rpc s q (poll_loop_rpc s count ts) (poll_loop_rpc s (count + 1) ts)).acts
            + count
          ≤ s.max_poll_count + 1 + failures (fires q ∷ ts)
    answered (get_fails e) same next room = omega (arith, same)
    answered (read_fails code e) same next room = omega (arith, room)
    answered (decode_fails code e) same next room = omega (arith, room)
    answered (answers code shown body) same next room = omega (arith, next)

-- The poller of multi_service makes at most maxPollCount requests in a Run, failed ones included,
-- and its Run is over once the timer, or anything else, has woken it more often than that. That of
-- multi_service_rpc makes at most one more than maxPollCount, not counting those that fail.
pub run_polling-requests :
    (s : ApiPollingService) (ctx_err : GoError) (ts : List Turn)
    → (requests (run_polling s ctx_err ts).acts ≤ s.max_poll_count)
      × (s.max_poll_count < length ts → (run_polling s ctx_err ts).finish ≢ waits)
      × (requests (run_polling_rpc s ts).acts ≤ s.max_poll_count + 1 + failures ts)
unfolding run_polling run_polling_rpc
run_polling-requests s ctx_err ts = (
  omega (arith, poll_loop-requests s ctx_err 0 ts (omega arith)),
  (λ h. poll_loop-ends s ctx_err 0 ts (omega arith) (omega (arith, h))),
  omega (arith, poll_loop_rpc-requests s 0 ts (omega arith)),
)
