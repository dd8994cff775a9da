-- ===== src/Intracom/Topic/Examples.antt =====
-- A topic and its Close, step by step.
use rxd.Base.{ℕ, ◌≡◌, refl, true, false, List, [], ◌∷◌, insert, lookup, none, some, Mem, arith}
use rxd.Intracom.Buffer.{handle, handle_drop_none}
use rxd.Intracom.Subscriber.{SubscriberConfig, new_subscriber, subscriber_policy, send}
use rxd.Intracom.Broadcast.{close_all, start, on_request, enable, replay, pass, deliver}
use rxd.Intracom.Topic.Running.{
  Running, running, subscribing, Stage, in_handler, Action, tests, closes, takes_request,
  sees_closed, asks, takes_message, act, acts, test, ask, close_on, take_request, take_message,
}
use rxd.Intracom.Topic.Running.Quiet.{IsAnswered}
use rxd.Intracom.Topic.Running.Settling.{IsOver, closing_steps, close_settles}
use rxd.Intracom.Topic.Running.Late.{late_subscriber_stays}
use rxd.Intracom.Broadcast.Invariant.{IsSound, start-IsSound}
use rxd.Intracom.Broadcast.Requests.{on_request-IsSound}

abbrev conf : SubscriberConfig
conf = record {
  consumer_group = "g";
  err_if_exists = false;
  buffer_size = 0;
  policy = none;
  drop_timeout = 0;
}

-- One subscriber, and then the Swap of Close.
abbrev opening : List (Action ℕ)
opening = tests ∷ asks (subscribing conf) ∷ takes_request ∷ closes ∷ []

abbrev swapping : Running ℕ
swapping = acts (running false) opening

close_settles_example :
    let u = acts swapping closing_steps in
    (u.send_panicked ≡ false)
    × (IsAnswered u.closing → (u.queue ≡ none) × (u.broadcaster.subscribers ≡ []))
    × (swapping.stage ≡ Stage.serving → IsOver (acts swapping closing_steps))
unfolding acts act running test ask close_on take_request on_request
close_settles_example = close_settles swapping closing_steps refl refl refl

-- The subscriber does not receive, and its policy is to wait.
abbrev blocking : Running ℕ
blocking = acts swapping (takes_message 7 (λ k. []) ∷ [])

blocking_stage : blocking.stage ≡ in_handler
unfolding acts act running test ask close_on take_request on_request take_message pass deliver send
    handle insert lookup enable start replay new_subscriber subscriber_policy handle_drop_none
blocking_stage = refl

-- A caller passes its test, and Close gets its answer.
abbrev racing : Running ℕ
racing = acts (running false) (tests ∷ closes ∷ closes ∷ takes_request ∷ [])

racing-IsSound : IsSound racing.broadcaster
unfolding acts act running test close_on take_request
racing-IsSound = on_request-IsSound (start false) close_all (start-IsSound false)

-- The rest of Close, the broadcaster's end, and another late caller.
abbrev rest : List (Action ℕ)
rest = closes ∷ tests ∷ closes ∷ sees_closed ∷ []

late_subscriber_stays_example :
    let u = acts racing (asks (subscribing conf) ∷ takes_request ∷ []) in
    (lookup "g" u.broadcaster.subscribers
      ≡ some (replay racing.broadcaster.last_message (new_subscriber conf racing.broadcaster.next)))
    × IsOver (acts u (closes ∷ closes ∷ sees_closed ∷ []))
    × (¬ Mem racing.broadcaster.next (acts u rest).broadcaster.closed)
    × ((acts racing (closes ∷ asks (subscribing conf) ∷ [])).send_panicked ≡ true)
unfolding acts act running test close_on take_request on_request start lookup
late_subscriber_stays_example =
    late_subscriber_stays racing conf rest racing-IsSound refl refl refl (omega arith) refl tt
