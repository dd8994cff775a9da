-- ===== src/Intracom/Topic/Running.antt =====
-- intracom/topic.go and broadcast_sync.go: a topic, its broadcaster, its one Close, and the callers
-- of its other methods, each a step at a time.
pub mod Quiet
pub mod Settling
pub mod Waiting
pub mod Late
use rxd.Base.{
  ℕ, ◌+◌, ◌-◌, Bool, true, false, String, List, [], ◌∷◌, Option, none, some, ltb, if◌then◌else◌,
}
use rxd.Intracom.Channel.{Moment}
use rxd.Intracom.Subscriber.{SubscriberConfig}
use rxd.Intracom.Broadcast.{
  Broadcaster, start, Request, subscribe, unsubscribe, close_all, unknown, on_request, Pass, goes,
  blocked, returns, panicked, pass, message,
}

-- The broadcaster's goroutine: at its `select`, blocked for good in a handler whose consumer does
-- not receive, returned, or panicked.
pub data Stage : Type 0 where
  serving in_handler gone crashed : Stage

-- Where the one Close that finds the topic open stands: not called, past its Swap, past the send
-- of its request, past the answer, and past the close of requestC and that of publishC.
pub data Closing : Type 0 where
  uncalled swapped sent replied requests_closed finished : Closing

-- `queue` is the buffer of requestC, with room for one. `admitted` counts the calls of Subscribe and
-- Unsubscribe that are past their test of `closed` and before their send. `send_panicked`: one of
-- them has sent on the closed channel.
pub record Running (A : Type 0) : Type 0 where
  pub broadcaster : Broadcaster A
  pub stage : Stage
  pub queue : Option Request
  pub closing : Closing
  pub admitted : ℕ
  pub send_panicked : Bool

unfoldable pub running : {A : Type 0} → Bool → Running A
running aware = record {
  broadcaster = start aware;
  stage = serving;
  queue = none;
  closing = uncalled;
  admitted = 0;
  send_panicked = false;
}

-- The test of `closed` in Subscribe and Unsubscribe: a call that it refuses changes nothing.
unfoldable pub test : {A : Type 0} → Closing → Running A → Running A
test uncalled t = record t { admitted = t.admitted + 1 }
test _ t = t

-- What a caller sends.
pub data Asked : Type 0 where
  subscribing : SubscriberConfig → Asked
  unsubscribing : String → ℕ → Asked

abbrev pub asked : Asked → Request
asked (subscribing conf) = subscribe conf
asked (unsubscribing consumer channel) = unsubscribe consumer channel

-- The send of an admitted caller, which waits while the buffer is full.
abbrev put : {A : Type 0} → Option Request → Request → Running A → Running A
put none r t = record t { queue = some r; admitted = t.admitted - 1 }
put (some q) r t = t

unfoldable pub ask : {A : Type 0} → Closing → Request → Running A → Running A
ask requests_closed r t = record t { send_panicked = true; admitted = t.admitted - 1 }
ask finished r t = record t { send_panicked = true; admitted = t.admitted - 1 }
ask _ r t = put t.queue r t

-- Close goes on by one step; past its send it waits for the answer.
unfoldable pub close_on : {A : Type 0} → Closing → Option Request → Running A → Running A
close_on uncalled q t = record t { closing = swapped }
close_on swapped none t = record t { queue = some close_all; closing = sent }
close_on replied q t = record t { closing = requests_closed }
close_on requests_closed q t = record t { closing = finished }
close_on _ q t = t

-- Only a close request is answered to Close.
abbrev pub answer : Request → Closing → Closing
answer close_all c = replied
answer _ c = c

-- The broadcaster takes a request, whether or not requestC is closed behind it.
unfoldable pub take_request : {A : Type 0} → Stage → Option Request → Running A → Running A
unfolding on_request
take_request serving (some r) t = record t {
  broadcaster = (on_request t.broadcaster r).0;
  queue = none;
  closing = answer r t.closing;
}
take_request _ _ t = t

abbrev pub passed : {A : Type 0} → Running A → Pass A → Running A
passed t (goes b _) = record t { broadcaster = b }
passed t (blocked b) = record t { broadcaster = b; stage = in_handler }
passed t returns = record t { stage = gone }
passed t panicked = record t { stage = crashed }

-- It takes a message, while publishC is open.
unfoldable pub take_message :
    {A : Type 0} → Stage → Closing → A → (String → List Moment) → Running A → Running A
unfolding pass
take_message serving finished x ms t = t
take_message serving _ x ms t = passed t (pass t.broadcaster (message x ms))
take_message _ c x ms t = t

-- It finds requestC closed and empty, or publishC closed while it broadcasts.
unfoldable pub see_closed :
    {A : Type 0} → Stage → Closing → Option Request → (broadcasting : Bool) → Running A → Running A
see_closed serving requests_closed none b t = record t { stage = gone }
see_closed serving finished none b t = record t { stage = gone }
see_closed serving finished (some r) true t = record t { stage = gone }
see_closed _ _ _ _ t = t

-- A step of a caller, of Close, or of the broadcaster; one that is not ready changes nothing.
pub data Action (A : Type 0) : Type 0 where
  tests gives_up closes takes_request sees_closed : Action A
  asks : Asked → Action A
  takes_message : A → (String → List Moment) → Action A

unfoldable pub act : {A : Type 0} → Running A → Action A → Running A
unfolding test ask close_on take_request take_message see_closed
act t tests = test t.closing t
act t gives_up = record t { admitted = t.admitted - 1 }
act t closes = close_on t.closing t.queue t
act t takes_request = take_request t.stage t.queue t
act t sees_closed = see_closed t.stage t.closing t.queue t.broadcaster.broadcasting t
act t (asks r) = if ltb 0 t.admitted then ask t.closing (asked r) t else t
act t (takes_message x ms) = take_message t.stage t.closing x ms t

unfoldable pub acts : {A : Type 0} → Running A → List (Action A) → Running A
unfolding act
acts t [] = t
acts t (a ∷ rest) = acts (act t a) rest
