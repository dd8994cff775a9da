-- ===== src/Intracom/Subscriber.antt =====
-- intracom/subscriber.go and subscriber_config.go. `reference` is the identity of the channel, as
-- `==` compares channels.
use rxd.Base.{ℕ, Bool, true, false, String, List, [], Option, none, some, if◌then◌else◌}
use rxd.Intracom.Channel.{Chan, Moment}
use rxd.Intracom.Buffer.{
  BufferPolicy, drop_none, drop_oldest_after_timeout, drop_newest_after_timeout, Handled, ends,
  blocks, handle,
}

-- `policy` is none where the source's interface is nil.
pub record SubscriberConfig : Type 0 where
  pub consumer_group : String
  pub err_if_exists : Bool
  pub buffer_size : ℕ
  pub policy : Option BufferPolicy
  pub drop_timeout : ℕ

pub record Subscriber (A : Type 0) : Type 0 where
  pub consumer_group : String
  pub policy : Option BufferPolicy
  pub reference : ℕ
  pub channel : Chan A
  pub closed : Bool

-- The `switch` of newSubscriber on the policy's type: its first case does not set bufferPolicy.
unfoldable pub subscriber_policy : Option BufferPolicy → Option BufferPolicy
subscriber_policy (some drop_oldest_after_timeout) = none
subscriber_policy (some drop_newest_after_timeout) = some drop_newest_after_timeout
subscriber_policy none = some drop_none
subscriber_policy (some p) = some p

unfoldable pub new_subscriber : {A : Type 0} → SubscriberConfig → ℕ → Subscriber A
new_subscriber conf reference = record {
  consumer_group = conf.consumer_group;
  policy = subscriber_policy conf.policy;
  reference = reference;
  channel = record { size = conf.buffer_size; buffer = []; taken = []; dropped = [] };
  closed = false;
}

abbrev pub subscriber_already_closed : String
subscriber_already_closed = "subscriber already closed"

-- How Send ends: with the handler's error, blocked in the handler, or by a panic, which a call of a
-- nil handler is.
pub data Sent (A : Type 0) : Type 0 where
  sends : Option String → Subscriber A → Sent A
  hangs : Subscriber A → Sent A
  panics : Sent A

abbrev from_handled : {A : Type 0} → Subscriber A → Handled A → Sent A
from_handled s (ends e c ms) = sends e (record s { channel = c })
from_handled s (blocks c) = hangs (record s { channel = c })

abbrev with_policy : {A : Type 0} → Subscriber A → A → List Moment → Option BufferPolicy → Sent A
with_policy s x ms none = panics
with_policy s x ms (some p) = from_handled s (handle x p s.channel ms)

unfoldable pub send : {A : Type 0} → Subscriber A → A → List Moment → Sent A
send s x ms =
    if s.closed then sends (some subscriber_already_closed) s else with_policy s x ms s.policy

-- Close sets the flag and closes the channel; on a closed subscriber it returns an error.
unfoldable pub close : {A : Type 0} → Subscriber A → Subscriber A × Option String
close s =
    if s.closed then (s, some subscriber_already_closed) else (record s { closed = true }, none)
