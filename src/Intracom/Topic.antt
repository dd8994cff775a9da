-- ===== src/Intracom/Topic.antt =====
-- intracom/topic.go: a topic and its broadcaster, which meets each request at its `select`.
pub mod Races
pub mod Running
mod Examples
use rxd.Base.{
  ℕ, ◌≡◌, Bool, true, false, not, String, Option, none, some, List, [], ◌∷◌, if◌then◌else◌,
}
use rxd.Intracom.Subscriber.{SubscriberConfig}
use rxd.Intracom.Broadcast.{
  Broadcaster, start, Request, subscribe, unsubscribe, close_all, Response, subscribed,
  unsubscribed, all_closed, no_response, on_request,
}

pub record TopicConfig : Type 0 where
  pub name : String
  pub err_if_exists : Bool
  pub subscriber_aware : Bool

-- `kind` names the type argument T, and `reference` the object. `requests_open` says that requestC
-- and publishC have not been closed.
pub record Topic (A : Type 0) : Type 0 where
  pub name : String
  pub kind : String
  pub reference : ℕ
  pub closed : Bool
  pub requests_open : Bool
  pub broadcaster : Broadcaster A

unfoldable pub new_topic : {A : Type 0} → String → ℕ → TopicConfig → Topic A
new_topic kind reference conf = record {
  name = conf.name;
  kind = kind;
  reference = reference;
  closed = false;
  requests_open = true;
  broadcaster = start conf.subscriber_aware;
}

-- TopicOption: what NewTopic applies to a topic before it starts the broadcaster. The broadcasters
-- here are SyncBroadcasters; another implementation is the program's own.
abbrev pub TopicOption : Type 0 → Type 0
TopicOption A = Topic A → Topic A

unfoldable pub with_broadcaster : {A : Type 0} → Broadcaster A → TopicOption A
with_broadcaster b t = record t { broadcaster = b }

abbrev options : {A : Type 0} → List (TopicOption A) → Topic A → Topic A
options [] t = t
options (o ∷ os) t = options os (o t)

unfoldable pub new_topic_with :
    {A : Type 0} → String → ℕ → TopicConfig → List (TopicOption A) → Topic A
unfolding new_topic
new_topic_with kind reference conf os = options os (new_topic kind reference conf)

-- Where the two `select`s of a request end: the context is done before the request is sent, or
-- before it is answered (the broadcaster serves it all the same), or the answer arrives.
pub data Wait : Type 0 where
  not_sent not_answered answered : Wait

-- A request's end: given up in one of the selects, answered, or a panic, for a send on a closed
-- channel.
pub data Reply : Type 0 where
  unsent unanswered : Reply
  replies : Response → Reply
  send_panics : Reply

unfoldable pub request : {A : Type 0} → Wait → Topic A → Request → Topic A × Reply
request not_sent t r = (t, unsent)
request not_answered t r =
    if t.requests_open
    then (record t { broadcaster = (on_request t.broadcaster r).0 }, unanswered)
    else (t, send_panics)
request answered t r =
    let (b, response) = on_request t.broadcaster r in
    if t.requests_open then (record t { broadcaster = b }, replies response) else (t, send_panics)

-- What the methods of a topic return: a channel and an error, or an error, or a panic.
pub data Result : Type 0 where
  returns : Option ℕ → Option String → Result
  panicked : Result

abbrev pub subscribe_result : Reply → Result
subscribe_result unsent = returns none (some "subscribe request cancelled while requesting")
subscribe_result unanswered =
    returns none (some "subscribe response cancelled while waiting for response")
subscribe_result (replies (subscribed c e)) = returns (some c) e
subscribe_result (replies r) = returns none none
subscribe_result send_panics = panicked

abbrev pub unsubscribe_result : Reply → Result
unsubscribe_result unsent = returns none (some "unsubscribe request timed out")
unsubscribe_result unanswered = returns none (some "unsubscribe response timed out")
unsubscribe_result (replies (unsubscribed e)) = returns none e
unsubscribe_result (replies r) = returns none none
unsubscribe_result send_panics = panicked

-- Subscribe past its test of `closed`.
unfoldable pub send_subscribe : {A : Type 0} → Wait → Topic A → SubscriberConfig → Topic A × Result
unfolding request
send_subscribe w t conf =
    let (t', reply) = request w t (subscribe conf) in (t', subscribe_result reply)

unfoldable pub topic_subscribe : {A : Type 0} → Wait → Topic A → SubscriberConfig → Topic A × Result
unfolding send_subscribe
topic_subscribe w t conf =
    if t.closed
    then (t, returns none (some "cannot subscribe, topic already closed"))
    else send_subscribe w t conf

-- Unsubscribe past its test of `closed`.
unfoldable pub send_unsubscribe : {A : Type 0} → Wait → Topic A → String → ℕ → Topic A × Result
unfolding request
send_unsubscribe w t consumer channel =
    let (t', reply) = request w t (unsubscribe consumer channel) in (t', unsubscribe_result reply)

unfoldable pub topic_unsubscribe : {A : Type 0} → Wait → Topic A → String → ℕ → Topic A × Result
unfolding send_unsubscribe
topic_unsubscribe w t consumer channel =
    if t.closed
    then (t, returns none (some "cannot unsubscribe, topic already closed"))
    else send_unsubscribe w t consumer channel

-- Close has no `select`: it waits for the broadcaster.
unfoldable pub topic_close : {A : Type 0} → Topic A → Topic A × Option String
topic_close t = if t.closed then (t, some "topic already closed") else (
  record t {
    closed = true;
    requests_open = false;
    broadcaster = (on_request t.broadcaster close_all).0;
  },
  none,
)
