-- ===== src/Intracom/Broadcast.antt =====
-- intracom/broadcast_sync.go and request.go: SyncBroadcaster.Broadcast as a function of its state
-- and of what its `select` receives.
pub mod Invariant
pub mod Messages
pub mod Delivering
pub mod Panics
pub mod Groups
pub mod Requests
use Prim.Native.String
use rxd.Base.{
  ℕ, ◌+◌, Bool, true, false, ◌&&◌, not, String, List, [], ◌∷◌, ◌++◌, Dict, lookup, insert, delete,
  length, ltb, ◌==◌, Option, none, some, if◌then◌else◌,
}
use rxd.Intracom.Channel.{Chan, Moment}
use rxd.Intracom.Subscriber.{
  SubscriberConfig, Subscriber, new_subscriber, Sent, sends, hangs, panics, send, close,
}

-- The variables of Broadcast. recv is the broadcast channel exactly while `broadcasting` holds:
-- the two are set together. `next` is the identity of the next channel made, and `closed` lists the
-- channels that the broadcaster has closed.
pub record Broadcaster (A : Type 0) : Type 0 where
  pub subscriber_aware : Bool
  pub subscribers : Dict (Subscriber A)
  pub broadcasting : Bool
  pub last_message : Option A
  pub next : ℕ
  pub closed : List ℕ

unfoldable pub start : {A : Type 0} → Bool → Broadcaster A
start aware = record {
  subscriber_aware = aware;
  subscribers = [];
  broadcasting = not aware;
  last_message = none;
  next = 0;
  closed = [];
}

-- What arrives on the request channel. The channel of an unsubscription is given by its identity.
pub data Request : Type 0 where
  subscribe : SubscriberConfig → Request
  unsubscribe : String → ℕ → Request
  close_all unknown : Request

-- What goes out on the request's response channel: a channel and an error, an error, or the empty
-- closeResponse.
pub data Response : Type 0 where
  subscribed : ℕ → Option String → Response
  unsubscribed : Option String → Response
  all_closed no_response : Response

abbrev pub already_exists : String → String
already_exists group = String.◌++◌ "consumer group '" (String.◌++◌ group "' already exists")

abbrev pub does_not_match : String → String
does_not_match group = String.◌++◌ "consumer group channel'" (String.◌++◌ group "' does not match")

-- Under SubscriberAware a subscription turns broadcasting on.
unfoldable pub enable : {A : Type 0} → Broadcaster A → Broadcaster A
enable b =
    if b.subscriber_aware && (not b.broadcasting && ltb 0 (length b.subscribers))
    then record b { broadcasting = true }
    else b

-- Under SubscriberAware the last unsubscription turns broadcasting off.
unfoldable pub disable : {A : Type 0} → Broadcaster A → Broadcaster A
disable b =
    if b.subscriber_aware && (b.broadcasting && ltb (length b.subscribers) 1)
    then record b { broadcasting = false }
    else b

-- The send of the last message to a new subscriber: a `select` with a default, at a channel that
-- nobody receives from yet.
unfoldable pub replay : {A : Type 0} → Option A → Subscriber A → Subscriber A
replay none s = s
replay (some x) s =
    if ltb (length s.channel.buffer) s.channel.size
    then record s { channel = record (s.channel) { buffer = s.channel.buffer ++ x ∷ [] } }
    else s

unfoldable pub on_subscribe :
    {A : Type 0}
    → Broadcaster A
    → SubscriberConfig
    → Option (Subscriber A)
    → Broadcaster A × Response
unfolding enable
on_subscribe b conf (some s) =
    if conf.err_if_exists
    then (b, subscribed s.reference (some (already_exists conf.consumer_group)))
    else (enable b, subscribed s.reference none)
on_subscribe b conf none =
    let s = replay b.last_message (new_subscriber conf b.next) in
    (
      enable (record b {
        subscribers = insert conf.consumer_group s b.subscribers;
        next = b.next + 1;
      }),
      subscribed b.next none,
    )

-- sub.Close() and what follows it; only a close that succeeds closes the channel.
abbrev after_close : {A : Type 0} → Broadcaster A → ℕ → Option String → Broadcaster A × Response
after_close b reference (some e) = (b, unsubscribed (some e))
after_close b reference none =
    (disable (record b { closed = reference ∷ b.closed }), unsubscribed none)

unfoldable pub on_unsubscribe :
    {A : Type 0} → Broadcaster A → String → ℕ → Option (Subscriber A) → Broadcaster A × Response
unfolding disable
on_unsubscribe b consumer reference none = (disable b, unsubscribed none)
on_unsubscribe b consumer reference (some s) =
    if s.reference == reference
    then after_close (record b { subscribers = delete consumer b.subscribers }) s.reference
        (close s).1
    else (b, unsubscribed (some (does_not_match consumer)))

-- The loop of a close request over the subscribers: each is deleted and closed.
unfoldable pub close_subscribers : {A : Type 0} → Dict (Subscriber A) → List ℕ → List ℕ
close_subscribers [] closed = closed
close_subscribers ((k, s) ∷ subs) closed =
    close_subscribers subs (elim (close s).1 [ none ↦ s.reference ∷ closed | some e ↦ closed ])

unfoldable pub on_request : {A : Type 0} → Broadcaster A → Request → Broadcaster A × Response
unfolding on_subscribe on_unsubscribe close_subscribers
on_request b (subscribe conf) = on_subscribe b conf (lookup conf.consumer_group b.subscribers)
on_request b (unsubscribe consumer reference) =
    on_unsubscribe b consumer reference (lookup consumer b.subscribers)
on_request b close_all = (
  record b {
    broadcasting = false;
    subscribers = [];
    closed = close_subscribers b.subscribers b.closed;
  },
  all_closed,
)
on_request b unknown = (b, no_response)

-- What a broadcast does: the subscribers it has reached, and where it stops if a handler blocks or
-- panics.
pub data Delivered (A : Type 0) : Type 0 where
  reached stuck : Dict (Subscriber A) → Delivered A
  crashed : Delivered A

abbrev pub put : {A : Type 0} → String → Subscriber A → Delivered A → Delivered A
put k s (reached subs) = reached ((k, s) ∷ subs)
put k s (stuck subs) = stuck ((k, s) ∷ subs)
put k s crashed = crashed

-- `for _, sub := range subscribers`: an error of Send is passed over. `ms` gives each consumer's
-- moments.
unfoldable pub deliver :
    {A : Type 0} → A → (String → List Moment) → Dict (Subscriber A) → Delivered A
deliver x ms [] = reached []
deliver x ms ((k, s) ∷ subs) =
    let rest = deliver x ms subs in
    elim (send s x (ms k)) [
      | sends e s' ↦ put k s' rest
      | hangs s' ↦ stuck ((k, s') ∷ subs)
      | panics ↦ crashed
    ]

-- What the `select` of Broadcast receives.
pub data Event (A : Type 0) : Type 0 where
  message : A → (String → List Moment) → Event A
  publish_closed requests_closed : Event A
  request : Request → Event A

-- One pass of the loop: it goes on, returns, blocks in a handler, or panics. A message is received
-- only while broadcasting; otherwise the case is not ready, and nothing happens.
pub data Pass (A : Type 0) : Type 0 where
  goes : Broadcaster A → Response → Pass A
  blocked : Broadcaster A → Pass A
  returns panicked : Pass A

abbrev pub after_delivery : {A : Type 0} → Broadcaster A → A → Delivered A → Pass A
after_delivery b x (reached subs) =
    goes (record b { subscribers = subs; last_message = some x }) no_response
after_delivery b x (stuck subs) = blocked (record b { subscribers = subs })
after_delivery b x crashed = panicked

unfoldable pub pass : {A : Type 0} → Broadcaster A → Event A → Pass A
unfolding deliver on_request
pass b (message x ms) =
    if b.broadcasting then after_delivery b x (deliver x ms b.subscribers) else goes b no_response
pass b publish_closed = if b.broadcasting then returns else goes b no_response
pass b requests_closed = returns
pass b (request r) = let (b', response) = on_request b r in goes b' response
