-- ===== src/Intracom/Examples.antt =====
-- Channels, broadcasters and topics on small inputs.
use rxd.Base.{
  String, Dict, Entries, insert, ◌⊎◌, ℕ, ◌≡◌, refl, true, false, List, [], ◌∷◌, ◌++◌, lookup, none,
  some, arith,
}
use rxd.Intracom.Channel.{Chan, Moment, Case}
use rxd.Intracom.Buffer.{
  drop_none, drop_newest, drop_oldest_after_timeout, drop_newest_after_timeout, handle,
}
use rxd.Intracom.Buffer.Delivery.{kept, Post}
use rxd.Intracom.Buffer.InOrder.{IsWithin, handle_in_order}
use rxd.Intracom.Buffer.Guarantees.{SentOrStopped, SentOrSkipped, IsUnchanged, handle_keeps_older}
use rxd.Intracom.Subscriber.{SubscriberConfig, Subscriber}
use rxd.Intracom.Broadcast.{
  Broadcaster, start, subscribe, unsubscribe, subscribed, unsubscribed, does_not_match, on_request,
  message, pass, panicked, goes, blocked, no_response, Response, on_subscribe, enable,
}
use rxd.Intracom.Broadcast.Invariant.{IsSound, start-IsSound}
use rxd.Intracom.Broadcast.Requests.{on_request-IsSound}
use rxd.Intracom.Broadcast.Messages.{Leaves}
use rxd.Intracom.Broadcast.Delivering.{Returns, EachSent, pass_delivers}
use rxd.Intracom.Broadcast.Panics.{drop_oldest_after_timeout_panics}
use rxd.Intracom.Broadcast.Groups.{unsubscribe-subscribe}
use rxd.Intracom.Topic.{Topic, TopicConfig, new_topic, answered, not_answered}
use rxd.Intracom.Topic.Races.{Call, subscribing, closing, calls, NoPanic, IsRunning, calls_return}

abbrev full : Chan ℕ
full = record { size = 2; buffer = 1 ∷ 2 ∷ []; taken = []; dropped = [] }

abbrev unbuffered : Chan ℕ
unbuffered = record { size = 0; buffer = []; taken = []; dropped = [] }

abbrev idle : Moment
idle = record { takes = 0; waits = false; stopped = false; fired = false; prefers = Case.op }

abbrev reading : Moment
reading = record { takes = 1; waits = false; stopped = false; fired = true; prefers = Case.op }

abbrev moments : List Moment
moments = idle ∷ reading ∷ []

handle_in_order_example :
    Post
      (λ e d. IsWithin (kept full ++ 3 ∷ []) 2 d)
      (IsWithin (kept full ++ 3 ∷ []) 2)
      (handle 3 drop_oldest_after_timeout full moments)
handle_in_order_example = handle_in_order 3 drop_oldest_after_timeout full moments (omega arith)

handle_keeps_older_example :
    Post (SentOrStopped 3 full) (IsUnchanged full) (handle 3 drop_none full moments)
    × Post (SentOrSkipped 3 full) (IsUnchanged full) (handle 3 drop_newest full moments)
    × Post
        (SentOrSkipped 3 full)
        (IsUnchanged full)
        (handle 3 drop_newest_after_timeout full moments)
handle_keeps_older_example = handle_keeps_older 3 full moments

abbrev conf : SubscriberConfig
conf = record {
  consumer_group = "g";
  err_if_exists = false;
  buffer_size = 1;
  policy = none;
  drop_timeout = 0;
}

abbrev fresh : Broadcaster ℕ
fresh = start true

abbrev one_subscriber : Broadcaster ℕ
one_subscriber = (on_request fresh (subscribe conf)).0

one_subscriber-IsSound : IsSound one_subscriber
one_subscriber-IsSound = on_request-IsSound fresh (subscribe conf) (start-IsSound true)

on_request-IsSound_example : IsSound (on_request one_subscriber (unsubscribe "g" 0)).0
on_request-IsSound_example =
    on_request-IsSound one_subscriber (unsubscribe "g" 0) one_subscriber-IsSound

one_subscriber_broadcasting : one_subscriber.broadcasting ≡ true
unfolding on_request on_subscribe enable start lookup insert
one_subscriber_broadcasting = refl

pass_delivers_example :
    let ms = λ (k : String). idle ∷ [] in
    let p = pass one_subscriber (message 5 ms) in
    (Entries (Returns 5 ms) one_subscriber.subscribers
      → (n : Dict (Subscriber ℕ)) × (p
          ≡ goes (record one_subscriber { subscribers = n; last_message = some 5 }) no_response)
        × EachSent 5 ms one_subscriber.subscribers n)
    × ((b : Broadcaster ℕ) (r : Response)
        → p ≡ goes b r
        → Entries (Returns 5 ms) one_subscriber.subscribers)
    × Leaves IsSound p
pass_delivers_example =
    pass_delivers one_subscriber 5 (λ k. idle ∷ []) one_subscriber_broadcasting
      one_subscriber-IsSound

-- The group h asks for the policy beside the group g.
abbrev faulty_conf : SubscriberConfig
faulty_conf = record conf { consumer_group = "h"; policy = some drop_oldest_after_timeout }

faulty_is_new : lookup "h" one_subscriber.subscribers ≡ none
unfolding on_request on_subscribe enable start lookup insert
faulty_is_new = refl

faulty_broadcasting : (on_request one_subscriber (subscribe faulty_conf)).0.broadcasting ≡ true
unfolding on_request on_subscribe enable start lookup insert
faulty_broadcasting = refl

drop_oldest_after_timeout_panics_example :
    let p = pass (on_request one_subscriber (subscribe faulty_conf)).0 (message 5 (λ k. moments)) in
    (p ≡ panicked) ⊎ ((b : Broadcaster ℕ) × (p ≡ blocked b))
drop_oldest_after_timeout_panics_example =
    drop_oldest_after_timeout_panics one_subscriber faulty_conf 5 (λ k. moments) refl faulty_is_new
      faulty_broadcasting

unsubscribe-subscribe_example :
    let (c, r) = on_request fresh (subscribe conf) in
    let (d, q) = on_request c (unsubscribe "g" 0) in
    (r ≡ subscribed 0 none)
    × (on_request c (unsubscribe "g" 4) ≡ (c, unsubscribed (some (does_not_match "g"))))
    × (q ≡ unsubscribed none)
    × (lookup "g" d.subscribers ≡ none)
    × (d.closed ≡ 0 ∷ [])
unfolding start
unsubscribe-subscribe_example =
    unsubscribe-subscribe fresh conf 4 (start-IsSound true) (unfold lookup in refl)
      (λ e. omega (arith, e))

abbrev topic_conf : TopicConfig
topic_conf = record { name = "news"; err_if_exists = true; subscriber_aware = true }

abbrev news : Topic ℕ
news = new_topic "int" 0 topic_conf

news-IsRunning : IsRunning news
unfolding new_topic
news-IsRunning = record { sound = start-IsSound true; open_while_open = refl }

abbrev some_calls : List Call
some_calls = subscribing not_answered conf ∷ closing ∷ subscribing answered conf ∷ []

calls_return_example : NoPanic (calls news some_calls).1 × IsRunning (calls news some_calls).0
calls_return_example = calls_return news some_calls news-IsRunning
