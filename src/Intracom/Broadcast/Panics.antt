-- ===== src/Intracom/Broadcast/Panics.antt =====
-- A subscriber without a policy.
use rxd.Base.{
  ◌≡◌, ◌⊎◌, inl, inr, refl, sym, ap, ◌∙◌, true, false, String, List, lookup, lookup-insert_self,
  Entries-lookup, Option, none, some, arith,
}
use rxd.Intracom.Channel.{Moment}
use rxd.Intracom.Buffer.{drop_oldest_after_timeout}
use rxd.Intracom.Subscriber.{
  sends, panics, send, Subscriber, SubscriberConfig, new_subscriber, subscriber_policy,
}
use rxd.Intracom.Broadcast.{
  Broadcaster, subscribe, Delivered, reached, stuck, crashed, deliver, after_delivery, message,
  Pass, blocked, panicked, pass, enable, replay, on_request, on_subscribe,
}
use rxd.Intracom.Broadcast.Delivering.{Returns, deliver-Returns}

pub enable-subscribers : {A : Type 0} (b : Broadcaster A) → (enable b).subscribers ≡ b.subscribers
unfolding enable
enable-subscribers b = ground arith

replay-policy :
    {A : Type 0} (last : Option A) (s : Subscriber A)
    → ((replay last s).policy ≡ s.policy) × ((replay last s).closed ≡ s.closed)
unfolding replay
replay-policy none s = (refl, refl)
replay-policy (some y) s = ground arith

-- The subscriber that a subscription to a new group makes.
pub subscribed_new :
    {A : Type 0} (b : Broadcaster A) (conf : SubscriberConfig)
    → lookup conf.consumer_group b.subscribers ≡ none
    → lookup conf.consumer_group (on_request b (subscribe conf)).0.subscribers
      ≡ some (replay b.last_message (new_subscriber conf b.next))
unfolding on_request on_subscribe
subscribed_new b conf h =
    let s = replay b.last_message (new_subscriber conf b.next) in
    rw h (
      ap (lookup conf.consumer_group) (enable-subscribers _)
      ∙ lookup-insert_self conf.consumer_group s b.subscribers)

no_policy-panics :
    {A : Type 0} (s : Subscriber A) (x : A) (ms : List Moment)
    → s.policy ≡ none
    → s.closed ≡ false
    → send s x ms ≡ panics
unfolding send
no_policy-panics s x ms p c = rw (c, p) refl

-- A new subscriber that asked for the policy: its Send panics.
made_silent :
    {A : Type 0} (b : Broadcaster A) (conf : SubscriberConfig) (x : A) (ms : List Moment)
    → conf.policy ≡ some drop_oldest_after_timeout
    → send (replay b.last_message (new_subscriber conf b.next)) x ms ≡ panics
unfolding new_subscriber subscriber_policy
made_silent b conf x ms h =
    let s = new_subscriber conf b.next in
    let (p, c) = replay-policy b.last_message s in
    no_policy-panics (replay b.last_message s) x ms (p ∙ ap subscriber_policy h) c

abbrev Ended : {A : Type 0} → Pass A → Type 0
Ended {A} p = (p ≡ panicked) ⊎ ((b' : Broadcaster A) × (p ≡ blocked b'))

-- A subscriber whose Send panics is among those of a message.
unreached :
    {A : Type 0} (b : Broadcaster A) (k : String) (s : Subscriber A) (x : A)
    (ms : String → List Moment)
    → lookup k b.subscribers ≡ some s
    → send s x (ms k) ≡ panics
    → (d : Delivered A) → deliver x ms b.subscribers ≡ d
    → Ended (after_delivery b x d)
unreached b k s x ms found silent (reached n) q =
    let (e, t, r) =
      Entries-lookup (Returns x ms) k s b.subscribers (deliver-Returns x ms b.subscribers n q)
        found in
    let bad : sends e t ≡ panics = sym r ∙ silent in cc (bad)
unreached b k s x ms found silent (stuck n) q = inr (record b { subscribers = n }, refl)
unreached b k s x ms found silent crashed q = inl refl

-- A subscription to a new group that asks for BufferPolicyDropOldestAfterTimeout leaves its
-- subscriber without a policy. If the broadcaster then receives messages, it does not survive the
-- next one: the broadcast panics, or blocks in the handler of another subscriber before that.
pub drop_oldest_after_timeout_panics :
    {A : Type 0} (b : Broadcaster A) (conf : SubscriberConfig) (x : A) (ms : String → List Moment)
    → conf.policy ≡ some drop_oldest_after_timeout
    → lookup conf.consumer_group b.subscribers ≡ none
    → (on_request b (subscribe conf)).0.broadcasting ≡ true
    → let p = pass (on_request b (subscribe conf)).0 (message x ms) in
      (p ≡ panicked) ⊎ ((b' : Broadcaster A) × (p ≡ blocked b'))
unfolding pass
drop_oldest_after_timeout_panics b conf x ms drops new on =
    let b1 = (on_request b (subscribe conf)).0 in
    let s = replay b.last_message (new_subscriber conf b.next) in
    rw on (
      unreached b1 conf.consumer_group s x ms (subscribed_new b conf new)
        (made_silent b conf x (ms conf.consumer_group) drops) (deliver x ms b1.subscribers) refl)
