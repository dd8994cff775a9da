-- ===== src/Intracom/Broadcast/Groups.antt =====
-- Subscribing to a consumer group and giving the subscription up.
use rxd.Base.{
  ℕ, ◌+◌, ◌≡◌, ◌≢◌, refl, sym, ap, ◌∙◌, subst, Bool, true, false, String, ◌∷◌, lookup, insert,
  delete, IsMap, insert-IsMap, none, some, if◌then◌else◌, arith, eq_iff, lookup-delete,
  lookup-insert_self,
}
use rxd.Intracom.Subscriber.{Subscriber, SubscriberConfig, close}
use rxd.Intracom.Broadcast.{
  Broadcaster, subscribe, unsubscribe, Response, subscribed, unsubscribed, already_exists,
  does_not_match, enable, disable, on_subscribe, on_unsubscribe, on_request,
}
use rxd.Intracom.Broadcast.Invariant.{IsSound}
use rxd.Intracom.Broadcast.Requests.{made, made-IsListed}

module _ {A : Type 0} where
  enable-IsSound : (b : Broadcaster A) → IsSound b → enable b ≡ b
  unfolding enable
  enable-IsSound b v = ground (arith, v.aware)

  enable-keeps :
      (b : Broadcaster A)
      → ((enable b).subscribers ≡ b.subscribers) × ((enable b).closed ≡ b.closed)
  unfolding enable
  enable-keeps b = ground arith

  disable-keeps :
      (b : Broadcaster A)
      → ((disable b).subscribers ≡ b.subscribers) × ((disable b).closed ≡ b.closed)
  unfolding disable
  disable-keeps b = ground arith

  unsubscribe_wrong :
      (c : Broadcaster A) (k : String) (r : ℕ) (s : Subscriber A)
      → lookup k c.subscribers ≡ some s
      → s.reference ≢ r
      → on_request c (unsubscribe k r) ≡ (c, unsubscribed (some (does_not_match k)))
  unfolding on_request on_unsubscribe
  unsubscribe_wrong c k r s e h = rw (e, on_unsubscribe) (ground arith)

  unsubscribe_right :
      (c : Broadcaster A) (k : String) (r : ℕ) (s : Subscriber A)
      → lookup k c.subscribers ≡ some s
      → s.reference ≡ r
      → s.closed ≡ false
      → on_request c (unsubscribe k r) ≡ (
        disable (record c { subscribers = delete k c.subscribers; closed = r ∷ c.closed }),
        unsubscribed none,
      )
  unfolding on_request on_unsubscribe close
  unsubscribe_right c k r s e q h = rw (e, on_unsubscribe) (ground (arith, h, q))

  -- A subscription to a new group.
  abbrev joined : Broadcaster A → SubscriberConfig → Broadcaster A
  joined b conf = record b {
    subscribers = insert conf.consumer_group (made b conf) b.subscribers;
    next = b.next + 1;
  }

  subscribe_new :
      (b : Broadcaster A) (conf : SubscriberConfig)
      → lookup conf.consumer_group b.subscribers ≡ none
      → on_request b (subscribe conf) ≡ (enable (joined b conf), subscribed b.next none)
  unfolding on_request on_subscribe
  subscribe_new b conf e = rw (e, on_subscribe)

-- On a sound broadcaster a subscription to a group that has a subscriber changes nothing and is
-- answered with the channel that the group already has, with an error if one was asked for.
pub subscribe_shares :
    {A : Type 0} (b : Broadcaster A) (conf : SubscriberConfig) (s : Subscriber A)
    → IsSound b
    → lookup conf.consumer_group b.subscribers ≡ some s
    → on_request b (subscribe conf) ≡ (
      b,
      subscribed s.reference
          (if conf.err_if_exists then some (already_exists conf.consumer_group) else none),
    )
unfolding on_request on_subscribe
subscribe_shares b conf s v e = rw (e, on_subscribe, enable-IsSound b v) (gate conf.err_if_exists)
  where
    gate :
        (c : Bool)
        → ◌≡◌ {A = Broadcaster _ × Response}
            (if c
              then (b, subscribed s.reference (some (already_exists conf.consumer_group)))
              else (b, subscribed s.reference none))
            (
              b,
              subscribed s.reference
                  (if c then some (already_exists conf.consumer_group) else none),
            )
    gate true = refl
    gate false = refl

-- On a sound broadcaster a subscription to a group with no subscriber is answered with the next
-- channel made and no error; an unsubscription of it by another channel is refused and changes
-- nothing, and one by that channel frees the group and closes the channel.
pub unsubscribe-subscribe :
    {A : Type 0} (b : Broadcaster A) (conf : SubscriberConfig) (wrong : ℕ)
    → IsSound b
    → lookup conf.consumer_group b.subscribers ≡ none
    → wrong ≢ b.next
    → let (c, r) = on_request b (subscribe conf) in
      let (d, q) = on_request c (unsubscribe conf.consumer_group b.next) in
      (r ≡ subscribed b.next none)
      × (on_request c (unsubscribe conf.consumer_group wrong)
          ≡ (c, unsubscribed (some (does_not_match conf.consumer_group))))
      × (q ≡ unsubscribed none)
      × (lookup conf.consumer_group d.subscribers ≡ none)
      × (d.closed ≡ b.next ∷ b.closed)
unsubscribe-subscribe b conf wrong v e h =
    let c = enable (joined b conf) in
    let m = made-IsListed b conf in
    let found : lookup conf.consumer_group c.subscribers ≡ some (made b conf) =
      ap (lookup conf.consumer_group) (enable-keeps (joined b conf)).0
      ∙ lookup-insert_self conf.consumer_group (made b conf) b.subscribers in
    let right =
      unsubscribe_right c conf.consumer_group b.next (made b conf) found m.1 m.0.is_open in
    let keeps = disable-keeps (record c {
      subscribers = delete conf.consumer_group c.subscribers;
      closed = b.next ∷ c.closed;
    }) in
    let once : IsMap c.subscribers =
      subst IsMap (sym (enable-keeps (joined b conf)).0)
        (insert-IsMap conf.consumer_group (made b conf) b.subscribers v.parts.unique) in
    let gone : lookup conf.consumer_group (delete conf.consumer_group c.subscribers) ≡ none =
      ground (
        arith,
        lookup-delete conf.consumer_group conf.consumer_group c.subscribers once,
        eq_iff conf.consumer_group conf.consumer_group,
      ) in
    rw (subscribe_new b conf e) (
      refl,
      unsubscribe_wrong c conf.consumer_group wrong (made b conf) found (λ q. h (sym q ∙ m.1)),
      ap (λ p. p.1) right,
      ap (λ p. lookup conf.consumer_group p.0.subscribers) right
          ∙ ap (lookup conf.consumer_group) keeps.0
          ∙ gone,
      ap (λ p. p.0.closed) right ∙ keeps.1 ∙ ap (◌∷◌ b.next) (enable-keeps (joined b conf)).1,
    )
