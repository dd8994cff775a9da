-- ===== src/Intracom/Registry/Polling.antt =====
-- What CreateSubscription waits for.
use rxd.Base.{
  ℕ, ◌<◌, ◌≡◌, ◌⊎◌, inl, inr, refl, ap, ◌∙◌, true, false, String, none, some, List, [], ◌∷◌, ◌++◌,
  lookup, if◌then◌else◌, arith, if-true, if-false, All, str_eq, insert,
}
use rxd.Intracom.Subscriber.{SubscriberConfig}
use rxd.Intracom.Topic.{Topic, Wait, topic_subscribe}
use rxd.Intracom.Failures.{
  err_subscribe, bare, plain, intracom_closed, max_timeout_reached, invalid_topic_type,
  creating_subscription,
}
use rxd.Intracom.Registry.{
  Intracom, Turn, ctx_done, max_timeout, retry, Polled, gives_up, finds, found_or, poll, fails,
  subscribes, subscribe_found, create_subscription,
}

-- A turn in which the loop goes on: the topic is not there yet, or the maximum wait would have
-- passed but was given as 0.
abbrev pub Passes : {A : Type 0} → String → ℕ → Turn A → Type 0
Passes name max_wait (ctx_done e) = ⊥
Passes name max_wait max_timeout = max_wait ≡ 0
Passes name max_wait (retry ic) = (ic.closed ≡ false) × (lookup name ic.topics ≡ none)

-- A turn in which it ends, and how.
abbrev pub Ends : {A : Type 0} → String → ℕ → SubscriberConfig → Turn A → Polled A → Type 0
Ends name max_wait conf (ctx_done e) p =
    p ≡ gives_up (err_subscribe name conf.consumer_group creating_subscription (plain e))
Ends name max_wait conf max_timeout p = (0 < max_wait) × (p ≡ gives_up (bare max_timeout_reached))
Ends name max_wait conf (retry ic) p =
    ((ic.closed ≡ true)
      × (p
          ≡ gives_up
              (err_subscribe name conf.consumer_group creating_subscription intracom_closed)))
    ⊎ ((ic.closed ≡ false) × ((t : Topic _) × (lookup name ic.topics ≡ some t) × (p ≡ finds ic t)))

module _ {A : Type 0} where
  poll-pass :
      (name : String) (n : ℕ) (conf : SubscriberConfig) (x : Turn A) (ts : List (Turn A))
      → Passes name n x
      → poll name n conf (x ∷ ts) ≡ poll name n conf ts
  unfolding poll
  poll-pass name n conf (ctx_done e) ts h = absurd h
  poll-pass name n conf max_timeout ts h = ground (arith, h)
  poll-pass name n conf (retry ic) ts h = if-false ic.closed _ _ h.0 ∙ rw (h.1) refl

  poll-end :
      (name : String) (n : ℕ) (conf : SubscriberConfig) (x : Turn A) (ts : List (Turn A))
      (p : Polled A)
      → Ends name n conf x p
      → poll name n conf (x ∷ ts) ≡ p
  unfolding poll
  poll-end name n conf (ctx_done e) ts p h = cc
  poll-end name n conf max_timeout ts p h = ground (arith, h)
  poll-end name n conf (retry ic) ts p (inl (c, e)) = if-true ic.closed _ _ c ∙ cc
  poll-end name n conf (retry ic) ts p (inr (c, (t, f, e))) =
      if-false ic.closed _ _ c ∙ ap (λ o. found_or ic o (poll name n conf ts)) f ∙ cc

-- The polling loop ends at the first turn that decides it, whatever follows: with the context's
-- error, the timeout error, the error of a closed registry, or the topic, in the registry in which
-- it was found. Turns in which the topic is missing, and a timeout under a maximum wait of 0, are
-- passed over.
pub poll_first :
    {A : Type 0} (name : String) (max_wait : ℕ) (conf : SubscriberConfig) (before : List (Turn A))
    (x : Turn A) (after : List (Turn A)) (p : Polled A)
    → All (Passes name max_wait) before
    → Ends name max_wait conf x p
    → poll name max_wait conf (before ++ x ∷ after) ≡ p
poll_first name n conf [] x after p hs h = poll-end name n conf x after p h
poll_first name n conf (y ∷ before) x after p hs h =
    poll-pass name n conf y (before ++ x ∷ after) hs.0
    ∙ poll_first name n conf before x after p hs.1 h

-- A subscription that is asked for on an open registry is made at the first turn in which the
-- registry, still open, names the topic, after turns that are passed over: the call returns what
-- Subscribe returns on that topic, and writes to that registry. A topic of another message type is
-- refused.
pub create_subscription_late :
    {A : Type 0} (kind : String) (old ic : Intracom A) (t : Topic A) (name : String) (max_wait : ℕ)
    (conf : SubscriberConfig) (before after : List (Turn A)) (w : Wait)
    → old.closed ≡ false
    → All (Passes name max_wait) before
    → ic.closed ≡ false
    → lookup name ic.topics ≡ some t
    → create_subscription kind (some old) name max_wait conf (before ++ retry ic ∷ after) w ≡ (
        if str_eq t.kind kind
        then (
          some (record ic { topics = insert name (topic_subscribe w t conf).0 ic.topics }),
          subscribes (topic_subscribe w t conf).1,
        )
        else (
          some ic,
          fails (err_subscribe name conf.consumer_group creating_subscription invalid_topic_type),
        ))
unfolding create_subscription subscribe_found
create_subscription_late kind old ic t name n conf before after w o hs c f =
    if-false old.closed _ _ o
    ∙ ap (subscribe_found kind (some old) name conf w)
        (poll_first name n conf before (retry ic) after (finds ic t) hs (inr (c, (t, f, refl))))
