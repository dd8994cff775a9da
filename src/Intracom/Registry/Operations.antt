-- ===== src/Intracom/Registry/Operations.antt =====
-- The registry's operations, one call at a time.
use rxd.Base.{
  List, ltb, Bool-cases, inl, inr, ℕ, ◌≡◌, refl, Bool, true, false, String, Option, none, some, [],
  ◌∷◌, lookup, if◌then◌else◌,
}
use rxd.Intracom.Subscriber.{SubscriberConfig}
use rxd.Intracom.Topic.{Topic, TopicConfig, Wait}
use rxd.Intracom.Failures.{Failure}
use rxd.Intracom.Registry.{
  Intracom, Turn, ctx_done, max_timeout, create_topic, remove_topic, retry, Polled, gives_up, finds,
  polling, found_or, create_subscription, poll, remove_subscription, close_intracom,
}

-- What the polling of CreateSubscription receives while nobody else changes the registry.
pub data Wake : Type 0 where
  cancelled : String → Wake
  timed_out looks : Wake

abbrev pub turns_on : {A : Type 0} → Intracom A → List Wake → List (Turn A)
turns_on ic [] = []
turns_on ic (cancelled e ∷ ws) = ctx_done e ∷ turns_on ic ws
turns_on ic (timed_out ∷ ws) = max_timeout ∷ turns_on ic ws
turns_on ic (looks ∷ ws) = retry ic ∷ turns_on ic ws

-- A call on a registry that is not nil.
pub data Operation : Type 0 where
  create : String → TopicConfig → Operation
  remove : String → String → Operation
  join : String → String → (max_wait : ℕ) → SubscriberConfig → List Wake → Wait → Operation
  leave : String → String → String → ℕ → Wait → Operation
  shut : Operation

unfoldable pub operate : {A : Type 0} → Option (Intracom A) → Operation → Option (Intracom A)
unfolding create_topic remove_topic create_subscription remove_subscription close_intracom
operate none op = none
operate (some ic) (create kind conf) = (create_topic kind (some ic) conf).0
operate (some ic) (remove kind name) = (remove_topic kind (some ic) name).0
operate (some ic) (join kind name max_wait conf ws w) =
    (create_subscription kind (some ic) name max_wait conf (turns_on ic ws) w).0
operate (some ic) (leave kind name consumer channel w) =
    (remove_subscription kind (some ic) name consumer channel w).0
operate (some ic) shut = (close_intracom (some ic)).0

module _ {A : Type 0} where
  -- A loop that ends with a topic ends in this registry, which names it.
  abbrev pub FindsHere : String → Intracom A → Polled A → Type 0
  FindsHere name ic (gives_up e) = Unit
  FindsHere name ic polling = Unit
  FindsHere name ic (finds ic' t) = (ic' ≡ ic) × (lookup name ic.topics ≡ some t)

  pub poll-FindsHere :
      (name : String) (max_wait : ℕ) (conf : SubscriberConfig) (ic : Intracom A) (ws : List Wake)
      → FindsHere name ic (poll name max_wait conf (turns_on ic ws))
  unfolding poll
  poll-FindsHere name n conf ic [] = tt
  poll-FindsHere name n conf ic (cancelled e ∷ ws) = tt
  poll-FindsHere name n conf ic (timed_out ∷ ws) =
      let ih = poll-FindsHere name n conf ic ws in
      elim (Bool-cases (ltb 0 n)) [ inl y ↦ rw y tt | inr y ↦ rw y ih ]
  poll-FindsHere name n conf ic (looks ∷ ws) =
      gate ic.closed (lookup name ic.topics) refl _ (poll name n conf (turns_on ic ws))
        (poll-FindsHere name n conf ic ws)
    where
      gate :
          (c : Bool) (o : Option (Topic A))
          → lookup name ic.topics ≡ o
          → (e : Failure) (rest : Polled A) → FindsHere name ic rest
          → FindsHere name ic (if c then gives_up e else found_or ic o rest)
      gate true o h e rest r = tt
      gate false none h e rest r = r
      gate false (some t) h e rest r = (refl, h)
