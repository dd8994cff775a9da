-- ===== src/Intracom/Registry/Closing.antt =====
-- What Close leaves open.
use rxd.Base.{
  ℕ, ◌≡◌, refl, ◌∙◌, ap, Bool, true, false, ◌||◌, String, none, some, List, [], ◌∷◌, ◌++◌, Dict,
  if◌then◌else◌, arith, if-false, str_eq,
}
use rxd.Intracom.Topic.{Topic, topic_close}
use rxd.Intracom.Failures.{
  err_intracom, err_topic, err_subscribe, intracom_closed, closing_topic, creating_topic,
  creating_subscription,
}
use rxd.Intracom.Subscriber.{SubscriberConfig}
use rxd.Intracom.Topic.{TopicConfig, Wait}
use rxd.Intracom.Registry.{
  Intracom, close_topics, close_intracom, create_topic, create_subscription, refused, fails, Turn,
}

-- Whether each topic of the map is closed after Close.
abbrev pub closed_after : {A : Type 0} → Dict (Topic A) → List Bool
closed_after [] = []
closed_after ((name, t) ∷ topics) = (t.closed || str_eq t.kind "any") ∷ closed_after topics

abbrev pub are_closed : {A : Type 0} → List (Topic A) → List Bool
are_closed [] = []
are_closed (t ∷ ts) = t.closed ∷ are_closed ts

module _ {A : Type 0} where
  close_one : (t : Topic A) (c : Bool) → (if c then (topic_close t).0 else t).closed ≡ t.closed || c
  unfolding topic_close
  close_one t c = ground arith

  close_topics-closed : (m : Dict (Topic A)) → are_closed (close_topics m) ≡ closed_after m
  unfolding close_topics
  close_topics-closed [] = refl
  close_topics-closed ((name, t) ∷ m) =
      cong_cons (close_one t (str_eq t.kind "any")) (close_topics-closed m)
    where
      cong_cons : {a b : Bool} {xs ys : List Bool} → a ≡ b → xs ≡ ys → a ∷ xs ≡ b ∷ ys
      cong_cons e f = cc

  are_closed-append :
      (ts us : List (Topic A)) → are_closed (ts ++ us) ≡ are_closed ts ++ are_closed us
  are_closed-append [] us = refl
  are_closed-append (t ∷ ts) us = ap (◌∷◌ t.closed) (are_closed-append ts us)

-- Close empties the registry and refuses every later creation, subscription and Close, but of the
-- topics that it named it closes only those whose message type is `any`: another topic is left as
-- open as it was, with no name.
pub close_intracom_leaves :
    {A : Type 0} (ic : Intracom A) (kind : String) (conf : TopicConfig) (name : String)
    (max_wait : ℕ) (consumer : SubscriberConfig) (ts : List (Turn A)) (w : Wait)
    → ic.closed ≡ false
    → (shut : Intracom A) × (close_intracom (some ic) ≡ (some shut, none))
      × (are_closed shut.gone ≡ closed_after ic.topics ++ are_closed ic.gone)
      × (shut.topics ≡ [])
      × (close_intracom (some shut)
          ≡ (some shut, some (err_intracom closing_topic intracom_closed)))
      × (create_topic kind (some shut) conf
          ≡ (some shut, refused (err_topic conf.name creating_topic intracom_closed)))
      × (create_subscription kind (some shut) name max_wait consumer ts w ≡ (
        some shut,
        fails (err_subscribe name consumer.consumer_group creating_subscription intracom_closed),
      ))
unfolding close_intracom create_topic create_subscription
close_intracom_leaves ic kind conf name n consumer ts w h = (
  record ic { closed = true; topics = []; gone = close_topics ic.topics ++ ic.gone },
  if-false ic.closed _ _ h,
  are_closed-append (close_topics ic.topics) ic.gone
      ∙ ap (λ bs. bs ++ are_closed ic.gone) (close_topics-closed ic.topics),
  refl,
  refl,
  refl,
  refl,
)
