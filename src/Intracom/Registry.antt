-- ===== src/Intracom/Registry.antt =====
-- intracom/intracom.go: the registry of topics. An argument of type Option is the *Intracom that
-- may be nil.
pub mod Kept
pub mod Operations
pub mod Sound
pub mod Abstract
pub mod Names
pub mod Refines
pub mod Creation
pub mod Polling
pub mod Closing
mod Examples
use rxd.Base.{
  ℕ, ◌+◌, ◌≡◌, Bool, true, false, ◌&&◌, String, List, [], ◌∷◌, ◌++◌, map, Dict, lookup, insert,
  delete, Option, none, some, if◌then◌else◌, str_eq, ltb,
}
use rxd.Intracom.Subscriber.{SubscriberConfig}
use rxd.Intracom.Topic.{
  TopicConfig, Topic, new_topic, Wait, Result, returns, panicked, topic_subscribe,
  topic_unsubscribe, topic_close,
}
use rxd.Intracom.Failures.{
  Failure, err_intracom, err_subscribe, err_topic, bare, plain, invalid_intracom_nil,
  intracom_closed, topic_not_found, topic_already_exists, topic_does_not_exist, invalid_topic_type,
  max_timeout_reached, closing_topic, removing_topic, creating_topic, removing_subscription,
  creating_subscription,
}

-- `gone` holds the topics that the registry no longer names, which their users may still hold, and
-- `next` numbers the topics.
pub record Intracom (A : Type 0) : Type 0 where
  pub name : String
  pub topics : Dict (Topic A)
  pub closed : Bool
  pub gone : List (Topic A)
  pub next : ℕ

unfoldable pub new_intracom : {A : Type 0} → String → Intracom A
new_intracom name = record { name = name; topics = []; closed = false; gone = []; next = 0 }

-- A topic, by its reference, or an error.
pub data Made : Type 0 where
  topic : ℕ → Made
  refused : Failure → Made

-- What the write of a key to the map drops from it.
abbrev replaced : {A : Type 0} → Option (Topic A) → List (Topic A) → List (Topic A)
replaced none ts = ts
replaced (some t) ts = t ∷ ts

-- CreateTopic once the map has been read, in the state that its own lock then finds: the lock is
-- given up between the read and the write.
unfoldable pub create_read :
    {A : Type 0} → String → Intracom A → TopicConfig → Option (Topic A) → Intracom A × Made
create_read kind ic conf none = (
  record ic {
    topics = insert conf.name (new_topic kind ic.next conf) ic.topics;
    gone = replaced (lookup conf.name ic.topics) ic.gone;
    next = ic.next + 1;
  },
  topic ic.next,
)
create_read kind ic conf (some t) =
    if str_eq t.kind kind
    then if conf.err_if_exists
      then (ic, refused (err_topic conf.name creating_topic topic_already_exists))
      else (ic, topic t.reference)
    else (ic, refused (err_topic conf.name creating_topic invalid_topic_type))

unfoldable pub create_topic :
    {A : Type 0} → String → Option (Intracom A) → TopicConfig → Option (Intracom A) × Made
unfolding create_read
create_topic kind none conf =
    (none, refused (err_topic conf.name creating_topic invalid_intracom_nil))
create_topic kind (some ic) conf =
    let (ic', made) = create_read kind ic conf (lookup conf.name ic.topics) in
    if ic.closed
    then (some ic, refused (err_topic conf.name creating_topic intracom_closed))
    else (some ic', made)

unfoldable pub remove_found :
    {A : Type 0} → String → Intracom A → String → Option (Topic A) → Intracom A × Option Failure
unfolding topic_close
remove_found kind ic name none = (ic, some (err_topic name removing_topic topic_does_not_exist))
remove_found kind ic name (some t) =
    let (t', error) = topic_close t in
    if str_eq t.kind kind
    then elim error [
      | none ↦ (record ic { topics = delete name ic.topics; gone = t' ∷ ic.gone }, none)
      | some e ↦ (
        record ic { topics = insert name t' ic.topics },
        some (err_topic name removing_topic (plain e)),
      )
    ]
    else (ic, some (err_topic name removing_topic invalid_topic_type))

unfoldable pub remove_topic :
    {A : Type 0} → String → Option (Intracom A) → String → Option (Intracom A) × Option Failure
unfolding remove_found
remove_topic kind none name = (none, some (err_topic name removing_topic invalid_intracom_nil))
remove_topic kind (some ic) name =
    let (ic', error) = remove_found kind ic name (lookup name ic.topics) in (some ic', error)

-- One pass of CreateSubscription's polling loop: the context is done, with its error, the maximum
-- wait has passed, or the retry timer fires and the registry is as given.
pub data Turn (A : Type 0) : Type 0 where
  ctx_done : String → Turn A
  max_timeout : Turn A
  retry : Intracom A → Turn A

-- Where the loop ends. `polling` is a loop that has had no turn yet in which it ends.
pub data Polled (A : Type 0) : Type 0 where
  gives_up : Failure → Polled A
  finds : Intracom A → Topic A → Polled A
  polling : Polled A

abbrev found_or : {A : Type 0} → Intracom A → Option (Topic A) → Polled A → Polled A
found_or ic (some t) rest = finds ic t
found_or ic none rest = rest

-- maxTimeout is a nil channel when maxWait is 0, whose case is never ready.
unfoldable pub poll : {A : Type 0} → String → ℕ → SubscriberConfig → List (Turn A) → Polled A
poll name max_wait conf [] = polling
poll name max_wait conf (ctx_done e ∷ ts) =
    gives_up (err_subscribe name conf.consumer_group creating_subscription (plain e))
poll name max_wait conf (max_timeout ∷ ts) =
    let rest = poll name max_wait conf ts in
    if ltb 0 max_wait then gives_up (bare max_timeout_reached) else rest
poll name max_wait conf (retry ic ∷ ts) =
    let rest = poll name max_wait conf ts in
    if ic.closed
    then gives_up (err_subscribe name conf.consumer_group creating_subscription intracom_closed)
    else found_or ic (lookup name ic.topics) rest

-- What CreateSubscription returns: an error, what Subscribe returned, or nothing yet.
pub data Subscribing : Type 0 where
  fails : Failure → Subscribing
  subscribes : Result → Subscribing
  waits : Subscribing

-- The part after the loop: the registry is that of the last turn. A call that fails writes nothing.
unfoldable pub subscribe_found :
    {A : Type 0}
    → String
    → Option (Intracom A)
    → String
    → SubscriberConfig
    → Wait
    → Polled A
    → Option (Intracom A) × Subscribing
unfolding topic_subscribe
subscribe_found kind old name conf w (gives_up e) = (old, fails e)
subscribe_found kind old name conf w polling = (old, waits)
subscribe_found kind old name conf w (finds ic t) =
    let (t', r) = topic_subscribe w t conf in
    if str_eq t.kind kind
    then (some (record ic { topics = insert name t' ic.topics }), subscribes r)
    else (
      some ic,
      fails (err_subscribe name conf.consumer_group creating_subscription invalid_topic_type),
    )

-- A maxWait that is not positive is given as 0.
unfoldable pub create_subscription :
    {A : Type 0}
    → String
    → Option (Intracom A)
    → String
    → ℕ
    → SubscriberConfig
    → List (Turn A)
    → Wait
    → Option (Intracom A) × Subscribing
unfolding poll subscribe_found
create_subscription kind none name max_wait conf ts w = (
  none,
  fails (err_subscribe name conf.consumer_group creating_subscription invalid_intracom_nil),
)
create_subscription kind (some ic) name max_wait conf ts w =
    if ic.closed
    then (
      some ic,
      fails (err_subscribe name conf.consumer_group creating_subscription intracom_closed),
    )
    else subscribe_found kind (some ic) name conf w (poll name max_wait conf ts)

unfoldable pub leave_found :
    {A : Type 0}
    → String
    → Intracom A
    → String
    → String
    → ℕ
    → Wait
    → Option (Topic A)
    → Option (Intracom A) × Subscribing
unfolding topic_unsubscribe
leave_found kind ic name consumer channel w none =
    (some ic, fails (err_subscribe name consumer removing_subscription topic_not_found))
leave_found kind ic name consumer channel w (some t) =
    let (t', r) = topic_unsubscribe w t consumer channel in
    if str_eq t.kind kind
    then (some (record ic { topics = insert name t' ic.topics }), subscribes r)
    else (some ic, fails (err_subscribe name consumer removing_subscription invalid_topic_type))

unfoldable pub remove_subscription :
    {A : Type 0}
    → String
    → Option (Intracom A)
    → String
    → String
    → ℕ
    → Wait
    → Option (Intracom A) × Subscribing
unfolding leave_found
remove_subscription kind none name consumer channel w =
    (none, fails (err_subscribe name consumer removing_subscription invalid_intracom_nil))
remove_subscription kind (some ic) name consumer channel w =
    leave_found kind ic name consumer channel w (lookup name ic.topics)

-- The loop of Close over the map. The assertion `topicAny.(Topic[any])` holds of a topic whose type
-- argument is `any`; the others are passed over. An error of a topic's Close is logged.
unfoldable pub close_topics : {A : Type 0} → Dict (Topic A) → List (Topic A)
unfolding topic_close
close_topics [] = []
close_topics ((name, t) ∷ topics) =
    (if str_eq t.kind "any" then (topic_close t).0 else t) ∷ close_topics topics

unfoldable pub close_intracom :
    {A : Type 0} → Option (Intracom A) → Option (Intracom A) × Option Failure
unfolding close_topics
close_intracom none = (none, some (err_intracom closing_topic invalid_intracom_nil))
close_intracom (some ic) =
    if ic.closed then (some ic, some (err_intracom closing_topic intracom_closed)) else (
      some (record ic { closed = true; topics = []; gone = close_topics ic.topics ++ ic.gone }),
      none,
    )
