-- ===== src/Intracom/Registry/Examples.antt =====
-- A registry with one topic.
use rxd.Base.{ℕ, ◌≡◌, refl, true, false, List, [], ◌∷◌, ◌++◌, lookup, none, some, All}
use rxd.Intracom.Subscriber.{SubscriberConfig}
use rxd.Intracom.Topic.{Topic, TopicConfig, new_topic, answered}
use rxd.Intracom.Failures.{
  err_intracom, err_subscribe, err_topic, intracom_closed, closing_topic, creating_topic,
  creating_subscription,
}
use rxd.Intracom.Registry.{
  Intracom, new_intracom, create_topic, refused, Turn, max_timeout, retry, create_subscription,
  fails, close_intracom,
}
use rxd.Intracom.Registry.Kept.{IsRegistry}
use rxd.Intracom.Registry.Kept.{IsRegistry}
use rxd.Intracom.Registry.Polling.{Passes}
use rxd.Intracom.Registry.Closing.{are_closed, closed_after, close_intracom_leaves}

abbrev empty_registry : Intracom ℕ
empty_registry = new_intracom "rxd"

abbrev states_conf : TopicConfig
states_conf = record { name = "states"; err_if_exists = true; subscriber_aware = false }

abbrev shared_conf : TopicConfig
shared_conf = record { name = "states"; err_if_exists = false; subscriber_aware = true }

abbrev states : Topic ℕ
states = new_topic "rxd.ServiceStates" 0 states_conf

abbrev registry : Intracom ℕ
registry = record {
  name = "rxd";
  topics = ("states", states) ∷ [];
  closed = false;
  gone = [];
  next = 1;
}

abbrev group : SubscriberConfig
group = record {
  consumer_group = "g";
  err_if_exists = false;
  buffer_size = 1;
  policy = none;
  drop_timeout = 0;
}

empty_registry-IsRegistry : IsRegistry empty_registry
unfolding new_intracom
empty_registry-IsRegistry = record { unique = tt; entries = tt; others = tt }

abbrev waiting_turns : List (Turn ℕ)
waiting_turns = retry empty_registry ∷ max_timeout ∷ []

waiting_turns-Passes : All (Passes "states" 0) waiting_turns
unfolding new_intracom lookup
waiting_turns-Passes = ((refl, refl), (refl, tt))

states_found : lookup "states" registry.topics ≡ some states
unfolding lookup
states_found = refl

close_intracom_leaves_example :
    (over : Intracom ℕ) × (close_intracom (some registry) ≡ (some over, none))
    × (are_closed over.gone ≡ closed_after registry.topics ++ [])
    × (over.topics ≡ [])
    × (close_intracom (some over) ≡ (some over, some (err_intracom closing_topic intracom_closed)))
    × (create_topic "int" (some over) states_conf
        ≡ (some over, refused (err_topic "states" creating_topic intracom_closed)))
    × (create_subscription "int" (some over) "states" 0 group waiting_turns answered
        ≡ (some over, fails (err_subscribe "states" "g" creating_subscription intracom_closed)))
close_intracom_leaves_example =
    close_intracom_leaves registry "int" states_conf "states" 0 group waiting_turns answered refl
