-- ===== src/Intracom/Failures.antt =====
-- intracom/errors.go: the error constants, the actions, and the three errors that wrap a reason.
use Prim.Native.String
use rxd.Base.{String, List, [], ◌∷◌}

-- A value of intracom's Error, or of another error type by its text.
pub data Reason : Type 0 where
  constant plain : String → Reason

abbrev pub invalid_intracom_nil : Reason
invalid_intracom_nil = constant "invalid intracom, cannot be nil"

abbrev pub intracom_closed : Reason
intracom_closed = constant "intracom is closed"

abbrev pub topic_not_found : Reason
topic_not_found = constant "topic not found"

abbrev pub topic_already_exists : Reason
topic_already_exists = constant "topic already exists"

abbrev pub topic_does_not_exist : Reason
topic_does_not_exist = constant "topic does not exist"

abbrev pub invalid_topic_type : Reason
invalid_topic_type = constant "topic exists but with a different type"

abbrev pub max_timeout_reached : Reason
max_timeout_reached = constant "max timeout reached"

unfoldable pub reason_text : Reason → String
reason_text (constant s) = s
reason_text (plain s) = s

pub data Action : Type 0 where
  closing_intracom closing_topic removing_topic creating_topic : Action
  removing_subscription creating_subscription : Action

unfoldable pub action_text : Action → String
action_text closing_intracom = "closing intracom"
action_text closing_topic = "closing topic"
action_text removing_topic = "removing topic"
action_text creating_topic = "creating topic"
action_text removing_subscription = "removing subscription"
action_text creating_subscription = "creating subscription"

-- ErrIntracom, ErrSubscribe with the topic and the consumer, ErrTopic with the topic, and an error
-- returned as it is.
pub data Failure : Type 0 where
  err_intracom : Action → Reason → Failure
  err_subscribe : String → String → Action → Reason → Failure
  err_topic : String → Action → Reason → Failure
  bare : Reason → Failure

abbrev concat : List String → String
concat [] = ""
concat (s ∷ ss) = String.◌++◌ s (concat ss)

unfoldable pub failure_text : Failure → String
unfolding reason_text action_text
failure_text (err_intracom a r) =
    concat ("error " ∷ action_text a ∷ " reason: " ∷ reason_text r ∷ [])
failure_text (err_subscribe topic consumer a r) = concat (
    "error "
    ∷ action_text a
    ∷ " to topic '"
    ∷ topic
    ∷ "' with consumer '"
    ∷ consumer
    ∷ "' reason: "
    ∷ reason_text r
    ∷ [])
failure_text (err_topic topic a r) = concat (
    "error " ∷ action_text a ∷ " removing topic '" ∷ topic ∷ "'" ∷ " reason: " ∷ reason_text r ∷ [])
failure_text (bare r) = reason_text r
