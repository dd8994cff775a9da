-- ===== src/Intracom/Registry/Abstract.antt =====
-- The registry as a map from names to topics, and its operations on that map.
use rxd.Base.{ℕ, ◌+◌, Bool, true, false, String, Option, none, some, if◌then◌else◌, str_eq}
use rxd.Intracom.Topic.{TopicConfig}
use rxd.Intracom.Failures.{
  Failure, err_topic, err_intracom, plain, creating_topic, removing_topic, closing_topic,
  intracom_closed, invalid_topic_type, topic_does_not_exist,
}
use rxd.Intracom.Registry.{Made, topic, refused}
use rxd.Intracom.Registry.Creation.{second}
use rxd.Intracom.Registry.Operations.{Operation, create, remove, join, leave, shut}

-- What the registry's users see of a topic: its message type, its identity, and whether it has been
-- closed.
pub record Entry : Type 0 where
  pub kind : String
  pub reference : ℕ
  pub is_closed : Bool

pub record Names : Type 0 where
  pub at : String → Option Entry
  pub is_shut : Bool
  pub next : ℕ

abbrev pub set : String → Option Entry → (String → Option Entry) → String → Option Entry
set name e f k = if str_eq name k then e else f k

-- CreateTopic makes a topic for a new name alone.
abbrev pub created : String → TopicConfig → Option Entry → Names → Names
created kind conf none n = record n {
  at = set conf.name (some (record { kind = kind; reference = n.next; is_closed = false })) n.at;
  next = n.next + 1;
}
created kind conf (some e) n = n

-- RemoveTopic frees the name of an open topic of the type that it is called with.
abbrev pub removed : (same_kind is_closed : Bool) → String → Names → Names
removed true false name n = record n { at = set name none n.at }
removed _ _ name n = n

abbrev pub removed_entry : String → String → Option Entry → Names → Names
removed_entry kind name none n = n
removed_entry kind name (some e) n = removed (str_eq e.kind kind) e.is_closed name n

-- What each operation makes of the names.
unfoldable pub specified : Names → Operation → Names
specified n (create kind conf) = if n.is_shut then n else created kind conf (n.at conf.name) n
specified n (remove kind name) = removed_entry kind name (n.at name) n
specified n (join kind name max_wait conf ws w) = n
specified n (leave kind name consumer channel w) = n
specified n shut = if n.is_shut then n else record { at = λ k. none; is_shut = true; next = n.next }

-- What CreateTopic, RemoveTopic and Close answer.
pub data Reply : Type 0 where
  made : Made → Reply
  ended : Option Failure → Reply
  silent : Reply

abbrev pub created_reply : String → TopicConfig → Option Entry → ℕ → Made
created_reply kind conf none next = topic next
created_reply kind conf (some e) next = second e.kind e.reference kind conf

abbrev pub removed_reply : (same_kind is_closed : Bool) → String → Option Failure
removed_reply true false name = none
removed_reply true true name = some (err_topic name removing_topic (plain "topic already closed"))
removed_reply false c name = some (err_topic name removing_topic invalid_topic_type)

abbrev pub removed_entry_reply : String → String → Option Entry → Option Failure
removed_entry_reply kind name none = some (err_topic name removing_topic topic_does_not_exist)
removed_entry_reply kind name (some e) = removed_reply (str_eq e.kind kind) e.is_closed name

unfoldable pub specified_reply : Names → Operation → Reply
specified_reply n (create kind conf) = made (
    if n.is_shut
    then refused (err_topic conf.name creating_topic intracom_closed)
    else created_reply kind conf (n.at conf.name) n.next)
specified_reply n (remove kind name) = ended (removed_entry_reply kind name (n.at name))
specified_reply n (join kind name max_wait conf ws w) = silent
specified_reply n (leave kind name consumer channel w) = silent
specified_reply n shut =
    ended (if n.is_shut then some (err_intracom closing_topic intracom_closed) else none)
