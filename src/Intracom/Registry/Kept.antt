-- ===== src/Intracom/Registry/Kept.antt =====
-- What holds of a registry between two calls, and of the topics that it makes and keeps.
use rxd.Base.{
  ℕ, ◌+◌, ◌<◌, ◌≡◌, refl, ◌∙◌, Bool, true, false, String, Option, none, some, List, [], ◌∷◌, lookup,
  Dict, insert, if◌then◌else◌, arith, IsMap, insert-IsMap, Entries, Entries-lookup, Entries-insert,
  All,
}
use rxd.Intracom.Broadcast.{Request, subscribe, unsubscribe}
use rxd.Intracom.Broadcast.Invariant.{start-IsSound}
use rxd.Intracom.Topic.{
  Topic, TopicConfig, new_topic, Wait, not_sent, not_answered, answered, request, send_subscribe,
  send_unsubscribe, topic_subscribe, topic_unsubscribe, topic_close,
}
use rxd.Intracom.Topic.Races.{
  IsRunning, Call, subscribing, unsubscribing, closing, call, call-IsRunning,
}
use rxd.Intracom.Registry.{Intracom}

pub record IsKept {A : Type 0} (next : ℕ) (t : Topic A) : Type 0 where
  pub below : t.reference < next
  pub running : IsRunning t

pub record IsNamed {A : Type 0} (next : ℕ) (name : String) (t : Topic A) : Type 0 where
  pub named : t.name ≡ name
  pub kept : IsKept next t

-- The map holds each name once, its topics stand under their own names, and every topic made was
-- numbered and runs.
pub record IsRegistry {A : Type 0} (ic : Intracom A) : Type 0 where
  pub unique : IsMap ic.topics
  pub entries : Entries (IsNamed ic.next) ic.topics
  pub others : All (IsKept ic.next) ic.gone

abbrev pub IsRegistryOr : {A : Type 0} → Option (Intracom A) → Type 0
IsRegistryOr none = Unit
IsRegistryOr (some ic) = IsRegistry ic

module _ {A : Type 0} where
  pub IsKept-grow : (n : ℕ) (t : Topic A) → IsKept n t → IsKept (n + 1) t
  IsKept-grow n t v = record { below = omega (arith, v.below); running = v.running }

  pub Entries-grow :
      (n : ℕ) (m : Dict (Topic A)) → Entries (IsNamed n) m → Entries (IsNamed (n + 1)) m
  Entries-grow n [] h = tt
  Entries-grow n ((k, t) ∷ m) h =
      (record { named = h.0.named; kept = IsKept-grow n t h.0.kept }, Entries-grow n m h.1)

  pub All-grow : (n : ℕ) (ts : List (Topic A)) → All (IsKept n) ts → All (IsKept (n + 1)) ts
  All-grow n [] h = tt
  All-grow n (t ∷ ts) h = (IsKept-grow n t h.0, All-grow n ts h.1)

  pub request-same :
      (w : Wait) (t : Topic A) (r : Request)
      → ((request w t r).0.name ≡ t.name) × ((request w t r).0.reference ≡ t.reference)
  unfolding request
  request-same not_sent t r = (refl, refl)
  request-same not_answered t r = ground arith
  request-same answered t r = ground arith

  pub call-same :
      (t : Topic A) (c : Call)
      → ((call t c).0.name ≡ t.name) × ((call t c).0.reference ≡ t.reference)
  unfolding call topic_subscribe topic_unsubscribe topic_close send_subscribe send_unsubscribe
  call-same t (subscribing w conf) = ground (arith, request-same w t (subscribe conf))
  call-same t (unsubscribing w consumer channel) =
      ground (arith, request-same w t (unsubscribe consumer channel))
  call-same t closing = ground arith

  pub call-IsNamed :
      (n : ℕ) (name : String) (t : Topic A) (c : Call)
      → IsNamed n name t
      → IsNamed n name (call t c).0
  call-IsNamed n name t c v =
      let (names, references) = call-same t c in
      record {
        named = names ∙ v.named;
        kept = record {
          below = omega (arith, v.kept.below, references);
          running = (call-IsRunning t c v.kept.running).0;
        };
      }

  pub found-IsNamed :
      (ic : Intracom A) (name : String) (t : Topic A)
      → IsRegistry ic
      → lookup name ic.topics ≡ some t
      → IsNamed ic.next name t
  found-IsNamed ic name t v e = Entries-lookup (IsNamed ic.next) name t ic.topics v.entries e

  pub put-IsRegistry :
      (ic : Intracom A) (name : String) (t : Topic A)
      → IsRegistry ic
      → IsNamed ic.next name t
      → IsRegistry (record ic { topics = insert name t ic.topics })
  put-IsRegistry ic name t v h = record {
    unique = insert-IsMap name t ic.topics v.unique;
    entries = Entries-insert (IsNamed ic.next) name t ic.topics h v.entries;
    others = v.others;
  }

  pub new-IsNamed :
      (kind : String) (n : ℕ) (conf : TopicConfig)
      → IsNamed (n + 1) conf.name (new_topic {A = A} kind n conf)
  unfolding new_topic
  new-IsNamed kind n conf = record {
    named = refl;
    kept = record {
      below = omega arith;
      running = record { sound = start-IsSound conf.subscriber_aware; open_while_open = refl };
    };
  }

  -- A result under a test.
  pub tested-IsRegistry {κ} :
      {R : Type κ} (c : Bool) (p q : Option (Intracom A) × R)
      → IsRegistryOr p.0
      → IsRegistryOr q.0
      → IsRegistryOr (if c then p else q).0
  tested-IsRegistry true p q h k = h
  tested-IsRegistry false p q h k = k
