-- ===== src/Intracom/Registry/Sound.antt =====
-- Every operation of the registry keeps it sound.
use rxd.Base.{
  subst, sym, ℕ, ◌+◌, ◌≡◌, refl, Bool, true, false, String, Option, none, some, [], ◌∷◌, lookup,
  Dict, insert, delete, if◌then◌else◌, insert-IsMap, delete-IsMap, Entries, Entries-insert,
  Entries-delete, All, All-append, str_eq,
}
use rxd.Intracom.Subscriber.{SubscriberConfig}
use rxd.Intracom.Topic.{
  Topic, TopicConfig, new_topic, Wait, topic_subscribe, topic_unsubscribe, topic_close,
}
use rxd.Intracom.Topic.Races.{subscribing, unsubscribing, closing, call}
use rxd.Intracom.Failures.{Failure, err_topic, plain, removing_topic, invalid_topic_type}
use rxd.Intracom.Registry.{
  Intracom, create_topic, create_read, remove_topic, remove_found, Polled, gives_up, finds, polling,
  Made, create_subscription, poll, subscribe_found, remove_subscription, leave_found,
  close_intracom, close_topics,
}
use rxd.Intracom.Registry.Operations.{
  turns_on, Operation, create, remove, join, leave, shut, operate, FindsHere, poll-FindsHere,
}
use rxd.Intracom.Registry.Kept.{
  IsKept, IsNamed, IsRegistry, IsRegistryOr, Entries-grow, All-grow, call-IsNamed, found-IsNamed,
  put-IsRegistry, new-IsNamed, tested-IsRegistry,
}

module _ {A : Type 0} where
  create-IsRegistry :
      (kind : String) (ic : Intracom A) (conf : TopicConfig) (o : Option (Topic A))
      → IsRegistry ic
      → lookup conf.name ic.topics ≡ o
      → IsRegistry (create_read kind ic conf o).0
  unfolding create_read
  create-IsRegistry kind ic conf none v e = rw e (record {
    unique = insert-IsMap conf.name (new_topic kind ic.next conf) ic.topics v.unique;
    entries =
        Entries-insert (IsNamed (ic.next + 1)) conf.name (new_topic kind ic.next conf) ic.topics
          (new-IsNamed kind ic.next conf) (Entries-grow ic.next ic.topics v.entries);
    others = All-grow ic.next ic.gone v.others;
  })
  create-IsRegistry kind ic conf (some t) v e = gate (str_eq t.kind kind) conf.err_if_exists _ _ _
    where
      gate :
          (b c : Bool) (x y z : Made)
          → IsRegistry
              (if b then (if◌then◌else◌ {A = Intracom A × Made} c (ic, x) (ic, y)) else (ic, z)).0
      gate true true x y z = v
      gate true false x y z = v
      gate false c x y z = v

  remove-IsRegistry :
      (kind : String) (ic : Intracom A) (name : String) (o : Option (Topic A))
      → IsRegistry ic
      → lookup name ic.topics ≡ o
      → IsRegistry (remove_found kind ic name o).0
  unfolding remove_found
  remove-IsRegistry kind ic name none v e = v
  remove-IsRegistry kind ic name (some t) v e = gate (str_eq t.kind kind) (topic_close t).1
    where
      closed-IsNamed : IsNamed ic.next name (topic_close t).0
      closed-IsNamed =
          unfold call in call-IsNamed ic.next name t closing (found-IsNamed ic name t v e)

      gate :
          (b : Bool) (err : Option String)
          → IsRegistry
              (if◌then◌else◌ {A = Intracom A × Option Failure} b
                (elim err [
                  | none ↦ (
                    record ic {
                      topics = delete name ic.topics;
                      gone = (topic_close t).0 ∷ ic.gone;
                    },
                    none,
                  )
                  | some x ↦ (
                    record ic { topics = insert name (topic_close t).0 ic.topics },
                    some (err_topic name removing_topic (plain x)),
                  )
                ])
                (ic, some (err_topic name removing_topic invalid_topic_type))).0
      gate true none = record {
        unique = delete-IsMap name ic.topics v.unique;
        entries = Entries-delete (IsNamed ic.next) name ic.topics v.entries;
        others = (closed-IsNamed.kept, v.others);
      }
      gate true (some x) = put-IsRegistry ic name (topic_close t).0 v closed-IsNamed
      gate false err = v

  -- A loop that ends with a topic ends in a sound registry that names it.
  abbrev IsSoundEnd : String → Polled A → Type 0
  IsSoundEnd name (gives_up e) = Unit
  IsSoundEnd name polling = Unit
  IsSoundEnd name (finds ic t) = IsRegistry ic × IsNamed ic.next name t

  FindsHere-IsSoundEnd :
      (name : String) (ic : Intracom A) (p : Polled A)
      → IsRegistry ic
      → FindsHere name ic p
      → IsSoundEnd name p
  FindsHere-IsSoundEnd name ic (gives_up e) v h = tt
  FindsHere-IsSoundEnd name ic polling v h = tt
  FindsHere-IsSoundEnd name ic (finds ic' t) v (same, found) =
      subst (λ i. IsRegistry i × IsNamed i.next name t) (sym same)
        (v, found-IsNamed ic name t v found)

  join-IsRegistry :
      (kind name : String) (ic : Intracom A) (conf : SubscriberConfig) (w : Wait) (p : Polled A)
      → IsRegistry ic
      → IsSoundEnd name p
      → IsRegistryOr (subscribe_found kind (some ic) name conf w p).0
  unfolding subscribe_found
  join-IsRegistry kind name ic conf w (gives_up e) v h = v
  join-IsRegistry kind name ic conf w polling v h = v
  join-IsRegistry kind name ic conf w (finds ic' t) v h =
      tested-IsRegistry (str_eq t.kind kind) _ _
        (put-IsRegistry ic' name (topic_subscribe w t conf).0 h.0
          (unfold call in call-IsNamed ic'.next name t (subscribing w conf) h.1))
        h.0

  leave-IsRegistry :
      (kind : String) (ic : Intracom A) (name consumer : String) (channel : ℕ) (w : Wait)
      (o : Option (Topic A))
      → IsRegistry ic
      → lookup name ic.topics ≡ o
      → IsRegistryOr (leave_found kind ic name consumer channel w o).0
  unfolding leave_found
  leave-IsRegistry kind ic name consumer channel w none v e = v
  leave-IsRegistry kind ic name consumer channel w (some t) v e =
      tested-IsRegistry (str_eq t.kind kind) _ _
        (put-IsRegistry ic name (topic_unsubscribe w t consumer channel).0 v (
          unfold call in
          call-IsNamed ic.next name t (unsubscribing w consumer channel)
            (found-IsNamed ic name t v e)))
        v

  close_one-IsKept :
      (n : ℕ) (name : String) (t : Topic A) (c : Bool)
      → IsNamed n name t
      → IsKept n (if c then (topic_close t).0 else t)
  unfolding call
  close_one-IsKept n name t true h = (call-IsNamed n name t closing h).kept
  close_one-IsKept n name t false h = h.kept

  close_topics-IsKept :
      (n : ℕ) (m : Dict (Topic A)) → Entries (IsNamed n) m → All (IsKept n) (close_topics m)
  unfolding close_topics
  close_topics-IsKept n [] h = tt
  close_topics-IsKept n ((name, t) ∷ m) h =
      (close_one-IsKept n name t (str_eq t.kind "any") h.0, close_topics-IsKept n m h.1)

  shut-IsRegistry : (ic : Intracom A) → IsRegistry ic → IsRegistryOr (close_intracom (some ic)).0
  unfolding close_intracom
  shut-IsRegistry ic v = tested-IsRegistry ic.closed _ _ v (record {
    unique = tt;
    entries = tt;
    others =
        All-append (IsKept ic.next) (close_topics ic.topics) ic.gone
          (close_topics-IsKept ic.next ic.topics v.entries) v.others;
  })

-- Every call leaves the registry sound: each name stands once in the map and is its topic's name,
-- every topic was numbered, its channels are open while it is, and its broadcaster is sound; topics
-- that the registry has given up keep this too.
pub operate-IsRegistry :
    {A : Type 0} (ic : Intracom A) (op : Operation)
    → IsRegistry ic
    → IsRegistryOr (operate (some ic) op)
unfolding operate create_topic remove_topic create_subscription remove_subscription
operate-IsRegistry ic (create kind conf) v =
    tested-IsRegistry ic.closed _ _ v
      (create-IsRegistry kind ic conf (lookup conf.name ic.topics) v refl)
operate-IsRegistry ic (remove kind name) v =
    remove-IsRegistry kind ic name (lookup name ic.topics) v refl
operate-IsRegistry ic (join kind name n conf ws w) v =
    let p = poll name n conf (turns_on ic ws) in
    tested-IsRegistry ic.closed _ _ v (
      join-IsRegistry kind name ic conf w p v
        (FindsHere-IsSoundEnd name ic p v (poll-FindsHere name n conf ic ws)))
operate-IsRegistry ic (leave kind name consumer channel w) v =
    leave-IsRegistry kind ic name consumer channel w (lookup name ic.topics) v refl
operate-IsRegistry ic shut v = shut-IsRegistry ic v
