-- ===== src/Intracom/Broadcast/Requests.antt =====
-- Every request keeps a broadcaster sound.
use mathlib.Core.List.{perm_middle}
use mathlib.Core.List.Perm
use rxd.Base.{
  ℕ, ◌+◌, ◌<◌, ◌≡◌, refl, sym, ◌∙◌, true, false, String, [], ◌∷◌, ◌++◌, Perm, Dict, lookup, insert,
  delete, length, insert-IsMap, delete-IsMap, Entries-lookup, Entries-insert, Entries-delete,
  length-insert_new, ◌==◌, Option, none, some, arith, append_assoc, Bool-cases, inl, inr,
}
use rxd.Intracom.Subscriber.{Subscriber, SubscriberConfig, new_subscriber, close}
use rxd.Intracom.Broadcast.{
  Broadcaster, Request, subscribe, unsubscribe, close_all, unknown, enable, disable, replay,
  on_subscribe, on_unsubscribe, close_subscribers, on_request,
}
use rxd.Intracom.Broadcast.Invariant.{
  references, channels, IsListed, IsConsistent, IsSound, references-insert, references-delete,
  close_subscribers-perm, enable-IsConsistent, disable-IsConsistent, enable_aware, disable_aware,
  replay-same, fresh-distinct, enable_same, disable_same,
}

module _ {A : Type 0} where
  lookup-length :
      (k : String) (s : Subscriber A) (subs : Dict (Subscriber A))
      → lookup k subs ≡ some s
      → 0 < length subs
  unfolding lookup
  lookup-length k s [] h = cc
  lookup-length k s ((j, t) ∷ subs) h = omega arith

  -- The subscriber that a subscription makes.
  abbrev pub made : Broadcaster A → SubscriberConfig → Subscriber A
  made b conf = replay b.last_message (new_subscriber conf b.next)

  pub made-IsListed :
      (b : Broadcaster A) (conf : SubscriberConfig)
      → IsListed conf.consumer_group (made b conf) × ((made b conf).reference ≡ b.next)
  unfolding new_subscriber
  made-IsListed b conf =
      let same = replay-same b.last_message (new_subscriber {A = A} conf b.next) in
      (record { named = same.1; is_open = same.2 }, same.0)

  add-IsConsistent :
      (b : Broadcaster A) (conf : SubscriberConfig)
      → IsConsistent b
      → lookup conf.consumer_group b.subscribers ≡ none
      → IsConsistent (record b {
        subscribers = insert conf.consumer_group (made b conf) b.subscribers;
        next = b.next + 1;
      })
  add-IsConsistent b conf v h = record {
    unique = insert-IsMap conf.consumer_group (made b conf) b.subscribers v.unique;
    entries =
        Entries-insert IsListed conf.consumer_group (made b conf) b.subscribers
          (made-IsListed b conf).0 v.entries;
    distinct = (fresh-distinct b _ v moved).0;
    below = (fresh-distinct b _ v moved).1;
  }
    where
      moved :
          Perm
            (b.next ∷ channels b)
            (references (insert conf.consumer_group (made b conf) b.subscribers) ++ b.closed)
      moved =
          rw
            (
              references-insert conf.consumer_group (made b conf) b.subscribers h,
              (made-IsListed b conf).1,
              append_assoc (references b.subscribers) (b.next ∷ []) b.closed,
            )
            (Perm.symm (perm_middle (references b.subscribers) b.closed))

  enabled :
      (b : Broadcaster A)
      → (b.broadcasting ≡ true → 0 < length b.subscribers)
      → IsConsistent b
      → IsSound (enable b)
  enabled b h v = record {
    parts = enable-IsConsistent b v;
    aware = λ e. enable_aware b h (sym (enable_same b) ∙ e);
  }

  disabled :
      (b : Broadcaster A)
      → (b.subscriber_aware ≡ true → b.broadcasting ≡ false → length b.subscribers ≡ 0)
      → IsConsistent b
      → IsSound (disable b)
  disabled b h v = record {
    parts = disable-IsConsistent b v;
    aware = λ e. let a = sym (disable_same b) ∙ e in disable_aware b (h a) a;
  }

  subscribe-IsSound :
      (b : Broadcaster A) (conf : SubscriberConfig)
      → IsSound b
      → IsSound (on_request b (subscribe conf)).0
  unfolding on_request on_subscribe
  subscribe-IsSound b conf v = split (lookup conf.consumer_group b.subscribers) refl
    where
      split :
          (o : Option (Subscriber A))
          → lookup conf.consumer_group b.subscribers ≡ o
          → IsSound (on_subscribe b conf o).0
      split (some s) e = elim (Bool-cases conf.err_if_exists) [
        | inl y ↦ rw y v
        | inr y ↦
            rw y (enabled b (λ _. lookup-length conf.consumer_group s b.subscribers e) v.parts)
      ]
      split none e =
          enabled _
            (λ _.
              omega (arith, length-insert_new conf.consumer_group (made b conf) b.subscribers e))
            (add-IsConsistent b conf v.parts e)

  remove-IsConsistent :
      (b : Broadcaster A) (k : String) (s : Subscriber A)
      → IsConsistent b
      → lookup k b.subscribers ≡ some s
      → IsConsistent
          (record b { subscribers = delete k b.subscribers; closed = s.reference ∷ b.closed })
  remove-IsConsistent b k s v e = record {
    unique = delete-IsMap k b.subscribers v.unique;
    entries = Entries-delete IsListed k b.subscribers v.entries;
    distinct = Perm.nodup moved v.distinct;
    below = λ r m. v.below r ((Perm.mem_iff moved).1 m);
  }
    where
      moved :
          Perm
            (references b.subscribers ++ b.closed)
            (references (delete k b.subscribers) ++ s.reference ∷ b.closed)
      moved =
          Perm.trans (Perm.append_right b.closed (references-delete k s b.subscribers e))
            (Perm.symm (perm_middle (references (delete k b.subscribers)) b.closed))

  unsubscribe-IsSound :
      (b : Broadcaster A) (k : String) (reference : ℕ)
      → IsSound b
      → IsSound (on_request b (unsubscribe k reference)).0
  unfolding on_request on_unsubscribe close
  unsubscribe-IsSound b k reference v = split (lookup k b.subscribers) refl
    where
      split :
          (o : Option (Subscriber A))
          → lookup k b.subscribers ≡ o
          → IsSound (on_unsubscribe b k reference o).0
      split none e = disabled b (λ a f. ground (arith, v.aware a)) v.parts
      split (some s) e = elim (Bool-cases (s.reference == reference)) [
        | inl y ↦
            let l = Entries-lookup IsListed k s b.subscribers v.parts.entries e in
            rw (y, l.is_open)
              (disabled _ (λ a f. ground (arith, v.aware a, lookup-length k s b.subscribers e))
                (remove-IsConsistent b k s v.parts e))
        | inr y ↦ rw y v
      ]

  close_all-IsSound : (b : Broadcaster A) → IsSound b → IsSound (on_request b close_all).0
  unfolding on_request
  close_all-IsSound b v = record {
    parts = record {
      unique = tt;
      entries = tt;
      distinct = Perm.nodup all v.parts.distinct;
      below = λ r m. v.parts.below r ((Perm.mem_iff all).1 m);
    };
    aware = λ a. refl;
  }
    where
      all : Perm (references b.subscribers ++ b.closed) (close_subscribers b.subscribers b.closed)
      all = close_subscribers-perm b.subscribers b.closed v.parts.entries

-- Every request keeps the broadcaster sound: consumer groups are unique and their subscribers open,
-- no channel serves two groups, none is closed twice or closed while it serves a group, and under
-- SubscriberAware messages are received exactly while there are subscribers.
pub on_request-IsSound :
    {A : Type 0} (b : Broadcaster A) (r : Request) → IsSound b → IsSound (on_request b r).0
on_request-IsSound b (subscribe conf) v = subscribe-IsSound b conf v
on_request-IsSound b (unsubscribe k reference) v = unsubscribe-IsSound b k reference v
on_request-IsSound b close_all v = close_all-IsSound b v
on_request-IsSound b unknown v = unfold on_request in v
