-- ===== src/Intracom/Broadcast/Invariant.antt =====
-- What holds of a broadcaster between two passes of its loop.
use mathlib.Core.List.{perm_middle, Nodup-cons, Nodup-nil, not-mem-nil, mem-cons}
use mathlib.Core.List.Perm
use mathlib.Core.Logic.Or
use native.Mathlib.Bridge.{le_prop}
use rxd.Base.{
  ℕ, ◌+◌, ◌<◌, ◌≡◌, refl, subst, Bool, true, false, String, List, [], ◌∷◌, ◌++◌, Mem, Perm, Nodup,
  Dict, lookup, insert, delete, length, IsMap, Entries, ltb, Option, none, some, if◌then◌else◌,
  arith, str_eq, Bool-cases, inl, inr,
}
use rxd.Intracom.Subscriber.{Subscriber, close}
use rxd.Intracom.Broadcast.{Broadcaster, start, enable, disable, replay, close_subscribers}

module _ {A : Type 0} where
  -- The channels of the subscribers.
  abbrev pub references : Dict (Subscriber A) → List ℕ
  references [] = []
  references ((k, s) ∷ subs) = s.reference ∷ references subs

  -- All channels made: those of the subscribers and those closed.
  abbrev pub channels : Broadcaster A → List ℕ
  channels b = references b.subscribers ++ b.closed

  -- An entry stands under its own consumer group, and is open.
  pub record IsListed (k : String) (s : Subscriber A) : Type 0 where
    pub named : s.consumer_group ≡ k
    pub is_open : s.closed ≡ false

  pub record IsConsistent (b : Broadcaster A) : Type 0 where
    pub unique : IsMap b.subscribers
    pub entries : Entries IsListed b.subscribers
    -- No channel serves two consumer groups, and none is closed twice or closed while it serves one.
    pub distinct : Nodup (channels b)
    pub below : (r : ℕ) → Mem r (channels b) → r < b.next

  -- Under SubscriberAware messages are received exactly while there are subscribers.
  pub record IsSound (b : Broadcaster A) : Type 0 where
    pub parts : IsConsistent b
    pub aware : b.subscriber_aware ≡ true → b.broadcasting ≡ ltb 0 (length b.subscribers)

  pub references-insert :
      (k : String) (s : Subscriber A) (subs : Dict (Subscriber A))
      → lookup k subs ≡ none
      → references (insert k s subs) ≡ references subs ++ s.reference ∷ []
  unfolding insert lookup
  references-insert k s [] h = refl
  references-insert k s ((j, t) ∷ subs) h = ground (arith, references-insert k s subs)

  pub references-delete :
      (k : String) (s : Subscriber A) (subs : Dict (Subscriber A))
      → lookup k subs ≡ some s
      → Perm (references subs) (s.reference ∷ references (delete k subs))
  unfolding delete lookup
  references-delete k s [] h = cc
  references-delete k s ((j, t) ∷ subs) h = elim (Bool-cases (str_eq j k)) [
    | inl y ↦
        let q : t ≡ s = ground (arith, y, h) in
        rw y (
          subst (λ u. Perm (t.reference ∷ references subs) (u.reference ∷ references subs)) q
            (Perm.refl (t.reference ∷ references subs)))
    | inr y ↦ rw y (
        Perm.trans (Perm.cons t.reference (references-delete k s subs (ground (arith, y, h))))
          (Perm.swap s.reference t.reference (references (delete k subs))))
  ]

  pub close_subscribers-perm :
      (subs : Dict (Subscriber A)) (closed : List ℕ)
      → Entries IsListed subs
      → Perm (references subs ++ closed) (close_subscribers subs closed)
  unfolding close_subscribers close
  close_subscribers-perm [] closed h = Perm.refl closed
  close_subscribers-perm ((k, s) ∷ subs) closed h = rw h.0.is_open (
      Perm.trans (Perm.symm (perm_middle (references subs) closed))
        (close_subscribers-perm subs (s.reference ∷ closed) h.1))

  pub start-IsSound : (aware : Bool) → IsSound (start {A = A} aware)
  unfolding start
  start-IsSound aware = record {
    parts = record {
      unique = tt;
      entries = tt;
      distinct = Nodup-nil;
      below = λ r m. absurd (not-mem-nil m);
    };
    aware = λ e. rw e;
  }

  -- A switch of `broadcasting` keeps the other parts.
  switch-IsConsistent :
      (b : Broadcaster A) (c on : Bool)
      → IsConsistent b
      → IsConsistent (if c then record b { broadcasting = on } else b)
  switch-IsConsistent b true on v = record {
    unique = v.unique;
    entries = v.entries;
    distinct = v.distinct;
    below = v.below;
  }
  switch-IsConsistent b false on v = v

  pub enable-IsConsistent : (b : Broadcaster A) → IsConsistent b → IsConsistent (enable b)
  unfolding enable
  enable-IsConsistent b v = switch-IsConsistent b _ true v

  pub disable-IsConsistent : (b : Broadcaster A) → IsConsistent b → IsConsistent (disable b)
  unfolding disable
  disable-IsConsistent b v = switch-IsConsistent b _ false v

  -- After either switch the awareness holds, if `broadcasting` was not the other way round before.
  pub enable_aware :
      (b : Broadcaster A)
      → (b.broadcasting ≡ true → 0 < length b.subscribers)
      → b.subscriber_aware ≡ true
      → (enable b).broadcasting ≡ ltb 0 (length (enable b).subscribers)
  unfolding enable
  enable_aware b h a = ground (arith, h)

  pub disable_aware :
      (b : Broadcaster A)
      → (b.broadcasting ≡ false → length b.subscribers ≡ 0)
      → b.subscriber_aware ≡ true
      → (disable b).broadcasting ≡ ltb 0 (length (disable b).subscribers)
  unfolding disable
  disable_aware b h a = ground (arith, h)

  pub enable_same : (b : Broadcaster A) → (enable b).subscriber_aware ≡ b.subscriber_aware
  unfolding enable
  enable_same b = ground arith

  pub disable_same : (b : Broadcaster A) → (disable b).subscriber_aware ≡ b.subscriber_aware
  unfolding disable
  disable_same b = ground arith

  pub replay-same :
      (o : Option A) (s : Subscriber A)
      → ((replay o s).reference ≡ s.reference)
        × ((replay o s).consumer_group ≡ s.consumer_group)
        × ((replay o s).closed ≡ s.closed)
  unfolding replay
  replay-same none s = (refl, refl, refl)
  replay-same (some x) s = ground arith

  -- A new channel is unlike all others.
  pub fresh-distinct :
      (b : Broadcaster A) (rs : List ℕ)
      → IsConsistent b
      → Perm (b.next ∷ channels b) rs
      → Nodup rs × ((r : ℕ) → Mem r rs → r < b.next + 1)
  fresh-distinct b rs v p = (
    Perm.nodup p (Nodup-cons.1 ((λ m. absurd (omega (arith, v.below b.next m))), v.distinct)),
    λ r m.
        Or.elim le_prop (mem-cons.0 ((Perm.mem_iff p).1 m)) (λ e. omega (arith, e))
          (λ m'. omega (arith, v.below r m')),
  )
