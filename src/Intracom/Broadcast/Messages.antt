-- ===== src/Intracom/Broadcast/Messages.antt =====
-- Broadcasting a message, and the passes of the loop.
use rxd.Base.{
  suc, ◌≡◌, refl, sym, ap, ◌∙◌, Bool, true, false, String, List, [], ◌∷◌, Dict, lookup, length,
  IsMap, Entries, ltb, Option, none, some, if◌then◌else◌, arith,
}
use rxd.Intracom.Channel.{Moment}
use rxd.Intracom.Subscriber.{Sent, sends, hangs, panics, send, Subscriber}
use rxd.Intracom.Broadcast.{
  Broadcaster, Delivered, reached, stuck, crashed, put, deliver, after_delivery, no_response, Event,
  message, publish_closed, requests_closed, request, Pass, goes, blocked, returns, panicked, pass,
}
use rxd.Intracom.Broadcast.Invariant.{references, IsListed, IsSound}
use rxd.Intracom.Broadcast.Requests.{on_request-IsSound}

module _ {A : Type 0} where
  -- A send changes the messages of the channel and nothing else.
  abbrev pub SameBut : Subscriber A → Subscriber A → Type 0
  SameBut s t =
      (t.consumer_group ≡ s.consumer_group)
      × (t.reference ≡ s.reference)
      × (t.closed ≡ s.closed)
      × (t.policy ≡ s.policy)

  abbrev SendsSame : Subscriber A → Sent A → Type 0
  SendsSame s (sends e t) = SameBut s t
  SendsSame s (hangs t) = SameBut s t
  SendsSame s panics = Unit {0}

  send-SendsSame : (s : Subscriber A) (x : A) (ms : List Moment) → SendsSame s (send s x ms)
  unfolding send
  send-SendsSame s x ms = ground arith

  -- The same groups, in the same order, on the same channels.
  abbrev pub Alike : Dict (Subscriber A) → Dict (Subscriber A) → Type 0
  Alike [] [] = Unit {0}
  Alike ((k, s) ∷ m) ((j, t) ∷ n) = (j ≡ k) × SameBut s t × Alike m n
  Alike _ _ = ⊥

  Alike-refl : (m : Dict (Subscriber A)) → Alike m m
  Alike-refl [] = tt
  Alike-refl ((k, s) ∷ m) = (refl, (refl, refl, refl, refl), Alike-refl m)

  abbrev DeliversAlike : Dict (Subscriber A) → Delivered A → Type 0
  DeliversAlike m (reached n) = Alike m n
  DeliversAlike m (stuck n) = Alike m n
  DeliversAlike m crashed = Unit {0}

  put-Alike :
      (k : String) (s t : Subscriber A) (m : Dict (Subscriber A)) (d : Delivered A)
      → SameBut s t
      → DeliversAlike m d
      → DeliversAlike ((k, s) ∷ m) (put k t d)
  put-Alike k s t m (reached n) h a = (refl, h, a)
  put-Alike k s t m (stuck n) h a = (refl, h, a)
  put-Alike k s t m crashed h a = tt

  deliver-Alike :
      (x : A) (ms : String → List Moment) (m : Dict (Subscriber A))
      → DeliversAlike m (deliver x ms m)
  unfolding deliver
  deliver-Alike x ms [] = tt
  deliver-Alike x ms ((k, s) ∷ m) =
      step (send s x (ms k)) (send-SendsSame s x (ms k)) (deliver-Alike x ms m)
    where
      step :
          (r : Sent A)
          → SendsSame s r
          → DeliversAlike m (deliver x ms m)
          → DeliversAlike ((k, s) ∷ m) (elim r [
            | sends e s' ↦ put k s' (deliver x ms m)
            | hangs s' ↦ stuck ((k, s') ∷ m)
            | panics ↦ crashed
          ])
      step (sends e t) h ih = put-Alike k s t m (deliver x ms m) h ih
      step (hangs t) h ih = (refl, h, Alike-refl m)
      step panics h ih = tt

  Alike-references : (m n : Dict (Subscriber A)) → Alike m n → references n ≡ references m
  Alike-references [] [] a = refl
  Alike-references ((k, s) ∷ m) ((j, t) ∷ n) (_, h, a) = cc (Alike-references m n a, h.1)
  Alike-references [] ((j, t) ∷ n) a = absurd a
  Alike-references ((k, s) ∷ m) [] a = absurd a

  Alike-length : (m n : Dict (Subscriber A)) → Alike m n → length n ≡ length m
  Alike-length [] [] a = refl
  Alike-length ((k, s) ∷ m) ((j, t) ∷ n) (_, h, a) = ap suc (Alike-length m n a)
  Alike-length [] ((j, t) ∷ n) a = absurd a
  Alike-length ((k, s) ∷ m) [] a = absurd a

  Alike-lookup :
      (i : String) (m n : Dict (Subscriber A)) → Alike m n → lookup i m ≡ none → lookup i n ≡ none
  unfolding lookup
  Alike-lookup i [] [] a h = refl
  Alike-lookup i ((k, s) ∷ m) ((j, t) ∷ n) (e, _, a) h = ground (arith, e, Alike-lookup i m n a)
  Alike-lookup i [] ((j, t) ∷ n) a h = absurd a
  Alike-lookup i ((k, s) ∷ m) [] a h = absurd a

  Alike-IsMap : (m n : Dict (Subscriber A)) → Alike m n → IsMap m → IsMap n
  Alike-IsMap [] [] a h = tt
  Alike-IsMap ((k, s) ∷ m) ((j, t) ∷ n) (e, _, a) h =
      (rw e (Alike-lookup k m n a h.0), Alike-IsMap m n a h.1)
  Alike-IsMap [] ((j, t) ∷ n) a h = absurd a
  Alike-IsMap ((k, s) ∷ m) [] a h = absurd a

  Alike-Entries : (m n : Dict (Subscriber A)) → Alike m n → Entries IsListed m → Entries IsListed n
  Alike-Entries [] [] a h = tt
  Alike-Entries ((k, s) ∷ m) ((j, t) ∷ n) (e, b, a) h = (
    record { named = b.0 ∙ h.0.named ∙ sym e; is_open = b.2 ∙ h.0.is_open },
    Alike-Entries m n a h.1,
  )
  Alike-Entries [] ((j, t) ∷ n) a h = absurd a
  Alike-Entries ((k, s) ∷ m) [] a h = absurd a

  delivered-IsSound :
      (b : Broadcaster A) (n : Dict (Subscriber A)) (o : Option A)
      → Alike b.subscribers n
      → IsSound b
      → IsSound (record b { subscribers = n; last_message = o })
  delivered-IsSound b n o a v = record {
    parts = record {
      unique = Alike-IsMap b.subscribers n a v.parts.unique;
      entries = Alike-Entries b.subscribers n a v.parts.entries;
      distinct = rw (Alike-references b.subscribers n a) v.parts.distinct;
      below = rw (Alike-references b.subscribers n a) v.parts.below;
    };
    aware = λ e. v.aware e ∙ ap (ltb 0) (sym (Alike-length b.subscribers n a));
  }

-- What holds of the state that a pass leaves.
abbrev pub Leaves : {A : Type 0} → (Broadcaster A → Type 0) → Pass A → Type 0
Leaves P (goes b r) = P b
Leaves P (blocked b) = P b
Leaves P returns = Unit {0}
Leaves P panicked = Unit {0}

-- Every pass of the loop keeps the broadcaster sound, also one that blocks in a handler.
pub pass-IsSound :
    {A : Type 0} (b : Broadcaster A) (e : Event A) → IsSound b → Leaves IsSound (pass b e)
unfolding pass
pass-IsSound b (message x ms) v = gate b.broadcasting
  where
    split :
        (d : Delivered _) → DeliversAlike b.subscribers d → Leaves IsSound (after_delivery b x d)
    split (reached n) a = delivered-IsSound b n (some x) a v
    split (stuck n) a = delivered-IsSound b n b.last_message a v
    split crashed a = tt

    gate :
        (c : Bool)
        → Leaves IsSound
            (if c then after_delivery b x (deliver x ms b.subscribers) else goes b no_response)
    gate true = split (deliver x ms b.subscribers) (deliver-Alike x ms b.subscribers)
    gate false = v
pass-IsSound b publish_closed v = gate b.broadcasting
  where
    gate : (c : Bool) → Leaves IsSound (if c then returns else goes b no_response)
    gate true = tt
    gate false = v
pass-IsSound b requests_closed v = tt
pass-IsSound b (request r) v = on_request-IsSound b r v
