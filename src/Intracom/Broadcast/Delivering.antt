-- ===== src/Intracom/Broadcast/Delivering.antt =====
-- What a broadcast makes of the subscribers, and when it does not come to its end.
use rxd.Base.{
  ◌≡◌, refl, sym, ap, ◌∙◌, true, if-true, String, List, [], ◌∷◌, Dict, Entries, Option, some,
}
use rxd.Intracom.Channel.{Moment}
use rxd.Intracom.Subscriber.{Sent, sends, hangs, panics, send, Subscriber}
use rxd.Intracom.Broadcast.{
  Broadcaster, Delivered, reached, stuck, crashed, put, deliver, after_delivery, no_response,
  message, goes, pass,
}
use rxd.Intracom.Broadcast.Invariant.{IsSound}
use rxd.Intracom.Broadcast.Messages.{Leaves, pass-IsSound}

module _ {A : Type 0} (x : A) (ms : String → List Moment) where
  -- The subscriber's handler returns, with an error or without.
  abbrev pub Returns : String → Subscriber A → Type 0
  Returns k s = (e : Option String) × (t : Subscriber A) × (send s x (ms k) ≡ sends e t)

  -- Each subscriber is what Send makes of it, in the same group and order.
  abbrev pub EachSent : Dict (Subscriber A) → Dict (Subscriber A) → Type 0
  EachSent [] [] = Unit {0}
  EachSent ((k, s) ∷ m) ((j, t) ∷ n) =
      (j ≡ k) × ((e : Option String) × (send s x (ms k) ≡ sends e t)) × EachSent m n
  EachSent _ _ = ⊥

  -- What a delivery does after one Send.
  abbrev on_sent : String → Dict (Subscriber A) → Sent A → Delivered A
  on_sent k m (sends e s) = put k s (deliver x ms m)
  on_sent k m (hangs s) = stuck ((k, s) ∷ m)
  on_sent k m panics = crashed

  deliver-cons :
      (k : String) (s : Subscriber A) (m : Dict (Subscriber A))
      → deliver x ms ((k, s) ∷ m) ≡ on_sent k m (send s x (ms k))
  unfolding deliver
  deliver-cons k s m = go (send s x (ms k))
    where
      go :
          (r : Sent A)
          → (elim r [
            | sends e s' ↦ put k s' (deliver x ms m)
            | hangs s' ↦ stuck ((k, s') ∷ m)
            | panics ↦ crashed
          ])
            ≡ on_sent k m r
      go (sends e t) = refl
      go (hangs t) = refl
      go panics = refl

  deliver-EachSent :
      (m : Dict (Subscriber A))
      → Entries Returns m
      → (n : Dict (Subscriber A)) × (deliver x ms m ≡ reached n) × EachSent m n
  unfolding deliver
  deliver-EachSent [] h = ([], refl, tt)
  deliver-EachSent ((k, s) ∷ m) ((e, t, q), h) =
      let (n, r, each) = deliver-EachSent m h in
      ((k, t) ∷ n, deliver-cons k s m ∙ ap (on_sent k m) q ∙ ap (put k t) r, (refl, (e, q), each))

  put-reached :
      (k : String) (t : Subscriber A) (d : Delivered A) (n : Dict (Subscriber A))
      → put k t d ≡ reached n
      → (n' : Dict (Subscriber A)) × (d ≡ reached n')
  put-reached k t (reached n') n h = (n', refl)
  put-reached k t (stuck n') n h = cc
  put-reached k t crashed n h = cc

  sent-Returns :
      (k : String) (s : Subscriber A) (m n : Dict (Subscriber A)) (r : Sent A)
      → send s x (ms k) ≡ r
      → on_sent k m r ≡ reached n
      → Returns k s × ((n' : Dict (Subscriber A)) × (deliver x ms m ≡ reached n'))
  sent-Returns k s m n (sends e t) q h = ((e, t, q), put-reached k t (deliver x ms m) n h)
  sent-Returns k s m n (hangs t) q h = cc
  sent-Returns k s m n panics q h = cc

  pub deliver-Returns : (m n : Dict (Subscriber A)) → deliver x ms m ≡ reached n → Entries Returns m
  deliver-Returns [] n h = tt
  deliver-Returns ((k, s) ∷ m) n h =
      let (first, (n', d)) =
        sent-Returns k s m n (send s x (ms k)) refl (sym (deliver-cons k s m) ∙ h) in
      (first, deliver-Returns m n' d)

-- A message that is received while broadcasting: if every subscriber's handler returns, errors
-- included, the loop goes on with each subscriber as its Send left it, the message kept as the last
-- one, and all else as it was. Only then does it go on. And however the pass ends, a sound
-- broadcaster stays sound.
pub pass_delivers :
    {A : Type 0} (b : Broadcaster A) (x : A) (ms : String → List Moment)
    → b.broadcasting ≡ true
    → IsSound b
    → (Entries (Returns x ms) b.subscribers
        → (n : Dict (Subscriber A)) × (pass b (message x ms)
            ≡ goes (record b { subscribers = n; last_message = some x }) no_response)
          × EachSent x ms b.subscribers n)
      × ((b' : Broadcaster A) (r : _)
          → pass b (message x ms) ≡ goes b' r
          → Entries (Returns x ms) b.subscribers)
      × Leaves IsSound (pass b (message x ms))
unfolding pass
pass_delivers b x ms on v = (
  λ h.
      let (n, r, each) = deliver-EachSent x ms b.subscribers h in
      (n, if-true b.broadcasting _ _ on ∙ ap (after_delivery b x) r, each),
  λ b' r h. came (deliver x ms b.subscribers) refl b' r (sym (if-true b.broadcasting _ _ on) ∙ h),
  pass-IsSound b (message x ms) v,
)
  where
    came :
        (d : Delivered _)
        → deliver x ms b.subscribers ≡ d
        → (b' : Broadcaster _) (r : _) → after_delivery b x d ≡ goes b' r
        → Entries (Returns x ms) b.subscribers
    came (reached n) q b' r h = deliver-Returns x ms b.subscribers n q
    came (stuck n) q b' r h = cc
    came crashed q b' r h = cc
