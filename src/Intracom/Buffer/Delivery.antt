-- ===== src/Intracom/Buffer/Delivery.antt =====
-- What a buffer policy does to the messages: their order, their number and the room they take.
use rxd.Base.{
  ◌≤◌, ◌≡◌, refl, sym, ap, ◌∙◌, Bool, true, false, ◌&&◌, String, List, [], ◌∷◌, ◌++◌, length, drop,
  if◌then◌else◌, Option, none, some, arith, append_assoc, append-nil, take-append-drop,
  length-append, length-drop-le,
}
use mathlib.Core.List.{Sublist}
use mathlib.Core.List.Sublist
use rxd.Intracom.Channel.{
  Chan, Moment, Case, stop, op, timer, arrive, can_send, send, pop, choose, is_empty,
}
use rxd.Intracom.Buffer.{Handled, ends, blocks, on_case}

module _ {ℓ} {A : Type ℓ} where
  -- All the messages that the channel still has or gave to the consumer, in order.
  abbrev pub kept : Chan A → List A
  kept c = c.taken ++ c.buffer

  abbrev pub Fits : Chan A → Type 0
  Fits c = length c.buffer ≤ c.size

  pub kept-arrive : (m : Moment) (c : Chan A) → kept (arrive m c) ≡ kept c
  unfolding arrive
  kept-arrive m c = append_assoc c.taken _ _ ∙ ap (◌++◌ c.taken) (take-append-drop m.takes c.buffer)

  pub arrive-Fits : (m : Moment) (c : Chan A) → Fits c → Fits (arrive m c)
  unfolding arrive
  arrive-Fits m c h = omega (arith, length-drop-le m.takes c.buffer)

  pub kept-send : (m : Moment) (c : Chan A) (x : A) → kept (send m c x) ≡ kept c ++ x ∷ []
  unfolding send
  kept-send m c x = split (m.waits) c.buffer refl
    where
      split :
          (w : Bool) (b : List A)
          → c.buffer ≡ b
          → kept (
              if w && is_empty c.buffer
              then record c { taken = c.taken ++ x ∷ [] }
              else record c { buffer = c.buffer ++ x ∷ [] })
            ≡ kept c ++ x ∷ []
      split false b e = sym (append_assoc c.taken c.buffer (x ∷ []))
      split true [] e =
          rw e (append-nil (c.taken ++ x ∷ []) ∙ ap (λ l. l ++ x ∷ []) (sym (append-nil c.taken)))
      split true (y ∷ b) e = rw e (sym (append_assoc c.taken (y ∷ b) (x ∷ [])))

  pub send-Fits :
      (m : Moment) (c : Chan A) (x : A) → can_send m c ≡ true → Fits c → Fits (send m c x)
  unfolding send can_send
  send-Fits m c x h f = ground (arith, length-append c.buffer (x ∷ []))

  pub kept-pop : (c : Chan A) → Sublist (kept (pop c)) (kept c)
  unfolding pop
  kept-pop c = Sublist.append (Sublist.refl c.taken) (drop-sublist c.buffer)
    where
      drop-sublist : (xs : List A) → Sublist (drop 1 xs) xs
      drop-sublist [] = Sublist.refl []
      drop-sublist (y ∷ ys) = Sublist.cons y (Sublist.refl ys)

  pub pop-Fits : (c : Chan A) → Fits c → Fits (pop c)
  unfolding pop
  pop-Fits c f = omega (arith, length-drop-le 1 c.buffer)

-- A case is taken only if it is ready, and none only if none is.
abbrev pub IsReady : Bool → Bool → Bool → Option Case → Type 0
IsReady s o t (some stop) = s ≡ true
IsReady s o t (some op) = o ≡ true
IsReady s o t (some timer) = t ≡ true
IsReady s o t none = (s ≡ false) × (o ≡ false) × (t ≡ false)

pub choose-IsReady : (p : Case) (s o t : Bool) → IsReady s o t (choose p s o t)
unfolding choose
choose-IsReady stop s o t = ground arith
choose-IsReady op s o t = ground arith
choose-IsReady timer s o t = ground arith

module _ {ℓ} {A : Type ℓ} where
  -- What holds of the channel when the handler ends, and when it blocks.
  abbrev pub Post : (Option String → Chan A → Type ℓ) → (Chan A → Type ℓ) → Handled A → Type ℓ
  Post P Q (ends e c ms) = P e c
  Post P Q (blocks c) = Q c

  -- The rule for a `select`: what each case that is ready leads to.
  pub on_case-Post :
      (P : Option String → Chan A → Type ℓ) (Q : Chan A → Type ℓ) (p : Case) (s o t : Bool)
      (a b c d : Handled A)
      → (s ≡ true → Post P Q a)
      → (o ≡ true → Post P Q b)
      → (t ≡ true → Post P Q c)
      → ((s ≡ false) × (o ≡ false) × (t ≡ false) → Post P Q d)
      → Post P Q (on_case (choose p s o t) a b c d)
  on_case-Post P Q p s o t a b c d ha hb hc hd = step (choose p s o t) (choose-IsReady p s o t)
    where
      step : (x : Option Case) → IsReady s o t x → Post P Q (on_case x a b c d)
      step (some stop) r = ha r
      step (some op) r = hb r
      step (some timer) r = hc r
      step none r = hd r
