-- ===== src/Intracom/Channel.antt =====
-- A subscriber's Go channel, and what a `select` on it meets. `taken` and `dropped` are the
-- histories of the messages that the consumer received and that a buffer policy threw away; no code
-- reads them.
use rxd.Base.{
  ℕ, Bool, true, false, ◌&&◌, ◌||◌, List, [], ◌∷◌, ◌++◌, length, take, drop, if◌then◌else◌, ltb,
  Option, none, some,
}

pub record Chan {ℓ} (A : Type ℓ) : Type ℓ where
  pub size : ℕ
  pub buffer : List A
  pub taken : List A
  pub dropped : List A

-- The cases of a `select`: the stop channel, the operation on the subscriber's channel, the timer.
pub data Case : Type 0 where
  stop op timer : Case

-- What a `select` meets: how many messages the consumer took before, whether it waits in a receive,
-- whether the stop channel is closed, whether the timer has fired, and the case that the runtime
-- takes if several are ready and this is one of them.
pub record Moment : Type 0 where
  pub takes : ℕ
  pub waits : Bool
  pub stopped : Bool
  pub fired : Bool
  pub prefers : Case

module _ {ℓ} {A : Type ℓ} where
  -- The consumer's receives before the `select`.
  unfoldable pub arrive : Moment → Chan A → Chan A
  arrive m c = record c { buffer = drop m.takes c.buffer; taken = c.taken ++ take m.takes c.buffer }

  abbrev pub is_empty : List A → Bool
  is_empty [] = true
  is_empty (x ∷ xs) = false

  -- A send proceeds if the buffer has room, or if a receiver waits at an empty buffer.
  unfoldable pub can_send : Moment → Chan A → Bool
  can_send m c = (m.waits && is_empty c.buffer) || ltb (length c.buffer) c.size

  unfoldable pub send : Moment → Chan A → A → Chan A
  send m c x =
      if m.waits && is_empty c.buffer
      then record c { taken = c.taken ++ x ∷ [] }
      else record c { buffer = c.buffer ++ x ∷ [] }

  -- `<-ch` by the policy: the oldest message is thrown away.
  unfoldable pub can_pop : Chan A → Bool
  can_pop c = not_empty c.buffer
    where
      not_empty : List A → Bool
      not_empty [] = false
      not_empty (x ∷ xs) = true

  unfoldable pub pop : Chan A → Chan A
  pop c = record c { buffer = drop 1 c.buffer; dropped = c.dropped ++ take 1 c.buffer }

-- The case taken, if one is ready: the preferred one, or else the first.
unfoldable pub choose : Case → Bool → Bool → Bool → Option Case
choose stop s o t = if s then some stop else if o then some op else if t then some timer else none
choose op s o t = if o then some op else if s then some stop else if t then some timer else none
choose timer s o t = if t then some timer else if s then some stop else if o then some op else none
