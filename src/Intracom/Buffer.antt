-- ===== src/Intracom/Buffer.antt =====
-- intracom/buffer_policy.go: the five policies. A handler runs on a list of moments, one for each
-- `select` that it enters or waits at; `blocks` means that the moments are used up at a `select`
-- with no default.
pub mod Delivery
pub mod Guarantees
pub mod Oldest
pub mod InOrder
use rxd.Base.{ℕ, Bool, true, false, String, List, [], ◌∷◌, if◌then◌else◌, Option, none, some}
use rxd.Intracom.Channel.{
  Chan, Moment, Case, stop, op, timer, arrive, can_send, send, can_pop, pop, choose,
}

pub data BufferPolicy : Type 0 where
  drop_none drop_oldest drop_newest : BufferPolicy
  drop_oldest_after_timeout drop_newest_after_timeout : BufferPolicy

-- The error is that of Handle; the moments are those left over.
pub data Handled {ℓ} (A : Type ℓ) : Type ℓ where
  ends : Option String → Chan A → List Moment → Handled A
  blocks : Chan A → Handled A

abbrev pub subscriber_stopped : String
subscriber_stopped = "subscriber stopped"

-- What follows each case of a `select`, in the order stop channel, operation, timer, default.
abbrev pub on_case {ℓ} : {B : Type ℓ} → Option Case → B → B → B → B → B
on_case (some stop) a b c d = a
on_case (some op) a b c d = b
on_case (some timer) a b c d = c
on_case none a b c d = d

module _ {ℓ} {A : Type ℓ} (x : A) where
  -- `select { case <-stopC: …; case ch <- message: …; default: … }`
  unfoldable pub try_send : Chan A → Option String → List Moment → Handled A
  try_send c full [] = blocks c
  try_send c full (m ∷ ms) =
      let c' = arrive m c in
      on_case (choose m.prefers m.stopped (can_send m c') false)
        (ends (some subscriber_stopped) c' ms) (ends none (send m c' x) ms) (ends full c' ms)
        (ends full c' ms)

  -- BufferPolicyDropNone.Handle: a `select` with no default.
  unfoldable pub handle_drop_none : Chan A → List Moment → Handled A
  handle_drop_none c [] = blocks c
  handle_drop_none c (m ∷ ms) =
      let c' = arrive m c in
      let rest = handle_drop_none c' ms in
      on_case (choose m.prefers m.stopped (can_send m c') false)
        (ends (some subscriber_stopped) c' ms) (ends none (send m c' x) ms) rest rest

  -- BufferPolicyDropOldest.Handle: a message is thrown away first, if there is one.
  unfoldable pub handle_drop_oldest : Chan A → List Moment → Handled A
  unfolding try_send
  handle_drop_oldest c [] = blocks c
  handle_drop_oldest c (m ∷ ms) =
      let c' = arrive m c in
      on_case (choose m.prefers m.stopped (can_pop c') false) (ends (some subscriber_stopped) c' ms)
        (try_send (pop c') (some "buffer full, failed to push message") ms)
        (try_send c' (some "buffer full, failed to push message") ms)
        (try_send c' (some "buffer full, failed to push message") ms)

  -- BufferPolicyDropNewest.Handle: with no room the new message is dropped, and no error returned.
  unfoldable pub handle_drop_newest : Chan A → List Moment → Handled A
  unfolding try_send
  handle_drop_newest c ms = try_send c none ms

  -- The `select` on the stop channel, the send and the timer; `late` is what follows the timer.
  unfoldable pub wait_timer : (Chan A → List Moment → Handled A) → Chan A → List Moment → Handled A
  wait_timer late c [] = blocks c
  wait_timer late c (m ∷ ms) =
      let c' = arrive m c in
      let rest = wait_timer late c' ms in
      on_case (choose m.prefers m.stopped (can_send m c') m.fired)
        (ends (some subscriber_stopped) c' ms) (ends none (send m c' x) ms) (late c' ms) (rest)

  -- Both timeout policies try once without waiting, then reset the timer and wait.
  unfoldable pub send_or_wait :
      (Chan A → List Moment → Handled A) → Chan A → List Moment → Handled A
  unfolding wait_timer
  send_or_wait late c [] = blocks c
  send_or_wait late c (m ∷ ms) =
      let c' = arrive m c in
      on_case (choose m.prefers m.stopped (can_send m c') false)
        (ends (some subscriber_stopped) c' ms) (ends none (send m c' x) ms) (wait_timer late c' ms)
        (wait_timer late c' ms)

  -- The last attempt of BufferPolicyDropOldestAfterTimeout: a receive with no default, then a send
  -- that does not wait.
  unfoldable pub last_attempt : Chan A → List Moment → Handled A
  unfolding try_send
  last_attempt c [] = blocks c
  last_attempt c (m ∷ ms) =
      let c' = arrive m c in
      let rest = last_attempt c' ms in
      on_case (choose m.prefers m.stopped (can_pop c') false) (ends (some subscriber_stopped) c' ms)
        (try_send (pop c') (some "timeout exceeded, failed to push message") ms) rest rest

  unfoldable pub handle_drop_oldest_after_timeout : Chan A → List Moment → Handled A
  unfolding send_or_wait last_attempt
  handle_drop_oldest_after_timeout = send_or_wait last_attempt

  unfoldable pub handle_drop_newest_after_timeout : Chan A → List Moment → Handled A
  unfolding send_or_wait
  handle_drop_newest_after_timeout = send_or_wait (λ c ms. ends none c ms)

  -- BufferPolicyHandler.Handle of the policy's type.
  unfoldable pub handle : BufferPolicy → Chan A → List Moment → Handled A
  handle drop_none = handle_drop_none
  handle drop_oldest = handle_drop_oldest
  handle drop_newest = handle_drop_newest
  handle drop_oldest_after_timeout = handle_drop_oldest_after_timeout
  handle drop_newest_after_timeout = handle_drop_newest_after_timeout
