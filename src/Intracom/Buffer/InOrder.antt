-- ===== src/Intracom/Buffer/InOrder.antt =====
-- Under every policy the messages keep their order, none comes twice, and the buffer fits.
use rxd.Base.{
  ℕ, ◌≤◌, ◌≡◌, refl, sym, ◌∙◌, subst, Bool, true, false, String, List, [], ◌∷◌, ◌++◌, length,
  Option, none, some, arith,
}
use mathlib.Core.List.{Sublist, sublist-append_left}
use mathlib.Core.List.Sublist
use rxd.Intracom.Channel.{Chan, Moment, arrive, can_send, send, can_pop, pop, choose}
use rxd.Intracom.Buffer.{
  BufferPolicy, drop_none, drop_oldest, drop_newest, drop_oldest_after_timeout,
  drop_newest_after_timeout, Handled, ends, on_case, try_send, handle_drop_none, handle_drop_oldest,
  handle_drop_newest, wait_timer, send_or_wait, last_attempt, handle_drop_oldest_after_timeout,
  handle_drop_newest_after_timeout, handle,
}
use rxd.Intracom.Buffer.Delivery.{
  kept, Fits, kept-arrive, arrive-Fits, kept-send, send-Fits, kept-pop, pop-Fits, Post,
  on_case-Post,
}

module _ {ℓ} {A : Type ℓ} where
  -- The channel holds, in order, some of the messages `ks`, and its buffer fits.
  pub record IsWithin (ks : List A) (size : ℕ) (c : Chan A) : Type ℓ where
    pub among : Sublist (kept c) ks
    pub fits : Fits c
    pub same_size : c.size ≡ size

module _ {ℓ} {A : Type ℓ} (ks : List A) (size : ℕ) (x : A) where
  later : (c : Chan A) → IsWithin ks size c → IsWithin (ks ++ x ∷ []) size c
  later c w = record {
    among = Sublist.trans w.among (sublist-append_left ks (x ∷ []));
    fits = w.fits;
    same_size = w.same_size;
  }

  arrived : (m : Moment) (c : Chan A) → IsWithin ks size c → IsWithin ks size (arrive m c)
  arrived m c w = record {
    among = subst (λ l. Sublist l ks) (sym (kept-arrive m c)) w.among;
    fits = arrive-Fits m c w.fits;
    same_size = unfold arrive in w.same_size;
  }

  popped : (c : Chan A) → IsWithin ks size c → IsWithin ks size (pop c)
  popped c w = record {
    among = Sublist.trans (kept-pop c) w.among;
    fits = pop-Fits c w.fits;
    same_size = unfold pop in w.same_size;
  }

  send-size : (m : Moment) (c : Chan A) → (send m c x).size ≡ c.size
  unfolding send
  send-size m c = ground arith

  sent :
      (m : Moment) (c : Chan A)
      → can_send m c ≡ true
      → IsWithin ks size c
      → IsWithin (ks ++ x ∷ []) size (send m c x)
  sent m c h w = record {
    among =
        subst (λ l. Sublist l (ks ++ x ∷ [])) (sym (kept-send m c x))
          (Sublist.append w.among (Sublist.refl (x ∷ [])));
    fits = send-Fits m c x h w.fits;
    same_size = send-size m c ∙ w.same_size;
  }

  abbrev InOrder : Handled A → Type ℓ
  InOrder = Post (λ e c. IsWithin (ks ++ x ∷ []) size c) (IsWithin (ks ++ x ∷ []) size)

  -- The rule for a `select` whose operation is the send.
  send_select :
      (m : Moment) (c : Chan A) (fired : Bool) (ms : List Moment) (late other : Handled A)
      → IsWithin ks size (arrive m c)
      → InOrder late
      → InOrder other
      → InOrder (
          on_case
            (choose m.prefers m.stopped (can_send m (arrive m c)) fired)
            (ends (some "subscriber stopped") (arrive m c) ms)
            (ends none (send m (arrive m c) x) ms)
            late
            other)
  send_select m c fired ms late other w hl ho =
      on_case-Post (λ e c. IsWithin (ks ++ x ∷ []) size c) (IsWithin (ks ++ x ∷ []) size) m.prefers
        m.stopped (can_send m (arrive m c)) fired (ends (some "subscriber stopped") (arrive m c) ms)
        (ends none (send m (arrive m c) x) ms) late other (λ _. later _ w) (λ r. sent m _ r w)
        (λ _. hl) (λ _. ho)

  -- The rule for a `select` whose operation throws a message away.
  pop_select :
      (m : Moment) (c : Chan A) (ms : List Moment) (then_ other : Handled A)
      → IsWithin ks size (arrive m c)
      → InOrder then_
      → InOrder other
      → InOrder (
          on_case
            (choose m.prefers m.stopped (can_pop (arrive m c)) false)
            (ends (some "subscriber stopped") (arrive m c) ms)
            then_
            other
            other)
  pop_select m c ms then_ other w ht ho =
      on_case-Post (λ e c. IsWithin (ks ++ x ∷ []) size c) (IsWithin (ks ++ x ∷ []) size) m.prefers
        m.stopped (can_pop (arrive m c)) false (ends (some "subscriber stopped") (arrive m c) ms)
        then_ other other (λ _. later _ w) (λ _. ht) (λ _. ho) (λ _. ho)

  try_send-InOrder :
      (c : Chan A) (full : Option String) (ms : List Moment)
      → IsWithin ks size c
      → InOrder (try_send x c full ms)
  unfolding try_send
  try_send-InOrder c full [] w = later c w
  try_send-InOrder c full (m ∷ ms) w =
      let here = arrived m c w in send_select m c false ms _ _ here (later _ here) (later _ here)

  drop_none-InOrder :
      (c : Chan A) (ms : List Moment) → IsWithin ks size c → InOrder (handle_drop_none x c ms)
  unfolding handle_drop_none
  drop_none-InOrder c [] w = later c w
  drop_none-InOrder c (m ∷ ms) w =
      let here = arrived m c w in
      let rest = drop_none-InOrder (arrive m c) ms here in
      send_select m c false ms _ _ here rest rest

  drop_oldest-InOrder :
      (c : Chan A) (ms : List Moment) → IsWithin ks size c → InOrder (handle_drop_oldest x c ms)
  unfolding handle_drop_oldest
  drop_oldest-InOrder c [] w = later c w
  drop_oldest-InOrder c (m ∷ ms) w =
      let here = arrived m c w in
      pop_select m c ms _ _ here (try_send-InOrder (pop (arrive m c)) _ ms (popped _ here))
        (try_send-InOrder (arrive m c) _ ms here)

  last_attempt-InOrder :
      (c : Chan A) (ms : List Moment) → IsWithin ks size c → InOrder (last_attempt x c ms)
  unfolding last_attempt
  last_attempt-InOrder c [] w = later c w
  last_attempt-InOrder c (m ∷ ms) w =
      let here = arrived m c w in
      pop_select m c ms _ _ here (try_send-InOrder (pop (arrive m c)) _ ms (popped _ here))
        (last_attempt-InOrder (arrive m c) ms here)

  module _ (late : Chan A → List Moment → Handled A)
      (hl : (c : Chan A) (ms : List Moment) → IsWithin ks size c → InOrder (late c ms)) where
    wait_timer-InOrder :
        (c : Chan A) (ms : List Moment) → IsWithin ks size c → InOrder (wait_timer x late c ms)
    unfolding wait_timer
    wait_timer-InOrder c [] w = later c w
    wait_timer-InOrder c (m ∷ ms) w =
        let here = arrived m c w in
        send_select m c m.fired ms _ _ here (hl (arrive m c) ms here)
          (wait_timer-InOrder (arrive m c) ms here)

    send_or_wait-InOrder :
        (c : Chan A) (ms : List Moment) → IsWithin ks size c → InOrder (send_or_wait x late c ms)
    unfolding send_or_wait
    send_or_wait-InOrder c [] w = later c w
    send_or_wait-InOrder c (m ∷ ms) w =
        let here = arrived m c w in
        let rest = wait_timer-InOrder (arrive m c) ms here in
        send_select m c false ms _ _ here rest rest

  handle_within :
      (p : BufferPolicy) (c : Chan A) (ms : List Moment)
      → IsWithin ks size c
      → InOrder (handle x p c ms)
  unfolding handle handle_drop_newest handle_drop_oldest_after_timeout
      handle_drop_newest_after_timeout
  handle_within drop_none = drop_none-InOrder
  handle_within drop_oldest = drop_oldest-InOrder
  handle_within drop_newest = λ c. try_send-InOrder c none
  handle_within drop_oldest_after_timeout =
      send_or_wait-InOrder (last_attempt x) last_attempt-InOrder
  handle_within drop_newest_after_timeout =
      send_or_wait-InOrder (λ c ms. ends none c ms) (λ c ms w. later c w)

-- Whatever the policy, the consumer and the runtime do, what a channel has given to its consumer
-- or still holds after a handler is, in order and without repetition, some of what it was before
-- followed by the new message; its buffer stays within its size, and the size is fixed. This holds
-- when the handler ends, with an error or without, and while it blocks.
pub handle_in_order {ℓ} :
    {A : Type ℓ} (x : A) (p : BufferPolicy) (c : Chan A) (ms : List Moment)
    → length c.buffer ≤ c.size
    → Post
        (λ e d. IsWithin (kept c ++ x ∷ []) c.size d)
        (IsWithin (kept c ++ x ∷ []) c.size)
        (handle x p c ms)
handle_in_order x p c ms f =
    handle_within (kept c) c.size x p c ms
      (record { among = Sublist.refl (kept c); fits = f; same_size = refl })
