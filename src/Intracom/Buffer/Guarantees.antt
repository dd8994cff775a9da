-- ===== src/Intracom/Buffer/Guarantees.antt =====
-- What each buffer policy promises: which message goes when there is no room.
use rxd.Base.{
  ◌≡◌, refl, ap, ◌∙◌, Bool, false, String, List, [], ◌∷◌, ◌++◌, Option, none, some, arith, ◌⊎◌, inl,
  inr,
}
use rxd.Intracom.Channel.{Chan, Moment, arrive, can_send, send, choose}
use rxd.Intracom.Buffer.{
  drop_none, drop_newest, drop_newest_after_timeout, Handled, ends, on_case, try_send,
  handle_drop_none, handle_drop_newest, wait_timer, send_or_wait, handle_drop_newest_after_timeout,
  handle,
}
use rxd.Intracom.Buffer.Delivery.{kept, kept-arrive, kept-send, Post, on_case-Post}

module _ {ℓ} {A : Type ℓ} where
  -- Nothing that was there before is lost.
  pub record IsLossless (x : A) (c d : Chan A) : Type ℓ where
    pub whole : kept d ≡ kept c ++ x ∷ []
    pub none_dropped : d.dropped ≡ c.dropped

  pub record IsUnchanged (c d : Chan A) : Type ℓ where
    pub same_kept : kept d ≡ kept c
    pub same_dropped : d.dropped ≡ c.dropped

module _ {ℓ} {A : Type ℓ} (x : A) (c₀ : Chan A) where
  arrive-IsUnchanged : (m : Moment) (c : Chan A) → IsUnchanged c₀ c → IsUnchanged c₀ (arrive m c)
  arrive-IsUnchanged m c u = record {
    same_kept = kept-arrive m c ∙ u.same_kept;
    same_dropped = unfold arrive in u.same_dropped;
  }

  pub send-dropped : (m : Moment) (c : Chan A) → (send m c x).dropped ≡ c.dropped
  unfolding send
  send-dropped m c = ground arith

  send-IsLossless : (m : Moment) (c : Chan A) → IsUnchanged c₀ c → IsLossless x c₀ (send m c x)
  send-IsLossless m c u = record {
    whole = kept-send m c x ∙ ap (λ l. l ++ x ∷ []) u.same_kept;
    none_dropped = send-dropped m c ∙ u.same_dropped;
  }

  -- The send went through, or the subscriber had stopped.
  abbrev pub SentOrStopped : Option String → Chan A → Type ℓ
  SentOrStopped e d =
      ((e ≡ none) × IsLossless x c₀ d) ⊎ ((e ≡ some "subscriber stopped") × IsUnchanged c₀ d)

  drop_none_sent :
      (c : Chan A) (ms : List Moment)
      → IsUnchanged c₀ c
      → Post SentOrStopped (IsUnchanged c₀) (handle_drop_none x c ms)
  unfolding handle_drop_none
  drop_none_sent c [] u = u
  drop_none_sent c (m ∷ ms) u =
      let here = arrive-IsUnchanged m c u in
      let rest = drop_none_sent (arrive m c) ms here in
      on_case-Post SentOrStopped (IsUnchanged c₀) m.prefers m.stopped (can_send m (arrive m c))
        false (ends (some "subscriber stopped") (arrive m c) ms)
        (ends none (send m (arrive m c) x) ms) (handle_drop_none x (arrive m c) ms)
        (handle_drop_none x (arrive m c) ms) (λ _. inr (refl, here))
        (λ _. inl (refl, send-IsLossless m _ here)) (λ _. rest) (λ _. rest)

  -- The new message went in, or it alone is missing.
  abbrev pub SentOrSkipped : Option String → Chan A → Type ℓ
  SentOrSkipped e d =
      ((e ≡ none) × (IsLossless x c₀ d ⊎ IsUnchanged c₀ d))
      ⊎ ((e ≡ some "subscriber stopped") × IsUnchanged c₀ d)

  -- The rule for the sends of the two policies that drop the newest message.
  newest_select :
      (m : Moment) (c : Chan A) (fired : Bool) (ms : List Moment) (late other : Handled A)
      → IsUnchanged c₀ (arrive m c)
      → Post SentOrSkipped (IsUnchanged c₀) late
      → Post SentOrSkipped (IsUnchanged c₀) other
      → Post SentOrSkipped (IsUnchanged c₀) (
          on_case
            (choose m.prefers m.stopped (can_send m (arrive m c)) fired)
            (ends (some "subscriber stopped") (arrive m c) ms)
            (ends none (send m (arrive m c) x) ms)
            late
            other)
  newest_select m c fired ms late other here hl ho =
      on_case-Post SentOrSkipped (IsUnchanged c₀) m.prefers m.stopped (can_send m (arrive m c))
        fired (ends (some "subscriber stopped") (arrive m c) ms)
        (ends none (send m (arrive m c) x) ms) late other (λ _. inr (refl, here))
        (λ _. inl (refl, inl (send-IsLossless m _ here))) (λ _. hl) (λ _. ho)

  drop_newest_sent :
      (c : Chan A) (ms : List Moment)
      → IsUnchanged c₀ c
      → Post SentOrSkipped (IsUnchanged c₀) (handle_drop_newest x c ms)
  unfolding handle_drop_newest try_send
  drop_newest_sent c [] u = u
  drop_newest_sent c (m ∷ ms) u =
      let here = arrive-IsUnchanged m c u in
      newest_select m c false ms (ends none (arrive m c) ms) (ends none (arrive m c) ms) here
        (inl (refl, inr here)) (inl (refl, inr here))

  wait_newest_sent :
      (c : Chan A) (ms : List Moment)
      → IsUnchanged c₀ c
      → Post SentOrSkipped (IsUnchanged c₀) (wait_timer x (λ d ns. ends none d ns) c ms)
  unfolding wait_timer
  wait_newest_sent c [] u = u
  wait_newest_sent c (m ∷ ms) u =
      let here = arrive-IsUnchanged m c u in
      newest_select m c m.fired ms (ends none (arrive m c) ms) _ here (inl (refl, inr here))
        (wait_newest_sent (arrive m c) ms here)

  newest_after_timeout_sent :
      (c : Chan A) (ms : List Moment)
      → IsUnchanged c₀ c
      → Post SentOrSkipped (IsUnchanged c₀) (handle_drop_newest_after_timeout x c ms)
  unfolding handle_drop_newest_after_timeout send_or_wait
  newest_after_timeout_sent c [] u = u
  newest_after_timeout_sent c (m ∷ ms) u =
      let here = arrive-IsUnchanged m c u in
      let rest = wait_newest_sent (arrive m c) ms here in
      newest_select m c false ms _ _ here rest rest

IsUnchanged-self {ℓ} : {A : Type ℓ} (c : Chan A) → IsUnchanged c c
IsUnchanged-self c = record { same_kept = refl; same_dropped = refl }

-- DropNone loses nothing: when it ends without an error, the channel has all that it had and then
-- the new message; while it blocks, and when the subscriber has stopped, it has what it had. The
-- two policies that drop the newest message never lose an older one, and return no error for the
-- message that they drop.
pub handle_keeps_older {ℓ} :
    {A : Type ℓ} (x : A) (c : Chan A) (ms : List Moment)
    → Post (SentOrStopped x c) (IsUnchanged c) (handle x drop_none c ms)
      × Post (SentOrSkipped x c) (IsUnchanged c) (handle x drop_newest c ms)
      × Post (SentOrSkipped x c) (IsUnchanged c) (handle x drop_newest_after_timeout c ms)
unfolding handle
handle_keeps_older x c ms = (
  drop_none_sent x c c ms (IsUnchanged-self c),
  drop_newest_sent x c c ms (IsUnchanged-self c),
  newest_after_timeout_sent x c c ms (IsUnchanged-self c),
)
