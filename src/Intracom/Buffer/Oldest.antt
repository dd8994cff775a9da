-- ===== src/Intracom/Buffer/Oldest.antt =====
-- The policies that throw the oldest message away.
use rxd.Base.{
  ℕ, zero, suc, ◌≤◌, ◌<◌, ◌≡◌, refl, sym, ap, ◌∙◌, true, false, String, List, [], ◌∷◌, ◌++◌, length,
  take, drop, if◌then◌else◌, Option, none, All, some, arith, append-nil, length-drop-le, inl, inr,
  Bool-cases,
}
use rxd.Intracom.Channel.{
  Chan, Moment, Case, stop, op, timer, arrive, can_send, send, can_pop, pop, choose,
}
use rxd.Intracom.Buffer.{
  drop_oldest, ends, blocks, try_send, handle_drop_oldest, last_attempt, handle,
}
use rxd.Intracom.Buffer.Guarantees.{send-dropped}
use rxd.Intracom.Buffer.Delivery.{kept, arrive-Fits, kept-send}

choose_op : (p : Case) → choose p false true false ≡ some op
unfolding choose
choose_op stop = refl
choose_op op = refl
choose_op timer = refl

choose_none : (p : Case) → choose p false false false ≡ none
unfolding choose
choose_none stop = refl
choose_none op = refl
choose_none timer = refl

can_send_room {ℓ} :
    {A : Type ℓ} (c : Chan A) (n : Moment)
    → length c.buffer < c.size
    → can_send n (arrive n c) ≡ true
unfolding can_send arrive
can_send_room c n h = ground (arith, length-drop-le n.takes c.buffer)

-- The first message of the buffer as the policy meets it, which it throws away.
abbrev pub oldest {ℓ} : {A : Type ℓ} → List A → List A
oldest = take 1

module _ {ℓ} {A : Type ℓ} (x : A) where
  try_send_room :
      (c : Chan A) (full : Option String) (n : Moment) (ms : List Moment)
      → n.stopped ≡ false
      → length c.buffer < c.size
      → try_send x c full (n ∷ ms) ≡ ends none (send n (arrive n c) x) ms
  unfolding try_send
  try_send_room c full n ms h r = rw (room, h, choose_op n.prefers) refl
    where
      room : can_send n (arrive n c) ≡ true
      room = can_send_room c n r

  drop_oldest_pops :
      (c : Chan A) (m : Moment) (ns : List Moment)
      → m.stopped ≡ false
      → handle_drop_oldest x c (m ∷ ns)
        ≡ try_send x
            (if can_pop (arrive m c) then pop (arrive m c) else arrive m c)
            (some "buffer full, failed to push message")
            ns
  unfolding handle_drop_oldest
  drop_oldest_pops c m ns h = elim (Bool-cases (can_pop (arrive m c))) [
    | inl e ↦ rw (e, h, choose_op m.prefers) refl
    | inr e ↦ rw (e, h, choose_none m.prefers) refl
  ]

-- The first step of DropOldest: the oldest message goes, and there is room.
pop_lem {ℓ} :
    {A : Type ℓ} (size : ℕ) (buffer taken dropped : List A)
    → 0 < size
    → length buffer ≤ size
    → let c : Chan A = record { size = size; buffer = buffer; taken = taken; dropped = dropped } in
      let d = if can_pop c then pop c else c in
      (length d.buffer < d.size) × (d.dropped ≡ dropped ++ oldest buffer)
unfolding can_pop pop
pop_lem size [] taken dropped pos fits = (pos, sym (append-nil dropped))
pop_lem size (y ∷ buffer) taken dropped pos fits = (fits, refl)

-- DropOldest puts the new message in, if the channel has a buffer and the subscriber has not
-- stopped: the message is the last of the channel, and no error is returned. But it always throws
-- away the oldest message that the consumer left in the buffer, whether or not the buffer is full.
pub drop_oldest_sent {ℓ} :
    {A : Type ℓ} (x : A) (c : Chan A) (m n : Moment) (ms : List Moment)
    → 0 < c.size
    → length c.buffer ≤ c.size
    → m.stopped ≡ false
    → n.stopped ≡ false
    → (d : Chan A) × (handle x drop_oldest c (m ∷ n ∷ ms) ≡ ends none d ms)
      × ((ks : List A) × (kept d ≡ ks ++ x ∷ []))
      × (d.dropped ≡ c.dropped ++ oldest (arrive m c).buffer)
unfolding handle
drop_oldest_sent x c m n ms pos fits hm hn =
    let c' = arrive m c in
    let c'' = if can_pop c' then pop c' else c' in
    let first =
      pop_lem c'.size c'.buffer c'.taken c'.dropped (unfold arrive in pos) (arrive-Fits m c fits) in
    (
      send n (arrive n c'') x,
      drop_oldest_pops x c m (n ∷ ms) hm
          ∙ try_send_room x c'' (some "buffer full, failed to push message") n ms hn first.0,
      (kept (arrive n c''), kept-send n (arrive n c'') x),
      send-dropped x c n (arrive n c'') ∙ (unfold arrive in first.1),
    )

drop-nil {ℓ} : {A : Type ℓ} (n : ℕ) → drop n (let e : List A = [] in e) ≡ []
drop-nil zero = refl
drop-nil (suc n) = refl

arrive-empty {ℓ} : {A : Type ℓ} (m : Moment) (c : Chan A) → c.buffer ≡ [] → (arrive m c).buffer ≡ []
unfolding arrive
arrive-empty m c e = ap (drop m.takes) e ∙ drop-nil m.takes

can_pop-empty {ℓ} : {A : Type ℓ} (c : Chan A) → c.buffer ≡ [] → can_pop c ≡ false
unfolding can_pop
can_pop-empty c e = rw e

-- The last attempt of DropOldestAfterTimeout waits for a message to throw away, with no default: at
-- an empty buffer, as a channel of size 0 always has, it blocks until the subscriber stops, even if
-- the consumer waits for the message.
pub last_attempt_blocks {ℓ} :
    {A : Type ℓ} (x : A) (c : Chan A) (ms : List Moment)
    → c.buffer ≡ []
    → All (λ m. m.stopped ≡ false) ms
    → (d : Chan A) × (last_attempt x c ms ≡ blocks d) × (d.buffer ≡ [])
unfolding last_attempt
last_attempt_blocks x c [] e h = (c, refl, e)
last_attempt_blocks x c (m ∷ ms) e (stays, h) =
    let still = arrive-empty m c e in
    let ih = last_attempt_blocks x (arrive m c) ms still h in
    let chosen =
      ap (λ b. choose m.prefers b (can_pop (arrive m c)) false) stays
      ∙ ap (λ b. choose m.prefers false b false) (can_pop-empty (arrive m c) still)
      ∙ choose_none m.prefers in
    (ih.0, rw chosen ih.1, ih.2)
