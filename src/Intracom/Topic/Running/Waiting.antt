-- ===== src/Intracom/Topic/Running/Waiting.antt =====
-- When Close waits for ever.
use rxd.Base.{◌≡◌, refl, subst, List, [], ◌∷◌, Option, none, some, ltb, Bool-cases, inl, inr}
use rxd.Intracom.Broadcast.{Request}
use rxd.Intracom.Topic.Running.{
  in_handler, Closing, uncalled, swapped, sent, replied, requests_closed, finished, Running, test,
  asked, ask, close_on, take_request, take_message, see_closed, Action, tests, gives_up, closes,
  takes_request, sees_closed, asks, takes_message, act, acts,
}

-- Close has not had its answer.
abbrev pub IsWaiting : Closing → Type 0
IsWaiting uncalled = Unit {0}
IsWaiting swapped = Unit
IsWaiting sent = Unit
IsWaiting _ = ⊥

-- The broadcaster is blocked, and Close has no answer.
abbrev IsStuck : {A : Type 0} → Running A → Type 0
IsStuck t = (t.stage ≡ in_handler) × IsWaiting t.closing

module _ {A : Type 0} where
  put-IsStuck :
      (q : Option Request) (c : Closing) (r : Request) (t : Running A)
      → t.queue ≡ q
      → t.closing ≡ c
      → IsStuck t
      → IsStuck (ask c r t)
  unfolding ask
  put-IsStuck q requests_closed r t e h v = v
  put-IsStuck q finished r t e h v = v
  put-IsStuck none _ r t e h v = rw e v
  put-IsStuck (some p) _ r t e h v = rw e v

  close_on-IsStuck :
      (c : Closing) (q : Option Request) (t : Running A)
      → t.closing ≡ c
      → IsStuck t
      → IsStuck (close_on c q t)
  unfolding close_on
  close_on-IsStuck uncalled q t h v = (v.0, tt)
  close_on-IsStuck swapped none t h v = (v.0, tt)
  close_on-IsStuck replied q t h v = absurd (subst IsWaiting h v.1)
  close_on-IsStuck requests_closed q t h v = absurd (subst IsWaiting h v.1)
  close_on-IsStuck _ q t h v = v

  test-IsStuck : (c : Closing) (t : Running A) → IsStuck t → IsStuck (test c t)
  unfolding test
  test-IsStuck uncalled t v = v
  test-IsStuck _ t v = v

  act-IsStuck : (t : Running A) (a : Action A) → IsStuck t → IsStuck (act t a)
  unfolding act take_request take_message see_closed
  act-IsStuck t tests v = test-IsStuck t.closing t v
  act-IsStuck t gives_up v = v
  act-IsStuck t closes v = close_on-IsStuck t.closing t.queue t refl v
  act-IsStuck t takes_request v = rw v.0 (refl, v.1)
  act-IsStuck t sees_closed v = rw v.0 (refl, v.1)
  act-IsStuck t (asks r) v = elim (Bool-cases (ltb 0 t.admitted)) [
    | inl y ↦ rw y (put-IsStuck t.queue t.closing (asked r) t refl refl v)
    | inr y ↦ rw y v
  ]
  act-IsStuck t (takes_message x ms) v = rw v.0 (refl, v.1)

-- While the broadcaster is blocked in a handler for good, a Close that has not had its answer never
-- gets it, whatever the callers and Close do.
pub blocked_close_waits :
    {A : Type 0} (t : Running A) (steps : List (Action A))
    → t.stage ≡ in_handler
    → IsWaiting t.closing
    → ((acts t steps).stage ≡ in_handler) × IsWaiting (acts t steps).closing
unfolding acts
blocked_close_waits t [] h w = (h, w)
blocked_close_waits t (a ∷ steps) h w =
    let (h', w') = act-IsStuck t a (h, w) in blocked_close_waits (act t a) steps h' w'
