-- ===== src/Intracom/Topic/Running/Settling.antt =====
-- What Close leaves of a topic.
use rxd.Base.{if◌then◌else◌, ◌≡◌, refl, false, List, [], ◌∷◌, Option, none, some, Dict}
use rxd.Intracom.Subscriber.{Subscriber}
use rxd.Intracom.Broadcast.{Request, close_all}
use rxd.Intracom.Topic.{Topic, topic_close}
use rxd.Intracom.Topic.Running.{
  uncalled, serving, gone, Closing, uncalled, swapped, sent, finished, Running, close_on,
  take_request, see_closed, Action, closes, takes_request, sees_closed, act, acts,
}
use rxd.Intracom.Topic.Running.Quiet.{IsAnswered, Settled, acts-IsQuiet}

module _ {A : Type 0} where
  Settled-answered :
      (c : Closing) (q : Option Request) (subs : Dict (Subscriber A))
      → Settled c q subs
      → IsAnswered c
      → (q ≡ none) × (subs ≡ [])
  Settled-answered uncalled q subs v a = absurd a
  Settled-answered swapped q subs v a = absurd a
  Settled-answered sent q subs v a = absurd a
  Settled-answered _ q subs v a = v

-- From the Swap on: a request that waits is taken, then that of Close, and the channels are closed.
abbrev pub closing_steps : {A : Type 0} → List (Action A)
closing_steps = takes_request ∷ closes ∷ takes_request ∷ closes ∷ closes ∷ sees_closed ∷ []

abbrev pub IsOver : {A : Type 0} → Running A → Type 0
IsOver t = (t.closing ≡ finished) × (t.stage ≡ gone)

closing_steps-IsOver :
    {A : Type 0} (t : Running A) (q : Option Request)
    → IsOver (acts (record t { stage = serving; queue = q; closing = swapped }) closing_steps)
unfolding acts act close_on take_request see_closed
closing_steps-IsOver t none = (refl, refl)
closing_steps-IsOver t (some close_all) = (refl, refl)
closing_steps-IsOver t (some _) = (refl, refl)

-- Once Close has swapped `closed` and no other call stands between its test and its send, no send
-- ever panics, and when Close has its answer no subscriber and no request is left, whatever is
-- done. If the broadcaster stands at its select at the start, steps of it and of Close bring both
-- to their end.
pub close_settles :
    {A : Type 0} (t : Running A) (steps : List (Action A))
    → t.closing ≡ swapped
    → t.admitted ≡ 0
    → t.send_panicked ≡ false
    → let u = acts t steps in
      (u.send_panicked ≡ false)
      × (IsAnswered u.closing → (u.queue ≡ none) × (u.broadcaster.subscribers ≡ []))
      × (t.stage ≡ serving → IsOver (acts t closing_steps))
close_settles t steps h n p =
    let v = acts-IsQuiet t steps (record { none_admitted = n; calm = p; settled = rw h tt }) in
    (
      v.calm,
      Settled-answered (acts t steps).closing (acts t steps).queue _ v.settled,
      λ s. rw (h, s) (closing_steps-IsOver t t.queue),
    )

-- A topic between two calls, with its broadcaster at its select.
abbrev as_running : {A : Type 0} → Topic A → Running A
as_running t = record {
  broadcaster = t.broadcaster;
  stage = serving;
  queue = none;
  closing = if t.closed then finished else uncalled;
  admitted = 0;
  send_panicked = false;
}

-- Close of an open topic in one step leaves the broadcaster that its steps leave.
topic_close-steps :
    {A : Type 0} (t : Topic A)
    → t.closed ≡ false
    → (topic_close t).0.broadcaster
      ≡ (acts (as_running t) (closes ∷ closes ∷ takes_request ∷ closes ∷ closes ∷ [])).broadcaster
unfolding topic_close acts act close_on take_request
topic_close-steps t h = rw h refl
