-- ===== src/Intracom/Topic/Races.antt =====
-- A topic's methods one after the other, and interleaved with Close.
use rxd.Base.{
  ℕ, ◌≡◌, refl, Bool, true, false, not, String, Option, none, some, List, [], ◌∷◌, if◌then◌else◌,
  inl, inr, Bool-cases,
}
use rxd.Intracom.Subscriber.{SubscriberConfig}
use rxd.Intracom.Broadcast.{
  Request, Response, subscribed, unsubscribed, all_closed, no_response, subscribe, unsubscribe,
  on_request, close_all,
}
use rxd.Intracom.Broadcast.Invariant.{IsSound}
use rxd.Intracom.Broadcast.Requests.{on_request-IsSound}
use rxd.Intracom.Topic.{
  Topic, Wait, not_sent, not_answered, answered, Result, returns, panicked, topic_subscribe,
  topic_unsubscribe, topic_close, send_subscribe, send_unsubscribe, request, Reply, unanswered,
  replies, send_panics, subscribe_result, unsubscribe_result,
}

-- A call of a method, and what it leaves.
pub data Call : Type 0 where
  subscribing : Wait → SubscriberConfig → Call
  unsubscribing : Wait → String → ℕ → Call
  closing : Call

unfoldable pub call : {A : Type 0} → Topic A → Call → Topic A × Result
unfolding topic_subscribe topic_unsubscribe topic_close
call t (subscribing w conf) = topic_subscribe w t conf
call t (unsubscribing w consumer channel) = topic_unsubscribe w t consumer channel
call t closing = let (t', e) = topic_close t in (t', returns none e)

unfoldable pub calls : {A : Type 0} → Topic A → List Call → Topic A × List Result
unfolding call
calls t [] = (t, [])
calls t (c ∷ cs) = let (t', r) = call t c in let (last, rs) = calls t' cs in (last, r ∷ rs)

abbrev pub Returns : Result → Type 0
Returns panicked = ⊥
Returns (returns c e) = Unit

abbrev pub NoPanic : List Result → Type 0
NoPanic [] = Unit
NoPanic (r ∷ rs) = Returns r × NoPanic rs

-- A topic between two calls: its channels are open while it is, and its broadcaster is sound.
pub record IsRunning {A : Type 0} (t : Topic A) : Type 0 where
  pub sound : IsSound t.broadcaster
  pub open_while_open : t.closed ≡ not t.requests_open

subscribe_replies : (r : Response) → Returns (subscribe_result (replies r))
subscribe_replies (subscribed c e) = tt
subscribe_replies (unsubscribed e) = tt
subscribe_replies all_closed = tt
subscribe_replies no_response = tt

unsubscribe_replies : (r : Response) → Returns (unsubscribe_result (replies r))
unsubscribe_replies (subscribed c e) = tt
unsubscribe_replies (unsubscribed e) = tt
unsubscribe_replies all_closed = tt
unsubscribe_replies no_response = tt

module _ {A : Type 0} where
  served-IsRunning :
      (c : Bool) (t : Topic A) (r : Request) (q p : Reply)
      → IsRunning t
      → IsRunning
          (if◌then◌else◌ {A = Topic A × Reply} c
            (record t { broadcaster = (on_request t.broadcaster r).0 }, q)
            (t, p)).0
  served-IsRunning true t r q p v = record {
    sound = on_request-IsSound t.broadcaster r v.sound;
    open_while_open = v.open_while_open;
  }
  served-IsRunning false t r q p v = v

  request-IsRunning :
      (w : Wait) (t : Topic A) (r : Request) → IsRunning t → IsRunning (request w t r).0
  unfolding request
  request-IsRunning not_sent t r v = v
  request-IsRunning not_answered t r v =
      served-IsRunning t.requests_open t r unanswered send_panics v
  request-IsRunning answered t r v =
      served-IsRunning t.requests_open t r (replies (on_request t.broadcaster r).1) send_panics v

  subscribe-Returns :
      (w : Wait) (t : Topic A) (conf : SubscriberConfig)
      → t.requests_open ≡ true
      → Returns (send_subscribe w t conf).1
  unfolding send_subscribe request
  subscribe-Returns not_sent t conf e = tt
  subscribe-Returns not_answered t conf e = rw e tt
  subscribe-Returns answered t conf e =
      rw e (subscribe_replies (on_request t.broadcaster (subscribe conf)).1)

  unsubscribe-Returns :
      (w : Wait) (t : Topic A) (consumer : String) (channel : ℕ)
      → t.requests_open ≡ true
      → Returns (send_unsubscribe w t consumer channel).1
  unfolding send_unsubscribe request
  unsubscribe-Returns not_sent t consumer channel e = tt
  unsubscribe-Returns not_answered t consumer channel e = rw e tt
  unsubscribe-Returns answered t consumer channel e =
      rw e (unsubscribe_replies (on_request t.broadcaster (unsubscribe consumer channel)).1)

  -- What a method does at its test of `closed`.
  tested :
      (t : Topic A) (refused sent : Topic A × Result)
      → IsRunning t
      → (IsRunning refused.0 × Returns refused.1)
      → (t.requests_open ≡ true → IsRunning sent.0 × Returns sent.1)
      → IsRunning (if t.closed then refused else sent).0
        × Returns (if t.closed then refused else sent).1
  tested t refused sent v r s = elim (Bool-cases t.requests_open) [
    | inl e ↦ rw (v.open_while_open, e) (s e)
    | inr e ↦ rw (v.open_while_open, e) r
  ]

  pub call-IsRunning :
      (t : Topic A) (c : Call) → IsRunning t → IsRunning (call t c).0 × Returns (call t c).1
  unfolding call topic_subscribe topic_unsubscribe topic_close
  call-IsRunning t (subscribing w conf) v =
      tested t (t, returns none (some "cannot subscribe, topic already closed"))
        (send_subscribe w t conf) v (v, tt)
        (λ e. (
          unfold send_subscribe in request-IsRunning w t (subscribe conf) v,
          subscribe-Returns w t conf e,
        ))
  call-IsRunning t (unsubscribing w consumer channel) v =
      tested t (t, returns none (some "cannot unsubscribe, topic already closed"))
        (send_unsubscribe w t consumer channel) v (v, tt)
        (λ e. (
          unfold send_unsubscribe in request-IsRunning w t (unsubscribe consumer channel) v,
          unsubscribe-Returns w t consumer channel e,
        ))
  call-IsRunning t closing v = gate t.closed
    where
      gate :
          (c : Bool)
          → let (t', e) =
              if◌then◌else◌ {A = Topic A × Option String} c
                (t, some "topic already closed")
                (
                  record t {
                    closed = true;
                    requests_open = false;
                    broadcaster = (on_request t.broadcaster close_all).0;
                  },
                  none,
                ) in
            IsRunning t' × Returns (returns none e)
      gate true = (v, tt)
      gate false = (
        record {
          sound = on_request-IsSound t.broadcaster close_all v.sound;
          open_while_open = refl;
        },
        tt,
      )

-- The methods of a topic whose channels are open while it is and whose broadcaster is sound, called
-- one after the other, never panic, however each call ends, and leave it so.
pub calls_return :
    {A : Type 0} (t : Topic A) (cs : List Call)
    → IsRunning t
    → NoPanic (calls t cs).1 × IsRunning (calls t cs).0
unfolding calls
calls_return t [] v = (tt, v)
calls_return t (c ∷ cs) v =
    let (v', r) = call-IsRunning t c v in
    let (rs, last) = calls_return (call t c).0 cs v' in ((r, rs), last)

-- A topic that is open can be closed; a Subscribe whose test of `closed` came before that and whose
-- send comes after it panics, whether or not its context ends later, while one that begins after it
-- is refused.
pub subscribe_races_close :
    {A : Type 0} (t : Topic A) (conf : SubscriberConfig)
    → t.closed ≡ false
    → let (t', e) = topic_close t in
      (e ≡ none)
      × ((send_subscribe answered t' conf).1 ≡ panicked)
      × ((send_subscribe not_answered t' conf).1 ≡ panicked)
      × ((topic_subscribe answered t' conf).1
          ≡ returns none (some "cannot subscribe, topic already closed"))
unfolding topic_close send_subscribe topic_subscribe request
subscribe_races_close t conf h = rw h (refl, refl, refl, refl)
