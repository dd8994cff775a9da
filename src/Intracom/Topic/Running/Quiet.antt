-- ===== src/Intracom/Topic/Running/Quiet.antt =====
-- A topic that Close has swapped, with no other call on its way.
use rxd.Base.{
  ◌≡◌, refl, ap, subst, Bool, true, false, String, List, [], ◌∷◌, Option, none, some, Dict, ltb,
  arith, Bool-cases, inl, inr,
}
use rxd.Intracom.Channel.{Moment}
use rxd.Intracom.Subscriber.{Subscriber}
use rxd.Intracom.Broadcast.{
  Broadcaster, Request, close_all, on_request, deliver, pass, message, Pass, goes, blocked, returns,
  panicked, Delivered, reached, stuck, after_delivery,
}
use rxd.Intracom.Topic.Running.{
  Stage, serving, Closing, uncalled, swapped, sent, replied, requests_closed, finished, Running,
  passed, answer, test, close_on, take_request, take_message, see_closed, Action, tests, gives_up,
  closes, takes_request, sees_closed, asks, takes_message, act, acts,
}

-- Close has its answer.
abbrev pub IsAnswered : Closing → Type 0
IsAnswered uncalled = ⊥
IsAnswered swapped = ⊥
IsAnswered sent = ⊥
IsAnswered _ = Unit

abbrev pub Settled : {A : Type 0} → Closing → Option Request → Dict (Subscriber A) → Type 0
Settled uncalled q subs = ⊥
Settled swapped q subs = Unit
Settled sent q subs = q ≡ some close_all
Settled _ q subs = (q ≡ none) × (subs ≡ [])

-- Past the Swap of Close, with no call between its test and its send.
pub record IsQuiet {A : Type 0} (t : Running A) : Type 0 where
  pub none_admitted : t.admitted ≡ 0
  pub calm : t.send_panicked ≡ false
  pub settled : Settled t.closing t.queue t.broadcaster.subscribers

module _ {A : Type 0} where
  Settled-keeps :
      (c : Closing) (q : Option Request) (subs subs' : Dict (Subscriber A))
      → (subs ≡ [] → subs' ≡ [])
      → Settled c q subs
      → Settled c q subs'
  Settled-keeps uncalled q subs subs' h v = v
  Settled-keeps swapped q subs subs' h v = v
  Settled-keeps sent q subs subs' h v = v
  Settled-keeps _ q subs subs' h v = (v.0, h v.1)

  -- A pass on a message leaves a broadcaster without subscribers so.
  abbrev Kept : Broadcaster A → Pass A → Type 0
  Kept b (goes b' r) = b.subscribers ≡ [] → b'.subscribers ≡ []
  Kept b (blocked b') = b.subscribers ≡ [] → b'.subscribers ≡ []
  Kept b _ = Unit

  delivered-Kept :
      (b : Broadcaster A) (x : A) (o : Delivered A)
      → (b.subscribers ≡ [] → o ≡ reached [])
      → Kept b (after_delivery b x o)
  delivered-Kept b x (reached subs) h = λ e. let q = h e in cc
  delivered-Kept b x (stuck subs) h = λ e. let q = h e in cc
  delivered-Kept b x _ h = tt

  pass-Kept :
      (b : Broadcaster A) (x : A) (ms : String → List Moment) → Kept b (pass b (message x ms))
  unfolding pass deliver
  pass-Kept b x ms = elim (Bool-cases b.broadcasting) [
    | inl y ↦ rw y (
        delivered-Kept (record b { broadcasting = true }) x (deliver x ms b.subscribers)
          (λ e. ap (deliver x ms) e))
    | inr y ↦ rw y (λ e. e)
  ]

  passed-IsQuiet :
      (t : Running A) (p : Pass A) → Kept t.broadcaster p → IsQuiet t → IsQuiet (passed t p)
  passed-IsQuiet t (goes b r) h v = record {
    none_admitted = v.none_admitted;
    calm = v.calm;
    settled = Settled-keeps t.closing t.queue _ _ h v.settled;
  }
  passed-IsQuiet t (blocked b) h v = record {
    none_admitted = v.none_admitted;
    calm = v.calm;
    settled = Settled-keeps t.closing t.queue _ _ h v.settled;
  }
  passed-IsQuiet t returns h v = record {
    none_admitted = v.none_admitted;
    calm = v.calm;
    settled = v.settled;
  }
  passed-IsQuiet t panicked h v = record {
    none_admitted = v.none_admitted;
    calm = v.calm;
    settled = v.settled;
  }

  -- The answer to a request that stood in the queue.
  answer-Settled :
      (r : Request) (c : Closing) (b : Broadcaster A)
      → Settled c (some r) b.subscribers
      → Settled (answer r c) none (on_request b r).0.subscribers
  unfolding on_request
  answer-Settled close_all c b v = (refl, refl)
  answer-Settled r swapped b v = tt
  answer-Settled r uncalled b v = absurd v
  answer-Settled r sent b v = cc
  answer-Settled r _ b v = let q = v.0 in cc

  taken-IsQuiet :
      (st : Stage) (q : Option Request) (t : Running A)
      → t.queue ≡ q
      → IsQuiet t
      → IsQuiet (take_request st q t)
  unfolding take_request
  taken-IsQuiet serving (some r) t h v = record {
    none_admitted = v.none_admitted;
    calm = v.calm;
    settled =
        answer-Settled r t.closing t.broadcaster
          (subst (λ q. Settled t.closing q t.broadcaster.subscribers) h v.settled);
  }
  taken-IsQuiet _ _ t h v = v

  close_on-IsQuiet :
      (c : Closing) (q : Option Request) (t : Running A)
      → t.closing ≡ c
      → t.queue ≡ q
      → IsQuiet t
      → IsQuiet (close_on c q t)
  unfolding close_on
  close_on-IsQuiet uncalled q t h e v =
      absurd (subst (λ c. Settled c t.queue t.broadcaster.subscribers) h v.settled)
  close_on-IsQuiet swapped none t h e v = record {
    none_admitted = v.none_admitted;
    calm = v.calm;
    settled = refl;
  }
  close_on-IsQuiet replied q t h e v = record {
    none_admitted = v.none_admitted;
    calm = v.calm;
    settled = subst (λ c. Settled c t.queue t.broadcaster.subscribers) h v.settled;
  }
  close_on-IsQuiet requests_closed q t h e v = record {
    none_admitted = v.none_admitted;
    calm = v.calm;
    settled = subst (λ c. Settled c t.queue t.broadcaster.subscribers) h v.settled;
  }
  close_on-IsQuiet _ q t h e v = v

  message-IsQuiet :
      (st : Stage) (c : Closing) (x : A) (ms : String → List Moment) (t : Running A)
      → t.closing ≡ c
      → IsQuiet t
      → IsQuiet (take_message st c x ms t)
  unfolding take_message pass deliver
  message-IsQuiet serving finished x ms t h v = v
  message-IsQuiet serving c x ms t h v = passed-IsQuiet t _ (pass-Kept t.broadcaster x ms) v
  message-IsQuiet _ c x ms t h v = v

  test-IsQuiet : (c : Closing) (t : Running A) → t.closing ≡ c → IsQuiet t → IsQuiet (test c t)
  unfolding test
  test-IsQuiet uncalled t h v =
      absurd (subst (λ c. Settled c t.queue t.broadcaster.subscribers) h v.settled)
  test-IsQuiet _ t h v = v

  see_closed-IsQuiet :
      (st : Stage) (c : Closing) (q : Option Request) (on : Bool) (t : Running A)
      → IsQuiet t
      → IsQuiet (see_closed st c q on t)
  unfolding see_closed
  see_closed-IsQuiet serving requests_closed none on t v = record {
    none_admitted = v.none_admitted;
    calm = v.calm;
    settled = v.settled;
  }
  see_closed-IsQuiet serving finished none on t v = record {
    none_admitted = v.none_admitted;
    calm = v.calm;
    settled = v.settled;
  }
  see_closed-IsQuiet serving finished (some r) true t v = record {
    none_admitted = v.none_admitted;
    calm = v.calm;
    settled = v.settled;
  }
  see_closed-IsQuiet _ _ _ _ t v = v

  act-IsQuiet : (t : Running A) (a : Action A) → IsQuiet t → IsQuiet (act t a)
  unfolding act
  act-IsQuiet t tests v = test-IsQuiet t.closing t refl v
  act-IsQuiet t gives_up v = record {
    none_admitted = omega (arith, v.none_admitted);
    calm = v.calm;
    settled = v.settled;
  }
  act-IsQuiet t closes v = close_on-IsQuiet t.closing t.queue t refl refl v
  act-IsQuiet t takes_request v = taken-IsQuiet t.stage t.queue t refl v
  act-IsQuiet t sees_closed v =
      see_closed-IsQuiet t.stage t.closing t.queue t.broadcaster.broadcasting t v
  act-IsQuiet t (asks r) v = elim (Bool-cases (ltb 0 t.admitted)) [
    | inl y ↦ absurd (ground (arith, y, v.none_admitted))
    | inr y ↦ rw y v
  ]
  act-IsQuiet t (takes_message x ms) v = message-IsQuiet t.stage t.closing x ms t refl v

  pub acts-IsQuiet : (t : Running A) (steps : List (Action A)) → IsQuiet t → IsQuiet (acts t steps)
  unfolding acts
  acts-IsQuiet t [] v = v
  acts-IsQuiet t (a ∷ steps) v = acts-IsQuiet (act t a) steps (act-IsQuiet t a v)
