-- ===== src/Intracom/Topic/Running/Late.antt =====
-- A subscriber whose request comes after that of Close.
use mathlib.Core.List.{mem-append_right}
use rxd.Base.{
  ◌-◌, ℕ, ◌<◌, ◌≡◌, refl, sym, ap, ◌∙◌, subst, Bool, true, String, List, [], ◌∷◌, Option, none,
  some, Mem, lookup, ltb, arith, Bool-cases, inl, inr,
}
use rxd.Intracom.Channel.{Moment}
use rxd.Intracom.Subscriber.{Subscriber, SubscriberConfig, new_subscriber}
use rxd.Intracom.Broadcast.{
  Broadcaster, Request, subscribe, on_request, on_subscribe, replay, enable, Delivered, reached,
  stuck, crashed, deliver, after_delivery, pass, message, Pass, goes, blocked, returns, panicked,
}
use rxd.Intracom.Broadcast.Invariant.{IsSound, references}
use rxd.Intracom.Broadcast.Panics.{subscribed_new}
use rxd.Intracom.Topic.Running.{
  Stage, serving, Closing, uncalled, swapped, replied, requests_closed, finished, Running, passed,
  test, subscribing, unsubscribing, ask, close_on, take_request, take_message, see_closed, Action,
  tests, gives_up, closes, takes_request, sees_closed, asks, takes_message, act, acts,
}
use rxd.Intracom.Topic.Running.Quiet.{IsAnswered}
use rxd.Intracom.Topic.Running.Settling.{IsOver}

-- Nobody unsubscribes.
abbrev pub NoneLeaves : {A : Type 0} → List (Action A) → Type 0
NoneLeaves [] = Unit {0}
NoneLeaves (asks (unsubscribing c k) ∷ steps) = ⊥
NoneLeaves (a ∷ steps) = NoneLeaves steps

abbrev Subscribes : Option Request → Type 0
Subscribes none = Unit {0}
Subscribes (some (subscribe conf)) = Unit
Subscribes (some _) = ⊥

-- Close has its answer, no request that closes a channel waits, and these channels are closed.
record Keeps {A : Type 0} (channels : List ℕ) (t : Running A) : Type 0 where
  answered : IsAnswered t.closing
  subscribes : Subscribes t.queue
  same : t.broadcaster.closed ≡ channels

module _ {A : Type 0} where
  enable-closed : (b : Broadcaster A) → (enable b).closed ≡ b.closed
  unfolding enable
  enable-closed b = ground arith

  subscribe-closed :
      (b : Broadcaster A) (conf : SubscriberConfig) (o : Option (Subscriber A))
      → (on_subscribe b conf o).0.closed ≡ b.closed
  unfolding on_subscribe enable
  subscribe-closed b conf none = ground arith
  subscribe-closed b conf (some s) = elim (Bool-cases conf.err_if_exists) [
    | inl y ↦ rw y refl
    | inr y ↦ rw y (enable-closed b)
  ]

  request-closed :
      (b : Broadcaster A) (conf : SubscriberConfig)
      → (on_request b (subscribe conf)).0.closed ≡ b.closed
  unfolding on_request
  request-closed b conf = subscribe-closed b conf (lookup conf.consumer_group b.subscribers)

  -- A pass leaves the closed channels as they are.
  abbrev SameClosed : Broadcaster A → Pass A → Type 0
  SameClosed b (goes b' r) = b'.closed ≡ b.closed
  SameClosed b (blocked b') = b'.closed ≡ b.closed
  SameClosed b _ = Unit

  delivered-SameClosed :
      (b : Broadcaster A) (x : A) (d : Delivered A) → SameClosed b (after_delivery b x d)
  delivered-SameClosed b x (reached n) = refl
  delivered-SameClosed b x (stuck n) = refl
  delivered-SameClosed b x crashed = tt

  pass-SameClosed :
      (b : Broadcaster A) (x : A) (ms : String → List Moment) → SameClosed b (pass b (message x ms))
  unfolding pass
  pass-SameClosed b x ms = elim (Bool-cases b.broadcasting) [
    | inl y ↦
        rw y
          (delivered-SameClosed (record b { broadcasting = true }) x (deliver x ms b.subscribers))
    | inr y ↦ rw y refl
  ]

  module _ (channels : List ℕ) where
    kept :
        (t u : Running A)
        → IsAnswered u.closing
        → u.queue ≡ t.queue
        → u.broadcaster.closed ≡ t.broadcaster.closed
        → Keeps channels t
        → Keeps channels u
    kept t u a q c v = record {
      answered = a;
      subscribes = subst Subscribes (sym q) v.subscribes;
      same = c ∙ v.same;
    }

    passed-Keeps :
        (t : Running A) (p : Pass A)
        → SameClosed t.broadcaster p
        → Keeps channels t
        → Keeps channels (passed t p)
    passed-Keeps t (goes b r) h v = kept t _ v.answered refl h v
    passed-Keeps t (blocked b) h v = kept t _ v.answered refl h v
    passed-Keeps t returns h v = kept t _ v.answered refl refl v
    passed-Keeps t panicked h v = kept t _ v.answered refl refl v

    message-Keeps :
        (st : Stage) (c : Closing) (x : A) (ms : String → List Moment) (t : Running A)
        → Keeps channels t
        → Keeps channels (take_message st c x ms t)
    unfolding take_message
    message-Keeps serving finished x ms t v = v
    message-Keeps serving c x ms t v =
        passed-Keeps t (pass t.broadcaster (message x ms)) (pass-SameClosed t.broadcaster x ms) v
    message-Keeps _ c x ms t v = v

    take-Keeps :
        (st : Stage) (q : Option Request) (t : Running A)
        → t.queue ≡ q
        → Keeps channels t
        → Keeps channels (take_request st q t)
    unfolding take_request on_request
    take-Keeps serving (some (subscribe conf)) t e v = record {
      answered = v.answered;
      subscribes = tt;
      same = subscribe-closed t.broadcaster conf _ ∙ v.same;
    }
    take-Keeps serving (some r) t e v = absurd (subst Subscribes e v.subscribes)
    take-Keeps _ _ t e v = v

    close_on-Keeps :
        (c : Closing) (q : Option Request) (t : Running A)
        → t.closing ≡ c
        → Keeps channels t
        → Keeps channels (close_on c q t)
    unfolding close_on
    close_on-Keeps uncalled q t e v = absurd (subst IsAnswered e v.answered)
    close_on-Keeps swapped none t e v = absurd (subst IsAnswered e v.answered)
    close_on-Keeps replied q t e v = kept t _ tt refl refl v
    close_on-Keeps requests_closed q t e v = kept t _ tt refl refl v
    close_on-Keeps _ q t e v = v

    test-Keeps : (c : Closing) (t : Running A) → Keeps channels t → Keeps channels (test c t)
    unfolding test
    test-Keeps uncalled t v = kept t _ v.answered refl refl v
    test-Keeps _ t v = v

    ask-Keeps :
        (c : Closing) (q : Option Request) (conf : SubscriberConfig) (t : Running A)
        → t.queue ≡ q
        → Keeps channels t
        → Keeps channels (ask c (subscribe conf) t)
    unfolding ask
    ask-Keeps requests_closed q conf t e v = kept t _ v.answered refl refl v
    ask-Keeps finished q conf t e v = kept t _ v.answered refl refl v
    ask-Keeps _ none conf t e v =
        rw e (record { answered = v.answered; subscribes = tt; same = v.same })
    ask-Keeps _ (some r) conf t e v =
        rw e (subst (λ q. Keeps channels (record t { queue = q })) e v)

    see-Keeps :
        (st : Stage) (c : Closing) (q : Option Request) (on : Bool) (t : Running A)
        → Keeps channels t
        → Keeps channels (see_closed st c q on t)
    unfolding see_closed
    see-Keeps serving requests_closed none on t v = kept t _ v.answered refl refl v
    see-Keeps serving finished none on t v = kept t _ v.answered refl refl v
    see-Keeps serving finished (some r) true t v = kept t _ v.answered refl refl v
    see-Keeps _ _ _ _ t v = v

    acts-Keeps :
        (t : Running A) (steps : List (Action A))
        → NoneLeaves steps
        → Keeps channels t
        → Keeps channels (acts t steps)
    unfolding acts act
    acts-Keeps t [] h v = v
    acts-Keeps t (tests ∷ steps) h v = acts-Keeps (act t tests) steps h (test-Keeps t.closing t v)
    acts-Keeps t (gives_up ∷ steps) h v =
        acts-Keeps (act t gives_up) steps h (kept t _ v.answered refl refl v)
    acts-Keeps t (closes ∷ steps) h v =
        acts-Keeps (act t closes) steps h (close_on-Keeps t.closing t.queue t refl v)
    acts-Keeps t (takes_request ∷ steps) h v =
        acts-Keeps (act t takes_request) steps h (take-Keeps t.stage t.queue t refl v)
    acts-Keeps t (sees_closed ∷ steps) h v =
        acts-Keeps (act t sees_closed) steps h
          (see-Keeps t.stage t.closing t.queue t.broadcaster.broadcasting t v)
    acts-Keeps t (asks (subscribing conf) ∷ steps) h v =
        acts-Keeps (act t (asks (subscribing conf))) steps h (elim (Bool-cases (ltb 0 t.admitted)) [
          | inl y ↦ rw y (ask-Keeps t.closing t.queue conf t refl v)
          | inr y ↦ rw y v
        ])
    acts-Keeps t (asks (unsubscribing c k) ∷ steps) h v = absurd h
    acts-Keeps t (takes_message x ms ∷ steps) h v =
        acts-Keeps (act t (takes_message x ms)) steps h (message-Keeps t.stage t.closing x ms t v)

-- The caller's send, and its answer.
abbrev served_late : {A : Type 0} → Running A → SubscriberConfig → Running A
served_late t conf = acts t (asks (subscribing conf) ∷ takes_request ∷ [])

served_late-served :
    {A : Type 0} (t : Running A) (conf : SubscriberConfig)
    → t.stage ≡ serving
    → t.closing ≡ replied
    → t.queue ≡ none
    → ltb 0 t.admitted ≡ true
    → served_late t conf ≡ record t {
      broadcaster = (on_request t.broadcaster (subscribe conf)).0;
      admitted = t.admitted - 1;
    }
unfolding acts act ask take_request
served_late-served t conf st c q a = rw (a, c, q, st) refl

-- A topic at these places, with this broadcaster and as many calls under way, comes to its end.
ends-IsOver :
    {A : Type 0} (t : Running A) (b : Broadcaster A) (n : ℕ)
    → t.stage ≡ serving
    → t.closing ≡ replied
    → t.queue ≡ none
    → IsOver
        (acts (record t { broadcaster = b; admitted = n }) (closes ∷ closes ∷ sees_closed ∷ []))
unfolding acts act close_on see_closed
ends-IsOver t b n st c q = rw (c, q, st) (refl, refl)

closed-panics :
    {A : Type 0} (t : Running A) (conf : SubscriberConfig)
    → t.closing ≡ replied
    → ltb 0 t.admitted ≡ true
    → (acts t (closes ∷ asks (subscribing conf) ∷ [])).send_panicked ≡ true
unfolding acts act close_on ask
closed-panics t conf c a = rw (c, a) refl

-- The next channel is none of those closed.
next-unclosed : {A : Type 0} (b : Broadcaster A) → IsSound b → ¬ Mem b.next b.closed
next-unclosed b v m =
    let lt = v.parts.below b.next (mem-append_right (references b.subscribers) m) in
    absurd (omega (arith, lt))

-- Close has its answer and has not closed the channels, the broadcaster stands at its select, and a
-- Subscribe to a new group is past its test and before its send. If that sends now, it is served; Close can end and the broadcaster return; and
-- unless somebody unsubscribes, the new channel is never closed, whatever is done. If it sends only
-- after Close has closed the channels, it panics.
pub late_subscriber_stays :
    {A : Type 0} (t : Running A) (conf : SubscriberConfig) (steps : List (Action A))
    → IsSound t.broadcaster
    → t.stage ≡ serving
    → t.closing ≡ replied
    → t.queue ≡ none
    → 0 < t.admitted
    → lookup conf.consumer_group t.broadcaster.subscribers ≡ none
    → NoneLeaves steps
    → let u = served_late t conf in
      (lookup conf.consumer_group u.broadcaster.subscribers
        ≡ some (replay t.broadcaster.last_message (new_subscriber conf t.broadcaster.next)))
      × IsOver (acts u (closes ∷ closes ∷ sees_closed ∷ []))
      × (¬ Mem t.broadcaster.next (acts u steps).broadcaster.closed)
      × ((acts t (closes ∷ asks (subscribing conf) ∷ [])).send_panicked ≡ true)
late_subscriber_stays t conf steps v st c q under_way new none_leaves =
    let a : ltb 0 t.admitted ≡ true = ground (arith, under_way) in
    let e = served_late-served t conf st c q a in
    let b = (on_request t.broadcaster (subscribe conf)).0 in
    let keeps =
      acts-Keeps b.closed (record t { broadcaster = b; admitted = t.admitted - 1 }) steps
        none_leaves
        (record {
          answered = subst IsAnswered (sym c) tt;
          subscribes = subst Subscribes (sym q) tt;
          same = refl;
        }) in
    (
      ap (λ u. lookup conf.consumer_group u.broadcaster.subscribers) e
          ∙ subscribed_new t.broadcaster conf new,
      subst (λ u. IsOver (acts u (closes ∷ closes ∷ sees_closed ∷ []))) (sym e)
          (ends-IsOver t b (t.admitted - 1) st c q),
      λ m. next-unclosed t.broadcaster v (
          subst (λ l. Mem t.broadcaster.next l)
            (ap (λ u. (acts u steps).broadcaster.closed) e
              ∙ keeps.same
              ∙ request-closed t.broadcaster conf)
            m),
      closed-panics t conf c a,
    )
