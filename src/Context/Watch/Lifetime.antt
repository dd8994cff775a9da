-- ===== src/Context/Watch/Lifetime.antt =====
-- What a watcher does with its subscription and its channel.
use rxd.Base.{
  ◌≡◌, refl, ap, sym, ◌∙◌, Bool, true, false, String, List, [], ◌∷◌, ◌++◌, if◌then◌else◌, All,
  All-append, none, arith, append_assoc,
}
use rxd.States.{
  State, ServiceStates, ServiceAction, internal_states_consumer, internal_all_states_consumer,
}
use rxd.Context.Watch.{
  Turn, cancelled, closed, receives, Act, subscribes, unsubscribes, warns, signals, closes,
  consider, interested, watch_loop, watch_services,
}
use rxd.Context.Watch.Filter.{ServiceFilter}
use rxd.Context.Watch.AllStates.{states_loop, watch_all_states}

abbrev pub IsQuiet : Act → Type 0
IsQuiet (warns n) = Unit {0}
IsQuiet (signals s) = Unit {0}
IsQuiet _ = ⊥

-- The turns hold the end of the watcher's context or of its subscription.
abbrev pub has_end : List Turn → Bool
has_end [] = false
has_end (cancelled ∷ ts) = true
has_end (closed ∷ ts) = true
has_end (receives s sent ∷ ts) = has_end ts

-- The acts after the subscription: warnings and signals alone while the watcher runs, and once it
-- is over the unsubscription of `consumer` and the close of its channel behind them.
pub data Leaves (consumer : String) (ended : Bool) (acts : List Act) : Type 0 where
  running : ended ≡ false → All IsQuiet acts → Leaves consumer ended acts
  over :
      (middle : List Act)
      → All IsQuiet middle
      → acts ≡ middle ++ (unsubscribes consumer ∷ closes ∷ [])
      → Leaves consumer ended acts

leaves-append :
    (c : String) (b : Bool) (ws acts : List Act)
    → All IsQuiet ws
    → Leaves c b acts
    → Leaves c b (ws ++ acts)
leaves-append c b ws acts q (running e h) = running e (All-append IsQuiet ws acts q h)
leaves-append c b ws acts q (over middle h e) =
    over (ws ++ middle) (All-append IsQuiet ws middle q h)
      (ap (◌++◌ ws) e ∙ sym (append_assoc ws middle _))

consider-IsQuiet :
    (a : ServiceAction) (t : State) (states : ServiceStates) (name : String) (found : ServiceStates)
    → All IsQuiet (consider a t states name found).1
unfolding consider
consider-IsQuiet ServiceAction.other t states name found = tt
consider-IsQuiet _ t states name found = ground arith

interested-IsQuiet :
    (a : ServiceAction) (t : State) (states : ServiceStates) (names : List String)
    (found : ServiceStates)
    → All IsQuiet (interested a t states names found).1
unfolding interested
interested-IsQuiet a t states [] found = tt
interested-IsQuiet a t states (n ∷ names) found =
    All-append IsQuiet (consider a t states n found).1 _ (consider-IsQuiet a t states n found)
      (interested-IsQuiet a t states names (consider a t states n found).0)

watch_loop-Leaves :
    (test : List String → ServiceStates → Bool) (a : ServiceAction) (t : State)
    (names : List String) (c : String) (ts : List Turn)
    → Leaves c (has_end ts) (watch_loop test a t names c ts)
unfolding watch_loop
watch_loop-Leaves test a t names c [] = running refl tt
watch_loop-Leaves test a t names c (cancelled ∷ ts) = over [] tt refl
watch_loop-Leaves test a t names c (closed ∷ ts) = over [] tt refl
watch_loop-Leaves test a t names c (receives states sent ∷ ts) =
    leaves-append c (has_end ts) (interested a t states names []).1 _
      (interested-IsQuiet a t states names [])
      (step (test names (interested a t states names []).0) sent
        (watch_loop-Leaves test a t names c ts))
  where
    step :
        (found sent : Bool)
        → Leaves c (has_end ts) (watch_loop test a t names c ts)
        → Leaves c (has_end ts) (
            if found
            then (if sent
                then signals (interested a t states names []).0 ∷ watch_loop test a t names c ts
                else unsubscribes c ∷ closes ∷ [])
            else watch_loop test a t names c ts)
    step true true h = leaves-append c (has_end ts) (signals _ ∷ []) _ (tt, tt) h
    step true false h = over [] tt refl
    step false sent h = h

states_loop-Leaves :
    (f : ServiceFilter) (c : String) (ts : List Turn) → Leaves c (has_end ts) (states_loop f c ts)
unfolding states_loop
states_loop-Leaves f c [] = running refl tt
states_loop-Leaves f c (cancelled ∷ ts) = over [] tt refl
states_loop-Leaves f c (closed ∷ ts) = over [] tt refl
states_loop-Leaves f c (receives states true ∷ ts) =
    leaves-append c (has_end ts) (signals _ ∷ []) _ (tt, tt) (states_loop-Leaves f c ts)
states_loop-Leaves f c (receives states false ∷ ts) = over [] tt refl

-- Each of the three watchers, once it has subscribed, releases what it took: its acts are the
-- subscription, then warnings and signals, and when it is over the unsubscription of the consumer
-- group that it subscribed and then the close of its channel, each once and last. It is over
-- whenever its context ends or its subscription is closed.
pub watch_releases :
    (test : List String → ServiceStates → Bool) (a : ServiceAction) (t : State)
    (names : List String) (f : ServiceFilter) (fqcn : String) (ts : List Turn)
    → ((acts : List Act) × (watch_services test a t names fqcn none ts
          ≡ subscribes (internal_states_consumer a t fqcn) ∷ acts)
        × Leaves (internal_states_consumer a t fqcn) (has_end ts) acts)
      × ((acts : List Act) × (watch_all_states f fqcn none ts
            ≡ subscribes (internal_all_states_consumer fqcn) ∷ acts)
          × Leaves (internal_all_states_consumer fqcn) (has_end ts) acts)
unfolding watch_services watch_all_states
watch_releases test a t names f fqcn ts = (
  (_, refl, watch_loop-Leaves test a t names (internal_states_consumer a t fqcn) ts),
  (_, refl, states_loop-Leaves f (internal_all_states_consumer fqcn) ts),
)
