-- ===== src/Manager/UntilSuccess/Steps.antt =====
-- What one pass of RunUntilSuccessManager's `switch` calls, and where it leads.
use rxd.Base.{
  ◌<◌, ℕ, ◌==◌, Bool-cases, arith, ◌≡◌, refl, Bool, true, false, String, List, [], ◌∷◌,
  if◌then◌else◌, ◌⊎◌, inl, inr, ap,
}
use rxd.States.{State, same_state, exit, init, idle, run, stop}
use rxd.Manager.{
  Outcome, succeeds, panics, fails, Turn, done, fires, Trace, after, arms, Switch, moves, crashes,
  call_list, call_list-reported,
}
use rxd.Manager.UntilSuccess.{run_state, recovers, finish, loop, set_ticker}

-- Which method may be called after which: here a Stop that fails is called again.
abbrev pub Follows : State → State → Type 0
Follows init s = (s ≡ idle) ⊎ (s ≡ stop)
Follows idle s = (s ≡ run) ⊎ (s ≡ stop)
Follows run s = s ≡ stop
Follows stop s = (s ≡ init) ⊎ (s ≡ stop)
Follows _ s = s ≡ init

abbrev pub Chain : State → List State → Type 0
Chain s [] = Unit {0}
Chain s (t ∷ ts) = Follows s t × Chain t ts

-- The states of the loop.
abbrev pub IsLive : State → Type 0
IsLive init = Unit {0}
IsLive idle = Unit {0}
IsLive run = Unit {0}
IsLive stop = Unit {0}
IsLive _ = ⊥

abbrev pub is_stop : State → Bool
is_stop stop = true
is_stop _ = false

-- The next state of the loop: one whose method may follow, or Exit after Run alone.
abbrev pub Next : State → State → Type 0
Next s exit = s ≡ run
Next s t = IsLive t × Follows s t

-- What a pass of the switch did.
abbrev pub Passed : State → Switch → Type 0
Passed s (moves next stopped es) = (call_list es ≡ s ∷ []) × (stopped ≡ is_stop s) × Next s next
Passed s (crashes v es) = call_list es ≡ s ∷ []

pub run_state-Passed :
    (name : String) (s : State) (r : Outcome) → IsLive s → Passed s (run_state name s r)
unfolding run_state
run_state-Passed name init (panics v) h = refl
run_state-Passed name init succeeds h = (refl, refl, (tt, inl refl))
run_state-Passed name init (fails e) h =
    (ap (◌∷◌ init) (call_list-reported e _), refl, (tt, inr refl))
run_state-Passed name idle (panics v) h = refl
run_state-Passed name idle succeeds h = (refl, refl, (tt, inl refl))
run_state-Passed name idle (fails e) h =
    (ap (◌∷◌ idle) (call_list-reported e _), refl, (tt, inr refl))
run_state-Passed name run (panics v) h = refl
run_state-Passed name run succeeds h = (refl, refl, refl)
run_state-Passed name run (fails e) h = (ap (◌∷◌ run) (call_list-reported e _), refl, (tt, refl))
run_state-Passed name stop (panics v) h = refl
run_state-Passed name stop succeeds h = (refl, refl, (tt, inl refl))
run_state-Passed name stop (fails e) h =
    (ap (◌∷◌ stop) (call_list-reported e _), refl, (tt, inr refl))
run_state-Passed name _ r h = absurd h

pub IsLive-ne-exit : (s : State) → IsLive s → same_state s exit ≡ false
IsLive-ne-exit init h = refl
IsLive-ne-exit idle h = refl
IsLive-ne-exit run h = refl
IsLive-ne-exit stop h = refl
IsLive-ne-exit _ h = absurd h

pub finish_calls :
    (name : String) (stopped : Bool) (o : Outcome)
    → call_list (finish name stopped o).effects ≡ (if stopped then [] else stop ∷ [])
unfolding finish recovers
finish_calls name true o = refl
finish_calls name false (panics v) = refl
finish_calls name false succeeds = refl
finish_calls name false (fails e) = ap (◌∷◌ stop) (call_list-reported e _)

pub Next-cases : (s t : State) → Next s t → (t ≡ exit) × (s ≡ run) ⊎ IsLive t × Follows s t
Next-cases s exit h = inl (refl, h)
Next-cases s init h = inr h
Next-cases s idle h = inr h
Next-cases s run h = inr h
Next-cases s stop h = inr h
Next-cases s _ h = inr h

pub Next-IsLive : (s t : State) → Next s t → IsLive t ⊎ (t ≡ exit)
Next-IsLive s t n = elim (Next-cases s t n) [ inl (e, _) ↦ inr e | inr (l, _) ↦ inl l ]

pub loop_exit :
    (name : String) (stopped : Bool) (ts : List Turn) (o : Outcome)
    → loop name exit stopped ts o ≡ finish name stopped o
unfolding loop
loop_exit name stopped [] o = refl
loop_exit name stopped (done ∷ ts) o = refl
loop_exit name stopped (fires r ∷ ts) o = refl

-- The ticker panics, or its setting is an effect.
pub set_ticker-cases :
    (delay : ℕ) (text : String) (t : Trace)
    → ((delay ≡ 0) × (set_ticker delay text t ≡ recovers text []))
      ⊎ (set_ticker delay text t ≡ after (arms delay ∷ []) t)
unfolding set_ticker
set_ticker-cases delay text t = elim (Bool-cases (delay == 0)) [
  | inl y ↦ rw y (inl (ground (arith, y), refl))
  | inr y ↦ rw y (inr refl)
]

pub set_ticker-positive :
    (delay : ℕ) (text : String) (t : Trace)
    → 0 < delay
    → set_ticker delay text t ≡ after (arms delay ∷ []) t
set_ticker-positive delay text t h = elim (set_ticker-cases delay text t) [
  | inl (z, _) ↦ absurd (omega (arith, h, z))
  | inr e ↦ e
]
