-- ===== src/Manager/Custom/Order.antt =====
-- examples/single_service_custom_manager/manager.go: which methods run, and when Manage returns.
use rxd.Base.{◌≡◌, refl, ap, String, List, [], ◌∷◌}
use rxd.States.{State, exit, init, idle, run, stop}
use rxd.Manager.{
  Outcome, succeeds, panics, fails, Turn, done, fires, Status, returned, panicked, waiting, Trace,
  call_list,
}
use rxd.Manager.Custom.{pass, custom_loop, custom_manage}

-- The doc comment of Manage, as a function: the state after a method.
abbrev pub documented : State → Outcome → State
documented init succeeds = idle
documented init _ = exit
documented idle succeeds = run
documented idle _ = stop
documented run _ = stop
documented stop succeeds = init
documented stop _ = exit
documented _ _ = exit

-- The methods that the doc comment's states call for on these turns, and how the run then stands.
-- A panic ends the run inside the method, and a cancellation ends it before the next method.
pub record Plan : Type 0 where
  pub methods : List State
  pub ends : Status

abbrev planned : State → Plan → Plan
planned s p = record { methods = s ∷ p.methods; ends = p.ends }

abbrev pub plan_at : State → List Turn → Plan
plan_at exit ts = record { methods = []; ends = returned }
plan_at s [] = record { methods = []; ends = waiting }
plan_at s (done ∷ ts) = record { methods = []; ends = returned }
plan_at s (fires (panics v) ∷ ts) = record { methods = s ∷ []; ends = panicked v }
plan_at s (fires o ∷ ts) = planned s (plan_at (documented s o) ts)

-- The states of the loop.
abbrev Listed : State → Type 0
Listed exit = Unit {0}
Listed init = Unit {0}
Listed idle = Unit {0}
Listed run = Unit {0}
Listed stop = Unit {0}
Listed _ = ⊥

abbrev Meets : Plan → Trace → Type 0
Meets p t = (call_list t.effects ≡ p.methods) × (t.status ≡ p.ends)

loop-Meets :
    (name : String) (s : State) (ts : List Turn)
    → Listed s
    → Meets (plan_at s ts) (custom_loop name s ts)
unfolding custom_loop pass
loop-Meets name exit [] h = (refl, refl)
loop-Meets name exit (done ∷ ts) h = (refl, refl)
loop-Meets name exit (fires o ∷ ts) h = (refl, refl)
loop-Meets name init [] h = (refl, refl)
loop-Meets name init (done ∷ ts) h = (refl, refl)
loop-Meets name init (fires (panics v) ∷ ts) h = (refl, refl)
loop-Meets name init (fires succeeds ∷ ts) h =
    let rest = loop-Meets name idle ts tt in (ap (◌∷◌ init) rest.0, rest.1)
loop-Meets name init (fires (fails e) ∷ ts) h =
    let rest = loop-Meets name exit ts tt in (ap (◌∷◌ init) rest.0, rest.1)
loop-Meets name idle [] h = (refl, refl)
loop-Meets name idle (done ∷ ts) h = (refl, refl)
loop-Meets name idle (fires (panics v) ∷ ts) h = (refl, refl)
loop-Meets name idle (fires succeeds ∷ ts) h =
    let rest = loop-Meets name run ts tt in (ap (◌∷◌ idle) rest.0, rest.1)
loop-Meets name idle (fires (fails e) ∷ ts) h =
    let rest = loop-Meets name stop ts tt in (ap (◌∷◌ idle) rest.0, rest.1)
loop-Meets name run [] h = (refl, refl)
loop-Meets name run (done ∷ ts) h = (refl, refl)
loop-Meets name run (fires (panics v) ∷ ts) h = (refl, refl)
loop-Meets name run (fires succeeds ∷ ts) h =
    let rest = loop-Meets name stop ts tt in (ap (◌∷◌ run) rest.0, rest.1)
loop-Meets name run (fires (fails e) ∷ ts) h =
    let rest = loop-Meets name stop ts tt in (ap (◌∷◌ run) rest.0, rest.1)
loop-Meets name stop [] h = (refl, refl)
loop-Meets name stop (done ∷ ts) h = (refl, refl)
loop-Meets name stop (fires (panics v) ∷ ts) h = (refl, refl)
loop-Meets name stop (fires succeeds ∷ ts) h =
    let rest = loop-Meets name init ts tt in (ap (◌∷◌ stop) rest.0, rest.1)
loop-Meets name stop (fires (fails e) ∷ ts) h =
    let rest = loop-Meets name exit ts tt in (ap (◌∷◌ stop) rest.0, rest.1)
loop-Meets name _ ts h = absurd h

-- A run of the custom manager calls the methods, and returns, panics or waits, as its doc comment
-- says: an error of Init or Stop ends it, an error of Idle or Run leads to Stop, and a
-- cancellation ends it with no further method, also without Stop.
pub custom-Meets :
    (name : String) (ts : List Turn)
    → (let t = custom_manage name ts in
        (call_list t.effects ≡ (plan_at init ts).methods) × (t.status ≡ (plan_at init ts).ends))
unfolding custom_manage
custom-Meets name ts = loop-Meets name init ts tt
