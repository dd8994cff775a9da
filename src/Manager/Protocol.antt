-- ===== src/Manager/Protocol.antt =====
-- What the states watcher may rely on from a manager, independently of the manager's code: an
-- automaton over the trace, and the order in which lifecycle methods may follow one another.
use text.Mathlib.TextPositions.{eq_refl}
use rxd.Base.{
  ◌≡◌, refl, true, String, List, [], ◌∷◌, ◌++◌, if◌then◌else◌, ◌⊎◌, arith, ap, ◌∙◌, str_eq, ◌&&◌,
}
use rxd.States.{State, same_state, exit, init, idle, run, stop, ServiceStateUpdate, StateTransition}
use rxd.Errors.{GoError}
use rxd.Manager.{
  Effect, sends, calls, logs, arms, report, enters, exits, Status, returned, panicked, recovered,
  waiting, Trace, Switch, moves, crashes,
}

-- Which method may be called after which.
abbrev pub Follows : State → State → Type 0
Follows init s = (s ≡ idle) ⊎ (s ≡ stop)
Follows idle s = (s ≡ run) ⊎ (s ≡ stop)
Follows run s = s ≡ stop
Follows stop s = s ≡ init
Follows _ s = s ≡ init

abbrev pub Chain : State → List State → Type 0
Chain s [] = Unit {0}
Chain s (t ∷ ts) = Follows s t × Chain t ts

-- `entered s`: the last update announced s. `inside s`: the method for s has been called and its
-- exited update is due. `broken`: an update or a call out of turn, or under another name.
pub data Phase : Type 0 where
  quiet broken : Phase
  entered inside : State → Phase

abbrev after_update : String → Phase → ServiceStateUpdate → StateTransition → Phase
after_update name quiet u StateTransition.entering =
    if str_eq u.name name then entered u.state else broken
after_update name (entered s) u StateTransition.entering =
    if str_eq u.name name then entered u.state else broken
after_update name (inside s) u StateTransition.exited =
    if str_eq u.name name && same_state s u.state then quiet else broken
after_update name _ u _ = broken

abbrev pub next_phase : String → Phase → Effect → Phase
next_phase name p (sends u) = after_update name p u u.transition
next_phase name (entered s) (calls t) = if same_state s t then inside s else broken
next_phase name p (calls t) = broken
next_phase name p (logs l m) = p
next_phase name p (arms d) = p

abbrev pub phase : String → Phase → List Effect → Phase
phase name p [] = p
phase name p (e ∷ es) = phase name (next_phase name p e) es

pub phase-append :
    (name : String) (p : Phase) (xs ys : List Effect)
    → phase name p (xs ++ ys) ≡ phase name (phase name p xs) ys
phase-append name p [] ys = refl
phase-append name p (x ∷ xs) ys = phase-append name (next_phase name p x) xs ys

pub phase-report :
    (name : String) (s : State) (e : GoError) → phase name (inside s) (report e) ≡ inside s
unfolding report
phase-report name s e = ground arith

pub same_state_self : (s : State) → same_state s s ≡ true
same_state_self s = ground arith

pub announce :
    (name : String) (p : Phase) (s : State)
    → (p ≡ quiet) ⊎ ((t : State) × (p ≡ entered t))
    → next_phase name p (enters name s) ≡ entered s
announce name quiet s h = rw (eq_refl name)
announce name (entered t) s h = rw (eq_refl name)
announce name broken s h = ground arith
announce name (inside t) s h = ground arith

pub announce_call : (name : String) (s : State) → next_phase name (entered s) (calls s) ≡ inside s
announce_call name s = rw (same_state_self s)

pub announce_exit : (name : String) (s : State) → next_phase name (inside s) (exits name s) ≡ quiet
announce_exit name s = rw (eq_refl name, same_state_self s)

pub phase-enters :
    (name : String) (p : Phase) (s : State) (es : List Effect)
    → (p ≡ quiet) ⊎ ((t : State) × (p ≡ entered t))
    → phase name p (enters name s ∷ es) ≡ phase name (entered s) es
phase-enters name p s es h = ap (λ q. phase name q es) (announce name p s h)

-- A call that returns is announced, made, reported and left.
pub phase_call :
    (name : String) (s : State) (es fs : List Effect)
    → phase name (inside s) es ≡ inside s
    → phase name (entered s) (calls s ∷ (es ++ (exits name s ∷ fs))) ≡ phase name quiet fs
phase_call name s es fs h =
    ap (λ p. phase name p (es ++ (exits name s ∷ fs))) (announce_call name s)
    ∙ phase-append name (inside s) es (exits name s ∷ fs)
    ∙ ap (λ p. phase name (next_phase name p (exits name s)) fs) h
    ∙ ap (λ p. phase name p fs) (announce_exit name s)

-- How a run stands with the watcher when it is over or waits.
abbrev pub Told : Phase → Status → Type 0
Told p returned = p ≡ entered exit
Told p (panicked v) = (s : State) × (p ≡ inside s)
Told p (recovered v) = (s : State) × (p ≡ inside s)
Told p waiting = (s : State) × (p ≡ entered s)

-- How a pass of the switch stands.
abbrev pub Heard : String → State → Switch → Type 0
Heard name s (moves next stopped es) = phase name (entered s) es ≡ quiet
Heard name s (crashes v es) = phase name (entered s) es ≡ inside s

-- What holds at the loop's top, in both phases that it is entered with.
abbrev pub Open : Phase → Type 0
Open p = (p ≡ quiet) ⊎ ((t : State) × (p ≡ entered t))

pub Told-after :
    (name : String) (p : Phase) (s : State) (t : Trace)
    → Open p
    → Told (phase name (entered s) t.effects) t.status
    → Told (phase name p (enters name s ∷ t.effects)) t.status
Told-after name p s t o h = rw (phase-enters name p s t.effects o) h
