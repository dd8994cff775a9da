-- ===== src/Manager/Options.antt =====
-- service_manager.go (NewDefaultManager), service_manager_option.go and service.go (the manager of
-- NewService): how a RunContinuousManager is configured.
use rxd.Base.{
  ℕ, ◌*◌, ◌≡◌, refl, ap, sym, ◌∙◌, List, [], ◌∷◌, Option, none, some, if◌then◌else◌, Bool-cases,
  inl, inr, arith, if-true, if-false,
}
use rxd.States.{State, same_state, code-injective, init}
use rxd.Log.Handler.{apply_options}
use rxd.Manager.Continuous.{RunContinuousManager, state_timeout, next_delay}

abbrev pub StateTimeouts : Type 0
StateTimeouts = List (State × ℕ)

abbrev pub ManagerOption : Type 0
ManagerOption = RunContinuousManager → RunContinuousManager

abbrev pub millisecond : ℕ
millisecond = 1000000

unfoldable pub new_default_manager : List ManagerOption → RunContinuousManager
new_default_manager options = apply_options options (record {
  default_delay = 100 * millisecond;
  startup_delay = 100 * millisecond;
  state_timeouts = [];
})

-- The manager of a service made by NewService with no option.
abbrev pub service_manager : RunContinuousManager
service_manager = record {
  default_delay = 10;
  startup_delay = 10;
  state_timeouts = (init, 5 * (1000 * millisecond)) ∷ [];
}

unfoldable pub with_init_delay : ℕ → ManagerOption
with_init_delay delay m = record m { startup_delay = delay }

-- An assignment to a key of the map.
unfoldable pub assign : State → ℕ → StateTimeouts → StateTimeouts
assign s d [] = (s, d) ∷ []
assign s d ((t, e) ∷ m) = if same_state t s then (t, d) ∷ m else (t, e) ∷ assign s d m

-- `range t` visits the entries of t, in any order.
unfoldable pub assign_all : StateTimeouts → StateTimeouts → StateTimeouts
unfolding assign
assign_all [] m = m
assign_all ((s, d) ∷ t) m = assign_all t (assign s d m)

unfoldable pub with_transition_timeouts : StateTimeouts → ManagerOption
unfolding assign_all
with_transition_timeouts t m = record m { state_timeouts = assign_all t m.state_timeouts }

-- A Go map has each key once.
abbrev pub IsTimeouts : StateTimeouts → Type 0
IsTimeouts [] = Unit {0}
IsTimeouts ((s, d) ∷ m) = (state_timeout s m ≡ none) × IsTimeouts m

abbrev pub or_else : Option ℕ → Option ℕ → Option ℕ
or_else (some d) o = some d
or_else none o = o

state_timeout-assign :
    (s t : State) (d : ℕ) (m : StateTimeouts)
    → state_timeout t (assign s d m) ≡ (if same_state s t then some d else state_timeout t m)
unfolding state_timeout assign
state_timeout-assign s t d [] = refl
state_timeout-assign s t d ((u, e) ∷ m) = ground (arith, state_timeout-assign s t d m)

state_timeout-assign_all :
    (s : State) (t m : StateTimeouts)
    → IsTimeouts t
    → state_timeout s (assign_all t m) ≡ or_else (state_timeout s t) (state_timeout s m)
unfolding assign_all state_timeout
state_timeout-assign_all s [] m h = refl
state_timeout-assign_all s ((u, d) ∷ t) m h =
    let ih = state_timeout-assign_all s t (assign u d m) h.1 in
    elim (Bool-cases (same_state u s)) [
      | inl y ↦
          let same : u ≡ s = code-injective u s (ground (arith, y)) in
          let fresh : state_timeout s t ≡ none = ap (λ v. state_timeout v t) (sym same) ∙ h.0 in
          ih
          ∙ ap (λ o. or_else o (state_timeout s (assign u d m))) fresh
          ∙ state_timeout-assign u s d m
          ∙ if-true (same_state u s) _ _ y
          ∙ sym (ap (λ o. or_else o (state_timeout s m)) (if-true (same_state u s) _ _ y))
      | inr y ↦
          ih
          ∙ ap (or_else (state_timeout s t))
              (state_timeout-assign u s d m ∙ if-false (same_state u s) _ _ y)
          ∙ sym (ap (λ o. or_else o (state_timeout s m)) (if-false (same_state u s) _ _ y))
    ]

abbrev pub delay_of : Option ℕ → ℕ → ℕ
delay_of (some d) e = d
delay_of none e = e

-- With WithTransitionTimeouts a state's delay is that of the given map where it has one, in
-- whatever order the map is visited, and the delay that the manager had before elsewhere; the
-- startup delay stays.
pub next_delay-with_transition_timeouts :
    (t : StateTimeouts) (m : RunContinuousManager) (s : State)
    → IsTimeouts t
    → (next_delay (with_transition_timeouts t m) s ≡ delay_of (state_timeout s t) (next_delay m s))
      × ((with_transition_timeouts t m).startup_delay ≡ m.startup_delay)
unfolding next_delay with_transition_timeouts
next_delay-with_transition_timeouts t m s h =
    (ground (arith, state_timeout-assign_all s t m.state_timeouts h), refl)
