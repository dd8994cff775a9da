-- ===== src/Context/Watch/Selection.antt =====
-- Which services a watcher finds, and when it signals.
use rxd.Base.{
  ◌≡◌, refl, ◌∙◌, Bool, false, ◌&&◌, ◌||◌, String, List, [], ◌∷◌, lookup, insert, if◌then◌else◌,
  Option, none, some, is_some, str_eq, eq_iff, arith, lookup-insert,
}
use rxd.States.{State, StateUpdate, ServiceStates, ServiceAction}
use rxd.Context.Watch.{matches, consider, interested}

abbrev pub mem : String → List String → Bool
mem n [] = false
mem n (m ∷ ms) = str_eq m n || mem n ms

-- No name is listed twice.
abbrev pub IsDistinct : List String → Type 0
IsDistinct [] = Unit {0}
IsDistinct (n ∷ ns) = (mem n ns ≡ false) × IsDistinct ns

-- The update of a service that meets the watch.
unfoldable pub target_update : ServiceAction → State → ServiceStates → String → Option StateUpdate
target_update a t states name = elim (lookup name states) [
  | none ↦ none
  | some u ↦ if matches a t u then some u else none
]

pub consider_lem :
    (a : ServiceAction) (t : State) (states : ServiceStates) (name : String) (found : ServiceStates)
    → (consider a t states name found).0
      ≡ elim (target_update a t states name) [ none ↦ found | some u ↦ insert name u found ]
unfolding consider matches target_update
consider_lem ServiceAction.other t states name found = ground arith
consider_lem _ t states name found = ground arith

-- interestedServices holds, for the names listed, their update in the states map if it meets the
-- watch, and else what was there before.
pub lookup-interested :
    (a : ServiceAction) (t : State) (states : ServiceStates) (n : String) (names : List String)
    (found : ServiceStates)
    → lookup n (interested a t states names found).0 ≡ (
        if mem n names && is_some (target_update a t states n)
        then target_update a t states n
        else lookup n found)
unfolding interested
lookup-interested a t states n [] found = refl
lookup-interested a t states n (m ∷ names) found =
    lookup-interested a t states n names (consider a t states m found).0
    ∙ (rw (consider_lem a t states m found) (step (target_update a t states m) refl))
  where
    step :
        (o : Option StateUpdate)
        → target_update a t states m ≡ o
        → (if mem n names && is_some (target_update a t states n)
            then target_update a t states n
            else lookup n (elim o [ none ↦ found | some u ↦ insert m u found ]))
          ≡ (if mem n (m ∷ names) && is_some (target_update a t states n)
              then target_update a t states n
              else lookup n found)
    step none e = ground (arith, eq_iff m n)
    step (some u) e = ground (arith, eq_iff m n, lookup-insert m n u found)
