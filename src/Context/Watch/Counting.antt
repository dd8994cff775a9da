-- ===== src/Context/Watch/Counting.antt =====
-- The test of WatchAllServices compares two lengths; what it decides.
use rxd.Base.{
  ◌+◌, ◌≤◌, ◌≡◌, refl, ◌∙◌, true, false, String, List, [], ◌∷◌, lookup, insert, length, Option,
  none, some, is_some, eq_iff, arith, lookup-insert, length-insert_new, length-insert_old, ◌⊎◌, inl,
  inr, Option-cases, ◌↔◌, ◌<◌, ltb→lt, lt→ltb,
}
use rxd.States.{State, StateUpdate, ServiceStates, ServiceAction}
use rxd.Context.Watch.{consider, interested, all_found, any_found}
use rxd.Context.Watch.Selection.{mem, IsDistinct, target_update, consider_lem, lookup-interested}

abbrev Absent : ServiceStates → List String → Type 0
Absent found [] = Unit {0}
Absent found (n ∷ ns) = (lookup n found ≡ none) × Absent found ns

Absent-insert :
    (m : String) (u : StateUpdate) (found : ServiceStates) (ns : List String)
    → Absent (insert m u found) ns ↔ ((mem m ns ≡ false) × Absent found ns)
Absent-insert m u found [] = (λ _. (refl, tt), λ _. tt)
Absent-insert m u found (n ∷ ns) = (
  λ h. ground (
    arith,
    (Absent-insert m u found ns).0 h.1,
    lookup-insert m n u found,
    eq_iff m n,
    eq_iff n m,
  ),
  λ h.
      ground
        (arith, (Absent-insert m u found ns).1, lookup-insert m n u found, eq_iff m n, eq_iff n m),
)

module _ (a : ServiceAction) (t : State) (states : ServiceStates) where
  -- Every service listed is in the states map and meets the watch.
  abbrev pub AllMeet : List String → Type 0
  AllMeet [] = Unit {0}
  AllMeet (n ∷ ns) = (is_some (target_update a t states n) ≡ true) × AllMeet ns

  length-consider-le :
      (m : String) (found : ServiceStates)
      → length (consider a t states m found).0 ≤ length found + 1
  length-consider-le m found =
      rw (consider_lem a t states m found)
        (step (target_update a t states m) (Option-cases (lookup m found)))
    where
      step :
          (o : Option StateUpdate)
          → (lookup m found ≡ none) ⊎ ((w : StateUpdate) × (lookup m found ≡ some w))
          → length (elim o [ none ↦ found | some u ↦ insert m u found ]) ≤ length found + 1
      step none h = omega arith
      step (some u) (inl e) = omega (arith, length-insert_new m u found e)
      step (some u) (inr (w, e)) = omega (arith, length-insert_old m u w found e)

  length-interested-le :
      (names : List String) (found : ServiceStates)
      → length (interested a t states names found).0 ≤ length found + length names
  unfolding interested
  length-interested-le [] found = omega arith
  length-interested-le (m ∷ names) found = omega (
    arith,
    length-interested-le names (consider a t states m found).0,
    length-consider-le m found,
  )

  -- A service that adds an entry meets the watch and was not there.
  consider-grows :
      (m : String) (found : ServiceStates)
      → length (consider a t states m found).0 ≡ length found + 1
      → (u : StateUpdate) × (target_update a t states m ≡ some u)
        × (lookup m found ≡ none)
        × ((consider a t states m found).0 ≡ insert m u found)
  consider-grows m found h = step (target_update a t states m) refl (Option-cases (lookup m found))
    where
      step :
          (o : Option StateUpdate)
          → target_update a t states m ≡ o
          → (lookup m found ≡ none) ⊎ ((w : StateUpdate) × (lookup m found ≡ some w))
          → (u : StateUpdate) × (target_update a t states m ≡ some u)
            × (lookup m found ≡ none)
            × ((consider a t states m found).0 ≡ insert m u found)
      step none e l = absurd (ground (arith, consider_lem a t states m found))
      step (some u) e (inl l) = (u, e, l, consider_lem a t states m found ∙ rw e)
      step (some u) e (inr (w, l)) =
          absurd (ground (arith, consider_lem a t states m found, length-insert_old m u w found l))

  counts_all :
      (names : List String) (found : ServiceStates)
      → length (interested a t states names found).0 ≡ length found + length names
      → IsDistinct names × AllMeet names × Absent found names
  unfolding interested
  counts_all [] found h = (tt, tt, tt)
  counts_all (m ∷ names) found h =
      let grown = consider-grows m found (
        omega (
          arith,
          length-interested-le names (consider a t states m found).0,
          length-consider-le m found,
        )) in
      let ih = counts_all names (consider a t states m found).0 (
        omega (
          arith,
          length-interested-le names (consider a t states m found).0,
          length-consider-le m found,
        )) in
      let rest = (Absent-insert m grown.0 found names).0 (rw grown.3 at ih.2) in
      ((rest.0, ih.0), (rw grown.1, ih.1), (grown.2, rest.1))

  all_count :
      (names : List String) (found : ServiceStates)
      → IsDistinct names
      → AllMeet names
      → Absent found names
      → length (interested a t states names found).0 ≡ length found + length names
  unfolding interested
  all_count [] found d h b = omega arith
  all_count (m ∷ names) found d h b = elim (Option-cases (target_update a t states m)) [
    | inl e ↦ absurd (ground (arith, e, h.0))
    | inr (u, e) ↦
        let found' : (consider a t states m found).0 ≡ insert m u found =
          consider_lem a t states m found ∙ rw e in
        rw found' (
          omega (
            arith,
            all_count names (insert m u found) d.1 h.1
                ((Absent-insert m u found names).1 (d.0, b.1)),
            length-insert_new m u found b.0,
          ))
  ]

Absent-empty : (names : List String) → Absent [] names
unfolding lookup
Absent-empty [] = tt
Absent-empty (n ∷ names) = (refl, Absent-empty names)

-- WatchAllServices finds that it has all exactly when no service is listed twice and every service
-- listed is in the states map and meets the watch.
pub all_found_iff :
    (a : ServiceAction) (t : State) (states : ServiceStates) (names : List String)
    → (all_found names (interested a t states names []).0 ≡ true)
      ↔ (IsDistinct names × AllMeet a t states names)
unfolding all_found
all_found_iff a t states names = (
  λ h. let r = counts_all a t states names [] (ground arith) in (r.0, r.1),
  λ (d, h). ground (arith, all_count a t states names [] d h (Absent-empty names)),
)

first_entry :
    (found : ServiceStates) → 0 < length found → (n : String) × (is_some (lookup n found) ≡ true)
unfolding lookup
first_entry [] h = absurd (omega arith)
first_entry ((k, u) ∷ found) h = (k, ground (arith, eq_iff k k))

has_entry :
    (n : String) (found : ServiceStates) → is_some (lookup n found) ≡ true → 0 < length found
unfolding lookup
has_entry n [] h = cc
has_entry n ((k, u) ∷ found) h = omega arith

entry_meets :
    (a : ServiceAction) (t : State) (states : ServiceStates) (names : List String) (n : String)
    → is_some (lookup n (interested a t states names []).0) ≡ true
    → (mem n names ≡ true) × (is_some (target_update a t states n) ≡ true)
unfolding lookup
entry_meets a t states names n h = ground (arith, lookup-interested a t states n names [])

-- WatchAnyServices finds that it has some exactly when a service listed is in the states map and
-- meets the watch.
pub any_found_iff :
    (a : ServiceAction) (t : State) (states : ServiceStates) (names : List String)
    → (any_found names (interested a t states names []).0 ≡ true)
      ↔ ((n : String) × (mem n names ≡ true) × (is_some (target_update a t states n) ≡ true))
unfolding any_found
any_found_iff a t states names = (
  λ h.
      let found = (interested a t states names []).0 in
      let first = first_entry found (ltb→lt 0 (length found) h) in
      let meets = entry_meets a t states names first.0 first.1 in (first.0, meets.0, meets.1),
  λ (n, m, h). lt→ltb 0 _ (
      has_entry n (interested a t states names []).0
        (rw (lookup-interested a t states n names []) (ground arith))),
)
