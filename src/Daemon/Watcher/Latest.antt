-- ===== src/Daemon/Watcher/Latest.antt =====
-- The states published for one service.
use rxd.Base.{
  ◌≡◌, refl, ap, ◌∙◌, String, List, [], ◌∷◌, map, lookup, insert, Option, none, some, if◌then◌else◌,
  str_eq, eq_iff, arith, IsMap, insert-IsMap, lookup-insert,
}
use rxd.States.{StateUpdate, ServiceStates, ServiceStateUpdate, copy_states}
use rxd.Daemon.Watcher.{initial_states, watch_updates, states_watcher, unknown_entering}

abbrev or_else : Option StateUpdate → Option StateUpdate → Option StateUpdate
or_else none o = o
or_else (some u) o = some u

abbrev update_of : ServiceStateUpdate → StateUpdate
update_of u = record { state = u.state; transition = u.transition }

-- What one service's entry is after each update, if it is this before them.
abbrev pub history :
    String → Option StateUpdate → List ServiceStateUpdate → List (Option StateUpdate)
history k o [] = []
history k o (u ∷ us) =
    let o' = if str_eq u.name k then some (update_of u) else o in o' ∷ history k o' us

abbrev pub at_start : String → List String → Option StateUpdate → Option StateUpdate
at_start k [] o = o
at_start k (name ∷ names) o = at_start k names (if str_eq name k then some unknown_entering else o)

lookup-copy_states :
    (k : String) (s c : ServiceStates)
    → IsMap s
    → lookup k (copy_states s c) ≡ or_else (lookup k s) (lookup k c)
unfolding copy_states lookup
lookup-copy_states k [] c v = refl
lookup-copy_states k ((j, u) ∷ s) c v =
    ground
      (arith, v.0, eq_iff j k, lookup-copy_states k s (insert j u c) v.1, lookup-insert j k u c)

lookup-initial_states :
    (k : String) (names : List String) (s : ServiceStates)
    → lookup k (initial_states names s) ≡ at_start k names (lookup k s)
unfolding initial_states
lookup-initial_states k [] s = refl
lookup-initial_states k (name ∷ names) s =
    lookup-initial_states k names (insert name unknown_entering s)
    ∙ ap (at_start k names) (lookup-insert name k unknown_entering s)

initial_states-IsMap :
    (names : List String) (s : ServiceStates) → IsMap s → IsMap (initial_states names s)
unfolding initial_states
initial_states-IsMap [] s v = v
initial_states-IsMap (name ∷ names) s v =
    initial_states-IsMap names (insert name unknown_entering s)
      (insert-IsMap name unknown_entering s v)

or_else-none : (o : Option StateUpdate) → or_else o none ≡ o
or_else-none none = refl
or_else-none (some u) = refl

map-watch_updates :
    (k : String) (s : ServiceStates) (us : List ServiceStateUpdate)
    → IsMap s
    → map (lookup k) (watch_updates s us) ≡ history k (lookup k s) us
unfolding watch_updates lookup
map-watch_updates k s [] v = refl
map-watch_updates k s (u ∷ us) v =
    let s' = insert u.name (update_of u) s in
    let v' = insert-IsMap u.name (update_of u) s v in
    let e : lookup k (copy_states s' []) ≡ lookup k s' =
      lookup-copy_states k s' [] v' ∙ or_else-none (lookup k s') in
    let rest = map-watch_updates k s' us v' in
    ap (λ o. o ∷ map (lookup k) (watch_updates s' us)) e
    ∙ ap (◌∷◌ (lookup k s')) rest
    ∙ ap (λ o. o ∷ history k o us) (lookup-insert u.name k (update_of u) s)

-- One map is published for each update, and it gives each service its most recent update, which
-- before the first one is entering the unknown state; other names are absent until they are updated.
pub map-states_watcher :
    (k : String) (names : List String) (us : List ServiceStateUpdate)
    → map (lookup k) (states_watcher names us) ≡ history k (at_start k names none) us
unfolding states_watcher
map-states_watcher k names us =
    map-watch_updates k (initial_states names []) us (initial_states-IsMap names [] tt)
    ∙ ap (λ o. history k o us)
        (lookup-initial_states k names [] ∙ ap (at_start k names) (unfold lookup in refl))
