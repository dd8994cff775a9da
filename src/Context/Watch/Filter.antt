-- ===== src/Context/Watch/Filter.antt =====
-- service_filter.go, and the filter of WatchAllStates.
use rxd.Base.{
  ◌≡◌, ◌<◌, refl, ◌∙◌, Bool, true, false, ◌||◌, ◌&&◌, not, String, List, [], ◌∷◌, lookup, insert,
  length, if◌then◌else◌, ◌==◌, Option, is_some, IsMap, eq_iff, arith, lookup-insert, inl, inr,
  Bool-cases, Dict,
}
use rxd.States.{ServiceStates}
use rxd.Context.Watch.Selection.{mem}

-- `other` stands for the uint8 values past Exclude.
pub data FilterMode : Type 0 where
  none include exclude other : FilterMode

-- The set of names is a map to the empty struct.
pub record ServiceFilter : Type 0 where
  pub mode : FilterMode
  pub names : Dict (Unit {0})

add_names : List String → Dict (Unit {0}) → Dict (Unit {0})
add_names [] set = set
add_names (n ∷ ns) set = add_names ns (insert n tt set)

unfoldable pub new_service_filter : FilterMode → List String → ServiceFilter
unfolding add_names
new_service_filter mode names = record { mode = mode; names = add_names names [] }

unfoldable pub no_filter : ServiceFilter
no_filter = record { mode = FilterMode.none; names = [] }

abbrev is_none : FilterMode → Bool
is_none FilterMode.none = true
is_none _ = false

-- `len(filter.Names) == 0 || filter.Mode == None`
unfoldable pub is_unfiltered : ServiceFilter → Bool
is_unfiltered f = length f.names == 0 || is_none f.mode

-- The test of the `switch filter.Mode` for one name.
unfoldable pub keeps : FilterMode → Bool → Bool
keeps FilterMode.include listed = listed
keeps FilterMode.exclude true = false
keeps FilterMode.exclude false = true
keeps _ listed = false

-- `for name, state := range states`
unfoldable pub filter_states : ServiceFilter → ServiceStates → ServiceStates → ServiceStates
filter_states f [] kept = kept
filter_states f ((name, u) ∷ states) kept =
    filter_states f states
      (if keeps f.mode (is_some (lookup name f.names)) then insert name u kept else kept)

-- The map that WatchAllStates sends on for a map that it receives.
unfoldable pub filtered : ServiceFilter → ServiceStates → ServiceStates
filtered f states = if is_unfiltered f then states else filter_states f states []

listed_add :
    (n : String) (names : List String) (set : Dict (Unit {0}))
    → is_some (lookup n (add_names names set)) ≡ (mem n names || is_some (lookup n set))
unfolding add_names
listed_add n [] set = refl
listed_add n (m ∷ names) set =
    listed_add n names (insert m tt set) ∙ ground (arith, lookup-insert m n tt set, eq_iff m n)

-- The set of a new filter holds the names given.
pub listed_lem :
    (n : String) (mode : FilterMode) (names : List String)
    → is_some (lookup n (new_service_filter mode names).names) ≡ mem n names
unfolding new_service_filter lookup
listed_lem n mode names = ground (arith, listed_add n names [])

insert-nonempty : (k : String) (set : Dict (Unit {0})) → 0 < length (insert k tt set)
unfolding insert
insert-nonempty k [] = omega arith
insert-nonempty k ((j, w) ∷ set) = ground arith

add_names-nonempty :
    (names : List String) (set : Dict (Unit {0}))
    → 0 < length set
    → 0 < length (add_names names set)
unfolding add_names
add_names-nonempty [] set h = h
add_names-nonempty (m ∷ names) set h =
    add_names-nonempty names (insert m tt set) (insert-nonempty m set)

lookup-filter_states :
    (f : ServiceFilter) (n : String) (states kept : ServiceStates)
    → IsMap states
    → lookup n (filter_states f states kept) ≡ (
        if is_some (lookup n states) && keeps f.mode (is_some (lookup n f.names))
        then lookup n states
        else lookup n kept)
unfolding filter_states lookup
lookup-filter_states f n [] kept h = refl
lookup-filter_states f n ((k, u) ∷ states) kept h =
    elim (Bool-cases (keeps f.mode (is_some (lookup k f.names)))) [
      | inl y ↦ rw y (
          ground (
            arith,
            y,
            lookup-filter_states f n states (insert k u kept) h.1,
            lookup-insert k n u kept,
            eq_iff k n,
          ))
      | inr y ↦ rw y (ground (arith, y, lookup-filter_states f n states kept h.1, eq_iff k n))
    ]

lookup-filtered_if :
    (f : ServiceFilter) (states : ServiceStates) (n : String)
    → IsMap states
    → lookup n (filtered f states) ≡ (
        if is_unfiltered f
        then lookup n states
        else if is_some (lookup n states) && keeps f.mode (is_some (lookup n f.names))
        then lookup n states
        else Option.none)
unfolding filtered lookup
lookup-filtered_if f states n h = elim (Bool-cases (is_unfiltered f)) [
  | inl y ↦ rw y
  | inr y ↦ rw y (lookup-filter_states f n states [] h)
]

abbrev is_empty : List String → Bool
is_empty [] = true
is_empty (n ∷ ns) = false

is_unfiltered_new :
    (mode : FilterMode) (names : List String)
    → is_unfiltered (new_service_filter mode names) ≡ (is_none mode || is_empty names)
unfolding is_unfiltered new_service_filter add_names
is_unfiltered_new mode [] = ground arith
is_unfiltered_new mode (m ∷ names) =
    ground (arith, add_names-nonempty names (insert m tt []) (insert-nonempty m []))

-- Whether a service's state is sent on, by the words of the documentation, but for Include with no
-- name, which lets everything through.
abbrev pub selects : FilterMode → List String → String → Bool
selects FilterMode.none names n = true
selects FilterMode.include [] n = true
selects FilterMode.include names n = mem n names
selects FilterMode.exclude names n = not (mem n names)
selects FilterMode.other [] n = true
selects FilterMode.other names n = false

-- For a map that holds each name once and a filter of any mode and names, WatchAllStates sends on
-- exactly the states of the services
-- that the filter selects: all of them without a filter or with no name listed, those listed under
-- Include, those not listed under Exclude.
pub lookup-filtered :
    (mode : FilterMode) (names : List String) (states : ServiceStates) (n : String)
    → IsMap states
    → lookup n (filtered (new_service_filter mode names) states)
      ≡ (if selects mode names n then lookup n states else Option.none)
unfolding new_service_filter keeps
lookup-filtered mode names states n h =
    lookup-filtered_if (new_service_filter mode names) states n h
    ∙ rw (listed_lem n mode names, is_unfiltered_new mode names) (cases mode names)
  where
    cases :
        (mode : FilterMode) (names : List String)
        → (if is_none mode || is_empty names
            then lookup n states
            else if is_some (lookup n states) && keeps mode (mem n names)
            then lookup n states
            else Option.none)
          ≡ (if selects mode names n then lookup n states else Option.none)
    cases FilterMode.none names = refl
    cases FilterMode.include [] = refl
    cases FilterMode.include (m ∷ names) = ground arith
    cases FilterMode.exclude [] = refl
    cases FilterMode.exclude (m ∷ names) = ground arith
    cases FilterMode.other [] = refl
    cases FilterMode.other (m ∷ names) = ground arith
