-- ===== src/Context/Watch/AllStates.antt =====
-- service_context.go: WatchAllStates.
use rxd.Base.{String, List, [], ◌∷◌, if◌then◌else◌, Option, none, some}
use rxd.States.{internal_all_states_consumer}
use rxd.Errors.{GoError}
use rxd.Context.Watch.{
  Turn, cancelled, closed, receives, Act, subscribes, unsubscribes, fails, signals, closes,
}
use rxd.Context.Watch.Filter.{ServiceFilter, filtered}

-- Both sends of the loop, filtered or not, stand in a `select` with the end of the context.
unfoldable pub states_loop : ServiceFilter → String → List Turn → List Act
states_loop f consumer [] = []
states_loop f consumer (cancelled ∷ ts) = unsubscribes consumer ∷ closes ∷ []
states_loop f consumer (closed ∷ ts) = unsubscribes consumer ∷ closes ∷ []
states_loop f consumer (receives states sent ∷ ts) =
    let rest = states_loop f consumer ts in
    if sent then signals (filtered f states) ∷ rest else unsubscribes consumer ∷ closes ∷ []

unfoldable pub watch_all_states : ServiceFilter → String → Option GoError → List Turn → List Act
watch_all_states f fqcn (some e) ts =
    subscribes (internal_all_states_consumer fqcn) ∷ fails e ∷ closes ∷ []
watch_all_states f fqcn none ts =
    let consumer = internal_all_states_consumer fqcn in
    subscribes consumer ∷ states_loop f consumer ts
