-- ===== src/Programs/HelloWorld/Served.antt =====
-- The service under its managers: whether its server is there when a method needs it.
use rxd.Base.{
  Bool, not, last_or, if◌then◌else◌, ◌≡◌, ◌≢◌, ◌↔◌, inl, inr, refl, sym, subst, String, true, false,
  Option, List, [], ◌∷◌,
}
use rxd.Errors.{GoError}
use rxd.States.{State, exit, init, idle, run, stop}
use rxd.Manager.{Outcome, succeeds, panics, fails, Turn, done, fires, call_list}
use rxd.Manager.Protocol.{Follows, Chain}
use rxd.Manager.Continuous
use rxd.Manager.Continuous.{RunContinuousManager}
use rxd.Manager.Continuous.Order.{continuous_order, IsLive, Follows-IsLive}
use rxd.Manager.Custom.{custom_manage}
use rxd.Manager.Custom.Order.{plan_at, custom-Meets}
use rxd.Programs.HelloWorld.Methods.{
  Methods, Serves, single, custom, multi, rpc, single-Serves, custom-Serves, multi-Serves,
  rpc-Serves,
}
use rxd.Programs.HelloWorld.Multi.{ServingMulti}
use rxd.Manager.UntilSuccess.Steps.{is_stop}
use rxd.Programs.HelloWorld.Multi.{left_rpc}
use rxd.Programs.HelloWorld.{
  left_custom, on_their_server, crashes, goes_quietly, HelloWorld, new_hello_world_service, ends,
  hangs, Serving, breaks, cancelled, times_out, run_single, run_custom,
}

-- The server is there between Init and Stop.
abbrev pub Expected : State → HelloWorld → Type 0
Expected stop s = s.has_server ≡ false
Expected _ s = s.has_server ≡ true

Expected-server :
    (prev : State) (s : HelloWorld)
    → IsLive prev
    → Expected prev s
    → s.has_server ≡ not (is_stop prev)
Expected-server init s live h = h
Expected-server idle s live h = h
Expected-server run s live h = h
Expected-server stop s live h = h
Expected-server _ s live h = absurd live

module _ {E : Type 0} (method : Methods E) where
  -- A call of Init that succeeds, or one of Run that does not panic.
  abbrev pub IsServed : State → E → HelloWorld → Type 0
  IsServed init e s = (method init e s).finish ≡ ends succeeds
  IsServed run e s = (v : String) → (method run e s).finish ≢ ends (panics v)
  IsServed _ e s = Unit {0}

  -- The same of each call in a list; `events` gives the events of each.
  abbrev pub AreServed : (List State → E) → HelloWorld → List State → Type 0
  AreServed events s [] = Unit {0}
  AreServed events s (m ∷ ms) =
      IsServed m (events ms) s × AreServed events (method m (events ms) s).service ms

  -- The service after these calls.
  abbrev pub after_calls : (List State → E) → HelloWorld → List State → HelloWorld
  after_calls events s [] = s
  after_calls events s (m ∷ ms) = after_calls events (method m (events ms) s).service ms

  -- The calls of a run on the new service: each is served, and afterwards the service has a server
  -- exactly if the last call is not Stop.
  pub record Sound (events : List State → E) (ms : List State) : Type 0 where
    pub served : AreServed events new_hello_world_service ms
    pub server :
        (after_calls events new_hello_world_service ms).has_server ≡ not (is_stop (last_or stop ms))

  abbrev Steps : State → E → HelloWorld → Type 0
  Steps m e s = IsServed m e s × Expected m (method m e s).service

  module _ (sound : Serves method) where
    steps :
        (prev m : State) (e : E) (s : HelloWorld)
        → IsLive prev
        → Expected prev s
        → Follows prev m
        → Steps m e s
    steps init m e s live h (inl q) = subst (λ n. Steps n e s) (sym q) (tt, sound.idles e s h)
    steps init m e s live h (inr q) = subst (λ n. Steps n e s) (sym q) (tt, sound.drops e s)
    steps idle m e s live h (inl q) = subst (λ n. Steps n e s) (sym q) (sound.serves e s h)
    steps idle m e s live h (inr q) = subst (λ n. Steps n e s) (sym q) (tt, sound.drops e s)
    steps run m e s live h q = subst (λ n. Steps n e s) (sym q) (tt, sound.drops e s)
    steps stop m e s live h q = subst (λ n. Steps n e s) (sym q) (sound.makes e s h)
    steps _ m e s live h q = absurd live

    Chain-AreServed :
        (events : List State → E) (s : HelloWorld) (prev : State) (ms : List State)
        → IsLive prev
        → Expected prev s
        → Chain prev ms
        → AreServed events s ms
    Chain-AreServed events s prev [] live h c = tt
    Chain-AreServed events s prev (m ∷ ms) live h c =
        let (served, next) = steps prev m (events ms) s live h c.0 in
        (
          served,
          Chain-AreServed events (method m (events ms) s).service m ms (Follows-IsLive prev m c.0)
              next c.1,
        )

    -- The server is there after the calls exactly if the last of them is not Stop.
    Chain-server :
        (events : List State → E) (s : HelloWorld) (prev : State) (ms : List State)
        → IsLive prev
        → Expected prev s
        → Chain prev ms
        → (after_calls events s ms).has_server ≡ not (is_stop (last_or prev ms))
    Chain-server events s prev [] live h c = Expected-server prev s live h
    Chain-server events s prev (m ∷ ms) live h c =
        let (served, next) = steps prev m (events ms) s live h c.0 in
        Chain-server events (method m (events ms) s).service m ms (Follows-IsLive prev m c.0) next
          c.1

    Chain-Sound : (events : List State → E) (ms : List State) → Chain stop ms → Sound events ms
    Chain-Sound events ms c = record {
      served = Chain-AreServed events new_hello_world_service stop ms tt refl c;
      server = Chain-server events new_hello_world_service stop ms tt refl c;
    }

    -- Every run of RunContinuousManager.
    continuous-Sound :
        (m : RunContinuousManager) (name : String) (ts : List Turn) (o : Outcome)
        (events : List State → E)
        → Sound events (call_list (Continuous.manage m name ts o).effects)
    continuous-Sound m name ts o events = elim ((continuous_order m name ts o).0) [
      | inl e ↦
          subst (Sound events) (sym e)
            (record { served = (tt, tt); server = sound.drops (events []) new_hello_world_service })
      | inr c ↦ Chain-Sound events _ c
    ]

-- A state that the doc comment of the custom manager leads to: Exit, or one that may follow.
abbrev Leads : State → State → Type 0
Leads prev exit = Unit {0}
Leads prev s = IsLive s × Follows prev s

plan-Chain : (prev s : State) (ts : List Turn) → Leads prev s → Chain prev (plan_at s ts).methods
plan-Chain prev exit ts f = tt
plan-Chain prev init [] f = tt
plan-Chain prev init (done ∷ ts) f = tt
plan-Chain prev init (fires (panics v) ∷ ts) f = (f.1, tt)
plan-Chain prev init (fires succeeds ∷ ts) f = (f.1, plan-Chain init idle ts (tt, inl refl))
plan-Chain prev init (fires (fails e) ∷ ts) f = (f.1, plan-Chain init exit ts tt)
plan-Chain prev idle [] f = tt
plan-Chain prev idle (done ∷ ts) f = tt
plan-Chain prev idle (fires (panics v) ∷ ts) f = (f.1, tt)
plan-Chain prev idle (fires succeeds ∷ ts) f = (f.1, plan-Chain idle run ts (tt, inl refl))
plan-Chain prev idle (fires (fails e) ∷ ts) f = (f.1, plan-Chain idle stop ts (tt, inr refl))
plan-Chain prev run [] f = tt
plan-Chain prev run (done ∷ ts) f = tt
plan-Chain prev run (fires (panics v) ∷ ts) f = (f.1, tt)
plan-Chain prev run (fires succeeds ∷ ts) f = (f.1, plan-Chain run stop ts (tt, refl))
plan-Chain prev run (fires (fails e) ∷ ts) f = (f.1, plan-Chain run stop ts (tt, refl))
plan-Chain prev stop [] f = tt
plan-Chain prev stop (done ∷ ts) f = tt
plan-Chain prev stop (fires (panics v) ∷ ts) f = (f.1, tt)
plan-Chain prev stop (fires succeeds ∷ ts) f = (f.1, plan-Chain stop init ts (tt, refl))
plan-Chain prev stop (fires (fails e) ∷ ts) f = (f.1, plan-Chain stop exit ts tt)
plan-Chain prev _ ts f = absurd f.0

-- What a goroutine that a Run has left behind does in that state.
theirs :
    (s : HelloWorld) (c : Bool)
    → s.has_server ≡ not c
    → on_their_server s ≡ (if c then crashes else goes_quietly)
theirs s true h = rw h refl
theirs s false h = rw h refl

-- In every run of the service under RunContinuousManager, in each of its three programs, and of its
-- variant under the custom manager, whatever the server does, Init succeeds each time that it is
-- called, and Run never panics for want of a server: the service has one after these calls exactly
-- if the last of them is not Stop. But in the programs with the custom manager and with RPC, a
-- goroutine that a failed Run has left behind crashes the program if it wakes up when the last call
-- was Stop, and at no other time.
pub hello_world_served :
    (m : RunContinuousManager) (name : String) (ts : List Turn) (o : Outcome)
    (events : List State → Serving) (events_multi : List State → ServingMulti)
    → let ms = call_list (Continuous.manage m name ts o).effects in
      let ns = call_list (custom_manage name ts).effects in
      Sound single events ms
      × Sound multi events_multi ms
      × Sound rpc events_multi ms
      × Sound custom events ns
      × (left_rpc (after_calls rpc events_multi new_hello_world_service ms)
          ≡ (if is_stop (last_or stop ms) then crashes else goes_quietly))
      × (left_custom (after_calls custom events new_hello_world_service ns)
          ≡ (if is_stop (last_or stop ns) then crashes else goes_quietly))
unfolding left_rpc left_custom
hello_world_served m name ts o events events_multi =
    let on_rpc = continuous-Sound rpc rpc-Serves m name ts o events_multi in
    let on_custom =
      subst (Sound custom events) (sym (custom-Meets name ts).0)
        (Chain-Sound custom custom-Serves events _ (plan-Chain stop init ts (tt, refl))) in
    (
      continuous-Sound single single-Serves m name ts o events,
      continuous-Sound multi multi-Serves m name ts o events_multi,
      on_rpc,
      on_custom,
      theirs _ _ on_rpc.server,
      theirs _ _ on_custom.server,
    )

-- Once the server runs, Run of single_service hangs exactly if its goroutine receives the
-- cancellation before its own timer, and that of the other variant always returns.
run_single-hangs :
    (s : HelloWorld) (serving : Serving)
    → s.has_server ≡ true
    → (((run_single s serving).finish ≡ hangs)
        ↔ ((shut : Option GoError) × (serving ≡ cancelled shut)))
      × ((run_custom s serving).finish ≢ hangs)
unfolding run_single run_custom
run_single-hangs s (breaks e) h = rw h (((λ q. cc), λ r. let x = r.1 in cc), λ q. cc)
run_single-hangs s (cancelled shut) h = rw h (((λ q. (shut, refl)), λ r. refl), λ q. cc)
run_single-hangs s (times_out shut) h = rw h (((λ q. cc), λ r. let x = r.1 in cc), λ q. cc)
