-- ===== src/Manager/Continuous/Order.antt =====
-- The order of the lifecycle methods under RunContinuousManager.
use rxd.Base.{
  ℕ, ◌≡◌, refl, Bool, true, false, String, List, [], ◌∷◌, ◌++◌, if◌then◌else◌, ◌⊎◌, inl, inr, ◌≢◌,
  ap, ◌∙◌, append-nil, arith, last_or,
}
use rxd.States.{State, same_state, exit, init, idle, run, stop}
use rxd.Manager.{
  Outcome, succeeds, panics, fails, Turn, done, fires, Effect, arms, returned, Trace, Switch, moves,
  crashes, call_list, call_list-append, call_list-reported,
}
use rxd.Manager.Protocol.{Follows, Chain}
use rxd.Manager.Continuous.{
  RunContinuousManager, next_delay, run_state, proceed, finish, loop, manage,
}

abbrev is_stop : State → Bool
is_stop stop = true
is_stop _ = false

-- The states that the loop reaches.
abbrev pub IsLive : State → Type 0
IsLive init = Unit {0}
IsLive idle = Unit {0}
IsLive run = Unit {0}
IsLive stop = Unit {0}
IsLive _ = ⊥

pub Follows-IsLive : (s t : State) → Follows s t → IsLive t
Follows-IsLive init t h = ground arith
Follows-IsLive idle t h = ground arith
Follows-IsLive run t h = ground arith
Follows-IsLive _ t h = ground arith

pub IsLive-ne-exit : (s : State) → IsLive s → same_state s exit ≡ false
IsLive-ne-exit init h = refl
IsLive-ne-exit idle h = refl
IsLive-ne-exit run h = refl
IsLive-ne-exit stop h = refl
IsLive-ne-exit _ h = absurd h

-- What a pass of the switch did.
abbrev pub Passed : State → Switch → Type 0
Passed s (moves next stopped es) = (call_list es ≡ s ∷ []) × (stopped ≡ is_stop s) × Follows s next
Passed s (crashes v es) = call_list es ≡ s ∷ []

pub run_state-Passed :
    (name : String) (s : State) (r : Outcome) → IsLive s → Passed s (run_state name s r)
unfolding run_state
run_state-Passed name init (panics v) h = refl
run_state-Passed name init succeeds h = (refl, refl, inl refl)
run_state-Passed name init (fails e) h = (ap (◌∷◌ init) (call_list-reported e _), refl, inr refl)
run_state-Passed name idle (panics v) h = refl
run_state-Passed name idle succeeds h = (refl, refl, inl refl)
run_state-Passed name idle (fails e) h = (ap (◌∷◌ idle) (call_list-reported e _), refl, inr refl)
run_state-Passed name run (panics v) h = refl
run_state-Passed name run succeeds h = (refl, refl, refl)
run_state-Passed name run (fails e) h = (ap (◌∷◌ run) (call_list-reported e _), refl, refl)
run_state-Passed name stop (panics v) h = refl
run_state-Passed name stop succeeds h = (refl, refl, refl)
run_state-Passed name stop (fails e) h = (ap (◌∷◌ stop) (call_list-reported e _), refl, refl)
run_state-Passed name _ r h = absurd h

finish_calls :
    (name : String) (stopped : Bool) (o : Outcome)
    → call_list (finish name stopped o).effects ≡ (if stopped then [] else stop ∷ [])
unfolding finish
finish_calls name true o = refl
finish_calls name false (panics v) = refl
finish_calls name false succeeds = refl
finish_calls name false (fails e) = ap (◌∷◌ stop) (call_list-reported e _)

-- The calls follow one another as they may, after `prev`; a run that returns ends with Stop.
pub record IsOrdered (prev : State) (t : Trace) : Type 0 where
  pub chain : Chain prev (call_list t.effects)
  pub cleaned : t.status ≡ returned → last_or prev (call_list t.effects) ≡ stop

finish-IsOrdered :
    (name : String) (prev : State) (o : Outcome)
    → IsLive prev
    → IsOrdered prev (finish name (is_stop prev) o)
finish-IsOrdered name init o h = record {
  chain = rw (finish_calls name false o) (inr refl, tt);
  cleaned = λ e. rw (finish_calls name false o);
}
finish-IsOrdered name idle o h = record {
  chain = rw (finish_calls name false o) (inr refl, tt);
  cleaned = λ e. rw (finish_calls name false o);
}
finish-IsOrdered name run o h = record {
  chain = rw (finish_calls name false o) (refl, tt);
  cleaned = λ e. rw (finish_calls name false o);
}
finish-IsOrdered name stop o h = record {
  chain = rw (finish_calls name true o) tt;
  cleaned = λ e. rw (finish_calls name true o);
}
finish-IsOrdered name _ o h = absurd h

call_list-armed :
    (es : List Effect) (d : ℕ) (fs : List Effect)
    → call_list ((es ++ arms d ∷ []) ++ fs) ≡ call_list es ++ call_list fs
call_list-armed es d fs =
    call_list-append (es ++ arms d ∷ []) fs
    ∙ ap (λ l. l ++ call_list fs) (call_list-append es (arms d ∷ []) ∙ append-nil (call_list es))

proceed-IsOrdered :
    (m : RunContinuousManager) (prev s : State) (again : State → Bool → Trace) (w : Switch)
    → Follows prev s
    → Passed s w
    → ((next : State) → Follows s next → IsOrdered s (again next (is_stop s)))
    → IsOrdered prev (proceed m again w)
unfolding proceed
proceed-IsOrdered m prev s again (moves next stopped es) f (calls_s, e, g) ih =
    let calls_all =
      call_list-armed es (next_delay m next) (again next (is_stop s)).effects
      ∙ ap (λ l. l ++ call_list (again next (is_stop s)).effects) calls_s in
    rw e (record {
      chain = rw calls_all (f, (ih next g).chain);
      cleaned = λ r. rw calls_all ((ih next g).cleaned r);
    })
proceed-IsOrdered m prev s again (crashes v es) f calls_s ih = record {
  chain = rw calls_s (f, tt);
  cleaned = λ e. cc;
}

loop-IsOrdered :
    (m : RunContinuousManager) (name : String) (prev s : State) (ts : List Turn) (o : Outcome)
    → IsLive prev
    → Follows prev s
    → IsOrdered prev (loop m name s (is_stop prev) ts o)
unfolding loop
loop-IsOrdered m name prev s [] o live f =
    rw (IsLive-ne-exit s (Follows-IsLive prev s f)) (record { chain = tt; cleaned = λ e. cc })
loop-IsOrdered m name prev s (done ∷ ts) o live f =
    rw (IsLive-ne-exit s (Follows-IsLive prev s f))
      (let t = finish-IsOrdered name prev o live in record { chain = t.chain; cleaned = t.cleaned })
loop-IsOrdered m name prev s (fires r ∷ ts) o live f =
    let live_s = Follows-IsLive prev s f in
    let t =
      proceed-IsOrdered m prev s (λ next stopped. loop m name next stopped ts o)
        (run_state name s r) f (run_state-Passed name s r live_s)
        (λ next g. loop-IsOrdered m name s next ts o live_s g) in
    rw (IsLive-ne-exit s live_s) (record { chain = t.chain; cleaned = t.cleaned })

proceed-calls :
    (m : RunContinuousManager) (s : State) (again : State → Bool → Trace) (w : Switch)
    → Passed s w
    → call_list (proceed m again w).effects ≢ []
unfolding proceed
proceed-calls m s again (moves next stopped es) (calls_s, _, _) h =
    let calls_all =
      call_list-armed es (next_delay m next) (again next stopped).effects
      ∙ ap (λ l. l ++ call_list (again next stopped).effects) calls_s in
    cc (calls_all)
proceed-calls m s again (crashes v es) calls_s h = cc (calls_s)

last_or_cons : (ss : List State) → ss ≢ [] → last_or stop ss ≡ stop → last_or init ss ≡ stop
last_or_cons [] c e = absurd (c refl)
last_or_cons (s ∷ ss) c e = e

-- In every run the runner's methods are called in the order Init, Idle, Run, Stop with the skips
-- to Stop that an error or a cancellation makes, or Stop alone if the context is cancelled before
-- Init; and whenever Manage returns, the last method called is Stop.
pub continuous_order :
    (m : RunContinuousManager) (name : String) (ts : List Turn) (o : Outcome)
    → let t = manage m name ts o in
      ((call_list t.effects ≡ stop ∷ []) ⊎ Chain stop (call_list t.effects))
      × (t.status ≡ returned → last_or init (call_list t.effects) ≡ stop)
unfolding manage loop
continuous_order m name [] o = (inr tt, λ e. cc)
continuous_order m name (done ∷ ts) o =
    (inl (finish_calls name false o), λ e. rw (finish_calls name false o))
continuous_order m name (fires r ∷ ts) o =
    let t = loop-IsOrdered m name stop init (fires r ∷ ts) o tt refl in
    let called = proceed-calls m init _ (run_state name init r) (run_state-Passed name init r tt) in
    (inr t.chain, λ e. last_or_cons _ called (t.cleaned e))
