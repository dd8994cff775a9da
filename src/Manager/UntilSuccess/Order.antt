-- ===== src/Manager/UntilSuccess/Order.antt =====
-- The order of the lifecycle methods under RunUntilSuccessManager, and when Stop is left out.
use rxd.Base.{
  ℕ, ◌≡◌, ◌≢◌, refl, Bool, true, false, String, List, [], ◌∷◌, ◌++◌, ◌⊎◌, inl, inr, ap, ◌∙◌, sym,
  subst, append-nil, last_or,
}
use rxd.States.{State, init, idle, run, stop}
use rxd.Manager.{
  Outcome, succeeds, panics, fails, Turn, done, fires, Effect, calls, returned, Trace, after,
  enters, exits, report, Switch, moves, crashes, call_list, call_list-append, call_list-reported,
}
use rxd.Manager.UntilSuccess.{
  RunUntilSuccessManager, run_state, recovers, proceed, finish, loop, set_ticker, new_ticker_text,
  reset_text, start, manage,
}
use rxd.Manager.UntilSuccess.Steps.{
  Follows, Chain, IsLive, is_stop, Next, Passed, run_state-Passed, IsLive-ne-exit, finish_calls,
  Next-cases, loop_exit, set_ticker-cases,
}

-- The calls follow one another as they may, after `prev`; a run that returns ends with Stop.
pub record IsOrdered (prev : State) (t : Trace) : Type 0 where
  pub chain : Chain prev (call_list t.effects)
  pub cleaned : t.status ≡ returned → last_or prev (call_list t.effects) ≡ stop

finish-IsOrdered :
    (name : String) (prev : State) (o : Outcome)
    → IsLive prev
    → IsOrdered prev (finish name (is_stop prev) o)
finish-IsOrdered name init o h = record {
  chain = rw (finish_calls name false o) (inr refl, tt);
  cleaned = λ e. rw (finish_calls name false o);
}
finish-IsOrdered name idle o h = record {
  chain = rw (finish_calls name false o) (inr refl, tt);
  cleaned = λ e. rw (finish_calls name false o);
}
finish-IsOrdered name run o h = record {
  chain = rw (finish_calls name false o) (refl, tt);
  cleaned = λ e. rw (finish_calls name false o);
}
finish-IsOrdered name stop o h = record {
  chain = rw (finish_calls name true o) tt;
  cleaned = λ e. rw (finish_calls name true o);
}
finish-IsOrdered name _ o h = absurd h

recovers-calls : (v : String) (es : List Effect) → call_list (recovers v es).effects ≡ call_list es
unfolding recovers
recovers-calls v es = call_list-append es _ ∙ append-nil (call_list es)

recovers-status : (v : String) (es : List Effect) → (recovers v es).status ≢ returned
unfolding recovers
recovers-status v es e = cc

proceed-IsOrdered :
    (prev s : State) (again : State → Bool → Trace) (w : Switch)
    → Follows prev s
    → Passed s w
    → ((next : State) → Next s next → IsOrdered s (again next (is_stop s)))
    → IsOrdered prev (proceed again w)
unfolding proceed
proceed-IsOrdered prev s again (moves next stopped es) f (calls_s, e, g) ih =
    let calls_all =
      call_list-append es (again next (is_stop s)).effects
      ∙ ap (λ l. l ++ call_list (again next (is_stop s)).effects) calls_s in
    rw e (record {
      chain = rw calls_all (f, (ih next g).chain);
      cleaned = λ r. rw calls_all ((ih next g).cleaned r);
    })
proceed-IsOrdered prev s again (crashes v es) f calls_s ih = record {
  chain = rw (recovers-calls v es, calls_s) (f, tt);
  cleaned = λ e. absurd (recovers-status v es e);
}

pub loop-IsOrdered :
    (name : String) (prev s : State) (ts : List Turn) (o : Outcome)
    → IsLive prev
    → Next prev s
    → IsOrdered prev (loop name s (is_stop prev) ts o)
unfolding loop
loop-IsOrdered name prev s [] o live n = elim (Next-cases prev s n) [
  | inl (e, _) ↦ rw e (finish-IsOrdered name prev o live)
  | inr (l, f) ↦ rw (IsLive-ne-exit s l) (record { chain = tt; cleaned = λ e. cc })
]
loop-IsOrdered name prev s (done ∷ ts) o live n = elim (Next-cases prev s n) [
  | inl (e, _) ↦ rw e (finish-IsOrdered name prev o live)
  | inr (l, f) ↦
      let t = finish-IsOrdered name prev o live in
      rw (IsLive-ne-exit s l) (record { chain = t.chain; cleaned = t.cleaned })
]
loop-IsOrdered name prev s (fires r ∷ ts) o live n =
    let again = λ (next : State) (stopped : Bool). loop name next stopped ts o in
    let ih =
      λ (l : IsLive s) (next : State) (g : Next s next). loop-IsOrdered name s next ts o l g in
    elim (Next-cases prev s n) [
      | inl (e, _) ↦ rw e (finish-IsOrdered name prev o live)
      | inr (l, f) ↦
          let t =
            proceed-IsOrdered prev s again (run_state name s r) f (run_state-Passed name s r l)
              (ih l) in
          rw (IsLive-ne-exit s l) (record { chain = t.chain; cleaned = t.cleaned })
    ]

-- The loop as it is entered after the first Init: hasStopped is true although Stop never ran.
abbrev FirstLoop : Trace → Type 0
FirstLoop t =
    Chain init (call_list t.effects)
    × (t.status ≡ returned
        → (last_or init (call_list t.effects) ≡ stop) ⊎ (call_list t.effects ≡ []))

loop_fires :
    (name : String) (s : State) (r : Outcome) (ts : List Turn) (o : Outcome)
    → IsLive s
    → loop name s true (fires r ∷ ts) o ≡ loop name s false (fires r ∷ ts) o
unfolding loop
loop_fires name s r ts o l = rw (IsLive-ne-exit s l)

first_loop :
    (name : String) (s : State) (ts : List Turn) (o : Outcome)
    → IsLive s
    → Next init s
    → FirstLoop (loop name s true ts o)
unfolding loop
first_loop name s [] o l n = rw (IsLive-ne-exit s l) (tt, λ e. cc)
first_loop name s (done ∷ ts) o l n =
    rw (IsLive-ne-exit s l, finish_calls name true o) (tt, λ e. inr refl)
first_loop name s (fires r ∷ ts) o l n =
    let t = loop-IsOrdered name init s (fires r ∷ ts) o tt n in
    subst FirstLoop (sym (loop_fires name s r ts o l)) (t.chain, λ e. inl (t.cleaned e))

-- What the whole run calls.
abbrev Whole : Trace → Type 0
Whole t =
    Chain stop (call_list t.effects)
    × (t.status ≡ returned
        → (last_or stop (call_list t.effects) ≡ stop) ⊎ (call_list t.effects ≡ init ∷ []))

Whole-after :
    (es : List Effect) (t : Trace) → call_list es ≡ init ∷ [] → FirstLoop t → Whole (after es t)
Whole-after es t e h =
    let calls_all = call_list-append es t.effects ∙ ap (λ l. l ++ call_list t.effects) e in
    rw calls_all ((inl refl, h.0), λ r. split (h.1 r))
  where
    split :
        (last_or init (call_list t.effects) ≡ stop) ⊎ (call_list t.effects ≡ [])
        → (last_or init (call_list t.effects) ≡ stop) ⊎ (init ∷ call_list t.effects ≡ init ∷ [])
    split (inl p) = inl p
    split (inr p) = inr (ap (◌∷◌ init) p)

ticker-Whole : (d : ℕ) (text : String) (t : Trace) → Whole t → Whole (set_ticker d text t)
ticker-Whole d text t h = elim (set_ticker-cases d text t) [
  | inl (_, e) ↦
      subst Whole (sym e)
        (rw (recovers-calls text []) (tt, λ r. absurd (recovers-status text [] r)))
  | inr e ↦ subst Whole (sym e) h
]

ticker-FirstLoop :
    (d : ℕ) (text : String) (t : Trace) → FirstLoop t → FirstLoop (set_ticker d text t)
ticker-FirstLoop d text t h = elim (set_ticker-cases d text t) [
  | inl (_, e) ↦
      subst FirstLoop (sym e)
        (rw (recovers-calls text []) (tt, λ r. absurd (recovers-status text [] r)))
  | inr e ↦ subst FirstLoop (sym e) h
]

start-Whole :
    (m : RunUntilSuccessManager) (name : String) (ts : List Turn) (o : Outcome)
    → Whole (start m name ts o)
unfolding start
start-Whole m name [] o = (tt, λ e. cc)
start-Whole m name (done ∷ ts) o =
    rw (loop_exit name true ts o, finish_calls name true o) (tt, λ e. inl refl)
start-Whole m name (fires (panics v) ∷ ts) o =
    rw (recovers-calls v (enters name init ∷ calls init ∷ [])) ((inl refl, tt), λ e. inr refl)
start-Whole m name (fires succeeds ∷ ts) o =
    Whole-after (enters name init ∷ calls init ∷ exits name init ∷ [])
      (set_ticker m.default_delay reset_text (loop name idle true ts o)) refl
      (ticker-FirstLoop m.default_delay reset_text _ (first_loop name idle ts o tt (tt, inl refl)))
start-Whole m name (fires (fails e) ∷ ts) o =
    Whole-after (enters name init ∷ calls init ∷ report e ++ exits name init ∷ [])
      (set_ticker m.default_delay reset_text (loop name stop true ts o))
      (ap (◌∷◌ init) (call_list-reported e _))
      (ticker-FirstLoop m.default_delay reset_text _ (first_loop name stop ts o tt (tt, inr refl)))

-- In every run the methods are called in the order Init, Idle, Run, Stop, with skips to Stop and
-- with Stop repeated while it fails. When Manage returns without a recovered panic, the last
-- method called is Stop, or none was called, or Init alone was called.
pub until_success_order :
    (m : RunUntilSuccessManager) (name : String) (ts : List Turn) (o : Outcome)
    → let t = manage m name ts o in
      Chain stop (call_list t.effects)
      × (t.status ≡ returned
          → (last_or stop (call_list t.effects) ≡ stop) ⊎ (call_list t.effects ≡ init ∷ []))
unfolding manage
until_success_order m name ts o =
    ticker-Whole m.startup_delay new_ticker_text (start m name ts o) (start-Whole m name ts o)
