-- ===== src/Manager/UntilSuccess/Ending.antt =====
-- When RunUntilSuccessManager.Manage returns.
use rxd.Base.{
  ℕ, subst, ◌≡◌, ◌≢◌, refl, Bool, true, false, String, List, [], ◌∷◌, ◌++◌, inl, inr, ap, ◌∙◌, sym,
  arith, append_assoc,
}
use rxd.States.{State, exit, init, idle, run, stop}
use rxd.Manager.{
  Outcome, succeeds, panics, fails, Turn, done, fires, Effect, calls, arms, returned, waiting,
  Trace, after, enters, exits, report, Switch, moves, crashes,
}
use rxd.Manager.UntilSuccess.{
  RunUntilSuccessManager, run_state, recovers, proceed, finish, loop, start, manage, set_ticker,
  reset_text, new_ticker_text,
}
use rxd.Manager.Continuous.Ending.{has_done}
use rxd.Manager.UntilSuccess.Steps.{
  IsLive, IsLive-ne-exit, Passed, run_state-Passed, loop_exit, Next-cases, set_ticker-cases,
}

-- How a run may end without a panic: on a cancellation, or after a Run that returned nil and one Stop.
pub data EndsWell (name : String) (o : Outcome) (ts : List Turn) (t : Trace) : Type 0 where
  cancelled : has_done ts ≡ true → EndsWell name o ts t
  succeeded :
      (es : List Effect)
      → t.effects ≡ es ++ (calls run ∷ exits name run ∷ (finish name false o).effects)
      → EndsWell name o ts t

-- The effects of a pass that leads to Exit.
run_state-exit :
    (name : String) (s : State) (r : Outcome) (stopped : Bool) (es : List Effect)
    → IsLive s
    → run_state name s r ≡ moves exit stopped es
    → (stopped ≡ false) × (es ≡ calls run ∷ exits name run ∷ [])
unfolding run_state
run_state-exit name init r stopped es l h = ground arith
run_state-exit name idle r stopped es l h = ground arith
run_state-exit name run r stopped es l h = ground arith
run_state-exit name stop r stopped es l h = ground arith
run_state-exit name _ r stopped es l h = absurd l

EndsWell-after :
    (name : String) (o : Outcome) (r : Outcome) (ts : List Turn) (es : List Effect) (t : Trace)
    → EndsWell name o ts t
    → EndsWell name o (fires r ∷ ts) (after es t)
EndsWell-after name o r ts es t (cancelled h) = cancelled h
EndsWell-after name o r ts es t (succeeded fs h) =
    succeeded (es ++ fs) (ap (◌++◌ es) h ∙ sym (append_assoc es fs _))

finish-ne-waiting :
    (name : String) (stopped : Bool) (o : Outcome) → (finish name stopped o).status ≢ waiting
unfolding finish recovers
finish-ne-waiting name true o e = cc
finish-ne-waiting name false succeeds e = cc
finish-ne-waiting name false (panics v) e = cc
finish-ne-waiting name false (fails x) e = cc

recovers-status :
    (v : String) (es : List Effect)
    → ((recovers v es).status ≢ returned) × ((recovers v es).status ≢ waiting)
unfolding recovers
recovers-status v es = (λ e. cc, λ e. cc)

-- What the loop keeps on every turn.
record Ends (name : String) (o : Outcome) (ts : List Turn) (t : Trace) : Type 0 where
  well : t.status ≡ returned → EndsWell name o ts t
  over : has_done ts ≡ true → t.status ≢ waiting

exit-Ends :
    (name : String) (s : State) (r : Outcome) (ts : List Turn) (o : Outcome) (stopped : Bool)
    (es : List Effect)
    → (stopped ≡ false) × (es ≡ calls run ∷ exits name run ∷ [])
    → Ends name o (fires r ∷ ts) (after (enters name s ∷ []) (after es (finish name stopped o)))
exit-Ends name s r ts o stopped es (a, b) =
    rw (a, b)
      (record {
        well = λ q. succeeded (enters name s ∷ []) refl;
        over = λ _. finish-ne-waiting name false o;
      })

proceed-Ends :
    (name : String) (s : State) (r : Outcome) (ts : List Turn) (o : Outcome)
    (again : State → Bool → Trace) (w : Switch)
    → IsLive s
    → run_state name s r ≡ w
    → Passed s w
    → ((stopped : Bool) → again exit stopped ≡ finish name stopped o)
    → ((next : State) (stopped : Bool) → IsLive next → Ends name o ts (again next stopped))
    → Ends name o (fires r ∷ ts) (after (enters name s ∷ []) (proceed again w))
unfolding proceed
proceed-Ends name s r ts o again (moves next stopped es) l e p ex ih =
    elim (Next-cases s next p.2) [
      | inl (x, _) ↦
          rw (x, ex stopped)
            (exit-Ends name s r ts o stopped es
              (run_state-exit name s r stopped es l (e ∙ ap (λ n. moves n stopped es) x)))
      | inr (ln, _) ↦
          let t = ih next stopped ln in
          record {
            well = λ q.
                EndsWell-after name o r ts (enters name s ∷ es) (again next stopped) (t.well q);
            over = t.over;
          }
    ]
proceed-Ends name s r ts o again (crashes v es) l e p ex ih = record {
  well = λ q. absurd ((recovers-status v es).0 q);
  over = λ _. (recovers-status v es).1;
}

loop-Ends :
    (name : String) (s : State) (stopped : Bool) (ts : List Turn) (o : Outcome)
    → IsLive s
    → Ends name o ts (loop name s stopped ts o)
unfolding loop
loop-Ends name s stopped [] o l =
    rw (IsLive-ne-exit s l) (record { well = λ q. cc; over = λ q. cc })
loop-Ends name s stopped (done ∷ ts) o l =
    rw (IsLive-ne-exit s l)
      (record { well = λ q. cancelled refl; over = λ q. finish-ne-waiting name stopped o })
loop-Ends name s stopped (fires r ∷ ts) o l = rw (IsLive-ne-exit s l) (
    proceed-Ends name s r ts o (λ next stopped'. loop name next stopped' ts o) (run_state name s r)
      l refl (run_state-Passed name s r l) (λ stopped'. loop_exit name stopped' ts o)
      (λ next stopped'. loop-Ends name next stopped' ts o))

-- Effects before a run, and the ticker's panic, change neither.
ticker-Ends :
    (name : String) (o : Outcome) (ts : List Turn) (d : ℕ) (text : String) (t : Trace)
    → Ends name o ts t
    → Ends name o ts (set_ticker d text t)
ticker-Ends name o ts d text t v = elim (set_ticker-cases d text t) [
  | inl (_, e) ↦ subst (Ends name o ts) (sym e) (record {
    well = λ q. absurd ((recovers-status text []).0 q);
    over = λ _. (recovers-status text []).1;
  })
  | inr e ↦ subst (Ends name o ts) (sym e) (record { well = λ q. lift (v.well q); over = v.over })
]
  where
    lift : EndsWell name o ts t → EndsWell name o ts (after (arms d ∷ []) t)
    lift (cancelled h) = cancelled h
    lift (succeeded es h) = succeeded (arms d ∷ es) (ap (◌∷◌ (arms d)) h)

first-Ends :
    (name : String) (o : Outcome) (r : Outcome) (ts : List Turn) (es : List Effect) (t : Trace)
    → Ends name o ts t
    → Ends name o (fires r ∷ ts) (after es t)
first-Ends name o r ts es t v = record {
  well = λ q. EndsWell-after name o r ts es t (v.well q);
  over = v.over;
}

start-Ends :
    (m : RunUntilSuccessManager) (name : String) (ts : List Turn) (o : Outcome)
    → Ends name o ts (start m name ts o)
unfolding start
start-Ends m name [] o = record { well = λ q. cc; over = λ q. cc }
start-Ends m name (done ∷ ts) o =
    rw (loop_exit name true ts o)
      (record { well = λ q. cancelled refl; over = λ q. finish-ne-waiting name true o })
start-Ends m name (fires (panics v) ∷ ts) o = record {
  well = λ q. absurd ((recovers-status v (enters name init ∷ calls init ∷ [])).0 q);
  over = λ _. (recovers-status v (enters name init ∷ calls init ∷ [])).1;
}
start-Ends m name (fires succeeds ∷ ts) o =
    first-Ends name o succeeds ts (enters name init ∷ calls init ∷ exits name init ∷ []) _
      (ticker-Ends name o ts m.default_delay reset_text _ (loop-Ends name idle true ts o tt))
start-Ends m name (fires (fails e) ∷ ts) o =
    first-Ends name o (fails e) ts
      (enters name init ∷ calls init ∷ report e ++ exits name init ∷ []) _
      (ticker-Ends name o ts m.default_delay reset_text _ (loop-Ends name stop true ts o tt))

-- A run in which Manage returns, and that without a recovered panic, has met a cancellation, or Run
-- returned nil: then its trace ends with that Run, one Stop and the entering of Exit. And once a
-- select takes the context's end, the run is over.
pub until_success_ends :
    (m : RunUntilSuccessManager) (name : String) (ts : List Turn) (o : Outcome)
    → let t = manage m name ts o in
      (t.status ≡ returned → EndsWell name o ts t) × (has_done ts ≡ true → t.status ≢ waiting)
unfolding manage
until_success_ends m name ts o =
    let t = ticker-Ends name o ts m.startup_delay new_ticker_text _ (start-Ends m name ts o) in
    (t.well, t.over)
