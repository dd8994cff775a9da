-- ===== src/Manager/Continuous/Ending.antt =====
-- When RunContinuousManager.Manage returns.
use rxd.Base.{◌≡◌, ◌≢◌, refl, Bool, true, false, String, List, [], ◌∷◌}
use rxd.States.{State, init}
use rxd.Manager.{
  Outcome, succeeds, panics, fails, Turn, done, fires, Effect, returned, panicked, waiting, Trace,
  after, enters, Switch, moves, crashes,
}
use rxd.Manager.Continuous.{RunContinuousManager, run_state, proceed, finish, loop, manage}
use rxd.Manager.Continuous.Order.{IsLive, IsLive-ne-exit, Follows-IsLive, run_state-Passed, Passed}

abbrev pub has_done : List Turn → Bool
has_done [] = false
has_done (done ∷ ts) = true
has_done (fires r ∷ ts) = has_done ts

-- Where the turns hold a cancellation, the run is over; without one it cannot return.
abbrev Ends : Bool → Trace → Type 0
Ends true t = t.status ≢ waiting
Ends false t = t.status ≢ returned

finish-ne-waiting :
    (name : String) (stopped : Bool) (o : Outcome) → (finish name stopped o).status ≢ waiting
unfolding finish
finish-ne-waiting name true o e = cc
finish-ne-waiting name false (panics v) e = cc
finish-ne-waiting name false succeeds e = cc
finish-ne-waiting name false (fails x) e = cc

crash-Ends :
    (b : Bool) (v : String) (es : List Effect)
    → Ends b (record { effects = es; status = panicked v })
crash-Ends true v es = λ e. cc
crash-Ends false v es = λ e. cc

proceed-Ends :
    (b : Bool) (m : RunContinuousManager) (s : State) (again : State → Bool → Trace) (w : Switch)
    → Passed s w
    → ((next : State) (stopped : Bool) → IsLive next → Ends b (again next stopped))
    → (es : List Effect) → Ends b (after es (proceed m again w))
unfolding proceed
proceed-Ends true m s again (moves next stopped es) p ih =
    λ fs. ih next stopped (Follows-IsLive s next p.2)
proceed-Ends false m s again (moves next stopped es) p ih =
    λ fs. ih next stopped (Follows-IsLive s next p.2)
proceed-Ends b m s again (crashes v es) p ih = λ fs. crash-Ends b v _

loop-Ends :
    (m : RunContinuousManager) (name : String) (s : State) (stopped : Bool) (ts : List Turn)
    (o : Outcome)
    → IsLive s
    → Ends (has_done ts) (loop m name s stopped ts o)
unfolding loop
loop-Ends m name s stopped [] o live = rw (IsLive-ne-exit s live) (λ e. cc)
loop-Ends m name s stopped (done ∷ ts) o live =
    rw (IsLive-ne-exit s live) (finish-ne-waiting name stopped o)
loop-Ends m name s stopped (fires r ∷ ts) o live = rw (IsLive-ne-exit s live) (
    proceed-Ends (has_done ts) m s _ (run_state name s r) (run_state-Passed name s r live)
      (λ next stopped'. loop-Ends m name next stopped' ts o) (enters name s ∷ []))

-- A cancellation always ends the run: once `select` takes the context's end, Manage returns (or a
-- method of the runner panicked); and it returns for no other reason.
pub continuous_ends :
    (m : RunContinuousManager) (name : String) (ts : List Turn) (o : Outcome)
    → ((has_done ts ≡ true → (manage m name ts o).status ≢ waiting)
        × ((manage m name ts o).status ≡ returned → has_done ts ≡ true))
unfolding manage
continuous_ends m name ts o = split (has_done ts) (loop-Ends m name init false ts o tt)
  where
    split :
        (b : Bool)
        → Ends b (loop m name init false ts o)
        → ((b ≡ true → (loop m name init false ts o).status ≢ waiting)
            × ((loop m name init false ts o).status ≡ returned → b ≡ true))
    split true h = (λ _. h, λ _. refl)
    split false h = (λ e. cc, λ e. absurd (h e))
