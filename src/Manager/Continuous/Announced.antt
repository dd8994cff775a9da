-- ===== src/Manager/Continuous/Announced.antt =====
-- What the states watcher hears of a service under RunContinuousManager.
use rxd.Base.{
  ◌≡◌, refl, Bool, true, false, String, List, [], ◌∷◌, ◌++◌, inl, inr, ap, ◌∙◌, sym, subst,
}
use rxd.States.{State, exit, init, idle, run, stop}
use rxd.Manager.{
  Outcome, succeeds, panics, fails, Turn, done, fires, calls, arms, Trace, enters, exits, report,
  Switch, moves, crashes,
}
use rxd.Manager.Continuous.{
  RunContinuousManager, next_delay, run_state, proceed, finish, loop, manage,
}
use rxd.Manager.Protocol.{
  Phase, quiet, entered, phase, phase-append, phase-report, announce, announce_call, phase-enters,
  phase_call, Told, Heard, Open, Told-after,
}
use rxd.Manager.Continuous.Order.{IsLive, IsLive-ne-exit, Follows-IsLive, run_state-Passed, Passed}

finish-Told :
    (name : String) (s : State) (stopped : Bool) (o : Outcome)
    → let t = finish name stopped o in Told (phase name (entered s) t.effects) t.status
unfolding finish
finish-Told name s true o = announce name (entered s) exit (inr (s, refl))
finish-Told name s false (panics v) = (
  stop,
  phase-enters name (entered s) stop (calls stop ∷ []) (inr (s, refl)) ∙ announce_call name stop,
)
finish-Told name s false succeeds =
    phase-enters name (entered s) stop (calls stop ∷ exits name stop ∷ enters name exit ∷ [])
      (inr (s, refl))
    ∙ phase_call name stop [] (enters name exit ∷ []) refl
    ∙ announce name quiet exit (inl refl)
finish-Told name s false (fails x) =
    phase-enters name (entered s) stop
      (calls stop ∷ (report x ++ (exits name stop ∷ enters name exit ∷ []))) (inr (s, refl))
    ∙ phase_call name stop (report x) (enters name exit ∷ []) (phase-report name stop x)
    ∙ announce name quiet exit (inl refl)

pub run_state-Heard :
    (name : String) (s : State) (r : Outcome) → IsLive s → Heard name s (run_state name s r)
unfolding run_state
run_state-Heard name init (panics v) h = announce_call name init
run_state-Heard name init succeeds h = phase_call name init [] [] refl
run_state-Heard name init (fails e) h =
    phase_call name init (report e) [] (phase-report name init e)
run_state-Heard name idle (panics v) h = announce_call name idle
run_state-Heard name idle succeeds h = phase_call name idle [] [] refl
run_state-Heard name idle (fails e) h =
    phase_call name idle (report e) [] (phase-report name idle e)
run_state-Heard name run (panics v) h = announce_call name run
run_state-Heard name run succeeds h = phase_call name run [] [] refl
run_state-Heard name run (fails e) h = phase_call name run (report e) [] (phase-report name run e)
run_state-Heard name stop (panics v) h = announce_call name stop
run_state-Heard name stop succeeds h = phase_call name stop [] [] refl
run_state-Heard name stop (fails e) h =
    phase_call name stop (report e) [] (phase-report name stop e)
run_state-Heard name _ r h = absurd h

proceed-Told :
    (m : RunContinuousManager) (name : String) (s : State) (again : State → Bool → Trace)
    (w : Switch)
    → Passed s w
    → Heard name s w
    → ((next : State) (stopped : Bool)
        → IsLive next
        → let t = again next stopped in Told (phase name quiet t.effects) t.status)
    → let t = proceed m again w in Told (phase name (entered s) t.effects) t.status
unfolding proceed
proceed-Told m name s again (moves next stopped es) p h ih =
    subst (λ q. Told q (again next stopped).status) (sym passed)
      (ih next stopped (Follows-IsLive s next p.2))
  where
    passed :
        phase name
          (entered s)
          ((es ++ arms (next_delay m next) ∷ []) ++ (again next stopped).effects)
        ≡ phase name quiet (again next stopped).effects
    passed =
        phase-append name (entered s) (es ++ arms (next_delay m next) ∷ [])
          (again next stopped).effects
        ∙ ap (λ q. phase name q (again next stopped).effects)
            (phase-append name (entered s) es (arms (next_delay m next) ∷ []) ∙ h)
proceed-Told m name s again (crashes v es) p h ih = (s, h)

loop-Told :
    (m : RunContinuousManager) (name : String) (p : Phase) (s : State) (stopped : Bool)
    (ts : List Turn) (o : Outcome)
    → Open p
    → IsLive s
    → let t = loop m name s stopped ts o in Told (phase name p t.effects) t.status
unfolding loop
loop-Told m name p s stopped [] o op live = rw (IsLive-ne-exit s live) (s, announce name p s op)
loop-Told m name p s stopped (done ∷ ts) o op live =
    rw (IsLive-ne-exit s live)
      (Told-after name p s (finish name stopped o) op (finish-Told name s stopped o))
loop-Told m name p s stopped (fires r ∷ ts) o op live = rw (IsLive-ne-exit s live) (
    Told-after name p s
      (proceed m (λ next stopped'. loop m name next stopped' ts o) (run_state name s r)) op
      (proceed-Told m name s (λ next stopped'. loop m name next stopped' ts o) (run_state name s r)
        (run_state-Passed name s r live) (run_state-Heard name s r live)
        (λ next stopped'. loop-Told m name quiet next stopped' ts o (inl refl))))

-- Every run tells the watcher the truth: each method is called right after the update that enters
-- its state, an exited update of that state follows when it returns, every update bears the
-- service's name, and a run that returns ends with the service entering Exit. A run that waits has
-- announced the state that it waits for, and one that panicked is inside a method.
pub continuous-Told :
    (m : RunContinuousManager) (name : String) (ts : List Turn) (o : Outcome)
    → let t = manage m name ts o in Told (phase name quiet t.effects) t.status
unfolding manage
continuous-Told m name ts o = loop-Told m name quiet init false ts o (inl refl) tt
