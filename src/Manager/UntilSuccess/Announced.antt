-- ===== src/Manager/UntilSuccess/Announced.antt =====
-- What the states watcher hears of a service under RunUntilSuccessManager.
use rxd.Base.{
  ◌<◌, ◌≡◌, ◌≢◌, refl, Bool, true, false, String, List, [], ◌∷◌, ◌++◌, ◌⊎◌, inl, inr, ap, ◌∙◌, sym,
  subst, append_assoc,
}
use rxd.States.{State, exit, init, idle, run, stop}
use rxd.Manager.{
  Outcome, succeeds, panics, fails, Turn, done, fires, Effect, calls, arms, Trace, after, enters,
  exits, report, Switch, moves, crashes,
}
use rxd.Manager.UntilSuccess.{
  RunUntilSuccessManager, run_state, recovers, proceed, finish, loop, start, manage, set_ticker,
  reset_text, new_ticker_text,
}
use rxd.Manager.Protocol.{
  Phase, quiet, entered, inside, phase, phase-append, phase-report, announce, announce_call,
  phase-enters, phase_call, Told, Heard, Open, Told-after,
}
use rxd.Manager.UntilSuccess.Steps.{
  IsLive, IsLive-ne-exit, Passed, run_state-Passed, loop_exit, Next-IsLive, set_ticker-positive,
}

recovers-Told :
    (name : String) (p : Phase) (s : State) (v : String) (es : List Effect)
    → phase name p es ≡ inside s
    → let t = recovers v es in Told (phase name p t.effects) t.status
unfolding recovers
recovers-Told name p s v es h = (s, phase-append name p es _ ∙ h)

finish-Told :
    (name : String) (p : Phase) (stopped : Bool) (o : Outcome)
    → Open p
    → let t = finish name stopped o in Told (phase name p t.effects) t.status
unfolding finish
finish-Told name p true o op = announce name p exit op
finish-Told name p false (panics v) op =
    recovers-Told name p stop v _
      (phase-enters name p stop (calls stop ∷ []) op ∙ announce_call name stop)
finish-Told name p false succeeds op =
    phase-enters name p stop (calls stop ∷ exits name stop ∷ enters name exit ∷ []) op
    ∙ phase_call name stop [] (enters name exit ∷ []) refl
    ∙ announce name quiet exit (inl refl)
finish-Told name p false (fails x) op =
    phase-enters name p stop (calls stop ∷ (report x ++ (exits name stop ∷ enters name exit ∷ [])))
      op
    ∙ phase_call name stop (report x) (enters name exit ∷ []) (phase-report name stop x)
    ∙ announce name quiet exit (inl refl)

pub run_state-Heard :
    (name : String) (s : State) (r : Outcome) → IsLive s → Heard name s (run_state name s r)
unfolding run_state
run_state-Heard name init (panics v) h = announce_call name init
run_state-Heard name init succeeds h = phase_call name init [] [] refl
run_state-Heard name init (fails e) h =
    phase_call name init (report e) [] (phase-report name init e)
run_state-Heard name idle (panics v) h = announce_call name idle
run_state-Heard name idle succeeds h = phase_call name idle [] [] refl
run_state-Heard name idle (fails e) h =
    phase_call name idle (report e) [] (phase-report name idle e)
run_state-Heard name run (panics v) h = announce_call name run
run_state-Heard name run succeeds h = phase_call name run [] [] refl
run_state-Heard name run (fails e) h = phase_call name run (report e) [] (phase-report name run e)
run_state-Heard name stop (panics v) h = announce_call name stop
run_state-Heard name stop succeeds h = phase_call name stop [] [] refl
run_state-Heard name stop (fails e) h =
    phase_call name stop (report e) [] (phase-report name stop e)
run_state-Heard name _ r h = absurd h

proceed-Told :
    (name : String) (s : State) (again : State → Bool → Trace) (w : Switch)
    → Passed s w
    → Heard name s w
    → ((next : State) (stopped : Bool)
        → IsLive next ⊎ (next ≡ exit)
        → let t = again next stopped in Told (phase name quiet t.effects) t.status)
    → let t = proceed again w in Told (phase name (entered s) t.effects) t.status
unfolding proceed
proceed-Told name s again (moves next stopped es) p h ih =
    subst (λ q. Told q (again next stopped).status)
      (sym (
        phase-append name (entered s) es (again next stopped).effects
        ∙ ap (λ q. phase name q (again next stopped).effects) h))
      (ih next stopped (Next-IsLive s next p.2))
proceed-Told name s again (crashes v es) p h ih = recovers-Told name (entered s) s v es h

loop-Told :
    (name : String) (p : Phase) (s : State) (stopped : Bool) (ts : List Turn) (o : Outcome)
    → Open p
    → IsLive s ⊎ (s ≡ exit)
    → let t = loop name s stopped ts o in Told (phase name p t.effects) t.status
unfolding loop
loop-Told name p s stopped ts o op (inr e) =
    rw (e, loop_exit name stopped ts o) (finish-Told name p stopped o op)
loop-Told name p s stopped [] o op (inl l) = rw (IsLive-ne-exit s l) (s, announce name p s op)
loop-Told name p s stopped (done ∷ ts) o op (inl l) = rw (IsLive-ne-exit s l) (
    Told-after name p s (finish name stopped o) op
      (finish-Told name (entered s) stopped o (inr (s, refl))))
loop-Told name p s stopped (fires r ∷ ts) o op (inl l) = rw (IsLive-ne-exit s l) (
    Told-after name p s
      (proceed (λ next stopped'. loop name next stopped' ts o) (run_state name s r)) op
      (proceed-Told name s (λ next stopped'. loop name next stopped' ts o) (run_state name s r)
        (run_state-Passed name s r l) (run_state-Heard name s r l)
        (λ next stopped' n. loop-Told name quiet next stopped' ts o (inl refl) n)))

start-Told :
    (m : RunUntilSuccessManager) (name : String) (ts : List Turn) (o : Outcome)
    → 0 < m.default_delay
    → ts ≢ []
    → let t = start m name ts o in Told (phase name quiet t.effects) t.status
unfolding start
start-Told m name [] o d h = absurd (h refl)
start-Told m name (done ∷ ts) o d h = loop-Told name quiet exit true ts o (inl refl) (inr refl)
start-Told m name (fires (panics v) ∷ ts) o d h =
    recovers-Told name quiet init v (enters name init ∷ calls init ∷ [])
      (phase-enters name quiet init (calls init ∷ []) (inl refl) ∙ announce_call name init)
start-Told m name (fires succeeds ∷ ts) o d h =
    rw (set_ticker-positive m.default_delay reset_text (loop name idle true ts o) d) (
      subst (λ q. Told q (loop name idle true ts o).status)
        (sym (
          phase-enters name quiet init
            (calls init
              ∷ exits name init
              ∷ arms m.default_delay
              ∷ (loop name idle true ts o).effects)
            (inl refl)
          ∙ phase_call name init [] (arms m.default_delay ∷ (loop name idle true ts o).effects)
              refl))
        (loop-Told name quiet idle true ts o (inl refl) (inl tt)))
start-Told m name (fires (fails e) ∷ ts) o d h =
    rw (set_ticker-positive m.default_delay reset_text (loop name stop true ts o) d) (
      subst (λ q. Told q (loop name stop true ts o).status)
        (sym (
          ap (λ l. phase name quiet (enters name init ∷ calls init ∷ l))
            (append_assoc (report e) (exits name init ∷ [])
              (arms m.default_delay ∷ (loop name stop true ts o).effects))
          ∙ phase-enters name quiet init
              (calls init
                ∷ (report e
                    ++ (exits name init
                        ∷ arms m.default_delay
                        ∷ (loop name stop true ts o).effects)))
              (inl refl)
          ∙ phase_call name init (report e)
              (arms m.default_delay ∷ (loop name stop true ts o).effects)
              (phase-report name init e)))
        (loop-Told name quiet stop true ts o (inl refl) (inl tt)))

-- With two positive delays, once the startup delay has passed or the context has ended, every run
-- tells the watcher the truth: each method is called right after the update that enters its state,
-- an exited update of that state follows when it returns, every update bears the service's name,
-- and a run that returns ends with the service entering Exit. A recovered panic leaves the service
-- inside the method that panicked: no exited update and no entering of Exit follows.
pub until_success-Told :
    (m : RunUntilSuccessManager) (name : String) (ts : List Turn) (o : Outcome)
    → 0 < m.startup_delay
    → 0 < m.default_delay
    → ts ≢ []
    → let t = manage m name ts o in Told (phase name quiet t.effects) t.status
unfolding manage
until_success-Told m name ts o s d h =
    rw (set_ticker-positive m.startup_delay new_ticker_text (start m name ts o) s)
      (start-Told m name ts o d h)

-- A delay of 0 panics: as a startup delay before any update or call, as a default delay after the
-- first Init, in a service that the watcher believes to be between two states.
until_success_no_delay :
    (m : RunUntilSuccessManager) (name : String) (ts : List Turn) (o : Outcome)
    → (m.startup_delay ≡ 0 → manage m name ts o ≡ recovers new_ticker_text [])
      × (0 < m.startup_delay
          → m.default_delay ≡ 0
          → manage m name (fires succeeds ∷ ts) o
            ≡ after
                (arms m.startup_delay ∷ enters name init ∷ calls init ∷ exits name init ∷ [])
                (recovers reset_text []))
unfolding manage start set_ticker
until_success_no_delay m name ts o =
    ((λ z. rw z refl), (λ p z. set_ticker-positive m.startup_delay new_ticker_text _ p ∙ rw z refl))
