-- ===== src/Programs/StartupJob/Retries.antt =====
-- How often the job is run, and when its manager is over.
use rxd.Base.{
  ◌<◌, ℕ, ◌+◌, ◌*◌, ◌≤◌, ◌≡◌, refl, Bool, true, false, String, List, [], ◌∷◌, ltb, length, arith,
  Bool-cases, ◌∙◌, inl, inr,
}
use rxd.Errors.{is_cancelled}
use rxd.States.{State, exit, init, idle, run, stop}
use rxd.Manager.{succeeds, returned, report, Trace, call_list}
use rxd.Manager.UntilSuccess.{
  RunUntilSuccessManager, run_state, proceed, finish, loop, start, manage, reset_text,
  new_ticker_text,
}
use rxd.Manager.UntilSuccess.Steps.{IsLive, loop_exit, set_ticker-positive}
use rxd.Programs.StartupJob.{
  StartupJob, new_startup_job_service, Moment, gone, ticks, job_method, job_run, job_init, job_idle,
  job_stop, job_turns,
}

-- The calls of Run in a list.
abbrev pub job_runs : List State → ℕ
job_runs [] = 0
job_runs (run ∷ ms) = job_runs ms + 1
job_runs (m ∷ ms) = job_runs ms

-- Nothing is ever found done.
abbrev pub AreQuiet : List Moment → Type 0
AreQuiet [] = Unit {0}
AreQuiet (ticks false ∷ es) = AreQuiet es
AreQuiet (e ∷ es) = ⊥

-- The moments that a fresh job needs from a state on.
abbrev needs : State → ℕ
needs init = 15
needs idle = 14
needs run = 13
needs _ = 16

record Fares (need : ℕ) (es : List Moment) (attempts : ℕ) (t : Trace) : Type 0 where
  bounded : job_runs (call_list t.effects) + attempts ≤ 4
  over : need ≤ length es + 4 * attempts → t.status ≡ returned
  exact :
      AreQuiet es → need ≤ length es + 4 * attempts → job_runs (call_list t.effects) + attempts ≡ 4

finish-runs :
    (name : String) (stopped : Bool)
    → (job_runs (call_list (finish name stopped succeeds).effects) ≡ 0)
      × ((finish name stopped succeeds).status ≡ returned)
unfolding finish
finish-runs name true = (refl, refl)
finish-runs name false = (refl, refl)

still-Fares :
    (need a : ℕ) (t : Trace)
    → 13 ≤ need
    → a ≤ 3
    → job_runs (call_list t.effects) ≡ 0
    → Fares need [] a t
still-Fares need a t n h e = record {
  bounded = omega (arith, h, e);
  over = λ m. absurd (omega (arith, n, m, h));
  exact = λ q m. absurd (omega (arith, n, m, h));
}

gone-Fares :
    (need a : ℕ) (es : List Moment) (t : Trace)
    → a ≤ 3
    → (job_runs (call_list t.effects) ≡ 0) × (t.status ≡ returned)
    → Fares need (gone ∷ es) a t
gone-Fares need a es t h e = record {
  bounded = omega (arith, h, e.0);
  over = λ m. e.1;
  exact = λ q m. absurd q;
}

-- A turn that is no call of Run: the next state's need is less.
moved-Fares :
    (need need' a : ℕ) (c : Bool) (es : List Moment) (t t' : Trace)
    → need' + 1 ≤ need
    → job_runs (call_list t'.effects) ≡ job_runs (call_list t.effects)
    → t'.status ≡ t.status
    → Fares need' es a t
    → Fares need (ticks c ∷ es) a t'
moved-Fares need need' a true es t t' n e st f = record {
  bounded = omega (arith, e, f.bounded);
  over = λ m. st ∙ f.over (omega (arith, n, m));
  exact = λ q m. absurd q;
}
moved-Fares need need' a false es t t' n e st f = record {
  bounded = omega (arith, e, f.bounded);
  over = λ m. st ∙ f.over (omega (arith, n, m));
  exact = λ q m. let r = f.exact q (omega (arith, n, m)) in omega (arith, e, r);
}

-- A Run that fails, one that succeeds, and one that finds the context done.
failed-Fares :
    (a : ℕ) (es : List Moment) (t t' : Trace)
    → job_runs (call_list t'.effects) ≡ job_runs (call_list t.effects) + 1
    → t'.status ≡ t.status
    → Fares (needs stop) es (a + 1) t
    → Fares (needs run) (ticks false ∷ es) a t'
failed-Fares a es t t' e st f = record {
  bounded = omega (arith, e, f.bounded);
  over = λ m. st ∙ f.over (omega (arith, m));
  exact = λ q m. let r = f.exact q (omega (arith, m)) in omega (arith, e, r);
}

succeeded-Fares :
    (a : ℕ) (c : Bool) (es : List Moment) (t : Trace)
    → a ≤ 3
    → (c ≡ false → a ≡ 3)
    → job_runs (call_list t.effects) ≡ 1
    → t.status ≡ returned
    → Fares (needs run) (ticks c ∷ es) a t
succeeded-Fares a true es t h three e st = record {
  bounded = omega (arith, e, h);
  over = λ m. st;
  exact = λ q m. absurd q;
}
succeeded-Fares a false es t h three e st = record {
  bounded = omega (arith, e, h);
  over = λ m. st;
  exact = λ q m. let r = three refl in omega (arith, e, r);
}

loop-Fares :
    (name : String) (s : State) (stopped : Bool) (es : List Moment) (j : StartupJob)
    → IsLive s
    → j.attempts ≤ 3
    → Fares (needs s) es j.attempts (loop name s stopped (job_turns name es s j) succeeds)
unfolding loop job_turns proceed run_state job_method job_run job_init job_idle job_stop report
    is_cancelled
loop-Fares name init stopped [] j live h = still-Fares 15 j.attempts _ (omega arith) h refl
loop-Fares name idle stopped [] j live h = still-Fares 14 j.attempts _ (omega arith) h refl
loop-Fares name run stopped [] j live h = still-Fares 13 j.attempts _ (omega arith) h refl
loop-Fares name stop stopped [] j live h = still-Fares 16 j.attempts _ (omega arith) h refl
loop-Fares name init stopped (gone ∷ es) j live h =
    gone-Fares 15 j.attempts es _ h (finish-runs name stopped)
loop-Fares name idle stopped (gone ∷ es) j live h =
    gone-Fares 14 j.attempts es _ h (finish-runs name stopped)
loop-Fares name run stopped (gone ∷ es) j live h =
    gone-Fares 13 j.attempts es _ h (finish-runs name stopped)
loop-Fares name stop stopped (gone ∷ es) j live h =
    gone-Fares 16 j.attempts es _ h (finish-runs name stopped)
loop-Fares name init stopped (ticks c ∷ es) j live h =
    moved-Fares 15 14 j.attempts c es _ _ (omega arith) refl refl
      (loop-Fares name idle false es j tt h)
loop-Fares name idle stopped (ticks c ∷ es) j live h =
    moved-Fares 14 13 j.attempts c es _ _ (omega arith) refl refl
      (loop-Fares name run false es j tt h)
loop-Fares name stop stopped (ticks c ∷ es) j live h =
    moved-Fares 16 15 j.attempts c es _ _ (omega arith) refl refl
      (loop-Fares name init true es j tt h)
loop-Fares name run stopped (ticks true ∷ es) j live h =
    let ended = finish-runs name false in
    rw (loop_exit name false (job_turns name es exit j) succeeds)
      (succeeded-Fares j.attempts true es _ h (λ q. cc) (omega (arith, ended.0)) ended.1)
loop-Fares name run stopped (ticks false ∷ es) j live h = elim (Bool-cases (ltb j.attempts 3)) [
  | inl y ↦ rw y (
      failed-Fares j.attempts es _ _ refl refl (
        loop-Fares name stop false es (record { attempts = j.attempts + 1 }) tt
          (ground (arith, y))))
  | inr y ↦
      let ended = finish-runs name false in
      rw y (
        rw (loop_exit name false (job_turns name es exit j) succeeds) (
          succeeded-Fares j.attempts false es _ h (λ q. ground (arith, y, h))
            (omega (arith, ended.0)) ended.1))
]
loop-Fares name _ stopped es j live h = absurd live

-- The trace of RunUntilSuccessManager on the new service.
abbrev pub job_trace : RunUntilSuccessManager → String → List Moment → Trace
job_trace m name es = manage m name (job_turns name es init new_startup_job_service) succeeds

start-Fares :
    (m : RunUntilSuccessManager) (name : String) (es : List Moment)
    → 0 < m.default_delay
    → Fares 15 es 0 (start m name (job_turns name es init new_startup_job_service) succeeds)
unfolding start job_turns job_method job_init run_state
start-Fares m name [] d = still-Fares 15 0 _ (omega arith) (omega arith) refl
start-Fares m name (gone ∷ es) d =
    rw (loop_exit name true (job_turns name es init new_startup_job_service) succeeds)
      (gone-Fares 15 0 es _ (omega arith) (finish-runs name true))
start-Fares m name (ticks c ∷ es) d = rw (set_ticker-positive m.default_delay reset_text _ d) (
    moved-Fares 15 14 0 c es _ _ (omega arith) refl refl
      (loop-Fares name idle true es new_startup_job_service tt (omega arith)))

-- Under RunUntilSuccessManager with positive delays, whatever is cancelled and when, the job is run
-- at most four times. Fifteen turns are enough for Manage to return without a panic, and if nothing
-- is cancelled, they are enough for exactly four runs.
pub startup_job_retried :
    (m : RunUntilSuccessManager) (name : String) (es : List Moment)
    → 0 < m.startup_delay
    → 0 < m.default_delay
    → (job_runs (call_list (job_trace m name es).effects) ≤ 4)
      × (15 ≤ length es
          → ((job_trace m name es).status ≡ returned)
            × (AreQuiet es → job_runs (call_list (job_trace m name es).effects) ≡ 4))
unfolding manage
startup_job_retried m name es s d =
    let f = start-Fares m name es d in
    rw
      (set_ticker-positive m.startup_delay new_ticker_text
        (start m name (job_turns name es init new_startup_job_service) succeeds) s)
      (
        omega (arith, f.bounded),
        (λ n. (
          f.over (omega (arith, n)),
          λ q. let r = f.exact q (omega (arith, n)) in omega (arith, r),
        )),
      )
