-- ===== src/Daemon/Prestart/Success.antt =====
-- When the prestart pipeline completes.
use mathlib.Core.List.{mem-cons, mem-cons_self}
use mathlib.Core.Logic.Or
use rxd.Base.{
  ℕ, ◌+◌, ◌≡◌, ◌≢◌, ◌⊎◌, inl, inr, refl, sym, ap, ◌∙◌, Bool, true, String, Option, none, some, List,
  [], ◌∷◌, length, All, Mem, arith,
}
use rxd.Daemon.Prestart.{
  Pipeline, DaemonLog, StageRun, cancelled, returned, StagesEnd, leaves, breaks, ends_with,
  prestart_failed, run_stages, Turn, ctx_done, timer_fires, stops, completes, waits, retry_delay,
  run_loop, run, after_stage, failure, after_stages, unless_empty,
}

-- Every stage from the index on returns nil.
abbrev pub Succeeds : List String → (ℕ → StageRun) → ℕ → Type 0
Succeeds [] runs i = Unit
Succeeds (stage ∷ stages) runs i = (runs i ≡ returned none) × Succeeds stages runs (i + 1)

-- Stages return nil up to one that returns an error.
abbrev pub Fails : List String → (ℕ → StageRun) → ℕ → Type 0
Fails [] runs i = ⊥
Fails (stage ∷ stages) runs i =
    ((e : String) × (runs i ≡ returned (some e)))
    ⊎ ((runs i ≡ returned none) × Fails stages runs (i + 1))

run_stages-Succeeds :
    (restart : Bool) (stages : List String) (runs : ℕ → StageRun) (i : ℕ)
    → Succeeds stages runs i
    → run_stages restart none stages runs i ≡ (ends_with none, [])
unfolding run_stages
run_stages-Succeeds restart [] runs i h = refl
run_stages-Succeeds restart (stage ∷ stages) runs i h =
    rw (h.0) (run_stages-Succeeds restart stages runs (i + 1) h.1)

run_stages-Fails :
    (stages : List String) (runs : ℕ → StageRun) (i : ℕ)
    → Fails stages runs i
    → (log : DaemonLog) × (run_stages true none stages runs i ≡ (breaks, log ∷ []))
unfolding run_stages
run_stages-Fails [] runs i h = absurd h
run_stages-Fails (stage ∷ stages) runs i (inl (e, h)) = (prestart_failed true stage e, rw h refl)
run_stages-Fails (stage ∷ stages) runs i (inr (e, h)) =
    let (log, k) = run_stages-Fails stages runs (i + 1) h in (log, rw e k)

-- A restarting run that goes on to a pass in which every stage succeeds.
abbrev pub passes : List (ℕ → StageRun) → List Turn → List Turn
passes [] ts = ts
passes (f ∷ fs) ts = timer_fires f ∷ passes fs ts

loop_restarts :
    (p : Pipeline) (fs : List (ℕ → StageRun)) (good : ℕ → StageRun) (ts : List Turn) (delay : ℕ)
    → p.restart_on_error ≡ true
    → All (λ f. Fails p.stages f 0) fs
    → Succeeds p.stages good 0
    → let r = run_loop p (some delay) (passes fs (timer_fires good ∷ ts)) in
      (r.0 ≡ completes) × (length r.1 ≡ length fs)
unfolding run_loop
loop_restarts p [] good ts delay e h k =
    rw (run_stages-Succeeds p.restart_on_error p.stages good 0 k) (refl, refl)
loop_restarts p (f ∷ fs) good ts delay e h k =
    let (log, q) = run_stages-Fails p.stages f 0 h.0 in
    let q' : run_stages p.restart_on_error none p.stages f 0 ≡ (breaks, log ∷ []) =
      ap (λ b. run_stages b none p.stages f 0) e ∙ q in
    let (done, count) = loop_restarts p fs good ts (retry_delay p) e h.1 k in
    rw q' (done, omega (arith, count))

-- Under RestartOnError a pipeline with stages whose first passes fail and whose next one succeeds
-- completes, with one log entry for each pass that failed, whatever turns would follow.
pub run_restarts :
    (p : Pipeline) (fs : List (ℕ → StageRun)) (good : ℕ → StageRun) (ts : List Turn)
    → p.restart_on_error ≡ true
    → p.stages ≢ []
    → All (λ f. Fails p.stages f 0) fs
    → Succeeds p.stages good 0
    → let r = run p (passes fs (timer_fires good ∷ ts)) in
      (r.0 ≡ completes) × (length r.1 ≡ length fs)
unfolding run
run_restarts p fs good ts e n h k = gate p.stages refl
  where
    gate :
        (stages : List String)
        → p.stages ≡ stages
        → let r = unless_empty stages (run_loop p (some 0) (passes fs (timer_fires good ∷ ts))) in
          (r.0 ≡ completes) × (length r.1 ≡ length fs)
    gate [] q = absurd (n q)
    gate (stage ∷ stages) q = loop_restarts p fs good ts 0 e h k

-- A loop over the stages that reaches its end.
run_stages-ends :
    (err e : Option String) (stages : List String) (runs : ℕ → StageRun) (i : ℕ)
    → (run_stages true err stages runs i).0 ≡ ends_with e
    → Succeeds stages runs i
unfolding run_stages
run_stages-ends err e [] runs i h = tt
run_stages-ends err e (stage ∷ stages) runs i h =
    gate (runs i) refl (run_stages-ends none e stages runs (i + 1)) h
  where
    gate :
        (r : StageRun)
        → runs i ≡ r
        → ((run_stages true none stages runs (i + 1)).0 ≡ ends_with e
            → Succeeds stages runs (i + 1))
        → (after_stage true stage r
            (run_stages true none stages runs (i + 1))
            (run_stages true (failure (runs i)) stages runs (i + 1))).0
          ≡ ends_with e
        → (runs i ≡ returned none) × Succeeds stages runs (i + 1)
    gate cancelled q rest k = absurd (let x : leaves ≡ ends_with e = k in cc)
    gate (returned none) q rest k = (q, rest k)
    gate (returned (some x)) q rest k = absurd (let y : breaks ≡ ends_with e = k in cc)

-- The pass that completes.
abbrev pub Completing : Pipeline → List Turn → Type 0
Completing p ts = (good : ℕ → StageRun) × Mem (timer_fires good) ts × Succeeds p.stages good 0

loop_completes :
    (p : Pipeline) (timer : Option ℕ) (ts : List Turn)
    → p.restart_on_error ≡ true
    → (run_loop p timer ts).0 ≡ completes
    → Completing p ts
unfolding run_loop
loop_completes p timer [] e h = absurd (let x : waits timer ≡ completes = h in cc)
loop_completes p timer (ctx_done ∷ ts) e h = absurd (let x : stops ≡ completes = h in cc)
loop_completes p none (timer_fires runs ∷ ts) e h =
    let (good, m, k) = loop_completes p none ts e h in (good, mem-cons.1 (Or.inr m), k)
loop_completes p (some delay) (timer_fires runs ∷ ts) e h =
    gate (run_stages p.restart_on_error none p.stages runs 0).0 refl
      (loop_completes p (some (retry_delay p)) ts e) (loop_completes p none ts e) h
  where
    later : Completing p ts → Completing p (timer_fires runs ∷ ts)
    later (good, m, k) = (good, mem-cons.1 (Or.inr m), k)

    gate :
        (end : StagesEnd)
        → (run_stages p.restart_on_error none p.stages runs 0).0 ≡ end
        → ((run_loop p (some (retry_delay p)) ts).0 ≡ completes → Completing p ts)
        → ((run_loop p none ts).0 ≡ completes → Completing p ts)
        → (after_stages end (run_loop p (some (retry_delay p)) ts) (run_loop p none ts)).0
          ≡ completes
        → Completing p (timer_fires runs ∷ ts)
    gate leaves q again idle k = absurd (let x : stops ≡ completes = k in cc)
    gate breaks q again idle k = later (again k)
    gate (ends_with none) q again idle k = (
      runs,
      mem-cons_self,
      run_stages-ends none none p.stages runs 0
          (ap (λ b. (run_stages b none p.stages runs 0).0) (sym e) ∙ q),
    )
    gate (ends_with (some x)) q again idle k = later (idle k)

-- Under RestartOnError a pipeline with stages completes only by a pass in which every stage returns
-- nil.
pub run_completes :
    (p : Pipeline) (ts : List Turn)
    → p.restart_on_error ≡ true
    → p.stages ≢ []
    → (run p ts).0 ≡ completes
    → Completing p ts
unfolding run
run_completes p ts e n h = gate p.stages refl h
  where
    gate :
        (stages : List String)
        → p.stages ≡ stages
        → (unless_empty stages (run_loop p (some 0) ts)).0 ≡ completes
        → Completing p ts
    gate [] q k = absurd (n q)
    gate (stage ∷ stages) q k = loop_completes p (some 0) ts e k
