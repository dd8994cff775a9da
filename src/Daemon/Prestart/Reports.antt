-- ===== src/Daemon/Prestart/Reports.antt =====
-- A pipeline that does not restart.
use rxd.Base.{
  ℕ, ◌+◌, ◌≡◌, refl, sym, ap, ◌∙◌, false, String, Option, none, some, List, [], ◌∷◌, append-nil,
  map,
}
use rxd.Daemon.Prestart.{
  Pipeline, DaemonLog, StageRun, cancelled, returned, StagesEnd, ends_with, prestart_failed,
  run_stages, timer_fires, Ending, completes, waits, run_loop, run, after_stage, failure,
  unless_empty,
}

-- Every stage from the index on returns, and the last one returns this.
abbrev pub EndsAt : Option String → List String → (ℕ → StageRun) → ℕ → Type 0
EndsAt last [] runs i = ⊥
EndsAt last (stage ∷ []) runs i = runs i ≡ returned last
EndsAt last (stage ∷ next ∷ stages) runs i =
    ((e : Option String) × (runs i ≡ returned e)) × EndsAt last (next ∷ stages) runs (i + 1)

abbrev report_one : String → StageRun → List DaemonLog → List DaemonLog
report_one stage cancelled rest = rest
report_one stage (returned none) rest = rest
report_one stage (returned (some e)) rest = prestart_failed false stage e ∷ rest

-- One entry for each stage that failed, at level error, in order.
abbrev pub reports : List String → (ℕ → StageRun) → ℕ → List DaemonLog
reports [] runs i = []
reports (stage ∷ stages) runs i = report_one stage (runs i) (reports stages runs (i + 1))

run_stages-step :
    (err e last : Option String) (stage : String) (stages : List String) (runs : ℕ → StageRun)
    (i : ℕ)
    → runs i ≡ returned e
    → run_stages false e stages runs (i + 1) ≡ (ends_with last, reports stages runs (i + 1))
    → run_stages false err (stage ∷ stages) runs i
      ≡ (ends_with last, reports (stage ∷ stages) runs i)
unfolding run_stages
run_stages-step err none last stage stages runs i q k =
    ap
      (λ r.
        after_stage false stage r (run_stages false none stages runs (i + 1))
          (run_stages false (failure r) stages runs (i + 1)))
      q
    ∙ k
    ∙ ap {B = StagesEnd × List DaemonLog}
        (λ r. (ends_with last, report_one stage r (reports stages runs (i + 1)))) (sym q)
run_stages-step err (some e) last stage stages runs i q k =
    ap
      (λ r.
        after_stage false stage r (run_stages false none stages runs (i + 1))
          (run_stages false (failure r) stages runs (i + 1)))
      q
    ∙ ap {B = StagesEnd × List DaemonLog} (λ z. (z.0, prestart_failed false stage e ∷ z.1)) k
    ∙ ap {B = StagesEnd × List DaemonLog}
        (λ r. (ends_with last, report_one stage r (reports stages runs (i + 1)))) (sym q)

run_stages-reports :
    (err last : Option String) (stages : List String) (runs : ℕ → StageRun) (i : ℕ)
    → EndsAt last stages runs i
    → run_stages false err stages runs i ≡ (ends_with last, reports stages runs i)
run_stages-reports err last [] runs i h = absurd h
run_stages-reports err last (stage ∷ []) runs i h =
    run_stages-step err last last stage [] runs i h (unfold run_stages in refl)
run_stages-reports err last (stage ∷ next ∷ stages) runs i ((e, q), h) =
    run_stages-step err e last stage (next ∷ stages) runs i q
      (run_stages-reports e last (next ∷ stages) runs (i + 1) h)

-- A timer that fires no more.
idle_waits :
    (p : Pipeline) (later : List (ℕ → StageRun))
    → run_loop p none (map timer_fires later) ≡ (waits none, [])
unfolding run_loop
idle_waits p [] = refl
idle_waits p (f ∷ later) = idle_waits p later

abbrev pub once_ends : Option String → Ending
once_ends none = completes
once_ends (some e) = waits none

loop_once :
    (p : Pipeline) (runs : ℕ → StageRun) (last : Option String) (later : List (ℕ → StageRun))
    → run_stages p.restart_on_error none p.stages runs 0 ≡ (ends_with last, reports p.stages runs 0)
    → run_loop p (some 0) (timer_fires runs ∷ map timer_fires later)
      ≡ (once_ends last, reports p.stages runs 0)
unfolding run_loop
loop_once p runs none later q = rw (q, append-nil (reports p.stages runs 0)) refl
loop_once p runs (some e) later q =
    rw (q, idle_waits p later, append-nil (reports p.stages runs 0)) refl

-- Without RestartOnError every stage runs, each failure is reported, and the pipeline completes if
-- the last stage returns nil, whatever the others did; if it returns an error, the pipeline neither
-- completes nor runs again: it waits, with its timer never armed again, until its context is done.
pub run_once :
    (p : Pipeline) (runs : ℕ → StageRun) (last : Option String) (later : List (ℕ → StageRun))
    → p.restart_on_error ≡ false
    → EndsAt last p.stages runs 0
    → run p (timer_fires runs ∷ map timer_fires later) ≡ (once_ends last, reports p.stages runs 0)
unfolding run
run_once p runs last later e h =
    gate p.stages h
    ∙ loop_once p runs last later (
        ap (λ b. run_stages b none p.stages runs 0) e
        ∙ run_stages-reports none last p.stages runs 0 h)
  where
    gate :
        (stages : List String)
        → EndsAt last stages runs 0
        → unless_empty stages (run_loop p (some 0) (timer_fires runs ∷ map timer_fires later))
          ≡ run_loop p (some 0) (timer_fires runs ∷ map timer_fires later)
    gate [] k = absurd k
    gate (stage ∷ stages) k = refl
