-- ===== src/Manager/Examples.antt =====
-- Runs of the two managers.
use rxd.Base.{arith, ◌≡◌, ◌≢◌, ◌⊎◌, true, List, [], ◌∷◌, last_or}
use rxd.Errors.{plain}
use rxd.States.{init, stop}
use rxd.Manager.{succeeds, fails, Turn, done, fires, returned, waiting, call_list}
use rxd.Manager.Protocol.{Chain, quiet, phase, Told}
use rxd.Manager.Continuous
use rxd.Manager.Continuous.{RunContinuousManager}
use rxd.Manager.Continuous.Order.{continuous_order}
use rxd.Manager.Continuous.Ending.{continuous_ends, has_done}
use rxd.Manager.Continuous.Announced.{continuous-Told}
use rxd.Manager.Custom
use rxd.Manager.Custom.Order.{custom-Meets, plan_at}
use rxd.Manager.Options.{StateTimeouts}
use rxd.Manager.UntilSuccess
use rxd.Manager.UntilSuccess.{RunUntilSuccessManager}
use rxd.Manager.UntilSuccess.Order.{until_success_order}
use rxd.Manager.UntilSuccess.Steps.{Chain as ChainRetried}
use rxd.Manager.UntilSuccess.Ending.{until_success_ends, EndsWell}
use rxd.Manager.UntilSuccess.Announced.{until_success-Told}

abbrev continuous : RunContinuousManager
continuous = record {
  default_delay = 10;
  startup_delay = 10;
  state_timeouts = (init, 5000000000) ∷ [];
}

abbrev until_success : RunUntilSuccessManager
until_success = record { startup_delay = 10; default_delay = 100 }

-- Init and Idle succeed, Run fails, and the context ends before Stop.
abbrev failing_run : List Turn
failing_run = fires succeeds ∷ fires succeeds ∷ fires (fails (plain "lost")) ∷ done ∷ []

abbrev succeeding_run : List Turn
succeeding_run = fires succeeds ∷ fires succeeds ∷ fires succeeds ∷ done ∷ []

continuous_order_example :
    let t = Continuous.manage continuous "a" failing_run succeeds in
    ((call_list t.effects ≡ stop ∷ []) ⊎ Chain stop (call_list t.effects))
    × (t.status ≡ returned → last_or init (call_list t.effects) ≡ stop)
continuous_order_example = continuous_order continuous "a" failing_run succeeds

continuous_ends_example :
    ((has_done failing_run ≡ true
        → (Continuous.manage continuous "a" failing_run succeeds).status ≢ waiting)
      × ((Continuous.manage continuous "a" failing_run succeeds).status ≡ returned
          → has_done failing_run ≡ true))
continuous_ends_example = continuous_ends continuous "a" failing_run succeeds

continuous-Told_example :
    let t = Continuous.manage continuous "a" failing_run succeeds in
    Told (phase "a" quiet t.effects) t.status
continuous-Told_example = continuous-Told continuous "a" failing_run succeeds

until_success_order_example :
    let t = UntilSuccess.manage until_success "a" failing_run succeeds in
    ChainRetried stop (call_list t.effects)
    × (t.status ≡ returned
        → (last_or stop (call_list t.effects) ≡ stop) ⊎ (call_list t.effects ≡ init ∷ []))
until_success_order_example = until_success_order until_success "a" failing_run succeeds

until_success_ends_example :
    let t = UntilSuccess.manage until_success "a" succeeding_run succeeds in
    (t.status ≡ returned → EndsWell "a" succeeds succeeding_run t)
    × (has_done succeeding_run ≡ true → t.status ≢ waiting)
until_success_ends_example = until_success_ends until_success "a" succeeding_run succeeds

until_success-Told_example :
    let t = UntilSuccess.manage until_success "a" failing_run succeeds in
    Told (phase "a" quiet t.effects) t.status
until_success-Told_example =
    until_success-Told until_success "a" failing_run succeeds (omega arith) (omega arith) (λ e. cc)

-- Init succeeds and Idle fails, after which Stop fails, so that the run is over.
abbrev failing_idle : List Turn
failing_idle =
    fires succeeds
    ∷ fires (fails (plain "lost"))
    ∷ fires (fails (plain "stuck"))
    ∷ fires succeeds
    ∷ []

custom-Meets_example :
    (let t = Custom.custom_manage "a" failing_idle in
      (call_list t.effects ≡ (plan_at init failing_idle).methods)
      × (t.status ≡ (plan_at init failing_idle).ends))
custom-Meets_example = custom-Meets "a" failing_idle

abbrev slow_stop : StateTimeouts
slow_stop = (stop, 7) ∷ (init, 9) ∷ []
