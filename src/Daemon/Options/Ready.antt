-- ===== src/Daemon/Options/Ready.antt =====
-- daemon.go and daemon_options.go: what every daemon that NewDaemon returns has.
use rxd.Base.{
  ℕ, ◌+◌, ◌≤◌, ◌<◌, ◌≡◌, ◌≢◌, refl, String, true, false, Option, none, some, List, [], ◌∷◌, All,
  arith, Bool-cases, inl, inr, str_eq, eq_iff, sym, ◌∙◌, if-true, if-false,
}
use rxd.Log.Level.{info, debug}
use rxd.Log.Handler.{new_handler}
use rxd.Daemon.LogFile.{default_log_file, internal_log_file}
use rxd.Log.Logger.{Address, Store, new_logger}
use rxd.Log.Logger.Sound.{IsStore, new_logger-IsStore}
use rxd.Intracom.Registry.{new_intracom}
use rxd.Daemon.Services.{ManagerValue, Registered}
use rxd.Daemon.Options.{
  Sink, RpcConfig, Configured, DaemonOption, with_prestart, with_custom_prestart_pipeline,
  with_service_logger, with_report_alive, with_signals, with_internal_logger, with_internal_logging,
  with_rpc, default_addr, bare, log_file, streams, rpc_config_of, Files, configure, configure_all,
  new_daemon,
}

-- A logger that is not nil, at an address below `n`.
abbrev pub Below : ℕ → Option Address → Type 0
Below n none = ⊥
Below n (some p) = p < n

-- An option is given loggers that are there.
abbrev pub Given : ℕ → DaemonOption → Type 0
Given n (with_service_logger l) = Below n l
Given n (with_internal_logger l) = Below n l
Given n _ = Unit {0}

abbrev pub unstarted : ManagerValue → Registered
unstarted default = record { started = false; services = []; managers = []; default = default }

-- With loggers below `n` given, the daemon has both loggers, no service, a new registry, and an
-- RPC server has an address and a port.
pub record IsReady (n : ℕ) (default : ManagerValue) (c : Configured × Store Sink) : Type 0 where
  pub sound : IsStore c.1
  pub later : n ≤ c.1.next_logger
  pub service_logger : Below c.1.next_logger c.0.service_logger
  pub internal_logger : Below c.1.next_logger c.0.internal_logger
  pub registered : c.0.daemon.registered ≡ unstarted default
  pub registry : c.0.daemon.registry ≡ new_intracom "rxd-intracom"
  pub rpc : c.0.rpc_enabled ≡ true → (c.0.rpc_config.addr ≢ "") × (c.0.rpc_config.port ≢ 0)

Below-le : (n m : ℕ) (l : Option Address) → n ≤ m → Below n l → Below m l
Below-le n m none le h = h
Below-le n m (some p) le h = omega (arith, le, h)

rpc_config_of-set : (cfg : RpcConfig) → let r = rpc_config_of cfg in (r.addr ≢ "") × (r.port ≢ 0)
unfolding rpc_config_of
rpc_config_of-set cfg = (
  elim (Bool-cases (str_eq cfg.addr "")) [
    | inl y ↦ λ e.
        let same : str_eq default_addr "" ≡ true =
          (eq_iff default_addr "").1 (sym (if-true (str_eq cfg.addr "") _ _ y) ∙ e) in
        cc (same)
    | inr y ↦ λ e.
        let same = (eq_iff cfg.addr "").1 (sym (if-false (str_eq cfg.addr "") _ _ y) ∙ e) in
        cc (same, y)
  ],
  λ e. ground (arith, e),
)

configure-IsReady :
    (files : Files) (n : ℕ) (default : ManagerValue) (o : DaemonOption) (d : Configured)
    (st : Store Sink)
    → Given n o
    → IsReady n default (d, st)
    → IsReady n default (configure files o (d, st))
unfolding configure new_logger
configure-IsReady files n default (with_prestart restart delay stages) d st g h = record {
  sound = h.sound;
  later = h.later;
  service_logger = h.service_logger;
  internal_logger = h.internal_logger;
  registered = h.registered;
  registry = h.registry;
  rpc = h.rpc;
}
configure-IsReady files n default (with_custom_prestart_pipeline p) d st g h = record {
  sound = h.sound;
  later = h.later;
  service_logger = h.service_logger;
  internal_logger = h.internal_logger;
  registered = h.registered;
  registry = h.registry;
  rpc = h.rpc;
}
configure-IsReady files n default (with_service_logger l) d st g h = record {
  sound = h.sound;
  later = h.later;
  service_logger = Below-le n st.next_logger l h.later g;
  internal_logger = h.internal_logger;
  registered = h.registered;
  registry = h.registry;
  rpc = h.rpc;
}
configure-IsReady files n default (with_report_alive secs) d st g h = record {
  sound = h.sound;
  later = h.later;
  service_logger = h.service_logger;
  internal_logger = h.internal_logger;
  registered = h.registered;
  registry = h.registry;
  rpc = h.rpc;
}
configure-IsReady files n default (with_signals signals) d st g h = record {
  sound = h.sound;
  later = h.later;
  service_logger = h.service_logger;
  internal_logger = h.internal_logger;
  registered = h.registered;
  registry = h.registry;
  rpc = h.rpc;
}
configure-IsReady files n default (with_internal_logger l) d st g h = record {
  sound = h.sound;
  later = h.later;
  service_logger = h.service_logger;
  internal_logger = Below-le n st.next_logger l h.later g;
  registered = h.registered;
  registry = h.registry;
  rpc = h.rpc;
}
configure-IsReady files n default (with_internal_logging path level) d st g h = record {
  sound = new_logger-IsStore level (log_file (internal_log_file path (files path))) st h.sound;
  later = omega (arith, h.later);
  service_logger =
      Below-le st.next_logger (st.next_logger + 1) d.service_logger (omega arith) h.service_logger;
  internal_logger = omega arith;
  registered = h.registered;
  registry = h.registry;
  rpc = h.rpc;
}
configure-IsReady files n default (with_rpc cfg) d st g h = record {
  sound = h.sound;
  later = h.later;
  service_logger = h.service_logger;
  internal_logger = h.internal_logger;
  registered = h.registered;
  registry = h.registry;
  rpc = λ e. rpc_config_of-set cfg;
}

configure_all-IsReady :
    (files : Files) (n : ℕ) (default : ManagerValue) (os : List DaemonOption) (d : Configured)
    (st : Store Sink)
    → All (Given n) os
    → IsReady n default (d, st)
    → IsReady n default (configure_all files os (d, st))
unfolding configure_all
configure_all-IsReady files n default [] d st g h = h
configure_all-IsReady files n default (o ∷ os) d st g h =
    let c = configure files o (d, st) in
    configure_all-IsReady files n default os c.0 c.1 g.1
      (configure-IsReady files n default o d st g.0 h)

-- Whatever options NewDaemon is given, in whatever order, if the loggers among them are not nil
-- and in use, the daemon has a service logger and an internal logger that are in use, no service,
-- has not started, has a new registry, and if its RPC server is enabled, an address and a port for
-- it that are not empty and not 0.
pub new_daemon-IsReady :
    (name : String) (default : ManagerValue) (files : Files) (options : List DaemonOption)
    (st : Store Sink)
    → IsStore st
    → All (Given st.next_logger) options
    → IsReady st.next_logger default (new_daemon name default files options st)
unfolding new_daemon new_logger
new_daemon-IsReady name default files options st h g =
    let one = new_logger info (streams (new_handler [])) st in
    let sink = log_file (default_log_file (files "rxd.log")) in
    let two = new_logger debug sink one.1 in
    configure_all-IsReady files st.next_logger default options (bare name default one.0 two.0) two.1
      g
      (record {
        sound =
            new_logger-IsStore debug sink one.1
              (new_logger-IsStore info (streams (new_handler [])) st h);
        later = omega arith;
        service_logger = omega arith;
        internal_logger = omega arith;
        registered = refl;
        registry = refl;
        rpc = λ e. cc;
      })
