-- ===== src/Daemon/Options.antt =====
-- daemon.go (NewDaemon) and daemon_options.go: how a daemon is configured.
pub mod Ready
mod Examples
use rxd.Base.{
  ℕ, ◌*◌, String, Bool, true, false, Option, none, some, List, [], ◌∷◌, ◌==◌, if◌then◌else◌, str_eq,
}
use rxd.States.{ServiceStates}
use rxd.Log.Level.{Level, info, debug}
use rxd.Log.Handler.{Handler, new_handler}
use rxd.Log.Logger.{Address, Store, new_logger}
use rxd.Intracom.Registry.{new_intracom}
use rxd.Daemon.Prestart.{Pipeline, new_prestart_pipeline}
use rxd.Daemon.Services.{ManagerValue}
use rxd.Daemon.LogFile.{LogFile, Written, default_log_file, internal_log_file}
use rxd.Daemon.Start.{Daemon}

-- The handlers of the package's loggers; `own_sink` is one that the program brings.
pub data Sink : Type 0 where
  streams : Handler → Sink
  log_file : LogFile → Sink
  own_sink : ℕ → Sink

pub data Signal : Type 0 where
  sigint sigterm : Signal
  other_signal : ℕ → Signal

pub record RpcConfig : Type 0 where
  pub addr : String
  pub port : ℕ

-- The struct daemon: `daemon` has the fields that Start works on, and a nil logger is `none`.
pub record Configured : Type 0 where
  pub name : String
  pub signals : List Signal
  pub daemon : Daemon
  pub report_alive_secs : ℕ
  pub log_worker_count : ℕ
  pub service_logger : Option Address
  pub internal_logger : Option Address
  pub rpc_enabled : Bool
  pub rpc_config : RpcConfig

-- An option of the package, with its arguments.
pub data DaemonOption : Type 0 where
  with_prestart : Bool → ℕ → List String → DaemonOption
  with_custom_prestart_pipeline : Pipeline → DaemonOption
  with_service_logger : Option Address → DaemonOption
  with_report_alive : ℕ → DaemonOption
  with_signals : List Signal → DaemonOption
  with_internal_logger : Option Address → DaemonOption
  with_internal_logging : String → Level → DaemonOption
  with_rpc : RpcConfig → DaemonOption

-- The defaults of WithRPC.
abbrev pub default_addr : String
default_addr = "127.0.0.1"

abbrev pub default_port : ℕ
default_port = 1337

unfoldable pub rpc_config_of : RpcConfig → RpcConfig
rpc_config_of cfg = record {
  addr = if str_eq cfg.addr "" then default_addr else cfg.addr;
  port = if cfg.port == 0 then default_port else cfg.port;
}

-- What is in a file at a path when its handler is made.
abbrev pub Files : Type 0
Files = String → List Written

abbrev with_logger : Configured → Address × Store Sink → Configured × Store Sink
with_logger d (p, st) = (record d { internal_logger = some p }, st)

-- What the function that an option returns does to the daemon.
unfoldable pub configure : Files → DaemonOption → Configured × Store Sink → Configured × Store Sink
unfolding rpc_config_of
configure files (with_prestart restart delay stages) (d, st) = (
  record d { daemon = record (d.daemon) { prestart = new_prestart_pipeline restart delay stages } },
  st,
)
configure files (with_custom_prestart_pipeline p) (d, st) =
    (record d { daemon = record (d.daemon) { prestart = p } }, st)
configure files (with_service_logger l) (d, st) = (record d { service_logger = l }, st)
configure files (with_report_alive secs) (d, st) = (record d { report_alive_secs = secs }, st)
configure files (with_signals signals) (d, st) = (record d { signals = signals }, st)
configure files (with_internal_logger l) (d, st) = (record d { internal_logger = l }, st)
configure files (with_internal_logging path level) (d, st) =
    with_logger d (new_logger level (log_file (internal_log_file path (files path))) st)
configure files (with_rpc cfg) (d, st) =
    (record d { rpc_enabled = true; rpc_config = rpc_config_of cfg }, st)

unfoldable pub configure_all :
    Files → List DaemonOption → Configured × Store Sink → Configured × Store Sink
unfolding configure
configure_all files [] c = c
configure_all files (o ∷ os) c = configure_all files os (configure files o c)

-- The daemon before its options, with the loggers at two addresses.
abbrev pub bare : String → ManagerValue → Address → Address → Configured
bare name default service internal = record {
  name = name;
  signals = sigint ∷ sigterm ∷ [];
  daemon = record {
    registered = record { started = false; services = []; managers = []; default = default };
    prestart = record { restart_on_error = true; restart_delay = 5000000000; stages = [] };
    registry = new_intracom {A = ServiceStates} "rxd-intracom";
  };
  report_alive_secs = 0;
  log_worker_count = 2;
  service_logger = some service;
  internal_logger = some internal;
  rpc_enabled = false;
  rpc_config = record { addr = ""; port = 0 };
}

abbrev both_loggers :
    String → ManagerValue → Address → Address × Store Sink → Configured × Store Sink
both_loggers name default service (internal, st) = (bare name default service internal, st)

abbrev internal_of : String → ManagerValue → Files → Address × Store Sink → Configured × Store Sink
internal_of name default files (service, st) =
    both_loggers name default service
      (new_logger debug (log_file (default_log_file (files "rxd.log"))) st)

-- `default` is the manager that NewDefaultManager returns for services that bring none.
unfoldable pub new_daemon :
    String → ManagerValue → Files → List DaemonOption → Store Sink → Configured × Store Sink
unfolding configure_all
new_daemon name default files options st =
    configure_all files options
      (internal_of name default files (new_logger info (streams (new_handler [])) st))
