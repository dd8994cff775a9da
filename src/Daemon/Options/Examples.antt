-- ===== src/Daemon/Options/Examples.antt =====
-- A daemon with options, and a change of its log level.
use rxd.Base.{◌<◌, ◌≡◌, ◌≢◌, ◌⊎◌, refl, false, some, List, [], ◌∷◌, arith, String}
use rxd.Log.Level.{Level, debug, warning}
use rxd.Log.Field.{Field}
use rxd.Log.Logger.{Address, Store, Logger, new_logger, log_message, passed, handler_of, fields_of}
use rxd.Log.Logger.Sound.{IsStore, new_logger-IsStore}
use rxd.Daemon.Services.{ManagerValue, other_value}
use rxd.Daemon.Options.{
  Sink, own_sink, DaemonOption, with_internal_logging, with_service_logger, with_rpc, Files,
  new_daemon,
}
use rxd.Daemon.Options.Ready.{IsReady, new_daemon-IsReady}
use rxd.Daemon.Rpc.{change_log_level, changed, change_log_level-loggers}

abbrev manager : ManagerValue
manager = record {
  identity = 0;
  is_nil_pointer = false;
  type_name = "rxd.RunContinuousManager";
  receiver = other_value;
}

abbrev own_logger : Logger Sink
own_logger = record {
  handler = own_sink 0;
  fields = record { array = 0; len = 0; cap = 0 };
  level = 0;
}

abbrev bare_store : Store Sink
bare_store = record {
  levels = λ p. 0;
  arrays = λ p. [];
  loggers = λ p. own_logger;
  next_level = 0;
  next_array = 0;
  next_logger = 0;
}

abbrev own_store : Store Sink
own_store = (new_logger debug (own_sink 0) bare_store).1

own_store-IsStore : IsStore own_store
own_store-IsStore =
    new_logger-IsStore debug (own_sink 0) bare_store (λ p lt. absurd (omega (arith, lt)))

own_next : own_store.next_logger ≡ 1
unfolding new_logger
own_next = refl

abbrev no_files : Files
no_files path = []

abbrev options : List DaemonOption
options =
    with_service_logger (some 0)
    ∷ with_internal_logging "a.log" debug
    ∷ with_rpc (record { addr = ""; port = 0 })
    ∷ []

new_daemon-IsReady_example :
    IsReady own_store.next_logger manager (new_daemon "a" manager no_files options own_store)
new_daemon-IsReady_example =
    new_daemon-IsReady "a" manager no_files options own_store own_store-IsStore
      (omega (arith, own_next), (tt, (tt, tt)))

change_log_level-loggers_example :
    (after : Store Sink) × (change_log_level
        (record { s_logger = some 0; i_logger = some 0 })
        warning
        own_store
      ≡ changed after)
    × IsStore after
    × ((q : Address) (l : Level) (text : String) (fields : List Field)
        → q < own_store.next_logger
        → ((q ≡ 0) ⊎ (q ≡ 0)
            → log_message after q l text fields
              ≡ passed warning (handler_of own_store q) (fields_of own_store q) l text fields)
          × (0 ≢ q
              → 0 ≢ q
              → log_message after q l text fields ≡ log_message own_store q l text fields))
change_log_level-loggers_example =
    change_log_level-loggers own_store 0 0 warning own_store-IsStore (omega (arith, own_next))
      (omega (arith, own_next))
