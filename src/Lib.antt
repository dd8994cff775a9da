-- ===== src/Lib.antt =====
-- rxd: a verification library for the reactive daemon and its intracom message bus.
--
-- The program. A daemon (daemon.go) is given services, runs a prestart pipeline
-- (daemon_prestart.go), and then runs each service under a manager (service_manager.go), which
-- calls the service's lifecycle methods and reports every change of state. The states watcher
-- (daemon.go) keeps the latest state of each service and publishes the map on a topic of intracom
-- (intracom/). A topic has a broadcaster (broadcast_sync.go), which keeps the subscribers by
-- consumer group and delivers each message to them under their buffer policies. Services watch one
-- another through their context (service_context.go), which subscribes to that topic.
--
-- The files.
--   Base: names and lemmas that all share. Base/Tests has Boolean tests on numbers, Base/Lists
--     lists, and Base/Maps the association lists that stand for Go maps.
--   Errors, States: errors.go; service_states.go, service_action.go and constants.go.
--   Log: the package log. Log/Level, Log/Level/Parse and Log/Field are log.go, Log/Text the text
--     functions that it uses, Log/Logger logger.go (Logger/Append is the built-in append on shared
--     arrays, Logger/Sound what every store has in common), Log/Handler handler.go and option.go,
--     Log/Journald log/journald/journald.go and option.go.
--   Manager: service_manager.go. A run is a trace of effects in program order. Manager/Continuous
--     and Manager/UntilSuccess are the Manage methods of the two managers (run_state is the switch,
--     loop the for statement, finish what follows it), Manager/Options is NewDefaultManager and
--     service_manager_option.go, Manager/Custom the manager of
--     examples/single_service_custom_manager/manager.go, and Manager/Protocol is the automaton of
--     what the states watcher may rely on, which does not mention the managers.
--   Context: service_context.go, with its loggers in Context/Logging. Context/Watch has
--     WatchAllServices and WatchAnyServices, Context/Watch/AllStates WatchAllStates,
--     Context/Watch/Filter service_filter.go.
--   Intracom: the package intracom. Channel is a Go channel with a consumer, Buffer
--     buffer_policy.go, Subscriber subscriber.go, Broadcast broadcast_sync.go and request.go, Topic
--     topic.go, Failures errors.go, Registry intracom.go. Registry/Abstract is the map of names that
--     the registry's operations are compared with, and does not use them.
--   Daemon: Prestart is daemon_prestart.go; Services is AddService, AddServices and
--     checkNilStructPointer of daemon.go, Watcher its statesWatcher, Start its Start, which puts
--     the pipeline, the managers' runs, the watcher and the registry together, and Options its
--     NewDaemon with daemon_options.go; LogFile is daemon_log.go, and Rpc daemon_rpc.go.
--   Programs: the programs under examples/. Programs/Main has the main functions, HelloWorld the
--     service with an HTTP server, Polling its pollers, StartupJob the job that fails three times,
--     and RpcClient the client program with pkg/rpc/client.go and commands.go.
--
-- How state and time are modelled. A goroutine's loop is a function of its state and of a list of
-- turns: each turn says what its select receives, and how the calls that it then makes end. Loops
-- recurse on that list, so that no fuel is needed; a run whose turns are used up is said to wait, and
-- a theorem on how a run ends speaks of the turns that end it. Where a select has several ready
-- cases a turn, or the preference of a moment, says which one is taken, so that a statement holds for
-- every choice. Durations are numbers of nanoseconds, where 0 stands for all that are
-- not positive; they are carried and never measured: a timer is
-- the turn in which it fires. Operations that other calls can come between are split where the lock
-- is given up. Panics are values of the result types. A pointer, a channel or a topic that the code
-- compares or shares is numbered in the order of its making. Histories, such as the messages that a
-- consumer took and the topics that the registry has given up, are kept in the state for the
-- statements; no code reads them.
--
-- Loggers live in a store: levels, loggers and the arrays behind slices of fields have addresses, and
-- the capacity that the runtime gives a grown array is a parameter that is at least what is needed.
-- The file system's answers are part of each call on the log file. The bytes of the log file are
-- counted in uint64, whose wrap-around is written out. The decimal text of a number is made by rounds
-- on fuel; each divides by ten, so that the number itself is enough fuel.
--
-- What is not modelled. The RPC server but for its handlers and how its shutdown ends; the signals,
-- which end a context as a cancellation does; the fields of floats and of arbitrary values, which
-- fmt and strconv print; the example program pubsub, which only calls the library. The
-- lines that the managers log are effects of their traces, those of the daemon and of the registry are
-- left out. In Intracom/Topic a topic's operations meet a broadcaster that stands at its select, and in
-- Intracom/Topic/Running they and the broadcaster go on step by step. In Start each service's
-- run is that of its manager, given as a trace, and the updates of all of them are merged by a
-- schedule. net/http, net/rpc, the clock and the handlers that a program brings are parameters.
pub mod Base
pub mod Errors
pub mod States
pub mod Log
pub mod Manager
pub mod Context
pub mod Intracom
pub mod Daemon
pub mod Programs
