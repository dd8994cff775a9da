-- ===== src/Programs/HelloWorld/Multi.antt =====
-- The HelloWorldAPIService of examples/multi_service and multi_service_rpc: its Run leaves its
-- goroutine behind when the server fails by itself.
use rxd.Base.{String, true, false, Option, none, some, [], ◌∷◌, if◌then◌else◌}
use rxd.Errors.{GoError, plain, error_text}
use rxd.Log.Level.{Level, info, debug, warning, error}
use rxd.Manager.{succeeds, panics, fails}
use rxd.Programs.HelloWorld.{
  leaving, Left, on_own_server, on_their_server, HelloWorld, Lines, Call, call, also,
}

-- Whether ListenAndServe fails by itself, or the context ends and Shutdown returns.
pub data ServingMulti : Type 0 where
  breaks : String → ServingMulti
  shuts : Option GoError → ServingMulti

-- The program's levels: what multi_service logs as info, the variant with RPC logs as debug, and
-- the line on the shutdown signal as a warning.
pub record Levels : Type 0 where
  pub entered : Level
  pub signalled : Level

abbrev pub multi_levels : Levels
multi_levels = record { entered = info; signalled = info }

abbrev pub rpc_levels : Levels
rpc_levels = record { entered = debug; signalled = warning }

-- Both cases of the `select` of Idle return nil.
unfoldable pub idle_multi : Levels → HelloWorld → Call
idle_multi l s = call succeeds s ((l.entered, "entered idle state") ∷ [])

abbrev signal_lines : Levels → Option GoError → Lines
signal_lines l none =
    (l.signalled, "received a shutdown signal, cancel server context to stop server gracefully")
    ∷ []
signal_lines l (some e) =
    (l.signalled, "received a shutdown signal, cancel server context to stop server gracefully")
    ∷ (error, error_text e)
    ∷ []

abbrev run_lines : Levels → Lines
run_lines l = (l.entered, "entered run state") ∷ (info, "server starting at :8000") ∷ []

abbrev served_multi : Levels → HelloWorld → ServingMulti → Call
served_multi l s (breaks e) = leaving (fails (plain e)) s (run_lines l)
served_multi l s (shuts e) =
    call succeeds s (also (run_lines l) (also (signal_lines l e) ((info, "server shutdown") ∷ [])))

-- Without a server `s.server.Addr` panics, after the first line.
unfoldable pub run_multi : Levels → HelloWorld → ServingMulti → Call
run_multi l s serving =
    if s.has_server
    then served_multi l s serving
    else call (panics "invalid memory address or nil pointer dereference") s
        ((l.entered, "entered run state") ∷ [])

-- Init and Stop of the variant with RPC both log "entered init state".
unfoldable pub init_rpc : HelloWorld → Call
init_rpc s = call succeeds (record { has_server = true }) ((debug, "entered init state") ∷ [])

unfoldable pub stop_multi : HelloWorld → Call
stop_multi s = call succeeds (record { has_server = false }) ((info, "stopping") ∷ [])

unfoldable pub stop_rpc : HelloWorld → Call
stop_rpc s = call succeeds (record { has_server = false }) ((debug, "entered init state") ∷ [])

-- A goroutine that a Run has left behind, once the context ends: multi_service gives it its server,
-- the variant with RPC does not.
unfoldable pub left_multi : HelloWorld → Left
left_multi s = on_own_server s

unfoldable pub left_rpc : HelloWorld → Left
left_rpc s = on_their_server s
