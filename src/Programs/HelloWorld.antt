-- ===== src/Programs/HelloWorld.antt =====
-- The HelloWorldAPIService of examples/single_service, single_service_custom_manager and
-- multi_service. The HTTP server is there or nil; net/http is a parameter of the runs.
pub mod Multi
pub mod Methods
pub mod Served
use Prim.Native.String.{◌++◌}
use rxd.Base.{ℕ, ◌≡◌, String, Bool, true, false, Option, none, some, List, [], ◌∷◌, if◌then◌else◌}
use rxd.Errors.{GoError, plain, error_text, lifecycle_done}
use rxd.Log.Level.{Level, info, error}
use rxd.Manager.{Outcome, succeeds, panics, fails}

pub record HelloWorld : Type 0 where
  pub has_server : Bool

abbrev pub new_hello_world_service : HelloWorld
new_hello_world_service = record { has_server = false }

-- What a service logs: levels and messages.
abbrev pub Lines : Type 0
Lines = List (Level × String)

-- How a method ends, the service after it, and what it logs. `hangs`: it does not return. `leaves`:
-- it has ended, and a goroutine of it goes on.
pub data Finish : Type 0 where
  ends : Outcome → Finish
  hangs : Finish

pub record Call : Type 0 where
  pub finish : Finish
  pub service : HelloWorld
  pub lines : Lines
  pub leaves : Bool

abbrev pub call : Outcome → HelloWorld → Lines → Call
call o s lines = record { finish = ends o; service = s; lines = lines; leaves = false }

-- A Run whose server fails by itself returns before its goroutine.
abbrev pub leaving : Outcome → HelloWorld → Lines → Call
leaving o s lines = record { finish = ends o; service = s; lines = lines; leaves = true }

-- Init of the two single-service programs.
unfoldable pub init_hello : HelloWorld → Call
init_hello s =
    if s.has_server
    then call (fails (plain "server already initialized")) s
        ((info, "entering init") ∷ (info, "server already initialized") ∷ [])
    else call succeeds (record { has_server = true }) ((info, "entering init") ∷ [])

-- Init of multi_service, which replaces the server.
unfoldable pub init_multi : HelloWorld → Call
init_multi s = call succeeds (record { has_server = true }) ((info, "initializing") ∷ [])

unfoldable pub idle_hello : HelloWorld → Call
idle_hello s = call succeeds s ((info, "entering idle") ∷ [])

unfoldable pub stop_hello : HelloWorld → Call
stop_hello s = call succeeds (record { has_server = false }) ((info, "entering stop") ∷ [])

-- What happens while Run runs: whether the server fails by itself, or else what its goroutine
-- receives first, and what Shutdown then returns.
pub data Serving : Type 0 where
  breaks : String → Serving
  cancelled : Option GoError → Serving
  times_out : Option GoError → Serving

abbrev pub shut_down_lines : Option GoError → Lines
shut_down_lines none = (info, "server shutdown") ∷ []
shut_down_lines (some e) = (error, "error shutting down server: " ++ error_text e) ∷ []

abbrev stopped : Lines
stopped = (info, "server stopped") ∷ []

abbrev starting : Lines
starting = (info, "server starting with address: :8000") ∷ []

abbrev pub also : Lines → Lines → Lines
also [] more = more
also (l ∷ lines) more = l ∷ also lines more

abbrev timeout : Lines
timeout = (error, "timeout waiting for context to close") ∷ []

-- Run of single_service. The goroutine returns at a cancellation without a Shutdown, so that
-- ListenAndServe goes on.
abbrev served_single : HelloWorld → Serving → Call
served_single s (breaks e) = leaving (fails (plain ("server shutdown: " ++ e))) s starting
served_single s (cancelled shut) = record {
  finish = hangs;
  service = s;
  lines = starting;
  leaves = false;
}
served_single s (times_out shut) =
    call (fails lifecycle_done) s
      (also starting (also timeout (also (shut_down_lines shut) stopped)))

abbrev pub on_server : HelloWorld → Call → Call
on_server s served =
    if s.has_server
    then served
    else call (panics "invalid memory address or nil pointer dereference") s []

unfoldable pub run_single : HelloWorld → Serving → Call
run_single s serving = on_server s (served_single s serving)

-- Run of the program with the custom manager, which shuts the server down in both cases.
abbrev served_custom : HelloWorld → Serving → Call
served_custom s (breaks e) = leaving (fails (plain ("server shutdown: " ++ e))) s starting
served_custom s (cancelled shut) =
    call succeeds s (also starting (also (shut_down_lines shut) stopped))
served_custom s (times_out shut) =
    call succeeds s (also starting (also timeout (also (shut_down_lines shut) stopped)))

unfoldable pub run_custom : HelloWorld → Serving → Call
run_custom s serving = on_server s (served_custom s serving)

-- What a goroutine that a Run has left behind does when it wakes up: that of single_service, which
-- was given its server, shuts that one down or returns; that of the program with the custom manager
-- shuts down the server that the service then has, and without one it panics, which nothing
-- recovers.
pub data Left : Type 0 where
  goes_quietly crashes : Left

abbrev pub on_own_server : HelloWorld → Left
on_own_server s = goes_quietly

abbrev pub on_their_server : HelloWorld → Left
on_their_server s = if s.has_server then goes_quietly else crashes

unfoldable pub left_single : HelloWorld → Left
left_single s = on_own_server s

unfoldable pub left_custom : HelloWorld → Left
left_custom s = on_their_server s
