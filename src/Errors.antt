-- ===== src/Errors.antt =====
-- errors.go: the package's error constants and the test for a cancellation.
use rxd.Base.{Bool, true, false, ◌||◌, String, str_eq}

-- The values behind Go's `error` that the code tells apart: a constant of type rxd.Error by its
-- text, the two errors of package context, an error by its text, and an error that wraps another.
pub data GoError : Type 0 where
  constant : String → GoError
  canceled deadline_exceeded : GoError
  plain : String → GoError
  wraps : String → GoError → GoError

abbrev pub lifecycle_done : GoError
lifecycle_done = constant "lifecycle done"

abbrev pub daemon_started : GoError
daemon_started = constant "daemon has already been started"

abbrev pub no_services : GoError
no_services = constant "no services to run"

abbrev pub no_service_name : GoError
no_service_name = constant "no service name provided"

abbrev pub adding_service_once_started : GoError
adding_service_once_started = constant "cannot add a service once the daemon is started"

-- What Error() returns.
unfoldable pub error_text : GoError → String
error_text (constant s) = s
error_text canceled = "context canceled"
error_text deadline_exceeded = "context deadline exceeded"
error_text (plain s) = s
error_text (wraps s e) = s

-- errors.Is against context.Canceled or context.DeadlineExceeded, which looks through wrapping.
is_context_error : GoError → Bool
is_context_error (constant s) = false
is_context_error canceled = true
is_context_error deadline_exceeded = true
is_context_error (plain s) = false
is_context_error (wraps s e) = is_context_error e

-- `err == ErrLifecycleDone`: the comparison does not look through wrapping.
is_lifecycle_done : GoError → Bool
is_lifecycle_done (constant s) = str_eq s "lifecycle done"
is_lifecycle_done e = false

unfoldable pub is_cancelled : GoError → Bool
unfolding is_context_error is_lifecycle_done
is_cancelled e = is_lifecycle_done e || is_context_error e
