-- ===== src/Log/Examples.antt =====
-- Loggers and handlers at work.
use rxd.Base.{ℕ, ◌+◌, ◌≡◌, refl, String, [], ◌==◌, if◌then◌else◌, ◌∷◌, arith}
use rxd.Log.Level.{info, debug, error, level_string}
use rxd.Log.Level.Parse.{level_from_string, level_from_string-level_string}
use rxd.Log.Field.{Field, string_field}
use rxd.Log.Handler.{new_handler, handle, writes, os_stdout, fields_text}
use rxd.Log.Text.{brace_free}
use rxd.Log.Handler.Format.{handle_default}
use rxd.Log.Logger.{
  Store, Logger, new_logger, with_fields, log_message, set_level, passed, handler_of, fields_of,
}
use rxd.Log.Logger.Append.{Grows}
use rxd.Log.Logger.Sound.{IsStore, Reached, starts, creates, extends, Reached-IsStore}
use rxd.Log.Logger.Levels.{log_message-set_level}
use rxd.Log.Logger.Fields.{log_message-with_fields, siblings_overwrite}

abbrev no_logger : Logger ℕ
no_logger = record { handler = 0; fields = record { array = 0; len = 0; cap = 0 }; level = 0 }

abbrev empty : Store ℕ
empty = record {
  levels = λ p. 0;
  arrays = λ p. [];
  loggers = λ p. no_logger;
  next_level = 0;
  next_array = 0;
  next_logger = 0;
}

-- A runtime that allots two places more than are needed.
abbrev roomy : ℕ → ℕ → ℕ
roomy cap needed = needed + 2

roomy-Grows : Grows roomy
roomy-Grows cap needed = omega arith

abbrev user : Field
user = string_field "user" "ann"

abbrev one_logger : Store ℕ
one_logger = (new_logger info 7 empty).1

-- The logger at 0 and, made from it, the one at 1, which has a field and room for two.
abbrev two_loggers : Store ℕ
two_loggers = (with_fields roomy one_logger 0 (user ∷ [])).1

one_logger-Reached : Reached roomy one_logger
one_logger-Reached = creates info 7 (starts refl)

two_loggers-Reached : Reached roomy two_loggers
unfolding new_logger
two_loggers-Reached = extends 0 (user ∷ []) (omega arith) one_logger-Reached

two-next : two_loggers.next_logger ≡ 2
unfolding new_logger with_fields
two-next = refl

two_loggers-IsStore : IsStore two_loggers
two_loggers-IsStore = Reached-IsStore roomy two_loggers roomy-Grows two_loggers-Reached

log_message-set_level_example : log_message (set_level two_loggers 0 error) 1 info "hello" [] ≡ (
    if 0 == 1
    then passed error (handler_of two_loggers 0) (fields_of two_loggers 0) info "hello" []
    else log_message two_loggers 1 info "hello" [])
log_message-set_level_example =
    log_message-set_level two_loggers 0 1 error info "hello" [] two_loggers-IsStore
      (omega (arith, two-next)) (omega (arith, two-next))

log_message-with_fields_example :
    (let (made, after) = with_fields roomy two_loggers 1 (user ∷ []) in
      log_message after made info "hello" [])
    ≡ log_message two_loggers 1 info "hello" (user ∷ [])
log_message-with_fields_example =
    log_message-with_fields roomy two_loggers 1 (user ∷ []) info "hello" [] roomy-Grows
      two_loggers-IsStore (omega (arith, two-next))

siblings_overwrite_example :
    (let (first, one) = with_fields roomy two_loggers 1 (string_field "id" "1" ∷ []) in
      let (second, both) = with_fields roomy one 1 (string_field "id" "2" ∷ []) in
      log_message both first info "hello" [])
    ≡ log_message two_loggers 1 info "hello" (string_field "id" "2" ∷ [])
unfolding with_fields new_logger
siblings_overwrite_example =
    siblings_overwrite roomy two_loggers 1 (string_field "id" "1" ∷ []) (string_field "id" "2" ∷ [])
      info "hello" [] roomy-Grows two_loggers-IsStore (omega (arith, two-next)) refl refl

abbrev noon : String → String
noon layout = "12:00"

handle_default_example :
    handle noon (new_handler []) info "no {time}" (user ∷ [])
    ≡ writes os_stdout "12:00 [INFO] no {time} user=ann\n"
unfolding level_string fields_text brace_free
handle_default_example = handle_default noon info "no {time}" (user ∷ []) refl

level_from_string-level_string_example : level_from_string "Debug" ≡ debug
unfolding level_string
level_from_string-level_string_example = level_from_string-level_string debug "Debug" refl
