-- ===== src/Log/Handler/Format.antt =====
-- log/handler.go: the lines of the default format.
use Prim.Native.String.{◌++◌}
use text.Mathlib.TextLemmas.{append-nil}
use rxd.Base.{
  String, true, some, List, ◌≡◌, refl, ap, ◌∙◌, ltb, ◌==◌, if◌then◌else◌, Bool-cases, inl, inr,
  if-both,
}
use rxd.Log.Level.{
  Level, level_string, notice, emergency, alert, critical, error, warning, info, debug,
}
use rxd.Log.Field.{Field}
use rxd.Log.Text.{replace_once, brace_free, replace_once-append, replace_once_here}
use rxd.Log.Handler.{
  os_stdout, os_stderr, new_handler, Output, writes, write_out, handle, message_text, fields_text,
}

level_string-brace_free : (l : Level) → brace_free (level_string l) ≡ true
unfolding level_string brace_free
level_string-brace_free l =
    let free = λ (t : String). brace_free t ≡ true in
    let step = λ (k : Level) (name other : String). if-both free (l == k) name other in
    step emergency _ _ refl (
      step alert _ _ refl (
        step critical _ _ refl (
          step error _ _ refl (
            step warning _ _ refl
              (step notice _ _ refl (step info _ _ refl (step debug _ _ refl refl)))))))

message_text_default :
    (time message : String) (level : Level)
    → brace_free time ≡ true
    → message_text "{time} [{level}] {message}" time level message
      ≡ time ++ (" [" ++ (level_string level ++ ("] " ++ message)))
unfolding message_text brace_free
message_text_default time message level h =
    let name = level_string level in
    let named = level_string-brace_free level in
    let finish = λ (t : String). replace_once t "{message}" message in
    let one = replace_once_here "{" "time}" " [{level}] {message}" time in
    let two =
      replace_once-append time " [{level}] {message}" "level}" name h
      ∙ ap (λ t. time ++ t)
          (replace_once-append " [" "{level}] {message}" "level}" name refl
            ∙ ap (λ t. " [" ++ t) (replace_once_here "{" "level}" "] {message}" name)) in
    let three =
      replace_once-append time (" [" ++ (name ++ "] {message}")) "message}" message h
      ∙ ap (λ t. time ++ t)
          (replace_once-append " [" (name ++ "] {message}") "message}" message refl
            ∙ ap (λ t. " [" ++ t)
                (replace_once-append name "] {message}" "message}" message named
                  ∙ ap (λ t. name ++ t)
                      (replace_once-append "] " "{message}" "message}" message refl
                        ∙ ap (λ t. "] " ++ t)
                            (replace_once_here "{" "message}" "" message ∙ append-nil message)))) in
    ap (λ t. finish (replace_once t "{level}" name)) one ∙ ap finish two ∙ three

-- With no option, and a clock whose text has no brace, a message is one line: the time, the level
-- in brackets, the message as it is given, even if it has braces, and the fields. It goes to
-- stderr if the level is below notice, and else to stdout.
pub handle_default :
    (clock : String → String) (level : Level) (message : String) (fields : List Field)
    → brace_free (clock "2006-01-02T15:04:05Z07:00") ≡ true
    → handle clock (new_handler List.[]) level message fields
      ≡ writes (if ltb level notice then os_stderr else os_stdout) (
          ((clock "2006-01-02T15:04:05Z07:00"
              ++ (" [" ++ (level_string level ++ ("] " ++ message))))
            ++ fields_text fields)
          ++ "\n")
unfolding handle new_handler
handle_default clock level message fields h =
    let out : String → Output = λ t.
      write_out (if ltb level notice then some os_stderr else some os_stdout)
        (t ++ fields_text fields) in
    ap out (message_text_default (clock "2006-01-02T15:04:05Z07:00") message level h)
    ∙ elim (Bool-cases (ltb level notice)) [ inl y ↦ rw y | inr y ↦ rw y ]
