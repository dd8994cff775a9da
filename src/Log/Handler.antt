-- ===== src/Log/Handler.antt =====
-- log/handler.go and log/option.go: the handler that writes lines to two streams, and its options.
pub mod Format
use Prim.Native.String.{◌++◌}
use rxd.Base.{String, Bool, true, false, not, Option, none, some, List, [], ◌∷◌, ltb, if◌then◌else◌}
use rxd.Log.Level.{Level, notice, level_string}
use rxd.Log.Field.{Field}
use rxd.Log.Text.{replace_once}

-- An io.Writer: the process's two, or one of the caller's.
pub data Writer : Type 0 where
  os_stdout os_stderr : Writer
  other_writer : String → Writer

-- A nil writer is `none`. The two mutexes are left out: a message is one Write.
pub record Handler : Type 0 where
  pub stdout : Option Writer
  pub stderr : Option Writer
  pub disabled : Bool
  pub msgfmt : String
  pub timefmt : String

abbrev pub HandlerOption : Type 0
HandlerOption = Handler → Handler

abbrev pub rfc3339 : String
rfc3339 = "2006-01-02T15:04:05Z07:00"

abbrev default_handler : Handler
default_handler = record {
  stdout = some os_stdout;
  stderr = some os_stderr;
  disabled = false;
  msgfmt = "{time} [{level}] {message}";
  timefmt = rfc3339;
}

abbrev pub apply_options {ℓ} : {A : Type ℓ} → List (A → A) → A → A
apply_options [] a = a
apply_options (option ∷ options) a = apply_options options (option a)

unfoldable pub new_handler : List HandlerOption → Handler
new_handler options = apply_options options default_handler

-- What a call does: nothing, one Write, or the panic of a method call on a nil interface.
pub data Output : Type 0 where
  silent : Output
  writes : Writer → String → Output
  nil_writer : Output

abbrev pub write_out : Option Writer → String → Output
write_out none out = nil_writer
write_out (some w) out = writes w (out ++ "\n")

unfoldable pub fields_text : List Field → String
fields_text [] = ""
fields_text (f ∷ fields) = " " ++ (f.key ++ ("=" ++ (f.value ++ fields_text fields)))

unfoldable pub message_text : String → String → Level → String → String
message_text msgfmt time level message =
    replace_once (replace_once (replace_once msgfmt "{time}" time) "{level}" (level_string level))
      "{message}" message

-- `clock` gives the present time in a layout.
unfoldable pub handle : (String → String) → Handler → Level → String → List Field → Output
handle clock h level message fields =
    if h.disabled
    then silent
    else write_out (if ltb level notice then h.stderr else h.stdout)
        (message_text h.msgfmt (clock h.timefmt) level message ++ fields_text fields)

-- Each writer is stored as it is given: the assignment of the default is written over, and it
-- stands under the test that the writer is not nil.
abbrev default_unless_nil : Option Writer → Writer → Option Writer → Option Writer
default_unless_nil none default old = old
default_unless_nil (some w) default old = some default

unfoldable pub with_writers : Option Writer → Option Writer → HandlerOption
with_writers stdout stderr h =
    let h' = record h {
      stdout = default_unless_nil stdout os_stdout h.stdout;
      stderr = default_unless_nil stderr os_stderr h.stderr;
    } in
    record h' { stdout = stdout; stderr = stderr }

unfoldable pub with_std_out_writer : Option Writer → HandlerOption
with_std_out_writer stdout h =
    let h' = record h { stdout = default_unless_nil stdout os_stdout h.stdout } in
    record h' { stdout = stdout }

unfoldable pub with_std_err_writer : Option Writer → HandlerOption
with_std_err_writer stderr h =
    let h' = record h { stderr = default_unless_nil stderr os_stderr h.stderr } in
    record h' { stderr = stderr }

unfoldable pub with_message_format : String → HandlerOption
with_message_format format h = record h { msgfmt = format }

unfoldable pub with_time_format : String → HandlerOption
with_time_format format h = record h { timefmt = format }

unfoldable pub with_enabled : Bool → HandlerOption
with_enabled enabled h = record h { disabled = not enabled }
