-- ===== src/Log/Journald.antt =====
-- log/journald: the handler for journald, and its option.
use Prim.Native.String.{◌++◌}
use mathlib.Core.Logic.{◌↔◌}
use rxd.Base.{
  String, Bool, false, Option, none, some, List, [], ◌∷◌, map, ltb, if◌then◌else◌, ◌≡◌, ◌≢◌, refl,
  arith,
}
use rxd.Log.Level.{Level, warning, level_string}
use rxd.Log.Field.{Field}
use rxd.Log.Text.{decimal}
use rxd.Log.Handler.{
  Writer, os_stdout, os_stderr, Output, writes, silent, nil_writer, apply_options, fields_text,
  new_handler, handle,
}

-- The two streams have no option, and are never nil.
pub record JournaldHandler : Type 0 where
  pub severity_prefix : Bool
  pub stdout : Writer
  pub stderr : Writer

abbrev default_journald : JournaldHandler
default_journald = record { severity_prefix = false; stdout = os_stdout; stderr = os_stderr }

unfoldable pub new_journald_handler : List (JournaldHandler → JournaldHandler) → JournaldHandler
new_journald_handler options = apply_options options default_journald

unfoldable pub with_severity_prefix : Bool → JournaldHandler → JournaldHandler
with_severity_prefix enabled h = record h { severity_prefix = enabled }

unfoldable pub journald_text : Bool → Level → String → List Field → String
journald_text severity_prefix level message fields =
    (if severity_prefix then "<" ++ (decimal level ++ ">") else "")
    ++ ("[" ++ (level_string level ++ ("] " ++ (message ++ fields_text fields))))

unfoldable pub handle_journald : JournaldHandler → Level → String → List Field → Output
handle_journald h level message fields =
    writes (if ltb level warning then h.stderr else h.stdout)
      (journald_text h.severity_prefix level message fields ++ "\n")

-- Where a call writes to.
abbrev pub stream : Output → Option Writer
stream silent = none
stream (writes w line) = some w
stream nil_writer = none

apply-severity_prefix :
    (enabled : List Bool) (h : JournaldHandler)
    → (let g = apply_options (map with_severity_prefix enabled) h in
        (g.stdout ≡ h.stdout) × (g.stderr ≡ h.stderr))
unfolding with_severity_prefix
apply-severity_prefix [] h = (refl, refl)
apply-severity_prefix (b ∷ enabled) h = apply-severity_prefix enabled (with_severity_prefix b h)

-- With their default writers, and any severity prefix, the two handlers of the repository write a
-- message to the same stream if its level is not warning. A warning goes to stderr by the default
-- handler and to stdout by that for journald.
pub streams_agree_iff :
    (clock : String → String) (enabled : List Bool) (level : Level) (message : String)
    (fields : List Field)
    → (stream (handle clock (new_handler []) level message fields)
        ≡ stream (
            handle_journald
              (new_journald_handler (map with_severity_prefix enabled))
              level
              message
              fields))
      ↔ (level ≢ warning)
unfolding handle new_handler handle_journald new_journald_handler
streams_agree_iff clock enabled level message fields =
    let ends = apply-severity_prefix enabled default_journald in ground (arith, ends.0, ends.1)
