-- ===== src/Daemon/LogFile.antt =====
-- daemon_log.go: the handler that writes the daemon's own log to a file of limited size.
pub mod Bounds
pub mod Truncation
mod Examples
use Prim.Native.String.{◌++◌, len}
use rxd.Base.{
  ℕ, ◌+◌, ◌*◌, ◌%◌, ◌^◌, String, Bool, true, false, Option, none, some, List, [], ◌∷◌, snoc, leb,
  ltb, if◌then◌else◌,
}
use rxd.Log.Level.{Level, level_string}
use rxd.Log.Field.{Field}
use rxd.Log.Handler.{fields_text}

-- A message in the file, and how many of its bytes were written.
pub record Written : Type 0 where
  pub line : String
  pub bytes : ℕ

-- The handler, and in `content` what the file at its path holds. `opened` is whether the handler's
-- file is not nil. The mutex is left out: Handle and Close hold it.
pub record LogFile : Type 0 where
  pub enabled : Bool
  pub filepath : String
  pub limit : ℕ
  pub total : ℕ
  pub opened : Bool
  pub content : List Written

-- How the system answers in one call: whether opening, truncating and closing succeed, what a
-- write takes (`none` is all of it, else it fails after so many bytes), and the present time.
pub record Disk : Type 0 where
  pub opens : Bool
  pub truncates : Bool
  pub closes : Bool
  pub short : Option ℕ
  pub time : String

abbrev pub line_text : String → Level → String → List Field → String
line_text time level message fields =
    (time ++ " ") ++ ((level_string level ++ ": ") ++ (message ++ (fields_text fields ++ "\n")))

-- Write returns at most the length of what it is given.
abbrev pub taken : Option ℕ → ℕ → ℕ
taken none n = n
taken (some k) n = if leb k n then k else n

abbrev pub append_line : Disk → String → LogFile → LogFile
append_line disk line f =
    let n = taken disk.short (len line) in
    record f {
      content = snoc f.content (record { line = line; bytes = n });
      total = (f.total + n) % 2 ^ 64;
    }

-- `total` is a uint64, and stays as it is when the file is truncated.
abbrev pub write_line : Disk → String → LogFile → LogFile
write_line disk line f =
    if ltb f.limit ((f.total + len line) % 2 ^ 64)
    then if disk.truncates then append_line disk line (record f { content = [] }) else f
    else append_line disk line f

unfoldable pub handle_file : Disk → Level → String → List Field → LogFile → LogFile
handle_file disk level message fields f =
    let line = line_text disk.time level message fields in
    if f.enabled
    then if f.opened
      then write_line disk line f
      else if disk.opens
      then write_line disk line (record f { opened = true })
      else record f { enabled = false }
    else f

-- Whether it returns no error, and the handler after it.
unfoldable pub close_file : Disk → LogFile → Bool × LogFile
close_file disk f =
    if f.opened
    then if disk.closes then (true, record f { opened = false }) else (false, f)
    else (true, f)

-- What WithInternalLogging makes, over a file that holds `content`, and what NewDaemon makes.
unfoldable pub internal_log_file : String → List Written → LogFile
internal_log_file filepath content = record {
  enabled = true;
  filepath = filepath;
  limit = 10 * 1024 * 1024;
  total = 0;
  opened = false;
  content = content;
}

unfoldable pub default_log_file : List Written → LogFile
default_log_file content = record {
  enabled = false;
  filepath = "rxd.log";
  limit = 10 * 1024 * 1024;
  total = 0;
  opened = false;
  content = content;
}

-- Calls of Handle, one after another.
pub record Entry : Type 0 where
  pub disk : Disk
  pub level : Level
  pub message : String
  pub fields : List Field

abbrev pub line_of : Entry → String
line_of e = line_text e.disk.time e.level e.message e.fields

unfoldable pub handle_all : List Entry → LogFile → LogFile
handle_all [] f = f
handle_all (e ∷ es) f = handle_all es (handle_file e.disk e.level e.message e.fields f)
