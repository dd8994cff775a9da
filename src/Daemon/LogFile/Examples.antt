-- ===== src/Daemon/LogFile/Examples.antt =====
-- A log file of ten bytes, in runs.
use rxd.Base.{◌≤◌, ◌≡◌, refl, true, false, none, List, [], ◌∷◌, arith, String}
use rxd.Log.Level.{info, level_string}
use rxd.Log.Handler.{fields_text}
use rxd.Daemon.LogFile.{LogFile, Disk, Entry, handle_all}
use rxd.Daemon.LogFile.Bounds.{size, size-handle_all}
use rxd.Daemon.LogFile.Truncation.{Fine, whole_line, handle_all_past}

abbrev small_file : LogFile
small_file = record {
  enabled = true;
  filepath = "rxd.log";
  limit = 10;
  total = 0;
  opened = false;
  content = [];
}

abbrev fine_disk : Disk
fine_disk = record { opens = true; truncates = true; closes = true; short = none; time = "noon" }

abbrev entry : String → Entry
entry message = record { disk = fine_disk; level = info; message = message; fields = [] }

-- The lines "noon INFO: a" and "noon INFO: bcd", with their ends.
abbrev entries : List Entry
entries = entry "a" ∷ entry "bcd" ∷ []

size-handle_all_example : size (handle_all entries small_file).content ≤ 15
unfolding level_string fields_text
size-handle_all_example =
    size-handle_all small_file entries 15 refl (omega arith) (omega arith)
      (omega arith, (omega arith, tt))

fine_disk-Fine : Fine fine_disk
fine_disk-Fine = record { opens = refl; truncates = refl; whole = refl }

handle_all_past_example :
    (handle_all entries small_file).content ≡ whole_line "noon INFO: bcd\n" ∷ []
unfolding level_string fields_text
handle_all_past_example =
    handle_all_past small_file (entry "a") (entry "bcd" ∷ []) refl (omega arith) (omega arith)
      (fine_disk-Fine, (fine_disk-Fine, tt))
