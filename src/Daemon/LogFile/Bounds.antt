-- ===== src/Daemon/LogFile/Bounds.antt =====
-- daemon_log.go: the file's size, and what truncation leaves.
use Prim.Native.String.{len}
use rxd.Base.{
  ℕ, subst, ◌+◌, ◌%◌, ◌^◌, ◌≤◌, ◌<◌, ◌≡◌, sym, String, true, Option, none, some, List, [], ◌∷◌,
  ◌++◌, ltb, All, arith, Bool-cases, inl, inr, if-both, if-true, if-false,
}
use rxd.Daemon.LogFile.{
  Written, LogFile, Disk, taken, append_line, write_line, handle_file, Entry, line_of, handle_all,
}

abbrev pub size : List Written → ℕ
size [] = 0
size (w ∷ ws) = w.bytes + size ws

size-append : (ws : List Written) (w : Written) → size (ws ++ w ∷ []) ≡ size ws + w.bytes
size-append [] w = omega arith
size-append (v ∷ ws) w = omega (arith, size-append ws w)

-- The lengths of the lines of these calls.
abbrev pub lengths : List Entry → ℕ
lengths [] = 0
lengths (e ∷ es) = len (line_of e) + lengths es

taken-le : (short : Option ℕ) (n : ℕ) → taken short n ≤ n
taken-le none n = omega arith
taken-le (some k) n = ground arith

-- What the handler keeps over a file that held `held` bytes when it was made: the bound `most`, at
-- `room` more bytes to come.
record Fits (held most room : ℕ) (f : LogFile) : Type 0 where
  within : size f.content ≤ most
  counted : size f.content ≤ held + f.total
  fair : held + f.limit ≤ most
  no_wrap : f.total + room < 2 ^ 64

append_line-Fits :
    (held most room : ℕ) (disk : Disk) (line : String) (f : LogFile)
    → Fits held most (len line + room) f
    → size f.content + len line ≤ most
    → Fits held most room (append_line disk line f)
append_line-Fits held most room disk line f h le =
    let n = taken disk.short (len line) in
    let small = taken-le disk.short (len line) in
    let grown = size-append f.content (record { line = line; bytes = n }) in
    record {
      within = omega (arith, small, grown, le);
      counted = omega (arith, small, grown, h.counted, h.no_wrap);
      fair = h.fair;
      no_wrap = omega (arith, small, h.no_wrap);
    }

write_line-Fits :
    (held most room : ℕ) (disk : Disk) (line : String) (f : LogFile)
    → Fits held most (len line + room) f
    → len line ≤ most
    → Fits held most room (write_line disk line f)
write_line-Fits held most room disk line f h le =
    let kept : Fits held most room f = record {
      within = h.within;
      counted = h.counted;
      fair = h.fair;
      no_wrap = omega (arith, h.no_wrap);
    } in
    let cleared : Fits held most (len line + room) (record f { content = [] }) = record {
      within = omega arith;
      counted = omega arith;
      fair = h.fair;
      no_wrap = h.no_wrap;
    } in
    let over = ltb f.limit ((f.total + len line) % 2 ^ 64) in
    elim (Bool-cases over) [
      | inl y ↦ subst (Fits held most room) (sym (if-true over _ _ y)) (
          if-both (Fits held most room) disk.truncates _ _
            (append_line-Fits held most room disk line (record f { content = [] }) cleared
              (omega (arith, le)))
            kept)
      | inr y ↦ subst (Fits held most room) (sym (if-false over _ _ y)) (
          append_line-Fits held most room disk line f h
            (ground (arith, y, h.counted, h.fair, h.no_wrap)))
    ]

handle_file-Fits :
    (held most room : ℕ) (e : Entry) (f : LogFile)
    → Fits held most (len (line_of e) + room) f
    → len (line_of e) ≤ most
    → Fits held most room (handle_file e.disk e.level e.message e.fields f)
unfolding handle_file
handle_file-Fits held most room e f h le =
    let P = Fits held most room in
    if-both P f.enabled _ _
      (if-both P f.opened _ _ (write_line-Fits held most room e.disk (line_of e) f h le) (
        if-both P e.disk.opens _ _
          (write_line-Fits held most room e.disk (line_of e) (record f { opened = true })
            (record { within = h.within; counted = h.counted; fair = h.fair; no_wrap = h.no_wrap })
            le)
          (record {
            within = h.within;
            counted = h.counted;
            fair = h.fair;
            no_wrap = omega (arith, h.no_wrap);
          })))
      (record {
        within = h.within;
        counted = h.counted;
        fair = h.fair;
        no_wrap = omega (arith, h.no_wrap);
      })

handle_all-Fits :
    (held most : ℕ) (es : List Entry) (f : LogFile)
    → Fits held most (lengths es) f
    → All (λ e. len (line_of e) ≤ most) es
    → Fits held most 0 (handle_all es f)
unfolding handle_all
handle_all-Fits held most [] f h short = h
handle_all-Fits held most (e ∷ es) f h short =
    handle_all-Fits held most es (handle_file e.disk e.level e.message e.fields f)
      (handle_file-Fits held most (lengths es) e f h short.0) short.1

-- However the system answers, the log file never gets larger than what it held before and the
-- limit together, or than the longest single line if that is more, while the handler's byte count
-- of all the lines stays within uint64.
pub size-handle_all :
    (f : LogFile) (es : List Entry) (most : ℕ)
    → f.total ≡ 0
    → size f.content + f.limit ≤ most
    → lengths es < 2 ^ 64
    → All (λ e. len (line_of e) ≤ most) es
    → size (handle_all es f).content ≤ most
size-handle_all f es most fresh fair no_wrap short =
    (handle_all-Fits (size f.content) most es f
      (record {
        within = omega (arith, fair);
        counted = omega arith;
        fair = fair;
        no_wrap = omega (arith, fresh, no_wrap);
      })
      short).within
