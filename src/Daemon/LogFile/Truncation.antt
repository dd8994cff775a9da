-- ===== src/Daemon/LogFile/Truncation.antt =====
-- daemon_log.go: what truncation leaves in the file, and messages after Close.
use Prim.Native.String.{len}
use rxd.Base.{
  ℕ, ◌+◌, ◌%◌, ◌^◌, ◌<◌, ◌≡◌, ap, sym, ◌∙◌, String, Bool, true, none, List, [], ◌∷◌, ltb, All,
  arith, last_or, if-true, if-false, if-both, subst, Bool-cases, inl, inr, false,
}
use rxd.Log.Level.{Level}
use rxd.Log.Field.{Field}
use rxd.Daemon.LogFile.{
  Written, LogFile, Disk, line_text, taken, write_line, handle_file, close_file, Entry, line_of,
  handle_all,
}
use rxd.Daemon.LogFile.Bounds.{lengths}

-- A call in which the system does all that it is asked.
pub record Fine (disk : Disk) : Type 0 where
  pub opens : disk.opens ≡ true
  pub truncates : disk.truncates ≡ true
  pub whole : disk.short ≡ none

abbrev pub whole_line : String → Written
whole_line line = record { line = line; bytes = len line }

-- The file has this line alone, and the next line will replace it.
record Only (line : String) (room : ℕ) (f : LogFile) : Type 0 where
  enabled : f.enabled ≡ true
  content : f.content ≡ whole_line line ∷ []
  over : f.limit < f.total
  no_wrap : f.total + room < 2 ^ 64

write_line-Only :
    (disk : Disk) (line : String) (room : ℕ) (f : LogFile)
    → Fine disk
    → f.enabled ≡ true
    → f.limit < f.total + len line
    → f.total + (len line + room) < 2 ^ 64
    → Only line room (write_line disk line f)
write_line-Only disk line room f fine on over no_wrap =
    let all = ap (λ s. taken s (len line)) fine.whole in
    let past = ltb f.limit ((f.total + len line) % 2 ^ 64) in
    subst (Only line room)
      (sym (
        if-true past _ _ (ground (arith, over, no_wrap))
        ∙ if-true disk.truncates _ _ fine.truncates))
      (record {
        enabled = on;
        content = ap (λ n. let w : Written = record { line = line; bytes = n } in w ∷ []) all;
        over = omega (arith, all, over, no_wrap);
        no_wrap = omega (arith, all, no_wrap);
      })

handle_file-Only :
    (e : Entry) (room : ℕ) (f : LogFile)
    → Fine e.disk
    → f.enabled ≡ true
    → f.limit < f.total + len (line_of e)
    → f.total + (len (line_of e) + room) < 2 ^ 64
    → Only (line_of e) room (handle_file e.disk e.level e.message e.fields f)
unfolding handle_file
handle_file-Only e room f fine on over no_wrap =
    let P = Only (line_of e) room in
    subst P (sym (if-true f.enabled _ _ on)) (
      if-both P f.opened _ _ (write_line-Only e.disk (line_of e) room f fine on over no_wrap) (
        subst P (sym (if-true e.disk.opens _ _ fine.opens)) (
          write_line-Only e.disk (line_of e) room (record f { opened = true }) fine on over
            no_wrap)))

handle_all-Only :
    (e : Entry) (es : List Entry) (f : LogFile)
    → Only (line_of e) (lengths es) f
    → All (λ d. Fine d.disk) es
    → Only (line_of (last_or e es)) 0 (handle_all es f)
unfolding handle_all
handle_all-Only e [] f h fine = h
handle_all-Only e (d ∷ es) f h fine =
    handle_all-Only d es (handle_file d.disk d.level d.message d.fields f)
      (handle_file-Only d (lengths es) f fine.0 h.enabled (omega (arith, h.over)) h.no_wrap) fine.1

-- From the first message on that would take the byte count past the limit, if the system does all
-- that it is asked and the count stays within uint64, the file holds the latest message alone: the
-- count is not reset, so that each later message truncates the file as well.
pub handle_all_past :
    (f : LogFile) (e : Entry) (es : List Entry)
    → f.enabled ≡ true
    → f.limit < f.total + len (line_of e)
    → f.total + lengths (e ∷ es) < 2 ^ 64
    → All (λ d. Fine d.disk) (e ∷ es)
    → (handle_all (e ∷ es) f).content ≡ whole_line (line_of (last_or e es)) ∷ []
unfolding handle_all
handle_all_past f e es on over no_wrap fine =
    (handle_all-Only e es (handle_file e.disk e.level e.message e.fields f)
      (handle_file-Only e (lengths es) f fine.0 on over no_wrap) fine.1).content

-- A message after a Close that succeeded is written like one without the Close, if logging is
-- enabled and the file opens again.
handle_file-close_file :
    (closing disk : Disk) (level : Level) (message : String) (fields : List Field) (f : LogFile)
    → f.enabled ≡ true
    → closing.closes ≡ true
    → disk.opens ≡ true
    → ((close_file closing f).0 ≡ true)
      × (handle_file disk level message fields (close_file closing f).1
          ≡ handle_file disk level message fields f)
unfolding handle_file close_file
handle_file-close_file closing disk level message fields f on h k =
    let line = line_text disk.time level message fields in
    let after = λ (g : LogFile). handle_file disk level message fields g in
    elim (Bool-cases f.opened) [
      | inl y ↦
          let closed : close_file closing f ≡ (true, record f { opened = false }) =
            if-true f.opened _ _ y ∙ if-true closing.closes _ _ h in
          (
            ap {A = Bool × LogFile} (λ r. r.0) closed,
            ap {A = Bool × LogFile} (λ r. after r.1) closed
                ∙ if-true f.enabled _ _ on
                ∙ if-true disk.opens _ _ k
                ∙ ap (λ b. write_line disk line (record f { opened = b })) (sym y)
                ∙ sym (if-true f.enabled _ _ on ∙ if-true f.opened _ _ y),
          )
      | inr y ↦
          let closed : close_file closing f ≡ (true, f) = if-false f.opened _ _ y in
          (
            ap {A = Bool × LogFile} (λ r. r.0) closed,
            ap {A = Bool × LogFile} (λ r. after r.1) closed,
          )
    ]
