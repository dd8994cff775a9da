-- ===== src/Log/Level/Parse.antt =====
-- log/log.go: LevelFromString.
use Prim.Native.Char.{code}
use rxd.Base.{
  ℕ, zero, suc, ◌-◌, ◌≤◌, ◌≡◌, refl, ap, sym, if-false, if-both, ◌∙◌, String, List, [], ◌∷◌, map,
  Bool, true, false, ◌&&◌, leb, ltb, ◌==◌, if◌then◌else◌, arith,
}
use rxd.Log.Level.{
  Level, level_string, emergency, alert, critical, error, warning, notice, info, debug,
}

-- The code points of a text.
abbrev codes : String → List ℕ
codes String.[] = []
codes (String.◌∷◌ c s) = code c ∷ codes s

-- strings.ToUpper where its result can be compared with an ASCII name: besides the small letters,
-- the dotless i and the long s become ASCII letters. No other character does, and these stand for
-- themselves here.
abbrev upper : ℕ → ℕ
upper c =
    if leb b'a' c && leb c b'z'
    then c - 32
    else if c == 0x131
    then b'I'
    else if c == 0x17f
    then b'S'
    else c

abbrev same_codes : List ℕ → List ℕ → Bool
same_codes [] [] = true
same_codes [] (d ∷ ds) = false
same_codes (c ∷ cs) [] = false
same_codes (c ∷ cs) (d ∷ ds) = c == d && same_codes cs ds

-- The level that a text in upper case names.
abbrev named : List ℕ → Level
named u =
    if same_codes u (codes "EMERGENCY")
    then emergency
    else if same_codes u (codes "ALERT")
    then alert
    else if same_codes u (codes "CRITICAL")
    then critical
    else if same_codes u (codes "ERROR")
    then error
    else if same_codes u (codes "WARNING")
    then warning
    else if same_codes u (codes "NOTICE")
    then notice
    else if same_codes u (codes "INFO")
    then info
    else if same_codes u (codes "DEBUG")
    then debug
    else info

abbrev pub upper_codes : String → List ℕ
upper_codes s = map upper (codes s)

unfoldable pub level_from_string : String → Level
level_from_string s = named (upper_codes s)

-- What holds of the eight levels and of every number above them.
by_level :
    (P : Level → Type 0)
    → P emergency
    → P alert
    → P critical
    → P error
    → P warning
    → P notice
    → P info
    → P debug
    → ((l : Level) → 8 ≤ l → P l)
    → (l : Level) → P l
by_level P p0 p1 p2 p3 p4 p5 p6 p7 more zero = p0
by_level P p0 p1 p2 p3 p4 p5 p6 p7 more (suc zero) = p1
by_level P p0 p1 p2 p3 p4 p5 p6 p7 more (suc (suc zero)) = p2
by_level P p0 p1 p2 p3 p4 p5 p6 p7 more (suc (suc (suc zero))) = p3
by_level P p0 p1 p2 p3 p4 p5 p6 p7 more (suc (suc (suc (suc zero)))) = p4
by_level P p0 p1 p2 p3 p4 p5 p6 p7 more (suc (suc (suc (suc (suc zero))))) = p5
by_level P p0 p1 p2 p3 p4 p5 p6 p7 more (suc (suc (suc (suc (suc (suc zero)))))) = p6
by_level P p0 p1 p2 p3 p4 p5 p6 p7 more (suc (suc (suc (suc (suc (suc (suc zero))))))) = p7
by_level P p0 p1 p2 p3 p4 p5 p6 p7 more (suc (suc (suc (suc (suc (suc (suc (suc l)))))))) =
    more (suc (suc (suc (suc (suc (suc (suc (suc l)))))))) (omega arith)

level_string_above : (l : Level) → 8 ≤ l → level_string l ≡ "INFO"
unfolding level_string
level_string_above l h = ground (arith, h)

named-level_string : (l : Level) → named (codes (level_string l)) ≡ (if ltb l 8 then l else info)
unfolding level_string
named-level_string =
    by_level (λ l. named (codes (level_string l)) ≡ (if ltb l 8 then l else info)) refl refl refl
      refl refl refl refl refl
      (λ l h.
        ap (λ t. named (codes t)) (level_string_above l h)
        ∙ sym (if-false (ltb l 8) l info (ground (arith, h))))

-- Every spelling of a level's name that is the name in upper case is read as that level, and as
-- info for the name of a number that is no level.
pub level_from_string-level_string :
    (l : Level) (s : String)
    → upper_codes s ≡ codes (level_string l)
    → level_from_string s ≡ (if ltb l 8 then l else info)
unfolding level_from_string
level_from_string-level_string l s h = ap named h ∙ named-level_string l

pub level_from_string-le : (s : String) → level_from_string s ≤ debug
unfolding level_from_string
level_from_string-le s =
    let low = λ (l : Level). l ≤ debug in
    let step = λ (name : String) (l rest : Level).
      if-both low (same_codes (upper_codes s) (codes name)) l rest in
    step "EMERGENCY" _ _ (omega arith) (
      step "ALERT" _ _ (omega arith) (
        step "CRITICAL" _ _ (omega arith) (
          step "ERROR" _ _ (omega arith) (
            step "WARNING" _ _ (omega arith) (
              step "NOTICE" _ _ (omega arith)
                (step "INFO" _ _ (omega arith) (step "DEBUG" _ _ (omega arith) (omega arith))))))))
