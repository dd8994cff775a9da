-- ===== src/Log/Text.antt =====
-- What package log uses of strings and strconv: replacing the first occurrence, and decimal text.
use Prim.Native.Char.{Char, code}
use Prim.Native.Nat.{◌/◌}
use Prim.Native.String.{String, [], ◌∷◌, ◌++◌, len, slice}
use text.Mathlib.Text.{starts_with}
use text.Mathlib.TextEquality.{starts_with_iff}
use text.Mathlib.TextLemmas.{nil-append, cons-append, cons-eq-cons, append-nil, append_assoc}
use text.Mathlib.TextPositions.{len-append, slice-append_right, starts_with-append}
use rxd.Base.{
  ℕ, zero, suc, lt→ltb, ◌+◌, ◌%◌, ◌≤◌, ◌≡◌, refl, sym, ap, ◌∙◌, Bool, true, false, not, ◌&&◌, ltb,
  ◌==◌, if◌then◌else◌, arith, Bool-cases, inl, inr, if-true, if-false,
}

-- strings.Replace with a count of 1.
unfoldable pub replace_once : String → String → String → String
replace_once [] old new = if starts_with [] old then new else []
replace_once (c ∷ s) old new =
    if starts_with (c ∷ s) old
    then new ++ slice (c ∷ s) (len old) (len (c ∷ s))
    else c ∷ replace_once s old new

abbrev pub brace : Char
brace = "{"

unfoldable pub brace_free : String → Bool
brace_free [] = true
brace_free (c ∷ s) = not (code c == code brace) && brace_free s

brace_first :
    (c : Char) (s p : String)
    → (code c == code brace) ≡ false
    → starts_with (c ∷ s) (brace ∷ p) ≡ false
brace_first c s p h = elim (Bool-cases (starts_with (c ∷ s) (brace ∷ p))) [
  | inl y ↦
      let (u, e) = (starts_with_iff (c ∷ s) (brace ∷ p)).0 y in
      let same : brace ≡ c = (cons-eq-cons.0 (sym (cons-append brace p u) ∙ e)).0 in
      absurd (ground (arith, ap code same, h))
  | inr y ↦ y
]

-- A placeholder, which begins with a brace, is not found before one.
pub replace_once-append :
    (s rest p new : String)
    → brace_free s ≡ true
    → replace_once (s ++ rest) (brace ∷ p) new ≡ s ++ replace_once rest (brace ∷ p) new
unfolding replace_once brace_free
replace_once-append [] rest p new h =
    ap (λ t. replace_once t (brace ∷ p) new) (nil-append rest)
    ∙ sym (nil-append (replace_once rest (brace ∷ p) new))
replace_once-append (c ∷ s) rest p new h =
    ap (λ t. replace_once t (brace ∷ p) new) (cons-append c s rest)
    ∙ if-false (starts_with (c ∷ (s ++ rest)) (brace ∷ p)) _ _
        (brace_first c (s ++ rest) p (ground (arith, h)))
    ∙ ap (λ t. c ∷ t) (replace_once-append s rest p new (ground (arith, h)))
    ∙ sym (cons-append c s (replace_once rest (brace ∷ p) new))

pub replace_once_here :
    (c : Char) (p rest new : String) → replace_once ((c ∷ p) ++ rest) (c ∷ p) new ≡ new ++ rest
unfolding replace_once
replace_once_here c p rest new =
    let whole : String = c ∷ (p ++ rest) in
    let split = cons-append c p rest in
    ap (λ t. replace_once t (c ∷ p) new) split
    ∙ if-true (starts_with whole (c ∷ p)) _ _
        (ap (λ t. starts_with t (c ∷ p)) (sym split) ∙ starts_with-append (c ∷ p) rest)
    ∙ ap (λ t. new ++ slice t (len (c ∷ p)) (len t)) (sym split)
    ∙ ap (λ n. new ++ slice ((c ∷ p) ++ rest) (len (c ∷ p)) n) (len-append (c ∷ p) rest)
    ∙ ap (λ t. new ++ t) (slice-append_right (c ∷ p) rest)

pub digit : ℕ → String
digit d = slice "0123456789" d (d + 1)

unfoldable digits : ℕ → ℕ → String → String
unfolding digit
digits zero n out = out
digits (suc fuel) n out =
    let more = digits fuel (n / 10) (digit (n % 10) ++ out) in
    if ltb n 10 then digit n ++ out else more

-- strconv.Itoa on the numbers from 0 on. A round divides by ten, so that n rounds are enough.
unfoldable pub decimal : ℕ → String
unfolding digits
decimal n = digits (suc n) n ""

digits_enough :
    (f g n : ℕ) (out : String) → n ≤ f → n ≤ g → digits (suc f) n out ≡ digits (suc g) n out
unfolding digits
digits_enough zero g n out hf hg = rw (lt→ltb n 10 (omega (arith, hf)))
digits_enough (suc f) zero n out hf hg = rw (lt→ltb n 10 (omega (arith, hg)))
digits_enough (suc f) (suc g) n out hf hg = elim (Bool-cases (ltb n 10)) [
  | inl y ↦ rw y
  | inr y ↦
      if-false (ltb n 10) _ _ y
      ∙ digits_enough f g (n / 10) (digit (n % 10) ++ out) (ground (arith, y, hf))
          (ground (arith, y, hg))
      ∙ sym (if-false (ltb n 10) _ _ y)
]

digits-append : (f n : ℕ) (out rest : String) → digits f n (out ++ rest) ≡ digits f n out ++ rest
unfolding digits
digits-append zero n out rest = refl
digits-append (suc f) n out rest = elim (Bool-cases (ltb n 10)) [
  | inl y ↦ rw y (sym (append_assoc (digit n) out rest))
  | inr y ↦ rw y (
      ap (digits f (n / 10)) (sym (append_assoc (digit (n % 10)) out rest))
      ∙ digits-append f (n / 10) (digit (n % 10) ++ out) rest)
]

-- A number's text is that of its tenth and its last digit.
pub decimal_last :
    (n : ℕ) → decimal n ≡ (if ltb n 10 then digit n else decimal (n / 10) ++ digit (n % 10))
unfolding decimal digits
decimal_last zero = refl
decimal_last (suc m) = elim (Bool-cases (ltb (suc m) 10)) [
  | inl y ↦
      if-true (ltb (suc m) 10) _ _ y
      ∙ append-nil (digit (suc m))
      ∙ sym (if-true (ltb (suc m) 10) _ _ y)
  | inr y ↦
      if-false (ltb (suc m) 10) _ _ y
      ∙ digits_enough m (suc m / 10) (suc m / 10) _ (ground (arith, y)) (omega arith)
      ∙ ap (digits (suc (suc m / 10)) (suc m / 10))
          (append-nil (digit (suc m % 10)) ∙ sym (nil-append (digit (suc m % 10))))
      ∙ digits-append (suc (suc m / 10)) (suc m / 10) "" (digit (suc m % 10))
      ∙ sym (if-false (ltb (suc m) 10) _ _ y)
]

decimal_example : decimal 1337 ≡ "1337"
unfolding decimal digit
decimal_example = refl
