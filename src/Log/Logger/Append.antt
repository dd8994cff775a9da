-- ===== src/Log/Logger/Append.antt =====
-- log/logger.go: what the built-in append promises of a slice and its array.
use rxd.Base.{
  ℕ, subst, refl, ◌+◌, ◌≤◌, ◌<◌, ◌≡◌, ◌≢◌, sym, ap, ◌∙◌, List, ◌++◌, length, take, drop, ◌==◌,
  arith, append_assoc, length-append, length-take, length-drop, take-append_all, take-append_le,
  take-take_le, if-true, if-false, Bool-cases, inl, inr, ◌⊎◌,
}
use rxd.Log.Field.{Field}
use rxd.Log.Logger.{
  Address, Slice, Store, contents, fits, written, grown, zero_fields, write, append_in_place,
  append_grown, append_fields,
}

-- The runtime gives at least the capacity that is needed.
abbrev pub Grows : (ℕ → ℕ → ℕ) → Type 0
Grows grow = (cap needed : ℕ) → needed ≤ grow cap needed

-- A slice lies within its array, which is in use.
pub record IsSlice (arrays : Address → List Field) (next : Address) (s : Slice) : Type 0 where
  pub in_use : s.array < next
  pub within : s.len ≤ s.cap
  pub full : length (arrays s.array) ≡ s.cap

pub length-zero_fields : (n : ℕ) → length (zero_fields n) ≡ n
length-zero_fields ℕ.zero = omega arith
length-zero_fields (ℕ.suc n) = omega (arith, length-zero_fields n)

-- Both appends hold the old content and `more`, and leave what lies before.
module _ (array : List Field) (n : ℕ) (more : List Field) (h : n ≤ length array) where
  take-front :
      (rest : List Field)
      → take (n + length more) (take n array ++ (more ++ rest)) ≡ take n array ++ more
  take-front rest =
      ap (λ k. take k (take n array ++ (more ++ rest)))
        (omega (arith, length-append (take n array) more, length-take n array h))
      ∙ ap (take (length (take n array ++ more))) (sym (append_assoc (take n array) more rest))
      ∙ take-append_all (take n array ++ more) rest

  pub take-written : take (n + length more) (written array n more) ≡ take n array ++ more
  take-written = take-front (drop (n + length more) array)

  pub take-written_before : (k : ℕ) → k ≤ n → take k (written array n more) ≡ take k array
  take-written_before k le =
      take-append_le k (take n array) (more ++ drop (n + length more) array)
        (omega (arith, length-take n array h, le))
      ∙ take-take_le k n array le

  pub length-written : n + length more ≤ length array → length (written array n more) ≡ length array
  length-written le = omega (
    arith,
    le,
    length-append (take n array) (more ++ drop (n + length more) array),
    length-append more (drop (n + length more) array),
    length-take n array h,
    length-drop (n + length more) array,
  )

  pub take-grown :
      (capacity : ℕ)
      → n + length more ≤ capacity
      → take (n + length more) (grown capacity array n more) ≡ take n array ++ more
  take-grown capacity le =
      take-take_le (n + length more) capacity (take n array ++ (more ++ zero_fields capacity)) le
      ∙ take-front (zero_fields capacity)

  pub length-grown : (capacity : ℕ) → length (grown capacity array n more) ≡ capacity
  length-grown capacity = length-take capacity (take n array ++ (more ++ zero_fields capacity)) (
      omega (
        arith,
        length-append (take n array) (more ++ zero_fields capacity),
        length-append more (zero_fields capacity),
        length-zero_fields capacity,
      ))

pub write_same {ℓ} :
    {A : Type ℓ} (p : Address) (v : A) (cells : Address → A) → write p v cells p ≡ v
write_same p v cells = ground arith

pub write_other {ℓ} :
    {A : Type ℓ} (p q : Address) (v : A) (cells : Address → A) → p ≢ q → write p v cells q ≡ cells q
write_other p q v cells h = if-false (p == q) v (cells q) (ground arith)

-- What holds of the new value and of all the others holds after a write.
pub write_all {ℓ} :
    {A : Type ℓ} (P : A → Type 0) (p q : Address) (v : A) (cells : Address → A)
    → (p ≡ q → P v)
    → (p ≢ q → P (cells q))
    → P (write p v cells q)
write_all P p q v cells new old = elim (Bool-cases (p == q)) [
  | inl y ↦ subst P (sym (if-true (p == q) v (cells q) y)) (new (ground (arith, y)))
  | inr y ↦ subst P (sym (if-false (p == q) v (cells q) y)) (old (ground (arith, y)))
]

module _ {H : Type 0} where
  -- The later store has more addresses, and the arrays in use keep their capacities.
  pub record Later (st after : Store H) : Type 0 where
    pub levels_le : st.next_level ≤ after.next_level
    pub arrays_le : st.next_array ≤ after.next_array
    pub capacities :
        (a : Address) → a < st.next_array → length (after.arrays a) ≡ length (st.arrays a)

  -- What an append promises of its slice and of the store.
  pub record Appended (st : Store H) (s : Slice) (more : List Field) (r : Slice × Store H)
      : Type 0 where
    pub slice : IsSlice r.1.arrays r.1.next_array r.0
    pub content : contents r.1.arrays r.0 ≡ contents st.arrays s ++ more
    pub later : Later st r.1
    pub before :
        (t : Slice)
        → IsSlice st.arrays st.next_array t
        → (t.array ≡ s.array → t.len ≤ s.len)
        → contents r.1.arrays t ≡ contents st.arrays t
    pub place : (r.0.array ≡ s.array) ⊎ (r.0.array ≡ st.next_array)
    pub loggers : r.1.loggers ≡ st.loggers
    pub levels : r.1.levels ≡ st.levels
    pub next_level : r.1.next_level ≡ st.next_level
    pub next_logger : r.1.next_logger ≡ st.next_logger

  append_in_place-Appended :
      (s : Slice) (more : List Field) (st : Store H)
      → IsSlice st.arrays st.next_array s
      → s.len + length more ≤ s.cap
      → Appended st s more (append_in_place s more st)
  append_in_place-Appended s more st h le =
      let array = st.arrays s.array in
      let full : s.len ≤ length array = omega (arith, h.within, h.full) in
      let same = write_same s.array (written array s.len more) st.arrays in
      let sized = length-written array s.len more full (omega (arith, le, h.full)) in
      record {
        slice = record { in_use = h.in_use; within = le; full = ap length same ∙ sized ∙ h.full };
        content = ap (take (s.len + length more)) same ∙ take-written array s.len more full;
        later = record {
          levels_le = omega arith;
          arrays_le = omega arith;
          capacities = λ a lt.
              write_all (λ c. length c ≡ length (st.arrays a)) s.array a _ st.arrays
                (λ e. sized ∙ ap (λ b. length (st.arrays b)) e) (λ ne. refl);
        };
        before = λ t sound short.
            write_all (λ c. take t.len c ≡ contents st.arrays t) s.array t.array _ st.arrays
              (λ e.
                take-written_before array s.len more full t.len (short (sym e))
                ∙ ap (λ b. take t.len (st.arrays b)) e)
              (λ ne. refl);
        place = inl refl;
        loggers = refl;
        levels = refl;
        next_level = refl;
        next_logger = refl;
      }

  append_grown-Appended :
      (capacity : ℕ) (s : Slice) (more : List Field) (st : Store H)
      → IsSlice st.arrays st.next_array s
      → s.len + length more ≤ capacity
      → Appended st s more (append_grown capacity s more st)
  append_grown-Appended capacity s more st h le =
      let array = st.arrays s.array in
      let full : s.len ≤ length array = omega (arith, h.within, h.full) in
      let same = write_same st.next_array (grown capacity array s.len more) st.arrays in
      record {
        slice = record {
          in_use = omega arith;
          within = le;
          full = ap length same ∙ length-grown array s.len more full capacity;
        };
        content =
            ap (take (s.len + length more)) same ∙ take-grown array s.len more full capacity le;
        later = record {
          levels_le = omega arith;
          arrays_le = omega arith;
          capacities =
              λ a lt. ap length (write_other st.next_array a _ st.arrays (omega (arith, lt)));
        };
        before = λ t sound short.
            ap (take t.len)
              (write_other st.next_array t.array _ st.arrays (omega (arith, sound.in_use)));
        place = inr refl;
        loggers = refl;
        levels = refl;
        next_level = refl;
        next_logger = refl;
      }

  pub append_fields-Appended :
      (grow : ℕ → ℕ → ℕ) (s : Slice) (more : List Field) (st : Store H)
      → Grows grow
      → IsSlice st.arrays st.next_array s
      → Appended st s more (append_fields grow s more st)
  unfolding append_fields
  append_fields-Appended grow s more st g h = elim (Bool-cases (fits s more)) [
    | inl y ↦
        subst (Appended st s more) (sym (if-true (fits s more) _ _ y))
          (append_in_place-Appended s more st h (ground (arith, y)))
    | inr y ↦ subst (Appended st s more) (sym (if-false (fits s more) _ _ y)) (
        append_grown-Appended (grow s.cap (s.len + length more)) s more st h
          (g s.cap (s.len + length more)))
  ]
