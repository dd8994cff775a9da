-- ===== src/Log/Logger/Sound.antt =====
-- log/logger.go: what every store that a program can reach has in common.
use rxd.Base.{ℕ, [], subst, refl, ◌<◌, ◌≡◌, sym, ap, ◌∙◌, List, length, arith}
use rxd.Log.Logger.Append.{
  Grows, IsSlice, write_same, write_other, write_all, Later, append_fields-Appended,
}
use rxd.Log.Level.{Level}
use rxd.Log.Field.{Field}
use rxd.Log.Logger.{Address, Logger, Store, append_fields, new_logger, with_fields, set_level}

module _ {H : Type 0} where
  pub record IsLogger (st : Store H) (l : Logger H) : Type 0 where
    pub level_in_use : l.level < st.next_level
    pub slice : IsSlice st.arrays st.next_array l.fields

  abbrev pub IsStore : Store H → Type 0
  IsStore st = (p : Address) → p < st.next_logger → IsLogger st (st.loggers p)

  -- Every store that calls of the package lead to.
  pub data Reached (grow : ℕ → ℕ → ℕ) : Store H → Type 0 where
    starts : {st : Store H} → st.next_logger ≡ 0 → Reached grow st
    creates :
        {st : Store H} (level : Level) (handler : H)
        → Reached grow st
        → Reached grow (new_logger level handler st).1
    extends :
        {st : Store H} (p : Address) (more : List Field)
        → p < st.next_logger
        → Reached grow st
        → Reached grow (with_fields grow st p more).1
    sets :
        {st : Store H} (p : Address) (level : Level)
        → p < st.next_logger
        → Reached grow st
        → Reached grow (set_level st p level)

module _ {H : Type 0} where
  IsLogger-later :
      (st after : Store H) (l : Logger H) → Later st after → IsLogger st l → IsLogger after l
  IsLogger-later st after l later h = record {
    level_in_use = omega (arith, h.level_in_use, later.levels_le);
    slice = record {
      in_use = omega (arith, h.slice.in_use, later.arrays_le);
      within = h.slice.within;
      full = later.capacities l.fields.array h.slice.in_use ∙ h.slice.full;
    };
  }

  pub new_logger-IsStore :
      (level : Level) (handler : H) (st : Store H)
      → IsStore st
      → IsStore (new_logger level handler st).1
  unfolding new_logger
  new_logger-IsStore level handler st h p lt =
      let after = (new_logger level handler st).1 in
      let later : Later st after = record {
        levels_le = omega arith;
        arrays_le = omega arith;
        capacities =
            λ a le. ap length (write_other st.next_array a [] st.arrays (omega (arith, le)));
      } in
      write_all (IsLogger after) st.next_logger p _ st.loggers
        (λ e. record {
          level_in_use = omega arith;
          slice = record {
            in_use = omega arith;
            within = omega arith;
            full = ap length (write_same st.next_array [] st.arrays);
          };
        })
        (λ ne. IsLogger-later st after (st.loggers p) later (h p (omega (arith, ne, lt))))

  pub set_level-IsStore :
      (st : Store H) (p : Address) (level : Level)
      → p < st.next_logger
      → IsStore st
      → IsStore (set_level st p level)
  unfolding set_level
  set_level-IsStore st p level lt h q lq =
      let after = set_level st p level in
      let later : Later st after = record {
        levels_le = omega arith;
        arrays_le = omega arith;
        capacities = λ a le. refl;
      } in
      write_all (IsLogger after) p q _ st.loggers
        (λ e. record { level_in_use = omega arith; slice = (h p lt).slice })
        (λ ne. IsLogger-later st after (st.loggers q) later (h q lq))

  pub with_fields-IsStore :
      (grow : ℕ → ℕ → ℕ) (st : Store H) (p : Address) (more : List Field)
      → Grows grow
      → p < st.next_logger
      → IsStore st
      → IsStore (with_fields grow st p more).1
  unfolding with_fields
  with_fields-IsStore grow st p more g lt h q lq =
      let r = append_fields grow (st.loggers p).fields more st in
      let a = append_fields-Appended grow (st.loggers p).fields more st g (h p lt).slice in
      let after = (with_fields grow st p more).1 in
      let later : Later st after = record {
        levels_le = a.later.levels_le;
        arrays_le = a.later.arrays_le;
        capacities = a.later.capacities;
      } in
      write_all (IsLogger after) r.1.next_logger q _ r.1.loggers
        (λ e. record {
          level_in_use = omega (arith, (h p lt).level_in_use, a.later.levels_le);
          slice = a.slice;
        })
        (λ ne.
          subst (λ ls. IsLogger after (ls q)) (sym a.loggers)
            (IsLogger-later st after (st.loggers q) later
              (h q (omega (arith, ne, lq, a.next_logger)))))

  -- In every store that calls of NewLogger, With and SetLevel lead to, each logger's level is an
  -- allocated cell and its fields lie within the capacity of an allocated array, if the runtime
  -- allots an array at least the capacity that an append needs.
  pub Reached-IsStore :
      (grow : ℕ → ℕ → ℕ) (st : Store H) → Grows grow → Reached grow st → IsStore st
  Reached-IsStore grow after g (starts e) = λ p lt. absurd (omega (arith, e, lt))
  Reached-IsStore grow after g (creates {st} level handler r) =
      new_logger-IsStore level handler st (Reached-IsStore grow st g r)
  Reached-IsStore grow after g (extends {st} p more lt r) =
      with_fields-IsStore grow st p more g lt (Reached-IsStore grow st g r)
  Reached-IsStore grow after g (sets {st} p level lt r) =
      set_level-IsStore st p level lt (Reached-IsStore grow st g r)
