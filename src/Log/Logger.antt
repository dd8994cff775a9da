-- ===== src/Log/Logger.antt =====
-- log/logger.go: loggers over a store. Levels, loggers and the arrays behind slices of fields have
-- addresses, because a logger shares its level and its fields' array with the loggers made from it.
pub mod Append
pub mod Fields
pub mod Levels
pub mod Sound
use rxd.Base.{
  ℕ, ◌+◌, ◌≤◌, ◌<◌, ◌≡◌, String, Bool, true, false, Option, none, some, List, [], ◌∷◌, ◌++◌, length,
  take, drop, ltb, leb, ◌==◌, if◌then◌else◌,
}
use rxd.Log.Level.{Level}
use rxd.Log.Field.{Field}

abbrev pub Address : Type 0
Address = ℕ

-- The slices of this package all begin at their array's first place.
pub record Slice : Type 0 where
  pub array : Address
  pub len : ℕ
  pub cap : ℕ

-- `H` is the handler's type. The mutex is left out: every use of it guards one read or one write.
pub record Logger (H : Type 0) : Type 0 where
  pub handler : H
  pub fields : Slice
  pub level : Address

-- An array has its full capacity of fields. Addresses below the three `next` are in use.
pub record Store (H : Type 0) : Type 0 where
  pub levels : Address → Level
  pub arrays : Address → List Field
  pub loggers : Address → Logger H
  pub next_level : Address
  pub next_array : Address
  pub next_logger : Address

abbrev pub write {ℓ} : {A : Type ℓ} → Address → A → (Address → A) → Address → A
write p v cells q = if p == q then v else cells q

-- What a handler is given.
pub record Message (H : Type 0) : Type 0 where
  pub handler : H
  pub level : Level
  pub text : String
  pub fields : List Field

abbrev pub zero_field : Field
zero_field = record { key = ""; value = "" }

abbrev pub zero_fields : ℕ → List Field
zero_fields ℕ.zero = []
zero_fields (ℕ.suc n) = zero_field ∷ zero_fields n

abbrev pub contents : (Address → List Field) → Slice → List Field
contents arrays s = take s.len (arrays s.array)

-- The built-in append. In place, it writes into the array that others may share. Otherwise the new
-- array's capacity is the runtime's choice `grow`, at the old capacity and the length needed.
abbrev pub fits : Slice → List Field → Bool
fits s more = leb (s.len + length more) s.cap

abbrev pub written : List Field → ℕ → List Field → List Field
written array n more = take n array ++ (more ++ drop (n + length more) array)

-- a new array, whose content is the old one's and `more`, then zero fields
abbrev pub grown : ℕ → List Field → ℕ → List Field → List Field
grown capacity array n more = take capacity (take n array ++ (more ++ zero_fields capacity))

module _ {H : Type 0} where
  abbrev pub append_in_place : Slice → List Field → Store H → Slice × Store H
  append_in_place s more st = (
    record { array = s.array; len = s.len + length more; cap = s.cap },
    record st { arrays = write s.array (written (st.arrays s.array) s.len more) st.arrays },
  )

  abbrev pub append_grown : ℕ → Slice → List Field → Store H → Slice × Store H
  append_grown capacity s more st = (
    record { array = st.next_array; len = s.len + length more; cap = capacity },
    record st {
      arrays = write st.next_array (grown capacity (st.arrays s.array) s.len more) st.arrays;
      next_array = st.next_array + 1;
    },
  )

  unfoldable pub append_fields : (ℕ → ℕ → ℕ) → Slice → List Field → Store H → Slice × Store H
  append_fields grow s more st =
      if fits s more
      then append_in_place s more st
      else append_grown (grow s.cap (s.len + length more)) s more st

  -- The result is the logger's address.
  unfoldable pub new_logger : Level → H → Store H → Address × Store H
  new_logger level handler st = (
    st.next_logger,
    record {
      levels = write st.next_level level st.levels;
      arrays = write st.next_array [] st.arrays;
      loggers =
          write st.next_logger
            (record {
              handler = handler;
              fields = record { array = st.next_array; len = 0; cap = 0 };
              level = st.next_level;
            })
            st.loggers;
      next_level = st.next_level + 1;
      next_array = st.next_array + 1;
      next_logger = st.next_logger + 1;
    },
  )

  -- The level and the fields that a logger has.
  abbrev pub level_of : Store H → Address → Level
  level_of st p = st.levels (st.loggers p).level

  abbrev pub fields_of : Store H → Address → List Field
  fields_of st p = contents st.arrays (st.loggers p).fields

  abbrev pub handler_of : Store H → Address → H
  handler_of st p = (st.loggers p).handler

  -- What reaches the handler, if anything does: the logger's level, handler and fields are given.
  abbrev pub passed : Level → H → List Field → Level → String → List Field → Option (Message H)
  passed own handler own_fields level text fields =
      if ltb own level
      then none
      else some
          (record { handler = handler; level = level; text = text; fields = own_fields ++ fields })

  unfoldable pub log_message : Store H → Address → Level → String → List Field → Option (Message H)
  log_message st p level text fields =
      passed (level_of st p) (handler_of st p) (fields_of st p) level text fields

  abbrev pub child : Logger H → Slice × Store H → Address × Store H
  child parent (slice, st) = (
    st.next_logger,
    record st {
      loggers =
          write st.next_logger
            (record { handler = parent.handler; fields = slice; level = parent.level }) st.loggers;
      next_logger = st.next_logger + 1;
    },
  )

  unfoldable pub with_fields : (ℕ → ℕ → ℕ) → Store H → Address → List Field → Address × Store H
  unfolding append_fields
  with_fields grow st p more =
      child (st.loggers p) (append_fields grow (st.loggers p).fields more st)

  -- The level is written to a new cell, which this logger alone points to.
  unfoldable pub set_level : Store H → Address → Level → Store H
  set_level st p level = record st {
    levels = write st.next_level level st.levels;
    loggers =
        write p
          (record {
            handler = (st.loggers p).handler;
            fields = (st.loggers p).fields;
            level = st.next_level;
          })
          st.loggers;
    next_level = st.next_level + 1;
  }
