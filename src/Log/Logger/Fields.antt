-- ===== src/Log/Logger/Fields.antt =====
-- log/logger.go: whose fields With changes.
use rxd.Base.{
  ℕ, String, Option, refl, ◌+◌, ◌≤◌, ◌<◌, ◌≡◌, sym, ap, ◌∙◌, true, List, ◌++◌, length, leb, arith,
  append_assoc, if-true,
}
use rxd.Log.Logger.Append.{Grows, write_same, write_other, append_fields-Appended}
use rxd.Log.Level.{Level}
use rxd.Log.Field.{Field}
use rxd.Log.Logger.{Address, Slice, Logger, Store, contents, fits, append_fields, with_fields}
use rxd.Log.Logger.{log_message, passed, fields_of, Message}
use rxd.Log.Logger.Sound.{IsStore, with_fields-IsStore}

module _ {H : Type 0} where
  pub passed_of :
      (a b : Level) (h k : H) (xs ys : List Field) (l : Level) (text : String)
      (fields more : List Field)
      → a ≡ b
      → h ≡ k
      → xs ++ fields ≡ ys ++ more
      → passed a h xs l text fields ≡ passed b k ys l text more
  passed_of a b h k xs ys l text fields more e f g = rw (e, f, g)

  -- A logger made by With logs the way that its parent would log the message with the added fields
  -- in front of the message's own: at the parent's level, to its handler, after its fields.
  pub log_message-with_fields :
      (grow : ℕ → ℕ → ℕ) (st : Store H) (p : Address) (more : List Field) (l : Level)
      (text : String) (fields : List Field)
      → Grows grow
      → IsStore st
      → p < st.next_logger
      → (let (made, after) = with_fields grow st p more in log_message after made l text fields)
        ≡ log_message st p l text (more ++ fields)
  unfolding log_message with_fields
  log_message-with_fields grow st p more l text fields g h lt =
      let r = append_fields grow (st.loggers p).fields more st in
      let a = append_fields-Appended grow (st.loggers p).fields more st g (h p lt).slice in
      let logs : Logger H → Option (Message H) =
        λ k. passed (r.1.levels k.level) k.handler (contents r.1.arrays k.fields) l text fields in
      ap logs (write_same r.1.next_logger _ r.1.loggers)
      ∙ passed_of _ _ _ _ _ (fields_of st p) l text fields (more ++ fields)
          (ap (λ c. c (st.loggers p).level) a.levels) refl
          (ap (λ c. c ++ fields) a.content ∙ append_assoc (fields_of st p) more fields)

  -- With on one logger leaves what any logger in use logs as it was, if the latter's fields do not
  -- go on past the former's in the same array. This holds of the logger itself.
  pub with_fields_keeps :
      (grow : ℕ → ℕ → ℕ) (st : Store H) (p q : Address) (more : List Field) (l : Level)
      (text : String) (fields : List Field)
      → Grows grow
      → IsStore st
      → p < st.next_logger
      → q < st.next_logger
      → ((st.loggers q).fields.array ≡ (st.loggers p).fields.array
          → (st.loggers q).fields.len ≤ (st.loggers p).fields.len)
      → log_message (with_fields grow st p more).1 q l text fields ≡ log_message st q l text fields
  unfolding log_message with_fields
  with_fields_keeps grow st p q more l text fields g h lp lq short =
      let r = append_fields grow (st.loggers p).fields more st in
      let a = append_fields-Appended grow (st.loggers p).fields more st g (h p lp).slice in
      let logs : Logger H → Option (Message H) =
        λ k. passed (r.1.levels k.level) k.handler (contents r.1.arrays k.fields) l text fields in
      ap logs (
        write_other r.1.next_logger q _ r.1.loggers (omega (arith, lq, a.next_logger))
        ∙ ap (λ c. c q) a.loggers)
      ∙ passed_of _ _ _ _ _ (fields_of st q) l text fields fields
          (ap (λ c. c (st.loggers q).level) a.levels) refl
          (ap (λ c. c ++ fields) (a.before (st.loggers q).fields (h q lq).slice short))

  -- A logger in use is the same one after With on another or on itself.
  pub loggers-with_fields :
      (grow : ℕ → ℕ → ℕ) (st : Store H) (p q : Address) (more : List Field)
      → Grows grow
      → IsStore st
      → p < st.next_logger
      → q < st.next_logger
      → (with_fields grow st p more).1.loggers q ≡ st.loggers q
  unfolding with_fields
  loggers-with_fields grow st p q more g h lp lq =
      let r = append_fields grow (st.loggers p).fields more st in
      let a = append_fields-Appended grow (st.loggers p).fields more st g (h p lp).slice in
      write_other r.1.next_logger q _ r.1.loggers (omega (arith, lq, a.next_logger))
      ∙ ap (λ c. c q) a.loggers

  -- The logger that With makes where the array has room.
  extended : Logger H → ℕ → Logger H
  extended k n = record k {
    fields = record { array = k.fields.array; len = k.fields.len + n; cap = k.fields.cap };
  }

  made-with_fields :
      (grow : ℕ → ℕ → ℕ) (st : Store H) (p : Address) (more : List Field)
      → fits (st.loggers p).fields more ≡ true
      → (let (made, after) = with_fields grow st p more in after.loggers made)
        ≡ extended (st.loggers p) (length more)
  unfolding with_fields append_fields extended
  made-with_fields grow st p more room =
      let r = append_fields grow (st.loggers p).fields more st in
      let k = st.loggers p in
      write_same r.1.next_logger _ r.1.loggers
      ∙ ap
          (λ s.
            let made : Logger H = record { handler = k.handler; fields = s; level = k.level } in
            made)
          (ap {A = Slice × Store H} (λ c. c.0) (if-true (fits k.fields more) _ _ room))

  pub next-with_fields :
      (grow : ℕ → ℕ → ℕ) (st : Store H) (p : Address) (more : List Field)
      → (with_fields grow st p more).1.next_logger ≡ (with_fields grow st p more).0 + 1
  unfolding with_fields
  next-with_fields grow st p more = refl

  pub made_new :
      (grow : ℕ → ℕ → ℕ) (st : Store H) (p : Address) (more : List Field)
      → Grows grow
      → IsStore st
      → p < st.next_logger
      → (with_fields grow st p more).0 ≡ st.next_logger
  unfolding with_fields
  made_new grow st p more g h lt =
      (append_fields-Appended grow (st.loggers p).fields more st g (h p lt).slice).next_logger

  -- Where the array behind a logger's fields has room, the second of two calls of With on it with
  -- equally many fields replaces the fields that the first call added: the first new logger then
  -- logs with the second's fields.
  pub siblings_overwrite :
      (grow : ℕ → ℕ → ℕ) (st : Store H) (p : Address) (more others : List Field) (l : Level)
      (text : String) (fields : List Field)
      → Grows grow
      → IsStore st
      → p < st.next_logger
      → length others ≡ length more
      → fits (st.loggers p).fields more ≡ true
      → (let (first, one) = with_fields grow st p more in
          let (second, both) = with_fields grow one p others in
          log_message both first l text fields)
        ≡ log_message st p l text (others ++ fields)
  unfolding log_message
  siblings_overwrite grow st p more others l text fields g h lt same room =
      let one = (with_fields grow st p more).1 in
      let first = (with_fields grow st p more).0 in
      let both = (with_fields grow one p others).1 in
      let h1 = with_fields-IsStore grow st p more g lt h in
      let new = made_new grow st p more g h lt in
      let lt1 : p < one.next_logger = omega (arith, lt, new, next-with_fields grow st p more) in
      let kept = loggers-with_fields grow st p p more g h lt lt in
      let room1 : fits (one.loggers p).fields others ≡ true =
        ap (λ k. fits k.fields others) kept
        ∙ ap (λ n. leb ((st.loggers p).fields.len + n) (st.loggers p).fields.cap) same
        ∙ room in
      let alike =
        loggers-with_fields grow one p first others g h1 lt1
          (omega (arith, next-with_fields grow st p more))
        ∙ made-with_fields grow st p more room
        ∙ ap (extended (st.loggers p)) (sym same)
        ∙ ap (λ k. extended k (length others)) (sym kept)
        ∙ sym (made-with_fields grow one p others room1) in
      ap (λ k. passed (both.levels k.level) k.handler (contents both.arrays k.fields) l text fields)
        alike
      ∙ log_message-with_fields grow one p others l text fields g h1 lt1
      ∙ with_fields_keeps grow st p p more l text (others ++ fields) g h lt lt (λ e. omega arith)
