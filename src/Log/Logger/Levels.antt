-- ===== src/Log/Logger/Levels.antt =====
-- log/logger.go: what a level lets through, and whom SetLevel concerns.
use rxd.Base.{
  String, Option, refl, ◌<◌, ◌≡◌, ◌≢◌, sym, ap, ◌∙◌, List, ◌==◌, if◌then◌else◌, arith, if-true,
  if-false, Bool-cases, inl, inr,
}
use rxd.Log.Logger.Append.{write_same, write_other, write_all}
use rxd.Log.Level.{Level}
use rxd.Log.Field.{Field}
use rxd.Log.Logger.{Address, Logger, Store, contents, write, set_level}
use rxd.Log.Logger.{log_message, passed, level_of, handler_of, fields_of, Message}
use rxd.Log.Logger.Sound.{IsStore}
use rxd.Log.Logger.Fields.{passed_of}

module _ {H : Type 0} where
  -- After SetLevel on a logger, that logger hands its handler the messages whose level is at most
  -- the new level, with its own fields before the message's, and every other logger in use logs as
  -- before, also the loggers that share its level.
  pub log_message-set_level :
      (st : Store H) (p q : Address) (level l : Level) (text : String) (fields : List Field)
      → IsStore st
      → p < st.next_logger
      → q < st.next_logger
      → log_message (set_level st p level) q l text fields ≡ (
          if p == q
          then passed level (handler_of st p) (fields_of st p) l text fields
          else log_message st q l text fields)
  unfolding log_message set_level
  log_message-set_level st p q level l text fields h lp lq =
      let logs : Logger H → Option (Message H) = λ g.
        passed (write st.next_level level st.levels g.level) g.handler (contents st.arrays g.fields)
          l text fields in
      elim (Bool-cases (p == q)) [
        | inl y ↦
            ap logs (if-true (p == q) _ (st.loggers q) y)
            ∙ passed_of _ level _ _ _ _ l text fields fields
                (write_same st.next_level level st.levels) refl refl
            ∙ sym (if-true (p == q) _ _ y)
        | inr y ↦
            ap logs (if-false (p == q) _ (st.loggers q) y)
            ∙ passed_of _ (level_of st q) _ _ _ _ l text fields fields
                (write_other st.next_level (st.loggers q).level level st.levels
                  (omega (arith, (h q lq).level_in_use)))
                refl refl
            ∙ sym (if-false (p == q) _ _ y)
      ]

  -- The two sides of it, and what a logger keeps.
  pub set_level_self :
      (st : Store H) (p : Address) (level l : Level) (text : String) (fields : List Field)
      → IsStore st
      → p < st.next_logger
      → log_message (set_level st p level) p l text fields
        ≡ passed level (handler_of st p) (fields_of st p) l text fields
  set_level_self st p level l text fields h lt =
      log_message-set_level st p p level l text fields h lt lt ∙ if-true (p == p) _ _ (ground arith)

  pub set_level_other :
      (st : Store H) (p q : Address) (level l : Level) (text : String) (fields : List Field)
      → IsStore st
      → p < st.next_logger
      → q < st.next_logger
      → p ≢ q
      → log_message (set_level st p level) q l text fields ≡ log_message st q l text fields
  set_level_other st p q level l text fields h lp lq ne =
      log_message-set_level st p q level l text fields h lp lq
      ∙ if-false (p == q) _ _ (ground arith)

  pub set_level_keeps :
      (st : Store H) (p q : Address) (level : Level)
      → (handler_of (set_level st p level) q ≡ handler_of st q)
        × (fields_of (set_level st p level) q ≡ fields_of st q)
  unfolding set_level
  set_level_keeps st p q level =
      write_all
        (λ k. (k.handler ≡ handler_of st q) × (contents st.arrays k.fields ≡ fields_of st q)) p q _
        st.loggers
        (λ e. (
          ap (λ r. (st.loggers r).handler) e,
          ap (λ r. contents st.arrays (st.loggers r).fields) e,
        ))
        (λ ne. (refl, refl))
