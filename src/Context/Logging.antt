-- ===== src/Context/Logging.antt =====
-- service_context.go: the loggers of a service context.
use rxd.Base.{
  ℕ, ◌<◌, ◌≡◌, ◌≢◌, refl, ap, sym, ◌∙◌, String, Option, List, [], ◌∷◌, ◌++◌, str_eq, if◌then◌else◌,
  arith, inl, inr, if-false, eq_iff,
}
use rxd.Log.Level.{Level}
use rxd.Log.Field.{Field, string_field}
use rxd.Log.Logger.{Address, Store, Message, with_fields, append_fields, log_message}
use rxd.Log.Logger.Append.{Grows, append_fields-Appended, write_same}
use rxd.Log.Logger.Sound.{IsStore, with_fields-IsStore}
use rxd.Log.Logger.Fields.{
  log_message-with_fields, with_fields_keeps, loggers-with_fields, made_new, next-with_fields,
}
use rxd.Context.{Context, ServiceContext, new_service_context, with_name, with_parent}

-- A service context with its loggers. No code sets `fields`.
pub record LoggedContext : Type 0 where
  pub context : ServiceContext
  pub fields : List Field
  pub slogger : Address
  pub ilogger : Address

abbrev pub service_fields : String → List Field
service_fields name = if str_eq name "" then [] else string_field "service" name ∷ []

module _ {H : Type 0} where
  abbrev with_ilogger : ServiceContext → Address → Address × Store H → LoggedContext × Store H
  with_ilogger c slogger (ilogger, st) =
      (record { context = c; fields = []; slogger = slogger; ilogger = ilogger }, st)

  abbrev with_slogger :
      (ℕ → ℕ → ℕ)
      → ServiceContext
      → Address
      → List Field
      → Address × Store H
      → LoggedContext × Store H
  with_slogger grow c ilogger fields (slogger, st) =
      with_ilogger c slogger (with_fields grow st ilogger fields)

  -- newServiceContextWithCancel, with its loggers; `i` is the new cancel function.
  unfoldable pub new_logged_context :
      (ℕ → ℕ → ℕ) → Context → String → Address → Address → ℕ → Store H → LoggedContext × Store H
  new_logged_context grow parent name slogger ilogger i st =
      with_slogger grow (new_service_context parent name i) ilogger (service_fields name)
        (with_fields grow st slogger (service_fields name))

  unfoldable pub log_in : Store H → LoggedContext → Level → String → List Field → Option (Message H)
  log_in st sc level message fields = log_message st sc.slogger level message (sc.fields ++ fields)

-- WithName and WithParent copy the struct.
unfoldable pub logged_with_name : LoggedContext → String → ℕ → LoggedContext
logged_with_name sc name i = record sc { context = with_name sc.context name i }

unfoldable pub logged_with_parent : LoggedContext → Context → ℕ → LoggedContext
logged_with_parent sc parent i = record sc { context = with_parent sc.context parent i }

module _ {H : Type 0} where
  -- The array behind the fields of a logger that With made is its parent's or new.
  array-with_fields :
      (grow : ℕ → ℕ → ℕ) (st : Store H) (p : Address) (more : List Field) (a : Address)
      → Grows grow
      → IsStore st
      → p < st.next_logger
      → a < st.next_array
      → a ≢ (st.loggers p).fields.array
      → (let (made, after) = with_fields grow st p more in a ≢ (after.loggers made).fields.array)
  unfolding with_fields
  array-with_fields grow st p more a g h lp la ne e =
      let r = append_fields grow (st.loggers p).fields more st in
      let found = ap (λ k. k.fields.array) (write_same r.1.next_logger _ r.1.loggers) in
      elim ((append_fields-Appended grow (st.loggers p).fields more st g (h p lp).slice).place) [
        | inl y ↦ ne (e ∙ found ∙ y)
        | inr y ↦ absurd (omega (arith, la, e ∙ found ∙ y))
      ]

  -- A service's context, and its children by WithName and WithParent under whatever name, log to
  -- the daemon's service logger, with the field service=<name> of the service before the message's
  -- own, if the fields of the two loggers given are in different arrays.
  pub log_in-new_logged_context :
      (grow : ℕ → ℕ → ℕ) (parent other : Context) (name child : String) (s k : Address) (i j : ℕ)
      (st : Store H) (level : Level) (message : String) (fields : List Field)
      → Grows grow
      → IsStore st
      → s < st.next_logger
      → k < st.next_logger
      → (st.loggers k).fields.array ≢ (st.loggers s).fields.array
      → name ≢ ""
      → (let (sc, after) = new_logged_context grow parent name s k i st in
          (log_in after sc level message fields
            ≡ log_message st s level message (string_field "service" name ∷ fields))
          × (log_in after (logged_with_name sc child j) level message fields
              ≡ log_in after sc level message fields)
          × (log_in after (logged_with_parent sc other j) level message fields
              ≡ log_in after sc level message fields))
  unfolding new_logged_context log_in logged_with_name logged_with_parent
  log_in-new_logged_context grow parent other name child s k i j st level message fields g h ls lk
        apart named =
      let fs = service_fields name in
      let made = (with_fields grow st s fs).0 in
      let one = (with_fields grow st s fs).1 in
      let h1 = with_fields-IsStore grow st s fs g ls h in
      let next = next-with_fields grow st s fs in
      let new = made_new grow st s fs g h ls in
      let kept = ap (λ l. l.fields.array) (loggers-with_fields grow st s k fs g h ls lk) in
      let unlike =
        array-with_fields grow st s fs (st.loggers k).fields.array g h ls (h k lk).slice.in_use
          apart in
      let one_field : fs ≡ string_field "service" name ∷ [] =
        if-false (str_eq name "") _ _ (ground (arith, eq_iff name "", named)) in
      (
        with_fields_keeps grow one k made fs level message fields g h1
              (omega (arith, lk, new, next)) (omega (arith, next))
              (λ e. absurd (unlike (sym (e ∙ kept))))
            ∙ log_message-with_fields grow st s fs level message fields g h ls
            ∙ ap (λ xs. log_message st s level message (xs ++ fields)) one_field,
        refl,
        refl,
      )
