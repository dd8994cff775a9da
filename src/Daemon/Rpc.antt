-- ===== src/Daemon/Rpc.antt =====
-- daemon_rpc.go: the handler of remote commands.
use Prim.Native.String.{◌++◌}
use rxd.Base.{
  ◌<◌, ◌≡◌, String, Option, none, some, List, [], ◌==◌, ◌≢◌, ◌⊎◌, refl, ap, sym, ◌∙◌, subst, inl,
  inr, Bool-cases, arith,
}
use rxd.Errors.{GoError}
use rxd.Log.Level.{Level}
use rxd.Log.Field.{Field}
use rxd.Log.Text.{decimal}
use rxd.Log.Logger.{Address, Store, set_level, log_message, passed, handler_of, fields_of}
use rxd.Log.Logger.Sound.{IsStore, set_level-IsStore}
use rxd.Log.Logger.Levels.{set_level_self, set_level_other, set_level_keeps}
use rxd.Daemon.Options.{RpcConfig}

-- A nil logger is `none`.
pub record CommandHandler : Type 0 where
  pub s_logger : Option Address
  pub i_logger : Option Address

-- `nil_logger` is the panic of a method call on a nil interface, with the store at that moment.
pub data Changed (H : Type 0) : Type 0 where
  changed : Store H → Changed H
  nil_logger : Store H → Changed H

module _ {H : Type 0} where
  abbrev set_internal : Option Address → Level → Store H → Changed H
  set_internal none level st = nil_logger st
  set_internal (some i) level st = changed (set_level st i level)

  abbrev set_both : Option Address → Option Address → Level → Store H → Changed H
  set_both none i level st = nil_logger st
  set_both (some s) i level st = set_internal i level (set_level st s level)

  unfoldable pub change_log_level : CommandHandler → Level → Store H → Changed H
  change_log_level h level st = set_both h.s_logger h.i_logger level st

-- An HTTP server: its address, and the handlers that its mux has by their paths.
pub record RpcServer : Type 0 where
  pub addr : String
  pub routes : List (String × CommandHandler)

pub data NewRpc : Type 0 where
  serves : RpcServer → NewRpc
  refuses : GoError → NewRpc

abbrev registered : RpcConfig → Option GoError → NewRpc
registered cfg (some e) = refuses e
registered cfg none = serves (record { addr = cfg.addr ++ (":" ++ decimal cfg.port); routes = [] })

-- `register` is what rpc.Server.Register answers. The RPC server that holds the command handler is
-- never put into the mux.
unfoldable pub new_rpc_handler : (CommandHandler → Option GoError) → RpcConfig → NewRpc
new_rpc_handler register cfg =
    registered cfg (register (record { s_logger = none; i_logger = none }))

module _ {H : Type 0} where
  next-set_level :
      (st : Store H) (p : Address) (level : Level)
      → (set_level st p level).next_logger ≡ st.next_logger
  unfolding set_level
  next-set_level st p level = refl

  -- In the later store the logger logs at the level, with what else it had.
  abbrev LogsAt : Level → Store H → Store H → Address → Type 0
  LogsAt level st after q =
      (l : Level) (text : String) (fields : List Field)
      → log_message after q l text fields
        ≡ passed level (handler_of st q) (fields_of st q) l text fields

  module _ (st : Store H) (s i : Address) (level : Level) where
    -- ChangeLogLevel's two calls of SetLevel.
    abbrev twice : Store H
    twice = set_level (set_level st s level) i level

    internal-LogsAt : IsStore st → s < st.next_logger → i < st.next_logger → LogsAt level st twice i
    internal-LogsAt h ls li l text fields =
        let one = set_level st s level in
        set_level_self one i level l text fields (set_level-IsStore st s level ls h)
          (omega (arith, li, next-set_level st s level))
        ∙ ap (λ k. passed level k (fields_of one i) l text fields) (set_level_keeps st s i level).0
        ∙ ap (λ fs. passed level (handler_of st i) fs l text fields)
            (set_level_keeps st s i level).1

    service-LogsAt : IsStore st → s < st.next_logger → i < st.next_logger → LogsAt level st twice s
    service-LogsAt h ls li = elim (Bool-cases (i == s)) [
      | inl y ↦
          let e : i ≡ s = ground (arith, y) in
          subst (LogsAt level st twice) e (internal-LogsAt h ls li)
      | inr y ↦ λ l text fields.
          let next = next-set_level st s level in
          set_level_other (set_level st s level) i s level l text fields
            (set_level-IsStore st s level ls h) (omega (arith, li, next)) (omega (arith, ls, next))
            (ground (arith, y))
          ∙ set_level_self st s level l text fields h ls
    ]

    others_log :
        (q : Address) (l : Level) (text : String) (fields : List Field)
        → IsStore st
        → s < st.next_logger
        → i < st.next_logger
        → q < st.next_logger
        → s ≢ q
        → i ≢ q
        → log_message twice q l text fields ≡ log_message st q l text fields
    others_log q l text fields h ls li lq ns ni =
        let next = next-set_level st s level in
        set_level_other (set_level st s level) i q level l text fields
          (set_level-IsStore st s level ls h) (omega (arith, li, next)) (omega (arith, lq, next)) ni
        ∙ set_level_other st s q level l text fields h ls lq ns

  -- With both loggers set, ChangeLogLevel returns, and from then on the service logger and the
  -- internal logger pass on the messages whose level is at most the new one, with the fields that
  -- they had, to the handlers that they had; every other logger in use logs as before.
  pub change_log_level-loggers :
      (st : Store H) (s i : Address) (level : Level)
      → IsStore st
      → s < st.next_logger
      → i < st.next_logger
      → (after : Store H) × (change_log_level
            (record { s_logger = some s; i_logger = some i })
            level
            st
          ≡ changed after)
        × IsStore after
        × ((q : Address) (l : Level) (text : String) (fields : List Field)
            → q < st.next_logger
            → ((q ≡ s) ⊎ (q ≡ i)
                → log_message after q l text fields
                  ≡ passed level (handler_of st q) (fields_of st q) l text fields)
              × (s ≢ q
                  → i ≢ q
                  → log_message after q l text fields ≡ log_message st q l text fields))
  unfolding change_log_level
  change_log_level-loggers st s i level h ls li = (
    twice st s i level,
    refl,
    set_level-IsStore (set_level st s level) i level (omega (arith, li, next-set_level st s level))
        (set_level-IsStore st s level ls h),
    λ q l text fields lq. (
      λ c. elim c [
        | inl e ↦
            subst (LogsAt level st (twice st s i level)) (sym e)
              (service-LogsAt st s i level h ls li) l text fields
        | inr e ↦
            subst (LogsAt level st (twice st s i level)) (sym e)
              (internal-LogsAt st s i level h ls li) l text fields
      ],
      λ ns ni. others_log st s i level q l text fields h ls li lq ns ni,
    ),
  )
