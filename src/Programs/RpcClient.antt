-- ===== src/Programs/RpcClient.antt =====
-- pkg/rpc: the client and its commands; examples/multi_service_rpc/rpc_client: the program.
use rxd.Base.{
  ℕ, ◌≤◌, ◌≡◌, ◌⊎◌, ◌↔◌, inl, inr, refl, ap, sym, ◌∙◌, String, Bool, true, false, Option, none,
  some, List, [], ◌∷◌, ltb, str_eq, if◌then◌else◌, arith, if-false,
}
use rxd.Errors.{GoError}
use rxd.Log.Level.{Level}
use rxd.Log.Level.Parse.{level_from_string, level_from_string-le}

-- The commands. `other` stands for the uint8 values past SetLevel.
pub data Command : Type 0 where
  unknown set_level : Command
  other : ℕ → Command

unfoldable pub command_string : Command → String
command_string set_level = "SetLevel"
command_string _ = "Unknown"

-- What the select of ChangeLogLevel takes: the context's end, when the reply has or has not
-- arrived on the channel, or the call's result.
pub data Picked : Type 0 where
  ctx_done : (arrived : Bool) → Picked
  result : Option GoError → Picked

pub data Returned : Type 0 where
  returns : Option GoError → Returned
  blocks : Returned

-- Client.ChangeLogLevel. After the context's end it sends the call on the channel, which has room
-- for one value, and returns the variable of the response, which is nil.
unfoldable pub client_change_log_level : Picked → Returned
client_change_log_level (ctx_done true) = blocks
client_change_log_level (ctx_done false) = returns none
client_change_log_level (result e) = returns e

-- processCommand.
unfoldable pub process_command : String → Command
process_command arg = if str_eq arg "setlevel" then set_level else unknown

-- What the program does: it exits with a status, after a call with a level if it comes to one.
pub record Ran : Type 0 where
  pub called : Option Level
  pub status : Option ℕ

abbrev quits : Ran
quits = record { called = none; status = some 1 }

abbrev after_call : Level → Returned → Ran
after_call l (returns (some e)) = record { called = some l; status = some 1 }
after_call l (returns none) = record { called = some l; status = some 0 }
after_call l blocks = record { called = some l; status = none }

-- int8 of a level is negative from 128 on.
abbrev change : Level → Picked → Ran
change l p = if ltb 127 l then quits else after_call l (client_change_log_level p)

abbrev run_command : Command → List String → Picked → Ran
run_command set_level [] p = quits
run_command set_level (level ∷ rest) p = change (level_from_string level) p
run_command (other n) rest p = record { called = none; status = some 0 }
run_command unknown rest p = quits

abbrev is_unknown : Command → Bool
is_unknown unknown = true
is_unknown _ = false

-- `connects` is whether the server answers, `arguments` those after the program's name.
unfoldable pub run_client : Bool → List String → Picked → Ran
unfolding client_change_log_level process_command
run_client connects [] p = quits
run_client connects (command ∷ arguments) p =
    let c = process_command command in
    if is_unknown c then quits else if connects then run_command c arguments p else quits

called_after : (l : Level) (r : Returned) → (after_call l r).called ≡ some l
called_after l (returns (some e)) = refl
called_after l (returns none) = refl
called_after l blocks = refl

abbrev pub Succeeds : Picked → Type 0
Succeeds p = (p ≡ ctx_done false) ⊎ (p ≡ result none)

status_after :
    (l : Level) (p : Picked)
    → ((after_call l (client_change_log_level p)).status ≡ some 0) ↔ Succeeds p
unfolding client_change_log_level
status_after l (ctx_done true) =
    ((λ q. let x : none ≡ some 0 = q in cc (x)), λ c. elim c [ inl e ↦ cc (e) | inr e ↦ cc (e) ])
status_after l (ctx_done false) = ((λ q. inl refl), λ c. refl)
status_after l (result none) = ((λ q. inr refl), λ c. refl)
status_after l (result (some e)) =
    ((λ q. let x : some 1 ≡ some 0 = q in cc (x)), λ c. elim c [ inl e ↦ cc (e) | inr e ↦ cc (e) ])

-- With a server, `setlevel` and any text, the program asks for the level that the text is read as,
-- which is one of the eight, so that no text is refused; and it ends with status 0 exactly if the
-- call's result has no error or the context ended before it arrived.
pub run_client-level :
    (text : String) (rest : List String) (p : Picked)
    → (let ran = run_client true ("setlevel" ∷ text ∷ rest) p in
        (ran.called ≡ some (level_from_string text))
        × (level_from_string text ≤ 7)
        × ((ran.status ≡ some 0) ↔ Succeeds p))
unfolding run_client client_change_log_level process_command
run_client-level text rest p =
    let small = level_from_string-le text in
    let asked : change (level_from_string text) p
        ≡ after_call (level_from_string text) (client_change_log_level p) =
      if-false (ltb 127 (level_from_string text)) _ _ (ground (arith, small)) in
    let answer = client_change_log_level p in
    let l = level_from_string text in
    (
      ap (λ r. r.called) asked ∙ called_after l answer,
      small,
      (
        (λ q. (status_after l p).0 (sym (ap (λ r. r.status) asked) ∙ q)),
        (λ c. ap (λ r. r.status) asked ∙ (status_after l p).1 c),
      ),
    )
