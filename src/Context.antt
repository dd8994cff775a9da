-- ===== src/Context.antt =====
-- service_context.go: the service context and its children. `Context` stands for the cancel
-- functions that end a context, innermost first, as context.WithCancel nests them; `Clock` is the
-- set of cancel functions called so far.
pub mod Logging
pub mod Watch
mod Examples
use Prim.Native.String
use rxd.Base.{ℕ, ◌≡◌, Bool, true, false, ◌||◌, String, List, [], ◌∷◌, ◌==◌, refl, arith}

abbrev pub Context : Type 0
Context = List ℕ

abbrev pub called : ℕ → List ℕ → Bool
called i [] = false
called i (j ∷ js) = i == j || called i js

-- Whether ctx.Done() is closed.
unfoldable pub is_done : Context → List ℕ → Bool
is_done [] js = false
is_done (i ∷ is) js = called i js || is_done is js

unfoldable pub with_cancel : Context → ℕ → Context
with_cancel parent i = i ∷ parent

-- The fields that the watchers read; the loggers and the registry are left out.
pub record ServiceContext : Type 0 where
  pub context : Context
  pub name : String
  pub fqcn : String

-- newServiceContextWithCancel; `i` is the new cancel function.
unfoldable pub new_service_context : Context → String → ℕ → ServiceContext
unfolding with_cancel
new_service_context parent name i = record {
  context = with_cancel parent i;
  name = name;
  fqcn = name;
}

unfoldable pub with_parent : ServiceContext → Context → ℕ → ServiceContext
unfolding with_cancel
with_parent sc parent i = record sc { context = with_cancel parent i }

unfoldable pub with_name : ServiceContext → String → ℕ → ServiceContext
unfolding with_cancel
with_name sc name i = record sc {
  context = with_cancel sc.context i;
  name = name;
  fqcn = String.◌++◌ sc.fqcn (String.◌++◌ "_" name);
}

is_done_fresh :
    (i : ℕ) (c : Context) (js : List ℕ) → called i c ≡ false → is_done c (i ∷ js) ≡ is_done c js
unfolding is_done
is_done_fresh i [] js h = refl
is_done_fresh i (k ∷ c) js h = ground (arith, is_done_fresh i c js)

-- Calling the cancel function of a child of WithName ends the child and leaves its parent as it
-- is, if the function is the child's own; the child ends with its parent; and the context of
-- WithParent ends by its own cancel function or with the new parent, and not when a cancel
-- function of the old one is called that the new parent does not hang on.
pub cancel-child :
    (sc : ServiceContext) (name : String) (parent : Context) (i k : ℕ) (js : List ℕ)
    → called i sc.context ≡ false
    → called k (i ∷ parent) ≡ false
    → (is_done (with_name sc name i).context (i ∷ js) ≡ true)
      × (is_done sc.context (i ∷ js) ≡ is_done sc.context js)
      × (is_done sc.context js ≡ true → is_done (with_name sc name i).context js ≡ true)
      × (is_done parent js ≡ true → is_done (with_parent sc parent i).context js ≡ true)
      × (is_done (with_parent sc parent i).context (k ∷ js)
          ≡ is_done (with_parent sc parent i).context js)
unfolding is_done with_name with_parent
cancel-child sc name parent i k js h n =
    ground (arith, is_done_fresh i sc.context js h, is_done_fresh k (i ∷ parent) js n)
