-- ===== src/Daemon/Start/Updates.antt =====
-- The updates of the services' goroutines, and the order in which the states watcher receives them.
use rxd.Base.{
  ◌≡◌, ◌≢◌, refl, sym, ap, ◌∙◌, Bool, true, false, String, List, [], ◌∷◌, ◌++◌, Dict, lookup,
  insert, Option, none, some, if◌then◌else◌, All, IsMap, insert-IsMap, Entries, Entries-insert,
  Entries-lookup, lookup-insert, str_eq, eq_iff, arith, Bool-cases, inl, inr,
}
use rxd.States.{State, StateTransition, StateUpdate, ServiceStateUpdate}
use rxd.Manager.{Effect, sends, calls, logs, arms}
use rxd.Manager.Protocol.{Phase, quiet, broken, entered, inside, phase, next_phase}
use rxd.Daemon.Start.{sent, concat, next_of, interleave}

-- The last state that the updates give a service.
abbrev pub final : String → Option StateUpdate → List ServiceStateUpdate → Option StateUpdate
final k o [] = o
final k o (u ∷ us) =
    final k
      (if str_eq u.name k then some (record { state = u.state; transition = u.transition }) else o)
      us

abbrev pub AreNamed : String → List ServiceStateUpdate → Type 0
AreNamed k us = All (λ u. u.name ≡ k) us

pub final-append :
    (k : String) (xs ys : List ServiceStateUpdate) (o : Option StateUpdate)
    → final k o (xs ++ ys) ≡ final k (final k o xs) ys
final-append k [] ys o = refl
final-append k (x ∷ xs) ys o =
    final-append k xs ys
      (if str_eq x.name k then some (record { state = x.state; transition = x.transition }) else o)

final_other :
    (k j : String) (o : Option StateUpdate) (us : List ServiceStateUpdate)
    → AreNamed j us
    → j ≢ k
    → final k o us ≡ o
final_other k j o [] h n = refl
final_other k j o (u ∷ us) h n = ground (arith, h.0, eq_iff u.name k, final_other k j o us h.1 n)

-- The state that a service's own updates leave.
abbrev pub final_of :
    String → Option StateUpdate → Option (List ServiceStateUpdate) → Option StateUpdate
final_of k o none = o
final_of k o (some us) = final k o us

final-concat :
    (k : String) (o : Option StateUpdate) (m : Dict (List ServiceStateUpdate))
    → IsMap m
    → Entries AreNamed m
    → final k o (concat m) ≡ final_of k o (lookup k m)
unfolding lookup
final-concat k o [] v h = refl
final-concat k o ((j, us) ∷ m) v h =
    final-append k us (concat m) o
    ∙ final-concat k (final k o us) m v.1 h.1
    ∙ gate (str_eq j k) refl
  where
    gate :
        (c : Bool)
        → str_eq j k ≡ c
        → final_of k (final k o us) (lookup k m) ≡ final_of k o (if c then some us else lookup k m)
    gate true e =
        ap (λ l. final_of k (final k o us) l) (ap (λ n. lookup n m) (sym ((eq_iff j k).0 e)) ∙ v.0)
    gate false e =
        ap (λ o'. final_of k o' (lookup k m))
          (final_other k j o us h.0 (λ q. let x : false ≡ true = sym e ∙ (eq_iff j k).1 q in cc))

-- Whatever the order, each service's state is the one that its own updates leave.
pub final-interleave :
    (k : String) (o : Option StateUpdate) (schedule : List String)
    (m : Dict (List ServiceStateUpdate))
    → IsMap m
    → Entries AreNamed m
    → final k o (interleave schedule m) ≡ final_of k o (lookup k m)
unfolding interleave
final-interleave k o [] m v h = final-concat k o m v h
final-interleave k o (name ∷ schedule) m v h =
    gate (lookup name m) refl (final-interleave k o schedule m v h) (λ o' us w.
      final-interleave k o' schedule (insert name us m) (insert-IsMap name us m v)
        (Entries-insert AreNamed name us m w h))
  where
    gate :
        (l : Option (List ServiceStateUpdate))
        → lookup name m ≡ l
        → final k o (interleave schedule m) ≡ final_of k o (lookup k m)
        → ((o' : Option StateUpdate) (us : List ServiceStateUpdate)
            → AreNamed name us
            → final k o' (interleave schedule (insert name us m))
              ≡ final_of k o' (lookup k (insert name us m)))
        → final k o
            (next_of l (λ u us. u ∷ interleave schedule (insert name us m)) (interleave schedule m))
          ≡ final_of k o (lookup k m)
    gate none e same next = same
    gate (some []) e same next = same
    gate (some (u ∷ us)) e same next =
        let named = Entries-lookup AreNamed name (u ∷ us) m h e in
        next _ us named.1
        ∙ ground (arith, named.0, eq_iff u.name k, eq_iff name k, lookup-insert name k us m, e)

-- What the automaton has seen agrees with the last state announced.
abbrev pub entering : State → StateUpdate
entering s = record { state = s; transition = StateTransition.entering }

phase-broken : (k : String) (es : List Effect) → phase k broken es ≡ broken
phase-broken k [] = refl
phase-broken k (sends u ∷ es) = phase-broken k es
phase-broken k (calls s ∷ es) = phase-broken k es
phase-broken k (logs l m ∷ es) = phase-broken k es
phase-broken k (arms d ∷ es) = phase-broken k es

-- An update under another name breaks the automaton.
other-broken :
    (k : String) (p : Phase) (u : ServiceStateUpdate)
    → str_eq u.name k ≡ false
    → next_phase k p (sends u) ≡ broken
other-broken k quiet u h = ground (arith, h)
other-broken k broken u h = refl
other-broken k (entered s) u h = ground (arith, h)
other-broken k (inside s) u h = ground (arith, h)

-- An accepted run bears its service's name in every update.
pub sent-AreNamed :
    (k : String) (p : Phase) (es : List Effect) → phase k p es ≢ broken → AreNamed k (sent es)
sent-AreNamed k p [] h = tt
sent-AreNamed k p (sends u ∷ es) h = elim (Bool-cases (str_eq u.name k)) [
  | inl e ↦ ((eq_iff u.name k).0 e, sent-AreNamed k (next_phase k p (sends u)) es h)
  | inr e ↦ absurd (h (ap (λ q. phase k q es) (other-broken k p u e) ∙ phase-broken k es))
]
sent-AreNamed k p (calls s ∷ es) h = sent-AreNamed k (next_phase k p (calls s)) es h
sent-AreNamed k p (logs l m ∷ es) h = sent-AreNamed k p es h
sent-AreNamed k p (arms d ∷ es) h = sent-AreNamed k p es h

abbrev pub Agrees : Phase → Option StateUpdate → Type 0
Agrees p o = (s : State) → p ≡ entered s → o ≡ some (entering s)

update-Agrees :
    (k : String) (p : Phase) (u : ServiceStateUpdate) (o : Option StateUpdate)
    → Agrees (next_phase k p (sends u)) (
        if str_eq u.name k then some (record { state = u.state; transition = u.transition }) else o)
update-Agrees k quiet u o s e = ground (arith, e)
update-Agrees k broken u o s e = ground (arith, e)
update-Agrees k (entered t) u o s e = ground (arith, e)
update-Agrees k (inside t) u o s e = ground (arith, e)

call_ne_entered : (k : String) (p : Phase) (t s : State) → next_phase k p (calls t) ≢ entered s
call_ne_entered k quiet t s e = ground (arith, e)
call_ne_entered k broken t s e = ground (arith, e)
call_ne_entered k (entered r) t s e = ground (arith, e)
call_ne_entered k (inside r) t s e = ground (arith, e)

-- A run that the automaton leaves in `entered s` has announced s last.
pub final-sent :
    (k : String) (es : List Effect) (p : Phase) (o : Option StateUpdate) (s : State)
    → Agrees p o
    → phase k p es ≡ entered s
    → final k o (sent es) ≡ some (entering s)
final-sent k [] p o s a h = a s h
final-sent k (sends u ∷ es) p o s a h =
    final-sent k es (next_phase k p (sends u)) _ s (update-Agrees k p u o) h
final-sent k (calls t ∷ es) p o s a h =
    final-sent k es (next_phase k p (calls t)) o s (λ s' e. absurd (call_ne_entered k p t s' e)) h
final-sent k (logs l m ∷ es) p o s a h = final-sent k es p o s a h
final-sent k (arms d ∷ es) p o s a h = final-sent k es p o s a h
