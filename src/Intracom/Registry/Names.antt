-- ===== src/Intracom/Registry/Names.antt =====
-- The names of a registry, and what CreateTopic and RemoveTopic make of them.
use rxd.Base.{
  ◌∷◌, ◌≡◌, refl, sym, ap, ◌∙◌, subst, Bool, true, false, String, Option, none, some, Dict, lookup,
  insert, delete, lookup-insert, lookup-delete, if◌then◌else◌, Bool-cases, inl, inr, str_eq, eq_iff,
  arith,
}
use rxd.Intracom.Topic.{Topic, TopicConfig, new_topic, topic_close}
use rxd.Intracom.Failures.{err_topic, plain, removing_topic, invalid_topic_type}
use rxd.Intracom.Registry.{
  Intracom, create_topic, create_read, remove_topic, remove_found, Made, close_intracom,
}
use rxd.Intracom.Registry.Kept.{IsRegistry}
use rxd.Intracom.Registry.Operations.{Operation, create, remove, join, leave, shut}
use rxd.Intracom.Registry.Abstract.{
  Entry, Names, set, created, removed, removed_entry, Reply, made, ended, silent, created_reply,
  removed_reply, removed_entry_reply,
}

abbrev pub entry : {A : Type 0} → Topic A → Entry
entry t = record { kind = t.kind; reference = t.reference; is_closed = t.closed }

abbrev pub entry_of : {A : Type 0} → Option (Topic A) → Option Entry
entry_of none = none
entry_of (some t) = some (entry t)

-- The names of a registry.
abbrev pub names_of : {A : Type 0} → Intracom A → Names
names_of ic = record {
  at = λ k. entry_of (lookup k ic.topics);
  is_shut = ic.closed;
  next = ic.next;
}

abbrev pub reply : {A : Type 0} → Intracom A → Operation → Reply
reply ic (create kind conf) = made (create_topic kind (some ic) conf).1
reply ic (remove kind name) = ended (remove_topic kind (some ic) name).1
reply ic (join kind name max_wait conf ws w) = silent
reply ic (leave kind name consumer channel w) = silent
reply ic shut = ended (close_intracom (some ic)).1

pub record Agree (m n : Names) : Type 0 where
  pub at : (k : String) → m.at k ≡ n.at k
  pub is_shut : m.is_shut ≡ n.is_shut
  pub next : m.next ≡ n.next

abbrev pub AgreesOr : {A : Type 0} → Names → Option (Intracom A) → Type 0
AgreesOr n none = ⊥
AgreesOr n (some ic) = Agree n (names_of ic)

pub agree : (n : Names) → Agree n n
agree n = record { at = λ k. refl; is_shut = refl; next = refl }

set-same :
    (name : String) (e : Option Entry) (f : String → Option Entry) (k : String)
    → f name ≡ e
    → set name e f k ≡ f k
set-same name e f k h = elim (Bool-cases (str_eq name k)) [
  | inl y ↦ rw y (sym h ∙ ap f ((eq_iff name k).0 y))
  | inr y ↦ rw y refl
]

module _ {A : Type 0} where
  entry_of-if :
      (c : Bool) (t : Topic A) (o : Option (Topic A))
      → entry_of (if c then some t else o) ≡ (if c then some (entry t) else entry_of o)
  entry_of-if true t o = refl
  entry_of-if false t o = refl

  entry_of-insert :
      (name : String) (t : Topic A) (m : Dict (Topic A)) (k : String)
      → entry_of (lookup k (insert name t m))
        ≡ set name (some (entry t)) (λ j. entry_of (lookup j m)) k
  entry_of-insert name t m k =
      ap entry_of (lookup-insert name k t m) ∙ entry_of-if (str_eq name k) t (lookup k m)

  -- Another topic with the same entry, written under its name.
  pub rewritten :
      (ic : Intracom A) (name : String) (t t' : Topic A)
      → lookup name ic.topics ≡ some t
      → entry t' ≡ entry t
      → Agree (names_of ic) (names_of (record ic { topics = insert name t' ic.topics }))
  rewritten ic name t t' found same = record {
    at = λ k. sym (
        entry_of-insert name t' ic.topics k
        ∙ set-same name (some (entry t')) (λ j. entry_of (lookup j ic.topics)) k
            (ap entry_of found ∙ ap some (sym same)));
    is_shut = refl;
    next = refl;
  }

  entry_of-none :
      (c : Bool) (o : Option (Topic A))
      → entry_of (if c then none else o) ≡ (if c then none else entry_of o)
  entry_of-none true o = refl
  entry_of-none false o = refl

  pub create-Agree :
      (kind : String) (ic : Intracom A) (conf : TopicConfig) (o : Option (Topic A))
      → lookup conf.name ic.topics ≡ o
      → Agree
          (created kind conf (entry_of o) (names_of ic))
          (names_of (create_read kind ic conf o).0)
        × ((create_read kind ic conf o).1 ≡ created_reply kind conf (entry_of o) ic.next)
  unfolding create_read new_topic
  create-Agree kind ic conf none e = (
    record {
      at = λ k. sym (entry_of-insert conf.name (new_topic kind ic.next conf) ic.topics k);
      is_shut = refl;
      next = refl;
    },
    refl,
  )
  create-Agree kind ic conf (some t) e = gate (str_eq t.kind kind) conf.err_if_exists _ _ _
    where
      gate :
          (b c : Bool) (x y z : Made)
          → let p =
              (if b then (if◌then◌else◌ {A = Intracom A × Made} c (ic, x) (ic, y)) else (ic, z)) in
            Agree (names_of ic) (names_of p.0) × (p.1 ≡ (if b then (if c then x else y) else z))
      gate true true x y z = (agree (names_of ic), refl)
      gate true false x y z = (agree (names_of ic), refl)
      gate false c x y z = (agree (names_of ic), refl)

  -- The three ends of RemoveTopic on a topic that it finds.
  removed_open :
      (kind : String) (ic : Intracom A) (name : String) (t : Topic A)
      → str_eq t.kind kind ≡ true
      → t.closed ≡ false
      → remove_found kind ic name (some t)
        ≡ (record ic { topics = delete name ic.topics; gone = (topic_close t).0 ∷ ic.gone }, none)
  unfolding remove_found topic_close
  removed_open kind ic name t s f = ground arith

  removed_closed :
      (kind : String) (ic : Intracom A) (name : String) (t : Topic A)
      → str_eq t.kind kind ≡ true
      → t.closed ≡ true
      → remove_found kind ic name (some t) ≡ (
        record ic { topics = insert name t ic.topics },
        some (err_topic name removing_topic (plain "topic already closed")),
      )
  unfolding remove_found topic_close
  removed_closed kind ic name t s f = ground arith

  removed_other :
      (kind : String) (ic : Intracom A) (name : String) (t : Topic A)
      → str_eq t.kind kind ≡ false
      → remove_found kind ic name (some t)
        ≡ (ic, some (err_topic name removing_topic invalid_topic_type))
  unfolding remove_found topic_close
  removed_other kind ic name t s = ground arith

  remove-Agree :
      (kind : String) (ic : Intracom A) (name : String) (t : Topic A) (b c : Bool)
      → IsRegistry ic
      → lookup name ic.topics ≡ some t
      → str_eq t.kind kind ≡ b
      → t.closed ≡ c
      → Agree (removed b c name (names_of ic)) (names_of (remove_found kind ic name (some t)).0)
        × ((remove_found kind ic name (some t)).1 ≡ removed_reply b c name)
  remove-Agree kind ic name t true false v found same fresh =
      let e = removed_open kind ic name t same fresh in
      (
        subst (λ p. Agree (removed true false name (names_of ic)) (names_of {A = A} p.0)) (sym e)
            (record {
              at = λ k. sym (
                  ap entry_of (lookup-delete name k ic.topics v.unique)
                  ∙ entry_of-none (str_eq name k) (lookup k ic.topics));
              is_shut = refl;
              next = refl;
            }),
        ap (λ p. p.1) e,
      )
  remove-Agree kind ic name t true true v found same over =
      let e = removed_closed kind ic name t same over in
      (
        subst (λ p. Agree (names_of ic) (names_of {A = A} p.0)) (sym e)
            (rewritten ic name t t found refl),
        ap (λ p. p.1) e,
      )
  remove-Agree kind ic name t false c v found other any =
      let e = removed_other kind ic name t other in
      (subst (λ p. Agree (names_of ic) (names_of {A = A} p.0)) (sym e) (agree _), ap (λ p. p.1) e)

  pub remove_found-Agree :
      (kind : String) (ic : Intracom A) (name : String) (o : Option (Topic A))
      → IsRegistry ic
      → lookup name ic.topics ≡ o
      → Agree
          (removed_entry kind name (entry_of o) (names_of ic))
          (names_of (remove_found kind ic name o).0)
        × ((remove_found kind ic name o).1 ≡ removed_entry_reply kind name (entry_of o))
  unfolding remove_found
  remove_found-Agree kind ic name none v e = (agree _, refl)
  remove_found-Agree kind ic name (some t) v e =
      remove-Agree kind ic name t (str_eq t.kind kind) t.closed v e refl refl
