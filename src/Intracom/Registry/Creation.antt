-- ===== src/Intracom/Registry/Creation.antt =====
-- Creating a topic twice, removing it, and two creations at once.
use rxd.Base.{
  ℕ, ◌+◌, ◌≡◌, refl, sym, ap, ◌∙◌, false, String, none, some, ◌∷◌, lookup, insert, delete,
  if◌then◌else◌, arith, IsMap, insert-IsMap, lookup-insert_self, lookup-delete, if-true, str_eq,
  eq_iff,
}
use rxd.Intracom.Topic.{Topic, TopicConfig, new_topic, topic_close}
use rxd.Intracom.Failures.{err_topic, creating_topic, topic_already_exists, invalid_topic_type}
use rxd.Intracom.Registry.{
  Intracom, create_topic, create_read, replaced, Made, topic, refused, remove_topic, remove_found,
}

-- What a creation answers when the registry names a topic of this kind.
abbrev pub second : String → ℕ → String → TopicConfig → Made
second kind reference kind' conf =
    if str_eq kind kind'
    then if conf.err_if_exists
      then refused (err_topic conf.name creating_topic topic_already_exists)
      else topic reference
    else refused (err_topic conf.name creating_topic invalid_topic_type)

module _ {A : Type 0} where
  -- The registry after a first creation.
  abbrev pub with_topic : String → Intracom A → TopicConfig → Intracom A
  with_topic kind ic conf = record ic {
    topics = insert conf.name (new_topic kind ic.next conf) ic.topics;
    next = ic.next + 1;
  }

  pub create_new :
      (kind : String) (ic : Intracom A) (conf : TopicConfig)
      → ic.closed ≡ false
      → lookup conf.name ic.topics ≡ none
      → create_topic kind (some ic) conf ≡ (some (with_topic kind ic conf), topic ic.next)
  unfolding create_topic create_read
  create_new kind ic conf h e = ground arith

  create_old :
      (kind : String) (ic : Intracom A) (conf : TopicConfig) (t : Topic A)
      → ic.closed ≡ false
      → lookup conf.name ic.topics ≡ some t
      → create_topic kind (some ic) conf ≡ (some ic, second t.kind t.reference kind conf)
  unfolding create_topic create_read
  create_old kind ic conf t h e = ground arith

-- Creating a topic and then one of the same name: the second call finds the first topic, whatever
-- the rest of its configuration. With the same message type it returns that topic, or an error if
-- it asked for one; with another it returns an error. It changes nothing.
pub create-create :
    {A : Type 0} (kind kind' : String) (ic : Intracom A) (conf conf' : TopicConfig)
    → ic.closed ≡ false
    → lookup conf.name ic.topics ≡ none
    → conf'.name ≡ conf.name
    → let (ic', made) = create_topic kind (some ic) conf in
      (made ≡ topic ic.next)
      × (create_topic kind' ic' conf' ≡ (ic', second kind ic.next kind' conf'))
unfolding new_topic
create-create kind kind' ic conf conf' h e q =
    let found : lookup conf'.name (with_topic kind ic conf).topics
        ≡ some (new_topic kind ic.next conf) =
      rw q (lookup-insert_self conf.name (new_topic kind ic.next conf) ic.topics) in
    rw (create_new kind ic conf h e)
      (refl, create_old kind' (with_topic kind ic conf) conf' (new_topic kind ic.next conf) h found)

remove_known :
    {A : Type 0} (kind : String) (ic : Intracom A) (name : String) (t : Topic A)
    → lookup name ic.topics ≡ some t
    → t.kind ≡ kind
    → t.closed ≡ false
    → remove_topic kind (some ic) name ≡ (
      some (record ic { topics = delete name ic.topics; gone = (topic_close t).0 ∷ ic.gone }),
      none,
    )
unfolding remove_topic remove_found topic_close
remove_known kind ic name t e k h = ground (arith, eq_iff t.kind kind)

-- Removing a topic after its creation closes it and frees its name, and creating it again makes a
-- new topic.
pub remove-create :
    {A : Type 0} (kind : String) (ic : Intracom A) (conf : TopicConfig)
    → IsMap ic.topics
    → ic.closed ≡ false
    → lookup conf.name ic.topics ≡ none
    → let (made_ic, made) = create_topic kind (some ic) conf in
      let (removed_ic, error) = remove_topic kind made_ic conf.name in
      let (again_ic, again) = create_topic kind removed_ic conf in
      (made ≡ topic ic.next) × (error ≡ none) × (again ≡ topic (ic.next + 1))
unfolding new_topic
remove-create kind ic conf v h e =
    let t = new_topic kind ic.next conf in
    let made_ic = with_topic kind ic conf in
    let removed_ic = record made_ic {
      topics = delete conf.name made_ic.topics;
      gone = (topic_close t).0 ∷ made_ic.gone;
    } in
    let gone : lookup conf.name removed_ic.topics ≡ none =
      lookup-delete conf.name conf.name made_ic.topics (insert-IsMap conf.name t ic.topics v)
      ∙ if-true (str_eq conf.name conf.name) _ _ ((eq_iff conf.name conf.name).1 refl) in
    rw
      (
        create_new kind ic conf h e,
        remove_known kind made_ic conf.name t (lookup-insert_self conf.name t ic.topics) refl refl,
        create_new kind removed_ic conf h gone,
      )
      (refl, refl, refl)

-- Two creations of one new name whose reads both come before the writes: both succeed, with two
-- topics, and the registry names the second alone.
pub create_race :
    {A : Type 0} (kind : String) (ic : Intracom A) (conf conf' : TopicConfig)
    → conf'.name ≡ conf.name
    → lookup conf.name ic.topics ≡ none
    → let (ic1, first) = create_read kind ic conf (lookup conf.name ic.topics) in
      let (ic2, last) = create_read kind ic1 conf' (lookup conf'.name ic.topics) in
      (first ≡ topic ic.next)
      × (last ≡ topic (ic.next + 1))
      × (lookup conf.name ic2.topics ≡ some (new_topic kind (ic.next + 1) conf'))
      × (ic2.gone ≡ new_topic kind ic.next conf ∷ ic.gone)
unfolding create_read
create_race kind ic conf conf' q e =
    let t = new_topic kind ic.next conf in
    let e' : lookup conf'.name ic.topics ≡ none = ap (λ k. lookup k ic.topics) q ∙ e in
    let other : lookup conf'.name (insert conf.name t ic.topics) ≡ some t =
      ap (λ k. lookup k (insert conf.name t ic.topics)) q
      ∙ lookup-insert_self conf.name t ic.topics in
    rw (e', e)
      (
        refl,
        refl,
        ap
              (λ k. lookup k (
                insert conf'.name (new_topic kind (ic.next + 1) conf')
                  (insert conf.name t ic.topics)))
              (sym q)
            ∙ lookup-insert_self conf'.name (new_topic kind (ic.next + 1) conf')
                (insert conf.name t ic.topics),
        ap (λ o. replaced o (replaced (lookup conf.name ic.topics) ic.gone)) other
            ∙ ap (λ o. t ∷ replaced o ic.gone) e,
      )
