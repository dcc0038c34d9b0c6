-- ===== src/Route/Sync/Published.antt =====
-- What `object_broker_publish` leaves for a client that follows: the topic of the message is due, the
-- others are as they were, and the routes still have the topics that the table has them under.
use mathlib.Core.Path.{subst}
use mathlib.Core.Option.{map}
use text.Mathlib.Text.{◌==◌ as str_eq}
use vyatta_route_broker.Base.{
  ◌||◌, ℕ, ◌+◌, ◌≡◌, ◌∙◌, refl, ap, sym, inl, inr, Bool, true, false, Option, none, some, String,
  contains, Bool-cases, ltb, if◌then◌else◌,
}
use vyatta_route_broker.Broker.{u64}
use vyatta_route_broker.Zhash.{Zhash}
use vyatta_route_broker.Route.Types.{
  Callbacks, RouteBroker, free_data, free_route, route_priorities,
}
use vyatta_route_broker.Route.Publish.{publish_copy, object_broker_publish}
use vyatta_route_broker.Route.Sound.{RouteSound, Fresh, HasIds}
use vyatta_route_broker.Route.Sound.Branches.{NoOverride}
use vyatta_route_broker.Route.Sound.Whole.{NoOverridingDelete}
use vyatta_route_broker.Route.Table.{str_eq→eq}
use vyatta_route_broker.Route.View.{
  Seen, view, unwatched, message, at_topic, after_message, updated, withdrawn,
}
use vyatta_route_broker.Route.View.Whole.{object_broker_publish-view}
use vyatta_route_broker.Route.Sync.{Undisturbed, Described}
use vyatta_route_broker.Route.Sync.Publish.{Watches}
use vyatta_route_broker.Route.Sync.Message.{publish_route-Undisturbed}

module _ {D : Type 0} (cb : Callbacks D) where
  at_topic_same :
      (topic t : String) (entry : Option (Seen D)) (v : String → Option (Seen D))
      → str_eq topic t ≡ true
      → at_topic topic entry v t ≡ entry
  at_topic_same topic t entry v x = rw x refl

  at_topic_other :
      (topic t : String) (entry : Option (Seen D)) (v : String → Option (Seen D))
      → str_eq topic t ≡ false
      → at_topic topic entry v t ≡ v t
  at_topic_other topic t entry v x = rw x refl

  withdrawn_gone :
      (alone : ℕ → Bool) (pri : ℕ) (d : D) (old : Seen D)
      → (ltb pri old.pri || alone old.pri) ≡ true
      → withdrawn alone pri d (some old) ≡ none
  withdrawn_gone alone pri d old a = rw a refl

  withdrawn_kept :
      (alone : ℕ → Bool) (pri : ℕ) (d : D) (old : Seen D)
      → (ltb pri old.pri || alone old.pri) ≡ false
      → withdrawn alone pri d (some old)
        ≡ some (record { payload = d; deleted = true; pri = old.pri })
  withdrawn_kept alone pri d old a = rw a refl

  -- What the entry of a topic tells: new data, whether it is a delete, and one of the priorities.
  abbrev Entry : D → Bool → Seen D → Type 0
  Entry d deleted s =
      (s.payload ≡ d) × (s.deleted ≡ deleted) × (contains s.pri route_priorities ≡ true)

  updated-Entry :
      (pri : ℕ) (d : D) (old : Option (Seen D)) (s : Seen D)
      → ((o : Seen D) → old ≡ some o → contains o.pri route_priorities ≡ true)
      → contains pri route_priorities ≡ true
      → updated pri d old ≡ some s
      → Entry d false s
  updated-Entry pri d none s k p e =
      let new : Seen D = record { payload = d; deleted = false; pri = pri } in
      let same : new ≡ s = cc in subst (Entry d false) same (refl, refl, p)
  updated-Entry pri d (some old) s k p e =
      let new : Seen D = record {
        payload = d;
        deleted = false;
        pri = if ltb pri old.pri then pri else old.pri;
      } in
      let same : new ≡ s = cc in
      subst (Entry d false) same (
        refl,
        refl,
        elim (Bool-cases (ltb pri old.pri)) [ inl lt ↦ rw lt p | inr ge ↦ rw ge (k old refl) ],
      )

  withdrawn-Entry :
      (alone : ℕ → Bool) (pri : ℕ) (d : D) (old : Option (Seen D)) (s : Seen D)
      → ((o : Seen D) → old ≡ some o → contains o.pri route_priorities ≡ true)
      → withdrawn alone pri d old ≡ some s
      → Entry d true s
  withdrawn-Entry alone pri d none s k e = cc
  withdrawn-Entry alone pri d (some old) s k e =
      elim (Bool-cases (ltb pri old.pri || alone old.pri)) [
        | inl a ↦ absurd (cc (withdrawn_gone alone pri d old a, e))
        | inr a ↦
            let new : Seen D = record { payload = d; deleted = true; pri = old.pri } in
            let entry : some new ≡ some s = sym (withdrawn_kept alone pri d old a) ∙ e in
            let same : new ≡ s = cc in subst (Entry d true) same (refl, refl, k old refl)
      ]

  message-topic :
      (copy : Option D) (d : D) (g : Option (String × Bool))
      → map {B = D × Option (String × Bool)} (λ x. (x, cb.topic_gen x)) copy ≡ some (d, g)
      → cb.topic_gen d ≡ g
  message-topic none d g e = cc
  message-topic (some x) d g e =
      let same : (x, cb.topic_gen x) ≡ (d, g) = cc in
      ap cb.topic_gen (sym (ap (λ (y : D × Option (String × Bool)). y.0) same))
      ∙ ap (λ (y : D × Option (String × Bool)). y.1) same

  -- A message leaves every topic described.
  after_message-Described :
      (alone : ℕ → Bool) (pri : ℕ) (m : Option (D × Option (String × Bool)))
      (v : String → Option (Seen D))
      → ((d : D) (g : Option (String × Bool)) → m ≡ some (d, g) → cb.topic_gen d ≡ g)
      → contains pri route_priorities ≡ true
      → Described cb v
      → Described cb (after_message alone pri m v)
  after_message-Described alone pri none v g p k t s e = k t s e
  after_message-Described alone pri (some (d, none)) v g p k t s e = k t s e
  after_message-Described alone pri (some (d, some (topic, false))) v g p k t s e =
      elim (Bool-cases (str_eq topic t)) [
        | inl x ↦
            let entry =
              updated-Entry pri d (v topic) s (λ o q. (k topic o q).1) p
                (sym (at_topic_same topic t _ v x) ∙ e) in
            (
              ap cb.topic_gen entry.0
                  ∙ g d (some (topic, false)) refl
                  ∙ rw (str_eq→eq topic t x, entry.1) refl,
              entry.2,
            )
        | inr x ↦ k t s (sym (at_topic_other topic t _ v x) ∙ e)
      ]
  after_message-Described alone pri (some (d, some (topic, true))) v g p k t s e =
      elim (Bool-cases (str_eq topic t)) [
        | inl x ↦
            let entry =
              withdrawn-Entry alone pri d (v topic) s (λ o q. (k topic o q).1)
                (sym (at_topic_same topic t _ v x) ∙ e) in
            (
              ap cb.topic_gen entry.0
                  ∙ g d (some (topic, true)) refl
                  ∙ rw (str_eq→eq topic t x, entry.1) refl,
              entry.2,
            )
        | inr x ↦ k t s (sym (at_topic_other topic t _ v x) ∙ e)
      ]

module _ {H : Zhash} {D : Type 0} (cb : Callbacks D) where
  -- A state with the same brokers, table and routes.
  module _ {rb : RouteBroker H D} (c pri : ℕ) (t : String)
      (w : (topic : String) → Watches rb c pri topic) where
    dropped-Undisturbed : (a : ℕ) → Undisturbed rb (publish_copy cb rb a pri none) c t
    unfolding publish_copy free_route
    dropped-Undisturbed a = record { still_due = λ d. d; same_live = λ d. refl }

    ignored-Undisturbed :
        (a : ℕ) (d : D)
        → cb.topic_gen d ≡ none
        → Undisturbed rb (publish_copy cb rb a pri (some d)) c t
    unfolding publish_copy free_data free_route
    ignored-Undisturbed a d e =
        rw (e, publish_copy) (record { still_due = λ d. d; same_live = λ d. refl })

    generated-Undisturbed :
        (a : ℕ) (d : D) (g : Option (String × Bool))
        → RouteSound rb
        → HasIds rb
        → Fresh rb a
        → cb.topic_gen d ≡ g
        → ((topic : String)
            → g ≡ some (topic, true)
            → NoOverride rb pri (H.lookup rb.route_hashtbl topic))
        → Undisturbed rb (publish_copy cb rb a pri (some d)) c t
    unfolding publish_copy
    generated-Undisturbed a d none v ids f e n = ignored-Undisturbed a d e
    generated-Undisturbed a d (some (topic, deleted)) v ids f e n =
        rw (e, publish_copy)
          (publish_route-Undisturbed c a pri topic deleted d t v ids f
            (λ yes_del. n topic (rw yes_del refl)) (w topic))

    copied-Undisturbed :
        (obj : D) (a : ℕ) (copy : Option D)
        → RouteSound rb
        → HasIds rb
        → Fresh rb a
        → cb.copy_obj obj ≡ copy
        → NoOverridingDelete cb rb obj pri
        → Undisturbed rb (publish_copy cb rb a pri copy) c t
    copied-Undisturbed obj a none v ids f e n = dropped-Undisturbed a
    copied-Undisturbed obj a (some d) v ids f e n =
        generated-Undisturbed a d (cb.topic_gen d) v ids f refl (λ topic g. n d topic e g)

  -- A published message.
  pub object_broker_publish-Undisturbed :
      {rb : RouteBroker H D} (c : ℕ) (obj : D) (pri : ℕ) (addr : Option ℕ) (t : String)
      → RouteSound rb
      → HasIds rb
      → ((a : ℕ) → addr ≡ some a → Fresh rb a)
      → NoOverridingDelete cb rb obj pri
      → ((topic : String) → Watches rb c pri topic)
      → Undisturbed rb (object_broker_publish cb rb obj pri addr) c t
  unfolding object_broker_publish
  object_broker_publish-Undisturbed c obj pri none t v ids f n w = record {
    still_due = λ d. d;
    same_live = λ d. refl;
  }
  object_broker_publish-Undisturbed {rb} c obj pri (some a) t v ids f n w =
      let u = record rb { processed_msg = u64 (rb.processed_msg + 1) } in
      let fresh = f a refl in
      let k =
        copied-Undisturbed {rb = u} c pri t w obj a (cb.copy_obj obj)
          (record { levels = v.levels; tabled = v.tabled }) ids
          (record { unqueued = fresh.unqueued; not_freed = fresh.not_freed }) refl n in
      record { still_due = k.still_due; same_live = k.same_live }

  pub object_broker_publish-Described :
      {rb : RouteBroker H D} (obj : D) (pri : ℕ) (addr : Option ℕ)
      → RouteSound rb
      → HasIds rb
      → ((a : ℕ) → addr ≡ some a → Fresh rb a)
      → NoOverridingDelete cb rb obj pri
      → contains pri route_priorities ≡ true
      → Described cb (view rb)
      → Described cb (view (object_broker_publish cb rb obj pri addr))
  unfolding object_broker_publish
  object_broker_publish-Described obj pri none v ids f n p k t s e = k t s e
  object_broker_publish-Described {rb} obj pri (some a) v ids f n p k t s e =
      after_message-Described cb (unwatched rb) pri (message cb obj) (view rb)
        (message-topic cb (cb.copy_obj obj)) p k t s
        (sym (object_broker_publish-view cb rb obj pri a t v ids (f a refl)) ∙ e)
