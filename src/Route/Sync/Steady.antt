-- ===== src/Route/Sync/Steady.antt =====
-- The calls for clients, for a client that follows: they take nothing from what it has still to be
-- told of, and remove no route but those that were withdrawn.
use vyatta_route_broker.Base.{
  ℕ, ◌≡◌, ◌∙◌, refl, ap, sym, inl, inr, true, false, none, some, String, contains, Bool-cases,
  Option-cases,
}
use vyatta_route_broker.Zhash.{Zhash}
use vyatta_route_broker.Route.Types.{Callbacks, RouteBroker, route_priorities}
use vyatta_route_broker.Route.Sound.{RouteSound, queues}
use vyatta_route_broker.Route.View.{Seen, seen, view}
use vyatta_route_broker.Route.View.Read.{KeptOrGone}
use vyatta_route_broker.Route.Sync.{Undisturbed, Described, live, wanted, due-Awaited, wanted-due}

live_deleted : {D : Type 0} (s : Seen D) → s.deleted ≡ true → live (some s) ≡ none
live_deleted s e = rw e refl

module _ {H : Zhash} {D : Type 0} where
  pub record Steady (rb u : RouteBroker H D) (c : ℕ) : Type 0 where
    pub still_wanted :
        (i r : ℕ)
        → contains i route_priorities ≡ true
        → wanted rb c i r ≡ true
        → wanted u c i r ≡ true
    pub same_topics : (r : ℕ) → (u.rib_route r).topic ≡ (rb.rib_route r).topic

  pub Steady-trans :
      {rb u w : RouteBroker H D} {c : ℕ} → Steady rb u c → Steady u w c → Steady rb w c
  Steady-trans k l = record {
    still_wanted = λ i r p h. l.still_wanted i r p (k.still_wanted i r p h);
    same_topics = λ r. l.same_topics r ∙ k.same_topics r;
  }

  pub KeptOrGone-live :
      (rb u : RouteBroker H D) (t : String) → KeptOrGone rb u t → live (view u t) ≡ live (view rb t)
  KeptOrGone-live rb u t (inl same) = ap live same
  KeptOrGone-live rb u t (inr (gone, (old, was, d))) =
      ap live gone ∙ sym (ap live was ∙ live_deleted old d)

  pub KeptOrGone-Described :
      (cb : Callbacks D) (rb u : RouteBroker H D)
      → ((t : String) → KeptOrGone rb u t)
      → Described cb (view rb)
      → Described cb (view u)
  KeptOrGone-Described cb rb u g k t s e = elim (g t) [
    | inl same ↦ k t s (sym same ∙ e)
    | inr (gone, _) ↦ absurd (cc (gone, e))
  ]

  pub Steady-Undisturbed :
      (cb : Callbacks D) {rb u : RouteBroker H D} (c : ℕ) (t : String)
      → RouteSound rb
      → RouteSound u
      → Described cb (view rb)
      → Steady rb u c
      → KeptOrGone rb u t
      → Undisturbed rb u c t
  Steady-Undisturbed cb {rb} {u} c t v w k st g = record {
    still_due = λ d.
        let x = due-Awaited c t v d in
        let p = (k t (seen rb x.route) (rw (x.looked_up) refl)).1 in
        wanted-due c x.level x.route t w (st.same_topics x.route ∙ x.of_topic)
          (st.still_wanted x.level x.route (rw (sym x.at_level) p) x.still);
    same_live = λ d. KeptOrGone-live rb u t g;
  }

  -- A state with the same routes, in which queues may have lost routes that were withdrawn.
  pub record Pruned (rb u : RouteBroker H D) : Type 0 where
    pub same_payload : (r : ℕ) → (u.rib_route r).payload ≡ (rb.rib_route r).payload
    pub same_pri : (r : ℕ) → (u.rib_route r).pri ≡ (rb.rib_route r).pri
    pub same_topic : (r : ℕ) → (u.rib_route r).topic ≡ (rb.rib_route r).topic
    pub same_mark :
        (i r : ℕ)
        → queues u i r ≡ true
        → ((u.route_broker i).mem r).is_delete ≡ ((rb.route_broker i).mem r).is_delete
    pub fewer : (i r : ℕ) → queues u i r ≡ true → queues rb i r ≡ true
    pub remain :
        (i r : ℕ)
        → queues rb i r ≡ true
        → ((rb.route_broker i).mem r).is_delete ≡ false
        → queues u i r ≡ true

  pub Pruned-trans : {rb u w : RouteBroker H D} → Pruned rb u → Pruned u w → Pruned rb w
  Pruned-trans {rb} {u} {w} k l = record {
    same_payload = λ r. l.same_payload r ∙ k.same_payload r;
    same_pri = λ r. l.same_pri r ∙ k.same_pri r;
    same_topic = λ r. l.same_topic r ∙ k.same_topic r;
    same_mark = λ i r q. l.same_mark i r q ∙ k.same_mark i r (l.fewer i r q);
    fewer = λ i r q. k.fewer i r (l.fewer i r q);
    remain = λ i r q d. l.remain i r (k.remain i r q d) (k.same_mark i r (k.remain i r q d) ∙ d);
  }

  same_seen :
      {rb u : RouteBroker H D} (r : ℕ)
      → Pruned rb u
      → queues u (u.rib_route r).pri r ≡ true
      → seen u r ≡ seen rb r
  same_seen {rb} {u} r p q =
      rw (p.same_payload r, p.same_pri r)
        (ap
          (λ m. record {
            payload = (rb.rib_route r).payload;
            deleted = m;
            pri = (rb.rib_route r).pri;
          })
          (p.same_mark (rb.rib_route r).pri r (ap (λ i. queues u i r) (sym (p.same_pri r)) ∙ q)))

  -- A route that is no longer in the table was withdrawn.
  withdrawn_mark :
      {rb u : RouteBroker H D} (i r : ℕ) (t : String)
      → RouteSound u
      → Pruned rb u
      → (queues rb i r ≡ true) × ((rb.rib_route r).topic ≡ t)
      → H.lookup u.route_hashtbl t ≡ none
      → ((rb.route_broker i).mem r).is_delete ≡ true
  withdrawn_mark {rb} {u} i r t w p f e =
      elim (Bool-cases (((rb.route_broker i).mem r).is_delete)) [
        | inl d ↦ d
        | inr d ↦
            let k = w.tabled.known i r (p.remain i r f.0 d) in
            let same = ap (H.lookup u.route_hashtbl) (p.same_topic r ∙ f.1) in
            absurd (cc (k, same, e))
      ]

  pub Pruned-KeptOrGone :
      {rb u : RouteBroker H D} (t : String)
      → RouteSound rb
      → RouteSound u
      → Pruned rb u
      → KeptOrGone rb u t
  Pruned-KeptOrGone {rb} {u} t v w p = elim (Option-cases (H.lookup u.route_hashtbl t)) [
    | inr (r, e) ↦
        let f = w.tabled.found t r e in
        let q : queues rb (rb.rib_route r).pri r ≡ true =
          ap (λ i. queues rb i r) (sym (p.same_pri r)) ∙ p.fewer (u.rib_route r).pri r f.0 in
        let k : H.lookup rb.route_hashtbl t ≡ some r =
          rw (sym f.1, p.same_topic r) (v.tabled.known (rb.rib_route r).pri r q) in
        inl (rw (e, k) (ap some (same_seen r p f.0)))
    | inl e ↦ elim (Option-cases (H.lookup rb.route_hashtbl t)) [
      | inl n ↦ inl (rw (e, n) refl)
      | inr (r, k) ↦
          let f = v.tabled.found t r k in
          inr (rw e refl, (seen rb r, rw k refl, withdrawn_mark (rb.rib_route r).pri r t w p f e))
    ]
  ]
