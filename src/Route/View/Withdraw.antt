-- ===== src/Route/View/Withdraw.antt =====
-- A delete, as an operation on the map from topics to routes.
use mathlib.Core.Option.{map}
use text.Mathlib.Text.{◌==◌ as str_eq}
use vyatta_route_broker.Base.{
  ℕ, ◌+◌, false, ltb, ◌≡◌, ◌∙◌, refl, ap, sym, inl, inr, Option, none, some, String, Bool-cases,
}
use vyatta_route_broker.Zhash.{Zhash}
use vyatta_route_broker.Route.Types.{
  RibRoute, RouteBroker, free_data, free_route, at_level, route_broker_ops, rib_route_lock, u32,
}
use vyatta_route_broker.Route.Table.{str_eq→eq}
use vyatta_route_broker.Route.Publish.{
  add_route, force_out, del_route, with_world, swap_data, publish_delete,
}
use vyatta_route_broker.Broker.{broker_add_obj}
use vyatta_route_broker.Broker.Placed.{eq_refl}
use vyatta_route_broker.Route.Sound.{RouteSound, Fresh, HasIds}
use vyatta_route_broker.Route.Sound.Publish.{force_out-RouteSound}
use vyatta_route_broker.Route.Sound.Branches.{force_out-Cleared}
use vyatta_route_broker.Route.View.{seen, view, unwatched, withdrawn, at_topic}
use vyatta_route_broker.Route.View.Publish.{
  same_view, new_ne, out-view_other, topic_apart, Swapped, swap_data-Swapped,
}
use vyatta_route_broker.Route.View.Steps.{
  seen-add_other, seen-del, seen-del_other, del-table_watched, del-table_unwatched,
}

module _ {H : Zhash} {D : Type 0} where
  freed-view :
      (rb : RouteBroker H D) (a : ℕ) (t : String)
      → view (with_world rb (free_route rb.world a)) t ≡ view rb t
  unfolding with_world free_route
  freed-view rb a t = refl

  -- The route of the topic is marked as deleted, or goes when nobody has to be told.
  withdrawn-view :
      {rb w : RouteBroker H D} {d : D} (pri h : ℕ) (topic t : String)
      → RouteSound rb
      → H.lookup rb.route_hashtbl topic ≡ some h
      → Swapped rb w h d
      → ltb pri (rb.rib_route h).pri ≡ false
      → view (del_route w (rb.rib_route h).pri h) t
        ≡ at_topic topic (withdrawn (unwatched rb) pri d (some (seen rb h))) (view rb) t
  withdrawn-view {rb} {w} {d} pri h topic t v e s ge =
      let p = (rb.rib_route h).pri in
      let u = del_route w p h in
      let known = v.tabled.found topic h e in
      let one : (w.rib_route h).refcount ≡ 1 = s.same_count ∙ v.tabled.counted p h known.0 in
      elim (Bool-cases (unwatched rb p)) [
        | inl x ↦
            let gone : u.route_hashtbl ≡ H.delete rb.route_hashtbl topic =
              del-table_unwatched w p h one (s.same_watch p ∙ x)
              ∙ rw (s.same_table, s.same_topic, known.1) refl in
            elim (Bool-cases (str_eq topic t)) [
              | inl q ↦ rw (gone, H.lookup-delete rb.route_hashtbl topic t, q, ge, x) refl
              | inr q ↦ rw q (
                  same_view rb u t (rw (gone, H.lookup-delete rb.route_hashtbl topic t, q) refl)
                    (λ r k.
                      let ne = topic_apart h r topic t v e k q in
                      seen-del_other w p h r one ne ∙ s.others r ne))
            ]
        | inr x ↦
            let table : u.route_hashtbl ≡ rb.route_hashtbl =
              del-table_watched w p h (s.same_watch p ∙ x) ∙ s.same_table in
            elim (Bool-cases (str_eq topic t)) [
              | inl q ↦
                  rw (table, q, ge, x, sym (str_eq→eq topic t q), e)
                    (ap some
                      (seen-del w p h s.same_pri (s.same_watch p ∙ x) ∙ rw (s.new_payload) refl))
              | inr q ↦ rw q (
                  same_view rb u t (rw table refl) (λ r k.
                    let ne = topic_apart h r topic t v e k q in
                    seen-del_other w p h r one ne ∙ s.others r ne))
            ]
      ]

  unknown-view :
      (rb : RouteBroker H D) (a : ℕ) (d : D) (topic t : String)
      → H.lookup rb.route_hashtbl topic ≡ none
      → view (with_world rb (free_route (free_data rb.world d) a)) t
        ≡ at_topic topic none (view rb) t
  unfolding with_world free_route free_data
  unknown-view rb a d topic t e = elim (Bool-cases (str_eq topic t)) [
    | inl q ↦ rw (q, sym (str_eq→eq topic t q), e) refl
    | inr q ↦ rw q refl
  ]

  added-table :
      (rb : RouteBroker H D) (p a : ℕ) → (add_route rb p a).route_hashtbl ≡ rb.route_hashtbl
  unfolding add_route at_level broker_add_obj route_broker_ops rib_route_lock
  added-table rb p a = refl

  added-route :
      (rb : RouteBroker H D) (p a : ℕ)
      → (add_route rb p a).rib_route a
        ≡ record (rb.rib_route a) { refcount = u32 ((rb.rib_route a).refcount + 1) }
  unfolding add_route at_level broker_add_obj route_broker_ops rib_route_lock
  added-route rb p a = rw (eq_refl a) refl

  -- Of a topic that the table does not know, a new route is added and deleted again.
  passing-view :
      {rb : RouteBroker H D} (p a : ℕ) (topic t : String)
      → RouteSound rb
      → Fresh rb a
      → (rb.rib_route a).refcount ≡ 0
      → (rb.rib_route a).topic ≡ topic
      → H.lookup rb.route_hashtbl topic ≡ none
      → view (del_route (add_route rb p a) p a) t ≡ view rb t
  passing-view {rb} p a topic t v f z k new =
      let w = add_route rb p a in
      let o = added-route rb p a in
      let one : (w.rib_route a).refcount ≡ 1 = rw (o, z) refl in
      let same : (w.rib_route a).topic ≡ topic = rw o k in
      let table : H.lookup (del_route w p a).route_hashtbl t ≡ H.lookup rb.route_hashtbl t =
        elim (Bool-cases (unwatched w p)) [
          | inl x ↦
              rw (del-table_unwatched w p a one x, same, added-table rb p a)
                (H.lookup-delete rb.route_hashtbl topic t ∙ elim (Bool-cases (str_eq topic t)) [
                  | inl q ↦ rw (q, sym (str_eq→eq topic t q)) (sym new)
                  | inr q ↦ rw q refl
                ])
          | inr x ↦ rw (del-table_watched w p a x, added-table rb p a) refl
        ] in
      same_view rb (del_route w p a) t table (λ r e.
        let ne = new_ne a r t v f e in seen-del_other w p a r one ne ∙ seen-add_other rb p a r ne)

  -- The route of the topic is forced out, and the table loses the topic.
  override-view :
      {rb : RouteBroker H D} (a pri h : ℕ) (topic t : String)
      → RouteSound rb
      → HasIds rb
      → Fresh rb a
      → (rb.rib_route a).refcount ≡ 0
      → (rb.rib_route a).topic ≡ topic
      → H.lookup rb.route_hashtbl topic ≡ some h
      → view (del_route (add_route (force_out rb (rb.rib_route h).pri h) pri a) pri a) t
        ≡ at_topic topic none (view rb) t
  override-view {rb} a pri h topic t v ids f z k e =
      let c = force_out-Cleared topic h a v ids f e in
      let u = force_out rb (rb.rib_route h).pri h in
      passing-view {rb = u} pri a topic t (force_out-RouteSound topic h v e) c.fresh
        (ap (λ (o : RibRoute D). o.refcount) c.same_new ∙ z)
        (ap (λ (o : RibRoute D). o.topic) c.same_new ∙ k) c.gone
      ∙ elim (Bool-cases (str_eq topic t)) [
        | inl q ↦ rw (q, sym (str_eq→eq topic t q), c.gone) refl
        | inr q ↦ rw q (out-view_other h topic t v e q)
      ]

  -- What a delete makes of the map.
  pub publish_delete-view :
      {rb : RouteBroker H D} (a pri : ℕ) (topic : String) (hashed : Option ℕ) (t : String)
      → RouteSound rb
      → HasIds rb
      → Fresh rb a
      → (rb.rib_route a).refcount ≡ 0
      → (rb.rib_route a).topic ≡ topic
      → H.lookup rb.route_hashtbl topic ≡ hashed
      → view (publish_delete rb a pri hashed) t
        ≡ at_topic topic
            (withdrawn (unwatched rb) pri (rb.rib_route a).payload (map (seen rb) hashed))
            (view rb)
            t
  unfolding publish_delete
  publish_delete-view {rb} a pri topic none t v ids f z k e =
      unknown-view rb a (rb.rib_route a).payload topic t e
  publish_delete-view {rb} a pri topic (some h) t v ids f z k e =
      elim (Bool-cases (ltb pri (rb.rib_route h).pri)) [
        | inl lt ↦ rw lt (override-view a pri h topic t v ids f z k e)
        | inr ge ↦ rw ge (
            freed-view (del_route (swap_data rb h (rb.rib_route a).payload) (rb.rib_route h).pri h)
              a t
            ∙ (withdrawn-view pri h topic t v e (swap_data-Swapped rb h (rb.rib_route a).payload) ge
                ∙ rw ge refl))
      ]
