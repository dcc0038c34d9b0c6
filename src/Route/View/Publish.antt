-- ===== src/Route/View/Publish.antt =====
-- An update, as an operation on the map from topics to routes.
use mathlib.Core.Option.{map}
use text.Mathlib.Text.{◌==◌ as str_eq}
use text.Mathlib.TextPositions.{eq_refl as text_eq_refl}
use vyatta_route_broker.Base.{
  ℕ, ◌≡◌, ◌∙◌, refl, ap, sym, inl, inr, false, Option, none, some, String, arith, ◌==◌,
  if◌then◌else◌, Bool-cases, Option-cases, ==→eq, ltb,
}
use vyatta_route_broker.Broker.{broker_add_obj, broker_upd_obj}
use vyatta_route_broker.Broker.Placed.{eq_refl}
use vyatta_route_broker.Zhash.{Zhash}
use vyatta_route_broker.Route.Types.{
  RibRoute, RouteBroker, free_data, free_route, at_level, route_broker_ops, rib_route_lock,
}
use vyatta_route_broker.Route.Table.{unqueued_ne, str_eq→eq}
use vyatta_route_broker.Route.Publish.{
  add_route, force_out, upd_route, with_world, hash_insert, swap_data, publish_update,
}
use vyatta_route_broker.Route.Sound.{RouteSound, queues, Fresh, Fresh-queues, HasIds}
use vyatta_route_broker.Route.Sound.Publish.{force_out-RouteSound}
use vyatta_route_broker.Route.Sound.Branches.{force_out-Cleared}
use vyatta_route_broker.Route.View.{seen, view, unwatched, updated, at_topic}
use vyatta_route_broker.Route.View.Steps.{
  seen-add, seen-add_other, seen-out_other, out-table, seen-upd, seen-upd_other,
}

module _ {H : Zhash} {D : Type 0} where
  -- States whose table leads from a topic to the same route, seen the same.
  pub same_view :
      (rb u : RouteBroker H D) (t : String)
      → H.lookup u.route_hashtbl t ≡ H.lookup rb.route_hashtbl t
      → ((r : ℕ) → H.lookup rb.route_hashtbl t ≡ some r → seen u r ≡ seen rb r)
      → view u t ≡ view rb t
  same_view rb u t e f = elim (Option-cases (H.lookup rb.route_hashtbl t)) [
    | inl n ↦ rw (e, n) refl
    | inr (r, s) ↦ rw (e, s) (ap some (f r s))
  ]

  pub new_ne :
      {rb : RouteBroker H D} (a r : ℕ) (t : String)
      → RouteSound rb
      → Fresh rb a
      → H.lookup rb.route_hashtbl t ≡ some r
      → (a == r) ≡ false
  new_ne {rb} a r t v f e =
      unqueued_ne (queues rb) a (rb.rib_route r).pri r (λ i. Fresh-queues a i f)
        (v.tabled.found t r e).0

  pub topic_apart :
      {rb : RouteBroker H D} (h r : ℕ) (topic t : String)
      → RouteSound rb
      → H.lookup rb.route_hashtbl topic ≡ some h
      → H.lookup rb.route_hashtbl t ≡ some r
      → str_eq topic t ≡ false
      → (h == r) ≡ false
  topic_apart {rb} h r topic t v eh er ne = elim (Bool-cases (h == r)) [
    | inl s ↦
        let same : topic ≡ t =
          sym (v.tabled.found topic h eh).1
          ∙ ap (λ y. (rb.rib_route y).topic) (==→eq h r s)
          ∙ (v.tabled.found t r er).1 in
        absurd (cc (sym ne ∙ ap (str_eq topic) (sym same) ∙ text_eq_refl topic))
    | inr s ↦ s
  ]

  entered-table :
      (rb : RouteBroker H D) (p a : ℕ) (topic t : String)
      → H.lookup rb.route_hashtbl topic ≡ none
      → H.lookup (hash_insert (add_route rb p a) topic a).route_hashtbl t
        ≡ (if str_eq topic t then some a else H.lookup rb.route_hashtbl t)
  unfolding hash_insert add_route at_level broker_add_obj route_broker_ops rib_route_lock
  entered-table rb p a topic t new =
      H.lookup-insert rb.route_hashtbl topic t a ∙ rw new (ground arith)

  entered-seen :
      (u : RouteBroker H D) (topic : String) (a r : ℕ) → seen (hash_insert u topic a) r ≡ seen u r
  unfolding hash_insert
  entered-seen u topic a r = refl

  -- A new route of a topic that the table does not know is entered.
  enter-view :
      {rb : RouteBroker H D} (p a : ℕ) (topic t : String)
      → RouteSound rb
      → Fresh rb a
      → (rb.rib_route a).pri ≡ p
      → H.lookup rb.route_hashtbl topic ≡ none
      → view (hash_insert (add_route rb p a) topic a) t
        ≡ at_topic topic
            (some (record { payload = (rb.rib_route a).payload; deleted = false; pri = p }))
            (view rb)
            t
  enter-view {rb} p a topic t v f e new = elim (Bool-cases (str_eq topic t)) [
    | inl s ↦
        rw (entered-table rb p a topic t new, s)
          (ap some (entered-seen (add_route rb p a) topic a a ∙ seen-add rb p a e))
    | inr s ↦ rw s (
        same_view rb (hash_insert (add_route rb p a) topic a) t
          (entered-table rb p a topic t new ∙ rw s refl)
          (λ r k.
            entered-seen (add_route rb p a) topic a r
            ∙ seen-add_other rb p a r (new_ne a r t v f k)))
  ]

  pub out-view_other :
      {rb : RouteBroker H D} (h : ℕ) (topic t : String)
      → RouteSound rb
      → H.lookup rb.route_hashtbl topic ≡ some h
      → str_eq topic t ≡ false
      → view (force_out rb (rb.rib_route h).pri h) t ≡ view rb t
  out-view_other {rb} h topic t v e ne =
      let p = (rb.rib_route h).pri in
      let known = v.tabled.found topic h e in
      let one = v.tabled.counted p h known.0 in
      same_view rb (force_out rb p h) t
        (rw (out-table rb p h one, known.1) (H.lookup-delete rb.route_hashtbl topic t ∙ rw ne refl))
        (λ r s. seen-out_other rb p h r one (topic_apart h r topic t v e s ne))

  -- The route `h` has other data, and nothing else that is seen is changed.
  pub record Swapped (rb w : RouteBroker H D) (h : ℕ) (d : D) : Type 0 where
    pub same_table : w.route_hashtbl ≡ rb.route_hashtbl
    pub new_payload : (w.rib_route h).payload ≡ d
    pub same_pri : (w.rib_route h).pri ≡ (rb.rib_route h).pri
    pub same_topic : (w.rib_route h).topic ≡ (rb.rib_route h).topic
    pub same_count : (w.rib_route h).refcount ≡ (rb.rib_route h).refcount
    pub same_watch : (i : ℕ) → unwatched w i ≡ unwatched rb i
    pub others : (r : ℕ) → (h == r) ≡ false → seen w r ≡ seen rb r

  pub swap_data-Swapped : (rb : RouteBroker H D) (h : ℕ) (d : D) → Swapped rb (swap_data rb h d) h d
  unfolding swap_data free_data with_world
  swap_data-Swapped rb h d = record {
    same_table = refl;
    new_payload = rw (eq_refl h) refl;
    same_pri = rw (eq_refl h) refl;
    same_topic = rw (eq_refl h) refl;
    same_count = rw (eq_refl h) refl;
    same_watch = λ i. refl;
    others = λ r ne. rw ne refl;
  }

  freed-Swapped :
      {rb w : RouteBroker H D} {h : ℕ} {d : D} (a : ℕ)
      → Swapped rb w h d
      → Swapped rb (with_world w (free_route w.world a)) h d
  unfolding with_world free_route
  freed-Swapped a s = record {
    same_table = s.same_table;
    new_payload = s.new_payload;
    same_pri = s.same_pri;
    same_topic = s.same_topic;
    same_count = s.same_count;
    same_watch = s.same_watch;
    others = s.others;
  }

  upd-table : (rb : RouteBroker H D) (p h : ℕ) → (upd_route rb p h).route_hashtbl ≡ rb.route_hashtbl
  unfolding upd_route at_level broker_upd_obj
  upd-table rb p h = refl

  -- The route of the topic is renewed in place.
  renewed-view :
      {rb w : RouteBroker H D} {d : D} (h : ℕ) (topic t : String)
      → RouteSound rb
      → H.lookup rb.route_hashtbl topic ≡ some h
      → Swapped rb w h d
      → view (upd_route w (rb.rib_route h).pri h) t
        ≡ at_topic topic
            (some (record { payload = d; deleted = false; pri = (rb.rib_route h).pri }))
            (view rb)
            t
  renewed-view {rb} {w} {d} h topic t v e s =
      let p = (rb.rib_route h).pri in
      let u = upd_route w p h in
      let table : u.route_hashtbl ≡ rb.route_hashtbl = upd-table w p h ∙ s.same_table in
      elim (Bool-cases (str_eq topic t)) [
        | inl q ↦
            rw (table, q, sym (str_eq→eq topic t q), e)
              (ap some (seen-upd w p h s.same_pri ∙ rw (s.new_payload) refl))
        | inr q ↦ rw q (
            same_view rb u t (rw table refl) (λ r k.
              let ne = topic_apart h r topic t v e k q in
              seen-upd_other w p h r ne ∙ s.others r ne))
      ]

  -- What an update makes of the map.
  pub publish_update-view :
      {rb : RouteBroker H D} (a pri : ℕ) (topic : String) (hashed : Option ℕ) (t : String)
      → RouteSound rb
      → HasIds rb
      → Fresh rb a
      → (rb.rib_route a).pri ≡ pri
      → (rb.rib_route a).topic ≡ topic
      → H.lookup rb.route_hashtbl topic ≡ hashed
      → view (publish_update rb a pri hashed) t
        ≡ at_topic topic (updated pri (rb.rib_route a).payload (map (seen rb) hashed)) (view rb) t
  unfolding publish_update
  publish_update-view {rb} a pri topic none t v ids f p k e =
      rw k (enter-view pri a topic t v f p e)
  publish_update-view {rb} a pri topic (some h) t v ids f p k e =
      elim (Bool-cases (ltb pri (rb.rib_route h).pri)) [
        | inl lt ↦
            let c = force_out-Cleared topic h a v ids f e in
            let u = force_out rb (rb.rib_route h).pri h in
            let same = ap (λ (o : RibRoute D). o.payload) c.same_new in
            let entered =
              enter-view {rb = u} pri a topic t (force_out-RouteSound topic h v e) c.fresh
                (ap (λ (o : RibRoute D). o.pri) c.same_new ∙ p) c.gone in
            rw (lt, k)
              (entered ∙ elim (Bool-cases (str_eq topic t)) [
                | inl s ↦ rw (s, same) refl
                | inr s ↦ rw s (out-view_other h topic t v e s)
              ])
        | inr ge ↦ rw ge (
            renewed-view h topic t v e
              (freed-Swapped a (swap_data-Swapped rb h (rb.rib_route a).payload)))
      ]
