-- ===== src/Route/Publish/Orphan.antt =====
-- `object_broker_publish`: a delete at a higher priority than the route's leaves a route that the
-- table does not know, and whose release takes the table's entry for the topic with it.
use text.Mathlib.TextPositions.{eq_refl as text_eq_refl}
use vyatta_route_broker.Base.{
  ℕ, ◌<◌, ◌≡◌, ◌∙◌, refl, true, false, [], ◌∷◌, none, some, arith, ◌==◌, ltb, is_empty, contains,
  contains-append,
}
use vyatta_route_broker.Circleq.{insert_tail, remove}
use vyatta_route_broker.Broker.{broker_add_obj, broker_del_obj, broker_del_obj_now}
use vyatta_route_broker.Broker.Placed.{eq_refl}
use vyatta_route_broker.Zhash.{Zhash}
use vyatta_route_broker.Route.Types.{World, RouteBroker, rib_route_unlock}
use vyatta_route_broker.Route.Publish.{publish_delete}

module _ {H : Zhash} {D : Type 0} where
  -- When the last reference to a route goes, the table has no entry for its topic any more, even
  -- if that entry belongs to another route, which stays as it was.
  pub unlock_unhashes_other :
      (w : World H D) (r other : ℕ)
      → (w.rib_route r).refcount ≡ 1
      → H.lookup w.route_hashtbl (w.rib_route r).topic ≡ some other
      → (r == other) ≡ false
      → (H.lookup (rib_route_unlock w r).route_hashtbl (w.rib_route r).topic ≡ none)
        × ((rib_route_unlock w r).rib_route other ≡ w.rib_route other)
  unfolding rib_route_unlock
  unlock_unhashes_other w r other one found ne =
      rw (one, ne) (H.lookup-delete w.route_hashtbl _ _ ∙ rw text_eq_refl refl, refl)

  -- A delete of higher priority than the route in the table, while a client is connected: the new
  -- route stays in the queue of its priority, marked as deleted, and the table has no entry for
  -- the topic.
  pub publish_delete-orphan :
      (rb : RouteBroker H D) (route hashed pri : ℕ)
      → pri < (rb.rib_route hashed).pri
      → (rb.rib_route hashed).refcount ≡ 1
      → (rb.rib_route hashed).topic ≡ (rb.rib_route route).topic
      → is_empty (rb.route_broker pri).b_client_list ≡ false
      → let t = publish_delete rb route pri (some hashed) in
        (H.lookup t.route_hashtbl (rb.rib_route route).topic ≡ none)
        × (contains route (t.route_broker pri).b_obj_list ≡ true)
        × (((t.route_broker pri).mem route).is_delete ≡ true)
  unfolding publish_delete broker_add_obj broker_del_obj broker_del_obj_now
  publish_delete-orphan rb route hashed pri lt one same some_client =
      let higher : ltb pri (rb.rib_route hashed).pri ≡ true = ground arith in
      let apart : ((rb.rib_route hashed).pri == pri) ≡ false = ground arith in
      rw (higher, apart, eq_refl pri, some_client, one)
        (
          H.lookup-delete rb.route_hashtbl _ _ ∙ rw (same, text_eq_refl) refl,
          ground (
            arith,
            contains-append route
                (remove route (insert_tail (rb.route_broker pri).b_obj_list route)) (route ∷ []),
            eq_refl route,
          ),
          rw (eq_refl route) refl,
        )
