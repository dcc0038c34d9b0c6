-- ===== src/Route/Publish.antt =====
-- `object_broker_publish`: an update or a delete of a route goes to the broker of its priority.
pub mod Orphan
use vyatta_route_broker.Base.{
  ℕ, ◌+◌, ◌≡◌, refl, Bool, true, false, ◌&&◌, not, List, [], ◌∷◌, Option, none, some, String, arith,
  ◌==◌, ltb, if◌then◌else◌,
}
use vyatta_route_broker.Broker.{
  State, update, u64, broker_add_obj, broker_del_obj, broker_del_obj_now, broker_upd_obj,
}
use vyatta_route_broker.Zhash.{Zhash}
use vyatta_route_broker.Route.Types.{
  RibRoute, Callbacks, World, RouteBroker, route_broker_ops, at_level, free_data, free_route,
}
use vyatta_route_broker.Route.Client.{route_broker_wake_clients}

-- ROUTE_BROKER_ROUTE
abbrev pub route_type : ℕ
route_type = 0

module _ {H : Zhash} {D : Type 0} where
  -- The calls of the broker of a priority, for a route.
  unfoldable pub add_route : RouteBroker H D → ℕ → ℕ → RouteBroker H D
  unfolding at_level route_broker_ops
  add_route rb pri route = at_level rb pri (λ s. broker_add_obj route_broker_ops s route route_type)

  unfoldable pub del_route : RouteBroker H D → ℕ → ℕ → RouteBroker H D
  unfolding at_level route_broker_ops
  del_route rb pri route = at_level rb pri (λ s. broker_del_obj route_broker_ops s route)

  unfoldable pub force_out : RouteBroker H D → ℕ → ℕ → RouteBroker H D
  unfolding at_level route_broker_ops
  force_out rb pri route = at_level rb pri (λ s. broker_del_obj_now route_broker_ops s route)

  unfoldable pub upd_route : RouteBroker H D → ℕ → ℕ → RouteBroker H D
  unfolding at_level route_broker_ops
  upd_route rb pri route = at_level rb pri (λ s. broker_upd_obj route_broker_ops s route)

  unfoldable pub with_world : RouteBroker H D → World H D → RouteBroker H D
  with_world rb w = record rb { world = w }

  unfoldable pub hash_insert : RouteBroker H D → String → ℕ → RouteBroker H D
  hash_insert rb topic route = record rb {
    world = record (rb.world) { route_hashtbl = H.insert rb.route_hashtbl topic route };
  }

  -- The old data of a route is freed and replaced.
  unfoldable pub swap_data : RouteBroker H D → ℕ → D → RouteBroker H D
  unfolding free_data with_world
  swap_data rb hashed d =
      let w = free_data rb.world (rb.rib_route hashed).payload in
      with_world rb (record w {
        rib_route = update w.rib_route hashed (record (w.rib_route hashed) { payload = d });
      })

  -- The branches of `object_broker_publish` behind the lookup: for a delete and for an update,
  -- with and without a route of the topic in the table.
  unfoldable pub publish_delete : RouteBroker H D → ℕ → ℕ → Option ℕ → RouteBroker H D
  unfolding add_route del_route force_out with_world swap_data free_data free_route
  publish_delete rb route pri none =
      with_world rb (free_route (free_data rb.world (rb.rib_route route).payload) route)
  publish_delete rb route pri (some hashed) =
      if ltb pri (rb.rib_route hashed).pri
      then del_route (add_route (force_out rb (rb.rib_route hashed).pri hashed) pri route) pri route
      else (let t =
            del_route (swap_data rb hashed (rb.rib_route route).payload) (rb.rib_route hashed).pri
              hashed in
          with_world t (free_route t.world route))

  unfoldable pub publish_update : RouteBroker H D → ℕ → ℕ → Option ℕ → RouteBroker H D
  unfolding add_route upd_route force_out with_world swap_data free_route hash_insert
  publish_update rb route pri none =
      hash_insert (add_route rb pri route) (rb.rib_route route).topic route
  publish_update rb route pri (some hashed) =
      if ltb pri (rb.rib_route hashed).pri
      then hash_insert (add_route (force_out rb (rb.rib_route hashed).pri hashed) pri route)
          (rb.rib_route route).topic route
      else (let t = swap_data rb hashed (rb.rib_route route).payload in
          upd_route (with_world t (free_route t.world route)) (rb.rib_route hashed).pri hashed)

  -- A new route, zeroed by `calloc` and filled in.
  unfoldable pub new_route : RouteBroker H D → ℕ → ℕ → String → D → RouteBroker H D
  new_route rb addr pri topic d = record rb {
    world = record (rb.world) {
      rib_route =
          update rb.rib_route addr (record { refcount = 0; pri = pri; topic = topic; payload = d });
    };
  }

  unfoldable pub publish_route : RouteBroker H D → ℕ → ℕ → String × Bool → D → RouteBroker H D
  unfolding publish_delete publish_update new_route
  publish_route rb addr pri (topic, deleted) d =
      let t = new_route rb addr pri topic d in
      let hashed = H.lookup t.route_hashtbl topic in
      route_broker_wake_clients
        (if deleted then publish_delete t addr pri hashed else publish_update t addr pri hashed)

  unfoldable pub publish_copy : Callbacks D → RouteBroker H D → ℕ → ℕ → Option D → RouteBroker H D
  unfolding publish_route free_data free_route
  publish_copy cb rb addr pri none = record rb {
    dropped_msg = u64 (rb.dropped_msg + 1);
    world = free_route rb.world addr;
  }
  publish_copy cb rb addr pri (some d) = elim (cb.topic_gen d) [
    | none ↦ record rb {
      ignored_msg = u64 (rb.ignored_msg + 1);
      world = free_route (free_data rb.world d) addr;
    }
    | some t ↦ publish_route rb addr pri t d
  ]

  -- `addr` is what `calloc` returns for the route.
  unfoldable pub object_broker_publish :
      Callbacks D → RouteBroker H D → D → ℕ → Option ℕ → RouteBroker H D
  unfolding publish_copy
  object_broker_publish cb rb obj pri none = record rb {
    processed_msg = u64 (rb.processed_msg + 1);
    dropped_msg = u64 (rb.dropped_msg + 1);
  }
  object_broker_publish cb rb obj pri (some addr) =
      publish_copy cb (record rb { processed_msg = u64 (rb.processed_msg + 1) }) addr pri
        (cb.copy_obj obj)
