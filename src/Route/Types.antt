-- ===== src/Route/Types.antt =====
-- The state of broker/route_broker.c and of broker/route_broker_internal.h, and the callbacks by
-- which the brokers hold their routes.
use vyatta_route_broker.Base.{
  ℕ, ◌+◌, ◌-◌, ◌%◌, ◌^◌, Bool, List, [], ◌∷◌, Option, String, ◌==◌, if◌then◌else◌,
}
use vyatta_route_broker.Broker.{Broker, State, BrokerOps, update}
use vyatta_route_broker.Zhash.{Zhash}

-- ROUTE_CONNECTED, ROUTE_IGP and ROUTE_OTHER, below ROUTE_PRIORITY_MAX.
abbrev pub route_priorities : List ℕ
route_priorities = 0 ∷ 1 ∷ 2 ∷ []

abbrev pub route_priority_max : ℕ
route_priority_max = 3

abbrev pub u32 : ℕ → ℕ
u32 n = n % 2 ^ 32

-- `struct rib_route` beside its `broker_obj`; `D` is what `data` points to.
pub record RibRoute (D : Type 0) : Type 0 where
  pub refcount : ℕ
  pub pri : ℕ
  pub topic : String
  pub payload : D

-- What the topic callback makes of an object: `none` if it returns 0 or less, otherwise the topic
-- and whether the object is a delete.
pub record Callbacks (D : Type 0) : Type 0 where
  pub copy_obj : D → Option D
  pub topic_gen : D → Option (String × Bool)

module _ (H : Zhash) (D : Type 0) where
  -- What the routes share: their memory, the table, and what has been freed.
  pub record World : Type 0 where
    pub rib_route : ℕ → RibRoute D
    pub route_hashtbl : H.Table
    pub freed_routes : List ℕ
    pub freed_data : List D

  -- `level_client` gives the `broker_client` of a route broker client at each priority.
  pub record RouteBroker : Type 0 where
    pub route_broker : ℕ → Broker
    pub world : World
    pub open world use *
    pub client_list : List ℕ
    pub level_client : ℕ → ℕ → ℕ
    pub signalled : List ℕ
    pub processed_msg : ℕ
    pub ignored_msg : ℕ
    pub dropped_msg : ℕ

module _ {H : Zhash} {D : Type 0} where
  unfoldable pub free_data : World H D → D → World H D
  free_data w d = record w { freed_data = d ∷ w.freed_data }

  unfoldable pub free_route : World H D → ℕ → World H D
  free_route w r = record w { freed_routes = r ∷ w.freed_routes }

  unfoldable pub rib_route_delete : World H D → ℕ → World H D
  unfolding free_data free_route
  rib_route_delete w obj =
      if left == 0
      then free_route
          (free_data (record t { route_hashtbl = H.delete w.route_hashtbl o.topic }) o.payload) obj
      else t
    where
      o : RibRoute D
      o = w.rib_route obj

      left : ℕ
      left = u32 (o.refcount + 2 ^ 32 - 1)

      t : World H D
      t = record w { rib_route = update w.rib_route obj (record o { refcount = left }) }

  unfoldable pub rib_route_lock : World H D → ℕ → World H D
  rib_route_lock w obj = record w {
    rib_route = update w.rib_route obj (record o { refcount = u32 (o.refcount + 1) });
  }
    where
      o : RibRoute D
      o = w.rib_route obj

  unfoldable pub rib_route_unlock : World H D → ℕ → World H D
  unfolding rib_route_delete
  rib_route_unlock w obj = rib_route_delete w obj

  unfoldable pub route_broker_ops : BrokerOps (World H D)
  unfolding rib_route_lock rib_route_unlock
  route_broker_ops = record {
    lock_obj = λ r w. rib_route_lock w r;
    unlock_obj = λ r w. rib_route_unlock w r;
  }

  -- A call of the broker of one priority.
  unfoldable pub at_level :
      RouteBroker H D → ℕ → (State (World H D) → State (World H D)) → RouteBroker H D
  at_level rb pri call = record rb {
    route_broker = update rb.route_broker pri s.broker;
    world = s.world;
  }
    where
      s : State (World H D)
      s = call (record { broker = rb.route_broker pri; world = rb.world })
