-- ===== src/Route/Sound.antt =====
-- The three brokers, the routes and the table of topics together: what holds between two calls of
-- broker/route_broker.c, and how a call of one broker keeps it.
pub mod Publish
pub mod Branches
pub mod Whole
pub mod Clients
pub mod Served
pub mod Members
pub mod Leaves
use vyatta_route_broker.Base.{
  ℕ, ◌+◌, ◌^◌, ◌<◌, ◌≡◌, ◌∙◌, refl, ap, inl, inr, Bool, true, false, ◌&&◌, List, [], ◌∷◌, Option,
  none, some, arith, ◌==◌, if◌then◌else◌, contains, Bool-cases, ==→eq,
}
use vyatta_route_broker.Broker.{
  Broker, State, BrokerClientOps, update, broker_add_obj, broker_del_obj, broker_del_obj_now,
  broker_upd_obj,
}
use vyatta_route_broker.Broker.Calls.{step, add, upd, del, del_now, Queued}
use vyatta_route_broker.Broker.Calls.Safety.{Sound, step-Sound}
use vyatta_route_broker.Broker.Holds.{holds}
use vyatta_route_broker.Zhash.{Zhash}
use vyatta_route_broker.Route.Types.{World, RouteBroker, route_broker_ops, at_level}
use vyatta_route_broker.Route.Table.{Tabled, Tabled-ext}
use vyatta_route_broker.Route.Table.Levels.{with_level, InStep}

module _ {H : Zhash} {D : Type 0} where
  abbrev pub queues : RouteBroker H D → ℕ → ℕ → Bool
  queues rb i x = holds (rb.route_broker i) x

  -- Every broker is sound, and the table and the queues are in step.
  pub record RouteSound (rb : RouteBroker H D) : Type 0 where
    pub levels : (i : ℕ) → Sound (rb.route_broker i)
    pub tabled : Tabled (queues rb) rb.world

  abbrev pub level_state : RouteBroker H D → ℕ → State (World H D)
  level_state rb i = record { broker = rb.route_broker i; world = rb.world }

  with_level-queues :
      (rb : RouteBroker H D) (i j x : ℕ)
      → with_level (queues rb) i (rb.route_broker i) j x ≡ queues rb j x
  with_level-queues rb i j x = elim (Bool-cases (i == j)) [
    | inl e ↦ rw (e, ==→eq i j e) refl
    | inr e ↦ rw e refl
  ]

  queues-update :
      (rb : RouteBroker H D) (i : ℕ) (b : Broker) (j x : ℕ)
      → holds (update rb.route_broker i b j) x ≡ with_level (queues rb) i b j x
  queues-update rb i b j x = elim (Bool-cases (i == j)) [ inl e ↦ rw e refl | inr e ↦ rw e refl ]

  pub level_state-InStep :
      {rb : RouteBroker H D} (i : ℕ) → RouteSound rb → InStep (queues rb) i (level_state rb i)
  level_state-InStep {rb} i v = Tabled-ext (with_level-queues rb i) v.tabled

  -- A call of the broker of the priority `i` that keeps it sound and in step.
  pub with_state-RouteSound :
      {rb : RouteBroker H D} (i : ℕ) (s : State (World H D))
      → RouteSound rb
      → Sound s.broker
      → InStep (queues rb) i s
      → RouteSound (record rb { route_broker = update rb.route_broker i s.broker; world = s.world })
  with_state-RouteSound {rb} i s v b k = record {
    levels = λ j. elim (Bool-cases (i == j)) [ inl e ↦ rw e b | inr e ↦ rw e (v.levels j) ];
    tabled = Tabled-ext (queues-update rb i s.broker) k;
  }

  pub at_level-RouteSound :
      {rb : RouteBroker H D} (i : ℕ) (call : State (World H D) → State (World H D))
      → RouteSound rb
      → Sound (call (level_state rb i)).broker
      → InStep (queues rb) i (call (level_state rb i))
      → RouteSound (at_level rb i call)
  unfolding at_level
  at_level-RouteSound {rb} i call v = with_state-RouteSound i (call (level_state rb i)) v

  -- The memory `a` is of no element of a queue and of no route that was freed.
  pub record Fresh (rb : RouteBroker H D) (a : ℕ) : Type 0 where
    pub unqueued : (i : ℕ) → contains a (rb.route_broker i).b_obj_list ≡ false
    pub not_freed : contains a rb.freed_routes ≡ false

  pub Fresh-queues : {rb : RouteBroker H D} (a i : ℕ) → Fresh rb a → queues rb i a ≡ false
  Fresh-queues a i f = rw (f.unqueued i) refl

  -- No broker runs out of ids.
  abbrev pub HasIds : RouteBroker H D → Type 0
  HasIds rb = (i : ℕ) → (rb.route_broker i).id + 1 < 2 ^ 64
