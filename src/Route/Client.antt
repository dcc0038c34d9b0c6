-- ===== src/Route/Client.antt =====
-- The clients of the three brokers together: `data_available_for_client`,
-- `route_broker_client_get_data` and `route_broker_wake_clients`.
use vyatta_route_broker.Base.{
  ℕ, zero, suc, ◌<◌, ◌≡◌, inl, inr, Bool, true, not, List, [], ◌∷◌, Option, none, some, arith, ◌==◌,
  if◌then◌else◌, contains, filter, All, is_some, Option-cases,
}
use vyatta_route_broker.Circleq.Laws.{contains-filter}
use vyatta_route_broker.Broker.{State, BrokerClientOps, broker_client_get_data}
use vyatta_route_broker.Broker.Invariant.{Inv, pending}
use vyatta_route_broker.Broker.Delivery.{pending_of-id_eq}
use vyatta_route_broker.Zhash.{Zhash}
use vyatta_route_broker.Route.Types.{
  route_priorities, Callbacks, World, RouteBroker, route_broker_ops,
}

module _ {H : Zhash} {D : Type 0} where
  -- The client's id is not the broker's at this priority.
  abbrev pub is_behind : RouteBroker H D → ℕ → ℕ → Bool
  is_behind rb rclient i =
      not (((rb.route_broker i).mem (rb.level_client rclient i)).id == (rb.route_broker i).id)

  -- The loop over the priorities; `none` is -1.
  unfoldable pub first_behind : RouteBroker H D → ℕ → List ℕ → Option ℕ
  first_behind rb rclient [] = none
  first_behind rb rclient (i ∷ is) =
      if is_behind rb rclient i then some i else first_behind rb rclient is

  unfoldable pub data_available_for_client : RouteBroker H D → ℕ → Option ℕ
  unfolding first_behind
  data_available_for_client rb rclient = first_behind rb rclient route_priorities

  -- `route_broker_client_get` for both callbacks of a client.
  unfoldable pub route_broker_client_ops : Callbacks D → BrokerClientOps (World H D) D
  route_broker_client_ops cb = record {
    add_obj = λ r w. cb.copy_obj (w.rib_route r).payload;
    del_obj = λ r w. cb.copy_obj (w.rib_route r).payload;
  }

  unfoldable pub take_data : Callbacks D → RouteBroker H D → ℕ → ℕ → Option D × RouteBroker H D
  unfolding route_broker_client_ops
  take_data cb rb rclient level = (
    r.0,
    record rb {
      route_broker = λ i. if level == i then r.1.broker else rb.route_broker i;
      world = r.1.world;
    },
  )
    where
      r : Option D × State (World H D)
      r =
          broker_client_get_data route_broker_ops (route_broker_client_ops cb)
            (record { broker = rb.route_broker level; world = rb.world })
            (some (rb.level_client rclient level))

  -- `wakeups` tells what other threads do to the state during each wait on the condition
  -- variable; when none is left the wait times out. `none` is NULL.
  unfoldable pub route_broker_client_get_data :
      Callbacks D
      → List (RouteBroker H D → RouteBroker H D)
      → RouteBroker H D
      → ℕ
      → Option D × RouteBroker H D
  unfolding take_data
  route_broker_client_get_data cb [] rb rclient = elim (data_available_for_client rb rclient) [
    | none ↦ (none, rb)
    | some level ↦ take_data cb rb rclient level
  ]
  route_broker_client_get_data cb (others ∷ wakeups) rb rclient =
      let later = route_broker_client_get_data cb wakeups (others rb) rclient in
      elim (data_available_for_client rb rclient) [
        | none ↦ later
        | some level ↦ take_data cb rb rclient level
      ]

  unfoldable pub route_broker_wake_clients : RouteBroker H D → RouteBroker H D
  route_broker_wake_clients rb = record rb {
    signalled = filter (λ c. is_some (data_available_for_client rb c)) rb.client_list;
  }

  -- A route broker client has a client in each of the three brokers.
  abbrev pub IsClient : RouteBroker H D → ℕ → Type 0
  IsClient rb rclient =
      All
        (λ i.
          Inv (rb.route_broker i)
          × (contains (rb.level_client rclient i) (rb.route_broker i).b_client_list ≡ true))
        route_priorities

  abbrev pub level_pending : RouteBroker H D → ℕ → ℕ → List ℕ
  level_pending rb rclient i = pending (rb.route_broker i) (rb.level_client rclient i)

  -- A client of three well-formed brokers waits only when nothing is pending for it at any
  -- priority: no update is overlooked.
  pub waits-pending :
      (rb : RouteBroker H D) (rclient : ℕ)
      → IsClient rb rclient
      → data_available_for_client rb rclient ≡ none
      → All (λ i. level_pending rb rclient i ≡ []) route_priorities
  unfolding data_available_for_client first_behind
  waits-pending rb rclient v e = (
    pending_of-id_eq (rb.level_client rclient 0) v.0.0 v.0.1 (ground arith),
    (
      pending_of-id_eq (rb.level_client rclient 1) v.1.0.0 v.1.0.1 (ground arith),
      (pending_of-id_eq (rb.level_client rclient 2) v.1.1.0.0 v.1.1.0.1 (ground arith), tt),
    ),
  )

  -- For a client of three well-formed brokers the level that is served is a priority, and nothing
  -- is pending for the client at any priority above it.
  pub serves_highest :
      (rb : RouteBroker H D) (rclient i j : ℕ)
      → IsClient rb rclient
      → data_available_for_client rb rclient ≡ some i
      → j < i
      → (i < 3) × (level_pending rb rclient j ≡ [])
  unfolding data_available_for_client
  serves_highest rb rclient i zero v e lt =
      (ground arith, pending_of-id_eq (rb.level_client rclient 0) v.0.0 v.0.1 (ground arith))
  serves_highest rb rclient i (suc zero) v e lt =
      (ground arith, pending_of-id_eq (rb.level_client rclient 1) v.1.0.0 v.1.0.1 (ground arith))
  serves_highest rb rclient i (suc (suc j)) v e lt = absurd (ground arith)

  -- A client of three well-formed brokers with something pending at some priority is signalled,
  -- if it is on the list.
  pub wakes-pending :
      (rb : RouteBroker H D) (rclient : ℕ)
      → IsClient rb rclient
      → contains rclient rb.client_list ≡ true
      → ¬ (All (λ i. level_pending rb rclient i ≡ []) route_priorities)
      → contains rclient (route_broker_wake_clients rb).signalled ≡ true
  unfolding route_broker_wake_clients
  wakes-pending rb rclient v m some_left =
      rw (contains-filter (λ c. is_some (data_available_for_client rb c)) rclient rb.client_list)
        (elim (Option-cases (data_available_for_client rb rclient)) [
          | inl e ↦ absurd (some_left (waits-pending rb rclient v e))
          | inr (i, e) ↦ ground arith
        ])
