-- ===== src/Route/Drain.antt =====
-- A client of the route broker that takes data until there is none.
pub mod Step
pub mod Rounds
use mathlib.Core.Path.{subst}
use vyatta_route_broker.Base.{
  ℕ, zero, suc, ◌+◌, ◌<◌, ◌≤◌, ◌≡◌, ◌∙◌, ◌⊎◌, refl, ap, sym, inl, inr, Bool, true, false, ◌&&◌, not,
  List, [], ◌∷◌, ◌++◌, map, Option, none, some, arith, ◌==◌, if◌then◌else◌, contains, All,
  All-contains, All-at, Bool-cases, Option-cases, ==→eq, length,
}
use vyatta_route_broker.Circleq.{first}
use vyatta_route_broker.Broker.{Broker, State, broker_client_get_data, broker_get_next_data_obj}
use vyatta_route_broker.Broker.Invariant.{Inv, pending}
use vyatta_route_broker.Broker.Consume.{broker_client_get_data-Inv}
use vyatta_route_broker.Broker.Pending.{next_data_obj-pending}
use vyatta_route_broker.Broker.Calls.{tail}
use vyatta_route_broker.Broker.Calls.Refinement.{get-clients}
use vyatta_route_broker.Broker.Delivery.{get_data-front, end_id, pending_of-id_eq}
use vyatta_route_broker.Broker.Placed.{eq_refl}
use vyatta_route_broker.Zhash.{Zhash}
use vyatta_route_broker.Route.Types.{
  Callbacks, World, RouteBroker, route_broker_ops, route_priorities,
}
use vyatta_route_broker.Route.Client.{
  is_behind, first_behind, data_available_for_client, take_data, route_broker_client_ops,
  route_broker_client_get_data, IsClient, level_pending, waits-pending,
}

abbrev tagged : ℕ → List ℕ → List (ℕ × ℕ)
tagged i l = map (λ o. (i, o)) l

-- What a call gives goes in front of what the later ones give.
abbrev given : {D : Type 0} → Option D → List D → List D
given none rest = rest
given (some d) rest = d ∷ rest

module _ {H : Zhash} {D : Type 0} where
  -- The objects that are pending for a client, with their priorities, the highest first.
  abbrev pub all_pending : RouteBroker H D → ℕ → List (ℕ × ℕ)
  all_pending rb c =
      tagged 0 (level_pending rb c 0)
      ++ (tagged 1 (level_pending rb c 1) ++ tagged 2 (level_pending rb c 2))

  -- The calls that the client makes at a priority.
  abbrev level_rounds : RouteBroker H D → ℕ → ℕ → ℕ
  level_rounds rb c i = if is_behind rb c i then 1 + length (level_pending rb c i) else 0

  abbrev pub rounds : RouteBroker H D → ℕ → ℕ
  rounds rb c = level_rounds rb c 0 + (level_rounds rb c 1 + level_rounds rb c 2)

  -- The object of a priority that the next call tells the client of.
  abbrev noted : RouteBroker H D → ℕ → ℕ → List (ℕ × ℕ) → List (ℕ × ℕ)
  noted rb c i rest = elim (broker_get_next_data_obj (rb.route_broker i) (rb.level_client c i)) [
    | none ↦ rest
    | some o ↦ (i, o) ∷ rest
  ]

  abbrev level : RouteBroker H D → ℕ → State (World H D)
  level rb i = record { broker = rb.route_broker i; world = rb.world }

  abbrev Ready : RouteBroker H D → ℕ → ℕ → Type 0
  Ready rb c i =
      Inv (rb.route_broker i)
      × (contains (rb.level_client c i) (rb.route_broker i).b_client_list ≡ true)

  -- The data of a route.
  abbrev pub data_of : RouteBroker H D → ℕ × ℕ → D
  data_of rb (i, o) = (rb.rib_route o).payload

  module _ (cb : Callbacks D) where
    -- A client that takes data for as long as it need not wait, while no other thread acts: the data
    -- that it is given, and the state. A call that gives NULL does not end it.
    unfoldable pub drain_levels : ℕ → RouteBroker H D → ℕ → List D × RouteBroker H D
    drain_levels zero rb c = ([], rb)
    drain_levels (suc n) rb c =
        let got = route_broker_client_get_data cb [] rb c in
        let rest = drain_levels n got.1 c in
        elim (data_available_for_client rb c) [
          | none ↦ ([], rb)
          | some i ↦ (given got.0 rest.0, rest.1)
        ]
