-- ===== src/Route/Sound/Clients.antt =====
-- The clients of the route broker keep the table of topics and the queues in step: they take data,
-- come and go.
use vyatta_route_broker.Base.{
  ℕ, ◌≡◌, inl, inr, true, false, List, [], ◌∷◌, some, String, arith, contains, All, All-at,
  Option-cases,
}
use vyatta_route_broker.Broker.{broker_client_get_data, broker_client_create, broker_client_delete}
use vyatta_route_broker.Broker.Calls.{step, get, create, leave}
use vyatta_route_broker.Broker.Calls.Safety.{step-Sound}
use vyatta_route_broker.Zhash.{Zhash}
use vyatta_route_broker.Route.Types.{
  Callbacks, RouteBroker, route_broker_ops, at_level, route_priorities,
}
use vyatta_route_broker.Route.Client.{
  first_behind, data_available_for_client, take_data, route_broker_client_ops,
  route_broker_client_get_data,
}
use vyatta_route_broker.Route.Setup.{create_level}
use vyatta_route_broker.Route.Table.Levels.{
  get_data-InStep, client_create-InStep, client_delete-InStep,
}
use vyatta_route_broker.Route.Sound.{
  RouteSound, level_state, level_state-InStep, with_state-RouteSound, at_level-RouteSound,
}
use vyatta_route_broker.Route.Sound.Publish.{no_data}

module _ {H : Zhash} {D : Type 0} where
  -- The route broker's client has a client in the broker of the priority.
  abbrev pub At : RouteBroker H D → ℕ → ℕ → Type 0
  At rb c i = contains (rb.level_client c i) (rb.route_broker i).b_client_list ≡ true

  pub first_behind_in :
      (rb : RouteBroker H D) (c i : ℕ) (l : List ℕ)
      → first_behind rb c l ≡ some i
      → contains i l ≡ true
  unfolding first_behind
  first_behind_in rb c i [] e = cc
  first_behind_in rb c i (j ∷ js) e = ground (arith, first_behind_in rb c i js)

  pub take_data-RouteSound :
      (cb : Callbacks D) {rb : RouteBroker H D} (c i : ℕ)
      → RouteSound rb
      → At rb c i
      → RouteSound (take_data cb rb c i).1
  unfolding take_data step
  take_data-RouteSound cb {rb} c i v m =
      with_state-RouteSound i
        (broker_client_get_data route_broker_ops (route_broker_client_ops cb) (level_state rb i)
          (some (rb.level_client c i))).1
        v
        (step-Sound route_broker_ops (route_broker_client_ops cb) (level_state rb i)
          (get (rb.level_client c i)) m (v.levels i))
        (get_data-InStep _ i (route_broker_client_ops cb) (level_state rb i) (rb.level_client c i)
          (v.levels i).inv m (level_state-InStep i v))

  -- One call of a client, which finds data or times out.
  pub get_data-RouteSound :
      (cb : Callbacks D) {rb : RouteBroker H D} (c : ℕ)
      → RouteSound rb
      → All (At rb c) route_priorities
      → RouteSound (route_broker_client_get_data cb [] rb c).1
  unfolding route_broker_client_get_data data_available_for_client
  get_data-RouteSound cb {rb} c v a = elim (Option-cases (first_behind rb c route_priorities)) [
    | inl e ↦ rw (e, route_broker_client_get_data) v
    | inr (i, e) ↦
        rw (e, route_broker_client_get_data)
          (take_data-RouteSound cb c i v
            (All-at (At rb c) route_priorities i (first_behind_in rb c i route_priorities e) a))
  ]

  pub create_level-RouteSound :
      {rb : RouteBroker H D} (name : String) (c : ℕ) (addr : ℕ → ℕ) (i : ℕ)
      → RouteSound rb
      → contains (addr i) (rb.route_broker i).b_obj_list ≡ false
      → RouteSound (create_level rb name c addr i)
  unfolding create_level step
  create_level-RouteSound {rb} name c addr i v h =
      let k =
        with_state-RouteSound i
          (record {
            broker = (broker_client_create (rb.route_broker i) true (some (addr i)) (some name)).0;
            world = rb.world;
          })
          v
          (step-Sound route_broker_ops no_data (level_state rb i) (create (addr i) name) h
            (v.levels i))
          (client_create-InStep _ i (level_state rb i) (addr i) name h (level_state-InStep i v)) in
      record { levels = k.levels; tabled = k.tabled }

  pub delete_level-RouteSound :
      {rb : RouteBroker H D} (c i : ℕ)
      → RouteSound rb
      → At rb c i
      → RouteSound
          (at_level rb i (λ s. broker_client_delete route_broker_ops s (rb.level_client c i)))
  unfolding step
  delete_level-RouteSound {rb} c i v m =
      at_level-RouteSound i (λ s. broker_client_delete route_broker_ops s (rb.level_client c i)) v
        (step-Sound route_broker_ops no_data (level_state rb i) (leave (rb.level_client c i)) m
          (v.levels i))
        (client_delete-InStep _ i (level_state rb i) (rb.level_client c i) (v.levels i).inv m
          (level_state-InStep i v))
