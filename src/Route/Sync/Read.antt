-- ===== src/Route/Sync/Read.antt =====
-- `route_broker_client_get_data`, for a client that follows: a read of another client takes nothing
-- from it, and what it is given itself is the route that it waited for longest.
use vyatta_route_broker.Base.{
  ℕ, ◌≡◌, ◌∙◌, refl, ap, inl, inr, true, false, ◌&&◌, [], ◌==◌, contains, All-at, Bool-cases,
  Option-cases, if◌then◌else◌,
}
use vyatta_route_broker.Broker.{
  State, consume, advance, release_consumed, broker_del_obj_now, no_clients_need_this,
  broker_get_next_data_obj,
}
use vyatta_route_broker.Broker.Invariant.{pending}
use vyatta_route_broker.Broker.Calls.{step, get, tail}
use vyatta_route_broker.Broker.Calls.Refinement.{pending-step}
use vyatta_route_broker.Zhash.{Zhash}
use vyatta_route_broker.Route.Types.{
  Callbacks, World, RouteBroker, route_broker_ops, at_level, route_priorities,
}
use vyatta_route_broker.Route.Client.{
  take_data, route_broker_client_ops, first_behind, data_available_for_client,
  route_broker_client_get_data, level_pending,
}
use vyatta_route_broker.Route.Sound.{RouteSound, level_state}
use vyatta_route_broker.Route.Sound.Clients.{At, first_behind_in}
use vyatta_route_broker.Route.Sound.Served.{Served, Served-At}
use vyatta_route_broker.Route.View.Read.{taken, idle-taken, busy-taken, take-at_level}
use vyatta_route_broker.Route.Sync.{wanted}
use vyatta_route_broker.Route.Sync.Queue.{wanted_kept}
use vyatta_route_broker.Route.Sync.Leave.{Alike, Alike-refl, unlock-Alike}
use vyatta_route_broker.Route.Sync.Steady.{Steady}

module _ {H : Zhash} {D : Type 0} where
  released-Alike :
      (s : State (World H D)) (o r : ℕ)
      → Alike (s.world.rib_route r) ((release_consumed route_broker_ops s o).world.rib_route r)
  unfolding release_consumed broker_del_obj_now route_broker_ops
  released-Alike s o r =
      elim (Bool-cases ((s.mem o).is_delete && no_clients_need_this s.broker o)) [
        | inl e ↦ rw e (unlock-Alike s.world o r)
        | inr e ↦ rw e (Alike-refl (s.world.rib_route r))
      ]

  consume-Alike :
      (s : State (World H D)) (c o r : ℕ)
      → Alike (s.world.rib_route r) ((consume route_broker_ops s c o).world.rib_route r)
  unfolding consume
  consume-Alike s c o r = released-Alike (record s { broker = advance s.broker c o }) o r

  taken-Alike :
      (cb : Callbacks D) (rb : RouteBroker H D) (d i r : ℕ)
      → Alike (rb.rib_route r) ((taken cb rb d i).world.rib_route r)
  taken-Alike cb rb d i r =
      elim (Option-cases (broker_get_next_data_obj (rb.route_broker i) (rb.level_client d i))) [
        | inl e ↦ rw (idle-taken cb rb d i e) (Alike-refl (rb.rib_route r))
        | inr (o, e) ↦
            rw (busy-taken cb rb d i o e)
              (consume-Alike (level_state rb i) (rb.level_client d i) o r)
      ]

  -- A call of a client changes at most the counts of the routes.
  pub take-Alike :
      (cb : Callbacks D) (rb : RouteBroker H D) (d i r : ℕ)
      → Alike (rb.rib_route r) ((take_data cb rb d i).1.rib_route r)
  unfolding at_level
  take-Alike cb rb d i r = rw (take-at_level cb rb d i) (taken-Alike cb rb d i r)

  pub take-topic :
      (cb : Callbacks D) (rb : RouteBroker H D) (d i r : ℕ)
      → ((take_data cb rb d i).1.rib_route r).topic ≡ (rb.rib_route r).topic
  take-topic cb rb d i r = (take-Alike cb rb d i r).same_topic

  -- What is pending for the client behind a read of its own or of another.
  take-queue :
      (cb : Callbacks D) (rb : RouteBroker H D) (c d i : ℕ)
      → RouteSound rb
      → At rb c i
      → At rb d i
      → pending (taken cb rb d i).broker (rb.level_client c i) ≡ (
          if rb.level_client c i == rb.level_client d i
          then tail (level_pending rb c i)
          else level_pending rb c i)
  unfolding step
  take-queue cb rb c d i v m n =
      pending-step route_broker_ops (route_broker_client_ops cb) (level_state rb i)
        (get (rb.level_client d i)) (rb.level_client c i) (v.levels i).inv n m tt

  pub take-wanted :
      (cb : Callbacks D) (rb : RouteBroker H D) (c d i j r : ℕ)
      → RouteSound rb
      → At rb c i
      → At rb d i
      → (wanted rb c i r ≡ true
          → contains r (
              if rb.level_client c i == rb.level_client d i
              then tail (level_pending rb c i)
              else level_pending rb c i)
            ≡ true)
      → wanted rb c j r ≡ true
      → wanted (take_data cb rb d i).1 c j r ≡ true
  take-wanted cb rb c d i j r v m n k w = rw (take-at_level cb rb d i) (
      wanted_kept rb c i j r (λ s. taken cb rb d i)
        (λ h. ap (contains r) (take-queue cb rb c d i v m n) ∙ k h) w)

  -- A read of another client takes nothing from the client.
  pub get_data-Steady :
      (cb : Callbacks D) {rb : RouteBroker H D} (c d : ℕ)
      → RouteSound rb
      → Served rb
      → contains c rb.client_list ≡ true
      → contains d rb.client_list ≡ true
      → (c == d) ≡ false
      → Steady rb (route_broker_client_get_data cb [] rb d).1 c
  unfolding route_broker_client_get_data data_available_for_client
  get_data-Steady cb {rb} c d v s m n ne =
      elim (Option-cases (first_behind rb d route_priorities)) [
        | inl e ↦
            rw (e, route_broker_client_get_data)
              (record { still_wanted = λ i r p w. w; same_topics = λ r. refl })
        | inr (i, e) ↦
            let p = first_behind_in rb d i route_priorities e in
            let apart =
              All-at (λ j. (rb.level_client c j == rb.level_client d j) ≡ false) route_priorities i
                p (s.apart c d m n ne) in
            rw (e, route_broker_client_get_data)
              (record {
                still_wanted = λ j r q w.
                    take-wanted cb rb c d i j r v (Served-At c i s m p) (Served-At d i s n p)
                      (λ h. rw apart h) w;
                same_topics = λ r. take-topic cb rb d i r;
              })
      ]
