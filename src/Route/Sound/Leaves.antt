-- ===== src/Route/Sound/Leaves.antt =====
-- `route_broker_client_delete`: a client leaves.
use vyatta_route_broker.Base.{
  ℕ, ◌≡◌, refl, ap, sym, inl, inr, true, false, arith, ◌==◌, contains, All, All-at, All-contains,
  Bool-cases, ==→eq,
}
use vyatta_route_broker.Circleq.{remove}
use vyatta_route_broker.Circleq.Laws.{
  contains-remove_ne, contains_of-remove, contains-remove_self, distinct-remove,
}
use vyatta_route_broker.Broker.{State, broker_client_delete}
use vyatta_route_broker.Broker.Invariant.{Inv}
use vyatta_route_broker.Broker.Removed.{without_client, without_client-Inv}
use vyatta_route_broker.Broker.Release.{release_walk-SameView}
use vyatta_route_broker.Zhash.{Zhash}
use vyatta_route_broker.Route.Types.{
  World, RouteBroker, route_broker_ops, at_level, route_priorities,
}
use vyatta_route_broker.Route.Setup.{delete_levels, route_broker_client_delete}
use vyatta_route_broker.Route.Sound.{RouteSound, level_state}
use vyatta_route_broker.Route.Sound.Clients.{At, delete_level-RouteSound}
use vyatta_route_broker.Route.Sound.Served.{Served, Served-At}

module _ {H : Zhash} {D : Type 0} where
  pub delete-RouteSound :
      {rb : RouteBroker H D} (c : ℕ)
      → RouteSound rb
      → All (At rb c) route_priorities
      → RouteSound (route_broker_client_delete rb c)
  unfolding route_broker_client_delete delete_levels at_level
  delete-RouteSound {rb} c v a =
      let k =
        delete_level-RouteSound c 2
          (delete_level-RouteSound c 1 (delete_level-RouteSound c 0 v a.0) a.1.0) a.1.1.0 in
      record { levels = k.levels; tabled = k.tabled }

  deleted_list :
      (s : State (World H D)) (a : ℕ)
      → Inv s.broker
      → (broker_client_delete route_broker_ops s a).b_client_list ≡ remove a s.b_client_list
  unfolding broker_client_delete
  deleted_list s a v =
      (release_walk-SameView route_broker_ops (record s { broker = without_client s.broker a })
        (remove a s.b_obj_list) (without_client-Inv a v)).same_clients

  deleted-lists :
      (rb : RouteBroker H D) (c : ℕ)
      → RouteSound rb
      → All
          (λ i.
            ((route_broker_client_delete rb c).route_broker i).b_client_list
            ≡ remove (rb.level_client c i) (rb.route_broker i).b_client_list)
          route_priorities
  unfolding route_broker_client_delete delete_levels at_level
  deleted-lists rb c v = (
    deleted_list (level_state rb 0) (rb.level_client c 0) (v.levels 0).inv,
    (
      deleted_list _ (rb.level_client c 1) (v.levels 1).inv,
      (deleted_list _ (rb.level_client c 2) (v.levels 2).inv, tt),
    ),
  )

  pub deleted-client_list :
      (rb : RouteBroker H D) (c : ℕ)
      → (route_broker_client_delete rb c).client_list ≡ remove c rb.client_list
  unfolding route_broker_client_delete delete_levels at_level
  deleted-client_list rb c = refl

  pub deleted-level_client :
      (rb : RouteBroker H D) (c : ℕ)
      → (route_broker_client_delete rb c).level_client ≡ rb.level_client
  unfolding route_broker_client_delete delete_levels at_level
  deleted-level_client rb c = refl

  module _ {rb : RouteBroker H D} (c : ℕ) (v : RouteSound rb) (s : Served rb)
      (on : contains c rb.client_list ≡ true) where
    abbrev left : RouteBroker H D
    left = route_broker_client_delete rb c

    stays :
        (d : ℕ)
        → contains d left.client_list ≡ true
        → (contains d rb.client_list ≡ true) × ((d == c) ≡ false)
    stays d m =
        let k : contains d (remove c rb.client_list) ≡ true =
          rw (sym (deleted-client_list rb c)) m in
        (
          contains_of-remove d c rb.client_list k,
          elim (Bool-cases (d == c)) [
            | inl e ↦
                let gone = contains-remove_self c rb.client_list s.listed_once in
                let same = ap (λ x. contains x (remove c rb.client_list)) (==→eq d c e) in absurd cc
            | inr e ↦ e
          ],
        )

    left-At :
        (d i : ℕ)
        → contains d left.client_list ≡ true
        → contains i route_priorities ≡ true
        → At left d i
    left-At d i m p =
        let k = stays d m in
        let ne =
          All-at (λ j. (rb.level_client d j == rb.level_client c j) ≡ false) route_priorities i p
            (s.apart d c k.0 on k.1) in
        rw
          (
            deleted-level_client rb c,
            All-at
                (λ j.
                  (left.route_broker j).b_client_list
                  ≡ remove (rb.level_client c j) (rb.route_broker j).b_client_list)
                route_priorities i p (deleted-lists rb c v),
            contains-remove_ne (rb.level_client d i) (rb.level_client c i)
                (rb.route_broker i).b_client_list (ground arith),
          )
          (Served-At d i s k.0 p)

    pub deleted-Served : Served left
    deleted-Served = record {
      members =
          All-contains (λ d. All (At left d) route_priorities) left.client_list
            (λ d m. All-contains (At left d) route_priorities (λ i p. left-At d i m p));
      apart =
          λ d e m k ne. rw (deleted-level_client rb c) (s.apart d e (stays d m).0 (stays e k).0 ne);
      listed_once = rw (deleted-client_list rb c) (distinct-remove c rb.client_list s.listed_once);
    }
