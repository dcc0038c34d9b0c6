-- ===== src/Route/View/Steps.antt =====
-- What each call of a broker changes of the routes that the table leads to.
use vyatta_route_broker.Base.{
  ℕ, ◌≡◌, ◌∙◌, refl, ap, inl, inr, true, false, ◌==◌, Bool-cases, ==→eq, is_empty,
}
use vyatta_route_broker.Broker.{
  Broker, State, broker_add_obj, broker_del_obj, broker_del_obj_now, broker_upd_obj,
}
use vyatta_route_broker.Broker.Placed.{eq_refl, broker_upd_obj-placed, move_to_top-set_delete}
use vyatta_route_broker.Zhash.{Zhash}
use vyatta_route_broker.Route.Types.{World, RouteBroker, route_broker_ops, at_level, rib_route_lock}
use vyatta_route_broker.Route.Publish.{add_route, del_route, force_out, upd_route, route_type}
use vyatta_route_broker.Route.Table.Release.{unlock-released}
use vyatta_route_broker.Route.Sound.{level_state}
use vyatta_route_broker.Route.View.{seen, unwatched}

module _ {H : Zhash} {D : Type 0} where
  -- The call leaves the element and the route at `r` as they are.
  pub record Leaves (s t : State (World H D)) (r : ℕ) : Type 0 where
    pub same_mem : t.mem r ≡ s.mem r
    pub same_route : t.world.rib_route r ≡ s.world.rib_route r

  pub seen-at_level :
      (rb : RouteBroker H D) (p r : ℕ) (call : State (World H D) → State (World H D))
      → Leaves (level_state rb p) (call (level_state rb p)) r
      → seen (at_level rb p call) r ≡ seen rb r
  unfolding at_level
  seen-at_level rb p r call e = elim (Bool-cases (p == (rb.rib_route r).pri)) [
    | inl at ↦
        rw (e.same_route, at, e.same_mem)
          (ap
            (λ i. record {
              payload = (rb.rib_route r).payload;
              deleted = ((rb.route_broker i).mem r).is_delete;
              pri = (rb.rib_route r).pri;
            })
            (==→eq p (rb.rib_route r).pri at))
    | inr off ↦ rw (e.same_route, off) refl
  ]

  pub seen-add_other :
      (rb : RouteBroker H D) (p a r : ℕ) → (a == r) ≡ false → seen (add_route rb p a) r ≡ seen rb r
  unfolding add_route broker_add_obj route_broker_ops rib_route_lock
  seen-add_other rb p a r ne =
      seen-at_level rb p r (λ s. broker_add_obj route_broker_ops s a route_type)
        (record { same_mem = rw ne refl; same_route = rw ne refl })

  pub seen-add :
      (rb : RouteBroker H D) (p a : ℕ)
      → (rb.rib_route a).pri ≡ p
      → seen (add_route rb p a) a
        ≡ record { payload = (rb.rib_route a).payload; deleted = false; pri = p }
  unfolding add_route at_level broker_add_obj route_broker_ops rib_route_lock
  seen-add rb p a e = rw (eq_refl a, e, eq_refl p) (rw (eq_refl a) refl)

  pub seen-out_other :
      (rb : RouteBroker H D) (p h r : ℕ)
      → (rb.rib_route h).refcount ≡ 1
      → (h == r) ≡ false
      → seen (force_out rb p h) r ≡ seen rb r
  unfolding force_out broker_del_obj_now route_broker_ops
  seen-out_other rb p h r one ne =
      seen-at_level rb p r (λ s. broker_del_obj_now route_broker_ops s h)
        (record { same_mem = refl; same_route = rw (unlock-released rb.world h one, ne) refl })

  pub out-table :
      (rb : RouteBroker H D) (p h : ℕ)
      → (rb.rib_route h).refcount ≡ 1
      → (force_out rb p h).route_hashtbl ≡ H.delete rb.route_hashtbl (rb.rib_route h).topic
  unfolding force_out at_level broker_del_obj_now route_broker_ops
  out-table rb p h one = rw (unlock-released rb.world h one) refl

  upd_world :
      (rb : RouteBroker H D) (p h r : ℕ)
      → (broker_upd_obj route_broker_ops (level_state rb p) h).world.rib_route r ≡ rb.rib_route r
  unfolding broker_upd_obj
  upd_world rb p h r = refl

  pub seen-upd_other :
      (rb : RouteBroker H D) (p h r : ℕ) → (h == r) ≡ false → seen (upd_route rb p h) r ≡ seen rb r
  unfolding upd_route
  seen-upd_other rb p h r ne =
      seen-at_level rb p r (λ s. broker_upd_obj route_broker_ops s h)
        (record {
          same_mem =
              ap (λ (b : Broker). b.mem r)
                (broker_upd_obj-placed route_broker_ops (level_state rb p) h)
              ∙ rw ne refl;
          same_route = upd_world rb p h r;
        })

  pub seen-upd :
      (rb : RouteBroker H D) (p h : ℕ)
      → (rb.rib_route h).pri ≡ p
      → seen (upd_route rb p h) h
        ≡ record { payload = (rb.rib_route h).payload; deleted = false; pri = p }
  unfolding upd_route at_level broker_upd_obj
  seen-upd rb p h e =
      rw (broker_upd_obj-placed route_broker_ops (level_state rb p) h, e, eq_refl p, eq_refl h) refl

  -- The deletion of an object that clients have to be told of.
  pub seen-del_other :
      (rb : RouteBroker H D) (p h r : ℕ)
      → (rb.rib_route h).refcount ≡ 1
      → (h == r) ≡ false
      → seen (del_route rb p h) r ≡ seen rb r
  unfolding del_route broker_del_obj broker_del_obj_now route_broker_ops
  seen-del_other rb p h r one ne =
      seen-at_level rb p r (λ s. broker_del_obj route_broker_ops s h)
        (elim (Bool-cases (is_empty (rb.route_broker p).b_client_list)) [
          | inl e ↦ rw e (record {
            same_mem = refl;
            same_route = rw (unlock-released rb.world h one, ne) refl;
          })
          | inr e ↦
              rw (e, move_to_top-set_delete (rb.route_broker p) h true)
                (record { same_mem = rw ne refl; same_route = refl })
        ])

  pub seen-del :
      (rb : RouteBroker H D) (p h : ℕ)
      → (rb.rib_route h).pri ≡ p
      → unwatched rb p ≡ false
      → seen (del_route rb p h) h
        ≡ record { payload = (rb.rib_route h).payload; deleted = true; pri = p }
  unfolding del_route at_level broker_del_obj
  seen-del rb p h e w =
      rw (w, move_to_top-set_delete (rb.route_broker p) h true, e, eq_refl p, eq_refl h) refl

  pub del-table_watched :
      (rb : RouteBroker H D) (p h : ℕ)
      → unwatched rb p ≡ false
      → (del_route rb p h).route_hashtbl ≡ rb.route_hashtbl
  unfolding del_route at_level broker_del_obj
  del-table_watched rb p h e = rw e refl

  pub del-table_unwatched :
      (rb : RouteBroker H D) (p h : ℕ)
      → (rb.rib_route h).refcount ≡ 1
      → unwatched rb p ≡ true
      → (del_route rb p h).route_hashtbl ≡ H.delete rb.route_hashtbl (rb.rib_route h).topic
  unfolding del_route at_level broker_del_obj broker_del_obj_now route_broker_ops
  del-table_unwatched rb p h one e = rw (e, unlock-released rb.world h one) refl
