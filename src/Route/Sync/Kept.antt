-- ===== src/Route/Sync/Kept.antt =====
-- The calls of a broker that `object_broker_publish` makes leave what a client that follows has to be
-- told of other topics.
use vyatta_route_broker.Base.{
  ℕ, ◌≡◌, ◌∙◌, refl, ap, inl, inr, true, false, String, ◌==◌, Bool-cases, ==→eq, is_empty,
}
use vyatta_route_broker.Broker.{broker_add_obj, broker_del_obj_now, broker_del_obj, broker_upd_obj}
use vyatta_route_broker.Broker.Invariant.{Inv}
use vyatta_route_broker.Zhash.{Zhash}
use vyatta_route_broker.Route.Types.{
  RouteBroker, at_level, free_route, route_broker_ops, rib_route_lock, free_data,
}
use vyatta_route_broker.Route.Publish.{
  add_route, del_route, force_out, upd_route, hash_insert, with_world, swap_data,
}
use vyatta_route_broker.Route.Sound.{queues, Fresh, HasIds}
use vyatta_route_broker.Route.Sound.Clients.{At}
use vyatta_route_broker.Route.Table.Release.{unlock-released}
use vyatta_route_broker.Route.Sync.{wanted}
use vyatta_route_broker.Route.Sync.Queue.{
  add-wanted_self, add-wanted_other, upd-wanted_other, del-wanted_other, out-wanted,
}

module _ {H : Zhash} {D : Type 0} where
  -- A route that the client has still to be told of stays so, with its topic.
  pub record Kept (rb u : RouteBroker H D) (c r : ℕ) : Type 0 where
    pub still_wanted : (i : ℕ) → wanted rb c i r ≡ true → wanted u c i r ≡ true
    pub same_topic : (u.rib_route r).topic ≡ (rb.rib_route r).topic

  pub Kept-trans :
      {rb u w : RouteBroker H D} {c r : ℕ} → Kept rb u c r → Kept u w c r → Kept rb w c r
  Kept-trans k l = record {
    still_wanted = λ i h. l.still_wanted i (k.still_wanted i h);
    same_topic = l.same_topic ∙ k.same_topic;
  }

  pub upd-topic :
      (rb : RouteBroker H D) (p h r : ℕ)
      → ((upd_route rb p h).rib_route r).topic ≡ (rb.rib_route r).topic
  unfolding upd_route at_level broker_upd_obj
  upd-topic rb p h r = refl

  pub del-topic :
      (rb : RouteBroker H D) (p h r : ℕ)
      → (rb.rib_route h).refcount ≡ 1
      → ((del_route rb p h).rib_route r).topic ≡ (rb.rib_route r).topic
  unfolding del_route at_level broker_del_obj broker_del_obj_now route_broker_ops
  del-topic rb p h r one = elim (Bool-cases (is_empty (rb.route_broker p).b_client_list)) [
    | inl e ↦
        rw (e, unlock-released rb.world h one)
          (elim (Bool-cases (h == r)) [
            | inl s ↦ rw s (ap (λ x. (rb.rib_route x).topic) (==→eq h r s))
            | inr s ↦ rw s refl
          ])
    | inr e ↦ rw e refl
  ]

  pub entered-topic :
      (rb : RouteBroker H D) (p a : ℕ) (topic : String) (r : ℕ)
      → ((hash_insert (add_route rb p a) topic a).rib_route r).topic ≡ (rb.rib_route r).topic
  unfolding hash_insert add_route at_level broker_add_obj route_broker_ops rib_route_lock
  entered-topic rb p a topic r = elim (Bool-cases (a == r)) [
    | inl e ↦ rw e (ap (λ x. (rb.rib_route x).topic) (==→eq a r e))
    | inr e ↦ rw e refl
  ]

  module _ (rb : RouteBroker H D) (c p : ℕ) (v : Inv (rb.route_broker p)) (m : At rb c p) where
    pub entered-Kept :
        (a r : ℕ) (topic : String)
        → HasIds rb
        → Fresh rb a
        → Kept rb (hash_insert (add_route rb p a) topic a) c r
    unfolding hash_insert
    entered-Kept a r topic ids f = record {
      still_wanted = λ i w. add-wanted_other rb c p v m a i r (f.unqueued p) ids w;
      same_topic = entered-topic rb p a topic r;
    }

    pub entered-wanted :
        (a : ℕ) (topic : String)
        → HasIds rb
        → Fresh rb a
        → wanted (hash_insert (add_route rb p a) topic a) c p a ≡ true
    unfolding hash_insert
    entered-wanted a topic ids f = add-wanted_self rb c p v m a (f.unqueued p) ids

    pub out-Kept :
        (h r : ℕ)
        → (rb.rib_route h).refcount ≡ 1
        → queues rb p h ≡ true
        → (h == r) ≡ false
        → Kept rb (force_out rb p h) c r
    unfolding force_out at_level broker_del_obj_now route_broker_ops
    out-Kept h r one q ne = record {
      still_wanted = λ i w. out-wanted rb c p v m h i r q ne w;
      same_topic = rw (unlock-released rb.world h one, ne) refl;
    }

    pub upd-Kept :
        (h r : ℕ)
        → HasIds rb
        → queues rb p h ≡ true
        → (h == r) ≡ false
        → Kept rb (upd_route rb p h) c r
    unfolding upd_route at_level broker_upd_obj
    upd-Kept h r ids q ne = record {
      still_wanted = λ i w. upd-wanted_other rb c p v m h i r q ids ne w;
      same_topic = refl;
    }

    pub del-Kept :
        (h r : ℕ)
        → HasIds rb
        → (rb.rib_route h).refcount ≡ 1
        → queues rb p h ≡ true
        → (h == r) ≡ false
        → Kept rb (del_route rb p h) c r
    unfolding del_route at_level broker_del_obj broker_del_obj_now route_broker_ops
    del-Kept h r ids one q ne = record {
      still_wanted = λ i w. del-wanted_other rb c p v m h i r q ids ne w;
      same_topic = del-topic rb p h r one;
    }

  -- Other data of a route, and memory that is freed, are nothing to the queues.
  pub swapped-Kept : (rb : RouteBroker H D) (c h r : ℕ) (d : D) → Kept rb (swap_data rb h d) c r
  unfolding swap_data with_world free_data
  swapped-Kept rb c h r d = record {
    still_wanted = λ i w. w;
    same_topic = elim (Bool-cases (h == r)) [
      | inl e ↦ rw e (ap (λ x. (rb.rib_route x).topic) (==→eq h r e))
      | inr e ↦ rw e refl
    ];
  }

  pub freed-Kept :
      (rb : RouteBroker H D) (c a r : ℕ) → Kept rb (with_world rb (free_route rb.world a)) c r
  unfolding with_world free_route
  freed-Kept rb c a r = record { still_wanted = λ i w. w; same_topic = refl }
