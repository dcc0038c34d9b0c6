-- ===== src/Broker/Calls/Safety.antt =====
-- Every call keeps the broker's invariant and leaks no object.
use vyatta_route_broker.Base.{
  ℕ, ◌+◌, ◌^◌, ◌<◌, ◌≡◌, refl, inl, inr, true, false, ◌&&◌, some, String, Bool-cases, is_empty,
  contains,
}
use vyatta_route_broker.Broker.{
  Broker, State, BrokerOps, BrokerClientOps, BrokerObj, obj_flags, broker_del_obj,
  broker_del_obj_now, broker_client_create,
}
use vyatta_route_broker.Broker.Invariant.{Inv, NoLeak}
use vyatta_route_broker.Broker.Placed.{
  placed, placed-Inv, flagged, broker_add_obj-placed, broker_upd_obj-placed, broker_del_obj-placed,
  not_client,
}
use vyatta_route_broker.Broker.Removed.{
  removed, removed-Inv, obj_not_client, broker_client_delete-Inv,
}
use vyatta_route_broker.Broker.Moved.{
  joined-Inv, start_id, start_id-starts, broker_client_create-joined,
}
use vyatta_route_broker.Broker.Consume.{broker_client_get_data-Inv}
use vyatta_route_broker.Broker.Leak.{placed-NoLeak, removed-NoLeak, broker_client_delete-NoLeak}
use vyatta_route_broker.Broker.Retain.{joined-NoLeak, broker_client_get_data-NoLeak}
use vyatta_route_broker.Broker.Calls.{
  Call, add, upd, del, del_now, create, leave, get, Allowed, step, Reach, here, more,
}

-- A broker in order, with nothing left behind.
pub record Sound (b : Broker) : Type 0 where
  pub inv : Inv b
  pub no_leak : NoLeak b

placed-Sound :
    {b : Broker} (r : ℕ) (o : BrokerObj)
    → Sound b
    → o.is_obj ≡ true
    → contains r b.b_client_list ≡ false
    → (o.is_delete && is_empty b.b_client_list) ≡ false
    → b.id + 1 < 2 ^ 64
    → Sound (placed b r o)
placed-Sound r o s i n d fits = record {
  inv = placed-Inv s.inv r o i fits n;
  no_leak = placed-NoLeak r o s.inv i n d s.no_leak;
}

removed-Sound : {b : Broker} (r : ℕ) → Sound b → (b.mem r).is_obj ≡ true → Sound (removed b r)
removed-Sound r s i = record {
  inv = removed-Inv r s.inv (obj_not_client r s.inv i);
  no_leak = removed-NoLeak r s.inv (obj_not_client r s.inv i) s.no_leak;
}

module _ {W D : Type 0} (ops : BrokerOps W) (client_ops : BrokerClientOps W D) where
  create-Sound :
      (b : Broker) (c : ℕ) (n : String)
      → Sound b
      → contains c b.b_obj_list ≡ false
      → Sound (broker_client_create b true (some c) (some n)).0
  create-Sound b c n s h =
      let starts = start_id-starts s.inv in
      rw (broker_client_create-joined b c n h) (record {
        inv = joined-Inv c n (start_id b) s.inv h starts.0 starts.1;
        no_leak = joined-NoLeak b c n (start_id b) h (not_client s.inv c h) s.no_leak;
      })

  del-Sound :
      (s : State W) (r : ℕ)
      → Sound s.broker
      → (s.mem r).is_obj ≡ true
      → s.id + 1 < 2 ^ 64
      → Sound (broker_del_obj ops s r).broker
  unfolding broker_del_obj broker_del_obj_now
  del-Sound s r v i fits = elim (Bool-cases (is_empty s.b_client_list)) [
    | inl e ↦ rw (e, broker_del_obj) (removed-Sound r v i)
    | inr e ↦
        rw (broker_del_obj-placed ops s r e)
          (placed-Sound r (flagged (s.mem r) true) v i (obj_not_client r v.inv i) e fits)
  ]

  -- Each allowed call leads from a sound broker to a sound broker.
  pub step-Sound :
      (s : State W) (c : Call)
      → Allowed s.broker c
      → Sound s.broker
      → Sound (step ops client_ops s c).broker
  unfolding step broker_del_obj_now
  step-Sound s (add r type) a v = rw (broker_add_obj-placed ops s r type a.0) (
      placed-Sound r (record { obj_type = type; flags = obj_flags; id = 0 }) v refl
        (not_client v.inv r a.0) refl a.1)
  step-Sound s (upd r) a v =
      rw (broker_upd_obj-placed ops s r)
        (placed-Sound r (flagged (s.mem r) false) v a.0.1 (obj_not_client r v.inv a.0.1) refl a.1)
  step-Sound s (del r) a v = del-Sound s r v a.0.1 a.1
  step-Sound s (del_now r) a v = removed-Sound r v a.1
  step-Sound s (create c n) a v = create-Sound s.broker c n v a
  step-Sound s (leave c) a v = record {
    inv = broker_client_delete-Inv ops s c v.inv;
    no_leak = broker_client_delete-NoLeak ops s c v.inv;
  }
  step-Sound s (get c) a v = record {
    inv = broker_client_get_data-Inv ops client_ops s c v.inv a;
    no_leak = broker_client_get_data-NoLeak ops client_ops s c v.inv a v.no_leak;
  }

  -- Every broker that allowed calls reach from a sound one is sound. Its queue and its list of
  -- clients have no element twice, every client stands in the queue, the ids grow along the queue
  -- and are at most the broker's, and no object that is marked as deleted is kept in the queue
  -- when no client has still to be told of it.
  pub Reach-Sound : {s t : State W} → Sound s.broker → Reach ops client_ops s t → Sound t.broker
  Reach-Sound v here = v
  Reach-Sound v (more {t} r c a) = step-Sound t c a (Reach-Sound v r)
