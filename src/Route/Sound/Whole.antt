-- ===== src/Route/Sound/Whole.antt =====
-- `object_broker_publish` as a whole keeps the table and the queues in step.
use vyatta_route_broker.Base.{ℕ, ◌+◌, ◌≡◌, refl, Bool, true, false, Option, none, some, String}
use vyatta_route_broker.Broker.{u64}
use vyatta_route_broker.Broker.Placed.{eq_refl}
use vyatta_route_broker.Zhash.{Zhash}
use vyatta_route_broker.Route.Types.{Callbacks, RouteBroker, free_data, free_route}
use vyatta_route_broker.Route.Publish.{
  new_route, publish_route, publish_copy, object_broker_publish,
}
use vyatta_route_broker.Route.Client.{route_broker_wake_clients}
use vyatta_route_broker.Route.Table.{Tabled, unqueued_ne}
use vyatta_route_broker.Route.Table.Release.{free_route-Tabled}
use vyatta_route_broker.Route.Sound.{RouteSound, queues, Fresh, Fresh-queues, HasIds}
use vyatta_route_broker.Route.Sound.Branches.{
  publish_update-RouteSound, publish_delete-RouteSound, NoOverride, new_route-RouteSound,
  free_data-Tabled,
}

module _ {H : Zhash} {D : Type 0} where
  -- The brokers, the table and the freed routes are as they were, and the routes but for the new.
  pub new_route-NoOverride :
      {rb : RouteBroker H D} (a pri : ℕ) (topic : String) (d : D) (t : String) (hashed : Option ℕ)
      → RouteSound rb
      → Fresh rb a
      → H.lookup rb.route_hashtbl t ≡ hashed
      → NoOverride rb pri hashed
      → NoOverride (new_route rb a pri topic d) pri hashed
  unfolding new_route
  new_route-NoOverride a pri topic d t none v f e n = tt
  new_route-NoOverride {rb} a pri topic d t (some h) v f e n =
      let q = (v.tabled.found t h e).0 in
      rw (unqueued_ne (queues rb) a (rb.rib_route h).pri h (λ i. Fresh-queues a i f) q) n

  pub publish_route-RouteSound :
      {rb : RouteBroker H D} (a pri : ℕ) (topic : String) (deleted : Bool) (d : D)
      → RouteSound rb
      → HasIds rb
      → Fresh rb a
      → (deleted ≡ true → NoOverride rb pri (H.lookup rb.route_hashtbl topic))
      → RouteSound (publish_route rb a pri (topic, deleted) d)
  unfolding publish_route route_broker_wake_clients
  publish_route-RouteSound {rb} a pri topic true d v ids f n =
      let t = new_route-RouteSound a pri topic d v f in
      let hashed = H.lookup rb.route_hashtbl topic in
      let k =
        publish_delete-RouteSound {rb = new_route rb a pri topic d} a pri topic hashed t ids
          (record { unqueued = f.unqueued; not_freed = f.not_freed }) refl
          (new_route-NoOverride a pri topic d topic hashed v f refl (n refl)) in
      record { levels = k.levels; tabled = k.tabled }
  publish_route-RouteSound {rb} a pri topic false d v ids f n =
      let t = new_route-RouteSound a pri topic d v f in
      let hashed = H.lookup rb.route_hashtbl topic in
      let k =
        publish_update-RouteSound {rb = new_route rb a pri topic d} a pri topic hashed t ids
          (record { unqueued = f.unqueued; not_freed = f.not_freed }) (rw (eq_refl a) refl)
          (rw (eq_refl a) refl) (rw (eq_refl a) refl) refl in
      record { levels = k.levels; tabled = k.tabled }

  -- No object is published as a delete at a higher priority than that of the route that its topic has.
  abbrev pub NoOverridingDelete : Callbacks D → RouteBroker H D → D → ℕ → Type 0
  NoOverridingDelete cb rb obj pri =
      (d : D) (topic : String)
      → cb.copy_obj obj ≡ some d
      → cb.topic_gen d ≡ some (topic, true)
      → NoOverride rb pri (H.lookup rb.route_hashtbl topic)

  free_new-Tabled :
      {rb : RouteBroker H D} (a : ℕ)
      → RouteSound rb
      → Fresh rb a
      → Tabled (queues rb) (free_route rb.world a)
  free_new-Tabled a v f = free_route-Tabled a v.tabled (λ i. Fresh-queues a i f) f.not_freed

  generated :
      (cb : Callbacks D) (rb : RouteBroker H D) (pri a : ℕ) (d : D) (t : Option (String × Bool))
      → RouteSound rb
      → HasIds rb
      → Fresh rb a
      → cb.topic_gen d ≡ t
      → ((topic : String)
          → t ≡ some (topic, true)
          → NoOverride rb pri (H.lookup rb.route_hashtbl topic))
      → RouteSound (publish_copy cb rb a pri (some d))
  unfolding publish_copy
  generated cb rb pri a d none v ids f e n =
      rw (e, publish_copy)
        (record {
          levels = v.levels;
          tabled =
              free_route-Tabled a (free_data-Tabled d v.tabled) (λ i. Fresh-queues a i f)
                f.not_freed;
        })
  generated cb rb pri a d (some (topic, deleted)) v ids f e n =
      rw (e, publish_copy)
        (publish_route-RouteSound a pri topic deleted d v ids f
          (λ yes_del. n topic (rw yes_del refl)))

  copied :
      (cb : Callbacks D) (rb : RouteBroker H D) (obj : D) (pri a : ℕ) (copy : Option D)
      → RouteSound rb
      → HasIds rb
      → Fresh rb a
      → cb.copy_obj obj ≡ copy
      → NoOverridingDelete cb rb obj pri
      → RouteSound
          (publish_copy cb (record rb { processed_msg = u64 (rb.processed_msg + 1) }) a pri copy)
  unfolding publish_copy free_data
  copied cb rb obj pri a none v ids f e n = record {
    levels = v.levels;
    tabled = free_new-Tabled a v f;
  }
  copied cb rb obj pri a (some d) v ids f e n =
      generated cb (record rb { processed_msg = u64 (rb.processed_msg + 1) }) pri a d
        (cb.topic_gen d) (record { levels = v.levels; tabled = v.tabled }) ids
        (record { unqueued = f.unqueued; not_freed = f.not_freed }) refl (λ topic g. n d topic e g)

  -- Publishing an object keeps the brokers sound, and the table in step with the queues, on every
  -- branch: whether or not there is memory, the object can be copied or has a topic, and whatever the
  -- table has for the topic.
  pub object_broker_publish-RouteSound :
      (cb : Callbacks D) (rb : RouteBroker H D) (obj : D) (pri : ℕ) (addr : Option ℕ)
      → RouteSound rb
      → HasIds rb
      → ((a : ℕ) → addr ≡ some a → Fresh rb a)
      → NoOverridingDelete cb rb obj pri
      → RouteSound (object_broker_publish cb rb obj pri addr)
  unfolding object_broker_publish
  object_broker_publish-RouteSound cb rb obj pri none v ids f n = record {
    levels = v.levels;
    tabled = v.tabled;
  }
  object_broker_publish-RouteSound cb rb obj pri (some a) v ids f n =
      copied cb rb obj pri a (cb.copy_obj obj) v ids (f a refl) refl n
