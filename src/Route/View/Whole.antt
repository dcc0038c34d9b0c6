-- ===== src/Route/View/Whole.antt =====
-- `object_broker_publish` as one operation on the map from topics to routes.
use mathlib.Core.Option.{map}
use vyatta_route_broker.Base.{
  ℕ, ◌+◌, ◌≡◌, ◌∙◌, refl, ap, Bool, true, false, Option, none, some, String,
}
use vyatta_route_broker.Broker.{u64}
use vyatta_route_broker.Broker.Placed.{eq_refl}
use vyatta_route_broker.Zhash.{Zhash}
use vyatta_route_broker.Route.Types.{RibRoute, Callbacks, RouteBroker, free_data, free_route}
use vyatta_route_broker.Route.Client.{route_broker_wake_clients}
use vyatta_route_broker.Route.Publish.{
  new_route, publish_delete, publish_update, publish_route, publish_copy, object_broker_publish,
}
use vyatta_route_broker.Route.Sound.{RouteSound, Fresh, HasIds}
use vyatta_route_broker.Route.Sound.Branches.{new_route-RouteSound}
use vyatta_route_broker.Route.View.{view, unwatched, message, after_message}
use vyatta_route_broker.Route.View.Publish.{same_view, new_ne, publish_update-view}
use vyatta_route_broker.Route.View.Withdraw.{publish_delete-view}

module _ {H : Zhash} {D : Type 0} where
  woken-view :
      (rb : RouteBroker H D) (t : String) → view (route_broker_wake_clients rb) t ≡ view rb t
  unfolding route_broker_wake_clients
  woken-view rb t = refl

  -- A route that is filled in and not yet queued is not seen.
  new_route-view :
      {rb : RouteBroker H D} (a pri : ℕ) (topic : String) (d : D) (t : String)
      → RouteSound rb
      → Fresh rb a
      → view (new_route rb a pri topic d) t ≡ view rb t
  unfolding new_route
  new_route-view {rb} a pri topic d t v f =
      same_view rb (new_route rb a pri topic d) t refl (λ r e. rw (new_ne a r t v f e) refl)

  pub new_route-fields :
      (rb : RouteBroker H D) (a pri : ℕ) (topic : String) (d : D)
      → (new_route rb a pri topic d).rib_route a
        ≡ record { refcount = 0; pri = pri; topic = topic; payload = d }
  unfolding new_route
  new_route-fields rb a pri topic d = rw (eq_refl a) refl

  pub new_route-Fresh :
      {rb : RouteBroker H D} (a pri : ℕ) (topic : String) (d : D)
      → Fresh rb a
      → Fresh (new_route rb a pri topic d) a
  unfolding new_route
  new_route-Fresh a pri topic d f = record { unqueued = f.unqueued; not_freed = f.not_freed }

  pub new_route-HasIds :
      (rb : RouteBroker H D) (a pri : ℕ) (topic : String) (d : D)
      → HasIds rb
      → HasIds (new_route rb a pri topic d)
  unfolding new_route
  new_route-HasIds rb a pri topic d ids = ids

  new_route-unwatched :
      (rb : RouteBroker H D) (a pri : ℕ) (topic : String) (d : D)
      → unwatched (new_route rb a pri topic d) ≡ unwatched rb
  unfolding new_route
  new_route-unwatched rb a pri topic d = refl

  new_route-lookup :
      (rb : RouteBroker H D) (a pri : ℕ) (topic : String) (d : D)
      → H.lookup rb.route_hashtbl topic ≡ H.lookup (new_route rb a pri topic d).route_hashtbl topic
  unfolding new_route
  new_route-lookup rb a pri topic d = refl

  pub publish_route-view :
      {rb : RouteBroker H D} (a pri : ℕ) (topic : String) (deleted : Bool) (d : D) (t : String)
      → RouteSound rb
      → HasIds rb
      → Fresh rb a
      → view (publish_route rb a pri (topic, deleted) d) t
        ≡ after_message (unwatched rb) pri (some (d, some (topic, deleted))) (view rb) t
  unfolding publish_route
  publish_route-view {rb} a pri topic false d t v ids f =
      let u = new_route rb a pri topic d in
      let o = new_route-fields rb a pri topic d in
      let hashed = H.lookup u.route_hashtbl topic in
      let w = publish_update u a pri hashed in
      let k =
        publish_update-view {rb = u} a pri topic hashed t (new_route-RouteSound a pri topic d v f)
          (new_route-HasIds rb a pri topic d ids) (new_route-Fresh a pri topic d f)
          (ap (λ (r : RibRoute D). r.pri) o) (ap (λ (r : RibRoute D). r.topic) o) refl in
      woken-view w t
      ∙ k
      ∙ rw
          (
            ap (λ (r : RibRoute D). r.payload) o,
            new_route-view a pri topic d topic v f,
            new_route-view a pri topic d t v f,
          )
          refl
  publish_route-view {rb} a pri topic true d t v ids f =
      let u = new_route rb a pri topic d in
      let o = new_route-fields rb a pri topic d in
      let hashed = H.lookup u.route_hashtbl topic in
      let w = publish_delete u a pri hashed in
      let k =
        publish_delete-view {rb = u} a pri topic hashed t (new_route-RouteSound a pri topic d v f)
          (new_route-HasIds rb a pri topic d ids) (new_route-Fresh a pri topic d f)
          (ap (λ (r : RibRoute D). r.refcount) o) (ap (λ (r : RibRoute D). r.topic) o) refl in
      woken-view w t
      ∙ k
      ∙ rw
          (
            ap (λ (r : RibRoute D). r.payload) o,
            new_route-view a pri topic d topic v f,
            new_route-view a pri topic d t v f,
            new_route-unwatched rb a pri topic d,
          )
          refl

  ignored-view :
      (cb : Callbacks D) (rb : RouteBroker H D) (a pri : ℕ) (d : D) (t : String)
      → cb.topic_gen d ≡ none
      → view (publish_copy cb rb a pri (some d)) t ≡ view rb t
  unfolding publish_copy free_data free_route
  ignored-view cb rb a pri d t e = rw (e, publish_copy) refl

  dropped-view :
      (cb : Callbacks D) (rb : RouteBroker H D) (a pri : ℕ) (t : String)
      → view (publish_copy cb rb a pri none) t ≡ view rb t
  unfolding publish_copy free_data free_route
  dropped-view cb rb a pri t = refl

  generated-view :
      (cb : Callbacks D) {rb : RouteBroker H D} (a pri : ℕ) (d : D) (g : Option (String × Bool))
      (t : String)
      → RouteSound rb
      → HasIds rb
      → Fresh rb a
      → cb.topic_gen d ≡ g
      → view (publish_copy cb rb a pri (some d)) t
        ≡ after_message (unwatched rb) pri (some (d, g)) (view rb) t
  unfolding publish_copy
  generated-view cb {rb} a pri d none t v ids f e = ignored-view cb rb a pri d t e
  generated-view cb {rb} a pri d (some (topic, deleted)) t v ids f e =
      rw (e, publish_copy) (publish_route-view a pri topic deleted d t v ids f)

  copied-view :
      (cb : Callbacks D) {rb : RouteBroker H D} (obj : D) (a pri : ℕ) (copy : Option D) (t : String)
      → RouteSound rb
      → HasIds rb
      → Fresh rb a
      → cb.copy_obj obj ≡ copy
      → view
          (publish_copy cb (record rb { processed_msg = u64 (rb.processed_msg + 1) }) a pri copy)
          t
        ≡ after_message (unwatched rb) pri (map (λ d. (d, cb.topic_gen d)) copy) (view rb) t
  copied-view cb {rb} obj a pri none t v ids f e =
      dropped-view cb (record rb { processed_msg = u64 (rb.processed_msg + 1) }) a pri t
  copied-view cb {rb} obj a pri (some d) t v ids f e =
      generated-view cb {rb = record rb { processed_msg = u64 (rb.processed_msg + 1) }} a pri d
        (cb.topic_gen d) t (record { levels = v.levels; tabled = v.tabled }) ids
        (record { unqueued = f.unqueued; not_freed = f.not_freed }) refl

  -- In a sound state, with memory for the route and ids left, object_broker_publish is an operation
  -- on a map from topics to routes. An update gives its topic the new data, unmarked, at the higher
  -- of the two priorities. A delete at no higher priority than its topic's route leaves the route with
  -- the new data and marked, or removes it when no client has to be told; a delete at a higher
  -- priority removes it. A delete of an unknown topic, an object that cannot be copied and one without
  -- a topic change nothing; and every other topic keeps its route.
  pub object_broker_publish-view :
      (cb : Callbacks D) (rb : RouteBroker H D) (obj : D) (pri a : ℕ) (t : String)
      → RouteSound rb
      → HasIds rb
      → Fresh rb a
      → view (object_broker_publish cb rb obj pri (some a)) t
        ≡ after_message (unwatched rb) pri (message cb obj) (view rb) t
  unfolding object_broker_publish
  object_broker_publish-view cb rb obj pri a t v ids f =
      copied-view cb obj a pri (cb.copy_obj obj) t v ids f refl
