-- ===== src/Route/Sync/Publish.antt =====
-- `object_broker_publish`, for a client that follows: the topic of the message becomes due, and the
-- other topics are left as they are.
use text.Mathlib.Text.{◌==◌ as str_eq}
use vyatta_route_broker.Base.{
  ℕ, ◌≡◌, ◌∙◌, refl, ap, inl, inr, true, false, Option, none, some, String, Bool-cases, ltb,
}
use vyatta_route_broker.Zhash.{Zhash}
use vyatta_route_broker.Route.Types.{RibRoute, RouteBroker, free_route, free_data}
use vyatta_route_broker.Route.Publish.{
  del_route, force_out, with_world, swap_data, publish_update, publish_delete,
}
use vyatta_route_broker.Route.Sound.{RouteSound, Fresh, HasIds}
use vyatta_route_broker.Route.Sound.Clients.{At}
use vyatta_route_broker.Route.Sound.Publish.{force_out-RouteSound}
use vyatta_route_broker.Route.Sound.Branches.{force_out-Cleared, NoOverride}
use vyatta_route_broker.Route.Sound.Served.{out-SameClients}
use vyatta_route_broker.Route.View.Publish.{swap_data-Swapped, topic_apart}
use vyatta_route_broker.Route.Sync.{wanted}
use vyatta_route_broker.Route.Sync.Queue.{upd-wanted_self, del-wanted_self}
use vyatta_route_broker.Route.Sync.Kept.{
  Kept, Kept-trans, entered-Kept, entered-wanted, entered-topic, out-Kept, upd-Kept, del-Kept,
  upd-topic, del-topic, swapped-Kept, freed-Kept,
}

module _ {H : Zhash} {D : Type 0} where
  -- The client has a client in the broker of each route that the table leads to.
  abbrev pub Watches : RouteBroker H D → ℕ → ℕ → String → Type 0
  Watches rb c pri topic =
      At rb c pri
      × ((h : ℕ) → H.lookup rb.route_hashtbl topic ≡ some h → At rb c (rb.rib_route h).pri)

  -- The route of the topic, behind an update, has still to be told of; so has every other route
  -- that had.
  pub record Renewed (rb u : RouteBroker H D) (c : ℕ) (topic : String) : Type 0 where
    pub level : ℕ
    pub route : ℕ
    pub now_wanted : wanted u c level route ≡ true
    pub of_topic : (u.rib_route route).topic ≡ topic
    pub others :
        (t : String) (r : ℕ)
        → H.lookup rb.route_hashtbl t ≡ some r
        → str_eq topic t ≡ false
        → Kept rb u c r

  out-At : (rb : RouteBroker H D) (c p h i : ℕ) → At rb c i → At (force_out rb p h) c i
  out-At rb c p h i m = let same = out-SameClients rb p h in rw (same.same_level, same.lists i) m

  pub publish_update-Renewed :
      {rb : RouteBroker H D} (c a pri : ℕ) (topic : String) (hashed : Option ℕ)
      → RouteSound rb
      → HasIds rb
      → Fresh rb a
      → Watches rb c pri topic
      → (rb.rib_route a).topic ≡ topic
      → H.lookup rb.route_hashtbl topic ≡ hashed
      → Renewed rb (publish_update rb a pri hashed) c topic
  unfolding publish_update
  publish_update-Renewed {rb} c a pri topic none v ids f w k e = record {
    level = pri;
    route = a;
    now_wanted = entered-wanted rb c pri (v.levels pri).inv w.0 a (rb.rib_route a).topic ids f;
    of_topic = entered-topic rb pri a (rb.rib_route a).topic a ∙ k;
    others =
        λ t r s ne. entered-Kept rb c pri (v.levels pri).inv w.0 a r (rb.rib_route a).topic ids f;
  }
  publish_update-Renewed {rb} c a pri topic (some h) v ids f w k e =
      elim (Bool-cases (ltb pri (rb.rib_route h).pri)) [
        | inl lt ↦
            let p = (rb.rib_route h).pri in
            let u = force_out rb p h in
            let known = v.tabled.found topic h e in
            let cleared = force_out-Cleared topic h a v ids f e in
            let i = ((force_out-RouteSound topic h v e).levels pri).inv in
            let m = out-At rb c p h pri w.0 in
            rw lt (record {
              level = pri;
              route = a;
              now_wanted =
                  entered-wanted u c pri i m a (rb.rib_route a).topic cleared.ids cleared.fresh;
              of_topic =
                  entered-topic u pri a (rb.rib_route a).topic a
                  ∙ ap (λ (o : RibRoute D). o.topic) cleared.same_new
                  ∙ k;
              others = λ t r s ne.
                  Kept-trans
                    (out-Kept rb c p (v.levels p).inv (w.1 h e) h r (v.tabled.counted p h known.0)
                      known.0 (topic_apart h r topic t v e s ne))
                    (entered-Kept u c pri i m a r (rb.rib_route a).topic cleared.ids cleared.fresh);
            })
        | inr ge ↦
            let p = (rb.rib_route h).pri in
            let d = (rb.rib_route a).payload in
            let known = v.tabled.found topic h e in
            let s = swap_data rb h d in
            let u = with_world s (free_route s.world a) in
            let back = (λ (r : ℕ). Kept-trans (swapped-Kept rb c h r d) (freed-Kept s c a r)) in
            rw ge (record {
              level = p;
              route = h;
              now_wanted = upd-wanted_self u c p (v.levels p).inv (w.1 h e) h known.0 ids;
              of_topic = upd-topic u p h h ∙ (back h).same_topic ∙ known.1;
              others = λ t r s ne. Kept-trans (back r) (
                  upd-Kept u c p (v.levels p).inv (w.1 h e) h r ids known.0
                    (topic_apart h r topic t v e s ne));
            })
      ]

  -- A delete of a topic that the table does not know changes nothing of that.
  pub publish_delete-Kept :
      {rb : RouteBroker H D} (c a pri r : ℕ) → Kept rb (publish_delete rb a pri none) c r
  unfolding publish_delete with_world free_route free_data
  publish_delete-Kept c a pri r = record { still_wanted = λ i w. w; same_topic = refl }

  pub publish_delete-Renewed :
      {rb : RouteBroker H D} (c a pri h : ℕ) (topic : String)
      → RouteSound rb
      → HasIds rb
      → Fresh rb a
      → Watches rb c pri topic
      → H.lookup rb.route_hashtbl topic ≡ some h
      → NoOverride rb pri (some h)
      → Renewed rb (publish_delete rb a pri (some h)) c topic
  unfolding publish_delete
  publish_delete-Renewed {rb} c a pri h topic v ids f w e n =
      let p = (rb.rib_route h).pri in
      let d = (rb.rib_route a).payload in
      let known = v.tabled.found topic h e in
      let one = v.tabled.counted p h known.0 in
      let s = swap_data rb h d in
      let u = del_route s p h in
      let one' : (s.rib_route h).refcount ≡ 1 = (swap_data-Swapped rb h d).same_count ∙ one in
      rw n (record {
        level = p;
        route = h;
        now_wanted = del-wanted_self s c p (v.levels p).inv (w.1 h e) h known.0 ids;
        of_topic =
            (freed-Kept u c a h).same_topic
            ∙ del-topic s p h h one'
            ∙ (swapped-Kept rb c h h d).same_topic
            ∙ known.1;
        others = λ t r l ne. Kept-trans (swapped-Kept rb c h r d) (
            Kept-trans
              (del-Kept s c p (v.levels p).inv (w.1 h e) h r ids one' known.0
                (topic_apart h r topic t v e l ne))
              (freed-Kept u c a r));
      })
