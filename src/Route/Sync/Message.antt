-- ===== src/Route/Sync/Message.antt =====
-- `object_broker_publish` as a whole, for a client that follows.
use mathlib.Core.Path.{subst}
use text.Mathlib.Text.{◌==◌ as str_eq}
use vyatta_route_broker.Base.{
  ℕ, ◌≡◌, ◌∙◌, refl, ap, sym, inl, inr, Bool, true, false, none, some, String, ◌==◌, Bool-cases,
  Option-cases,
}
use vyatta_route_broker.Zhash.{Zhash}
use vyatta_route_broker.Route.Types.{RibRoute, RouteBroker}
use vyatta_route_broker.Route.Client.{route_broker_wake_clients}
use vyatta_route_broker.Route.Publish.{new_route, publish_route}
use vyatta_route_broker.Route.Sound.{RouteSound, Fresh, HasIds}
use vyatta_route_broker.Route.Sound.Branches.{NoOverride, new_route-RouteSound}
use vyatta_route_broker.Route.Sound.Whole.{new_route-NoOverride, publish_route-RouteSound}
use vyatta_route_broker.Route.View.{view}
use vyatta_route_broker.Route.View.Publish.{new_ne}
use vyatta_route_broker.Route.View.Whole.{
  new_route-fields, new_route-Fresh, new_route-HasIds, publish_route-view,
}
use vyatta_route_broker.Route.Table.{str_eq→eq}
use vyatta_route_broker.Route.Sync.{Undisturbed, live, due, due-Awaited, wanted-due}
use vyatta_route_broker.Route.Sync.Kept.{Kept, Kept-trans}
use vyatta_route_broker.Route.Sync.Publish.{
  Watches, Renewed, publish_update-Renewed, publish_delete-Renewed, publish_delete-Kept,
}

module _ {H : Zhash} {D : Type 0} where
  new_route-lookup :
      (rb : RouteBroker H D) (a pri : ℕ) (topic : String) (d : D) (t : String)
      → H.lookup (new_route rb a pri topic d).route_hashtbl t ≡ H.lookup rb.route_hashtbl t
  unfolding new_route
  new_route-lookup rb a pri topic d t = refl

  new_route-Kept :
      (rb : RouteBroker H D) (c a pri r : ℕ) (topic : String) (d : D)
      → (a == r) ≡ false
      → Kept rb (new_route rb a pri topic d) c r
  unfolding new_route
  new_route-Kept rb c a pri r topic d ne = record {
    still_wanted = λ i w. w;
    same_topic = rw ne refl;
  }

  new_route-Watches :
      {rb : RouteBroker H D} (c a pri : ℕ) (topic : String) (d : D)
      → RouteSound rb
      → Fresh rb a
      → Watches rb c pri topic
      → Watches (new_route rb a pri topic d) c pri topic
  unfolding new_route
  new_route-Watches c a pri topic d v f w = (w.0, λ h e. rw (new_ne a h topic v f e) (w.1 h e))

  woken-Kept :
      {rb u : RouteBroker H D} {c r : ℕ} → Kept rb u c r → Kept rb (route_broker_wake_clients u) c r
  unfolding route_broker_wake_clients
  woken-Kept k = record { still_wanted = k.still_wanted; same_topic = k.same_topic }

  woken-Renewed :
      {rb u : RouteBroker H D} {c : ℕ} {topic : String}
      → Renewed rb u c topic
      → Renewed rb (route_broker_wake_clients u) c topic
  unfolding route_broker_wake_clients
  woken-Renewed k = record {
    level = k.level;
    route = k.route;
    now_wanted = k.now_wanted;
    of_topic = k.of_topic;
    others = λ t r e ne. woken-Kept (k.others t r e ne);
  }

  -- The routes of a topic that are left as they are keep it due.
  Kept-due :
      {rb u : RouteBroker H D} (c : ℕ) (t : String)
      → RouteSound rb
      → RouteSound u
      → ((r : ℕ) → H.lookup rb.route_hashtbl t ≡ some r → Kept rb u c r)
      → due rb c t ≡ true
      → due u c t ≡ true
  Kept-due c t v w k d =
      let x = due-Awaited c t v d in
      let kept = k x.route x.looked_up in
      wanted-due c x.level x.route t w (kept.same_topic ∙ x.of_topic)
        (kept.still_wanted x.level x.still)

  -- A message of a topic: its route is due, and the other topics are left as they are.
  Renewed-Undisturbed :
      {rb u : RouteBroker H D} (c : ℕ) (topic t : String)
      → RouteSound rb
      → RouteSound u
      → Renewed rb u c topic
      → (str_eq topic t ≡ false → view u t ≡ view rb t)
      → Undisturbed rb u c t
  Renewed-Undisturbed {rb} {u} c topic t v w k same = elim (Bool-cases (str_eq topic t)) [
    | inl e ↦
        let now : due u c t ≡ true =
          wanted-due c k.level k.route t w (k.of_topic ∙ str_eq→eq topic t e) k.now_wanted in
        record { still_due = λ d. now; same_live = λ d. absurd (cc (now, d)) }
    | inr e ↦ record {
      still_due = Kept-due c t v w (λ r l. k.others t r l e);
      same_live = λ d. ap live (same e);
    }
  ]

  Kept-Undisturbed :
      {rb u : RouteBroker H D} (c : ℕ) (t : String)
      → RouteSound rb
      → RouteSound u
      → ((r : ℕ) → H.lookup rb.route_hashtbl t ≡ some r → Kept rb u c r)
      → view u t ≡ view rb t
      → Undisturbed rb u c t
  Kept-Undisturbed c t v w k same = record {
    still_due = Kept-due c t v w k;
    same_live = λ d. ap live same;
  }

  new_route-Renewed :
      {rb u : RouteBroker H D} (c a pri : ℕ) (topic : String) (d : D)
      → RouteSound rb
      → Fresh rb a
      → Renewed (new_route rb a pri topic d) u c topic
      → Renewed rb (route_broker_wake_clients u) c topic
  new_route-Renewed {rb} c a pri topic d v f k = woken-Renewed (record {
    level = k.level;
    route = k.route;
    now_wanted = k.now_wanted;
    of_topic = k.of_topic;
    others = λ t r e ne.
        Kept-trans (new_route-Kept rb c a pri r topic d (new_ne a r t v f e))
          (k.others t r (new_route-lookup rb a pri topic d t ∙ e) ne);
  })

  publish_route-Renewed :
      {rb : RouteBroker H D} (c a pri : ℕ) (topic : String) (d : D)
      → RouteSound rb
      → HasIds rb
      → Fresh rb a
      → Watches rb c pri topic
      → Renewed rb (publish_route rb a pri (topic, false) d) c topic
  unfolding publish_route
  publish_route-Renewed {rb} c a pri topic d v ids f w =
      let u = new_route rb a pri topic d in
      new_route-Renewed c a pri topic d v f (
        publish_update-Renewed {rb = u} c a pri topic (H.lookup u.route_hashtbl topic)
          (new_route-RouteSound a pri topic d v f) (new_route-HasIds rb a pri topic d ids)
          (new_route-Fresh a pri topic d f) (new_route-Watches c a pri topic d v f w)
          (ap (λ (o : RibRoute D). o.topic) (new_route-fields rb a pri topic d)) refl)

  publish_route-Renewed_delete :
      {rb : RouteBroker H D} (c a pri h : ℕ) (topic : String) (d : D)
      → RouteSound rb
      → HasIds rb
      → Fresh rb a
      → Watches rb c pri topic
      → H.lookup rb.route_hashtbl topic ≡ some h
      → NoOverride rb pri (some h)
      → Renewed rb (publish_route rb a pri (topic, true) d) c topic
  unfolding publish_route
  publish_route-Renewed_delete {rb} c a pri h topic d v ids f w e n =
      let u = new_route rb a pri topic d in
      let found = new_route-lookup rb a pri topic d topic ∙ e in
      rw found (
        new_route-Renewed c a pri topic d v f (
          publish_delete-Renewed {rb = u} c a pri h topic (new_route-RouteSound a pri topic d v f)
            (new_route-HasIds rb a pri topic d ids) (new_route-Fresh a pri topic d f)
            (new_route-Watches c a pri topic d v f w) found
            (new_route-NoOverride a pri topic d topic (some h) v f e n)))

  publish_route-Kept :
      {rb : RouteBroker H D} (c a pri r : ℕ) (topic : String) (d : D)
      → H.lookup rb.route_hashtbl topic ≡ none
      → (a == r) ≡ false
      → Kept rb (publish_route rb a pri (topic, true) d) c r
  unfolding publish_route
  publish_route-Kept {rb} c a pri r topic d e ne =
      let found = new_route-lookup rb a pri topic d topic ∙ e in
      rw found (
        woken-Kept
          (Kept-trans (new_route-Kept rb c a pri r topic d ne) (publish_delete-Kept c a pri r)))

  pub publish_route-Undisturbed :
      {rb : RouteBroker H D} (c a pri : ℕ) (topic : String) (deleted : Bool) (d : D) (t : String)
      → RouteSound rb
      → HasIds rb
      → Fresh rb a
      → (deleted ≡ true → NoOverride rb pri (H.lookup rb.route_hashtbl topic))
      → Watches rb c pri topic
      → Undisturbed rb (publish_route rb a pri (topic, deleted) d) c t
  publish_route-Undisturbed {rb} c a pri topic false d t v ids f n w =
      Renewed-Undisturbed c topic t v (publish_route-RouteSound a pri topic false d v ids f n)
        (publish_route-Renewed c a pri topic d v ids f w)
        (λ e. publish_route-view a pri topic false d t v ids f ∙ rw e refl)
  publish_route-Undisturbed {rb} c a pri topic true d t v ids f n w =
      let sound = publish_route-RouteSound a pri topic true d v ids f n in
      let seen = publish_route-view a pri topic true d t v ids f in
      elim (Option-cases (H.lookup rb.route_hashtbl topic)) [
        | inl e ↦
            Kept-Undisturbed c t v sound
              (λ r l. publish_route-Kept c a pri r topic d e (new_ne a r t v f l))
              (seen ∙ elim (Bool-cases (str_eq topic t)) [
                | inl s ↦ rw (s, e, sym (str_eq→eq topic t s), e) refl
                | inr s ↦ rw s refl
              ])
        | inr (h, e) ↦
            Renewed-Undisturbed c topic t v sound
              (publish_route-Renewed_delete c a pri h topic d v ids f w e
                (subst (NoOverride rb pri) e (n refl)))
              (λ s. seen ∙ rw s refl)
      ]
