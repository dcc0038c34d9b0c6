-- ===== src/Route/Sync.antt =====
-- A client that follows the route broker keeps a replica of the map from topics to routes: it stores
-- the routes that it is told of, and drops those that it is told are deleted.
pub mod Queue
pub mod Kept
pub mod Publish
pub mod Message
pub mod Published
pub mod Steady
pub mod Leave
pub mod Join
pub mod Read
pub mod Own
pub mod Follow
pub mod Replica
pub mod CatchUp
use text.Mathlib.Text.{◌==◌ as str_eq}
use vyatta_route_broker.Base.{
  ℕ, ◌≡◌, ◌∙◌, refl, sym, ap, arith, ◌&&◌, inl, inr, true, false, Bool, none, some, Option, String,
  if◌then◌else◌, contains, Bool-cases, Option-cases,
}
use vyatta_route_broker.Circleq.{after}
use vyatta_route_broker.Circleq.Laws.{contains-filter, contains_of-after}
use vyatta_route_broker.Zhash.{Zhash}
use vyatta_route_broker.Route.Types.{Callbacks, RouteBroker, route_priorities}
use vyatta_route_broker.Route.Client.{level_pending}
use vyatta_route_broker.Route.Sound.{RouteSound, queues}
use vyatta_route_broker.Route.View.{Seen, view}

module _ {D : Type 0} where
  -- The data of a route that is in force.
  abbrev pub live : Option (Seen D) → Option D
  live none = none
  live (some s) = if s.deleted then none else some s.payload

  abbrev pub store : (String → Option D) → String → Option D → String → Option D
  store R topic entry t = if str_eq topic t then entry else R t

  -- What a message without and with a topic makes of the replica.
  abbrev pub receive_topic : (String → Option D) → D → Option (String × Bool) → String → Option D
  receive_topic R d none = R
  receive_topic R d (some (topic, deleted)) = store R topic (if deleted then none else some d)

  abbrev pub receive : Callbacks D → (String → Option D) → Option D → String → Option D
  receive cb R none = R
  receive cb R (some d) = receive_topic R d (cb.topic_gen d)

  -- The data of each route has the topic under which the map has it, and tells whether it is a
  -- delete; its priority is one of the three.
  abbrev pub Described : Callbacks D → (String → Option (Seen D)) → Type 0
  Described cb v =
      (t : String) (s : Seen D)
      → v t ≡ some s
      → (cb.topic_gen s.payload ≡ some (t, s.deleted)) × (contains s.pri route_priorities ≡ true)

module _ {H : Zhash} {D : Type 0} where
  -- The client has still to be told of the route.
  abbrev pub wanted : RouteBroker H D → ℕ → ℕ → ℕ → Bool
  wanted rb c i r = contains r (level_pending rb c i)

  abbrev pub due_route : RouteBroker H D → ℕ → Option ℕ → Bool
  due_route rb c none = false
  due_route rb c (some r) = wanted rb c (rb.rib_route r).pri r

  -- The client has still to be told of the route of the topic.
  abbrev pub due : RouteBroker H D → ℕ → String → Bool
  due rb c t = due_route rb c (H.lookup rb.route_hashtbl t)

  -- The replica has the route of every topic of which the client has not still to be told.
  abbrev pub Sync : RouteBroker H D → ℕ → (String → Option D) → Type 0
  Sync rb c R = (t : String) → due rb c t ≡ false → R t ≡ live (view rb t)

  -- What a step leaves for a client to be told of, or leaves as it is.
  pub record Undisturbed (rb u : RouteBroker H D) (c : ℕ) (t : String) : Type 0 where
    pub still_due : due rb c t ≡ true → due u c t ≡ true
    pub same_live : due u c t ≡ false → live (view u t) ≡ live (view rb t)

  pub Undisturbed-Sync :
      {rb u : RouteBroker H D} (c : ℕ) (R : String → Option D)
      → ((t : String) → Undisturbed rb u c t)
      → Sync rb c R
      → Sync u c R
  Undisturbed-Sync {rb} {u} c R un s t e = elim (Bool-cases (due rb c t)) [
    | inl d ↦ absurd (cc ((un t).still_due d))
    | inr d ↦ s t d ∙ sym ((un t).same_live e)
  ]

  pub wanted-queues :
      (rb : RouteBroker H D) (c i r : ℕ) → wanted rb c i r ≡ true → queues rb i r ≡ true
  wanted-queues rb c i r w =
      let b = rb.route_broker i in
      let a = rb.level_client c i in
      ground (
        arith,
        contains-filter (λ o. (b.mem o).is_obj) r (after a b.b_obj_list),
        contains_of-after r a b.b_obj_list,
      )

  -- A route that a client has still to be told of makes its topic due.
  pub wanted-due :
      {u : RouteBroker H D} (c i r : ℕ) (t : String)
      → RouteSound u
      → (u.rib_route r).topic ≡ t
      → wanted u c i r ≡ true
      → due u c t ≡ true
  wanted-due {u} c i r t v e w =
      let q = wanted-queues u c i r w in rw (sym e, v.tabled.known i r q, v.tabled.leveled i r q) w

  -- What makes a topic due.
  pub record Awaited (rb : RouteBroker H D) (c : ℕ) (t : String) : Type 0 where
    pub level : ℕ
    pub route : ℕ
    pub looked_up : H.lookup rb.route_hashtbl t ≡ some route
    pub at_level : (rb.rib_route route).pri ≡ level
    pub queued : queues rb level route ≡ true
    pub of_topic : (rb.rib_route route).topic ≡ t
    pub still : wanted rb c level route ≡ true

  pub due-Awaited :
      {rb : RouteBroker H D} (c : ℕ) (t : String)
      → RouteSound rb
      → due rb c t ≡ true
      → Awaited rb c t
  due-Awaited {rb} c t v d = elim (Option-cases (H.lookup rb.route_hashtbl t)) [
    | inl e ↦ absurd (cc (sym d ∙ ap (due_route rb c) e))
    | inr (r, e) ↦ record {
      level = (rb.rib_route r).pri;
      route = r;
      looked_up = e;
      at_level = refl;
      queued = (v.tabled.found t r e).0;
      of_topic = (v.tabled.found t r e).1;
      still = sym (ap (due_route rb c) e) ∙ d;
    }
  ]
