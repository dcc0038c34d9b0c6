-- ===== src/Route/View/Read.antt =====
-- A client that takes data, seen from the map of topics to routes.
use text.Mathlib.Text.{◌==◌ as str_eq}
use vyatta_route_broker.Base.{
  ℕ, ◌≡◌, ◌∙◌, ◌⊎◌, refl, ap, sym, inl, inr, true, false, ◌&&◌, [], none, some, String, arith, ◌==◌,
  if◌then◌else◌, Bool-cases, Option-cases, ==→eq, All, All-at,
}
use vyatta_route_broker.Broker.{
  Broker, State, consume, advance, count_consumed, release_consumed, broker_del_obj_now,
  no_clients_need_this, broker_client_get_data, caught_up, broker_get_next_data_obj,
}
use vyatta_route_broker.Broker.Needs.{client_facts}
use vyatta_route_broker.Broker.Consume.{next_data_obj_facts}
use vyatta_route_broker.Zhash.{Zhash}
use vyatta_route_broker.Route.Types.{
  Callbacks, World, RouteBroker, route_broker_ops, rib_route_unlock, at_level, route_priorities,
}
use vyatta_route_broker.Route.Client.{
  take_data, route_broker_client_ops, first_behind, data_available_for_client,
  route_broker_client_get_data,
}
use vyatta_route_broker.Route.Sound.{RouteSound, queues, level_state}
use vyatta_route_broker.Route.Sound.Clients.{At, first_behind_in}
use vyatta_route_broker.Route.View.{Seen, seen, view}
use vyatta_route_broker.Route.View.Steps.{seen-at_level}
use vyatta_route_broker.Route.View.Publish.{same_view, topic_apart}
use vyatta_route_broker.Route.Table.{str_eq→eq}
use vyatta_route_broker.Route.Table.Release.{released, unlock-released}
use vyatta_route_broker.Circleq.Laws.{contains_of-after}

caught_up-mem : (b : Broker) (c r : ℕ) → (c == r) ≡ false → (caught_up b c).mem r ≡ b.mem r
unfolding caught_up
caught_up-mem b c r ne = rw ne refl

module _ {H : Zhash} {D : Type 0} where
  consume-mem :
      (s : State (World H D)) (c o r : ℕ)
      → (c == r) ≡ false
      → (consume route_broker_ops s c o).mem r ≡ s.mem r
  unfolding consume advance count_consumed release_consumed broker_del_obj_now
  consume-mem s c o r ne = ground arith

  -- The routes are as they were, or the object was marked as deleted and its reference is released.
  pub consume-world :
      (s : State (World H D)) (c o : ℕ)
      → (c == o) ≡ false
      → ((consume route_broker_ops s c o).world ≡ s.world)
        ⊎ (((s.mem o).is_delete ≡ true)
            × ((consume route_broker_ops s c o).world ≡ rib_route_unlock s.world o))
  unfolding consume advance count_consumed release_consumed broker_del_obj_now route_broker_ops
  consume-world s c o ne =
      elim (Bool-cases ((s.mem o).is_delete && no_clients_need_this (advance s.broker c o) o)) [
        | inl e ↦ inr (ground arith, rw (ne, e) refl)
        | inr e ↦ inl (rw (ne, e) refl)
      ]

  -- The state in which a call at a priority leaves the broker of it and the routes.
  abbrev pub taken : Callbacks D → RouteBroker H D → ℕ → ℕ → State (World H D)
  taken cb rb c i =
      (broker_client_get_data route_broker_ops (route_broker_client_ops cb) (level_state rb i)
        (some (rb.level_client c i))).1

  pub take-at_level :
      (cb : Callbacks D) (rb : RouteBroker H D) (c i : ℕ)
      → (take_data cb rb c i).1 ≡ at_level rb i (λ s. taken cb rb c i)
  unfolding take_data at_level
  take-at_level cb rb c i = refl

  pub idle-taken :
      (cb : Callbacks D) (rb : RouteBroker H D) (c i : ℕ)
      → broker_get_next_data_obj (rb.route_broker i) (rb.level_client c i) ≡ none
      → taken cb rb c i
        ≡ record (level_state rb i) { broker = caught_up (rb.route_broker i) (rb.level_client c i) }
  unfolding broker_client_get_data
  idle-taken cb rb c i e = rw (e, taken, broker_client_get_data) refl

  pub busy-taken :
      (cb : Callbacks D) (rb : RouteBroker H D) (c i o : ℕ)
      → broker_get_next_data_obj (rb.route_broker i) (rb.level_client c i) ≡ some o
      → taken cb rb c i ≡ consume route_broker_ops (level_state rb i) (rb.level_client c i) o
  unfolding broker_client_get_data
  busy-taken cb rb c i o e = rw (e, taken, broker_client_get_data) refl

  -- The address of a client in a broker is of no queued route of the broker.
  pub client_apart :
      {rb : RouteBroker H D} (c i r : ℕ)
      → RouteSound rb
      → At rb c i
      → queues rb i r ≡ true
      → (rb.level_client c i == r) ≡ false
  client_apart {rb} c i r v m q = elim (Bool-cases (rb.level_client c i == r)) [
    | inl e ↦
        let facts = client_facts (rb.level_client c i) (v.levels i).inv m in
        let same = ==→eq (rb.level_client c i) r e in
        let is : ((rb.route_broker i).mem r).is_obj ≡ true = ground arith in
        absurd (cc (sym facts.1 ∙ ap (λ x. ((rb.route_broker i).mem x).is_obj) same ∙ is))
    | inr e ↦ e
  ]

  -- A route of the table is seen as it was, if the call leaves its element and itself as they were.
  taken_seen :
      (cb : Callbacks D) (rb : RouteBroker H D) (c i r : ℕ)
      → ((taken cb rb c i).mem r ≡ (rb.route_broker i).mem r)
        ⊎ ((i == (rb.rib_route r).pri) ≡ false)
      → (taken cb rb c i).world.rib_route r ≡ rb.rib_route r
      → seen (take_data cb rb c i).1 r ≡ seen rb r
  unfolding at_level
  taken_seen cb rb c i r (inl m) w =
      rw (take-at_level cb rb c i)
        (seen-at_level rb i r (λ s. taken cb rb c i) (record { same_mem = m; same_route = w }))
  taken_seen cb rb c i r (inr off) w = rw (take-at_level cb rb c i) (rw (w, off) refl)

  taken-world :
      (cb : Callbacks D) (rb : RouteBroker H D) (c i : ℕ)
      → (take_data cb rb c i).1.world ≡ (taken cb rb c i).world
  unfolding take_data
  taken-world cb rb c i = refl

  -- The element of a route of the table is left as it was by a call that writes only the client's.
  same_or_off :
      (cb : Callbacks D) {rb : RouteBroker H D} (c i r : ℕ) (topic : String)
      → RouteSound rb
      → At rb c i
      → H.lookup rb.route_hashtbl topic ≡ some r
      → ((x : ℕ)
          → (rb.level_client c i == x) ≡ false
          → (taken cb rb c i).mem x ≡ (rb.route_broker i).mem x)
      → ((taken cb rb c i).mem r ≡ (rb.route_broker i).mem r)
        ⊎ ((i == (rb.rib_route r).pri) ≡ false)
  same_or_off cb {rb} c i r topic v m k f = elim (Bool-cases (i == (rb.rib_route r).pri)) [
    | inl e ↦
        let q = (v.tabled.found topic r k).0 in
        let at : queues rb i r ≡ true = rw (==→eq i (rb.rib_route r).pri e) q in
        inl (f r (client_apart c i r v m at))
    | inr e ↦ inr e
  ]

  -- The route of a topic is as it was, or it was withdrawn and is gone.
  abbrev pub KeptOrGone : RouteBroker H D → RouteBroker H D → String → Type 0
  KeptOrGone rb t topic =
      (view t topic ≡ view rb topic)
      ⊎ ((view t topic ≡ none)
          × ((old : Seen D) × (view rb topic ≡ some old) × (old.deleted ≡ true)))

  -- A call that releases no route.
  kept-view :
      (cb : Callbacks D) {rb : RouteBroker H D} (c i : ℕ) (topic : String)
      → RouteSound rb
      → At rb c i
      → ((x : ℕ)
          → (rb.level_client c i == x) ≡ false
          → (taken cb rb c i).mem x ≡ (rb.route_broker i).mem x)
      → (taken cb rb c i).world ≡ rb.world
      → view (take_data cb rb c i).1 topic ≡ view rb topic
  kept-view cb {rb} c i topic v m f w =
      let all = taken-world cb rb c i ∙ w in
      same_view rb (take_data cb rb c i).1 topic
        (ap (λ (u : World H D). H.lookup u.route_hashtbl topic) all)
        (λ r k.
          taken_seen cb rb c i r (same_or_off cb c i r topic v m k f)
            (ap (λ (u : World H D). u.rib_route r) w))

  -- A call that releases the route `o` of its priority.
  gone-view :
      (cb : Callbacks D) {rb : RouteBroker H D} (c i o : ℕ) (topic : String)
      → RouteSound rb
      → At rb c i
      → ((x : ℕ)
          → (rb.level_client c i == x) ≡ false
          → (taken cb rb c i).mem x ≡ (rb.route_broker i).mem x)
      → queues rb i o ≡ true
      → ((rb.route_broker i).mem o).is_delete ≡ true
      → (taken cb rb c i).world ≡ rib_route_unlock rb.world o
      → KeptOrGone rb (take_data cb rb c i).1 topic
  gone-view cb {rb} c i o topic v m f q d w =
      let rel : (taken cb rb c i).world ≡ released rb.world o =
        w ∙ unlock-released rb.world o (v.tabled.counted i o q) in
      let table : H.lookup (take_data cb rb c i).1.route_hashtbl topic ≡ (
          if str_eq (rb.rib_route o).topic topic then none else H.lookup rb.route_hashtbl topic) =
        ap (λ (u : World H D). H.lookup u.route_hashtbl topic) (taken-world cb rb c i ∙ rel)
        ∙ H.lookup-delete rb.route_hashtbl (rb.rib_route o).topic topic in
      elim (Bool-cases (str_eq (rb.rib_route o).topic topic)) [
        | inl e ↦
            let found : H.lookup rb.route_hashtbl topic ≡ some o =
              rw (sym (str_eq→eq (rb.rib_route o).topic topic e)) (v.tabled.known i o q) in
            inr (rw (table, e) refl, (seen rb o, rw found refl, rw (v.tabled.leveled i o q) d))
        | inr e ↦ inl (
            same_view rb (take_data cb rb c i).1 topic (table ∙ rw e refl) (λ r k.
              let ne = topic_apart o r (rb.rib_route o).topic topic v (v.tabled.known i o q) k e in
              taken_seen cb rb c i r (same_or_off cb c i r topic v m k f)
                (ap (λ (u : World H D). u.rib_route r) rel ∙ rw ne refl)))
      ]

  -- A client that takes data leaves the route of every topic as it was, but that it removes a route
  -- that was withdrawn.
  pub take_data-KeptOrGone :
      (cb : Callbacks D) (rb : RouteBroker H D) (c i : ℕ) (topic : String)
      → RouteSound rb
      → At rb c i
      → KeptOrGone rb (take_data cb rb c i).1 topic
  take_data-KeptOrGone cb rb c i topic v m =
      elim (Option-cases (broker_get_next_data_obj (rb.route_broker i) (rb.level_client c i))) [
        | inl e ↦
            let s = idle-taken cb rb c i e in
            inl (
              kept-view cb c i topic v m
                (λ x ne.
                  ap (λ (u : State (World H D)). u.mem x) s
                  ∙ caught_up-mem (rb.route_broker i) (rb.level_client c i) x ne)
                (ap (λ (u : State (World H D)). u.world) s))
        | inr (o, e) ↦
            let s = busy-taken cb rb c i o e in
            let facts = next_data_obj_facts (rb.route_broker i) (rb.level_client c i) o e in
            let mo =
              contains_of-after o (rb.level_client c i) (rb.route_broker i).b_obj_list facts.0 in
            let held : queues rb i o ≡ true = ground (arith, mo, facts.1) in
            let f = (λ (x : ℕ) (ne : (rb.level_client c i == x) ≡ false).
              ap (λ (u : State (World H D)). u.mem x) s
              ∙ consume-mem (level_state rb i) (rb.level_client c i) o x ne) in
            let w = ap (λ (u : State (World H D)). u.world) s in
            elim (consume-world (level_state rb i) (rb.level_client c i) o
              (client_apart c i o v m held)) [
                | inl same ↦ inl (kept-view cb c i topic v m f (w ∙ same))
                | inr (d, gone) ↦ gone-view cb c i o topic v m f held d (w ∙ gone)
              ]
      ]

  -- In a sound state, a client with a client in each broker that takes data, or finds none, leaves
  -- the route of every topic as it was, but that a route that was withdrawn may be gone.
  pub get_data-KeptOrGone :
      (cb : Callbacks D) (rb : RouteBroker H D) (c : ℕ) (topic : String)
      → RouteSound rb
      → All (At rb c) route_priorities
      → KeptOrGone rb (route_broker_client_get_data cb [] rb c).1 topic
  unfolding route_broker_client_get_data data_available_for_client
  get_data-KeptOrGone cb rb c topic v a = elim (Option-cases (first_behind rb c route_priorities)) [
    | inl e ↦ rw (e, route_broker_client_get_data) (inl refl)
    | inr (i, e) ↦
        rw (e, route_broker_client_get_data)
          (take_data-KeptOrGone cb rb c i topic v
            (All-at (At rb c) route_priorities i (first_behind_in rb c i route_priorities e) a))
  ]
