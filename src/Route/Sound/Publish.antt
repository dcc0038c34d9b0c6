-- ===== src/Route/Sound/Publish.antt =====
-- `object_broker_publish` keeps the table of topics and the queues in step.
use vyatta_route_broker.Base.{
  ℕ, ◌+◌, ◌≡◌, ◌∙◌, refl, ap, sym, inl, inr, Bool, true, false, ◌||◌, none, some, String, arith,
  ◌==◌, if◌then◌else◌, Bool-cases, ==→eq, is_empty,
}
use vyatta_route_broker.Broker.{
  BrokerObj, BrokerClientOps, obj_flags, broker_add_obj, broker_del_obj, broker_del_obj_now,
  broker_upd_obj, move_to_top, set_delete,
}
use vyatta_route_broker.Broker.Calls.{step, add, upd, del, del_now, Queued}
use vyatta_route_broker.Broker.Calls.Safety.{step-Sound}
use vyatta_route_broker.Broker.Placed.{
  placed, move_to_top-set_delete, flagged, broker_add_obj-placed, broker_upd_obj-placed, eq_refl,
}
use vyatta_route_broker.Broker.Holds.{holds, holds-placed}
use vyatta_route_broker.Zhash.{Zhash}
use vyatta_route_broker.Route.Types.{
  RibRoute, World, RouteBroker, route_broker_ops, at_level, rib_route_lock, u32,
}
use vyatta_route_broker.Route.Publish.{
  add_route, del_route, force_out, upd_route, hash_insert, route_type,
}
use vyatta_route_broker.Route.Table.{Tabled-ext, Tabled-write, with_route}
use vyatta_route_broker.Route.Table.Insert.{insert_as-Tabled}
use vyatta_route_broker.Route.Table.Levels.{with_level, same-InStep, del_obj_now-InStep}
use vyatta_route_broker.Route.Sound.{
  RouteSound, queues, level_state, level_state-InStep, with_state-RouteSound, at_level-RouteSound,
  Fresh, Fresh-queues, HasIds,
}

if_or : (b c : Bool) → (if b then true else c) ≡ (b || c)
if_or b c = ground arith

module _ {H : Zhash} {D : Type 0} where
  -- No call of a broker that is made here asks a client for data.
  abbrev pub no_data : BrokerClientOps (World H D) D
  no_data = record { add_obj = λ r w. none; del_obj = λ r w. none }

  -- The queues with a route more, as an object that goes to the tail.
  placed_route :
      (rb : RouteBroker H D) (pri a : ℕ) (o : BrokerObj) (j x : ℕ)
      → o.is_obj ≡ true
      → with_level (queues rb) pri (placed (rb.route_broker pri) a o) j x
        ≡ with_route (queues rb) pri a j x
  placed_route rb pri a o j x i = elim (Bool-cases (pri == j)) [
    | inl e ↦
        let same = ==→eq pri j e in
        rw (e, holds-placed (rb.route_broker pri) a o x, i, same) (if_or (a == x) _)
    | inr e ↦ rw e refl
  ]

  -- A new route of a topic that the table does not know is queued and entered.
  pub enter-RouteSound :
      {rb : RouteBroker H D} (pri a : ℕ) (topic : String)
      → RouteSound rb
      → Fresh rb a
      → HasIds rb
      → (rb.rib_route a).refcount ≡ 0
      → (rb.rib_route a).pri ≡ pri
      → (rb.rib_route a).topic ≡ topic
      → H.lookup rb.route_hashtbl topic ≡ none
      → RouteSound (hash_insert (add_route rb pri a) topic a)
  unfolding hash_insert add_route at_level route_broker_ops step rib_route_lock broker_add_obj
  enter-RouteSound {rb} pri a topic v f ids zero_refs p e new =
      let s = broker_add_obj route_broker_ops (level_state rb pri) a route_type in
      let w = s.world in
      let unq = λ (i : ℕ). Fresh-queues a i f in
      let o : RibRoute D = record (rb.rib_route a) {
        refcount = u32 ((rb.rib_route a).refcount + 1);
      } in
      let entered =
        insert_as-Tabled pri a topic (Tabled-write a o v.tabled unq) unq f.not_freed
          (rw (eq_refl a, zero_refs) refl) (rw (eq_refl a) p) (rw (eq_refl a) e) new in
      let at_tail =
        broker_add_obj-placed route_broker_ops (level_state rb pri) a route_type (f.unqueued pri) in
      with_state-RouteSound pri
        (record {
          broker = s.broker;
          world = record w { route_hashtbl = H.insert w.route_hashtbl topic a };
        })
        v
        (step-Sound route_broker_ops no_data (level_state rb pri) (add a route_type)
          (f.unqueued pri, ids pri) (v.levels pri))
        (Tabled-ext
          (λ j x.
            ap (λ b. with_level (queues rb) pri b j x) at_tail
            ∙ placed_route rb pri a (record { obj_type = route_type; flags = obj_flags; id = 0 }) j
                x refl)
          entered)

  -- What the table finds is an object of the queue of its priority.
  pub found-Queued :
      {rb : RouteBroker H D} (topic : String) (h : ℕ)
      → RouteSound rb
      → H.lookup rb.route_hashtbl topic ≡ some h
      → Queued (rb.route_broker (rb.rib_route h).pri) h
  found-Queued topic h v e = let q = (v.tabled.found topic h e).0 in (ground arith, ground arith)

  pub force_out-RouteSound :
      {rb : RouteBroker H D} (topic : String) (h : ℕ)
      → RouteSound rb
      → H.lookup rb.route_hashtbl topic ≡ some h
      → RouteSound (force_out rb (rb.rib_route h).pri h)
  unfolding force_out step
  force_out-RouteSound {rb} topic h v e =
      let p = (rb.rib_route h).pri in
      let q = found-Queued topic h v e in
      at_level-RouteSound p (λ s. broker_del_obj_now route_broker_ops s h) v
        (step-Sound route_broker_ops no_data (level_state rb p) (del_now h) q (v.levels p))
        (del_obj_now-InStep (queues rb) p (level_state rb p) h (v.levels p).inv
          (v.tabled.found topic h e).0 (level_state-InStep p v))

  -- An object that is in a queue goes to its tail.
  moved_route :
      (rb : RouteBroker H D) (pri h : ℕ) (o : BrokerObj) (x : ℕ)
      → queues rb pri h ≡ true
      → o.is_obj ≡ true
      → holds (placed (rb.route_broker pri) h o) x ≡ holds (rb.route_broker pri) x
  moved_route rb pri h o x q i =
      holds-placed (rb.route_broker pri) h o x ∙ elim (Bool-cases (h == x)) [
        | inl e ↦ rw (e, i) (sym q ∙ ap (queues rb pri) (==→eq h x e))
        | inr e ↦ rw e refl
      ]

  pub upd_route-RouteSound :
      {rb : RouteBroker H D} (pri h : ℕ)
      → RouteSound rb
      → HasIds rb
      → queues rb pri h ≡ true
      → RouteSound (upd_route rb pri h)
  unfolding upd_route step broker_upd_obj
  upd_route-RouteSound {rb} pri h v ids q =
      at_level-RouteSound pri (λ s. broker_upd_obj route_broker_ops s h) v
        (step-Sound route_broker_ops no_data (level_state rb pri) (upd h)
          ((ground arith, ground arith), ids pri) (v.levels pri))
        (same-InStep (queues rb) pri (level_state rb pri)
          (broker_upd_obj route_broker_ops (level_state rb pri) h).broker
          (λ x.
            ap (λ b. holds b x) (broker_upd_obj-placed route_broker_ops (level_state rb pri) h)
            ∙ moved_route rb pri h (flagged ((rb.route_broker pri).mem h) false) x q (ground arith))
          (level_state-InStep pri v))

  pub del_route-RouteSound :
      {rb : RouteBroker H D} (pri h : ℕ)
      → RouteSound rb
      → HasIds rb
      → queues rb pri h ≡ true
      → RouteSound (del_route rb pri h)
  unfolding del_route step broker_del_obj
  del_route-RouteSound {rb} pri h v ids q =
      at_level-RouteSound pri (λ s. broker_del_obj route_broker_ops s h) v
        (step-Sound route_broker_ops no_data (level_state rb pri) (del h)
          ((ground arith, ground arith), ids pri) (v.levels pri))
        (elim (Bool-cases (is_empty (rb.route_broker pri).b_client_list)) [
          | inl e ↦ rw e (
              del_obj_now-InStep (queues rb) pri (level_state rb pri) h (v.levels pri).inv q
                (level_state-InStep pri v))
          | inr e ↦ rw e (
              same-InStep (queues rb) pri (level_state rb pri)
                (move_to_top (set_delete (rb.route_broker pri) h true) h)
                (λ x.
                  ap (λ b. holds b x) (move_to_top-set_delete (rb.route_broker pri) h true)
                  ∙ moved_route rb pri h (flagged ((rb.route_broker pri).mem h) true) x q
                      (ground arith))
                (level_state-InStep pri v))
        ])
