-- ===== src/Route/Sound/Branches.antt =====
-- The branches of `object_broker_publish` behind the lookup: all but one keep the table and the
-- queues in step.
use text.Mathlib.TextPositions.{eq_refl as text_eq_refl}
use vyatta_route_broker.Base.{
  ℕ, ◌≡◌, ◌∙◌, refl, ap, inl, inr, Bool, true, false, List, Option, none, some, String, arith, ◌==◌,
  contains, Bool-cases, ==→eq, is_empty, ltb,
}
use vyatta_route_broker.Circleq.{remove}
use vyatta_route_broker.Circleq.Laws.{contains_of-remove}
use vyatta_route_broker.Broker.{broker_del_obj, broker_del_obj_now}
use vyatta_route_broker.Broker.Placed.{move_to_top-set_delete, flagged}
use vyatta_route_broker.Broker.Holds.{holds-placed}
use vyatta_route_broker.Zhash.{Zhash}
use vyatta_route_broker.Route.Types.{
  World, RouteBroker, route_broker_ops, at_level, free_data, free_route,
}
use vyatta_route_broker.Route.Publish.{
  del_route, force_out, with_world, swap_data, new_route, publish_delete, publish_update,
}
use vyatta_route_broker.Route.Table.{Tabled, SameKeys, SameKeys-Tabled, Tabled-write, unqueued_ne}
use vyatta_route_broker.Route.Table.Release.{free_route-Tabled, unlock-released}
use vyatta_route_broker.Route.Sound.{RouteSound, queues, Fresh, Fresh-queues, HasIds}
use vyatta_route_broker.Route.Sound.Publish.{
  enter-RouteSound, force_out-RouteSound, upd_route-RouteSound, del_route-RouteSound,
}

contains-remove_absent :
    (a h : ℕ) (l : List ℕ) → contains a l ≡ false → contains a (remove h l) ≡ false
contains-remove_absent a h l n = ground (arith, contains_of-remove a h l)

module _ {H : Zhash} {D : Type 0} where
  -- Another world with the same brokers.
  with_world-RouteSound :
      {rb : RouteBroker H D} (w : World H D)
      → RouteSound rb
      → Tabled (queues rb) w
      → RouteSound (with_world rb w)
  unfolding with_world
  with_world-RouteSound w v k = record { levels = v.levels; tabled = k }

  pub new_route-RouteSound :
      {rb : RouteBroker H D} (a pri : ℕ) (topic : String) (d : D)
      → RouteSound rb
      → Fresh rb a
      → RouteSound (new_route rb a pri topic d)
  unfolding new_route
  new_route-RouteSound a pri topic d v f = record {
    levels = v.levels;
    tabled = Tabled-write a _ v.tabled (λ i. Fresh-queues a i f);
  }

  swap_data-SameKeys :
      (rb : RouteBroker H D) (h : ℕ) (d : D) → SameKeys rb.world (swap_data rb h d).world
  unfolding swap_data with_world free_data
  swap_data-SameKeys rb h d = record {
    refcounts = λ r. ground arith;
    pris = λ r. ground arith;
    topics = λ r. elim (Bool-cases (h == r)) [
      | inl e ↦ rw e (ap (λ y. (rb.rib_route y).topic) (==→eq h r e))
      | inr e ↦ rw e refl
    ];
    table = refl;
    freed = refl;
  }

  swap_data-RouteSound :
      {rb : RouteBroker H D} (h : ℕ) (d : D) → RouteSound rb → RouteSound (swap_data rb h d)
  unfolding swap_data with_world
  swap_data-RouteSound {rb} h d v = record {
    levels = v.levels;
    tabled = SameKeys-Tabled (swap_data-SameKeys rb h d) v.tabled;
  }

  pub free_data-Tabled :
      {q : ℕ → ℕ → Bool} {w : World H D} (d : D) → Tabled q w → Tabled q (free_data w d)
  unfolding free_data
  free_data-Tabled d v =
      SameKeys-Tabled
        (record {
          refcounts = λ r. refl;
          pris = λ r. refl;
          topics = λ r. refl;
          table = refl;
          freed = refl;
        })
        v

  -- What the release of the route of a topic leaves behind, for a new one at `a`.
  pub record Cleared (rb t : RouteBroker H D) (topic : String) (a : ℕ) : Type 0 where
    pub fresh : Fresh t a
    pub ids : HasIds t
    pub gone : H.lookup t.route_hashtbl topic ≡ none
    pub same_new : t.rib_route a ≡ rb.rib_route a

  pub force_out-Cleared :
      {rb : RouteBroker H D} (topic : String) (h a : ℕ)
      → RouteSound rb
      → HasIds rb
      → Fresh rb a
      → H.lookup rb.route_hashtbl topic ≡ some h
      → Cleared rb (force_out rb (rb.rib_route h).pri h) topic a
  unfolding force_out at_level broker_del_obj_now route_broker_ops
  force_out-Cleared {rb} topic h a v ids f e =
      let known = v.tabled.found topic h e in
      let one = v.tabled.counted _ h known.0 in
      let gone = unlock-released rb.world h one in
      let ne = unqueued_ne (queues rb) a (rb.rib_route h).pri h (λ i. Fresh-queues a i f) known.0 in
      let ne' : (h == a) ≡ false = ground arith in
      record {
        fresh = record {
          unqueued = λ i. elim (Bool-cases ((rb.rib_route h).pri == i)) [
            | inl at ↦ rw at (
                contains-remove_absent a h (rb.route_broker (rb.rib_route h).pri).b_obj_list
                  (f.unqueued (rb.rib_route h).pri))
            | inr off ↦ rw off (f.unqueued i)
          ];
          not_freed = rw (gone, ne) f.not_freed;
        };
        ids = λ i. elim (Bool-cases ((rb.rib_route h).pri == i)) [
          | inl at ↦ rw at (ids (rb.rib_route h).pri)
          | inr off ↦ rw off (ids i)
        ];
        gone = rw gone (H.lookup-delete rb.route_hashtbl _ _ ∙ rw (known.1, text_eq_refl) refl);
        same_new = rw gone (rw ne' refl);
      }

  -- An update of a topic, with and without a route of it in the table.
  pub publish_update-RouteSound :
      {rb : RouteBroker H D} (a pri : ℕ) (topic : String) (hashed : Option ℕ)
      → RouteSound rb
      → HasIds rb
      → Fresh rb a
      → (rb.rib_route a).refcount ≡ 0
      → (rb.rib_route a).pri ≡ pri
      → (rb.rib_route a).topic ≡ topic
      → H.lookup rb.route_hashtbl topic ≡ hashed
      → RouteSound (publish_update rb a pri hashed)
  unfolding publish_update
  publish_update-RouteSound {rb} a pri topic none v ids f z p t e =
      rw t (enter-RouteSound pri a topic v f ids z p t e)
  publish_update-RouteSound {rb} a pri topic (some h) v ids f z p t e =
      elim (Bool-cases (ltb pri (rb.rib_route h).pri)) [
        | inl lt ↦
            let c = force_out-Cleared topic h a v ids f e in
            rw (lt, t)
              (enter-RouteSound pri a topic (force_out-RouteSound topic h v e) c.fresh c.ids
                (ap (λ o. o.refcount) c.same_new ∙ z) (ap (λ o. o.pri) c.same_new ∙ p)
                (ap (λ o. o.topic) c.same_new ∙ t) c.gone)
        | inr ge ↦
            let w = swap_data rb h (rb.rib_route a).payload in
            let swapped = swap_data-RouteSound h (rb.rib_route a).payload v in
            rw ge (
              upd_route-RouteSound (rb.rib_route h).pri h
                (with_world-RouteSound (free_route w.world a) swapped
                  (free_route-Tabled a swapped.tabled (λ i. Fresh-queues a i f) f.not_freed))
                ids (v.tabled.found topic h e).0)
      ]

  -- The memory `a` is of no queued and no freed route.
  record Unused (rb : RouteBroker H D) (a : ℕ) : Type 0 where
    unqueued : (i : ℕ) → queues rb i a ≡ false
    not_freed : contains a rb.freed_routes ≡ false

  del_route-Unused :
      {rb : RouteBroker H D} (pri h a : ℕ)
      → RouteSound rb
      → queues rb pri h ≡ true
      → Unused rb a
      → Unused (del_route rb pri h) a
  unfolding del_route at_level broker_del_obj broker_del_obj_now route_broker_ops
  del_route-Unused {rb} pri h a v q u =
      let ne : (h == a) ≡ false = ground (arith, unqueued_ne (queues rb) a pri h u.unqueued q) in
      let ne' : (a == h) ≡ false = ground arith in
      elim (Bool-cases (is_empty (rb.route_broker pri).b_client_list)) [
        | inl e ↦
            rw (e, unlock-released rb.world h (v.tabled.counted pri h q))
              (record {
                unqueued = λ i. elim (Bool-cases (pri == i)) [
                  | inl at ↦
                      let same = ==→eq pri i at in
                      rw at (
                        ground (
                          arith,
                          u.unqueued pri,
                          contains-remove_absent a h (rb.route_broker pri).b_obj_list,
                        ))
                  | inr off ↦ rw off (u.unqueued i)
                ];
                not_freed = rw ne' u.not_freed;
              })
        | inr e ↦
            rw (e, move_to_top-set_delete (rb.route_broker pri) h true)
              (record {
                unqueued = λ i. elim (Bool-cases (pri == i)) [
                  | inl at ↦ rw at (
                      holds-placed (rb.route_broker pri) h
                        (flagged ((rb.route_broker pri).mem h) true) a
                      ∙ rw ne (u.unqueued pri))
                  | inr off ↦ rw off (u.unqueued i)
                ];
                not_freed = u.not_freed;
              })
      ]

  -- No delete comes at a higher priority than that of the route in the table.
  abbrev pub NoOverride : RouteBroker H D → ℕ → Option ℕ → Type 0
  NoOverride rb pri none = Unit {0}
  NoOverride rb pri (some h) = ltb pri (rb.rib_route h).pri ≡ false

  free_new-RouteSound :
      {rb : RouteBroker H D} (a : ℕ)
      → RouteSound rb
      → Unused rb a
      → RouteSound (with_world rb (free_route rb.world a))
  free_new-RouteSound {rb} a v u =
      with_world-RouteSound (free_route rb.world a) v
        (free_route-Tabled a v.tabled u.unqueued u.not_freed)

  pub publish_delete-RouteSound :
      {rb : RouteBroker H D} (a pri : ℕ) (topic : String) (hashed : Option ℕ)
      → RouteSound rb
      → HasIds rb
      → Fresh rb a
      → H.lookup rb.route_hashtbl topic ≡ hashed
      → NoOverride rb pri hashed
      → RouteSound (publish_delete rb a pri hashed)
  unfolding publish_delete
  publish_delete-RouteSound {rb} a pri topic none v ids f e n =
      with_world-RouteSound (free_route (free_data rb.world (rb.rib_route a).payload) a) v (
        free_route-Tabled a (free_data-Tabled (rb.rib_route a).payload v.tabled)
          (λ i. Fresh-queues a i f) f.not_freed)
  publish_delete-RouteSound {rb} a pri topic (some h) v ids f e n =
      let swapped = swap_data-RouteSound h (rb.rib_route a).payload v in
      let q = (v.tabled.found topic h e).0 in
      let u : Unused (swap_data rb h (rb.rib_route a).payload) a = record {
        unqueued = λ i. Fresh-queues a i f;
        not_freed = f.not_freed;
      } in
      rw n (
        free_new-RouteSound a (del_route-RouteSound (rb.rib_route h).pri h swapped ids q)
          (del_route-Unused (rb.rib_route h).pri h a swapped q u))
