-- ===== src/Route/Sync/Leave.antt =====
-- `route_broker_client_delete`, for a client that follows: the routes that go were withdrawn.
use vyatta_route_broker.Base.{
  ℕ, ◌+◌, ◌-◌, ◌^◌, ◌≡◌, ◌∙◌, refl, ap, sym, inl, inr, true, false, ◌&&◌, List, [], ◌∷◌, arith,
  ◌==◌, contains, All, Bool-cases, ==→eq, if◌then◌else◌,
}
use vyatta_route_broker.Circleq.{remove}
use vyatta_route_broker.Circleq.Laws.{contains_of-remove, contains-remove_ne}
use vyatta_route_broker.Broker.{
  BrokerObj, State, release_unneeded, release_walk, broker_client_delete, broker_del_obj_now,
  no_clients_need_this,
}
use vyatta_route_broker.Broker.Invariant.{Inv}
use vyatta_route_broker.Broker.Holds.{holds}
use vyatta_route_broker.Broker.Needs.{client_facts}
use vyatta_route_broker.Broker.Removed.{without_client}
use vyatta_route_broker.Broker.Placed.{eq_refl}
use vyatta_route_broker.Zhash.{Zhash}
use vyatta_route_broker.Route.Types.{
  RibRoute, World, RouteBroker, route_broker_ops, at_level, rib_route_unlock, rib_route_delete,
  free_data, free_route, route_priorities, u32,
}
use vyatta_route_broker.Route.Setup.{delete_levels, route_broker_client_delete}
use vyatta_route_broker.Route.Sound.{RouteSound, queues, level_state}
use vyatta_route_broker.Route.Sound.Clients.{At, delete_level-RouteSound}
use vyatta_route_broker.Route.Sync.Steady.{Pruned, Pruned-trans}

-- The same route, but for its references.
pub record Alike {D : Type 0} (o n : RibRoute D) : Type 0 where
  pub same_payload : n.payload ≡ o.payload
  pub same_pri : n.pri ≡ o.pri
  pub same_topic : n.topic ≡ o.topic

module _ {D : Type 0} where
  pub Alike-refl : (o : RibRoute D) → Alike o o
  Alike-refl o = record { same_payload = refl; same_pri = refl; same_topic = refl }

  Alike-trans : {o n m : RibRoute D} → Alike o n → Alike n m → Alike o m
  Alike-trans p q = record {
    same_payload = q.same_payload ∙ p.same_payload;
    same_pri = q.same_pri ∙ p.same_pri;
    same_topic = q.same_topic ∙ p.same_topic;
  }

module _ {H : Zhash} {D : Type 0} where
  unlocked_routes :
      (w : World H D) (x : ℕ)
      → (rib_route_unlock w x).rib_route ≡ (λ r.
          if x == r
          then record (w.rib_route x) { refcount = u32 ((w.rib_route x).refcount + 2 ^ 32 - 1) }
          else w.rib_route r)
  unfolding rib_route_unlock rib_route_delete free_data free_route
  unlocked_routes w x = elim (Bool-cases (u32 ((w.rib_route x).refcount + 2 ^ 32 - 1) == 0)) [
    | inl e ↦ rw e refl
    | inr e ↦ rw e refl
  ]

  pub unlock-Alike :
      (w : World H D) (x r : ℕ) → Alike (w.rib_route r) ((rib_route_unlock w x).rib_route r)
  unlock-Alike w x r = rw (unlocked_routes w x) (elim (Bool-cases (x == r)) [
    | inl e ↦
        rw (e, ==→eq x r e) (record { same_payload = refl; same_pri = refl; same_topic = refl })
    | inr e ↦ rw e (Alike-refl (w.rib_route r))
  ])

  -- What a call of one broker that only lets withdrawn routes go does.
  pub record LetsGo (s t : State (World H D)) : Type 0 where
    pub alike : (r : ℕ) → Alike (s.world.rib_route r) (t.world.rib_route r)
    pub same_mem : t.mem ≡ s.mem
    pub fewer : (r : ℕ) → contains r t.b_obj_list ≡ true → contains r s.b_obj_list ≡ true
    pub remain :
        (r : ℕ)
        → holds s.broker r ≡ true
        → (s.mem r).is_delete ≡ false
        → contains r t.b_obj_list ≡ true

  LetsGo-trans : {s t u : State (World H D)} → LetsGo s t → LetsGo t u → LetsGo s u
  LetsGo-trans {s} {t} {u} p q = record {
    alike = λ r. Alike-trans (p.alike r) (q.alike r);
    same_mem = q.same_mem ∙ p.same_mem;
    fewer = λ r m. p.fewer r (q.fewer r m);
    remain = λ r h d.
        let o = ap (λ (m : ℕ → BrokerObj). m r) p.same_mem in
        let still : (s.mem r).is_obj ≡ true = ground arith in
        q.remain r (rw (p.remain r h d, o) still) (rw o d);
  }

  unneeded-LetsGo :
      (s : State (World H D)) (x : ℕ) → LetsGo s (release_unneeded route_broker_ops s x)
  unfolding release_unneeded broker_del_obj_now route_broker_ops
  unneeded-LetsGo s x =
      elim (Bool-cases
        ((s.mem x).is_obj && (s.mem x).is_delete && no_clients_need_this s.broker x)) [
          | inl e ↦ rw e (record {
            alike = λ r. unlock-Alike s.world x r;
            same_mem = refl;
            fewer = λ r m. contains_of-remove r x s.b_obj_list m;
            remain = λ r h d. elim (Bool-cases (r == x)) [
              | inl q ↦
                  let same = ap (λ y. (s.mem y).is_delete) (==→eq r x q) in absurd (ground arith)
              | inr q ↦ ground (arith, contains-remove_ne r x s.b_obj_list)
            ];
          })
          | inr e ↦ rw e (record {
            alike = λ r. Alike-refl (s.world.rib_route r);
            same_mem = refl;
            fewer = λ r m. m;
            remain = λ r h d. ground arith;
          })
        ]

  walk-LetsGo : (s : State (World H D)) (l : List ℕ) → LetsGo s (release_walk route_broker_ops s l)
  unfolding release_walk
  walk-LetsGo s [] = record {
    alike = λ r. Alike-refl (s.world.rib_route r);
    same_mem = refl;
    fewer = λ r m. m;
    remain = λ r h d. ground arith;
  }
  walk-LetsGo s (x ∷ xs) =
      LetsGo-trans (unneeded-LetsGo s x) (walk-LetsGo (release_unneeded route_broker_ops s x) xs)

  unlinked-LetsGo :
      (s : State (World H D)) (c : ℕ)
      → Inv s.broker
      → contains c s.b_client_list ≡ true
      → LetsGo s (record s { broker = without_client s.broker c })
  unlinked-LetsGo s c v m = record {
    alike = λ r. Alike-refl (s.world.rib_route r);
    same_mem = refl;
    fewer = λ r h. contains_of-remove r c s.b_obj_list h;
    remain = λ r h d. elim (Bool-cases (r == c)) [
      | inl q ↦
          let same = ap (λ y. (s.mem y).is_obj) (==→eq r c q) in
          let client = (client_facts c v m).1 in absurd (ground arith)
      | inr q ↦ ground (arith, contains-remove_ne r c s.b_obj_list)
    ];
  }

  leave-LetsGo :
      (s : State (World H D)) (c : ℕ)
      → Inv s.broker
      → contains c s.b_client_list ≡ true
      → LetsGo s (broker_client_delete route_broker_ops s c)
  unfolding broker_client_delete
  leave-LetsGo s c v m =
      LetsGo-trans (unlinked-LetsGo s c v m)
        (walk-LetsGo (record s { broker = without_client s.broker c }) (remove c s.b_obj_list))

  fewer_held :
      {s t : State (World H D)} (r : ℕ)
      → LetsGo s t
      → holds t.broker r ≡ true
      → holds s.broker r ≡ true
  fewer_held r k h =
      let o = ap (λ (m : ℕ → BrokerObj). (m r).is_obj) k.same_mem in ground (arith, k.fewer r)

  remain_held :
      {s t : State (World H D)} (r : ℕ)
      → LetsGo s t
      → holds s.broker r ≡ true
      → (s.mem r).is_delete ≡ false
      → holds t.broker r ≡ true
  remain_held r k h d =
      let o = ap (λ (m : ℕ → BrokerObj). (m r).is_obj) k.same_mem in ground (arith, k.remain r h d)

  queues_at :
      (rb : RouteBroker H D) (p r : ℕ) (call : State (World H D) → State (World H D))
      → queues (at_level rb p call) p r ≡ holds (call (level_state rb p)).broker r
  unfolding at_level
  queues_at rb p r call = rw (eq_refl p) refl

  at_level-Pruned :
      (rb : RouteBroker H D) (p : ℕ) (call : State (World H D) → State (World H D))
      → LetsGo (level_state rb p) (call (level_state rb p))
      → Pruned rb (at_level rb p call)
  unfolding at_level
  at_level-Pruned rb p call k = record {
    same_payload = λ r. (k.alike r).same_payload;
    same_pri = λ r. (k.alike r).same_pri;
    same_topic = λ r. (k.alike r).same_topic;
    same_mark = λ i r q. elim (Bool-cases (p == i)) [
      | inl e ↦ rw e (
          ap (λ (m : ℕ → BrokerObj). (m r).is_delete) k.same_mem
          ∙ ap (λ j. ((rb.route_broker j).mem r).is_delete) (==→eq p i e))
      | inr e ↦ rw e refl
    ];
    fewer = λ i r q. elim (Bool-cases (p == i)) [
      | inl e ↦
          let same = ==→eq p i e in
          let here =
            sym (queues_at rb p r call) ∙ ap (λ j. queues (at_level rb p call) j r) same ∙ q in
          ap (λ j. queues rb j r) (sym same) ∙ fewer_held r k here
      | inr e ↦ sym (rw e refl) ∙ q
    ];
    remain = λ i r q d. elim (Bool-cases (p == i)) [
      | inl e ↦
          let same = ==→eq p i e in
          ap (λ j. queues (at_level rb p call) j r) (sym same)
          ∙ queues_at rb p r call
          ∙ remain_held r k (ap (λ j. queues rb j r) same ∙ q)
              (ap (λ j. ((rb.route_broker j).mem r).is_delete) same ∙ d)
      | inr e ↦ rw e q
    ];
  }

  left-Pruned :
      {rb : RouteBroker H D} (c i : ℕ)
      → RouteSound rb
      → At rb c i
      → Pruned rb
          (at_level rb i (λ s. broker_client_delete route_broker_ops s (rb.level_client c i)))
  left-Pruned {rb} c i v m =
      at_level-Pruned rb i (λ s. broker_client_delete route_broker_ops s (rb.level_client c i))
        (leave-LetsGo (level_state rb i) (rb.level_client c i) (v.levels i).inv m)

  -- The removal of a client at one priority after the other.
  pub delete-Pruned :
      {rb : RouteBroker H D} (c : ℕ)
      → RouteSound rb
      → All (At rb c) route_priorities
      → Pruned rb (route_broker_client_delete rb c)
  unfolding route_broker_client_delete delete_levels at_level
  delete-Pruned {rb} c v a =
      let leave = (λ (u : RouteBroker H D) (i : ℕ).
        at_level u i (λ s. broker_client_delete route_broker_ops s (u.level_client c i))) in
      let first = delete_level-RouteSound c 0 v a.0 in
      let second = delete_level-RouteSound {rb = leave rb 0} c 1 first a.1.0 in
      let k = Pruned-trans (left-Pruned c 0 v a.0) (
        Pruned-trans (left-Pruned {rb = leave rb 0} c 1 first a.1.0)
          (left-Pruned {rb = leave (leave rb 0) 1} c 2 second a.1.1.0)) in
      record {
        same_payload = k.same_payload;
        same_pri = k.same_pri;
        same_topic = k.same_topic;
        same_mark = k.same_mark;
        fewer = k.fewer;
        remain = k.remain;
      }
