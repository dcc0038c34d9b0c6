-- ===== src/Route/Sound/Served.antt =====
-- The clients on the list of the route broker have a client in each broker, each its own.
use vyatta_route_broker.Base.{
  ℕ, ◌+◌, ◌≡◌, ◌∙◌, refl, ap, inl, inr, Bool, true, false, [], Option, none, some, String, arith,
  ◌==◌, contains, distinct, All, All-at, Bool-cases, Option-cases, ==→eq, ltb,
}
use vyatta_route_broker.Broker.{
  Broker, State, u64, broker_add_obj, broker_del_obj, broker_del_obj_now, broker_upd_obj,
}
use vyatta_route_broker.Broker.Invariant.{Inv}
use vyatta_route_broker.Broker.Calls.Refinement.{get-clients}
use vyatta_route_broker.Zhash.{Zhash}
use vyatta_route_broker.Route.Types.{
  Callbacks, World, RouteBroker, route_broker_ops, at_level, free_route, route_priorities,
}
use vyatta_route_broker.Route.Client.{
  first_behind, data_available_for_client, take_data, route_broker_client_ops,
  route_broker_client_get_data, route_broker_wake_clients,
}
use vyatta_route_broker.Route.Publish.{
  route_type, add_route, del_route, force_out, upd_route, with_world, hash_insert, swap_data,
  new_route, publish_delete, publish_update, publish_route, publish_copy, object_broker_publish,
}
use vyatta_route_broker.Route.Sound.{level_state}
use vyatta_route_broker.Route.Sound.Clients.{At, first_behind_in}

module _ {H : Zhash} {D : Type 0} where
  pub record Served (rb : RouteBroker H D) : Type 0 where
    pub members : All (λ c. All (At rb c) route_priorities) rb.client_list
    pub apart :
        (c d : ℕ)
        → contains c rb.client_list ≡ true
        → contains d rb.client_list ≡ true
        → (c == d) ≡ false
        → All (λ i. (rb.level_client c i == rb.level_client d i) ≡ false) route_priorities
    pub listed_once : distinct rb.client_list ≡ true

  pub Served-At :
      {rb : RouteBroker H D} (d i : ℕ)
      → Served rb
      → contains d rb.client_list ≡ true
      → contains i route_priorities ≡ true
      → At rb d i
  Served-At {rb} d i s m p =
      All-at (At rb d) route_priorities i p
        (All-at (λ e. All (At rb e) route_priorities) rb.client_list d m s.members)

  -- No client comes or goes.
  pub record SameClients (rb t : RouteBroker H D) : Type 0 where
    pub lists : (i : ℕ) → (t.route_broker i).b_client_list ≡ (rb.route_broker i).b_client_list
    pub same_level : t.level_client ≡ rb.level_client
    pub same_list : t.client_list ≡ rb.client_list

  pub SameClients-Served : {rb t : RouteBroker H D} → SameClients rb t → Served rb → Served t
  SameClients-Served {rb} {t} e s = record {
    members = rw (e.same_list, e.same_level, e.lists 0, e.lists 1, e.lists 2) s.members;
    apart = rw (e.same_list, e.same_level) s.apart;
    listed_once = rw (e.same_list) s.listed_once;
  }

  SameClients-trans :
      {rb t u : RouteBroker H D} → SameClients rb t → SameClients t u → SameClients rb u
  SameClients-trans p q = record {
    lists = λ i. q.lists i ∙ p.lists i;
    same_level = q.same_level ∙ p.same_level;
    same_list = q.same_list ∙ p.same_list;
  }

  at_level-SameClients :
      (rb : RouteBroker H D) (p : ℕ) (call : State (World H D) → State (World H D))
      → (call (level_state rb p)).b_client_list ≡ (rb.route_broker p).b_client_list
      → SameClients rb (at_level rb p call)
  unfolding at_level
  at_level-SameClients rb p call e = record {
    lists = λ i. elim (Bool-cases (p == i)) [
      | inl at ↦ rw at (e ∙ ap (λ j. (rb.route_broker j).b_client_list) (==→eq p i at))
      | inr off ↦ rw off refl
    ];
    same_level = refl;
    same_list = refl;
  }

  -- The parts of the state that are written beside the brokers.
  same_brokers :
      {rb t : RouteBroker H D}
      → t.route_broker ≡ rb.route_broker
      → t.level_client ≡ rb.level_client
      → t.client_list ≡ rb.client_list
      → SameClients rb t
  same_brokers e l c = record {
    lists = λ i. ap (λ (f : ℕ → Broker). (f i).b_client_list) e;
    same_level = l;
    same_list = c;
  }

  add-SameClients : (rb : RouteBroker H D) (p r : ℕ) → SameClients rb (add_route rb p r)
  unfolding add_route broker_add_obj
  add-SameClients rb p r =
      at_level-SameClients rb p (λ s. broker_add_obj route_broker_ops s r route_type) refl

  upd-SameClients : (rb : RouteBroker H D) (p r : ℕ) → SameClients rb (upd_route rb p r)
  unfolding upd_route broker_upd_obj
  upd-SameClients rb p r =
      at_level-SameClients rb p (λ s. broker_upd_obj route_broker_ops s r) (ground arith)

  pub out-SameClients : (rb : RouteBroker H D) (p r : ℕ) → SameClients rb (force_out rb p r)
  unfolding force_out broker_del_obj_now
  out-SameClients rb p r =
      at_level-SameClients rb p (λ s. broker_del_obj_now route_broker_ops s r) refl

  del-SameClients : (rb : RouteBroker H D) (p r : ℕ) → SameClients rb (del_route rb p r)
  unfolding del_route broker_del_obj broker_del_obj_now
  del-SameClients rb p r =
      at_level-SameClients rb p (λ s. broker_del_obj route_broker_ops s r) (ground arith)

  update-SameClients :
      (rb : RouteBroker H D) (a p : ℕ) (h : Option ℕ) → SameClients rb (publish_update rb a p h)
  unfolding publish_update hash_insert with_world swap_data
  update-SameClients rb a p none =
      SameClients-trans (add-SameClients rb p a) (same_brokers refl refl refl)
  update-SameClients rb a p (some h) = elim (Bool-cases (ltb p (rb.rib_route h).pri)) [
    | inl e ↦ rw e (
        SameClients-trans (out-SameClients rb (rb.rib_route h).pri h) (
          SameClients-trans (add-SameClients (force_out rb (rb.rib_route h).pri h) p a)
            (same_brokers refl refl refl)))
    | inr e ↦ rw e (
        SameClients-trans (same_brokers refl refl refl) (
          let w = swap_data rb h (rb.rib_route a).payload in
          upd-SameClients (with_world w (free_route w.world a)) (rb.rib_route h).pri h))
  ]

  delete-SameClients :
      (rb : RouteBroker H D) (a p : ℕ) (h : Option ℕ) → SameClients rb (publish_delete rb a p h)
  unfolding publish_delete with_world swap_data
  delete-SameClients rb a p none = same_brokers refl refl refl
  delete-SameClients rb a p (some h) = elim (Bool-cases (ltb p (rb.rib_route h).pri)) [
    | inl e ↦ rw e (
        SameClients-trans (out-SameClients rb (rb.rib_route h).pri h) (
          SameClients-trans (add-SameClients (force_out rb (rb.rib_route h).pri h) p a)
            (del-SameClients (add_route (force_out rb (rb.rib_route h).pri h) p a) p a)))
    | inr e ↦ rw e (
        SameClients-trans (same_brokers refl refl refl) (
          SameClients-trans
            (del-SameClients (swap_data rb h (rb.rib_route a).payload) (rb.rib_route h).pri h)
            (same_brokers refl refl refl)))
  ]

  woken-SameClients :
      {rb t : RouteBroker H D} → SameClients rb t → SameClients rb (route_broker_wake_clients t)
  unfolding route_broker_wake_clients
  woken-SameClients e = SameClients-trans e (same_brokers refl refl refl)

  route-SameClients :
      (rb : RouteBroker H D) (a p : ℕ) (t : String × Bool) (d : D)
      → SameClients rb (publish_route rb a p t d)
  unfolding publish_route new_route
  route-SameClients rb a p (topic, true) d =
      let n = new_route rb a p topic d in
      woken-SameClients (
        SameClients-trans (same_brokers refl refl refl)
          (delete-SameClients n a p (H.lookup n.route_hashtbl topic)))
  route-SameClients rb a p (topic, false) d =
      let n = new_route rb a p topic d in
      woken-SameClients (
        SameClients-trans (same_brokers refl refl refl)
          (update-SameClients n a p (H.lookup n.route_hashtbl topic)))

  copy-SameClients :
      (cb : Callbacks D) (rb : RouteBroker H D) (a p : ℕ) (o : Option D)
      → SameClients rb (publish_copy cb rb a p o)
  unfolding publish_copy
  copy-SameClients cb rb a p none = same_brokers refl refl refl
  copy-SameClients cb rb a p (some d) = elim (Option-cases (cb.topic_gen d)) [
    | inl e ↦ rw (e, publish_copy) (same_brokers refl refl refl)
    | inr (t, e) ↦ rw (e, publish_copy) (route-SameClients rb a p t d)
  ]

  -- No call of object_broker_publish adds or removes a client.
  pub publish-SameClients :
      (cb : Callbacks D) (rb : RouteBroker H D) (obj : D) (p : ℕ) (addr : Option ℕ)
      → SameClients rb (object_broker_publish cb rb obj p addr)
  unfolding object_broker_publish
  publish-SameClients cb rb obj p none = same_brokers refl refl refl
  publish-SameClients cb rb obj p (some a) =
      let t = record rb { processed_msg = u64 (rb.processed_msg + 1) } in
      SameClients-trans (same_brokers refl refl refl) (copy-SameClients cb t a p (cb.copy_obj obj))

  take-SameClients :
      (cb : Callbacks D) (rb : RouteBroker H D) (c i : ℕ)
      → Inv (rb.route_broker i)
      → At rb c i
      → SameClients rb (take_data cb rb c i).1
  unfolding take_data
  take-SameClients cb rb c i v m = record {
    lists = λ j. elim (Bool-cases (i == j)) [
      | inl e ↦ rw e (
          get-clients route_broker_ops (route_broker_client_ops cb) (level_state rb i)
            (rb.level_client c i) v m
          ∙ ap (λ k. (rb.route_broker k).b_client_list) (==→eq i j e))
      | inr e ↦ rw e refl
    ];
    same_level = refl;
    same_list = refl;
  }

  -- A client that takes data neither adds nor removes a client.
  pub get_data-SameClients :
      (cb : Callbacks D) (rb : RouteBroker H D) (c : ℕ)
      → ((i : ℕ) → Inv (rb.route_broker i))
      → All (At rb c) route_priorities
      → SameClients rb (route_broker_client_get_data cb [] rb c).1
  unfolding route_broker_client_get_data data_available_for_client
  get_data-SameClients cb rb c v a = elim (Option-cases (first_behind rb c route_priorities)) [
    | inl e ↦ rw (e, route_broker_client_get_data) (same_brokers refl refl refl)
    | inr (i, e) ↦
        rw (e, route_broker_client_get_data)
          (take-SameClients cb rb c i (v i)
            (All-at (At rb c) route_priorities i (first_behind_in rb c i route_priorities e) a))
  ]
