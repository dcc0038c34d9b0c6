-- ===== src/Route/Sync/Join.antt =====
-- `route_broker_client_create`, for a client that follows and for the one that comes.
use vyatta_route_broker.Base.{
  if◌then◌else◌, filter, All-contains, Option-cases, ℕ, ◌≡◌, ◌∙◌, refl, ap, sym, inl, inr, true,
  false, String, arith, ◌==◌, contains, All, All-at, Bool-cases, ==→eq, some, none,
}
use vyatta_route_broker.Broker.{Broker, broker_client_create}
use vyatta_route_broker.Broker.Invariant.{Inv}
use vyatta_route_broker.Broker.Calls.{step, create}
use vyatta_route_broker.Broker.Calls.Refinement.{pending-step}
use vyatta_route_broker.Broker.Holds.{holds, holds-joined}
use vyatta_route_broker.Broker.Moved.{start_id, broker_client_create-joined}
use vyatta_route_broker.Broker.Placed.{ne_of_contains}
use vyatta_route_broker.Zhash.{Zhash}
use vyatta_route_broker.Route.Types.{Callbacks, RouteBroker, route_broker_ops, route_priorities}
use vyatta_route_broker.Route.Setup.{
  create_level, create_levels, route_broker_client_create, route_broker_client_create-IsClient,
}
use vyatta_route_broker.Route.Sound.{RouteSound, queues, level_state}
use vyatta_route_broker.Route.Sound.Publish.{no_data}
use vyatta_route_broker.Route.Sound.Served.{Served, Served-At}
use vyatta_route_broker.Route.Sound.Members.{NewClient, created, created-level_client}
use vyatta_route_broker.Route.Client.{level_pending}
use vyatta_route_broker.Route.View.{seen, view}
use vyatta_route_broker.Circleq.Laws.{contains-filter}
use vyatta_route_broker.Route.Sync.{Sync, Described, wanted-due}
use vyatta_route_broker.Route.Sync.Steady.{Steady, Pruned, Pruned-trans}

-- The queue of a broker with a client more holds the same objects, with the same marks.
created_holds :
    (b : Broker) (a r : ℕ) (name : String)
    → contains a b.b_obj_list ≡ false
    → holds (broker_client_create b true (some a) (some name)).0 r ≡ holds b r
created_holds b a r name h =
    rw (broker_client_create-joined b a name h) (holds-joined b a name (start_id b) r h)

created_mark :
    (b : Broker) (a r : ℕ) (name : String)
    → contains a b.b_obj_list ≡ false
    → holds b r ≡ true
    → ((broker_client_create b true (some a) (some name)).0.mem r).is_delete ≡ (b.mem r).is_delete
created_mark b a r name h q =
    let ne : (a == r) ≡ false = ne_of_contains a r b.b_obj_list h (ground arith) in
    rw (broker_client_create-joined b a name h, ne) refl

module _ {H : Zhash} {D : Type 0} where
  created_queues :
      (rb : RouteBroker H D) (name : String) (c : ℕ) (addr : ℕ → ℕ) (i j r : ℕ)
      → contains (addr i) (rb.route_broker i).b_obj_list ≡ false
      → queues (create_level rb name c addr i) j r ≡ queues rb j r
  unfolding create_level
  created_queues rb name c addr i j r h = elim (Bool-cases (i == j)) [
    | inl e ↦ rw e (
        created_holds (rb.route_broker i) (addr i) r name h ∙ ap (λ k. queues rb k r) (==→eq i j e))
    | inr e ↦ rw e refl
  ]

  create_level-Pruned :
      (rb : RouteBroker H D) (name : String) (c : ℕ) (addr : ℕ → ℕ) (i : ℕ)
      → contains (addr i) (rb.route_broker i).b_obj_list ≡ false
      → Pruned rb (create_level rb name c addr i)
  unfolding create_level
  create_level-Pruned rb name c addr i h = record {
    same_payload = λ r. refl;
    same_pri = λ r. refl;
    same_topic = λ r. refl;
    same_mark = λ j r q.
        let before = sym (created_queues rb name c addr i j r h) ∙ q in
        elim (Bool-cases (i == j)) [
          | inl e ↦
              let same = ==→eq i j e in
              rw e (
                created_mark (rb.route_broker i) (addr i) r name h
                  (ap (λ k. queues rb k r) same ∙ before)
                ∙ ap (λ k. ((rb.route_broker k).mem r).is_delete) same)
          | inr e ↦ rw e refl
        ];
    fewer = λ j r q. sym (created_queues rb name c addr i j r h) ∙ q;
    remain = λ j r q d. created_queues rb name c addr i j r h ∙ q;
  }

  pub created-Pruned :
      {rb : RouteBroker H D} (name : String) (c : ℕ) (addr : ℕ → ℕ)
      → NewClient rb c addr
      → Pruned rb (created rb name c addr)
  unfolding route_broker_client_create create_levels create_level
  created-Pruned {rb} name c addr n =
      let one = create_level rb name c addr 0 in
      let two = create_level one name c addr 1 in
      let k = Pruned-trans (create_level-Pruned rb name c addr 0 (n.unqueued 0)) (
        Pruned-trans (create_level-Pruned one name c addr 1 (n.unqueued 1))
          (create_level-Pruned two name c addr 2 (n.unqueued 2))) in
      record {
        same_payload = k.same_payload;
        same_pri = k.same_pri;
        same_topic = k.same_topic;
        same_mark = k.same_mark;
        fewer = k.fewer;
        remain = k.remain;
      }

  created-brokers :
      (rb : RouteBroker H D) (name : String) (c : ℕ) (addr : ℕ → ℕ)
      → All
          (λ i.
            (created rb name c addr).route_broker i
            ≡ (broker_client_create (rb.route_broker i) true (some (addr i)) (some name)).0)
          route_priorities
  unfolding route_broker_client_create create_levels create_level
  created-brokers rb name c addr = (refl, (refl, (refl, tt)))

  module _ {rb : RouteBroker H D} (name : String) (d : ℕ) (addr : ℕ → ℕ) (v : RouteSound rb)
      (s : Served rb) (n : NewClient rb d addr) where
    -- What is pending for a client that is there stays as it is.
    created-pending :
        (c i : ℕ)
        → contains c rb.client_list ≡ true
        → contains i route_priorities ≡ true
        → level_pending (created rb name d addr) c i ≡ level_pending rb c i
    unfolding step
    created-pending c i m p =
        let ne : (d == c) ≡ false = ne_of_contains d c rb.client_list n.unlisted m in
        rw
          (
            All-at
                (λ j.
                  (created rb name d addr).route_broker j
                  ≡ (broker_client_create (rb.route_broker j) true (some (addr j)) (some name)).0)
                route_priorities i p (created-brokers rb name d addr),
            All-at
                (λ j.
                  (created rb name d addr).level_client c j
                  ≡ (if d == c then addr j else rb.level_client c j))
                route_priorities i p (created-level_client rb name d addr c),
            ne,
          )
          (pending-step {D = D} route_broker_ops no_data (level_state rb i) (create (addr i) name)
            (rb.level_client c i) (v.levels i).inv (n.unqueued i) (Served-At c i s m p) tt)

    pub created-Steady :
        (c : ℕ) → contains c rb.client_list ≡ true → Steady rb (created rb name d addr) c
    created-Steady c m = record {
      still_wanted = λ i r p w. ap (contains r) (created-pending c i m p) ∙ w;
      same_topics = (created-Pruned name d addr n).same_topic;
    }

    new_pending :
        (i : ℕ)
        → contains i route_priorities ≡ true
        → level_pending (created rb name d addr) d i
          ≡ filter (λ o. ((rb.route_broker i).mem o).is_obj) (rb.route_broker i).b_obj_list
    new_pending i p =
        All-at
          (λ j.
            level_pending (created rb name d addr) d j
            ≡ filter (λ o. ((rb.route_broker j).mem o).is_obj) (rb.route_broker j).b_obj_list)
          route_priorities i p
          (route_broker_client_create-IsClient rb name d addr (
            All-contains
              (λ j.
                Inv (rb.route_broker j)
                × (contains (addr j) (rb.route_broker j).b_obj_list ≡ false))
              route_priorities (λ j q. ((v.levels j).inv, n.unqueued j)))).3

    -- The new client has still to be told of every route.
    pub created-Sync :
        (cb : Callbacks D)
        → RouteSound (created rb name d addr)
        → Described cb (view (created rb name d addr))
        → Sync (created rb name d addr) d (λ t. none)
    created-Sync cb w k t e =
        elim (Option-cases (H.lookup (created rb name d addr).route_hashtbl t)) [
          | inl x ↦ rw x refl
          | inr (r, x) ↦
              let u = created rb name d addr in
              let i = (u.rib_route r).pri in
              let f = w.tabled.found t r x in
              let b = rb.route_broker i in
              let held = (created-Pruned name d addr n).fewer i r f.0 in
              let told =
                ap (contains r) (new_pending i (k t (seen u r) (rw x refl)).1)
                ∙ contains-filter (λ o. (b.mem o).is_obj) r b.b_obj_list
                ∙ held in
              absurd (cc (wanted-due d i r t w f.1 told, e))
        ]
