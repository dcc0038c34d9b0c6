-- ===== src/Route/Sound/Members.antt =====
-- `route_broker_client_create`: a client comes.
use vyatta_route_broker.Base.{
  ℕ, ◌≡◌, ◌∙◌, refl, ap, inl, inr, true, false, List, ◌∷◌, some, String, arith, ◌==◌, if◌then◌else◌,
  contains, All, All-at, All-contains, Bool-cases,
}
use vyatta_route_broker.Broker.{Broker, broker_client_create}
use vyatta_route_broker.Broker.Placed.{eq_refl, ne_of_contains}
use vyatta_route_broker.Broker.Moved.{broker_client_create-joined}
use vyatta_route_broker.Zhash.{Zhash}
use vyatta_route_broker.Route.Types.{RouteBroker, route_priorities}
use vyatta_route_broker.Route.Setup.{create_level, create_levels, route_broker_client_create}
use vyatta_route_broker.Route.Sound.{RouteSound}
use vyatta_route_broker.Route.Sound.Clients.{At, create_level-RouteSound}
use vyatta_route_broker.Route.Sound.Served.{Served, Served-At}

created_list :
    (b : Broker) (a : ℕ) (name : String)
    → contains a b.b_obj_list ≡ false
    → (broker_client_create b true (some a) (some name)).0.b_client_list ≡ a ∷ b.b_client_list
created_list b a name h = rw (broker_client_create-joined b a name h) refl

contains_behind : (x y : ℕ) (l : List ℕ) → contains x l ≡ true → contains x (y ∷ l) ≡ true
contains_behind x y l h = ground arith

module _ {H : Zhash} {D : Type 0} where
  -- The memory of a new client and of its client in each broker is not in use.
  pub record NewClient (rb : RouteBroker H D) (c : ℕ) (addr : ℕ → ℕ) : Type 0 where
    pub unlisted : contains c rb.client_list ≡ false
    pub unqueued : (i : ℕ) → contains (addr i) (rb.route_broker i).b_obj_list ≡ false

  abbrev pub created : RouteBroker H D → String → ℕ → (ℕ → ℕ) → RouteBroker H D
  created rb name c addr = (route_broker_client_create rb (some name) (some c) addr true).0

  pub created-RouteSound :
      {rb : RouteBroker H D} (name : String) (c : ℕ) (addr : ℕ → ℕ)
      → RouteSound rb
      → NewClient rb c addr
      → RouteSound (created rb name c addr)
  unfolding route_broker_client_create create_levels create_level
  created-RouteSound {rb} name c addr v n =
      let t = create_level rb name c addr 0 in
      let u = create_level t name c addr 1 in
      let k =
        create_level-RouteSound name c addr 2
          (create_level-RouteSound {rb = t} name c addr 1
            (create_level-RouteSound name c addr 0 v (n.unqueued 0)) (n.unqueued 1))
          (n.unqueued 2) in
      record { levels = k.levels; tabled = k.tabled }

  -- The clients of the brokers behind the calls.
  created-lists :
      (rb : RouteBroker H D) (name : String) (c : ℕ) (addr : ℕ → ℕ)
      → NewClient rb c addr
      → All
          (λ i.
            ((created rb name c addr).route_broker i).b_client_list
            ≡ addr i ∷ (rb.route_broker i).b_client_list)
          route_priorities
  unfolding route_broker_client_create create_levels create_level
  created-lists rb name c addr n = (
    created_list (rb.route_broker 0) (addr 0) name (n.unqueued 0),
    (
      created_list (rb.route_broker 1) (addr 1) name (n.unqueued 1),
      (created_list (rb.route_broker 2) (addr 2) name (n.unqueued 2), tt),
    ),
  )

  pub created-level_client :
      (rb : RouteBroker H D) (name : String) (c : ℕ) (addr : ℕ → ℕ) (d : ℕ)
      → All
          (λ i.
            (created rb name c addr).level_client d i
            ≡ (if c == d then addr i else rb.level_client d i))
          route_priorities
  unfolding route_broker_client_create create_levels create_level
  created-level_client rb name c addr d = elim (Bool-cases (c == d)) [
    | inl e ↦ rw e (refl, (refl, (refl, tt)))
    | inr e ↦ rw e (refl, (refl, (refl, tt)))
  ]

  pub created-client_list :
      (rb : RouteBroker H D) (name : String) (c : ℕ) (addr : ℕ → ℕ)
      → (created rb name c addr).client_list ≡ c ∷ rb.client_list
  unfolding route_broker_client_create create_levels create_level
  created-client_list rb name c addr = refl

  -- The memory of a new client is not that of a client in a broker.
  addr_apart :
      {rb : RouteBroker H D} {c : ℕ} (addr : ℕ → ℕ) (i x : ℕ)
      → RouteSound rb
      → NewClient rb c addr
      → contains x (rb.route_broker i).b_client_list ≡ true
      → (addr i == x) ≡ false
  addr_apart {rb} addr i x v n m =
      ne_of_contains (addr i) x (rb.route_broker i).b_obj_list (n.unqueued i) (
        All-at (λ y. contains y (rb.route_broker i).b_obj_list ≡ true)
          (rb.route_broker i).b_client_list x m (v.levels i).inv.clients_queued)

  module _ {rb : RouteBroker H D} (name : String) (c : ℕ) (addr : ℕ → ℕ) (v : RouteSound rb)
      (n : NewClient rb c addr) (s : Served rb) where
    abbrev behind : RouteBroker H D
    behind = created rb name c addr

    level_new :
        (d i : ℕ)
        → contains i route_priorities ≡ true
        → (c == d) ≡ true
        → behind.level_client d i ≡ addr i
    level_new d i p e =
        All-at (λ j. behind.level_client d j ≡ (if c == d then addr j else rb.level_client d j))
          route_priorities i p (created-level_client rb name c addr d)
        ∙ rw e refl

    level_old :
        (d i : ℕ)
        → contains i route_priorities ≡ true
        → (c == d) ≡ false
        → behind.level_client d i ≡ rb.level_client d i
    level_old d i p e =
        All-at (λ j. behind.level_client d j ≡ (if c == d then addr j else rb.level_client d j))
          route_priorities i p (created-level_client rb name c addr d)
        ∙ rw e refl

    listed :
        (d : ℕ)
        → contains d behind.client_list ≡ true
        → (c == d) ≡ false
        → contains d rb.client_list ≡ true
    listed d m e = let k = ap (contains d) (created-client_list rb name c addr) in ground arith

    created-At :
        (d i : ℕ)
        → contains d behind.client_list ≡ true
        → contains i route_priorities ≡ true
        → At behind d i
    created-At d i m p =
        rw
          (All-at
            (λ j.
              (behind.route_broker j).b_client_list ≡ addr j ∷ (rb.route_broker j).b_client_list)
            route_priorities i p (created-lists rb name c addr n))
          (elim (Bool-cases (c == d)) [
            | inl e ↦ rw (level_new d i p e, eq_refl (addr i)) refl
            | inr e ↦
                contains_behind (behind.level_client d i) (addr i) (rb.route_broker i).b_client_list
                  (rw (level_old d i p e) (Served-At d i s (listed d m e) p))
          ])

    created_apart :
        (d e i : ℕ)
        → contains d behind.client_list ≡ true
        → contains e behind.client_list ≡ true
        → (d == e) ≡ false
        → contains i route_priorities ≡ true
        → (behind.level_client d i == behind.level_client e i) ≡ false
    created_apart d e i m k ne p = elim (Bool-cases (c == d)) [
      | inl x ↦
          let y : (c == e) ≡ false = ground arith in
          rw (level_new d i p x, level_old e i p y)
            (addr_apart addr i (rb.level_client e i) v n (Served-At e i s (listed e k y) p))
      | inr x ↦ elim (Bool-cases (c == e)) [
        | inl y ↦
            let z =
              addr_apart addr i (rb.level_client d i) v n (Served-At d i s (listed d m x) p) in
            rw (level_old d i p x, level_new e i p y) (ground arith)
        | inr y ↦
            rw (level_old d i p x, level_old e i p y)
              (All-at (λ j. (rb.level_client d j == rb.level_client e j) ≡ false) route_priorities i
                p (s.apart d e (listed d m x) (listed e k y) ne))
      ]
    ]

    pub created-Served : Served behind
    created-Served = record {
      members =
          All-contains (λ d. All (At behind d) route_priorities) behind.client_list
            (λ d m. All-contains (At behind d) route_priorities (λ i p. created-At d i m p));
      apart = λ d e m k ne.
          All-contains (λ i. (behind.level_client d i == behind.level_client e i) ≡ false)
            route_priorities (λ i p. created_apart d e i m k ne p);
      listed_once =
          rw (created-client_list rb name c addr) (ground (arith, n.unlisted, s.listed_once));
    }
