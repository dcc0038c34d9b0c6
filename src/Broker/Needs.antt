-- ===== src/Broker/Needs.antt =====
-- `no_clients_need_this` compares ids; it finds out whether a client has the object before it.
use vyatta_route_broker.Base.{
  ℕ, ◌≤◌, ◌≡◌, refl, ap, inl, inr, true, false, ◌&&◌, not, List, [], ◌∷◌, arith, ◌==◌, ltb, leb,
  Bool-cases, ==→eq, contains, distinct, all, All-at, Pairwise,
}
use vyatta_route_broker.Circleq.{after}
use vyatta_route_broker.Circleq.Laws.{contains_of-after, contains-filter}
use vyatta_route_broker.Broker.{Broker, BrokerObj, min_client_id, no_clients_need_this, u64_max}
use vyatta_route_broker.Broker.Invariant.{InOrder, Known, Inv, wanted_by, is_wanted}

pub leb-min_client_id :
    (b : Broker) (e : ℕ) (cs : List ℕ) (id : ℕ)
    → leb e (min_client_id b cs id) ≡ (leb e id && all (λ c. leb e (b.mem c).id) cs)
unfolding min_client_id
leb-min_client_id b e [] id = ground arith
leb-min_client_id b e (c ∷ cs) id = elim (Bool-cases (ltb (b.mem c).id id)) [
  | inl t ↦ rw t (ground (arith, leb-min_client_id b e cs (b.mem c).id))
  | inr t ↦ rw t (ground (arith, leb-min_client_id b e cs id))
]

-- A client has passed an object of the queue exactly when its id is not below the object's.
pub leb_id-after :
    (m : ℕ → BrokerObj) (c o : ℕ) (l : List ℕ)
    → Pairwise (InOrder m) l
    → distinct l ≡ true
    → contains c l ≡ true
    → contains o l ≡ true
    → (m o).is_obj ≡ true
    → (m c).is_obj ≡ false
    → leb (m o).id (m c).id ≡ not (contains o (after c l))
leb_id-after m c o [] w d hc ho io ic = cc
leb_id-after m c o (x ∷ xs) w d hc ho io ic = elim (Bool-cases (c == x)) [
  | inl e ↦ let p : c ≡ x = ==→eq c x e in ground (arith, All-at (InOrder m x) xs o, ap m p)
  | inr e ↦ ground (
    arith,
    All-at (InOrder m x) xs c,
    leb_id-after m c o xs w.1,
    contains_of-after o c xs,
    (λ (p : o ≡ x). ap m p),
  )
]

-- A client of the broker stands in the queue, is no object, and has an id that was given out.
pub client_facts :
    {b : Broker} (c : ℕ)
    → Inv b
    → contains c b.b_client_list ≡ true
    → (contains c b.b_obj_list ≡ true) × ((b.mem c).is_obj ≡ false) × ((b.mem c).id ≤ b.id)
client_facts {b} c v m =
    let queued =
      All-at (λ x. contains x b.b_obj_list ≡ true) b.b_client_list c m v.clients_queued in
    let known = All-at (Known b.mem b.b_client_list b.id) b.b_obj_list c queued v.known in
    (queued, ground arith, known.1)

wanted_by_lem :
    (b : Broker) (o : ℕ) (cs : List ℕ)
    → Inv b
    → contains o b.b_obj_list ≡ true
    → (b.mem o).is_obj ≡ true
    → ((c : ℕ) → contains c cs ≡ true → contains c b.b_client_list ≡ true)
    → all (λ c. leb (b.mem o).id (b.mem c).id) cs ≡ not (wanted_by b o cs)
wanted_by_lem b o [] v m i sub = refl
wanted_by_lem b o (c ∷ cs) v m i sub =
    let facts = client_facts c v (sub c (ground arith)) in
    ground (
      arith,
      leb_id-after b.mem c o b.b_obj_list v.ordered v.queue_distinct facts.0 m i facts.1,
      contains-filter (λ x. (b.mem x).is_obj) o (after c b.b_obj_list),
      wanted_by_lem b o cs v m i (λ d n. sub d (ground arith)),
    )

-- In a well-formed broker the comparison of ids says that an object of the queue is not needed
-- exactly when no client of the broker has still to be told of it.
pub no_clients_need_this-is_wanted :
    {b : Broker} (o : ℕ)
    → Inv b
    → contains o b.b_obj_list ≡ true
    → (b.mem o).is_obj ≡ true
    → no_clients_need_this b o ≡ not (is_wanted b o)
unfolding no_clients_need_this
no_clients_need_this-is_wanted {b} o v m i =
    let known = All-at (Known b.mem b.b_client_list b.id) b.b_obj_list o m v.known in
    ground (
      arith,
      v.top_fits,
      known.1,
      leb-min_client_id b (b.mem o).id b.b_client_list u64_max,
      wanted_by_lem b o b.b_client_list v m i (λ c n. n),
    )
