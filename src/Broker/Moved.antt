-- ===== src/Broker/Moved.antt =====
-- Clients enter the queue and move along it: `broker_client_create` and `broker_client_get_data`.
use mathlib.Core.Path.{fun_ext}
use vyatta_route_broker.Base.{
  ℕ, ◌≤◌, ◌≡◌, refl, ap, inl, inr, true, false, ◌||◌, not, List, [], ◌∷◌, none, some, String, arith,
  ◌==◌, ltb, Bool-cases, ==→eq, contains, distinct, filter, All, All-mono, Pairwise, Option-cases,
  is_some,
}
use vyatta_route_broker.Circleq.{after, first}
use vyatta_route_broker.Circleq.Order.{Pairwise-mono}
use vyatta_route_broker.Broker.{
  Broker, update, client_flags, first_obj, broker_get_next_data_obj, broker_has_more_data,
  broker_client_create, caught_up,
}
use vyatta_route_broker.Broker.Invariant.{InOrder, Known, Inv}
use vyatta_route_broker.Broker.Needs.{client_facts}
use vyatta_route_broker.Broker.Placed.{eq_refl, ne_of_contains, not_client}

pub first_obj-first :
    (b : Broker) (l : List ℕ) → first_obj b l ≡ first (filter (λ o. (b.mem o).is_obj) l)
unfolding first_obj
first_obj-first b [] = refl
first_obj-first b (x ∷ xs) = ground (arith, first_obj-first b xs)

first_obj-All :
    (b : Broker) (l : List ℕ) → first_obj b l ≡ none → All (λ y. (b.mem y).is_obj ≡ false) l
unfolding first_obj
first_obj-All b [] e = tt
first_obj-All b (x ∷ xs) e = ground (arith, first_obj-All b xs)

pub first_obj-some :
    (b : Broker) (l : List ℕ) (o : ℕ)
    → first_obj b l ≡ some o
    → (contains o l ≡ true) × ((b.mem o).is_obj ≡ true)
unfolding first_obj
first_obj-some b [] o e = cc
first_obj-some b (x ∷ xs) o e = ground (arith, first_obj-some b xs o)

first_obj_ext :
    (b d : Broker) (l : List ℕ)
    → ((x : ℕ) → contains x l ≡ true → (b.mem x).is_obj ≡ (d.mem x).is_obj)
    → first_obj b l ≡ first_obj d l
unfolding first_obj
first_obj_ext b d [] h = refl
first_obj_ext b d (x ∷ xs) h = ground (arith, h x, first_obj_ext b d xs (λ y m. h y (ground arith)))

-- A new client at the head, with id `i`.
abbrev pub joined : Broker → ℕ → String → ℕ → Broker
joined b c n i = record b {
  b_client_list = c ∷ b.b_client_list;
  b_obj_list = c ∷ b.b_obj_list;
  mem = update b.mem c (record { obj_type = 0; flags = client_flags; id = i });
  clients = update b.clients c (record { name = n; consumed = 0 });
}

-- The client starts at 0 if there is an object, and at the broker's id if there is none.
abbrev pub start_id : Broker → ℕ
start_id b = elim (first_obj b b.b_obj_list) [ none ↦ b.id | some o ↦ 0 ]

-- What `broker_has_more_data` tells of the client that stands at the head.
has_more_data-joined :
    (b : Broker) (c : ℕ) (n : String)
    → contains c b.b_obj_list ≡ false
    → broker_has_more_data (joined b c n 0) c ≡ is_some (first_obj b b.b_obj_list)
unfolding broker_has_more_data broker_get_next_data_obj
has_more_data-joined b c n h = ground (arith, eq_refl c, same)
  where
    same : first_obj (joined b c n 0) b.b_obj_list ≡ first_obj b b.b_obj_list
    same =
        first_obj_ext (joined b c n 0) b b.b_obj_list
          (λ x m. rw (ne_of_contains c x b.b_obj_list h m) refl)

pub broker_client_create-joined :
    (b : Broker) (c : ℕ) (n : String)
    → contains c b.b_obj_list ≡ false
    → broker_client_create b true (some c) (some n) ≡ (joined b c n (start_id b), some c)
unfolding broker_client_create
broker_client_create-joined b c n h = elim (Option-cases (first_obj b b.b_obj_list)) [
  | inl e ↦
      rw (has_more_data-joined b c n h, e, start_id)
        (ap (λ m. (record (joined b c n 0) { mem = m }, some c)) (fun_ext λ x. ground arith))
  | inr (o, e) ↦ rw (has_more_data-joined b c n h, e, start_id) refl
]

pub joined-Inv :
    {b : Broker} (c : ℕ) (n : String) (i : ℕ)
    → Inv b
    → contains c b.b_obj_list ≡ false
    → All (λ y. (not (b.mem y).is_obj || ltb i (b.mem y).id) ≡ true) b.b_obj_list
    → i ≤ b.id
    → Inv (joined b c n i)
joined-Inv {b} c n i v h starts le = record {
  queue_distinct = ground arith;
  clients_distinct = ground (arith, not_client v c h);
  clients_queued = (
    rw (eq_refl c),
    All-mono (λ d. contains d b.b_obj_list ≡ true) _ b.b_client_list (λ d _ q. ground arith)
        v.clients_queued,
  );
  known = (
    (rw (eq_refl c), rw (eq_refl c) le, rw (eq_refl c)),
    All-mono (Known b.mem b.b_client_list b.id) _ b.b_obj_list
        (λ x m k. rw (other x m) (ground arith, k.1, k.2)) v.known,
  );
  ordered = (
    All-mono (λ y. (not (b.mem y).is_obj || ltb i (b.mem y).id) ≡ true) _ b.b_obj_list
        (λ x m k. rw (other x m, eq_refl c) (ground arith)) starts,
    Pairwise-mono (InOrder b.mem) _ b.b_obj_list (λ x y m n k. rw (other x m, other y n) k)
        v.ordered,
  );
  top_fits = v.top_fits;
}
  where
    other : (x : ℕ) → contains x b.b_obj_list ≡ true → (c == x) ≡ false
    other x m = ne_of_contains c x b.b_obj_list h m

pub start_id-starts :
    {b : Broker}
    → Inv b
    → All (λ y. (not (b.mem y).is_obj || ltb (start_id b) (b.mem y).id) ≡ true) b.b_obj_list
      × (start_id b ≤ b.id)
start_id-starts {b} v = elim (Option-cases (first_obj b b.b_obj_list)) [
  | inl e ↦
      rw (e, start_id)
        (
          All-mono (λ y. (b.mem y).is_obj ≡ false) _ b.b_obj_list (λ x m k. ground arith)
              (first_obj-All b b.b_obj_list e),
          omega arith,
        )
  | inr (o, e) ↦
      rw (e, start_id)
        (
          All-mono (Known b.mem b.b_client_list b.id) _ b.b_obj_list (λ x m k. k.2) v.known,
          omega arith,
        )
]

caught_up-ordered :
    (b : Broker) (c : ℕ) (l : List ℕ)
    → (b.mem c).is_obj ≡ false
    → distinct l ≡ true
    → first_obj b (after c l) ≡ none
    → All (Known b.mem b.b_client_list b.id) l
    → Pairwise (InOrder b.mem) l
    → Pairwise (InOrder (caught_up b c).mem) l
unfolding caught_up
caught_up-ordered b c [] i d e k w = tt
caught_up-ordered b c (x ∷ xs) i d e k w = elim (Bool-cases (c == x)) [
  | inl q ↦
      let p : c ≡ x = ==→eq c x q in
      let e' : first_obj b xs ≡ none = ground arith in
      let miss : contains c xs ≡ false = ground (arith, ap (λ y. contains y xs) p) in
      (
        All-mono (λ y. (b.mem y).is_obj ≡ false) _ xs (λ y m r. ground arith)
            (first_obj-All b xs e'),
        Pairwise-mono (InOrder b.mem) _ xs
            (λ y z m n r. rw (ne_of_contains c y xs miss m, ne_of_contains c z xs miss n) r) w.1,
      )
  | inr q ↦ (
    All-mono (InOrder b.mem x) _ xs (λ y m r. ground (arith, k.0.1)) w.0,
    caught_up-ordered b c xs i (ground arith) (ground arith) k.1 w.1,
  )
]

pub caught_up-Inv :
    {b : Broker} (c : ℕ)
    → Inv b
    → contains c b.b_client_list ≡ true
    → broker_get_next_data_obj b c ≡ none
    → Inv (caught_up b c)
unfolding caught_up broker_get_next_data_obj
caught_up-Inv {b} c v m e =
    let facts = client_facts c v m in
    record {
      queue_distinct = v.queue_distinct;
      clients_distinct = v.clients_distinct;
      clients_queued = v.clients_queued;
      known =
          All-mono (Known b.mem b.b_client_list b.id) _ b.b_obj_list
            (λ x m k. elim (Bool-cases (c == x)) [
              | inl q ↦
                  let p = ap b.mem (==→eq c x q) in
                  rw q (ground (arith, k.0, p), omega arith, ground (arith, facts.1))
              | inr q ↦ rw q k
            ])
            v.known;
      ordered = caught_up-ordered b c b.b_obj_list facts.1 v.queue_distinct e v.known v.ordered;
      top_fits = v.top_fits;
    }
