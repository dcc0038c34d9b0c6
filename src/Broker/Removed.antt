-- ===== src/Broker/Removed.antt =====
-- Objects and clients leave the queue: `broker_del_obj_now` and `broker_client_delete`.
use vyatta_route_broker.Base.{
  ℕ, ◌≡◌, inl, inr, true, false, ◌&&◌, List, [], ◌∷◌, arith, ◌==◌, Bool-cases, contains, distinct,
  All-mono,
}
use vyatta_route_broker.Circleq.{remove}
use vyatta_route_broker.Circleq.Laws.{
  contains-remove_ne, contains-remove_self, distinct-remove, All-remove,
}
use vyatta_route_broker.Circleq.Order.{Pairwise-remove}
use vyatta_route_broker.Broker.{
  Broker, State, BrokerOps, broker_del_obj_now, broker_client_delete, release_unneeded,
  release_walk, no_clients_need_this,
}
use vyatta_route_broker.Broker.Invariant.{Known, Inv}
use vyatta_route_broker.Broker.Needs.{client_facts}
use vyatta_route_broker.Broker.Placed.{ne_of_contains}

abbrev pub removed : Broker → ℕ → Broker
removed b r = record b { b_obj_list = remove r b.b_obj_list }

abbrev pub without_client : Broker → ℕ → Broker
without_client b c = record b {
  b_client_list = remove c b.b_client_list;
  b_obj_list = remove c b.b_obj_list;
}

pub obj_not_client :
    {b : Broker} (r : ℕ) → Inv b → (b.mem r).is_obj ≡ true → contains r b.b_client_list ≡ false
obj_not_client {b} r v i = elim (Bool-cases (contains r b.b_client_list)) [
  | inl m ↦ let facts = client_facts r v m in cc (facts.1)
  | inr m ↦ m
]

pub removed-Inv :
    {b : Broker} (r : ℕ) → Inv b → contains r b.b_client_list ≡ false → Inv (removed b r)
removed-Inv {b} r v n = record {
  queue_distinct = distinct-remove r b.b_obj_list v.queue_distinct;
  clients_distinct = v.clients_distinct;
  clients_queued =
      All-mono (λ c. contains c b.b_obj_list ≡ true) _ b.b_client_list
        (λ c m q.
          ground
            (arith, contains-remove_ne c r b.b_obj_list, ne_of_contains r c b.b_client_list n m))
        v.clients_queued;
  known = All-remove _ r b.b_obj_list v.known;
  ordered = Pairwise-remove _ r b.b_obj_list v.ordered;
  top_fits = v.top_fits;
}

pub without_client-Inv : {b : Broker} (c : ℕ) → Inv b → Inv (without_client b c)
without_client-Inv {b} c v = record {
  queue_distinct = distinct-remove c b.b_obj_list v.queue_distinct;
  clients_distinct = distinct-remove c b.b_client_list v.clients_distinct;
  clients_queued =
      All-mono (λ d. contains d b.b_obj_list ≡ true) _ (remove c b.b_client_list)
        (λ d m q. ground (
          arith,
          contains-remove_ne d c b.b_obj_list,
          other b.b_client_list v.clients_distinct d m,
        ))
        (All-remove _ c b.b_client_list v.clients_queued);
  known =
      All-mono (Known b.mem b.b_client_list b.id) _ (remove c b.b_obj_list)
        (λ x m k. (
          ground (
            arith,
            contains-remove_ne x c b.b_client_list,
            other b.b_obj_list v.queue_distinct x m,
          ),
          k.1,
          k.2,
        ))
        (All-remove _ c b.b_obj_list v.known);
  ordered = Pairwise-remove _ c b.b_obj_list v.ordered;
  top_fits = v.top_fits;
}
  where
    other :
        (l : List ℕ)
        → distinct l ≡ true
        → (x : ℕ) → contains x (remove c l) ≡ true
        → (c == x) ≡ false
    other l d x m = ne_of_contains c x (remove c l) (contains-remove_self c l d) m

module _ {W : Type 0} (ops : BrokerOps W) where
  pub broker_del_obj_now-Inv :
      (s : State W) (r : ℕ)
      → Inv s.broker
      → (s.mem r).is_obj ≡ true
      → Inv (broker_del_obj_now ops s r).broker
  unfolding broker_del_obj_now
  broker_del_obj_now-Inv s r v i = removed-Inv r v (obj_not_client r v i)

  pub release_unneeded-Inv :
      (s : State W) (r : ℕ) → Inv s.broker → Inv (release_unneeded ops s r).broker
  unfolding release_unneeded
  release_unneeded-Inv s r v = elim (Bool-cases (s.mem r).is_obj) [
    | inl i ↦ elim (Bool-cases ((s.mem r).is_delete && no_clients_need_this s.broker r)) [
      | inl e ↦ rw (i, e) (removed-Inv r v (obj_not_client r v i))
      | inr e ↦ rw (i, e) v
    ]
    | inr i ↦ rw i v
  ]

  release_walk-Inv : (s : State W) (l : List ℕ) → Inv s.broker → Inv (release_walk ops s l).broker
  unfolding release_walk
  release_walk-Inv s [] v = v
  release_walk-Inv s (x ∷ xs) v =
      release_walk-Inv (release_unneeded ops s x) xs (release_unneeded-Inv s x v)

  pub broker_client_delete-Inv :
      (s : State W) (c : ℕ) → Inv s.broker → Inv (broker_client_delete ops s c).broker
  unfolding broker_client_delete
  broker_client_delete-Inv s c v =
      release_walk-Inv _ (remove c s.b_obj_list) (without_client-Inv c v)
