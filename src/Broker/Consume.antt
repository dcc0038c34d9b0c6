-- ===== src/Broker/Consume.antt =====
-- A client passes an object: `broker_client_get_data`.
use vyatta_route_broker.Base.{
  ℕ, ◌≡◌, ap, inl, inr, true, false, ◌&&◌, some, arith, ◌==◌, Bool-cases, ==→eq, contains, All-at,
  All-mono, Pairwise, Option-cases,
}
use vyatta_route_broker.Circleq.{remove, after}
use vyatta_route_broker.Circleq.Laws.{
  contains-remove_ne, contains-remove_self, distinct-remove, All-remove, All-insert_after,
  contains-insert_after, distinct-insert_after, contains_of-after,
}
use vyatta_route_broker.Circleq.Order.{Pairwise-mono, Pairwise-remove, Pairwise-insert_after}
use vyatta_route_broker.Broker.{
  Broker, State, BrokerOps, BrokerClientOps, broker_get_next_data_obj, advance, count_consumed,
  release_consumed, broker_client_get_data, no_clients_need_this,
}
use vyatta_route_broker.Broker.Invariant.{InOrder, Known, Inv}
use vyatta_route_broker.Broker.Needs.{client_facts}
use vyatta_route_broker.Broker.Placed.{eq_refl, ne_of_contains}
use vyatta_route_broker.Broker.Removed.{removed-Inv, obj_not_client}
use vyatta_route_broker.Broker.Moved.{first_obj-some, caught_up-Inv}

-- What the search for a client finds.
pub next_data_obj_facts :
    (b : Broker) (c o : ℕ)
    → broker_get_next_data_obj b c ≡ some o
    → (contains o (after c b.b_obj_list) ≡ true) × ((b.mem o).is_obj ≡ true)
unfolding broker_get_next_data_obj
next_data_obj_facts b c o e = first_obj-some b (after c b.b_obj_list) o e

module _ {b : Broker} (v : Inv b) (c o : ℕ) (m : contains c b.b_client_list ≡ true)
    (mo : contains o b.b_obj_list ≡ true) (io : (b.mem o).is_obj ≡ true) where
  pub client_ne : (c == o) ≡ false
  client_ne = elim (Bool-cases (c == o)) [
    | inl q ↦ let p = ap (λ x. (b.mem x).is_obj) (==→eq c o q) in cc ((client_facts c v m).1)
    | inr q ↦ q
  ]

  rest_other : (x : ℕ) → contains x (remove c b.b_obj_list) ≡ true → (c == x) ≡ false
  rest_other x n =
      ne_of_contains c x (remove c b.b_obj_list)
        (contains-remove_self c b.b_obj_list v.queue_distinct) n

  pub target_left : contains o (remove c b.b_obj_list) ≡ true
  target_left = ground (arith, contains-remove_ne o c b.b_obj_list, client_ne)

  advance-ordered : Pairwise (InOrder (advance b c o).mem) (advance b c o).b_obj_list
  unfolding advance
  advance-ordered =
      let ic = (client_facts c v m).1 in
      Pairwise-insert_after (InOrder (advance b c o).mem) o c
        (λ y h. ground (arith, client_ne, eq_refl c, ic))
        (rw (client_ne, eq_refl c) (ground (arith, ic)))
        (λ y h. ground (arith, client_ne, eq_refl c, ic)) (remove c b.b_obj_list)
        (Pairwise-mono (InOrder b.mem) _ (remove c b.b_obj_list)
          (λ x y n k h. rw (rest_other x n, rest_other y k) h)
          (Pairwise-remove _ c b.b_obj_list v.ordered))

  pub advance-Inv : Inv (advance b c o)
  unfolding advance
  advance-Inv =
      let facts = client_facts c v m in
      let at = All-at (Known b.mem b.b_client_list b.id) b.b_obj_list o mo v.known in
      let gone = contains-remove_self c b.b_obj_list v.queue_distinct in
      record {
        queue_distinct =
            distinct-insert_after o c (remove c b.b_obj_list)
              (distinct-remove c b.b_obj_list v.queue_distinct) target_left gone;
        clients_distinct = v.clients_distinct;
        clients_queued =
            All-mono (λ d. contains d b.b_obj_list ≡ true) _ b.b_client_list
              (λ d n q. ground (
                arith,
                contains-insert_after d o c (remove c b.b_obj_list) target_left,
                contains-remove_ne d c b.b_obj_list,
              ))
              v.clients_queued;
        known =
            All-insert_after _ o c (remove c b.b_obj_list)
              (rw (eq_refl c) (ground (arith, facts.1), at.1, ground (arith, facts.1)))
              (All-mono (Known b.mem b.b_client_list b.id) _ (remove c b.b_obj_list)
                (λ x n k. rw (rest_other x n) k) (All-remove _ c b.b_obj_list v.known));
        ordered = advance-ordered;
        top_fits = v.top_fits;
      }

  pub advance-is_obj : ((advance b c o).mem o).is_obj ≡ true
  unfolding advance
  advance-is_obj = rw client_ne io

-- The counter of a client is no part of the invariant.
pub count_consumed-Inv : {b : Broker} (c : ℕ) → Inv b → Inv (count_consumed b c)
unfolding count_consumed
count_consumed-Inv c v = record {
  queue_distinct = v.queue_distinct;
  clients_distinct = v.clients_distinct;
  clients_queued = v.clients_queued;
  known = v.known;
  ordered = v.ordered;
  top_fits = v.top_fits;
}

module _ {W : Type 0} (ops : BrokerOps W) where
  release_consumed-Inv :
      (s : State W) (o : ℕ)
      → Inv s.broker
      → (s.mem o).is_obj ≡ true
      → Inv (release_consumed ops s o).broker
  unfolding release_consumed
  release_consumed-Inv s o v i =
      elim (Bool-cases ((s.mem o).is_delete && no_clients_need_this s.broker o)) [
        | inl e ↦ rw e (removed-Inv o v (obj_not_client o v i))
        | inr e ↦ rw e v
      ]

  pub broker_client_get_data-Inv :
      {D : Type 0} (client_ops : BrokerClientOps W D) (s : State W) (c : ℕ)
      → Inv s.broker
      → contains c s.b_client_list ≡ true
      → Inv (broker_client_get_data ops client_ops s (some c)).1.broker
  unfolding broker_client_get_data
  broker_client_get_data-Inv client_ops s c v m =
      elim (Option-cases (broker_get_next_data_obj s.broker c)) [
        | inl e ↦ rw (e, broker_client_get_data) (caught_up-Inv c v m e)
        | inr (o, e) ↦
            let facts = next_data_obj_facts s.broker c o e in
            let mo = contains_of-after o c s.b_obj_list facts.0 in
            rw (e, broker_client_get_data)
              (count_consumed-Inv c (
                release_consumed-Inv (record s { broker = advance s.broker c o }) o
                  (advance-Inv v c o m mo facts.1) (advance-is_obj v c o m mo facts.1)))
      ]
