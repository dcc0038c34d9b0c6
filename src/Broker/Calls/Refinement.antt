-- ===== src/Broker/Calls/Refinement.antt =====
-- A broker is a queue for each client: what each call does to what a client has still to be told.
use vyatta_route_broker.Base.{
  ℕ, ◌≡◌, ◌∙◌, refl, ap, sym, inl, inr, true, false, List, [], ◌∷◌, none, some, arith, ◌==◌,
  if◌then◌else◌, Bool-cases, ==→eq, contains, Option-cases,
}
use vyatta_route_broker.Circleq.{insert_tail, remove, first, after}
use vyatta_route_broker.Circleq.Laws.{
  contains_of-after, contains-filter, contains-remove_ne, remove_absent,
}
use vyatta_route_broker.Broker.{
  Broker, State, BrokerOps, BrokerClientOps, obj_flags, advance, release_consumed,
  broker_get_next_data_obj, broker_del_obj, broker_del_obj_now, broker_client_delete,
  broker_client_get_data, count_consumed, consume, caught_up,
}
use vyatta_route_broker.Broker.Invariant.{Inv, pending}
use vyatta_route_broker.Broker.Placed.{
  flagged, broker_add_obj-placed, broker_upd_obj-placed, broker_del_obj-placed, not_client,
  ne_of_contains, eq_refl,
}
use vyatta_route_broker.Broker.Removed.{obj_not_client, without_client, without_client-Inv}
use vyatta_route_broker.Broker.Moved.{start_id, broker_client_create-joined}
use vyatta_route_broker.Broker.Consume.{next_data_obj_facts, advance-Inv, advance-is_obj}
use vyatta_route_broker.Broker.Pending.{
  next_data_obj-pending, pending-placed, pending-removed, pending-advance_self,
  pending-advance_other, pending-without_client, pending-joined_other,
}
use vyatta_route_broker.Broker.Release.{release_walk-SameView, release_consumed-SameView}
use vyatta_route_broker.Broker.Retain.{pending-caught_up}
use vyatta_route_broker.Broker.Calls.{
  Call, add, upd, del, del_now, create, leave, get, Allowed, tail, queue_after, Stays, step,
}

first-none : (l : List ℕ) → first l ≡ none → l ≡ []
first-none [] e = refl
first-none (x ∷ xs) e = cc

not_pending :
    (b : Broker) (r d : ℕ) → contains r b.b_obj_list ≡ false → contains r (pending b d) ≡ false
not_pending b r d h = ground (
  arith,
  contains-filter (λ o. (b.mem o).is_obj) r (after d b.b_obj_list),
  contains_of-after r d b.b_obj_list,
)

-- A client for which nothing is found has nothing pending.
at_end :
    (b : Broker) (c d : ℕ)
    → broker_get_next_data_obj b c ≡ none
    → pending b d ≡ (if d == c then tail (pending b d) else pending b d)
at_end b c d e = elim (Bool-cases (d == c)) [
  | inl q ↦
      let p = ap (pending b) (==→eq d c q) in
      let empty : pending b d ≡ [] =
        p ∙ first-none (pending b c) (sym (next_data_obj-pending b c) ∙ e) in
      rw (q, empty) refl
  | inr q ↦ rw q refl
]

past_first :
    (b : Broker) (c d o : ℕ)
    → Inv b
    → contains c b.b_client_list ≡ true
    → broker_get_next_data_obj b c ≡ some o
    → pending (advance b c o) d ≡ (if d == c then tail (pending b d) else pending b d)
past_first b c d o v m e = elim (Bool-cases (d == c)) [
  | inl q ↦
      let p = ==→eq d c q in
      rw q (
        ap (pending (advance b c o)) p
        ∙ ap tail (sym (pending-advance_self v c m o e))
        ∙ ap (λ x. tail (pending b x)) (sym p))
  | inr q ↦
      let mo = contains_of-after o c b.b_obj_list (next_data_obj_facts b c o e).0 in
      rw q (pending-advance_other v c m o d mo (ground arith))
]

module _ {W D : Type 0} (ops : BrokerOps W) (client_ops : BrokerClientOps W D) where
  -- Behind the call of `get` by `c`, in the branch that finds an object.
  pending-consume :
      (s : State W) (c o d : ℕ)
      → Inv s.broker
      → contains c s.b_client_list ≡ true
      → broker_get_next_data_obj s.broker c ≡ some o
      → contains d s.b_client_list ≡ true
      → pending (consume ops s c o).broker d ≡ pending (advance s.broker c o) d
  unfolding consume count_consumed advance
  pending-consume s c o d v m e md =
      let facts = next_data_obj_facts s.broker c o e in
      let mo = contains_of-after o c s.b_obj_list facts.0 in
      let view =
        release_consumed-SameView ops (record s { broker = advance s.broker c o }) o
          (advance-Inv v c o m mo facts.1) (advance-is_obj v c o m mo facts.1) in
      view.same_pending d md

  pub pending-get :
      (s : State W) (c d : ℕ)
      → Inv s.broker
      → contains c s.b_client_list ≡ true
      → contains d s.b_client_list ≡ true
      → pending (step ops client_ops s (get c)).broker d
        ≡ (if d == c then tail (pending s.broker d) else pending s.broker d)
  unfolding step broker_client_get_data
  pending-get s c d v m md = elim (Option-cases (broker_get_next_data_obj s.broker c)) [
    | inl e ↦
        rw (e, step, broker_client_get_data)
          (pending-caught_up s.broker c d ∙ at_end s.broker c d e)
    | inr (o, e) ↦
        rw (e, step, broker_client_get_data)
          (pending-consume s c o d v m e md ∙ past_first s.broker c d o v m e)
  ]

  pub pending-get_self :
      (s : State W) (c : ℕ)
      → Inv s.broker
      → contains c s.b_client_list ≡ true
      → pending (broker_client_get_data ops client_ops s (some c)).1.broker c
        ≡ tail (pending s.broker c)
  unfolding step
  pending-get_self s c v m = pending-get s c c v m m ∙ rw (eq_refl c) refl

  -- A call of `get` changes neither the list of clients nor the broker's id.
  pub get-clients :
      (s : State W) (c : ℕ)
      → Inv s.broker
      → contains c s.b_client_list ≡ true
      → (broker_client_get_data ops client_ops s (some c)).1.b_client_list ≡ s.b_client_list
  unfolding broker_client_get_data consume count_consumed advance caught_up release_consumed
      broker_del_obj_now
  get-clients s c v m = ground arith

  del-queue :
      (s : State W) (r d : ℕ)
      → Inv s.broker
      → contains d s.b_client_list ≡ true
      → (s.mem r).is_obj ≡ true
      → pending (broker_del_obj ops s r).broker d ≡ insert_tail (remove r (pending s.broker d)) r
  del-queue s r d v md i =
      rw (broker_del_obj-placed ops s r (ground arith))
        (pending-placed v d md r (flagged (s.mem r) true) i (obj_not_client r v i))

  -- A well-formed broker is a queue of pending objects for each client. An allowed call does to the
  -- objects that are pending for a client that stays what it does to that queue: an object is
  -- added at the end, an updated or deleted one moves there, one that is deleted at once is
  -- withdrawn, a client's own read takes the front, and nothing else changes it.
  pub pending-step :
      (s : State W) (call : Call) (d : ℕ)
      → Inv s.broker
      → Allowed s.broker call
      → contains d s.b_client_list ≡ true
      → Stays call d
      → pending (step ops client_ops s call).broker d ≡ queue_after call d (pending s.broker d)
  unfolding step broker_del_obj_now broker_client_delete
  pending-step s (add r type) d v a md st = rw (broker_add_obj-placed ops s r type a.0) (
      pending-placed v d md r (record { obj_type = type; flags = obj_flags; id = 0 }) refl
        (not_client v r a.0)
      ∙ ap (λ q. insert_tail q r)
          (remove_absent r (pending s.broker d) (not_pending s.broker r d a.0)))
  pending-step s (upd r) d v a md st =
      rw (broker_upd_obj-placed ops s r)
        (pending-placed v d md r (flagged (s.mem r) false) a.0.1 (obj_not_client r v a.0.1))
  pending-step s (del r) d v a md st = del-queue s r d v md a.0.1
  pending-step s (del_now r) d v a md st = pending-removed v d md r (obj_not_client r v a.1)
  pending-step s (create c n) d v a md st =
      let ne = ne_of_contains c d s.b_client_list (not_client v c a) md in
      rw (broker_client_create-joined s.broker c n a)
        (pending-joined_other s.broker c n (start_id s.broker) a d (ground arith))
  pending-step s (leave c) d v a md st =
      (release_walk-SameView ops (record s { broker = without_client s.broker c })
          (remove c s.b_obj_list) (without_client-Inv c v)).same_pending
        d (ground (arith, contains-remove_ne d c s.b_client_list))
      ∙ pending-without_client v c a d (ground arith)
  pending-step s (get c) d v a md st = pending-get s c d v a md
