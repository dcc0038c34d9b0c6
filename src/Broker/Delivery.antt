-- ===== src/Broker/Delivery.antt =====
-- What a client is given: the objects that are pending, in order, until there is none.
use vyatta_route_broker.Base.{
  ℕ, zero, suc, ◌≡◌, refl, true, false, not, List, [], ◌∷◌, Option, none, some, arith,
  if◌then◌else◌, contains, filter, is_empty, String, All-at,
}
use vyatta_route_broker.Circleq.{first, after}
use vyatta_route_broker.Circleq.Laws.{contains-filter, contains_of-after}
use vyatta_route_broker.Broker.{
  Broker, State, BrokerOps, BrokerClientOps, broker_get_next_data_obj, broker_has_more_data,
  broker_client_create, broker_client_get_data, obj_data, caught_up,
}
use vyatta_route_broker.Broker.Invariant.{Inv, Known, pending}
use vyatta_route_broker.Broker.Needs.{client_facts, leb_id-after}
use vyatta_route_broker.Broker.Placed.{eq_refl}
use vyatta_route_broker.Broker.Moved.{start_id, broker_client_create-joined}
use vyatta_route_broker.Broker.Pending.{next_data_obj-pending, pending-joined_self}
use vyatta_route_broker.Broker.Calls.{tail}
use vyatta_route_broker.Broker.Calls.Refinement.{pending-get_self}

-- In a well-formed broker, a client whose id is the broker's has been told of everything.
pub pending_of-id_eq :
    {b : Broker} (c : ℕ)
    → Inv b
    → contains c b.b_client_list ≡ true
    → (b.mem c).id ≡ b.id
    → pending b c ≡ []
pending_of-id_eq {b} c v m e = none_left (pending b c) (λ o n. n)
  where
    none_left :
        (l : List ℕ) → ((o : ℕ) → contains o l ≡ true → contains o (pending b c) ≡ true) → l ≡ []
    none_left [] h = refl
    none_left (o ∷ os) h =
        let facts = client_facts c v m in
        let p = h o (rw (eq_refl o) refl) in
        let f = contains-filter (λ x. (b.mem x).is_obj) o (after c b.b_obj_list) in
        let q : contains o (after c b.b_obj_list) ≡ true = ground arith in
        let mo = contains_of-after o c b.b_obj_list q in
        let known = All-at (Known b.mem b.b_client_list b.id) b.b_obj_list o mo v.known in
        absurd (
          ground (
            arith,
            known.1,
            leb_id-after b.mem c o b.b_obj_list v.ordered v.queue_distinct facts.0 mo (ground arith)
                facts.1,
          ))

first-is_empty : (l : List ℕ) → (elim (first l) [ none ↦ false | some o ↦ true ]) ≡ not (is_empty l)
first-is_empty [] = refl
first-is_empty (x ∷ xs) = refl

-- `broker_has_more_data` tells whether anything is pending.
pub has_more_data-pending :
    (b : Broker) (c : ℕ) → broker_has_more_data b c ≡ not (is_empty (pending b c))
unfolding broker_has_more_data
has_more_data-pending b c =
    rw (next_data_obj-pending b c, broker_has_more_data) (first-is_empty (pending b c))

-- A new client, whose address is not in the queue, has every object of the queue pending, in
-- order, the deleted ones included.
pub pending-create :
    (b : Broker) (c : ℕ) (n : String)
    → contains c b.b_obj_list ≡ false
    → pending (broker_client_create b true (some c) (some n)).0 c
      ≡ filter (λ o. (b.mem o).is_obj) b.b_obj_list
pending-create b c n h =
    rw (broker_client_create-joined b c n h) (pending-joined_self b c n (start_id b) h)

module _ {W D : Type 0} (ops : BrokerOps W) (client_ops : BrokerClientOps W D) where
  -- The data that the first of the pending objects stands for.
  abbrev pub front_data : State W → List ℕ → Option D
  front_data s [] = none
  front_data s (o ∷ os) =
      if (s.mem o).is_delete then client_ops.del_obj o s.world else client_ops.add_obj o s.world

  result_lem :
      (s : State W) (c : ℕ) (q : List ℕ)
      → broker_get_next_data_obj s.broker c ≡ first q
      → (broker_client_get_data ops client_ops s (some c)).0 ≡ front_data s q
  unfolding broker_client_get_data obj_data
  result_lem s c [] e = rw (e, broker_client_get_data) refl
  result_lem s c (o ∷ os) e = rw (e, broker_client_get_data) refl

  -- In a well-formed broker, a client is given the data of the object that has been pending
  -- longest, made by `del_obj` if the object is marked as deleted and by `add_obj` if not; NULL
  -- if nothing is pending. The others stay pending, in order.
  pub get_data-front :
      (s : State W) (c : ℕ)
      → Inv s.broker
      → contains c s.b_client_list ≡ true
      → ((broker_client_get_data ops client_ops s (some c)).0 ≡ front_data s (pending s.broker c))
        × (pending (broker_client_get_data ops client_ops s (some c)).1.broker c
            ≡ tail (pending s.broker c))
  get_data-front s c v m = (
    result_lem s c (pending s.broker c) (next_data_obj-pending s.broker c),
    pending-get_self ops client_ops s c v m,
  )

  -- A consumer that takes data until it is given NULL: the data that it is given, and the state.
  unfoldable pub drain : ℕ → State W → ℕ → List D × State W
  drain zero s c = ([], s)
  drain (suc n) s c =
      let got = broker_client_get_data ops client_ops s (some c) in
      let rest = drain n got.1 c in
      elim (got.0) [ none ↦ ([], got.1) | some d ↦ (d ∷ rest.0, rest.1) ]

  pub end_id :
      (s : State W) (c : ℕ)
      → broker_get_next_data_obj s.broker c ≡ none
      → ((broker_client_get_data ops client_ops s (some c)).1.mem c).id
        ≡ (broker_client_get_data ops client_ops s (some c)).1.id
  unfolding broker_client_get_data caught_up
  end_id s c e = rw (e, broker_client_get_data, eq_refl c) refl

  -- Both callbacks always give data, of which one can tell the object that it is for.
  abbrev pub Names : (D → ℕ) → Type 0
  Names which =
      (o : ℕ) (w : W)
      → ((d : D) × (client_ops.add_obj o w ≡ some d) × (which d ≡ o))
        × ((d : D) × (client_ops.del_obj o w ≡ some d) × (which d ≡ o))
