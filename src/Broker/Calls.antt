-- ===== src/Broker/Calls.antt =====
-- The calls of a broker as steps: what each asks for, and what a queue for each client would do.
pub mod Safety
pub mod Refinement
use vyatta_route_broker.Base.{
  ℕ, ◌+◌, ◌^◌, ◌<◌, ◌≡◌, Bool, true, false, List, [], ◌∷◌, Option, none, some, String, ◌==◌,
  if◌then◌else◌, contains,
}
use vyatta_route_broker.Circleq.{insert_tail, remove}
use vyatta_route_broker.Broker.{
  Broker, State, BrokerOps, BrokerClientOps, broker_add_obj, broker_del_obj, broker_upd_obj,
  broker_del_obj_now, broker_client_create, broker_client_delete, broker_client_get_data,
}

-- The addresses and allocations that a caller or the C library provides are arguments.
pub data Call : Type 0 where
  add : ℕ → ℕ → Call
  upd : ℕ → Call
  del : ℕ → Call
  del_now : ℕ → Call
  create : ℕ → String → Call
  leave : ℕ → Call
  get : ℕ → Call

-- An object that stands in the queue.
abbrev pub Queued : Broker → ℕ → Type 0
Queued b r = (contains r b.b_obj_list ≡ true) × ((b.mem r).is_obj ≡ true)

-- What the callers see to. An address that is added is not in the queue; one that is updated or
-- deleted is an object of it; the ids do not run out.
abbrev pub Allowed : Broker → Call → Type 0
Allowed b (add r type) = (contains r b.b_obj_list ≡ false) × (b.id + 1 < 2 ^ 64)
Allowed b (upd r) = Queued b r × (b.id + 1 < 2 ^ 64)
Allowed b (del r) = Queued b r × (b.id + 1 < 2 ^ 64)
Allowed b (del_now r) = Queued b r
Allowed b (create c n) = contains c b.b_obj_list ≡ false
Allowed b (leave c) = contains c b.b_client_list ≡ true
Allowed b (get c) = contains c b.b_client_list ≡ true

abbrev pub tail : List ℕ → List ℕ
tail [] = []
tail (x ∷ xs) = xs

-- The queue of a client `d` that stays, behind each call: an object is added or renewed at the
-- end, withdrawn by `del_now`, and taken from the front by the client's own `get`.
abbrev pub queue_after : Call → ℕ → List ℕ → List ℕ
queue_after (add r type) d q = insert_tail q r
queue_after (upd r) d q = insert_tail (remove r q) r
queue_after (del r) d q = insert_tail (remove r q) r
queue_after (del_now r) d q = remove r q
queue_after (create c n) d q = q
queue_after (leave c) d q = q
queue_after (get c) d q = if d == c then tail q else q

-- The client is not the one that the call removes.
abbrev pub Stays : Call → ℕ → Type 0
Stays (leave c) d = (d == c) ≡ false
Stays _ d = Unit {0}

module _ {W D : Type 0} (ops : BrokerOps W) (client_ops : BrokerClientOps W D) where
  unfoldable pub step : State W → Call → State W
  step s (add r type) = broker_add_obj ops s r type
  step s (upd r) = broker_upd_obj ops s r
  step s (del r) = broker_del_obj ops s r
  step s (del_now r) = broker_del_obj_now ops s r
  step s (create c n) = record s {
    broker = (broker_client_create s.broker true (some c) (some n)).0;
  }
  step s (leave c) = broker_client_delete ops s c
  step s (get c) = (broker_client_get_data ops client_ops s (some c)).1

  -- The states that allowed calls lead to.
  pub data Reach (s : State W) : State W → Type 0 where
    here : Reach s s
    more : {t : State W} → Reach s t → (c : Call) → Allowed t.broker c → Reach s (step t c)
