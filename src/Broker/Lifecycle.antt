-- ===== src/Broker/Lifecycle.antt =====
-- broker/broker.c: `broker_create` and `broker_delete`, with the list of all brokers and the
-- memory that was freed.
use vyatta_route_broker.Base.{
  ℕ, ◌≢◌, ◌≡◌, refl, Bool, true, false, ◌&&◌, ◌||◌, not, List, [], ◌∷◌, Option, none, some, arith,
  ◌==◌, if◌then◌else◌, contains, is_empty, is_some, Bool-cases, inl, inr,
}
use vyatta_route_broker.Broker.{Broker, BrokerObj}
use vyatta_route_broker.Broker.Calls.Safety.{Sound}
use vyatta_route_broker.Broker.Placed.{eq_refl}

-- Which of the callbacks of a `struct broker_ops` are not NULL.
pub record GivenOps : Type 0 where
  pub obj_to_broker_obj : Bool
  pub broker_obj_to_obj : Bool
  pub lock_obj : Bool
  pub unlock_obj : Bool

-- `broker_list_head` with its flag `inited`, and the addresses of the freed brokers.
pub record BrokerTable : Type 0 where
  pub inited : Bool
  pub broker_list : List ℕ
  pub freed : List ℕ

pub data Rc : Type 0 where
  success enoent enotempty : Rc

unfoldable pub ops_given : Option GivenOps → Bool
ops_given none = false
ops_given (some g) = g.obj_to_broker_obj && g.broker_obj_to_obj && g.lock_obj && g.unlock_obj

-- `calloc` clears the memory.
abbrev pub blank_obj : BrokerObj
blank_obj = record {
  obj_type = 0;
  flags = record { is_obj = false; is_client = false; is_delete = false };
  id = 0;
}

abbrev pub new_broker : ℕ → Broker
new_broker type_count = record {
  b_obj_list = [];
  b_client_list = [];
  mem = λ _. blank_obj;
  clients = λ _. record { name = ""; consumed = 0 };
  type_count = type_count;
  id = 0;
}

-- `addr` is what `calloc` returns.
unfoldable pub broker_create :
    BrokerTable → Option GivenOps → ℕ → Option ℕ → BrokerTable × Option (ℕ × Broker)
unfolding ops_given
broker_create t ops type_count none = (t, none)
broker_create t ops type_count (some addr) =
    if ops_given ops && not (type_count == 0)
    then (
      record {
        inited = true;
        broker_list = addr ∷ (if t.inited then t.broker_list else []);
        freed = t.freed;
      },
      some (addr, new_broker type_count),
    )
    else (t, none)

unfoldable pub broker_delete : BrokerTable → Option (ℕ × Broker) → BrokerTable × Rc
broker_delete t none = (t, enoent)
broker_delete t (some (addr, b)) =
    if not (is_empty b.b_client_list) || not (is_empty b.b_obj_list)
    then (t, enotempty)
    else (record t { freed = addr ∷ t.freed }, success)

pub new_broker-Sound : (type_count : ℕ) → Sound (new_broker type_count)
new_broker-Sound type_count = record {
  inv = record {
    queue_distinct = refl;
    clients_distinct = refl;
    clients_queued = tt;
    known = tt;
    ordered = tt;
    top_fits = omega arith;
  };
  no_leak = tt;
}

-- The broker that a call created, if it did, is sound and on the list of all brokers.
abbrev pub Created : BrokerTable × Option (ℕ × Broker) → Type 0
Created (t, none) = Unit {0}
Created (t, some (a, b)) = Sound b × (contains a t.broker_list ≡ true)

-- `broker_create` gives a sound broker or none; it gives one exactly when the callbacks are there,
-- the number of types is not 0 and there is memory.
broker_create-Created :
    (t : BrokerTable) (ops : Option GivenOps) (type_count : ℕ) (addr : Option ℕ)
    → Created (broker_create t ops type_count addr)
      × (is_some (broker_create t ops type_count addr).1
          ≡ (ops_given ops && not (type_count == 0) && is_some addr))
unfolding broker_create
broker_create-Created t ops type_count none = (tt, ground arith)
broker_create-Created t ops type_count (some a) =
    elim (Bool-cases (ops_given ops && not (type_count == 0))) [
      | inl e ↦
          rw (e, broker_create) ((new_broker-Sound type_count, rw (eq_refl a) refl), ground arith)
      | inr e ↦ rw (e, broker_create) (tt, ground arith)
    ]

-- A broker is deleted only when no object and no client is left.
pub broker_delete-success :
    (t : BrokerTable) (a : ℕ) (b : Broker)
    → (broker_delete t (some (a, b))).1 ≡ success
    → (b.b_client_list ≡ []) × (b.b_obj_list ≡ [])
unfolding broker_delete
broker_delete-success t a b e = ground arith

-- A broker that was created can be deleted at once. Its memory is then freed, and its address is
-- on the list of all brokers, where it also stays whatever broker is created next.
pub broker_delete-dangles :
    (t : BrokerTable) (ops next_ops : Option GivenOps) (type_count next_count a : ℕ)
    (next : Option ℕ)
    → ops_given ops ≡ true
    → type_count ≢ 0
    → let c = broker_create t ops type_count (some a) in
      let u = broker_delete c.0 c.1 in
      let w = (broker_create u.0 next_ops next_count next).0 in
      (u.1 ≡ success)
      × (contains a u.0.freed ≡ true)
      × (contains a u.0.broker_list ≡ true)
      × (contains a w.broker_list ≡ true)
unfolding broker_create broker_delete
broker_delete-dangles t ops next_ops type_count next_count a next g z =
    let nonzero : not (type_count == 0) ≡ true = ground arith in
    rw (g, nonzero, eq_refl a) (refl, refl, refl, later next)
  where
    later :
        (o : Option ℕ)
        → contains a
            (broker_create
              (record {
                inited = true;
                broker_list = a ∷ (if t.inited then t.broker_list else []);
                freed = a ∷ t.freed;
              })
              next_ops
              next_count
              o).0.broker_list
          ≡ true
    later none = rw (eq_refl a) refl
    later (some b) = elim (Bool-cases (ops_given next_ops && not (next_count == 0))) [
      | inl e ↦ rw e (ground (arith, eq_refl a))
      | inr e ↦ rw (e, eq_refl a) refl
    ]
