-- ===== src/Broker.antt =====
-- broker/broker.c and broker/broker.h: one broker, its queue of objects and clients.
-- A `struct broker_obj` is known by its address; a client by the address of the `broker_obj` that
-- is embedded in it, so that the client's place in the queue and its entry in the list of clients
-- share one `broker_obj` in memory.
pub mod Invariant
pub mod Needs
pub mod Placed
pub mod Removed
pub mod Moved
pub mod Consume
pub mod Pending
pub mod Release
pub mod Leak
pub mod Retain
pub mod Calls
pub mod Delivery
pub mod Lifecycle
pub mod Holds
mod Tests
use vyatta_route_broker.Base.{
  ℕ, ◌+◌, ◌-◌, ◌%◌, ◌^◌, Bool, true, false, ◌&&◌, ◌||◌, not, List, [], ◌∷◌, Option, none, some,
  String, ◌==◌, ltb, leb, if◌then◌else◌, is_empty, filter,
}
use vyatta_route_broker.Circleq.{insert_tail, remove, insert_after, after, last, prev}

-- The bits BROKER_FLAGS_OBJ, BROKER_FLAGS_CLIENT and BROKER_FLAGS_DELETE of a `flags` word.
pub record Flags : Type 0 where
  pub is_obj : Bool
  pub is_client : Bool
  pub is_delete : Bool

pub record BrokerObj : Type 0 where
  pub obj_type : ℕ
  pub flags : Flags
  pub open flags use *
  pub id : ℕ

-- The fields of a `struct broker_client` beside its `broker_obj`. The fields `flags` and `id`
-- that no code reads are left out.
pub record BrokerClient : Type 0 where
  pub name : String
  pub consumed : ℕ

-- `mem` and `clients` are the memory that the two lists reach.
pub record Broker : Type 0 where
  pub b_obj_list : List ℕ
  pub b_client_list : List ℕ
  pub mem : ℕ → BrokerObj
  pub clients : ℕ → BrokerClient
  pub type_count : ℕ
  pub id : ℕ

-- `struct broker_ops`: what the callbacks do to the state `W` of whoever owns the objects.
-- The two conversions between an object and its `broker_obj` are the identity on addresses.
pub record BrokerOps (W : Type 0) : Type 0 where
  pub lock_obj : ℕ → W → W
  pub unlock_obj : ℕ → W → W

-- `struct broker_client_ops`: the data that a client makes of an object; `none` is NULL.
pub record BrokerClientOps (W D : Type 0) : Type 0 where
  pub add_obj : ℕ → W → Option D
  pub del_obj : ℕ → W → Option D

-- A broker, and the state that its callbacks act on.
pub record State (W : Type 0) : Type 0 where
  pub broker : Broker
  pub open broker use *
  pub world : W

abbrev pub u64 : ℕ → ℕ
u64 n = n % 2 ^ 64

-- ~0 as a uint64_t
abbrev pub u64_max : ℕ
u64_max = 2 ^ 64 - 1

abbrev pub update {ℓ} : {A : Type ℓ} → (ℕ → A) → ℕ → A → ℕ → A
update f a v x = if a == x then v else f x

abbrev pub obj_flags : Flags
obj_flags = record { is_obj = true; is_client = false; is_delete = false }

abbrev pub client_flags : Flags
client_flags = record { is_obj = false; is_client = true; is_delete = false }

-- The loop over the clients in `no_clients_need_this`.
pub min_client_id : Broker → List ℕ → ℕ → ℕ
min_client_id b [] id = id
min_client_id b (c ∷ cs) id = min_client_id b cs (if ltb (b.mem c).id id then (b.mem c).id else id)

pub no_clients_need_this : Broker → ℕ → Bool
unfolding min_client_id
no_clients_need_this b entry =
    is_empty b.b_client_list || leb (b.mem entry).id (min_client_id b b.b_client_list u64_max)

-- `entry` goes to the tail with a fresh id: the last statements of `broker_del_obj` and
-- `broker_upd_obj`.
pub move_to_top : Broker → ℕ → Broker
move_to_top b entry = record b {
  b_obj_list = insert_tail (remove entry b.b_obj_list) entry;
  mem = update b.mem entry (record (b.mem entry) { id = u64 (b.id + 1) });
  id = u64 (b.id + 1);
}

pub set_delete : Broker → ℕ → Bool → Broker
set_delete b entry d = record b {
  mem = update b.mem entry (record o { flags = record (o.flags) { is_delete = d } });
}
  where
    o : BrokerObj
    o = b.mem entry

-- The walk of `broker_get_next_data_obj` over what stands behind an element.
unfoldable pub first_obj : Broker → List ℕ → Option ℕ
first_obj b [] = none
first_obj b (x ∷ xs) = if (b.mem x).is_obj then some x else first_obj b xs

unfoldable pub broker_get_next_data_obj : Broker → ℕ → Option ℕ
unfolding first_obj
broker_get_next_data_obj b b_obj = first_obj b (after b_obj b.b_obj_list)

unfoldable pub broker_has_more_data : Broker → ℕ → Bool
broker_has_more_data b client = elim (broker_get_next_data_obj b client) [
  | none ↦ false
  | some o ↦ true
]

-- `calloc` gives the address of the client, `strdup` the copy of its name; either may fail.
unfoldable pub broker_client_create : Broker → Bool → Option ℕ → Option String → Broker × Option ℕ
broker_client_create b false addr copy = (b, none)
broker_client_create b true none copy = (b, none)
broker_client_create b true (some client) none = (b, none)
broker_client_create b true (some client) (some name) =
    (if broker_has_more_data linked client then linked else up_to_date, some client)
  where
    linked : Broker
    linked = record b {
      b_client_list = client ∷ b.b_client_list;
      b_obj_list = client ∷ b.b_obj_list;
      mem = update b.mem client (record { obj_type = 0; flags = client_flags; id = 0 });
      clients = update b.clients client (record { name = name; consumed = 0 });
    }

    up_to_date : Broker
    up_to_date = record linked {
      mem = update linked.mem client (record (linked.mem client) { id = b.id });
    }

-- A client that has seen everything takes the broker's id.
unfoldable pub caught_up : Broker → ℕ → Broker
caught_up b client = record b { mem = update b.mem client (record (b.mem client) { id = b.id }) }

-- A client moves right behind an object, and takes its id.
unfoldable pub advance : Broker → ℕ → ℕ → Broker
advance b client obj = record b {
  b_obj_list = insert_after obj client (remove client b.b_obj_list);
  mem = update b.mem client (record (b.mem client) { id = (b.mem obj).id });
}

unfoldable pub count_consumed : Broker → ℕ → Broker
count_consumed b client = record b {
  clients = update b.clients client (record c { consumed = u64 (c.consumed + 1) });
}
  where
    c : BrokerClient
    c = b.clients client

-- The data that a client is given for an object.
pub obj_data : {W D : Type 0} → BrokerClientOps W D → State W → ℕ → Option D
obj_data client_ops s obj =
    if (s.mem obj).is_delete then client_ops.del_obj obj s.world else client_ops.add_obj obj s.world

module _ {W : Type 0} (ops : BrokerOps W) where
  unfoldable pub broker_add_obj : State W → ℕ → ℕ → State W
  broker_add_obj s new type = record {
    broker = record b {
      mem = update b.mem new (record { obj_type = type; flags = obj_flags; id = u64 (b.id + 1) });
      id = u64 (b.id + 1);
      b_obj_list = insert_tail b.b_obj_list new;
    };
    world = ops.lock_obj new s.world;
  }
    where
      b : Broker
      b = s.broker

  unfoldable pub broker_del_obj_now : State W → ℕ → State W
  broker_del_obj_now s entry = record {
    broker = record (s.broker) { b_obj_list = remove entry s.b_obj_list };
    world = ops.unlock_obj entry s.world;
  }

  unfoldable pub broker_del_obj : State W → ℕ → State W
  unfolding broker_del_obj_now move_to_top set_delete
  broker_del_obj s entry =
      if is_empty s.b_client_list
      then broker_del_obj_now s entry
      else record s { broker = move_to_top (set_delete s.broker entry true) entry }

  unfoldable pub broker_upd_obj : State W → ℕ → State W
  unfolding move_to_top set_delete
  broker_upd_obj s entry = record s {
    broker = move_to_top (if deleted then set_delete b entry false else b) entry;
  }
    where
      b : Broker
      b = s.broker

      deleted : Bool
      deleted = (b.mem entry).is_delete

  -- One step of the walk of `broker_client_delete`: an element that is an object marked as
  -- deleted goes if no client needs it.
  unfoldable pub release_unneeded : State W → ℕ → State W
  unfolding broker_del_obj_now
  release_unneeded s b_obj =
      if (s.mem b_obj).is_obj && (s.mem b_obj).is_delete && no_clients_need_this s.broker b_obj
      then broker_del_obj_now s b_obj
      else s

  -- The walk. When an element goes, the walk goes on from the one before it (CIRCLEQ_PREV), whose
  -- successor is then the next element of the list as it was.
  unfoldable pub release_walk : State W → List ℕ → State W
  unfolding release_unneeded
  release_walk s [] = s
  release_walk s (x ∷ xs) = release_walk (release_unneeded s x) xs

  unfoldable pub broker_client_delete : State W → ℕ → State W
  unfolding release_walk
  broker_client_delete s client = release_walk unlinked unlinked.b_obj_list
    where
      unlinked : State W
      unlinked = record s {
        broker = record (s.broker) {
          b_client_list = remove client s.b_client_list;
          b_obj_list = remove client s.b_obj_list;
        };
      }

  -- Behind the move in `broker_client_get_data`: an object whose deletion all have seen goes.
  unfoldable pub release_consumed : State W → ℕ → State W
  unfolding broker_del_obj_now
  release_consumed s obj =
      if (s.mem obj).is_delete && no_clients_need_this s.broker obj
      then broker_del_obj_now s obj
      else s

  -- The part of `broker_client_get_data` behind the call of `add_obj` or `del_obj`.
  unfoldable pub consume : State W → ℕ → ℕ → State W
  unfolding advance count_consumed release_consumed
  consume s client obj = record t { broker = count_consumed t.broker client }
    where
      t : State W
      t = release_consumed (record s { broker = advance s.broker client obj }) obj

  -- `none` is a client that is NULL.
  unfoldable pub broker_client_get_data :
      {D : Type 0} → BrokerClientOps W D → State W → Option ℕ → Option D × State W
  unfolding obj_data caught_up consume
  broker_client_get_data client_ops s none = (none, s)
  broker_client_get_data client_ops s (some client) =
      elim (broker_get_next_data_obj s.broker client) [
        | none ↦ (none, record s { broker = caught_up s.broker client })
        | some obj ↦ (obj_data client_ops s obj, consume s client obj)
      ]

unfoldable pub broker_seq_start : Broker → Option ℕ
broker_seq_start b = last b.b_obj_list

unfoldable pub broker_seq_next : Broker → ℕ → Option ℕ
broker_seq_next b broker_obj = prev broker_obj b.b_obj_list
