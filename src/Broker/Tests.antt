-- ===== src/Broker/Tests.antt =====
-- Small brokers on which the operations are run, and on which the theorems are applied.
use vyatta_route_broker.Base.{
  ℕ, ◌+◌, ◌-◌, ◌≡◌, refl, true, false, [], ◌∷◌, Option, some, arith, ◌==◌, if◌then◌else◌, contains,
}
use vyatta_route_broker.Broker.{
  Broker, Flags, State, BrokerOps, BrokerClientOps, obj_flags, client_flags, no_clients_need_this,
  broker_get_next_data_obj, broker_client_get_data,
}
use vyatta_route_broker.Broker.Invariant.{Inv, pending}
use vyatta_route_broker.Broker.Needs.{no_clients_need_this-is_wanted}
use vyatta_route_broker.Broker.Lifecycle.{
  BrokerTable, GivenOps, success, ops_given, broker_create, broker_delete, broker_delete-dangles,
}
use vyatta_route_broker.Broker.Delivery.{drain, get_data-front}
use vyatta_route_broker.Broker.Calls.{upd, del, step, here, more}
use vyatta_route_broker.Broker.Calls.Safety.{Sound, Reach-Sound}
use vyatta_route_broker.Broker.Calls.Refinement.{pending-step}

abbrev gone : Flags
gone = record obj_flags { is_delete = true }

-- The client 10 has yet to be told of the object 1 and of the deletion of the object 2.
abbrev two_objects : Broker
two_objects = record {
  b_obj_list = 10 ∷ 1 ∷ 2 ∷ [];
  b_client_list = 10 ∷ [];
  mem = λ x.
      if x == 10
      then record { obj_type = 0; flags = client_flags; id = 0 }
      else if x == 1
      then record { obj_type = 0; flags = obj_flags; id = 1 }
      else record { obj_type = 0; flags = gone; id = 2 };
  clients = λ _. record { name = "dp"; consumed = 0 };
  type_count = 1;
  id = 2;
}

abbrev start : State ℕ
start = record { broker = two_objects; world = 2 }

-- The callbacks count the references.
abbrev counting : BrokerOps ℕ
counting = record { lock_obj = λ _ n. n + 1; unlock_obj = λ _ n. n - 1 }

-- The data of an object is its address.
abbrev addresses : BrokerClientOps ℕ ℕ
addresses = record { add_obj = λ r _. some r; del_obj = λ r _. some r }

two_objects-Inv : Inv two_objects
two_objects-Inv = record {
  queue_distinct = refl;
  clients_distinct = refl;
  clients_queued = (refl, tt);
  known = ((refl, omega arith, refl), ((refl, omega arith, refl), ((refl, omega arith, refl), tt)));
  ordered = ((refl, (refl, tt)), ((refl, tt), (tt, tt)));
  top_fits = omega arith;
}

two_objects-Sound : Sound two_objects
two_objects-Sound = record { inv = two_objects-Inv; no_leak = (refl, (refl, (refl, tt))) }

-- The client is told of both objects; the second is then released.
told_of_both : (drain counting addresses 3 start 10).0 ≡ 1 ∷ 2 ∷ []
unfolding drain broker_client_get_data broker_get_next_data_obj no_clients_need_this
told_of_both = refl

released : (drain counting addresses 3 start 10).1.b_obj_list ≡ 1 ∷ 10 ∷ []
unfolding drain broker_client_get_data broker_get_next_data_obj no_clients_need_this
released = refl

pending-step_example : pending (step counting addresses start (upd 2)).broker 10 ≡ 1 ∷ 2 ∷ []
pending-step_example =
    pending-step counting addresses start (upd 2) 10 two_objects-Inv ((refl, refl), omega arith)
      refl tt

Reach-Sound_example : Sound (step counting addresses start (del 1)).broker
Reach-Sound_example =
    Reach-Sound counting addresses two_objects-Sound (more here (del 1) ((refl, refl), omega arith))

no_clients_need_this-is_wanted_example : no_clients_need_this two_objects 2 ≡ false
no_clients_need_this-is_wanted_example = no_clients_need_this-is_wanted 2 two_objects-Inv refl refl

get_data-front_example :
    ((broker_client_get_data counting addresses start (some 10)).0 ≡ some 1)
    × (pending (broker_client_get_data counting addresses start (some 10)).1.broker 10 ≡ 2 ∷ [])
get_data-front_example = get_data-front counting addresses start 10 two_objects-Inv refl

abbrev one_broker : BrokerTable
one_broker = record { inited = true; broker_list = 100 ∷ []; freed = [] }

abbrev all_given : Option GivenOps
all_given = some (record {
  obj_to_broker_obj = true;
  broker_obj_to_obj = true;
  lock_obj = true;
  unlock_obj = true;
})

all_given-yes : ops_given all_given ≡ true
unfolding ops_given
all_given-yes = refl

broker_delete-dangles_example :
    let c = broker_create one_broker all_given 1 (some 200) in
    let u = broker_delete c.0 c.1 in
    let w = (broker_create u.0 all_given 1 (some 300)).0 in
    (u.1 ≡ success)
    × (contains 200 u.0.freed ≡ true)
    × (contains 200 u.0.broker_list ≡ true)
    × (contains 200 w.broker_list ≡ true)
broker_delete-dangles_example =
    broker_delete-dangles one_broker all_given all_given 1 1 200 (some 300) all_given-yes
      (λ e. ground arith)
