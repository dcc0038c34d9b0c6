-- ===== src/Route/Tests.antt =====
-- A small state of the three brokers, on which the
-- theorems are applied.
use vyatta_route_broker.Base.{
  filter, ℕ, ◌<◌, ◌≡◌, refl, true, [], ◌∷◌, none, some, arith, ◌==◌, if◌then◌else◌, contains, All,
}
use vyatta_route_broker.Broker.{broker_seq_start, Broker, obj_flags, client_flags}
use vyatta_route_broker.Broker.Invariant.{Inv}
use vyatta_route_broker.Zhash.Assoc.{find, assoc_zhash}
use vyatta_route_broker.Route.Drain.{drain_levels}
use vyatta_route_broker.Route.Drain.Rounds.{drain_levels-all_pending}
use vyatta_route_broker.Route.Types.{Callbacks, World, RouteBroker, route_priorities}
use vyatta_route_broker.Route.Client.{
  IsClient, level_pending, data_available_for_client, route_broker_wake_clients, waits-pending,
  serves_highest, wakes-pending,
}
use vyatta_route_broker.Route.Setup.{
  route_broker_client_create, route_broker_client_delete, route_broker_client_create-IsClient,
  route_broker_client_delete-level_pending,
}
use vyatta_route_broker.Route.Show.{
  processed, priority, total_objects, route_broker_seq_first, show_loop, route_broker_show,
}
use vyatta_route_broker.Route.Publish.{publish_delete}
use vyatta_route_broker.Route.Publish.Orphan.{publish_delete-orphan}

-- A client 10 that has yet to be told of the object 5.
abbrev one_left : Broker
one_left = record {
  b_obj_list = 10 ∷ 5 ∷ [];
  b_client_list = 10 ∷ [];
  mem = λ x.
      if x == 10
      then record { obj_type = 0; flags = client_flags; id = 0 }
      else record { obj_type = 0; flags = obj_flags; id = 1 };
  clients = λ _. record { name = "dp"; consumed = 0 };
  type_count = 1;
  id = 1;
}

-- The client when there is nothing for it.
abbrev nothing_left : Broker
nothing_left = record one_left {
  b_obj_list = 10 ∷ [];
  mem = λ _. record { obj_type = 0; flags = client_flags; id = 1 };
}

one_left-Inv : Inv one_left
one_left-Inv = record {
  queue_distinct = refl;
  clients_distinct = refl;
  clients_queued = (refl, tt);
  known = ((refl, omega arith, refl), ((refl, omega arith, refl), tt));
  ordered = ((refl, tt), (tt, tt));
  top_fits = omega arith;
}

nothing_left-Inv : Inv nothing_left
nothing_left-Inv = record {
  queue_distinct = refl;
  clients_distinct = refl;
  clients_queued = (refl, tt);
  known = ((refl, omega arith, refl), tt);
  ordered = (tt, tt);
  top_fits = omega arith;
}

-- The route 5 of priority 2 is known by its topic; the route 6 has the same topic.
abbrev shared : World assoc_zhash ℕ
shared = record {
  rib_route = λ r. record {
    refcount = 1;
    pri = if r == 5 then 2 else 0;
    topic = "r 10.0.0.0/8";
    payload = r;
  };
  route_hashtbl = ("r 10.0.0.0/8", 5) ∷ [];
  freed_routes = [];
  freed_data = [];
}

abbrev calm : RouteBroker assoc_zhash ℕ
calm = record {
  route_broker = λ i. nothing_left;
  world = shared;
  client_list = 1 ∷ [];
  level_client = λ c i. 10;
  signalled = [];
  processed_msg = 0;
  ignored_msg = 0;
  dropped_msg = 0;
}

abbrev busy : RouteBroker assoc_zhash ℕ
busy = record calm { route_broker = λ i. if i == 2 then one_left else nothing_left }

waits-pending_example : All (λ i. level_pending calm 1 i ≡ []) route_priorities
unfolding data_available_for_client
waits-pending_example =
    waits-pending calm 1
      ((nothing_left-Inv, refl), ((nothing_left-Inv, refl), ((nothing_left-Inv, refl), tt))) refl

busy-IsClient : IsClient busy 1
busy-IsClient = ((nothing_left-Inv, refl), ((nothing_left-Inv, refl), ((one_left-Inv, refl), tt)))

serves_highest_example : (2 < 3) × (level_pending busy 1 1 ≡ [])
unfolding data_available_for_client
serves_highest_example = serves_highest busy 1 2 1 busy-IsClient refl (omega arith)

wakes-pending_example : contains 1 (route_broker_wake_clients busy).signalled ≡ true
wakes-pending_example = wakes-pending busy 1 busy-IsClient refl (λ all. cc (all.1.1.0))

abbrev copies : Callbacks ℕ
copies = record { copy_obj = λ d. some d; topic_gen = λ d. none }

drain_levels-all_pending_example :
    ((drain_levels copies 5 busy 1).0 ≡ (busy.rib_route 5).payload ∷ [])
    × (data_available_for_client (drain_levels copies 5 busy 1).1 1 ≡ none)
drain_levels-all_pending_example =
    drain_levels-all_pending copies 5 busy 1 (λ d. refl) busy-IsClient (omega arith)

publish_delete-orphan_example :
    let t = publish_delete busy 6 0 (some 5) in
    (find t.route_hashtbl "r 10.0.0.0/8" ≡ none)
    × (contains 6 (t.route_broker 0).b_obj_list ≡ true)
    × (((t.route_broker 0).mem 6).is_delete ≡ true)
publish_delete-orphan_example = publish_delete-orphan busy 6 5 0 (omega arith) refl refl refl

-- No client: the route of priority 2 is not shown.
abbrev unseen : RouteBroker assoc_zhash ℕ
unseen = record calm {
  route_broker = λ i.
      if i == 2
      then record one_left { b_obj_list = 5 ∷ []; b_client_list = [] }
      else record nothing_left { b_obj_list = []; b_client_list = [] };
}

unseen-run :
    route_broker_show 9 (λ c. 0) unseen
    ≡ processed calm.processed_msg ∷ priority 0 nothing_left.id ∷ total_objects 0 ∷ []
unfolding route_broker_show show_loop route_broker_seq_first broker_seq_start
unseen-run = refl

abbrev eleven : ℕ → ℕ
eleven _ = 11

abbrev with_new : RouteBroker assoc_zhash ℕ
with_new = (route_broker_client_create busy (some "kernel") (some 2) eleven true).0

route_broker_client_create-IsClient_example :
    ((route_broker_client_create busy (some "kernel") (some 2) eleven true).1 ≡ some 2)
    × IsClient with_new 2
    × (contains 2 with_new.client_list ≡ true)
    × All
        (λ i.
          level_pending with_new 2 i
          ≡ filter (λ o. ((busy.route_broker i).mem o).is_obj) (busy.route_broker i).b_obj_list)
        route_priorities
route_broker_client_create-IsClient_example =
    route_broker_client_create-IsClient busy "kernel" 2 eleven
      ((nothing_left-Inv, refl), ((nothing_left-Inv, refl), ((one_left-Inv, refl), tt)))

-- Two clients, one of which has been told of the object 5.
abbrev two_clients : Broker
two_clients = record one_left {
  b_obj_list = 10 ∷ 5 ∷ 11 ∷ [];
  b_client_list = 11 ∷ 10 ∷ [];
  mem = λ x.
      if x == 10
      then record { obj_type = 0; flags = client_flags; id = 0 }
      else if x == 11
      then record { obj_type = 0; flags = client_flags; id = 1 }
      else record { obj_type = 0; flags = obj_flags; id = 1 };
}

two_clients-Inv : Inv two_clients
two_clients-Inv = record {
  queue_distinct = refl;
  clients_distinct = refl;
  clients_queued = (refl, (refl, tt));
  known = ((refl, omega arith, refl), ((refl, omega arith, refl), ((refl, omega arith, refl), tt)));
  ordered = ((refl, (refl, tt)), ((refl, tt), (tt, tt)));
  top_fits = omega arith;
}

-- The client 1 has the address 10 in each broker, the others have 11.
abbrev paired : RouteBroker assoc_zhash ℕ
paired = record calm {
  route_broker = λ i. two_clients;
  level_client = λ c i. if c == 1 then 10 else 11;
}

route_broker_client_delete-level_pending_example :
    All
      (λ i. level_pending (route_broker_client_delete paired 2) 1 i ≡ level_pending paired 1 i)
      route_priorities
route_broker_client_delete-level_pending_example =
    route_broker_client_delete-level_pending paired 2 1
      ((two_clients-Inv, refl), ((two_clients-Inv, refl), ((two_clients-Inv, refl), tt)))
      ((two_clients-Inv, refl), ((two_clients-Inv, refl), ((two_clients-Inv, refl), tt)))
      (refl, (refl, (refl, tt)))
