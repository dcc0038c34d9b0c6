-- ===== src/Route/SyncTests.antt =====
-- A client that follows a route broker with one route: it reads the route, which is then replaced.
use mathlib.Core.Path.{subst}
use vyatta_route_broker.Base.{
  ℕ, [], ◌<◌, ◌≡◌, refl, inl, inr, false, none, some, Option, String, arith, ◌==◌, Bool-cases,
}
use vyatta_route_broker.Broker.{
  broker_del_obj_now, broker_add_obj, broker_client_create, broker_client_get_data,
  broker_has_more_data, broker_get_next_data_obj, first_obj, consume, caught_up, advance,
  count_consumed, release_consumed,
}
use vyatta_route_broker.Zhash.Assoc.{assoc_zhash}
use vyatta_route_broker.Route.Types.{
  rib_route_unlock, rib_route_delete, free_data, free_route, RouteBroker, at_level,
  route_broker_ops, rib_route_lock,
}
use vyatta_route_broker.Route.Client.{
  route_broker_wake_clients, route_broker_client_get_data, data_available_for_client, first_behind,
  take_data,
}
use vyatta_route_broker.Route.Publish.{
  object_broker_publish, publish_copy, publish_route, publish_update, new_route, hash_insert,
  add_route, force_out,
}
use vyatta_route_broker.Route.Setup.{create_level, create_levels, route_broker_client_create}
use vyatta_route_broker.Route.Sound.{Fresh, HasIds}
use vyatta_route_broker.Route.Calls.{publish, route_step, AllowedCall, route_step-Consistent}
use vyatta_route_broker.Route.Drain.{rounds}
use vyatta_route_broker.Route.View.{view}
use vyatta_route_broker.Route.Sync.{live, receive, Described}
use vyatta_route_broker.Route.Sync.Published.{object_broker_publish-Described}
use vyatta_route_broker.Route.Sync.Follow.{Follow, start, read}
use vyatta_route_broker.Route.Sync.Replica.{Follow-live}
use vyatta_route_broker.Route.Sync.CatchUp.{catch_up, catch_up-live, catch_up-object_broker_publish}
use vyatta_route_broker.Route.SoundTests.{
  updates, empty, empty-Consistent, empty-HasIds, no_deletes, one_route, sevens, client-NewClient,
  with_client,
}

first_allowed : AllowedCall updates empty (publish 7 1 (some 5))
first_allowed =
    (empty-HasIds, (λ a e. record { unqueued = λ i. refl; not_freed = refl }), no_deletes empty 1)

empty-Described : Described updates (view empty)
empty-Described t s e = cc

one_route-Described : Described updates (view one_route)
unfolding route_step
one_route-Described =
    object_broker_publish-Described updates 7 1 (some 5) empty-Consistent.sound first_allowed.0
      first_allowed.1 first_allowed.2 refl empty-Described

abbrev nothing : String → Option ℕ
nothing t = none

followed : Follow updates 1 with_client nothing
unfolding route_step
followed =
    start one_route "dp" sevens
      (route_step-Consistent updates empty (publish 7 1 (some 5)) empty-Consistent first_allowed)
      one_route-Described client-NewClient

abbrev got : Option ℕ × RouteBroker assoc_zhash ℕ
got = route_broker_client_get_data updates [] with_client 1

nothing_left : data_available_for_client got.1 1 ≡ none
unfolding route_step object_broker_publish publish_copy publish_route publish_update new_route
    hash_insert add_route at_level broker_add_obj route_broker_ops rib_route_lock
    route_broker_wake_clients route_broker_client_create create_levels create_level
    broker_client_create broker_has_more_data broker_get_next_data_obj first_obj
    route_broker_client_get_data data_available_for_client first_behind take_data
    broker_client_get_data consume caught_up advance count_consumed release_consumed
nothing_left = refl

few : rounds with_client 1 < 5
unfolding route_step object_broker_publish publish_copy publish_route publish_update new_route
    hash_insert add_route at_level broker_add_obj route_broker_ops rib_route_lock
    route_broker_wake_clients route_broker_client_create create_levels create_level
    broker_client_create broker_has_more_data broker_get_next_data_obj first_obj
few = omega arith

with_client-HasIds : HasIds with_client
unfolding route_step object_broker_publish publish_copy publish_route publish_update new_route
    hash_insert add_route at_level broker_add_obj route_broker_ops rib_route_lock
    route_broker_wake_clients route_broker_client_create create_levels create_level
    broker_client_create broker_has_more_data broker_get_next_data_obj first_obj
with_client-HasIds i = elim (Bool-cases (2 == i)) [
  | inl e ↦ rw e (omega arith)
  | inr e ↦ elim (Bool-cases (1 == i)) [
    | inl x ↦ rw (e, x) (omega arith)
    | inr x ↦ elim (Bool-cases (0 == i)) [
      | inl y ↦ rw (e, x, y) (omega arith)
      | inr y ↦ rw (e, x, y) (omega arith)
    ]
  ]
]

with_client-Fresh : Fresh with_client 6
unfolding route_step object_broker_publish publish_copy publish_route publish_update new_route
    hash_insert add_route at_level broker_add_obj route_broker_ops rib_route_lock
    route_broker_wake_clients route_broker_client_create create_levels create_level
    broker_client_create broker_has_more_data broker_get_next_data_obj first_obj
with_client-Fresh = record {
  not_freed = refl;
  unqueued = λ i. elim (Bool-cases (2 == i)) [
    | inl e ↦ rw e refl
    | inr e ↦ elim (Bool-cases (1 == i)) [
      | inl x ↦ rw (e, x) refl
      | inr x ↦ elim (Bool-cases (0 == i)) [ inl y ↦ rw (e, x, y) refl | inr y ↦ rw (e, x, y) refl ]
    ]
  ];
}

-- The same topic is published again, at a higher priority.
replaced_allowed : AllowedCall updates with_client (publish 7 0 (some 6))
replaced_allowed = (
  with_client-HasIds,
  (λ a e. let same : 6 ≡ a = cc in subst (Fresh with_client) same with_client-Fresh),
  no_deletes with_client 0,
)

few_replaced : rounds (object_broker_publish updates with_client 7 0 (some 6)) 1 < 9
unfolding route_step object_broker_publish publish_copy publish_route publish_update new_route
    hash_insert add_route at_level broker_add_obj route_broker_ops rib_route_lock
    route_broker_wake_clients route_broker_client_create create_levels create_level
    broker_client_create broker_has_more_data broker_get_next_data_obj first_obj force_out
    broker_del_obj_now rib_route_unlock rib_route_delete free_data free_route
few_replaced = omega arith

Follow-live_example :
    receive updates nothing got.0 "r 10.0.0.0/8" ≡ live (view got.1 "r 10.0.0.0/8")
Follow-live_example = Follow-live updates 1 "r 10.0.0.0/8" (λ d. refl) (read followed) nothing_left

catch_up-live_example :
    (catch_up updates 1 5 with_client nothing).1 "r 10.0.0.0/8"
    ≡ live (view with_client "r 10.0.0.0/8")
catch_up-live_example =
    catch_up-live updates 1 5 with_client nothing "r 10.0.0.0/8" (λ d. refl) followed few

catch_up-object_broker_publish_example :
    (catch_up updates 1 9 (object_broker_publish updates with_client 7 0 (some 6)) nothing).1
      "r 10.0.0.0/8"
    ≡ some 7
catch_up-object_broker_publish_example =
    catch_up-object_broker_publish updates 1 9 with_client nothing 7 0 6 "r 10.0.0.0/8" false
      (λ d. refl) followed replaced_allowed refl refl few_replaced
