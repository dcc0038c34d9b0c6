-- ===== src/Route/SoundTests.antt =====
-- The route broker from its start: an update is published, and a client comes.
use vyatta_route_broker.Base.{
  All-at, contains, All, ℕ, ◌+◌, ◌≡◌, refl, inl, inr, true, false, [], Option, some, arith, ◌==◌,
  if◌then◌else◌, Bool-cases,
}
use vyatta_route_broker.Broker.Lifecycle.{BrokerTable, new_broker}
use vyatta_route_broker.Broker.{broker_add_obj}
use vyatta_route_broker.Zhash.Assoc.{assoc_zhash}
use vyatta_route_broker.Route.Types.{
  Callbacks, RibRoute, RouteBroker, at_level, route_priorities, route_broker_ops, rib_route_lock,
}
use vyatta_route_broker.Route.Client.{route_broker_wake_clients, route_broker_client_get_data}
use vyatta_route_broker.Route.Publish.{
  object_broker_publish, publish_copy, publish_route, publish_update, new_route, hash_insert,
  add_route,
}
use vyatta_route_broker.Route.Sound.{Fresh, HasIds}
use vyatta_route_broker.Route.Sound.Whole.{NoOverridingDelete}
use vyatta_route_broker.Route.Sound.Members.{NewClient}
use vyatta_route_broker.Route.Calls.{
  Consistent, RouteReach, publish, create, here, more, route_step, RouteReach-Consistent,
}
use vyatta_route_broker.Route.Init.{
  route_broker_types_max, started, started-Consistent, Started, route_broker_init,
  route_broker_init-Started,
}
use vyatta_route_broker.Route.View.{view, unwatched, after_message, message}
use vyatta_route_broker.Route.View.Read.{KeptOrGone, get_data-KeptOrGone}
use vyatta_route_broker.Route.Sound.Clients.{At}
use vyatta_route_broker.Route.Setup.{create_level, create_levels, route_broker_client_create}
use vyatta_route_broker.Route.View.Whole.{object_broker_publish-view}

-- Every object is an update of its topic.
abbrev pub updates : Callbacks ℕ
updates = record {
  copy_obj = λ d. some d;
  topic_gen = λ d. some (if d == 7 then "r 10.0.0.0/8" else "r 0.0.0.0/0", false);
}

abbrev no_route : RibRoute ℕ
no_route = record { refcount = 0; pri = 0; topic = ""; payload = 0 }

abbrev pub empty : RouteBroker assoc_zhash ℕ
empty = started (λ i. some (0, new_broker route_broker_types_max)) (λ r. no_route)

pub empty-Consistent : Consistent empty
empty-Consistent =
    started-Consistent (λ i. some (0, new_broker route_broker_types_max)) (λ r. no_route)
      (λ i. refl)

pub empty-HasIds : HasIds empty
empty-HasIds i = omega arith

pub empty-Fresh : Fresh empty 5
empty-Fresh = record { unqueued = λ i. refl; not_freed = refl }

pub no_deletes : (rb : RouteBroker assoc_zhash ℕ) (pri : ℕ) → NoOverridingDelete updates rb 7 pri
no_deletes rb pri d topic c g = absurd (ground arith)

-- The route 5 of the object 7 is published with priority 1.
abbrev pub one_route : RouteBroker assoc_zhash ℕ
one_route = route_step updates empty (publish 7 1 (some 5))

abbrev pub sevens : ℕ → ℕ
sevens i = 70

pub client-NewClient : NewClient one_route 1 sevens
unfolding route_step object_broker_publish publish_copy publish_route publish_update new_route
    hash_insert add_route at_level broker_add_obj route_broker_ops rib_route_lock
    route_broker_wake_clients
client-NewClient = record {
  unlisted = refl;
  unqueued = λ i. elim (Bool-cases (1 == i)) [ inl e ↦ rw e refl | inr e ↦ rw e refl ];
}

reached : RouteReach updates empty (route_step updates one_route (create "dp" 1 sevens true))
reached =
    more
      (more here (publish 7 1 (some 5)) (
        empty-HasIds,
        (λ a e. record { unqueued = λ i. refl; not_freed = refl }),
        no_deletes empty 1,
      ))
      (create "dp" 1 sevens true) client-NewClient

RouteReach-Consistent_example :
    Consistent (route_step updates one_route (create "dp" 1 sevens true))
RouteReach-Consistent_example = RouteReach-Consistent updates empty-Consistent reached

object_broker_publish-view_example :
    view (object_broker_publish updates empty 7 1 (some 5)) "r 10.0.0.0/8"
    ≡ after_message (unwatched empty) 1 (message updates 7) (view empty) "r 10.0.0.0/8"
object_broker_publish-view_example =
    object_broker_publish-view updates empty 7 1 5 "r 10.0.0.0/8" empty-Consistent.sound
      empty-HasIds empty-Fresh

abbrev no_brokers : BrokerTable
no_brokers = record { inited = false; broker_list = []; freed = [] }

abbrev at_hundred : ℕ → Option ℕ
at_hundred i = some (100 + i)

route_broker_init-Started_example :
    Started (route_broker_init {H = assoc_zhash} no_brokers at_hundred (λ r. no_route))
route_broker_init-Started_example =
    route_broker_init-Started assoc_zhash no_brokers at_hundred (λ r. no_route)
      (refl, (refl, (refl, tt)))

-- The client reads the route.
abbrev pub with_client : RouteBroker assoc_zhash ℕ
with_client = route_step updates one_route (create "dp" 1 sevens true)

pub with_client-Consistent : Consistent with_client
with_client-Consistent = RouteReach-Consistent updates empty-Consistent reached

pub client_listed : contains 1 with_client.client_list ≡ true
unfolding route_step route_broker_client_create create_levels create_level
client_listed = refl

get_data-KeptOrGone_example :
    KeptOrGone with_client (route_broker_client_get_data updates [] with_client 1).1 "r 10.0.0.0/8"
get_data-KeptOrGone_example =
    get_data-KeptOrGone updates with_client 1 "r 10.0.0.0/8" with_client-Consistent.sound (
      All-at (λ d. All (At with_client d) route_priorities) with_client.client_list 1 client_listed
        with_client-Consistent.served.members)
