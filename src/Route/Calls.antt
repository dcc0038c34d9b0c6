-- ===== src/Route/Calls.antt =====
-- The calls of broker/route_broker.c as steps of one state: publishing, and the clients that come,
-- take data and go.
use vyatta_route_broker.Base.{
  ℕ, ◌≡◌, refl, Bool, true, false, [], Option, some, String, contains, All, All-at,
}
use vyatta_route_broker.Broker.Placed.{eq_refl}
use vyatta_route_broker.Zhash.{Zhash}
use vyatta_route_broker.Route.Types.{Callbacks, RouteBroker, at_level, route_priorities}
use vyatta_route_broker.Route.Client.{route_broker_client_get_data}
use vyatta_route_broker.Route.Setup.{
  create_level, create_levels, delete_levels, route_broker_client_create,
  route_broker_client_delete,
}
use vyatta_route_broker.Route.Publish.{object_broker_publish}
use vyatta_route_broker.Route.Sound.{RouteSound, Fresh, HasIds}
use vyatta_route_broker.Route.Sound.Whole.{NoOverridingDelete, object_broker_publish-RouteSound}
use vyatta_route_broker.Route.Sound.Clients.{At, get_data-RouteSound}
use vyatta_route_broker.Route.Sound.Served.{
  Served, SameClients-Served, publish-SameClients, get_data-SameClients,
}
use vyatta_route_broker.Route.Sound.Members.{NewClient, created-RouteSound, created-Served}
use vyatta_route_broker.Route.Sound.Leaves.{delete-RouteSound, deleted-Served}

-- The addresses are what `calloc` returns; `create` has besides whether `pthread_cond_init` fails.
pub data RouteCall (D : Type 0) : Type 0 where
  publish : D → ℕ → Option ℕ → RouteCall D
  get_data : ℕ → RouteCall D
  create : String → ℕ → (ℕ → ℕ) → Bool → RouteCall D
  delete : ℕ → RouteCall D

-- Between two calls: the brokers are sound, the table and the queues are in step, and the clients
-- on the list have a client in each broker, each its own.
pub record Consistent {H : Zhash} {D : Type 0} (rb : RouteBroker H D) : Type 0 where
  pub sound : RouteSound rb
  pub served : Served rb

module _ {H : Zhash} {D : Type 0} (cb : Callbacks D) where
  -- There are ids left, the addresses that the allocator returns are of no use yet, a client is on
  -- the list, and no delete is published at a higher priority than that of the route that its topic
  -- has. No caller of the source ensures the last; see Route/Publish/Orphan.antt.
  abbrev pub AllowedCall : RouteBroker H D → RouteCall D → Type 0
  AllowedCall rb (publish obj pri addr) =
      HasIds rb × ((a : ℕ) → addr ≡ some a → Fresh rb a) × NoOverridingDelete cb rb obj pri
  AllowedCall rb (get_data c) = contains c rb.client_list ≡ true
  AllowedCall rb (create name c addr cond_init) = NewClient rb c addr
  AllowedCall rb (delete c) = contains c rb.client_list ≡ true

  unfoldable pub route_step : RouteBroker H D → RouteCall D → RouteBroker H D
  route_step rb (publish obj pri addr) = object_broker_publish cb rb obj pri addr
  route_step rb (get_data c) = (route_broker_client_get_data cb [] rb c).1
  route_step rb (create name c addr cond_init) =
      (route_broker_client_create rb (some name) (some c) addr cond_init).0
  route_step rb (delete c) = route_broker_client_delete rb c

  -- The states that allowed calls lead to.
  pub data RouteReach (rb : RouteBroker H D) : RouteBroker H D → Type 0 where
    here : RouteReach rb rb
    more :
        {t : RouteBroker H D}
        → RouteReach rb t
        → (c : RouteCall D) → AllowedCall t c
        → RouteReach rb (route_step t c)

  pub Served-levels :
      {rb : RouteBroker H D} (c : ℕ)
      → Served rb
      → contains c rb.client_list ≡ true
      → All (At rb c) route_priorities
  Served-levels {rb} c s m =
      All-at (λ d. All (At rb d) route_priorities) rb.client_list c m s.members

  pub delete-Consistent :
      {rb : RouteBroker H D} (c : ℕ)
      → Consistent rb
      → contains c rb.client_list ≡ true
      → Consistent (route_broker_client_delete rb c)
  delete-Consistent c k m = record {
    sound = delete-RouteSound c k.sound (Served-levels c k.served m);
    served = deleted-Served c k.sound k.served m;
  }

  pub created-Consistent :
      {rb : RouteBroker H D} (name : String) (c : ℕ) (addr : ℕ → ℕ)
      → Consistent rb
      → NewClient rb c addr
      → Consistent (route_broker_client_create rb (some name) (some c) addr true).0
  created-Consistent name c addr k n = record {
    sound = created-RouteSound name c addr k.sound n;
    served = created-Served name c addr k.sound n k.served;
  }

  -- A creation that fails at the condition variable is one that succeeds and is undone.
  pub create_failed-delete :
      (rb : RouteBroker H D) (name : String) (c : ℕ) (addr : ℕ → ℕ)
      → (route_broker_client_create rb (some name) (some c) addr false).0
        ≡ route_broker_client_delete
            (route_broker_client_create rb (some name) (some c) addr true).0
            c
  unfolding route_broker_client_create route_broker_client_delete create_levels create_level
      delete_levels at_level
  create_failed-delete rb name c addr = rw (eq_refl c) refl

  pub create-listed :
      (rb : RouteBroker H D) (name : String) (c : ℕ) (addr : ℕ → ℕ)
      → contains c (route_broker_client_create rb (some name) (some c) addr true).0.client_list
        ≡ true
  unfolding route_broker_client_create create_levels create_level
  create-listed rb name c addr = rw (eq_refl c) refl

  -- Each allowed call of the route broker keeps its state in step.
  pub route_step-Consistent :
      (rb : RouteBroker H D) (c : RouteCall D)
      → Consistent rb
      → AllowedCall rb c
      → Consistent (route_step rb c)
  unfolding route_step
  route_step-Consistent rb (publish obj pri addr) k a = record {
    sound = object_broker_publish-RouteSound cb rb obj pri addr k.sound a.0 a.1 a.2;
    served = SameClients-Served (publish-SameClients cb rb obj pri addr) k.served;
  }
  route_step-Consistent rb (get_data c) k a = record {
    sound = get_data-RouteSound cb c k.sound (Served-levels c k.served a);
    served =
        SameClients-Served
          (get_data-SameClients cb rb c (λ i. (k.sound.levels i).inv) (Served-levels c k.served a))
          k.served;
  }
  route_step-Consistent rb (create name c addr true) k a = created-Consistent name c addr k a
  route_step-Consistent rb (create name c addr false) k a =
      rw (create_failed-delete rb name c addr)
        (delete-Consistent c (created-Consistent name c addr k a) (create-listed rb name c addr))
  route_step-Consistent rb (delete c) k a = delete-Consistent c k a

  -- In every state that calls of the route broker lead to from one that is in step, with ids left,
  -- memory that is not in use, clients on the list, and no delete published at a higher priority than
  -- that of the route that its topic then has, each broker is sound; each queued route has one reference and the priority of its queue, the table
  -- leads from its topic to it, and from nowhere to a route that is not queued; no queued route has
  -- been freed and no route has been freed twice; and each client on the list has its own client in each
  -- of the three brokers.
  pub RouteReach-Consistent :
      {rb t : RouteBroker H D} → Consistent rb → RouteReach rb t → Consistent t
  RouteReach-Consistent k here = k
  RouteReach-Consistent k (more {t} r c a) = route_step-Consistent t c (RouteReach-Consistent k r) a
