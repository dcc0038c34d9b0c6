-- ===== src/Route/Setup.antt =====
-- broker/route_broker.c: the clients of the three brokers come and go, and the checks of
-- `object_broker_init_all`.
use vyatta_route_broker.Base.{
  ℕ, ◌≡◌, refl, Bool, true, false, ◌&&◌, ◌||◌, not, List, [], ◌∷◌, Option, none, some, String, ◌==◌,
  if◌then◌else◌, contains, All, filter,
}
use vyatta_route_broker.Circleq.{remove}
use vyatta_route_broker.Broker.{Broker, broker_client_create, broker_client_delete}
use vyatta_route_broker.Broker.Invariant.{Inv, pending}
use vyatta_route_broker.Broker.Placed.{eq_refl}
use vyatta_route_broker.Broker.Moved.{
  start_id, start_id-starts, joined-Inv, broker_client_create-joined,
}
use vyatta_route_broker.Broker.Calls.{step, leave}
use vyatta_route_broker.Broker.Calls.Refinement.{pending-step}
use vyatta_route_broker.Broker.{State}
use vyatta_route_broker.Broker.Delivery.{pending-create}
use vyatta_route_broker.Zhash.{Zhash}
use vyatta_route_broker.Route.Types.{
  route_priorities, World, RouteBroker, route_broker_ops, at_level,
}
use vyatta_route_broker.Route.Client.{IsClient, level_pending}

-- What object_broker_init_all reads of its arguments: which callbacks are not NULL, and for each
-- client the type, and whether the file of its configuration and its callback are not NULL.
pub record ClientInit : Type 0 where
  pub is_dp_zsock : Bool
  pub cfg_file : Bool
  pub client_publish : Bool

pub record BrokerInit : Type 0 where
  pub topic_gen : Bool
  pub copy_obj : Bool
  pub free_obj : Bool

-- The checks in their order; `true` is -EINVAL.
unfoldable pub object_broker_init_all_einval :
    Option BrokerInit → ℕ → ClientInit → ClientInit → Bool
object_broker_init_all_einval none num_clients first second = true
object_broker_init_all_einval (some init) num_clients first second =
    if not init.topic_gen || not init.copy_obj || not init.free_obj
    then true
    else if not (num_clients == 1) && not (num_clients == 2)
    then true
    else if not first.is_dp_zsock || not first.cfg_file || not first.client_publish
    then true
    else num_clients == 2 && (second.is_dp_zsock || not second.client_publish)

create-Inv :
    (b : Broker) (c : ℕ) (n : String)
    → Inv b
    → contains c b.b_obj_list ≡ false
    → Inv (broker_client_create b true (some c) (some n)).0
      × (contains c (broker_client_create b true (some c) (some n)).0.b_client_list ≡ true)
create-Inv b c n v h =
    let starts = start_id-starts v in
    rw (broker_client_create-joined b c n h)
      (joined-Inv c n (start_id b) v h starts.0 starts.1, rw (eq_refl c) refl)

module _ {H : Zhash} {D : Type 0} where
  -- The `broker_client` of one priority; its memory, at the address `addr i`, is there.
  unfoldable pub create_level : RouteBroker H D → String → ℕ → (ℕ → ℕ) → ℕ → RouteBroker H D
  create_level rb name rclient addr i = record rb {
    route_broker = λ j.
        if i == j
        then (broker_client_create (rb.route_broker i) true (some (addr i)) (some name)).0
        else rb.route_broker j;
    level_client = λ r j. if rclient == r && i == j then addr i else rb.level_client r j;
  }

  unfoldable pub create_levels : RouteBroker H D → String → ℕ → (ℕ → ℕ) → List ℕ → RouteBroker H D
  unfolding create_level
  create_levels rb name rclient addr [] = rb
  create_levels rb name rclient addr (i ∷ is) =
      create_levels (create_level rb name rclient addr i) name rclient addr is

  unfoldable pub delete_levels : RouteBroker H D → ℕ → List ℕ → RouteBroker H D
  unfolding at_level route_broker_ops
  delete_levels rb rclient [] = rb
  delete_levels rb rclient (i ∷ is) =
      delete_levels
        (at_level rb i (λ s. broker_client_delete route_broker_ops s (rb.level_client rclient i)))
        rclient is

  -- `calloc` gives `rclient`; `cond_init` is that `pthread_cond_init` succeeds.
  unfoldable pub route_broker_client_create :
      RouteBroker H D → Option String → Option ℕ → (ℕ → ℕ) → Bool → RouteBroker H D × Option ℕ
  unfolding create_levels delete_levels
  route_broker_client_create rb none addr_rclient addr cond_init = (rb, none)
  route_broker_client_create rb (some name) none addr cond_init = (rb, none)
  route_broker_client_create rb (some name) (some rclient) addr cond_init =
      let t = create_levels rb name rclient addr route_priorities in
      if cond_init
      then (record t { client_list = rclient ∷ t.client_list }, some rclient)
      else (delete_levels t rclient route_priorities, none)

  unfoldable pub route_broker_client_delete : RouteBroker H D → ℕ → RouteBroker H D
  unfolding delete_levels
  route_broker_client_delete rb rclient =
      let t = delete_levels rb rclient route_priorities in
      record t { client_list = remove rclient t.client_list }

  -- Each broker is well formed, and the memory for its client is no element of its queue.
  abbrev pub Ready : RouteBroker H D → (ℕ → ℕ) → Type 0
  Ready rb addr =
      All
        (λ i. Inv (rb.route_broker i) × (contains (addr i) (rb.route_broker i).b_obj_list ≡ false))
        route_priorities

  -- A new client of the route broker, created over well-formed brokers when its memory is there,
  -- has a client in each broker, is on the list of those that are woken, and is given first what
  -- every queue holds.
  pub route_broker_client_create-IsClient :
      (rb : RouteBroker H D) (name : String) (rclient : ℕ) (addr : ℕ → ℕ)
      → Ready rb addr
      → let t = route_broker_client_create rb (some name) (some rclient) addr true in
        (t.1 ≡ some rclient)
        × IsClient t.0 rclient
        × (contains rclient t.0.client_list ≡ true)
        × All
            (λ i.
              level_pending t.0 rclient i
              ≡ filter (λ o. ((rb.route_broker i).mem o).is_obj) (rb.route_broker i).b_obj_list)
            route_priorities
  unfolding route_broker_client_create create_levels create_level
  route_broker_client_create-IsClient rb name rclient addr v =
      let new =
        (λ (i : ℕ)
            (p : Inv (rb.route_broker i)
              × (contains (addr i) (rb.route_broker i).b_obj_list ≡ false)).
          create-Inv (rb.route_broker i) (addr i) name p.0 p.1) in
      let told = (λ (i : ℕ) (p : contains (addr i) (rb.route_broker i).b_obj_list ≡ false).
        pending-create (rb.route_broker i) (addr i) name p) in
      rw (eq_refl rclient) (
        refl,
        (new 0 v.0, (new 1 v.1.0, (new 2 v.1.1.0, tt))),
        refl,
        (told 0 v.0.1, (told 1 v.1.0.1, (told 2 v.1.1.0.1, tt))),
      )

  -- The calls with which a client leaves a level, for one that stays.
  leave_pending :
      (s : State (World H D)) (c d : ℕ)
      → Inv s.broker
      → contains c s.b_client_list ≡ true
      → contains d s.b_client_list ≡ true
      → (d == c) ≡ false
      → pending (broker_client_delete route_broker_ops s c).broker d ≡ pending s.broker d
  unfolding step
  leave_pending s c d v m n ne =
      pending-step {D = D} route_broker_ops
        (record { add_obj = λ r w. none; del_obj = λ r w. none }) s (leave c) d v m n ne

  -- When a client of three well-formed brokers is removed, what is pending for another one stays
  -- as it is, at every priority.
  pub route_broker_client_delete-level_pending :
      (rb : RouteBroker H D) (rclient other : ℕ)
      → IsClient rb rclient
      → IsClient rb other
      → All (λ i. (rb.level_client other i == rb.level_client rclient i) ≡ false) route_priorities
      → All
          (λ i.
            level_pending (route_broker_client_delete rb rclient) other i
            ≡ level_pending rb other i)
          route_priorities
  unfolding route_broker_client_delete delete_levels at_level
  route_broker_client_delete-level_pending rb rclient other v o ne = (
    leave_pending _ (rb.level_client rclient 0) (rb.level_client other 0) v.0.0 v.0.1 o.0.1 ne.0,
    (
      leave_pending _ (rb.level_client rclient 1) (rb.level_client other 1) v.1.0.0 v.1.0.1 o.1.0.1
          ne.1.0,
      (
        leave_pending _ (rb.level_client rclient 2) (rb.level_client other 2) v.1.1.0.0 v.1.1.0.1
            o.1.1.0.1 ne.1.1.0,
        tt,
      ),
    ),
  )
