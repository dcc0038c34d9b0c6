-- ===== src/Route/Init.antt =====
-- broker/route_broker.c: `route_broker_init` and `route_broker_destroy`, with the list of all brokers.
use mathlib.Core.Path.{subst}
use vyatta_route_broker.Base.{
  ℕ, ◌⊎◌, arith, contains, ◌≡◌, refl, ap, inl, inr, Bool, true, false, List, [], ◌∷◌, Option, none,
  some, ◌==◌, if◌then◌else◌, All, Option-cases, Bool-cases, is_some,
}
use vyatta_route_broker.Broker.{Broker, update}
use vyatta_route_broker.Broker.Lifecycle.{
  GivenOps, BrokerTable, Rc, success, broker_create, broker_delete, new_broker, ops_given,
  new_broker-Sound, enoent, enotempty,
}
use vyatta_route_broker.Zhash.{Zhash}
use vyatta_route_broker.Route.Types.{RibRoute, RouteBroker, route_priorities}
use vyatta_route_broker.Route.Sound.{queues}
use vyatta_route_broker.Broker.Holds.{holds}
use vyatta_route_broker.Route.Calls.{Consistent}

-- ROUTE_BROKER_TYPES_MAX
abbrev pub route_broker_types_max : ℕ
route_broker_types_max = 1

-- `route_broker_ops` has all four callbacks.
abbrev all_given : GivenOps
all_given = record {
  obj_to_broker_obj = true;
  broker_obj_to_obj = true;
  lock_obj = true;
  unlock_obj = true;
}

-- `route_broker`: the brokers of the priorities with their addresses, `none` for NULL.
abbrev pub Brokers : Type 0
Brokers = ℕ → Option (ℕ × Broker)

-- As the process starts.
abbrev pub null_brokers : Brokers
null_brokers i = none

-- The loop; `addr` is what `calloc` returns for each broker. `none` is the failed `assert`.
unfoldable create_brokers :
    BrokerTable → (ℕ → Option ℕ) → List ℕ → Brokers → Option (BrokerTable × Brokers)
create_brokers t addr [] bs = some (t, bs)
create_brokers t addr (i ∷ is) bs =
    let r = broker_create t (some all_given) route_broker_types_max (addr i) in
    elim (r.1) [ none ↦ none | some b ↦ create_brokers r.0 addr is (update bs i (some b)) ]

-- A broker that is not empty ends the loop of `route_broker_destroy`, those before it freed.
unfoldable destroy_brokers : BrokerTable → Brokers → List ℕ → BrokerTable × Rc
destroy_brokers t bs [] = (t, success)
destroy_brokers t bs (i ∷ is) =
    let r = broker_delete t (bs i) in
    elim (r.1) [
      | success ↦ destroy_brokers r.0 bs is
      | enoent ↦ (r.0, enoent)
      | enotempty ↦ (r.0, enotempty)
    ]

-- With whether the table of topics is destroyed.
unfoldable pub route_broker_destroy : BrokerTable → Brokers → BrokerTable × Rc × Bool
unfolding destroy_brokers
route_broker_destroy t bs =
    let r = destroy_brokers t bs route_priorities in
    elim (r.1) [
      | success ↦ (r.0, success, true)
      | enoent ↦ (r.0, enoent, false)
      | enotempty ↦ (r.0, enotempty, false)
    ]

-- A broker that is there, as `broker_create` makes it.
abbrev IsNew : Option (ℕ × Broker) → Type 0
IsNew o = (a : ℕ) × (o ≡ some (a, new_broker route_broker_types_max))

-- What is read through the pointer of a priority. NULL is not read by the source; the state has a
-- broker without elements in its place.
abbrev pub broker_at : Option (ℕ × Broker) → Broker
broker_at none = new_broker route_broker_types_max
broker_at (some (a, b)) = b

abbrev NoneOrNew : Brokers → Type 0
NoneOrNew bs = (i : ℕ) → broker_at (bs i) ≡ new_broker route_broker_types_max

-- The brokers of a list are new behind the loop, and those that were new are.
abbrev NewBrokers : Brokers → List ℕ → Option (BrokerTable × Brokers) → Type 0
NewBrokers bs l none = ⊥
NewBrokers bs l (some (u, cs)) =
    NoneOrNew cs × ((j : ℕ) → IsNew (bs j) ⊎ (contains j l ≡ true) → IsNew (cs j))

update-NoneOrNew :
    (bs : Brokers) (i a : ℕ)
    → NoneOrNew bs
    → NoneOrNew (update bs i (some (a, new_broker route_broker_types_max)))
update-NoneOrNew bs i a n j = elim (Bool-cases (i == j)) [ inl e ↦ rw e refl | inr e ↦ rw e (n j) ]

update-IsNew :
    (bs : Brokers) (i a j : ℕ) (is : List ℕ)
    → IsNew (bs j) ⊎ (contains j (i ∷ is) ≡ true)
    → IsNew (update bs i (some (a, new_broker route_broker_types_max)) j) ⊎ (contains j is ≡ true)
update-IsNew bs i a j is h = elim (Bool-cases (i == j)) [
  | inl e ↦ inl (a, rw e refl)
  | inr e ↦ elim h [ inl k ↦ inl (k.0, rw e (k.1)) | inr c ↦ inr (ground arith) ]
]

-- Each `calloc` that succeeds gives a new broker.
broker_create-given :
    (t : BrokerTable) (o : Option ℕ) (a : ℕ)
    → o ≡ some a
    → broker_create t (some all_given) route_broker_types_max o ≡ (
      record t { inited = true; broker_list = a ∷ (if t.inited then t.broker_list else []) },
      some (a, new_broker route_broker_types_max),
    )
unfolding broker_create ops_given
broker_create-given t o a e = rw e refl

broker_delete-given :
    (t : BrokerTable) (p : Option (ℕ × Broker)) → IsNew p → (broker_delete t p).1 ≡ success
unfolding broker_delete
broker_delete-given t p n = rw (n.1) refl

create_brokers-NewBrokers :
    (t : BrokerTable) (addr : ℕ → Option ℕ) (l : List ℕ) (bs : Brokers)
    → All (λ i. is_some (addr i) ≡ true) l
    → NoneOrNew bs
    → NewBrokers bs l (create_brokers t addr l bs)
unfolding create_brokers
create_brokers-NewBrokers t addr [] bs m n =
    (n, λ j h. elim h [ inl k ↦ k | inr c ↦ absurd (cc c) ])
create_brokers-NewBrokers t addr (i ∷ is) bs m n = elim (Option-cases (addr i)) [
  | inl e ↦ cc (m.0, e)
  | inr (a, e) ↦
      let u : BrokerTable = record t {
        inited = true;
        broker_list = a ∷ (if t.inited then t.broker_list else []);
      } in
      let cs : Brokers = update bs i (some (a, new_broker route_broker_types_max)) in
      rw (broker_create-given t (addr i) a e, create_brokers)
        (rw (broker_create-given t (addr i) a e) (
          widen bs cs i is (create_brokers u addr is cs) (λ j. update-IsNew bs i a j is)
            (create_brokers-NewBrokers u addr is cs m.1 (update-NoneOrNew bs i a n))))
]
  where
    widen :
        (bs cs : Brokers) (i : ℕ) (is : List ℕ) (r : Option (BrokerTable × Brokers))
        → ((j : ℕ)
            → IsNew (bs j) ⊎ (contains j (i ∷ is) ≡ true)
            → IsNew (cs j) ⊎ (contains j is ≡ true))
        → NewBrokers cs is r
        → NewBrokers bs (i ∷ is) r
    widen bs cs i is none h k = k
    widen bs cs i is (some (u, ds)) h k = (k.0, λ j x. k.1 j (h j x))

destroy_brokers-success :
    (t : BrokerTable) (bs : Brokers) (l : List ℕ)
    → All (λ i. IsNew (bs i)) l
    → (destroy_brokers t bs l).1 ≡ success
unfolding destroy_brokers
destroy_brokers-success t bs [] n = refl
destroy_brokers-success t bs (i ∷ is) n =
    rw (broker_delete-given t (bs i) n.0, destroy_brokers)
      (destroy_brokers-success (broker_delete t (bs i)).0 bs is n.1)

destroy-success :
    (t : BrokerTable) (bs : Brokers)
    → All (λ i. IsNew (bs i)) route_priorities
    → ((route_broker_destroy t bs).1 ≡ success) × ((route_broker_destroy t bs).2 ≡ true)
unfolding route_broker_destroy
destroy-success t bs n =
    rw (destroy_brokers-success t bs route_priorities n, route_broker_destroy) (refl, refl)

module _ {H : Zhash} {D : Type 0} where
  -- `rib` is the memory of the routes, of which none is in use.
  unfoldable pub route_broker_init :
      BrokerTable
      → (ℕ → Option ℕ)
      → (ℕ → RibRoute D)
      → Option (BrokerTable × Brokers × RouteBroker H D)
  unfolding create_brokers
  route_broker_init t addr rib = elim (create_brokers t addr route_priorities null_brokers) [
    | none ↦ none
    | some (u, bs) ↦ some (
      u,
      bs,
      record {
        route_broker = λ i. broker_at (bs i);
        world = record {
          rib_route = rib;
          route_hashtbl = H.new;
          freed_routes = [];
          freed_data = [];
        };
        client_list = [];
        level_client = λ c i. 0;
        signalled = [];
        processed_msg = 0;
        ignored_msg = 0;
        dropped_msg = 0;
      },
    )
  ]

  abbrev pub started : Brokers → (ℕ → RibRoute D) → RouteBroker H D
  started bs rib = record {
    route_broker = λ i. broker_at (bs i);
    world = record { rib_route = rib; route_hashtbl = H.new; freed_routes = []; freed_data = [] };
    client_list = [];
    level_client = λ c i. 0;
    signalled = [];
    processed_msg = 0;
    ignored_msg = 0;
    dropped_msg = 0;
  }

  pub started-Consistent :
      (bs : Brokers) (rib : ℕ → RibRoute D) → NoneOrNew bs → Consistent (started bs rib)
  started-Consistent bs rib n = record {
    sound = record {
      levels = λ i. rw (n i) (new_broker-Sound route_broker_types_max);
      tabled = record {
        counted = λ i r h. absurd (nothing i r h);
        leveled = λ i r h. absurd (nothing i r h);
        known = λ i r h. absurd (nothing i r h);
        found = λ t r h. absurd (cc (H.lookup-new t, h));
        alive = λ i r h. refl;
        freed_once = refl;
      };
    };
    served = record { members = tt; apart = λ c d h. cc h; listed_once = refl };
  }
    where
      nothing : (i r : ℕ) → queues (started bs rib) i r ≡ true → ⊥
      nothing i r h = cc (ap (λ b. holds b r) (n i), h)

  -- What `route_broker_init` gives can be destroyed at once.
  abbrev pub Started : Option (BrokerTable × Brokers × RouteBroker H D) → Type 0
  Started none = ⊥
  Started (some (u, bs, rb)) =
      Consistent rb
      × ((route_broker_destroy u bs).1 ≡ success)
      × ((route_broker_destroy u bs).2 ≡ true)

module _ (H : Zhash) {D : Type 0} where
  -- With memory for the three brokers the route broker starts with its state in step, and a
  -- `route_broker_destroy` that follows succeeds, as it does only with a broker at each of the three
  -- priorities, and destroys the table of topics.
  pub route_broker_init-Started :
      (t : BrokerTable) (addr : ℕ → Option ℕ) (rib : ℕ → RibRoute D)
      → All (λ i. is_some (addr i) ≡ true) route_priorities
      → Started (route_broker_init {H = H} t addr rib)
  unfolding route_broker_init
  route_broker_init-Started t addr rib m =
      go (create_brokers t addr route_priorities null_brokers) refl
    where
      new :
          NewBrokers null_brokers route_priorities
            (create_brokers t addr route_priorities null_brokers)
      new = create_brokers-NewBrokers t addr route_priorities null_brokers m (λ i. refl)

      go :
          (r : Option (BrokerTable × Brokers))
          → create_brokers t addr route_priorities null_brokers ≡ r
          → Started (route_broker_init {H = H} t addr rib)
      go none e = absurd (subst (NewBrokers null_brokers route_priorities) e new)
      go (some (u, bs)) e =
          let n = subst (NewBrokers null_brokers route_priorities) e new in
          let d =
            destroy-success u bs (n.1 0 (inr refl), (n.1 1 (inr refl), (n.1 2 (inr refl), tt))) in
          rw (e, route_broker_init, Started) (started-Consistent bs rib n.0, d.0, d.1)
