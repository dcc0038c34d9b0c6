-- ===== src/Route/Sync/Replica.antt =====
-- The replica of a client that follows the route broker, in every state that the calls lead to.
use mathlib.Core.Path.{subst}
use vyatta_route_broker.Base.{
  ℕ, ◌≡◌, refl, sym, inl, inr, true, false, [], String, arith, ◌==◌, contains, none, Option, All-at,
  Option-cases,
}
use vyatta_route_broker.Broker.Placed.{ne_of_contains}
use vyatta_route_broker.Zhash.{Zhash}
use vyatta_route_broker.Route.Types.{Callbacks, RouteBroker, route_priorities}
use vyatta_route_broker.Route.Client.{
  data_available_for_client, route_broker_client_get_data, level_pending, waits-pending,
}
use vyatta_route_broker.Route.Sound.Served.{publish-SameClients, get_data-SameClients}
use vyatta_route_broker.Route.Sound.Members.{NewClient, created}
use vyatta_route_broker.Route.Calls.{
  RouteCall, publish, get_data, create, delete, AllowedCall, route_step, Consistent,
  route_step-Consistent, Served-levels, created-Consistent, create-listed, create_failed-delete,
}
use vyatta_route_broker.Route.View.{seen, view}
use vyatta_route_broker.Route.View.Read.{get_data-KeptOrGone}
use vyatta_route_broker.Route.Sync.{Described, Undisturbed-Sync, due, live, receive}
use vyatta_route_broker.Route.Sync.Published.{
  object_broker_publish-Undisturbed, object_broker_publish-Described,
}
use vyatta_route_broker.Route.Sync.Steady.{KeptOrGone-Described, Pruned-KeptOrGone}
use vyatta_route_broker.Route.Sync.Join.{created-Pruned, created-Sync}
use vyatta_route_broker.Route.Sync.Read.{get_data-Steady}
use vyatta_route_broker.Route.Sync.Own.{Copies, own_read-Sync}
use vyatta_route_broker.Route.Sync.Follow.{
  Apart, Follow, start, other, read, Following, Steady-Following, Consistent-IsClient,
  followed-Watches, delete-Following, created-Following,
}

module _ {H : Zhash} {D : Type 0} (cb : Callbacks D) (c : ℕ) where
  get_data-listed :
      {rb : RouteBroker H D} (d : ℕ)
      → Consistent rb
      → contains d rb.client_list ≡ true
      → (route_broker_client_get_data cb [] rb d).1.client_list ≡ rb.client_list
  get_data-listed {rb} d k m =
      (get_data-SameClients cb rb d (λ i. (k.sound.levels i).inv)
        (Served-levels cb d k.served m)).same_list

  other-Following :
      {rb : RouteBroker H D} {R : String → Option D} (call : RouteCall D)
      → Following cb c rb R
      → AllowedCall cb rb call
      → Apart c call
      → Following cb c (route_step cb rb call) R
  unfolding route_step
  other-Following {rb} {R} (publish obj pri addr) f a p =
      let k = f.consistent in
      record {
        consistent = route_step-Consistent cb rb (publish obj pri addr) k a;
        described =
            object_broker_publish-Described cb obj pri addr k.sound a.0 a.1 a.2 p f.described;
        on_list = rw ((publish-SameClients cb rb obj pri addr).same_list) f.on_list;
        sync =
            Undisturbed-Sync c R
              (λ t.
                object_broker_publish-Undisturbed cb c obj pri addr t k.sound a.0 a.1 a.2
                  (λ topic. followed-Watches cb c pri topic f p))
              f.sync;
      }
  other-Following {rb} (get_data d) f a ne =
      let k = f.consistent in
      Steady-Following cb c f (route_step-Consistent cb rb (get_data d) k a)
        (rw (get_data-listed d k a) f.on_list)
        (get_data-Steady cb c d k.sound k.served f.on_list a ne)
        (λ t. get_data-KeptOrGone cb rb d t k.sound (Served-levels cb d k.served a))
  other-Following (create name d addr true) f n p = created-Following cb c name d addr f n
  other-Following {rb} {R} (create name d addr false) f n p =
      let far = ne_of_contains d c rb.client_list n.unlisted f.on_list in
      let apart : (c == d) ≡ false = ground arith in
      subst (λ u. Following cb c u R) (sym (create_failed-delete cb rb name d addr))
        (delete-Following cb c d (created-Following cb c name d addr f n)
          (create-listed cb rb name d addr) apart)
  other-Following (delete d) f a ne = delete-Following cb c d f a ne

  read-Following :
      {rb : RouteBroker H D} {R : String → Option D}
      → Copies cb
      → Following cb c rb R
      → Following cb c
          (route_broker_client_get_data cb [] rb c).1
          (receive cb R (route_broker_client_get_data cb [] rb c).0)
  unfolding route_step
  read-Following {rb} {R} copies f =
      let k = f.consistent in
      let all = Served-levels cb c k.served f.on_list in
      record {
        consistent = route_step-Consistent cb rb (get_data c) k f.on_list;
        described =
            KeptOrGone-Described cb rb (route_broker_client_get_data cb [] rb c).1
              (λ t. get_data-KeptOrGone cb rb c t k.sound all) f.described;
        on_list = rw (get_data-listed c k f.on_list) f.on_list;
        sync = own_read-Sync cb c R copies k.sound all f.described f.sync;
      }

  start-Following :
      (rb : RouteBroker H D) (name : String) (addr : ℕ → ℕ)
      → Consistent rb
      → Described cb (view rb)
      → NewClient rb c addr
      → Following cb c (created rb name c addr) (λ t. none)
  start-Following rb name addr k d n =
      let u = created-Consistent cb name c addr k n in
      let described =
        KeptOrGone-Described cb rb (created rb name c addr)
          (λ t. Pruned-KeptOrGone t k.sound u.sound (created-Pruned name c addr n)) d in
      record {
        consistent = u;
        described = described;
        on_list = create-listed cb rb name c addr;
        sync = created-Sync name c addr k.sound k.served n cb u.sound described;
      }

  -- Along every run, the replica has what is in force of each topic that is not due.
  pub Follow-Following :
      {rb : RouteBroker H D} {R : String → Option D}
      → Copies cb
      → Follow cb c rb R
      → Following cb c rb R
  Follow-Following copies (start rb name addr k d n) = start-Following rb name addr k d n
  Follow-Following copies (other f call a p) = other-Following call (Follow-Following copies f) a p
  Follow-Following copies (read f) = read-Following copies (Follow-Following copies f)

  nothing_due :
      {rb : RouteBroker H D} {R : String → Option D} (t : String)
      → Following cb c rb R
      → data_available_for_client rb c ≡ none
      → due rb c t ≡ false
  nothing_due {rb} t f e = elim (Option-cases (H.lookup rb.route_hashtbl t)) [
    | inl n ↦ rw n refl
    | inr (r, l) ↦
        let empty = waits-pending rb c (Consistent-IsClient cb c c f.consistent f.on_list) e in
        rw
          (
            l,
            All-at (λ i. level_pending rb c i ≡ []) route_priorities (rb.rib_route r).pri
                (f.described t (seen rb r) (rw l refl)).1 empty,
          )
          refl
  ]

  -- A client comes to a route broker in step, whose routes have the topics and marks that their data
  -- give, and at the three priorities; then messages at these priorities are published, with ids left
  -- and none of them a delete at a higher priority than that of the route that its topic then has, and
  -- other clients come, read and go, and the client reads and stores, in any order. If
  -- every object can be copied, then in each state in which nothing is available to the client it
  -- has the data of the route in force for each topic that has one, and nothing for the others.
  pub Follow-live :
      {rb : RouteBroker H D} {R : String → Option D} (t : String)
      → Copies cb
      → Follow cb c rb R
      → data_available_for_client rb c ≡ none
      → R t ≡ live (view rb t)
  Follow-live t copies f e = let k = Follow-Following copies f in k.sync t (nothing_due t k e)
