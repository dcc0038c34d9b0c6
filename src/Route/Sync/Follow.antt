-- ===== src/Route/Sync/Follow.antt =====
-- A client of broker/route_broker.c that follows: it comes, reads, and stores what it is told, while
-- routes are published and other clients come, read and go. What its replica is then.
use vyatta_route_broker.Base.{
  ℕ, ◌≡◌, ◌∙◌, refl, ap, true, false, [], String, arith, ◌==◌, contains, none, Option, All-at,
}
use vyatta_route_broker.Circleq.Laws.{contains-remove_ne}
use vyatta_route_broker.Zhash.{Zhash}
use vyatta_route_broker.Route.Types.{Callbacks, RouteBroker, route_priorities}
use vyatta_route_broker.Route.Client.{route_broker_client_get_data, level_pending, IsClient}
use vyatta_route_broker.Route.Setup.{
  route_broker_client_delete, route_broker_client_delete-level_pending,
}
use vyatta_route_broker.Route.Sound.Served.{Served-At}
use vyatta_route_broker.Route.Sound.Members.{NewClient, created, created-client_list}
use vyatta_route_broker.Route.Sound.Leaves.{deleted-client_list}
use vyatta_route_broker.Route.Calls.{
  RouteCall, publish, get_data, create, delete, AllowedCall, route_step, Consistent, Served-levels,
  delete-Consistent, created-Consistent,
}
use vyatta_route_broker.Route.View.{seen, view}
use vyatta_route_broker.Route.View.Read.{KeptOrGone}
use vyatta_route_broker.Route.Sync.{Sync, Described, Undisturbed-Sync, receive}
use vyatta_route_broker.Route.Sync.Publish.{Watches}
use vyatta_route_broker.Route.Sync.Steady.{
  Steady, Steady-Undisturbed, KeptOrGone-Described, Pruned-KeptOrGone,
}
use vyatta_route_broker.Route.Sync.Leave.{delete-Pruned}
use vyatta_route_broker.Route.Sync.Join.{created-Pruned, created-Steady}

-- A call that is not one of the client's own; a message has one of the priorities.
abbrev pub Apart : {D : Type 0} → ℕ → RouteCall D → Type 0
Apart c (publish obj pri addr) = contains pri route_priorities ≡ true
Apart c (get_data d) = (c == d) ≡ false
Apart c (create name d addr cond_init) = Unit {0}
Apart c (delete d) = (c == d) ≡ false

module _ {H : Zhash} {D : Type 0} (cb : Callbacks D) (c : ℕ) where
  -- The states, and the replica of the client, from its creation on.
  pub data Follow : RouteBroker H D → (String → Option D) → Type 0 where
    start :
        (rb : RouteBroker H D) (name : String) (addr : ℕ → ℕ)
        → Consistent rb
        → Described cb (view rb)
        → NewClient rb c addr
        → Follow (created rb name c addr) (λ t. none)
    other :
        {rb : RouteBroker H D} {R : String → Option D}
        → Follow rb R
        → (call : RouteCall D) → AllowedCall cb rb call
        → Apart c call
        → Follow (route_step cb rb call) R
    read :
        {rb : RouteBroker H D} {R : String → Option D}
        → Follow rb R
        → Follow
            (route_broker_client_get_data cb [] rb c).1
            (receive cb R (route_broker_client_get_data cb [] rb c).0)

  -- What holds along the way.
  pub record Following (rb : RouteBroker H D) (R : String → Option D) : Type 0 where
    pub consistent : Consistent rb
    pub described : Described cb (view rb)
    pub on_list : contains c rb.client_list ≡ true
    pub sync : Sync rb c R

  pub Steady-Following :
      {rb u : RouteBroker H D} {R : String → Option D}
      → Following rb R
      → Consistent u
      → contains c u.client_list ≡ true
      → Steady rb u c
      → ((t : String) → KeptOrGone rb u t)
      → Following u R
  Steady-Following {rb} {u} {R} f k m st g = record {
    consistent = k;
    described = KeptOrGone-Described cb rb u g f.described;
    on_list = m;
    sync =
        Undisturbed-Sync c R
          (λ t. Steady-Undisturbed cb c t f.consistent.sound k.sound f.described st (g t)) f.sync;
  }

  pub Consistent-IsClient :
      {rb : RouteBroker H D} (d : ℕ)
      → Consistent rb
      → contains d rb.client_list ≡ true
      → IsClient rb d
  Consistent-IsClient d k m =
      let a = Served-levels cb d k.served m in
      (
        ((k.sound.levels 0).inv, a.0),
        (((k.sound.levels 1).inv, a.1.0), (((k.sound.levels 2).inv, a.1.1.0), tt)),
      )

  pub followed-Watches :
      {rb : RouteBroker H D} {R : String → Option D} (pri : ℕ) (topic : String)
      → Following rb R
      → contains pri route_priorities ≡ true
      → Watches rb c pri topic
  followed-Watches {rb} pri topic f p = (
    Served-At c pri f.consistent.served f.on_list p,
    λ h e.
        Served-At c (rb.rib_route h).pri f.consistent.served f.on_list
          (f.described topic (seen rb h) (rw e refl)).1,
  )

  delete-Steady :
      {rb : RouteBroker H D} {R : String → Option D} (d : ℕ)
      → Following rb R
      → contains d rb.client_list ≡ true
      → (c == d) ≡ false
      → Steady rb (route_broker_client_delete rb d) c
  delete-Steady {rb} d f m ne =
      let k = f.consistent in
      let same =
        route_broker_client_delete-level_pending rb d c (Consistent-IsClient d k m)
          (Consistent-IsClient c k f.on_list) (k.served.apart c d f.on_list m ne) in
      record {
        still_wanted = λ i r p w.
            ap (contains r) (
              All-at
                (λ j. level_pending (route_broker_client_delete rb d) c j ≡ level_pending rb c j)
                route_priorities i p same)
            ∙ w;
        same_topics = (delete-Pruned d k.sound (Served-levels cb d k.served m)).same_topic;
      }

  pub delete-Following :
      {rb : RouteBroker H D} {R : String → Option D} (d : ℕ)
      → Following rb R
      → contains d rb.client_list ≡ true
      → (c == d) ≡ false
      → Following (route_broker_client_delete rb d) R
  delete-Following {rb} d f m ne =
      let k = f.consistent in
      let u = delete-Consistent cb d k m in
      Steady-Following f u
        (rw (deleted-client_list rb d)
          (ground (arith, contains-remove_ne c d rb.client_list, f.on_list)))
        (delete-Steady d f m ne)
        (λ t.
          Pruned-KeptOrGone t k.sound u.sound
            (delete-Pruned d k.sound (Served-levels cb d k.served m)))

  pub created-Following :
      {rb : RouteBroker H D} {R : String → Option D} (name : String) (d : ℕ) (addr : ℕ → ℕ)
      → Following rb R
      → NewClient rb d addr
      → Following (created rb name d addr) R
  created-Following {rb} name d addr f n =
      let k = f.consistent in
      let u = created-Consistent cb name d addr k n in
      Steady-Following f u (rw (created-client_list rb name d addr) (ground (arith, f.on_list)))
        (created-Steady name d addr k.sound k.served n c f.on_list)
        (λ t. Pruned-KeptOrGone t k.sound u.sound (created-Pruned name d addr n))
