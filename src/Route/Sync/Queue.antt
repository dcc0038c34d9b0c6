-- ===== src/Route/Sync/Queue.antt =====
-- What each call of a broker changes of the routes that a client has still to be told of.
use vyatta_route_broker.Base.{
  ℕ, ◌≡◌, ◌∙◌, refl, ap, sym, inl, inr, true, false, List, [], ◌∷◌, arith, ◌==◌, contains,
  contains-append, Bool-cases, ==→eq,
}
use vyatta_route_broker.Circleq.{insert_tail, remove}
use vyatta_route_broker.Circleq.Laws.{contains-remove_ne}
use vyatta_route_broker.Broker.{
  State, broker_add_obj, broker_del_obj, broker_del_obj_now, broker_upd_obj,
}
use vyatta_route_broker.Broker.Invariant.{Inv, pending}
use vyatta_route_broker.Broker.Calls.{
  Call, Allowed, Stays, queue_after, step, add, upd, del, del_now,
}
use vyatta_route_broker.Broker.Calls.Refinement.{pending-step}
use vyatta_route_broker.Broker.Placed.{eq_refl}
use vyatta_route_broker.Zhash.{Zhash}
use vyatta_route_broker.Route.Types.{World, RouteBroker, route_broker_ops, at_level}
use vyatta_route_broker.Route.Publish.{add_route, del_route, force_out, upd_route, route_type}
use vyatta_route_broker.Route.Sound.{queues, level_state, HasIds}
use vyatta_route_broker.Route.Sound.Clients.{At}
use vyatta_route_broker.Route.Sound.Publish.{no_data}
use vyatta_route_broker.Route.Sync.{wanted}

contains-tail_self : (a : ℕ) (q : List ℕ) → contains a (insert_tail q a) ≡ true
contains-tail_self a q = rw (contains-append a q (a ∷ []), eq_refl a) (ground arith)

contains-tail : (r a : ℕ) (q : List ℕ) → contains r q ≡ true → contains r (insert_tail q a) ≡ true
contains-tail r a q h = rw (contains-append r q (a ∷ []), h) refl

contains-moved :
    (r h : ℕ) (q : List ℕ)
    → (h == r) ≡ false
    → contains r q ≡ true
    → contains r (insert_tail (remove h q) h) ≡ true
contains-moved r h q ne m =
    contains-tail r h (remove h q) (ground (arith, contains-remove_ne r h q))

module _ {H : Zhash} {D : Type 0} where
  wanted_at :
      (rb : RouteBroker H D) (c p r : ℕ) (call : State (World H D) → State (World H D))
      → wanted (at_level rb p call) c p r
        ≡ contains r (pending (call (level_state rb p)).broker (rb.level_client c p))
  unfolding at_level
  wanted_at rb c p r call = rw (eq_refl p) refl

  -- A call of one broker that leaves the route pending there leaves it pending at each priority.
  pub wanted_kept :
      (rb : RouteBroker H D) (c p i r : ℕ) (call : State (World H D) → State (World H D))
      → (wanted rb c p r ≡ true
          → contains r (pending (call (level_state rb p)).broker (rb.level_client c p)) ≡ true)
      → wanted rb c i r ≡ true
      → wanted (at_level rb p call) c i r ≡ true
  unfolding at_level
  wanted_kept rb c p i r call k w = elim (Bool-cases (p == i)) [
    | inl e ↦
        let same = ==→eq p i e in rw (sym same, eq_refl p) (k (ap (λ j. wanted rb c j r) same ∙ w))
    | inr e ↦ rw e w
  ]

  module _ (rb : RouteBroker H D) (c p : ℕ) (v : Inv (rb.route_broker p)) (m : At rb c p) where
    abbrev queue : List ℕ
    queue = pending (rb.route_broker p) (rb.level_client c p)

    queue_behind :
        (call : Call)
        → Allowed (rb.route_broker p) call
        → Stays call (rb.level_client c p)
        → pending
            (step route_broker_ops no_data (level_state rb p) call).broker
            (rb.level_client c p)
          ≡ queue_after call (rb.level_client c p) queue
    queue_behind call a st =
        pending-step route_broker_ops no_data (level_state rb p) call (rb.level_client c p) v a m st

    pub add-wanted_self :
        (a : ℕ)
        → contains a (rb.route_broker p).b_obj_list ≡ false
        → HasIds rb
        → wanted (add_route rb p a) c p a ≡ true
    unfolding add_route step
    add-wanted_self a n ids =
        wanted_at rb c p a (λ s. broker_add_obj route_broker_ops s a route_type)
        ∙ ap (contains a) (queue_behind (add a route_type) (n, ids p) tt)
        ∙ contains-tail_self a queue

    pub add-wanted_other :
        (a i r : ℕ)
        → contains a (rb.route_broker p).b_obj_list ≡ false
        → HasIds rb
        → wanted rb c i r ≡ true
        → wanted (add_route rb p a) c i r ≡ true
    unfolding add_route step
    add-wanted_other a i r n ids =
        wanted_kept rb c p i r (λ s. broker_add_obj route_broker_ops s a route_type)
          (λ w.
            ap (contains r) (queue_behind (add a route_type) (n, ids p) tt)
            ∙ contains-tail r a queue w)

    pub upd-wanted_self :
        (h : ℕ) → queues rb p h ≡ true → HasIds rb → wanted (upd_route rb p h) c p h ≡ true
    unfolding upd_route step
    upd-wanted_self h q ids =
        wanted_at rb c p h (λ s. broker_upd_obj route_broker_ops s h)
        ∙ ap (contains h) (queue_behind (upd h) ((ground arith, ground arith), ids p) tt)
        ∙ contains-tail_self h (remove h queue)

    pub upd-wanted_other :
        (h i r : ℕ)
        → queues rb p h ≡ true
        → HasIds rb
        → (h == r) ≡ false
        → wanted rb c i r ≡ true
        → wanted (upd_route rb p h) c i r ≡ true
    unfolding upd_route step
    upd-wanted_other h i r q ids ne =
        wanted_kept rb c p i r (λ s. broker_upd_obj route_broker_ops s h)
          (λ w.
            ap (contains r) (queue_behind (upd h) ((ground arith, ground arith), ids p) tt)
            ∙ contains-moved r h queue ne w)

    pub del-wanted_self :
        (h : ℕ) → queues rb p h ≡ true → HasIds rb → wanted (del_route rb p h) c p h ≡ true
    unfolding del_route step
    del-wanted_self h q ids =
        wanted_at rb c p h (λ s. broker_del_obj route_broker_ops s h)
        ∙ ap (contains h) (queue_behind (del h) ((ground arith, ground arith), ids p) tt)
        ∙ contains-tail_self h (remove h queue)

    pub del-wanted_other :
        (h i r : ℕ)
        → queues rb p h ≡ true
        → HasIds rb
        → (h == r) ≡ false
        → wanted rb c i r ≡ true
        → wanted (del_route rb p h) c i r ≡ true
    unfolding del_route step
    del-wanted_other h i r q ids ne =
        wanted_kept rb c p i r (λ s. broker_del_obj route_broker_ops s h)
          (λ w.
            ap (contains r) (queue_behind (del h) ((ground arith, ground arith), ids p) tt)
            ∙ contains-moved r h queue ne w)

    pub out-wanted :
        (h i r : ℕ)
        → queues rb p h ≡ true
        → (h == r) ≡ false
        → wanted rb c i r ≡ true
        → wanted (force_out rb p h) c i r ≡ true
    unfolding force_out step
    out-wanted h i r q ne =
        wanted_kept rb c p i r (λ s. broker_del_obj_now route_broker_ops s h)
          (λ w.
            ap (contains r) (queue_behind (del_now h) (ground arith, ground arith) tt)
            ∙ ground (arith, contains-remove_ne r h queue))
