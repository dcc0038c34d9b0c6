-- ===== src/Route/Sync/Own.antt =====
-- `route_broker_client_get_data`, for the client that follows: it stores what it is given.
use text.Mathlib.Text.{◌==◌ as str_eq}
use vyatta_route_broker.Base.{
  ℕ, ◌≡◌, ◌∙◌, refl, ap, sym, inl, inr, true, false, List, [], ◌∷◌, String, arith, ◌==◌, contains,
  All, All-at, Bool-cases, some, Option, Option-cases,
}
use vyatta_route_broker.Broker.Calls.{tail}
use vyatta_route_broker.Broker.Delivery.{get_data-front, front_data}
use vyatta_route_broker.Broker.Placed.{eq_refl}
use vyatta_route_broker.Zhash.{Zhash}
use vyatta_route_broker.Route.Types.{Callbacks, RouteBroker, route_broker_ops, route_priorities}
use vyatta_route_broker.Route.Client.{
  take_data, route_broker_client_ops, first_behind, data_available_for_client,
  route_broker_client_get_data, level_pending,
}
use vyatta_route_broker.Route.Sound.{RouteSound, level_state}
use vyatta_route_broker.Route.Sound.Clients.{At, first_behind_in, take_data-RouteSound}
use vyatta_route_broker.Route.Table.{str_eq→eq}
use vyatta_route_broker.Route.View.{seen, view}
use vyatta_route_broker.Route.View.Publish.{topic_apart}
use vyatta_route_broker.Route.View.Read.{take_data-KeptOrGone}
use vyatta_route_broker.Route.Sync.{
  Sync, Described, Awaited, due, due-Awaited, wanted, wanted-due, wanted-queues, live, receive,
}
use vyatta_route_broker.Route.Sync.Read.{take-wanted, take-topic}
use vyatta_route_broker.Route.Sync.Steady.{KeptOrGone-live}

-- Every object can be copied.
abbrev pub Copies : {D : Type 0} → Callbacks D → Type 0
Copies {D} cb = (d : D) → cb.copy_obj d ≡ some d

behind_front :
    (r o : ℕ) (q : List ℕ) → (o == r) ≡ false → contains r (o ∷ q) ≡ true → contains r q ≡ true
behind_front r o q ne m = ground arith

module _ {H : Zhash} {D : Type 0} (cb : Callbacks D) where
  module _ {rb : RouteBroker H D} (c i : ℕ) (v : RouteSound rb) (m : At rb c i) where
    abbrev after_read : RouteBroker H D
    after_read = (take_data cb rb c i).1

    take_live : (t : String) → live (view after_read t) ≡ live (view rb t)
    take_live t = KeptOrGone-live rb after_read t (take_data-KeptOrGone cb rb c i t v m)

    -- A route that is not the one given stays due.
    stays_due :
        (t : String) (q : List ℕ)
        → level_pending rb c i ≡ q
        → ((x : Awaited rb c t) → contains x.route q ≡ true → contains x.route (tail q) ≡ true)
        → due rb c t ≡ true
        → due after_read c t ≡ true
    stays_due t q e k d =
        let x = due-Awaited c t v d in
        wanted-due c x.level x.route t (take_data-RouteSound cb c i v m)
          (take-topic cb rb c i x.route ∙ x.of_topic)
          (take-wanted cb rb c c i x.level x.route v m m
            (λ w. rw (eq_refl (rb.level_client c i), e) (k x (rw (sym e) w))) x.still)

    taken_front :
        (q : List ℕ)
        → level_pending rb c i ≡ q
        → (take_data cb rb c i).0
          ≡ front_data route_broker_ops (route_broker_client_ops cb) (level_state rb i) q
    unfolding take_data
    taken_front q e =
        (get_data-front route_broker_ops (route_broker_client_ops cb) (level_state rb i)
          (rb.level_client c i) (v.levels i).inv m).0
        ∙ ap (front_data route_broker_ops (route_broker_client_ops cb) (level_state rb i)) e

    -- Nothing was pending at the priority.
    idle-Sync :
        (R : String → Option D)
        → level_pending rb c i ≡ []
        → Sync rb c R
        → Sync after_read c (receive cb R (take_data cb rb c i).0)
    idle-Sync R e s t d = rw (taken_front [] e) (elim (Bool-cases (due rb c t)) [
      | inl x ↦ absurd (cc (stays_due t [] e (λ y h. h) x))
      | inr x ↦ s t x ∙ sym (take_live t)
    ])

    front_payload :
        (o : ℕ) (os : List ℕ)
        → Copies cb
        → front_data route_broker_ops (route_broker_client_ops cb) (level_state rb i) (o ∷ os)
          ≡ some (rb.rib_route o).payload
    unfolding route_broker_client_ops
    front_payload o os k = elim (Bool-cases (((rb.route_broker i).mem o).is_delete)) [
      | inl e ↦ rw e (k (rb.rib_route o).payload)
      | inr e ↦ rw e (k (rb.rib_route o).payload)
    ]

    -- The route that was pending longest.
    busy-Sync :
        (R : String → Option D) (o : ℕ) (os : List ℕ)
        → Copies cb
        → Described cb (view rb)
        → level_pending rb c i ≡ o ∷ os
        → Sync rb c R
        → Sync after_read c (receive cb R (take_data cb rb c i).0)
    busy-Sync R o os copies k e s t d =
        let topic = (rb.rib_route o).topic in
        let w : wanted rb c i o ≡ true = rw (e, eq_refl o) refl in
        let found = v.tabled.known i o (wanted-queues rb c i o w) in
        let g = (k topic (seen rb o) (rw found refl)).0 in
        rw (taken_front (o ∷ os) e ∙ front_payload o os copies, g)
          (elim (Bool-cases (str_eq topic t)) [
            | inl x ↦ rw x (rw (sym (str_eq→eq topic t x), found) refl ∙ sym (take_live t))
            | inr x ↦ rw x (elim (Bool-cases (due rb c t)) [
              | inl y ↦
                  let still =
                    stays_due t (o ∷ os) e
                      (λ z h.
                        behind_front z.route o os
                          (topic_apart o z.route topic t v found z.looked_up x) h)
                      y in
                  absurd (cc (still, d))
              | inr y ↦ s t y ∙ sym (take_live t)
            ])
          ])

    take-Sync :
        (R : String → Option D)
        → Copies cb
        → Described cb (view rb)
        → Sync rb c R
        → Sync after_read c (receive cb R (take_data cb rb c i).0)
    take-Sync R copies k s = go (level_pending rb c i) refl
      where
        go :
            (q : List ℕ)
            → level_pending rb c i ≡ q
            → Sync after_read c (receive cb R (take_data cb rb c i).0)
        go [] e = idle-Sync R e s
        go (o ∷ os) e = busy-Sync R o os copies k e s

  -- A read of its own keeps a replica that is up to date in what is not due up to date.
  pub own_read-Sync :
      {rb : RouteBroker H D} (c : ℕ) (R : String → Option D)
      → Copies cb
      → RouteSound rb
      → All (At rb c) route_priorities
      → Described cb (view rb)
      → Sync rb c R
      → Sync
          (route_broker_client_get_data cb [] rb c).1
          c
          (receive cb R (route_broker_client_get_data cb [] rb c).0)
  unfolding route_broker_client_get_data data_available_for_client
  own_read-Sync {rb} c R copies v a k s = elim (Option-cases (first_behind rb c route_priorities)) [
    | inl e ↦ rw (e, route_broker_client_get_data) s
    | inr (i, e) ↦
        let m = All-at (At rb c) route_priorities i (first_behind_in rb c i route_priorities e) a in
        rw (e, route_broker_client_get_data) (take-Sync c i v m R copies k s)
  ]
