-- ===== src/Route/Drain/Rounds.antt =====
-- The loop of a client ends, and has told it of everything.
use mathlib.Core.Path.{subst}
use mathlib.Core.Option.{map as map_option}
use vyatta_route_broker.Base.{
  ℕ, map, List, ◌∷◌, ◌∙◌, ap, Bool-cases, All-at, zero, suc, ◌<◌, ◌≡◌, refl, sym, inl, inr, true,
  false, [], ◌++◌, none, some, arith, Option-cases,
}
use vyatta_route_broker.Zhash.{Zhash}
use vyatta_route_broker.Route.Types.{Callbacks, RouteBroker, route_broker_ops, route_priorities}
use vyatta_route_broker.Circleq.{first}
use vyatta_route_broker.Broker.Pending.{next_data_obj-pending}
use vyatta_route_broker.Broker.Delivery.{get_data-front, front_data}
use vyatta_route_broker.Route.Sound.Clients.{first_behind_in}
use vyatta_route_broker.Route.Sync.Own.{Copies}
use vyatta_route_broker.Route.Sync.Read.{take-Alike}
use vyatta_route_broker.Route.Client.{
  is_behind, data_available_for_client, take_data, route_broker_client_get_data,
  route_broker_client_ops, IsClient, level_pending, waits-pending,
}
use vyatta_route_broker.Route.Drain.{
  tagged, all_pending, rounds, noted, drain_levels, data_of, given, Ready, level,
}
use vyatta_route_broker.Route.Drain.Step.{
  Serves, fewer_rounds, noted-tagged, noted-tagged_last, other_pending, other_rounds, still-Ready,
  available-Serves, idle_pending,
}

module _ {H : Zhash} {D : Type 0} (cb : Callbacks D) where
  -- What a call at a priority tells of, and what is left behind it.
  abbrev pub Told : RouteBroker H D → ℕ → ℕ → Type 0
  Told rb c i =
      (noted rb c i (all_pending (take_data cb rb c i).1 c) ≡ all_pending rb c)
      × (rounds (take_data cb rb c i).1 c < rounds rb c)
      × IsClient (take_data cb rb c i).1 c

  call_first :
      (rb : RouteBroker H D) (c : ℕ) → IsClient rb c → is_behind rb c 0 ≡ true → Told rb c 0
  call_first rb c v b = (
    rw (other_pending cb rb c 0 v.0 b 1 refl, other_pending cb rb c 0 v.0 b 2 refl)
        (noted-tagged cb rb c 0 v.0 b
          (tagged 1 (level_pending rb c 1) ++ tagged 2 (level_pending rb c 2))),
    omega (
      arith,
      fewer_rounds cb rb c 0 v.0 b,
      other_rounds cb rb c 0 v.0 b 1 refl,
      other_rounds cb rb c 0 v.0 b 2 refl,
    ),
    (
      still-Ready cb rb c 0 v.0 b 0 v.0,
      (still-Ready cb rb c 0 v.0 b 1 v.1.0, (still-Ready cb rb c 0 v.0 b 2 v.1.1.0, tt)),
    ),
  )

  call_second :
      (rb : RouteBroker H D) (c : ℕ)
      → IsClient rb c
      → is_behind rb c 0 ≡ false
      → is_behind rb c 1 ≡ true
      → Told rb c 1
  call_second rb c v x b = (
    rw
        (
          other_pending cb rb c 1 v.1.0 b 0 refl,
          other_pending cb rb c 1 v.1.0 b 2 refl,
          idle_pending cb rb c 0 v.0 x,
        )
        (noted-tagged cb rb c 1 v.1.0 b (tagged 2 (level_pending rb c 2))),
    omega (
      arith,
      fewer_rounds cb rb c 1 v.1.0 b,
      other_rounds cb rb c 1 v.1.0 b 0 refl,
      other_rounds cb rb c 1 v.1.0 b 2 refl,
    ),
    (
      still-Ready cb rb c 1 v.1.0 b 0 v.0,
      (still-Ready cb rb c 1 v.1.0 b 1 v.1.0, (still-Ready cb rb c 1 v.1.0 b 2 v.1.1.0, tt)),
    ),
  )

  call_third :
      (rb : RouteBroker H D) (c : ℕ)
      → IsClient rb c
      → is_behind rb c 0 ≡ false
      → is_behind rb c 1 ≡ false
      → is_behind rb c 2 ≡ true
      → Told rb c 2
  call_third rb c v x y b = (
    rw
        (
          other_pending cb rb c 2 v.1.1.0 b 0 refl,
          other_pending cb rb c 2 v.1.1.0 b 1 refl,
          idle_pending cb rb c 0 v.0 x,
          idle_pending cb rb c 1 v.1.0 y,
        )
        (noted-tagged_last cb rb c 2 v.1.1.0 b),
    omega (
      arith,
      fewer_rounds cb rb c 2 v.1.1.0 b,
      other_rounds cb rb c 2 v.1.1.0 b 0 refl,
      other_rounds cb rb c 2 v.1.1.0 b 1 refl,
    ),
    (
      still-Ready cb rb c 2 v.1.1.0 b 0 v.0,
      (still-Ready cb rb c 2 v.1.1.0 b 1 v.1.0, (still-Ready cb rb c 2 v.1.1.0 b 2 v.1.1.0, tt)),
    ),
  )

  pub served-Told :
      (rb : RouteBroker H D) (c i : ℕ) → IsClient rb c → Serves cb rb c i → Told rb c i
  served-Told rb c i v (inl (e, x)) = subst (Told rb c) (sym e) (call_first rb c v x)
  served-Told rb c i v (inr (inl (e, x, y))) = subst (Told rb c) (sym e) (call_second rb c v x y)
  served-Told rb c i v (inr (inr (e, x, y, z))) =
      subst (Told rb c) (sym e) (call_third rb c v x y z)

  get-take :
      (rb : RouteBroker H D) (c i : ℕ)
      → data_available_for_client rb c ≡ some i
      → route_broker_client_get_data cb [] rb c ≡ take_data cb rb c i
  unfolding route_broker_client_get_data
  get-take rb c i e = rw (e, route_broker_client_get_data) refl

  front_copy :
      (rb : RouteBroker H D) (c i : ℕ) (q : List ℕ)
      → Copies cb
      → Ready rb c i
      → level_pending rb c i ≡ q
      → (take_data cb rb c i).0 ≡ map_option (λ o. data_of rb (i, o)) (first q)
  unfolding take_data route_broker_client_ops
  front_copy rb c i q copies v e =
      (get_data-front route_broker_ops (route_broker_client_ops cb) (level rb i)
        (rb.level_client c i) v.0 v.1).0
      ∙ ap (front_data route_broker_ops (route_broker_client_ops cb) (level rb i)) e
      ∙ go q
    where
      go :
          (l : List ℕ)
          → front_data route_broker_ops (route_broker_client_ops cb) (level rb i) l
            ≡ map_option (λ o. data_of rb (i, o)) (first l)
      go [] = refl
      go (o ∷ os) = elim (Bool-cases (((rb.route_broker i).mem o).is_delete)) [
        | inl x ↦ rw x (copies (rb.rib_route o).payload)
        | inr x ↦ rw x (copies (rb.rib_route o).payload)
      ]

  -- A call at a priority gives the data of the object that it tells of.
  given-noted :
      (rb : RouteBroker H D) (c i : ℕ) (rest : List (ℕ × ℕ))
      → Copies cb
      → Ready rb c i
      → given (take_data cb rb c i).0 (map (data_of rb) rest) ≡ map (data_of rb) (noted rb c i rest)
  given-noted rb c i rest copies v =
      let next = next_data_obj-pending (rb.route_broker i) (rb.level_client c i) in
      rw (front_copy rb c i (level_pending rb c i) copies v refl, noted, next)
        (go (level_pending rb c i))
    where
      go :
          (l : List ℕ)
          → given (map_option (λ o. data_of rb (i, o)) (first l)) (map (data_of rb) rest)
            ≡ map (data_of rb) (elim (first l) [ none ↦ rest | some o ↦ (i, o) ∷ rest ])
      go [] = refl
      go (o ∷ os) = refl

  same_data :
      (rb : RouteBroker H D) (c i : ℕ) (l : List (ℕ × ℕ))
      → map (data_of (take_data cb rb c i).1) l ≡ map (data_of rb) l
  same_data rb c i [] = refl
  same_data rb c i ((j, o) ∷ l) =
      rw ((take-Alike cb rb c i o).same_payload, same_data rb c i l) refl

  available-Ready :
      (rb : RouteBroker H D) (c i : ℕ)
      → IsClient rb c
      → data_available_for_client rb c ≡ some i
      → Ready rb c i
  unfolding data_available_for_client
  available-Ready rb c i v e =
      All-at (Ready rb c) route_priorities i (first_behind_in rb c i route_priorities e) v

  -- A client of three well-formed brokers, whose objects can all be copied, takes data while no other
  -- thread acts. It need not wait for as many calls as there are pending objects and priorities at
  -- which it is behind, and then nothing is available. By then it has been given the data of every
  -- route that was pending, once, those of a higher priority first and those of a priority in order.
  pub drain_levels-all_pending :
      (n : ℕ) (rb : RouteBroker H D) (c : ℕ)
      → Copies cb
      → IsClient rb c
      → rounds rb c < n
      → ((drain_levels cb n rb c).0 ≡ map (data_of rb) (all_pending rb c))
        × (data_available_for_client (drain_levels cb n rb c).1 c ≡ none)
  unfolding drain_levels
  drain_levels-all_pending zero rb c copies v lt = absurd (omega arith)
  drain_levels-all_pending (suc n) rb c copies v lt =
      elim (Option-cases (data_available_for_client rb c)) [
        | inl e ↦
            let w = waits-pending rb c v e in
            rw (e, drain_levels) (rw (w.0, w.1.0, w.1.1.0) refl, e)
        | inr (i, e) ↦
            let k = served-Told rb c i v (available-Serves cb rb c i e) in
            let t = (take_data cb rb c i).1 in
            let ih = drain_levels-all_pending n t c copies k.2 (omega (arith, k.1)) in
            let gave = given-noted rb c i (all_pending t c) copies (available-Ready rb c i v e) in
            rw (e, get-take rb c i e, drain_levels)
              (
                ap (given (take_data cb rb c i).0) (ih.0 ∙ same_data rb c i (all_pending t c))
                    ∙ gave
                    ∙ ap (map (data_of rb)) (k.0),
                ih.1,
              )
      ]
