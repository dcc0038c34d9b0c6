-- ===== src/Route/Drain/Step.antt =====
-- What one call of a client changes of what is pending at each priority.
use mathlib.Core.Path.{subst}
use vyatta_route_broker.Base.{
  ℕ, ◌<◌, ◌≡◌, ◌∙◌, ◌⊎◌, refl, ap, inl, inr, true, false, not, List, [], ◌∷◌, ◌++◌, none, some,
  arith, ◌==◌, Bool-cases, ==→eq,
}
use vyatta_route_broker.Circleq.{first}
use vyatta_route_broker.Broker.{broker_get_next_data_obj}
use vyatta_route_broker.Broker.Consume.{broker_client_get_data-Inv}
use vyatta_route_broker.Broker.Pending.{next_data_obj-pending}
use vyatta_route_broker.Broker.Calls.{tail}
use vyatta_route_broker.Broker.Calls.Refinement.{get-clients}
use vyatta_route_broker.Broker.Delivery.{get_data-front, end_id, pending_of-id_eq}
use vyatta_route_broker.Broker.Placed.{eq_refl}
use vyatta_route_broker.Zhash.{Zhash}
use vyatta_route_broker.Route.Types.{Callbacks, RouteBroker, route_broker_ops}
use vyatta_route_broker.Route.Client.{
  is_behind, first_behind, data_available_for_client, take_data, route_broker_client_ops,
  level_pending,
}
use vyatta_route_broker.Route.Drain.{tagged, level_rounds, noted, level, Ready}

same_not_behind : (x y : ℕ) → x ≡ y → not (x == y) ≡ false
same_not_behind x y e = ground arith

not_behind_same : (x y : ℕ) → not (x == y) ≡ false → x ≡ y
not_behind_same x y e = ground arith

-- The first of a list goes in front of the others.
first_noted :
    (i : ℕ) (p : List ℕ) (rest : List (ℕ × ℕ))
    → (elim (first p) [
      | none ↦ tagged i (tail p) ++ rest
      | some o ↦ (i, o) ∷ (tagged i (tail p) ++ rest)
    ])
      ≡ tagged i p ++ rest
first_noted i [] rest = refl
first_noted i (o ∷ os) rest = refl

first_noted_last :
    (i : ℕ) (p : List ℕ)
    → (elim (first p) [ none ↦ tagged i (tail p) | some o ↦ (i, o) ∷ tagged i (tail p) ])
      ≡ tagged i p
first_noted_last i [] = refl
first_noted_last i (o ∷ os) = refl

module _ {H : Zhash} {D : Type 0} (cb : Callbacks D) where
  take-pending :
      (rb : RouteBroker H D) (c i : ℕ)
      → Ready rb c i
      → level_pending (take_data cb rb c i).1 c i ≡ tail (level_pending rb c i)
  unfolding take_data
  take-pending rb c i v =
      rw (eq_refl i)
        (get_data-front route_broker_ops (route_broker_client_ops cb) (level rb i)
          (rb.level_client c i) v.0 v.1).1

  take-other :
      (rb : RouteBroker H D) (c i j : ℕ)
      → (i == j) ≡ false
      → (take_data cb rb c i).1.route_broker j ≡ rb.route_broker j
  unfolding take_data
  take-other rb c i j ne = rw ne refl

  take-level_client :
      (rb : RouteBroker H D) (c i : ℕ) → (take_data cb rb c i).1.level_client ≡ rb.level_client
  unfolding take_data
  take-level_client rb c i = refl

  take-Ready : (rb : RouteBroker H D) (c i : ℕ) → Ready rb c i → Ready (take_data cb rb c i).1 c i
  unfolding take_data
  take-Ready rb c i v = rw (eq_refl i) (
    broker_client_get_data-Inv route_broker_ops (route_broker_client_ops cb) (level rb i)
        (rb.level_client c i) v.0 v.1,
    rw
        (get-clients route_broker_ops (route_broker_client_ops cb) (level rb i)
          (rb.level_client c i) v.0 v.1)
        (v.1),
  )

  take-behind :
      (rb : RouteBroker H D) (c i : ℕ)
      → level_pending rb c i ≡ []
      → is_behind (take_data cb rb c i).1 c i ≡ false
  unfolding take_data
  take-behind rb c i e =
      let found : broker_get_next_data_obj (rb.route_broker i) (rb.level_client c i) ≡ none =
        next_data_obj-pending (rb.route_broker i) (rb.level_client c i) ∙ ap first e in
      let k =
        end_id route_broker_ops (route_broker_client_ops cb) (level rb i) (rb.level_client c i)
          found in
      rw (eq_refl i) (same_not_behind _ _ k)

  module _ (rb : RouteBroker H D) (c i : ℕ) (v : Ready rb c i) (b : is_behind rb c i ≡ true) where
    abbrev behind : RouteBroker H D
    behind = (take_data cb rb c i).1

    pub fewer_rounds : level_rounds behind c i < level_rounds rb c i
    fewer_rounds = go (level_pending rb c i) refl
      where
        go : (p : List ℕ) → level_pending rb c i ≡ p → level_rounds behind c i < level_rounds rb c i
        go [] e = rw (b, take-behind rb c i e) (omega arith)
        go (o ∷ os) e =
            let k : level_pending behind c i ≡ os = take-pending rb c i v ∙ ap tail e in
            rw (b, e, k)
              (elim (Bool-cases (is_behind behind c i)) [
                | inl x ↦ rw x (omega arith)
                | inr x ↦ rw x (omega arith)
              ])

    pub noted-tagged :
        (rest : List (ℕ × ℕ))
        → noted rb c i (tagged i (level_pending behind c i) ++ rest)
          ≡ tagged i (level_pending rb c i) ++ rest
    noted-tagged rest = rw (take-pending rb c i v) (
        rw (next_data_obj-pending (rb.route_broker i) (rb.level_client c i), noted)
          (first_noted i (level_pending rb c i) rest))

    pub noted-tagged_last :
        noted rb c i (tagged i (level_pending behind c i)) ≡ tagged i (level_pending rb c i)
    noted-tagged_last = rw (take-pending rb c i v) (
        rw (next_data_obj-pending (rb.route_broker i) (rb.level_client c i), noted)
          (first_noted_last i (level_pending rb c i)))

    pub other_pending : (j : ℕ) → (i == j) ≡ false → level_pending behind c j ≡ level_pending rb c j
    other_pending j ne = rw (take-other rb c i j ne, take-level_client rb c i) refl

    pub other_rounds : (j : ℕ) → (i == j) ≡ false → level_rounds behind c j ≡ level_rounds rb c j
    other_rounds j ne = rw (take-other rb c i j ne, take-level_client rb c i) refl

    pub still-Ready : (j : ℕ) → Ready rb c j → Ready behind c j
    still-Ready j w = elim (Bool-cases (i == j)) [
      | inl e ↦ subst (Ready behind c) (==→eq i j e) (take-Ready rb c i v)
      | inr e ↦ rw (take-other rb c i j e, take-level_client rb c i) w
    ]

  -- The priority that is served is the highest one at which the client is behind.
  abbrev pub Serves : RouteBroker H D → ℕ → ℕ → Type 0
  Serves rb c i =
      ((i ≡ 0) × (is_behind rb c 0 ≡ true))
      ⊎ ((i ≡ 1) × (is_behind rb c 0 ≡ false) × (is_behind rb c 1 ≡ true))
      ⊎ ((i ≡ 2)
          × (is_behind rb c 0 ≡ false)
          × (is_behind rb c 1 ≡ false)
          × (is_behind rb c 2 ≡ true))

  pub available-Serves :
      (rb : RouteBroker H D) (c i : ℕ) → data_available_for_client rb c ≡ some i → Serves rb c i
  unfolding data_available_for_client first_behind
  available-Serves rb c i e = elim (Bool-cases (is_behind rb c 0)) [
    | inl x ↦ inl (ground arith, x)
    | inr x ↦ elim (Bool-cases (is_behind rb c 1)) [
      | inl y ↦ inr (inl (ground arith, x, y))
      | inr y ↦ elim (Bool-cases (is_behind rb c 2)) [
        | inl z ↦ inr (inr (ground arith, x, y, z))
        | inr z ↦ absurd (ground arith)
      ]
    ]
  ]

  pub idle_pending :
      (rb : RouteBroker H D) (c i : ℕ)
      → Ready rb c i
      → is_behind rb c i ≡ false
      → level_pending rb c i ≡ []
  idle_pending rb c i v b = pending_of-id_eq (rb.level_client c i) v.0 v.1 (not_behind_same _ _ b)
