-- ===== src/Broker/Placed.antt =====
-- An object goes to the tail with a fresh id: the common part of `broker_add_obj`,
-- `broker_upd_obj` and `broker_del_obj`.
use mathlib.Core.Path.{fun_ext}
use vyatta_route_broker.Base.{
  ℕ, ◌+◌, ◌^◌, ◌<◌, ◌≡◌, ap, inl, inr, Bool, true, false, List, [], ◌∷◌, arith, ◌==◌, Bool-cases,
  ==→eq, contains, All, All-at, All-mono, All-append, Pairwise, contains-append, is_empty,
}
use vyatta_route_broker.Circleq.{insert_tail, remove}
use vyatta_route_broker.Circleq.Laws.{
  contains-remove_ne, contains-remove_self, remove_absent, distinct-remove, distinct-insert_tail,
  All-remove,
}
use vyatta_route_broker.Circleq.Order.{Pairwise-mono, Pairwise-remove, Pairwise-insert_tail}
use vyatta_route_broker.Broker.{
  Broker, BrokerObj, State, BrokerOps, u64, update, obj_flags, broker_add_obj, broker_upd_obj,
  broker_del_obj, move_to_top, set_delete,
}
use vyatta_route_broker.Broker.Invariant.{InOrder, Known, Inv}

abbrev pub placed : Broker → ℕ → BrokerObj → Broker
placed b r o = record b {
  b_obj_list = insert_tail (remove r b.b_obj_list) r;
  mem = update b.mem r (record o { id = u64 (b.id + 1) });
  id = u64 (b.id + 1);
}

pub eq_refl : (x : ℕ) → (x == x) ≡ true
eq_refl x = ground arith

pub update_self {ℓ} : {A : Type ℓ} (f : ℕ → A) (x : ℕ) (v : A) → update f x v x ≡ v
update_self f x v = rw (eq_refl x)

pub update_ne {ℓ} :
    {A : Type ℓ} (f : ℕ → A) (x : ℕ) (v : A) (y : ℕ) → (x == y) ≡ false → update f x v y ≡ f y
update_ne f x v y h = rw h

pub update-update {ℓ} :
    {A : Type ℓ} (f : ℕ → A) (x : ℕ) (v w : A) → update (update f x v) x w ≡ update f x w
update-update f x v w = fun_ext λ y. ground arith

-- An address that is not in the list is unlike any that is.
pub ne_of_contains :
    (r x : ℕ) (l : List ℕ) → contains r l ≡ false → contains x l ≡ true → (r == x) ≡ false
ne_of_contains r x l h m = elim (Bool-cases (r == x)) [
  | inl e ↦ let p = ap (λ y. contains y l) (==→eq r x e) in cc
  | inr e ↦ e
]

module _ {b : Broker} (v : Inv b) (r : ℕ) where
  pub not_client : contains r b.b_obj_list ≡ false → contains r b.b_client_list ≡ false
  not_client h = elim (Bool-cases (contains r b.b_client_list)) [
    | inl m ↦
        let q = All-at (λ c. contains c b.b_obj_list ≡ true) b.b_client_list r m v.clients_queued in
        cc
    | inr m ↦ m
  ]

  module _ (o : BrokerObj) (i : o.is_obj ≡ true) (fits : b.id + 1 < 2 ^ 64) where
    placed-Known :
        contains r b.b_client_list ≡ false
        → All (Known (placed b r o).mem b.b_client_list (placed b r o).id) (placed b r o).b_obj_list
    placed-Known n =
        All-append _ (remove r b.b_obj_list) (r ∷ [])
          (All-mono (Known b.mem b.b_client_list b.id) _ (remove r b.b_obj_list)
            (λ x m k.
              let other =
                ne_of_contains r x (remove r b.b_obj_list)
                  (contains-remove_self r b.b_obj_list v.queue_distinct) m in
              rw other (k.0, omega arith, k.2))
            (All-remove _ r b.b_obj_list v.known))
          (
            (
              rw (eq_refl r) (ground arith),
              rw (eq_refl r) (omega arith),
              rw (eq_refl r) (ground arith),
            ),
            tt,
          )

    placed-ordered : Pairwise (InOrder (placed b r o).mem) (placed b r o).b_obj_list
    placed-ordered =
        Pairwise-insert_tail _ r (remove r b.b_obj_list)
          (All-mono (Known b.mem b.b_client_list b.id) _ (remove r b.b_obj_list)
            (λ x m k. rw (other x m, eq_refl r) (ground arith))
            (All-remove _ r b.b_obj_list v.known))
          (Pairwise-mono (InOrder b.mem) _ (remove r b.b_obj_list)
            (λ x y m n h. rw (other x m, other y n) h) (Pairwise-remove _ r b.b_obj_list v.ordered))
      where
        other : (x : ℕ) → contains x (remove r b.b_obj_list) ≡ true → (r == x) ≡ false
        other x m =
            ne_of_contains r x (remove r b.b_obj_list)
              (contains-remove_self r b.b_obj_list v.queue_distinct) m

    pub placed-Inv : contains r b.b_client_list ≡ false → Inv (placed b r o)
    placed-Inv n = record {
      queue_distinct =
          distinct-insert_tail r (remove r b.b_obj_list)
            (distinct-remove r b.b_obj_list v.queue_distinct)
            (contains-remove_self r b.b_obj_list v.queue_distinct);
      clients_distinct = v.clients_distinct;
      clients_queued =
          All-mono (λ c. contains c b.b_obj_list ≡ true) _ b.b_client_list
            (λ c m q. ground (
              arith,
              contains-append c (remove r b.b_obj_list) (r ∷ []),
              contains-remove_ne c r b.b_obj_list,
              ne_of_contains r c b.b_client_list n m,
            ))
            v.clients_queued;
      known = placed-Known n;
      ordered = placed-ordered;
      top_fits = omega arith;
    }

-- The three operations as one: what they write into the `broker_obj`.

abbrev pub flagged : BrokerObj → Bool → BrokerObj
flagged o d = record o { flags = record (o.flags) { is_delete = d } }

abbrev with_mem : Broker → ℕ → (ℕ → BrokerObj) → Broker
with_mem b r m = record b {
  b_obj_list = insert_tail (remove r b.b_obj_list) r;
  mem = m;
  id = u64 (b.id + 1);
}

pub move_to_top-set_delete :
    (b : Broker) (r : ℕ) (d : Bool)
    → move_to_top (set_delete b r d) r ≡ placed b r (flagged (b.mem r) d)
unfolding move_to_top set_delete
move_to_top-set_delete b r d = ap (with_mem b r) (fun_ext λ x. ground arith)

move_to_top-placed :
    (b : Broker) (r : ℕ)
    → (b.mem r).is_delete ≡ false
    → move_to_top b r ≡ placed b r (flagged (b.mem r) false)
unfolding move_to_top
move_to_top-placed b r e = ap (with_mem b r) (fun_ext λ x. ground arith)

module _ {W : Type 0} (ops : BrokerOps W) where
  pub broker_add_obj-placed :
      (s : State W) (r type : ℕ)
      → contains r s.b_obj_list ≡ false
      → (broker_add_obj ops s r type).broker
        ≡ placed s.broker r (record { obj_type = type; flags = obj_flags; id = 0 })
  unfolding broker_add_obj
  broker_add_obj-placed s r type h = rw (remove_absent r s.b_obj_list h)

  pub broker_upd_obj-placed :
      (s : State W) (r : ℕ)
      → (broker_upd_obj ops s r).broker ≡ placed s.broker r (flagged (s.mem r) false)
  unfolding broker_upd_obj
  broker_upd_obj-placed s r = elim (Bool-cases (s.mem r).is_delete) [
    | inl e ↦ rw e (move_to_top-set_delete s.broker r false)
    | inr e ↦ rw e (move_to_top-placed s.broker r e)
  ]

  pub broker_del_obj-placed :
      (s : State W) (r : ℕ)
      → is_empty s.b_client_list ≡ false
      → (broker_del_obj ops s r).broker ≡ placed s.broker r (flagged (s.mem r) true)
  unfolding broker_del_obj
  broker_del_obj-placed s r e = rw e (move_to_top-set_delete s.broker r true)
