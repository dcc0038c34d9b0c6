-- ===== src/Route/Table/Levels.antt =====
-- The calls of one broker on the table of topics: what the release of an object does, and that the
-- calls for clients keep the table and the queues in step.
use vyatta_route_broker.Base.{
  ℕ, ◌≡◌, ◌∙◌, refl, inl, inr, Bool, true, false, ◌&&◌, List, [], ◌∷◌, some, String, arith, ◌==◌,
  if◌then◌else◌, contains, distinct, Bool-cases, Option-cases, ==→eq, All, All-contains, All-mono,
}
use vyatta_route_broker.Circleq.{remove}
use vyatta_route_broker.Circleq.Laws.{contains-remove_ne, contains_of-after}
use vyatta_route_broker.Broker.{
  Broker, BrokerClientOps, State, broker_del_obj_now, release_unneeded, release_walk,
  broker_client_delete, broker_client_get_data, broker_get_next_data_obj, broker_client_create,
  advance, consume, release_consumed, count_consumed, no_clients_need_this, caught_up,
}
use vyatta_route_broker.Broker.Invariant.{Inv}
use vyatta_route_broker.Broker.Placed.{eq_refl, ne_of_contains}
use vyatta_route_broker.Broker.Removed.{
  removed, without_client, without_client-Inv, release_unneeded-Inv,
}
use vyatta_route_broker.Broker.Moved.{joined, start_id, broker_client_create-joined}
use vyatta_route_broker.Broker.Consume.{next_data_obj_facts, advance-Inv}
use vyatta_route_broker.Broker.Holds.{
  holds, holds-removed, holds-joined, holds-without_client, holds-caught_up, holds-advance,
}
use vyatta_route_broker.Zhash.{Zhash}
use vyatta_route_broker.Route.Types.{World, route_broker_ops}
use vyatta_route_broker.Route.Table.{Tabled, Tabled-ext, but_for}
use vyatta_route_broker.Route.Table.Release.{unlock-Tabled}

-- The queue of the priority `i` is that of the broker `b`, the others are as `q` says.
abbrev pub with_level : (ℕ → ℕ → Bool) → ℕ → Broker → ℕ → ℕ → Bool
with_level q i b j x = if i == j then holds b x else q j x

with_level_self : (q : ℕ → ℕ → Bool) (i : ℕ) (b : Broker) (x : ℕ) → with_level q i b i x ≡ holds b x
with_level_self q i b x = rw (eq_refl i) refl

with_level_ext :
    (q : ℕ → ℕ → Bool) (i : ℕ) (b c : Broker)
    → ((x : ℕ) → holds c x ≡ holds b x)
    → (j x : ℕ) → with_level q i c j x ≡ with_level q i b j x
with_level_ext q i b c e j x = elim (Bool-cases (i == j)) [ inl h ↦ rw h (e x) | inr h ↦ rw h refl ]

apart_of_distinct :
    (x y : ℕ) (xs : List ℕ) → contains y xs ≡ true → contains x xs ≡ false → (y == x) ≡ false
apart_of_distinct x y xs m n = ground (arith, ne_of_contains x y xs n m)

module _ {H : Zhash} {D : Type 0} (q : ℕ → ℕ → Bool) (i : ℕ) where
  -- The broker of the priority `i` in its state, among the others.
  abbrev pub InStep : State (World H D) → Type 0
  InStep s = Tabled (with_level q i s.broker) s.world

  pub same-InStep :
      (s : State (World H D)) (b : Broker)
      → ((x : ℕ) → holds b x ≡ holds s.broker x)
      → InStep s
      → InStep (record s { broker = b })
  same-InStep s b e v = Tabled-ext (with_level_ext q i s.broker b e) v

  -- An object of one queue is in no other.
  removed_level :
      (s : State (World H D)) (r j x : ℕ)
      → InStep s
      → distinct s.b_obj_list ≡ true
      → holds s.broker r ≡ true
      → with_level q i (removed s.broker r) j x ≡ but_for (with_level q i s.broker) r j x
  removed_level s r j x v d h = elim (Bool-cases (i == j)) [
    | inl e ↦ rw e (holds-removed s.broker r x d)
    | inr e ↦ elim (Bool-cases (r == x)) [
      | inl same ↦ elim (Bool-cases (q j x)) [
        | inl m ↦
            let here = v.leveled i r (with_level_self q i s.broker r ∙ h) in
            let r_there : with_level q i s.broker j r ≡ true = rw (e, ==→eq r x same) m in
            let there = v.leveled j r r_there in absurd (ground arith)
        | inr m ↦ rw (e, m) refl
      ]
      | inr other ↦ rw (e, other) (ground arith)
    ]
  ]

  pub del_obj_now-InStep :
      (s : State (World H D)) (r : ℕ)
      → Inv s.broker
      → holds s.broker r ≡ true
      → InStep s
      → InStep (broker_del_obj_now route_broker_ops s r)
  unfolding broker_del_obj_now route_broker_ops
  del_obj_now-InStep s r v h k =
      Tabled-ext (λ j x. removed_level s r j x k v.queue_distinct h)
        (unlock-Tabled i r k (with_level_self q i s.broker r ∙ h))

  -- What `release_unneeded` asks before it releases an element.
  abbrev unneeded : State (World H D) → ℕ → Bool
  unneeded s x = (s.mem x).is_obj && (s.mem x).is_delete && no_clients_need_this s.broker x

  release_unneeded-InStep :
      (s : State (World H D)) (x : ℕ)
      → Inv s.broker
      → contains x s.b_obj_list ≡ true
      → InStep s
      → InStep (release_unneeded route_broker_ops s x)
  unfolding release_unneeded
  release_unneeded-InStep s x v m k = elim (Bool-cases (unneeded s x)) [
    | inl e ↦ rw (e, release_unneeded) (del_obj_now-InStep s x v (ground arith) k)
    | inr e ↦ rw (e, release_unneeded) k
  ]

  contains-release_unneeded :
      (s : State (World H D)) (x y : ℕ)
      → (y == x) ≡ false
      → contains y (release_unneeded route_broker_ops s x).b_obj_list ≡ contains y s.b_obj_list
  unfolding release_unneeded broker_del_obj_now
  contains-release_unneeded s x y ne = elim (Bool-cases (unneeded s x)) [
    | inl e ↦ rw (e, release_unneeded) (contains-remove_ne y x s.b_obj_list (ground arith))
    | inr e ↦ rw (e, release_unneeded) refl
  ]

  release_walk-InStep :
      (s : State (World H D)) (l : List ℕ)
      → Inv s.broker
      → distinct l ≡ true
      → All (λ x. contains x s.b_obj_list ≡ true) l
      → InStep s
      → InStep (release_walk route_broker_ops s l)
  unfolding release_walk
  release_walk-InStep s [] v d a k = k
  release_walk-InStep s (x ∷ xs) v d a k =
      release_walk-InStep (release_unneeded route_broker_ops s x) xs
        (release_unneeded-Inv route_broker_ops s x v) (ground arith)
        (All-mono (λ y. contains y s.b_obj_list ≡ true) _ xs
          (λ y m h. contains-release_unneeded s x y (apart_of_distinct x y xs m (ground arith)) ∙ h)
          a.1)
        (release_unneeded-InStep s x v a.0 k)

  pub client_delete-InStep :
      (s : State (World H D)) (c : ℕ)
      → Inv s.broker
      → contains c s.b_client_list ≡ true
      → InStep s
      → InStep (broker_client_delete route_broker_ops s c)
  unfolding broker_client_delete
  client_delete-InStep s c v m k =
      let left = without_client-Inv c v in
      release_walk-InStep (record s { broker = without_client s.broker c }) (remove c s.b_obj_list)
        left left.queue_distinct (All-contains _ _ (λ x h. h))
        (same-InStep s (without_client s.broker c) (λ x. holds-without_client c x v m) k)

  pub client_create-InStep :
      (s : State (World H D)) (c : ℕ) (n : String)
      → contains c s.b_obj_list ≡ false
      → InStep s
      → InStep (record s { broker = (broker_client_create s.broker true (some c) (some n)).0 })
  client_create-InStep s c n h k = rw (broker_client_create-joined s.broker c n h) (
      same-InStep s (joined s.broker c n (start_id s.broker))
        (λ x. holds-joined s.broker c n (start_id s.broker) x h) k)

  release_consumed-InStep :
      (s : State (World H D)) (o : ℕ)
      → Inv s.broker
      → holds s.broker o ≡ true
      → InStep s
      → InStep (release_consumed route_broker_ops s o)
  unfolding release_consumed
  release_consumed-InStep s o v h k =
      elim (Bool-cases ((s.mem o).is_delete && no_clients_need_this s.broker o)) [
        | inl e ↦ rw (e, release_consumed) (del_obj_now-InStep s o v h k)
        | inr e ↦ rw (e, release_consumed) k
      ]

  -- The counter of a client is no part of it.
  consumed :
      (s : State (World H D)) (c o : ℕ)
      → Inv (advance s.broker c o)
      → holds (advance s.broker c o) o ≡ true
      → InStep (record s { broker = advance s.broker c o })
      → InStep (consume route_broker_ops s c o)
  unfolding consume count_consumed
  consumed s c o v h k =
      let t = release_consumed route_broker_ops (record s { broker = advance s.broker c o }) o in
      same-InStep t (count_consumed t.broker c) (λ x. refl)
        (release_consumed-InStep (record s { broker = advance s.broker c o }) o v h k)

  pub get_data-InStep :
      (client_ops : BrokerClientOps (World H D) D) (s : State (World H D)) (c : ℕ)
      → Inv s.broker
      → contains c s.b_client_list ≡ true
      → InStep s
      → InStep (broker_client_get_data route_broker_ops client_ops s (some c)).1
  unfolding broker_client_get_data
  get_data-InStep client_ops s c v m k = elim (Option-cases (broker_get_next_data_obj s.broker c)) [
    | inl e ↦
        rw (e, broker_client_get_data)
          (same-InStep s (caught_up s.broker c) (holds-caught_up s.broker c) k)
    | inr (o, e) ↦
        let facts = next_data_obj_facts s.broker c o e in
        let mo = contains_of-after o c s.b_obj_list facts.0 in
        let held : holds s.broker o ≡ true = ground (arith, mo, facts.1) in
        let moved = advance-Inv v c o m mo facts.1 in
        let still = holds-advance c o o v m mo facts.1 ∙ held in
        rw (e, broker_client_get_data)
          (consumed s c o (advance-Inv v c o m mo facts.1) still
            (same-InStep s (advance s.broker c o) (λ x. holds-advance c o x v m mo facts.1) k))
  ]
