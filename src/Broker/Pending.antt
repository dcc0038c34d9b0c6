-- ===== src/Broker/Pending.antt =====
-- What each operation does to what the clients have still to be told of: the broker is a queue of
-- its own for each client.
use mathlib.Core.Path.{ap₂, fun_ext, ◌≡⟨◌⟩◌, ◌∎}
use vyatta_route_broker.Base.{
  ℕ, ◌≡◌, ◌≢◌, refl, ap, inl, inr, Bool, true, false, [], ◌∷◌, ◌++◌, some, String, arith, ◌==◌,
  Bool-cases, ==→eq, contains, filter, filter-append, ◌∙◌, sym,
}
use vyatta_route_broker.Circleq.{insert_tail, remove, insert_after, after, first}
use vyatta_route_broker.Circleq.Laws.{
  contains-remove_ne, contains-remove_self, after-insert_tail, after-remove,
  after-insert_after_self, filter-after-insert_after, filter-remove, filter_ext, contains_of-after,
  filter-first, filter-remove_skip, after-after,
}
use vyatta_route_broker.Broker.{Broker, BrokerObj, advance, broker_get_next_data_obj}
use vyatta_route_broker.Broker.Invariant.{Inv, pending}
use vyatta_route_broker.Broker.Needs.{client_facts}
use vyatta_route_broker.Broker.Placed.{placed, eq_refl, ne_of_contains}
use vyatta_route_broker.Broker.Removed.{removed, without_client}
use vyatta_route_broker.Broker.Moved.{first_obj-first, joined}
use vyatta_route_broker.Broker.Consume.{client_ne, next_data_obj_facts}

-- The search finds the first of what is pending.
pub next_data_obj-pending :
    (b : Broker) (c : ℕ) → broker_get_next_data_obj b c ≡ first (pending b c)
unfolding broker_get_next_data_obj
next_data_obj-pending b c = first_obj-first b (after c b.b_obj_list)

-- No object or client changes its kind when a client moves.
pub advance-kinds :
    (b : Broker) (c o : ℕ)
    → ◌≡◌ {A = ℕ → Bool} (λ x. ((advance b c o).mem x).is_obj) (λ x. (b.mem x).is_obj)
unfolding advance
advance-kinds b c o = fun_ext λ x. elim (Bool-cases (c == x)) [
  | inl e ↦ rw e (ap (λ y. (b.mem y).is_obj) (==→eq c x e))
  | inr e ↦ rw e refl
]

module _ {b : Broker} (v : Inv b) (c : ℕ) (m : contains c b.b_client_list ≡ true) where
  -- An object that goes to the tail becomes the last that is pending.
  pub pending-placed :
      (r : ℕ) (o : BrokerObj)
      → o.is_obj ≡ true
      → contains r b.b_client_list ≡ false
      → pending (placed b r o) c ≡ insert_tail (remove r (pending b c)) r
  pending-placed r o i n =
      let other = ne_of_contains r c b.b_client_list n m in
      let rest = remove r b.b_obj_list in
      let queued : contains c rest ≡ true =
        ground (arith, (client_facts c v m).0, contains-remove_ne c r b.b_obj_list) in
      let moved : after c rest ≡ remove r (after c b.b_obj_list) =
        after-remove c r b.b_obj_list (ground arith) v.queue_distinct in
      let same =
        filter_ext (λ x. ((placed b r o).mem x).is_obj) (λ x. (b.mem x).is_obj) (after c rest)
          (λ x k.
            rw
              (ne_of_contains r x rest (contains-remove_self r b.b_obj_list v.queue_distinct)
                (contains_of-after x c rest k))
              refl) in
      let single : filter (λ x. ((placed b r o).mem x).is_obj) (r ∷ []) ≡ r ∷ [] =
        ground (arith, eq_refl r, i) in
      rw (after-insert_tail c r rest queued, filter-append)
        (ap₂ ◌++◌
          (same
            ∙ ap (filter (λ x. (b.mem x).is_obj)) moved
            ∙ filter-remove (λ x. (b.mem x).is_obj) r (after c b.b_obj_list))
          single)

  -- An object that leaves the queue is pending no more; the others stay, in order.
  pub pending-removed :
      (r : ℕ)
      → contains r b.b_client_list ≡ false
      → pending (removed b r) c ≡ remove r (pending b c)
  pending-removed r n =
      let other = ne_of_contains r c b.b_client_list n m in
      rw (after-remove c r b.b_obj_list (ground arith) v.queue_distinct)
        (filter-remove (λ x. (b.mem x).is_obj) r (after c b.b_obj_list))

  -- A client that is told of an object is told of the others later, in the same order.
  pub pending-advance_self :
      (o : ℕ) → broker_get_next_data_obj b c ≡ some o → pending b c ≡ o ∷ pending (advance b c o) c
  unfolding advance
  pending-advance_self o e =
      let isd : ℕ → Bool = λ x. (b.mem x).is_obj in
      let facts = next_data_obj_facts b c o e in
      let mo = contains_of-after o c b.b_obj_list facts.0 in
      let ne = client_ne v c o m mo facts.1 in
      let gone = contains-remove_self c b.b_obj_list v.queue_distinct in
      let left : contains o (remove c b.b_obj_list) ≡ true =
        ground (arith, contains-remove_ne o c b.b_obj_list) in
      pending b c
      ≡⟨ filter-first isd o (after c b.b_obj_list) (sym (next_data_obj-pending b c) ∙ e) ⟩
        o ∷ filter isd (after o (after c b.b_obj_list))
      ≡⟨ ap (λ l. o ∷ filter isd l) (after-after c o b.b_obj_list v.queue_distinct facts.0) ⟩
        o ∷ filter isd (after o b.b_obj_list)
      ≡⟨ ap (◌∷◌ o) (sym (filter-remove_skip isd c (after o b.b_obj_list) (client_facts c v m).1)) ⟩
        o ∷ filter isd (remove c (after o b.b_obj_list))
      ≡⟨ ap (λ l. o ∷ filter isd l)
          (sym (after-remove o c b.b_obj_list (ground arith) v.queue_distinct)) ⟩
        o ∷ filter isd (after o (remove c b.b_obj_list))
      ≡⟨ ap (λ l. o ∷ filter isd l)
          (sym (after-insert_after_self o c (remove c b.b_obj_list) gone left)) ⟩
        o ∷ filter isd (after c (insert_after o c (remove c b.b_obj_list)))
      ≡⟨ ap (λ p. o ∷ filter p (after c (insert_after o c (remove c b.b_obj_list))))
          (sym (advance-kinds b c o)) ⟩
        o ∷ pending (advance b c o) c ∎

  -- The other clients notice nothing.
  pub pending-advance_other :
      (o d : ℕ) → contains o b.b_obj_list ≡ true → d ≢ c → pending (advance b c o) d ≡ pending b d
  unfolding advance
  pending-advance_other o d mo ne =
      let isd : ℕ → Bool = λ x. (b.mem x).is_obj in
      let ic = (client_facts c v m).1 in
      pending (advance b c o) d
      ≡⟨ ap (λ p. filter p (after d (insert_after o c (remove c b.b_obj_list))))
          (advance-kinds b c o) ⟩
        filter isd (after d (insert_after o c (remove c b.b_obj_list)))
      ≡⟨ filter-after-insert_after isd d o c (remove c b.b_obj_list) ne ic ⟩
        filter isd (after d (remove c b.b_obj_list))
      ≡⟨ ap (filter isd) (after-remove d c b.b_obj_list ne v.queue_distinct) ⟩
        filter isd (remove c (after d b.b_obj_list))
      ≡⟨ filter-remove_skip isd c (after d b.b_obj_list) ic ⟩ pending b d ∎

  -- Nor do they when the client leaves.
  pub pending-without_client : (d : ℕ) → d ≢ c → pending (without_client b c) d ≡ pending b d
  pending-without_client d ne =
      rw (after-remove d c b.b_obj_list ne v.queue_distinct)
        (filter-remove_skip (λ x. (b.mem x).is_obj) c (after d b.b_obj_list) (client_facts c v m).1)

module _ (b : Broker) (c : ℕ) (n : String) (i : ℕ) (h : contains c b.b_obj_list ≡ false) where
  -- A new client has to be told of every object, in the order of the queue.
  pub pending-joined_self : pending (joined b c n i) c ≡ filter (λ x. (b.mem x).is_obj) b.b_obj_list
  pending-joined_self = rw (eq_refl c) (
      filter_ext _ (λ x. (b.mem x).is_obj) b.b_obj_list
        (λ x m. rw (ne_of_contains c x b.b_obj_list h m) refl))

  pub pending-joined_other : (d : ℕ) → d ≢ c → pending (joined b c n i) d ≡ pending b d
  pending-joined_other d ne =
      let other : (d == c) ≡ false = ground arith in
      rw other (
        filter_ext _ (λ x. (b.mem x).is_obj) (after d b.b_obj_list)
          (λ x m.
            rw (ne_of_contains c x b.b_obj_list h (contains_of-after x d b.b_obj_list m)) refl))
