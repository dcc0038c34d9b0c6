-- ===== src/Broker/Release.antt =====
-- An object is released only when no client has to be told of it: what the releases of
-- `broker_client_get_data` and `broker_client_delete` leave as it was.
use vyatta_route_broker.Base.{
  ℕ, ◌≡◌, refl, ap, ◌∙◌, inl, inr, true, false, ◌&&◌, List, [], ◌∷◌, arith, ◌==◌, Bool-cases, ==→eq,
  contains,
}
use vyatta_route_broker.Circleq.Laws.{remove_absent}
use vyatta_route_broker.Broker.{
  Broker, State, BrokerOps, no_clients_need_this, broker_del_obj_now, release_unneeded,
  release_walk, release_consumed,
}
use vyatta_route_broker.Broker.Invariant.{Inv, pending, wanted_by}
use vyatta_route_broker.Broker.Needs.{no_clients_need_this-is_wanted}
use vyatta_route_broker.Broker.Removed.{removed, obj_not_client, release_unneeded-Inv}
use vyatta_route_broker.Broker.Pending.{pending-removed}

not_wanted_by :
    (b : Broker) (o d : ℕ) (cs : List ℕ)
    → wanted_by b o cs ≡ false
    → contains d cs ≡ true
    → contains o (pending b d) ≡ false
not_wanted_by b o d [] w m = cc
not_wanted_by b o d (c ∷ cs) w m = elim (Bool-cases (d == c)) [
  | inl e ↦ let p = ap (λ x. contains o (pending b x)) (==→eq d c e) in ground arith
  | inr e ↦ ground (arith, not_wanted_by b o d cs)
]

-- What is not needed is not pending for any client.
pub unneeded_not_pending :
    {b : Broker} (o d : ℕ)
    → Inv b
    → contains o b.b_obj_list ≡ true
    → (b.mem o).is_obj ≡ true
    → no_clients_need_this b o ≡ true
    → contains d b.b_client_list ≡ true
    → contains o (pending b d) ≡ false
unneeded_not_pending {b} o d v mo io n m =
    not_wanted_by b o d b.b_client_list (ground (arith, no_clients_need_this-is_wanted o v mo io)) m

-- So its release changes nothing for the clients.
pub pending-removed_unneeded :
    {b : Broker} (o d : ℕ)
    → Inv b
    → (b.mem o).is_obj ≡ true
    → no_clients_need_this b o ≡ true
    → contains d b.b_client_list ≡ true
    → pending (removed b o) d ≡ pending b d
pending-removed_unneeded {b} o d v io n m = elim (Bool-cases (contains o b.b_obj_list)) [
  | inl mo ↦
      pending-removed v d m o (obj_not_client o v io)
      ∙ remove_absent o (pending b d) (unneeded_not_pending o d v mo io n m)
  | inr no_o ↦ rw (remove_absent o b.b_obj_list no_o) refl
]

module _ {W : Type 0} (ops : BrokerOps W) where
  -- The state keeps all that the clients see.
  pub record SameView (s t : State W) : Type 0 where
    pub same_clients : t.b_client_list ≡ s.b_client_list
    pub same_mem : t.mem ≡ s.mem
    pub same_id : t.id ≡ s.id
    pub same_pending :
        (d : ℕ) → contains d s.b_client_list ≡ true → pending t.broker d ≡ pending s.broker d

  SameView-refl : (s : State W) → SameView s s
  SameView-refl s = record {
    same_clients = refl;
    same_mem = refl;
    same_id = refl;
    same_pending = λ d m. refl;
  }

  SameView-trans : (s t u : State W) → SameView s t → SameView t u → SameView s u
  SameView-trans s t u p q = record {
    same_clients = q.same_clients ∙ p.same_clients;
    same_mem = q.same_mem ∙ p.same_mem;
    same_id = q.same_id ∙ p.same_id;
    same_pending = λ d m. q.same_pending d (rw p.same_clients m) ∙ p.same_pending d m;
  }

  pub del_obj_now-SameView :
      (s : State W) (o : ℕ)
      → Inv s.broker
      → (s.mem o).is_obj ≡ true
      → no_clients_need_this s.broker o ≡ true
      → SameView s (broker_del_obj_now ops s o)
  unfolding broker_del_obj_now
  del_obj_now-SameView s o v io n = record {
    same_clients = refl;
    same_mem = refl;
    same_id = refl;
    same_pending = λ d m. pending-removed_unneeded o d v io n m;
  }

  pub release_unneeded-SameView :
      (s : State W) (x : ℕ) → Inv s.broker → SameView s (release_unneeded ops s x)
  unfolding release_unneeded
  release_unneeded-SameView s x v =
      elim (Bool-cases
        ((s.mem x).is_obj && (s.mem x).is_delete && no_clients_need_this s.broker x)) [
          | inl e ↦ rw e (del_obj_now-SameView s x v (ground arith) (ground arith))
          | inr e ↦ rw e (SameView-refl s)
        ]

  pub release_walk-SameView :
      (s : State W) (l : List ℕ) → Inv s.broker → SameView s (release_walk ops s l)
  unfolding release_walk
  release_walk-SameView s [] v = SameView-refl s
  release_walk-SameView s (x ∷ xs) v =
      let t = release_unneeded ops s x in
      SameView-trans s t (release_walk ops t xs) (release_unneeded-SameView s x v)
        (release_walk-SameView t xs (release_unneeded-Inv ops s x v))

  pub release_consumed-SameView :
      (s : State W) (o : ℕ)
      → Inv s.broker
      → (s.mem o).is_obj ≡ true
      → SameView s (release_consumed ops s o)
  unfolding release_consumed
  release_consumed-SameView s o v io =
      elim (Bool-cases ((s.mem o).is_delete && no_clients_need_this s.broker o)) [
        | inl e ↦ rw e (del_obj_now-SameView s o v io (ground arith))
        | inr e ↦ rw e (SameView-refl s)
      ]
