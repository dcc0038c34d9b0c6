-- ===== src/Broker/Leak.antt =====
-- No object that is marked as deleted stays when all clients have been told.
use vyatta_route_broker.Base.{
  ℕ, ◌≡◌, refl, ap, sym, ◌∙◌, inl, inr, true, false, ◌&&◌, ◌||◌, not, List, [], ◌∷◌, arith, ◌==◌,
  Bool-cases, ==→eq, contains, is_empty, All-contains, All-mono, All-append, contains-append,
}
use vyatta_route_broker.Circleq.{insert_tail, remove}
use vyatta_route_broker.Circleq.Laws.{
  contains_of-remove, contains-remove_self, contains-remove_ne, All-remove,
}
use vyatta_route_broker.Broker.{
  Broker, BrokerObj, State, BrokerOps, no_clients_need_this, release_unneeded, release_walk,
  broker_client_delete,
}
use vyatta_route_broker.Broker.Invariant.{Inv, pending, wanted_by, is_wanted, NoLeak}
use vyatta_route_broker.Broker.Needs.{no_clients_need_this-is_wanted}
use vyatta_route_broker.Broker.Placed.{placed, ne_of_contains, eq_refl}
use vyatta_route_broker.Broker.Removed.{
  removed, release_unneeded-Inv, without_client, without_client-Inv,
}
use vyatta_route_broker.Broker.Pending.{pending-removed, pending-placed}
use vyatta_route_broker.Broker.Release.{SameView, release_unneeded-SameView}

-- What `NoLeak` says of one element.
abbrev pub Kept : Broker → ℕ → Type 0
Kept b o = (not (b.mem o).is_obj || not (b.mem o).is_delete || is_wanted b o) ≡ true

-- Whoever wants an object still wants it, if it is still pending wherever it was.
pub wanted_by_mono :
    (b d : Broker) (o : ℕ) (cs : List ℕ)
    → ((c : ℕ)
        → contains c cs ≡ true
        → contains o (pending b c) ≡ true
        → contains o (pending d c) ≡ true)
    → wanted_by b o cs ≡ true
    → wanted_by d o cs ≡ true
wanted_by_mono b d o [] h w = w
wanted_by_mono b d o (c ∷ cs) h w = elim (Bool-cases (contains o (pending b c))) [
  | inl e ↦ rw (h c (rw (eq_refl c) refl) e) refl
  | inr e ↦
      let rest = wanted_by_mono b d o cs (λ x m. h x (ground arith)) (ground arith) in ground arith
]

pub Kept-mono :
    (b d : Broker) (o : ℕ)
    → (d.mem o).is_obj ≡ (b.mem o).is_obj
    → (d.mem o).is_delete ≡ (b.mem o).is_delete
    → d.b_client_list ≡ b.b_client_list
    → ((c : ℕ)
        → contains c b.b_client_list ≡ true
        → contains o (pending b c) ≡ true
        → contains o (pending d c) ≡ true)
    → Kept b o
    → Kept d o
Kept-mono b d o p p' q h k =
    ground (arith, wanted_by_mono b d o b.b_client_list h, ap (wanted_by d o) q)

wanted_by_all :
    (b : Broker) (o : ℕ) (cs : List ℕ)
    → is_empty cs ≡ false
    → ((c : ℕ) → contains c cs ≡ true → contains o (pending b c) ≡ true)
    → wanted_by b o cs ≡ true
wanted_by_all b o [] e h = cc
wanted_by_all b o (c ∷ cs) e h = rw (h c (rw (eq_refl c) refl)) refl

contains-placed :
    (x r : ℕ) (l : List ℕ)
    → contains x (insert_tail (remove r l) r) ≡ (x == r || contains x (remove r l))
contains-placed x r l = ground (arith, contains-append x (remove r l) (r ∷ []))

-- An object at the tail is pending for every client, so it may be marked as deleted if there is
-- one.
pub placed-NoLeak :
    {b : Broker} (r : ℕ) (o : BrokerObj)
    → Inv b
    → o.is_obj ≡ true
    → contains r b.b_client_list ≡ false
    → (o.is_delete && is_empty b.b_client_list) ≡ false
    → NoLeak b
    → NoLeak (placed b r o)
placed-NoLeak {b} r o v i n d k =
    All-append _ (remove r b.b_obj_list) (r ∷ [])
      (All-mono (Kept b) _ (remove r b.b_obj_list)
        (λ x m.
          Kept-mono b (placed b r o) x
            (rw
              (ne_of_contains r x (remove r b.b_obj_list)
                (contains-remove_self r b.b_obj_list v.queue_distinct) m)
              refl)
            (rw
              (ne_of_contains r x (remove r b.b_obj_list)
                (contains-remove_self r b.b_obj_list v.queue_distinct) m)
              refl)
            refl
            (λ c mc w.
              let other =
                ne_of_contains r x (remove r b.b_obj_list)
                  (contains-remove_self r b.b_obj_list v.queue_distinct) m in
              rw (pending-placed v c mc r o i n, contains-placed)
                (ground (arith, contains-remove_ne x r (pending b c)))))
        (All-remove _ r b.b_obj_list k))
      (ground (arith, eq_refl r, wanted_by_all (placed b r o) r b.b_client_list, told), tt)
  where
    told :
        (c : ℕ) → contains c b.b_client_list ≡ true → contains r (pending (placed b r o) c) ≡ true
    told c mc = rw (pending-placed v c mc r o i n, contains-placed, eq_refl r) refl

-- An object that is withdrawn takes nothing with it.
pub removed-NoLeak :
    {b : Broker} (r : ℕ)
    → Inv b
    → contains r b.b_client_list ≡ false
    → NoLeak b
    → NoLeak (removed b r)
removed-NoLeak {b} r v n k =
    All-mono (Kept b) _ (remove r b.b_obj_list)
      (λ x m. Kept-mono b (removed b r) x refl refl refl (λ c mc w.
        let other =
          ne_of_contains r x (remove r b.b_obj_list)
            (contains-remove_self r b.b_obj_list v.queue_distinct) m in
        rw (pending-removed v c mc r n) (ground (arith, contains-remove_ne x r (pending b c)))))
      (All-remove _ r b.b_obj_list k)

module _ {W : Type 0} (ops : BrokerOps W) where
  SameView-Kept : (s t : State W) (o : ℕ) → SameView ops s t → Kept s.broker o → Kept t.broker o
  SameView-Kept s t o q =
      Kept-mono s.broker t.broker o (ap (λ (m : ℕ → BrokerObj). (m o).is_obj) q.same_mem)
        (ap (λ (m : ℕ → BrokerObj). (m o).is_delete) q.same_mem) q.same_clients
        (λ c m w. rw (q.same_pending c m) w)

  release_unneeded-Kept :
      (s : State W) (x : ℕ)
      → Inv s.broker
      → contains x (release_unneeded ops s x).b_obj_list ≡ true
      → Kept (release_unneeded ops s x).broker x
  unfolding release_unneeded
  release_unneeded-Kept s x v =
      elim (Bool-cases
        ((s.mem x).is_obj && (s.mem x).is_delete && no_clients_need_this s.broker x)) [
          | inl e ↦
              rw (e, release_unneeded)
                (λ m. let gone = contains-remove_self x s.b_obj_list v.queue_distinct in cc)
          | inr e ↦
              rw (e, release_unneeded)
                (λ m. elim (Bool-cases (s.mem x).is_obj) [
                  | inl i ↦ ground (arith, no_clients_need_this-is_wanted x v m i)
                  | inr i ↦ ground arith
                ])
        ]

  contains_of-release_unneeded :
      (s : State W) (x y : ℕ)
      → contains y (release_unneeded ops s x).b_obj_list ≡ true
      → contains y s.b_obj_list ≡ true
  unfolding release_unneeded
  contains_of-release_unneeded s x y =
      elim (Bool-cases
        ((s.mem x).is_obj && (s.mem x).is_delete && no_clients_need_this s.broker x)) [
          | inl e ↦ rw (e, release_unneeded) (contains_of-remove y x s.b_obj_list)
          | inr e ↦ rw (e, release_unneeded) (λ m. m)
        ]

  -- After the walk, what stays is kept, if that held of all that the walk does not reach.
  pub release_walk-Kept :
      (s : State W) (l : List ℕ)
      → Inv s.broker
      → ((y : ℕ) → contains y s.b_obj_list ≡ true → contains y l ≡ false → Kept s.broker y)
      → (y : ℕ) → contains y (release_walk ops s l).b_obj_list ≡ true
      → Kept (release_walk ops s l).broker y
  unfolding release_walk
  release_walk-Kept s [] v h y m = h y m refl
  release_walk-Kept s (x ∷ xs) v h y m =
      release_walk-Kept t xs (release_unneeded-Inv ops s x v)
        (λ z n k. elim (Bool-cases (z == x)) [
          | inl e ↦
              let p = ==→eq z x e in
              rw p (release_unneeded-Kept s x v (sym (ap (λ w. contains w t.b_obj_list) p) ∙ n))
          | inr e ↦
              SameView-Kept s t z (release_unneeded-SameView ops s x v)
                (h z (contains_of-release_unneeded s x z n) (ground arith))
        ])
        y m
    where
      t : State W
      t = release_unneeded ops s x

  -- The walk over the whole queue leaves no object that is marked as deleted and not wanted.
  pub release_walk-NoLeak :
      (s : State W) → Inv s.broker → NoLeak (release_walk ops s s.b_obj_list).broker
  release_walk-NoLeak s v =
      All-contains (Kept (release_walk ops s s.b_obj_list).broker)
        (release_walk ops s s.b_obj_list).b_obj_list
        (release_walk-Kept s s.b_obj_list v (λ y m n. cc))

  pub broker_client_delete-NoLeak :
      (s : State W) (c : ℕ) → Inv s.broker → NoLeak (broker_client_delete ops s c).broker
  unfolding broker_client_delete
  broker_client_delete-NoLeak s c v =
      release_walk-NoLeak (record s { broker = without_client s.broker c }) (without_client-Inv c v)
