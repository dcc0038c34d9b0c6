-- ===== src/Broker/Retain.antt =====
-- `broker_client_get_data` and `broker_client_create` leave no object behind that nobody wants.
use mathlib.Core.Path.{fun_ext}
use vyatta_route_broker.Base.{
  ℕ, ◌≡◌, refl, ap, inl, inr, Bool, true, false, [], ◌∷◌, some, String, arith, ◌==◌, Bool-cases,
  ==→eq, contains, filter, All-at, All-mono, All-contains, Option-cases,
}
use vyatta_route_broker.Circleq.{remove, after}
use vyatta_route_broker.Circleq.Laws.{contains_of-after, contains-remove_ne, contains-insert_after}
use vyatta_route_broker.Broker.{
  Broker, State, BrokerOps, BrokerClientOps, caught_up, advance, count_consumed, release_walk,
  release_consumed, consume, broker_get_next_data_obj, broker_client_get_data,
}
use vyatta_route_broker.Broker.Invariant.{Inv, pending, NoLeak}
use vyatta_route_broker.Broker.Needs.{client_facts}
use vyatta_route_broker.Broker.Placed.{ne_of_contains, eq_refl}
use vyatta_route_broker.Broker.Moved.{joined}
use vyatta_route_broker.Broker.Consume.{advance-Inv, advance-is_obj, client_ne, next_data_obj_facts}
use vyatta_route_broker.Broker.Pending.{
  advance-kinds, pending-advance_self, pending-advance_other, pending-joined_other,
}
use vyatta_route_broker.Broker.Leak.{Kept, Kept-mono, wanted_by_mono, release_walk-Kept}

-- A write of the id alone leaves the flags of every element.
pub caught_up-kinds :
    (b : Broker) (c : ℕ)
    → ◌≡◌ {A = ℕ → Bool} (λ x. ((caught_up b c).mem x).is_obj) (λ x. (b.mem x).is_obj)
unfolding caught_up
caught_up-kinds b c = fun_ext λ x. elim (Bool-cases (c == x)) [
  | inl e ↦ rw e (ap (λ y. (b.mem y).is_obj) (==→eq c x e))
  | inr e ↦ rw e refl
]

caught_up-marks : (b : Broker) (c x : ℕ) → ((caught_up b c).mem x).is_delete ≡ (b.mem x).is_delete
unfolding caught_up
caught_up-marks b c x = elim (Bool-cases (c == x)) [
  | inl e ↦ rw e (ap (λ y. (b.mem y).is_delete) (==→eq c x e))
  | inr e ↦ rw e refl
]

advance-marks : (b : Broker) (c o x : ℕ) → ((advance b c o).mem x).is_delete ≡ (b.mem x).is_delete
unfolding advance
advance-marks b c o x = elim (Bool-cases (c == x)) [
  | inl e ↦ rw e (ap (λ y. (b.mem y).is_delete) (==→eq c x e))
  | inr e ↦ rw e refl
]

pub pending-caught_up : (b : Broker) (c d : ℕ) → pending (caught_up b c) d ≡ pending b d
unfolding caught_up
pending-caught_up b c d = ap (λ p. filter p (after d b.b_obj_list)) (caught_up-kinds b c)

caught_up-NoLeak : (b : Broker) (c : ℕ) → NoLeak b → NoLeak (caught_up b c)
unfolding caught_up
caught_up-NoLeak b c k =
    All-mono (Kept b) _ b.b_obj_list
      (λ x m.
        Kept-mono b (caught_up b c) x (ap (λ (p : ℕ → Bool). p x) (caught_up-kinds b c))
          (caught_up-marks b c x) refl (λ d _ w. rw (pending-caught_up b c d) w))
      k

-- Whoever had still to be told of an element has so after the move, but for the object passed.
advance-Kept :
    {b : Broker} (c o x : ℕ)
    → Inv b
    → contains c b.b_client_list ≡ true
    → broker_get_next_data_obj b c ≡ some o
    → (x == o) ≡ false
    → Kept b x
    → Kept (advance b c o) x
unfolding advance
advance-Kept {b} c o x v m e ne k =
    let mo = contains_of-after o c b.b_obj_list (next_data_obj_facts b c o e).0 in
    Kept-mono b (advance b c o) x (ap (λ (p : ℕ → Bool). p x) (advance-kinds b c o))
      (advance-marks b c o x) refl
      (λ d _ w. elim (Bool-cases (d == c)) [
        | inl q ↦
            let r = ap (λ y. contains x (pending b y)) (==→eq d c q) in
            let t = ap (contains x) (pending-advance_self v c m o e) in
            rw (==→eq d c q) (ground arith)
        | inr q ↦ rw (pending-advance_other v c m o d mo (ground arith)) w
      ])
      k

count_consumed-NoLeak : (b : Broker) (c : ℕ) → NoLeak b → NoLeak (count_consumed b c)
unfolding count_consumed
count_consumed-NoLeak b c k =
    All-mono (Kept b) _ b.b_obj_list
      (λ x m. Kept-mono b (count_consumed b c) x refl refl refl (λ d _ w. w)) k

-- Each element of the queue behind the move was kept before it: the client itself is no object.
Kept-before :
    {b : Broker} (v : Inv b) (c o : ℕ)
    → contains c b.b_client_list ≡ true
    → contains o b.b_obj_list ≡ true
    → (b.mem o).is_obj ≡ true
    → NoLeak b
    → (y : ℕ) → contains y (advance b c o).b_obj_list ≡ true
    → Kept b y
unfolding advance
Kept-before {b} v c o m mo io k y n = elim (Bool-cases (y == c)) [
  | inl e ↦
      let r = ap (λ x. (b.mem x).is_obj) (==→eq y c e) in ground (arith, (client_facts c v m).1)
  | inr e ↦
      All-at (Kept b) b.b_obj_list y
        (ground (
          arith,
          contains-insert_after y o c (remove c b.b_obj_list),
          contains-remove_ne o c b.b_obj_list,
          client_ne v c o m mo io,
          contains-remove_ne y c b.b_obj_list,
        ))
        k
]

module _ {W : Type 0} (ops : BrokerOps W) where
  release_consumed-unneeded :
      (s : State W) (o : ℕ)
      → (s.mem o).is_obj ≡ true
      → release_consumed ops s o ≡ release_walk ops s (o ∷ [])
  unfolding release_consumed release_walk
  release_consumed-unneeded s o i = rw i refl

  pub consume-NoLeak :
      (s : State W) (c o : ℕ)
      → Inv s.broker
      → contains c s.b_client_list ≡ true
      → broker_get_next_data_obj s.broker c ≡ some o
      → NoLeak s.broker
      → NoLeak (consume ops s c o).broker
  unfolding consume
  consume-NoLeak s c o v m e k =
      let facts = next_data_obj_facts s.broker c o e in
      let mo = contains_of-after o c s.b_obj_list facts.0 in
      let i = advance-is_obj v c o m mo facts.1 in
      let moved : State W = record s { broker = advance s.broker c o } in
      count_consumed-NoLeak (release_consumed ops moved o).broker c (
        rw (release_consumed-unneeded moved o i) (
          All-contains (Kept (release_walk ops moved (o ∷ [])).broker) _ (
            release_walk-Kept ops moved (o ∷ []) (advance-Inv v c o m mo facts.1) (λ y n h.
              advance-Kept c o y v m e (ground arith) (Kept-before v c o m mo facts.1 k y n)))))

  pub broker_client_get_data-NoLeak :
      {D : Type 0} (client_ops : BrokerClientOps W D) (s : State W) (c : ℕ)
      → Inv s.broker
      → contains c s.b_client_list ≡ true
      → NoLeak s.broker
      → NoLeak (broker_client_get_data ops client_ops s (some c)).1.broker
  unfolding broker_client_get_data
  broker_client_get_data-NoLeak client_ops s c v m k =
      elim (Option-cases (broker_get_next_data_obj s.broker c)) [
        | inl e ↦ rw (e, broker_client_get_data) (caught_up-NoLeak s.broker c k)
        | inr (o, e) ↦ rw (e, broker_client_get_data) (consume-NoLeak s c o v m e k)
      ]

pub joined-NoLeak :
    (b : Broker) (c : ℕ) (n : String) (i : ℕ)
    → contains c b.b_obj_list ≡ false
    → contains c b.b_client_list ≡ false
    → NoLeak b
    → NoLeak (joined b c n i)
joined-NoLeak b c n i h hc k = (
  rw (eq_refl c) refl,
  All-mono (Kept b) _ b.b_obj_list
      (λ x m w.
        let other = ne_of_contains c x b.b_obj_list h m in
        let still = wanted_by_mono b (joined b c n i) x b.b_client_list (λ d md p.
          let ne = ne_of_contains c d b.b_client_list hc md in
          rw (pending-joined_other b c n i h d (ground arith)) p) in
        rw other (ground (arith, still)))
      k,
)
