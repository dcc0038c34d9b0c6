-- ===== src/Broker/Holds.antt =====
-- Which objects the queue of a broker has, and what the operations do to that.
use vyatta_route_broker.Base.{
  ℕ, ◌≡◌, ◌∙◌, refl, ap, sym, inl, inr, Bool, true, false, ◌&&◌, not, [], ◌∷◌, String, arith, ◌==◌,
  if◌then◌else◌, contains, distinct, contains-append, Bool-cases, ==→eq,
}
use vyatta_route_broker.Circleq.{remove, insert_after}
use vyatta_route_broker.Circleq.Laws.{
  contains-remove_ne, contains-remove_self, contains-insert_after,
}
use vyatta_route_broker.Broker.{Broker, BrokerObj, advance, caught_up}
use vyatta_route_broker.Broker.Invariant.{Inv}
use vyatta_route_broker.Broker.Needs.{client_facts}
use vyatta_route_broker.Broker.Placed.{placed, eq_refl}
use vyatta_route_broker.Broker.Removed.{removed, without_client}
use vyatta_route_broker.Broker.Moved.{joined}
use vyatta_route_broker.Broker.Consume.{target_left}
use vyatta_route_broker.Broker.Pending.{advance-kinds}
use vyatta_route_broker.Broker.Retain.{caught_up-kinds}

abbrev pub holds : Broker → ℕ → Bool
holds b x = contains x b.b_obj_list && (b.mem x).is_obj

pub holds-placed :
    (b : Broker) (r : ℕ) (o : BrokerObj) (x : ℕ)
    → holds (placed b r o) x ≡ (if r == x then o.is_obj else holds b x)
holds-placed b r o x =
    ground (
      arith,
      contains-append x (remove r b.b_obj_list) (r ∷ []),
      contains-remove_ne x r b.b_obj_list,
    )

pub holds-removed :
    (b : Broker) (r x : ℕ)
    → distinct b.b_obj_list ≡ true
    → holds (removed b r) x ≡ (holds b x && not (r == x))
holds-removed b r x d = elim (Bool-cases (r == x)) [
  | inl e ↦
      let gone = contains-remove_self x b.b_obj_list d in
      rw (==→eq r x e, eq_refl x) (ground (arith, gone))
  | inr e ↦ ground (arith, contains-remove_ne x r b.b_obj_list, e)
]

pub holds-joined :
    (b : Broker) (c : ℕ) (n : String) (i x : ℕ)
    → contains c b.b_obj_list ≡ false
    → holds (joined b c n i) x ≡ holds b x
holds-joined b c n i x h = elim (Bool-cases (c == x)) [
  | inl e ↦ let same = ==→eq c x e in rw (sym same, eq_refl c, h) refl
  | inr e ↦ ground (arith, e)
]

pub holds-without_client :
    {b : Broker} (c x : ℕ)
    → Inv b
    → contains c b.b_client_list ≡ true
    → holds (without_client b c) x ≡ holds b x
holds-without_client {b} c x v m = elim (Bool-cases (c == x)) [
  | inl e ↦
      let same = ==→eq c x e in
      let is_client = (client_facts c v m).1 in rw (sym same, is_client) (ground arith)
  | inr e ↦ ground (arith, contains-remove_ne x c b.b_obj_list, e)
]

pub holds-caught_up : (b : Broker) (c x : ℕ) → holds (caught_up b c) x ≡ holds b x
unfolding caught_up
holds-caught_up b c x = ap (λ (p : ℕ → Bool). contains x b.b_obj_list && p x) (caught_up-kinds b c)

pub holds-advance :
    {b : Broker} (c o x : ℕ)
    → Inv b
    → contains c b.b_client_list ≡ true
    → contains o b.b_obj_list ≡ true
    → (b.mem o).is_obj ≡ true
    → holds (advance b c o) x ≡ holds b x
unfolding advance
holds-advance {b} c o x v m mo io =
    let left : contains x (insert_after o c (remove c b.b_obj_list)) ≡ contains x b.b_obj_list =
      ground (
        arith,
        contains-insert_after x o c (remove c b.b_obj_list) (target_left v c o m mo io),
        contains-remove_ne x c b.b_obj_list,
        (client_facts c v m).0,
      ) in
    ap (λ y. y && ((advance b c o).mem x).is_obj) left
    ∙ ap (λ (p : ℕ → Bool). contains x b.b_obj_list && p x) (advance-kinds b c o)
