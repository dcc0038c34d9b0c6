-- ===== src/Circleq/Laws.antt =====
-- How the queue's operations act on membership, on order and on what stands behind an element.
use vyatta_route_broker.Base.{
  ℕ, ◌≡◌, refl, ap, some, ◌≢◌, inl, inr, Bool, true, false, ◌||◌, ◌&&◌, List, [], ◌∷◌, arith, ◌==◌,
  Bool-cases, ==→eq, filter, contains, distinct, All, contains-append,
}
use vyatta_route_broker.Circleq.{insert_tail, remove, insert_after, after, first}

pub contains-remove_ne : (a x : ℕ) (l : List ℕ) → a ≢ x → contains a (remove x l) ≡ contains a l
contains-remove_ne a x [] h = refl
contains-remove_ne a x (y ∷ ys) h = ground (arith, contains-remove_ne a x ys h)

pub contains_of-remove :
    (a x : ℕ) (l : List ℕ) → contains a (remove x l) ≡ true → contains a l ≡ true
contains_of-remove a x [] h = cc
contains_of-remove a x (y ∷ ys) h = ground (arith, contains_of-remove a x ys)

pub contains-remove_self :
    (x : ℕ) (l : List ℕ) → distinct l ≡ true → contains x (remove x l) ≡ false
contains-remove_self x [] d = refl
contains-remove_self x (y ∷ ys) d = ground (arith, contains-remove_self x ys)

pub remove_absent : (x : ℕ) (l : List ℕ) → contains x l ≡ false → remove x l ≡ l
remove_absent x [] h = refl
remove_absent x (y ∷ ys) h = ground (arith, remove_absent x ys)

pub distinct-remove : (x : ℕ) (l : List ℕ) → distinct l ≡ true → distinct (remove x l) ≡ true
distinct-remove x [] d = refl
distinct-remove x (y ∷ ys) d = ground (arith, distinct-remove x ys, contains_of-remove y x ys)

pub distinct-insert_tail :
    (x : ℕ) (l : List ℕ)
    → distinct l ≡ true
    → contains x l ≡ false
    → distinct (insert_tail l x) ≡ true
distinct-insert_tail x [] d m = refl
distinct-insert_tail x (y ∷ ys) d m =
    ground (arith, distinct-insert_tail x ys, contains-append y ys (x ∷ []))

pub insert_after_absent : (at x : ℕ) (l : List ℕ) → contains at l ≡ false → insert_after at x l ≡ l
insert_after_absent at x [] m = refl
insert_after_absent at x (y ∷ ys) m = ground (arith, insert_after_absent at x ys)

pub contains-insert_after :
    (a at x : ℕ) (l : List ℕ)
    → contains at l ≡ true
    → contains a (insert_after at x l) ≡ (a == x || contains a l)
contains-insert_after a at x [] m = cc
contains-insert_after a at x (y ∷ ys) m = ground (arith, contains-insert_after a at x ys)

pub distinct-insert_after :
    (at x : ℕ) (l : List ℕ)
    → distinct l ≡ true
    → contains at l ≡ true
    → contains x l ≡ false
    → distinct (insert_after at x l) ≡ true
distinct-insert_after at x [] d m n = refl
distinct-insert_after at x (y ∷ ys) d m n =
    ground (arith, distinct-insert_after at x ys, contains-insert_after y at x ys)

-- What stands behind an element.

pub contains_of-after : (a x : ℕ) (l : List ℕ) → contains a (after x l) ≡ true → contains a l ≡ true
contains_of-after a x [] h = cc
contains_of-after a x (y ∷ ys) h = ground (arith, contains_of-after a x ys)

pub after-insert_tail :
    (a x : ℕ) (l : List ℕ)
    → contains a l ≡ true
    → after a (insert_tail l x) ≡ insert_tail (after a l) x
after-insert_tail a x [] m = cc
after-insert_tail a x (y ∷ ys) m = ground (arith, after-insert_tail a x ys)

pub after-remove :
    (a x : ℕ) (l : List ℕ) → a ≢ x → distinct l ≡ true → after a (remove x l) ≡ remove x (after a l)
after-remove a x [] h d = refl
after-remove a x (y ∷ ys) h d =
    ground (arith, after-remove a x ys h, remove_absent x (after a ys), contains_of-after x a ys)

pub after-insert_after_self :
    (at x : ℕ) (l : List ℕ)
    → contains x l ≡ false
    → contains at l ≡ true
    → after x (insert_after at x l) ≡ after at l
after-insert_after_self at x [] m n = refl
after-insert_after_self at x (y ∷ ys) m n = ground (arith, after-insert_after_self at x ys)

module _ (p : ℕ → Bool) where
  pub filter-insert_after :
      (at x : ℕ) (l : List ℕ) → p x ≡ false → filter p (insert_after at x l) ≡ filter p l
  filter-insert_after at x [] h = refl
  filter-insert_after at x (y ∷ ys) h = ground (arith, filter-insert_after at x ys h)

  -- An element that does not pass the test may be put in anywhere.
  pub filter-after-insert_after :
      (a at x : ℕ) (l : List ℕ)
      → a ≢ x
      → p x ≡ false
      → filter p (after a (insert_after at x l)) ≡ filter p (after a l)
  filter-after-insert_after a at x [] e h = refl
  filter-after-insert_after a at x (y ∷ ys) e h =
      ground (arith, filter-after-insert_after a at x ys e h, filter-insert_after at x ys h)

  pub filter-remove_skip : (x : ℕ) (l : List ℕ) → p x ≡ false → filter p (remove x l) ≡ filter p l
  filter-remove_skip x [] h = refl
  filter-remove_skip x (y ∷ ys) h = ground (arith, filter-remove_skip x ys h)

  pub contains-filter : (x : ℕ) (l : List ℕ) → contains x (filter p l) ≡ (contains x l && p x)
  contains-filter x [] = refl
  contains-filter x (y ∷ ys) = elim (Bool-cases (x == y)) [
    | inl e ↦ rw (==→eq x y e) (ground (arith, contains-filter y ys))
    | inr e ↦ ground (arith, contains-filter x ys)
  ]

  pub filter-remove : (x : ℕ) (l : List ℕ) → filter p (remove x l) ≡ remove x (filter p l)
  filter-remove x [] = refl
  filter-remove x (y ∷ ys) = elim (Bool-cases (x == y)) [
    | inl e ↦ rw (==→eq x y e) (ground (arith, contains-filter y ys, remove_absent y (filter p ys)))
    | inr e ↦ ground (arith, filter-remove x ys)
  ]

pub filter_ext :
    (p q : ℕ → Bool) (l : List ℕ)
    → ((x : ℕ) → contains x l ≡ true → p x ≡ q x)
    → filter p l ≡ filter q l
filter_ext p q [] h = refl
filter_ext p q (y ∷ ys) h = ground (arith, h y, filter_ext p q ys (λ x m. h x (ground arith)))

module _ {ℓ} (P : ℕ → Type ℓ) where
  pub All-remove : (x : ℕ) (l : List ℕ) → All P l → All P (remove x l)
  All-remove x [] h = tt
  All-remove x (y ∷ ys) h = ground (arith, All-remove x ys h.1)

  pub All-insert_after : (at x : ℕ) (l : List ℕ) → P x → All P l → All P (insert_after at x l)
  All-insert_after at x [] p h = tt
  All-insert_after at x (y ∷ ys) p h = ground (arith, All-insert_after at x ys p h.1)

  pub All-after : (x : ℕ) (l : List ℕ) → All P l → All P (after x l)
  All-after x [] h = tt
  All-after x (y ∷ ys) h = ground (arith, All-after x ys h.1)

-- Behind an element that stands behind another.
pub after-after :
    (c o : ℕ) (l : List ℕ)
    → distinct l ≡ true
    → contains o (after c l) ≡ true
    → after o (after c l) ≡ after o l
after-after c o [] d m = refl
after-after c o (y ∷ ys) d m = elim (Bool-cases (o == y)) [
  | inl e ↦
      let p = ap (λ x. contains x ys) (==→eq o y e) in ground (arith, contains_of-after o c ys)
  | inr e ↦ ground (arith, after-after c o ys)
]

pub first-filter :
    (p : ℕ → Bool) (o : ℕ) (l : List ℕ)
    → first (filter p l) ≡ some o
    → (contains o l ≡ true) × (p o ≡ true)
first-filter p o [] e = cc
first-filter p o (y ∷ ys) e = elim (Bool-cases (o == y)) [
  | inl q ↦ let r = ap p (==→eq o y q) in ground (arith, first-filter p o ys)
  | inr q ↦ ground (arith, first-filter p o ys)
]

pub filter-first :
    (p : ℕ → Bool) (o : ℕ) (l : List ℕ)
    → first (filter p l) ≡ some o
    → filter p l ≡ o ∷ filter p (after o l)
filter-first p o [] e = cc
filter-first p o (y ∷ ys) e = elim (Bool-cases (o == y)) [
  | inl q ↦ let r = ap p (==→eq o y q) in ground (arith, first-filter p o ys)
  | inr q ↦ ground (arith, filter-first p o ys)
]
