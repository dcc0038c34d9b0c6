-- ===== src/Circleq/Order.antt =====
-- A relation between each element of a queue and the elements behind it, under the operations.
use vyatta_route_broker.Base.{
  ℕ, ◌≡◌, inl, inr, true, List, [], ◌∷◌, arith, ◌==◌, Bool-cases, ==→eq, contains, All, Pairwise,
  All-mono, All-at, All-append,
}
use vyatta_route_broker.Circleq.{insert_tail, remove, insert_after}
use vyatta_route_broker.Circleq.Laws.{All-remove, All-insert_after, insert_after_absent}

module _ {ℓ κ} (R : ℕ → ℕ → Type ℓ) (Q : ℕ → ℕ → Type κ) where
  pub Pairwise-mono :
      (l : List ℕ)
      → ((x y : ℕ) → contains x l ≡ true → contains y l ≡ true → R x y → Q x y)
      → Pairwise R l
      → Pairwise Q l
  Pairwise-mono [] f h = tt
  Pairwise-mono (x ∷ xs) f h = (
    All-mono (R x) (Q x) xs (λ y m r. f x y (ground arith) (ground arith) r) h.0,
    Pairwise-mono xs (λ y z m n r. f y z (ground arith) (ground arith) r) h.1,
  )

module _ {ℓ} (R : ℕ → ℕ → Type ℓ) where
  pub Pairwise-remove : (x : ℕ) (l : List ℕ) → Pairwise R l → Pairwise R (remove x l)
  Pairwise-remove x [] h = tt
  Pairwise-remove x (y ∷ ys) h = elim (Bool-cases (x == y)) [
    | inl e ↦ rw e h.1
    | inr e ↦ rw e (All-remove (R y) x ys h.0, Pairwise-remove x ys h.1)
  ]

  pub Pairwise-insert_tail :
      (x : ℕ) (l : List ℕ) → All (λ y. R y x) l → Pairwise R l → Pairwise R (insert_tail l x)
  Pairwise-insert_tail x [] a h = (tt, tt)
  Pairwise-insert_tail x (y ∷ ys) a h =
      (All-append (R y) ys (x ∷ []) h.0 (a.0, tt), Pairwise-insert_tail x ys a.1 h.1)

  -- An element may be put behind `at` if it relates to the others as `at` does.
  pub Pairwise-insert_after :
      (at x : ℕ)
      → ((y : ℕ) → R y at → R y x)
      → R at x
      → ((y : ℕ) → R at y → R x y)
      → (l : List ℕ) → Pairwise R l
      → Pairwise R (insert_after at x l)
  Pairwise-insert_after at x before self behind [] h = tt
  Pairwise-insert_after at x before self behind (y ∷ ys) h = elim (Bool-cases (at == y)) [
    | inl e ↦
        let p : at ≡ y = ==→eq at y e in
        rw e (
          (rw p at self, All-mono (R y) (R y) ys (λ z _ r. r) h.0),
          (All-mono (R y) (R x) ys (λ z _ r. behind z (rw p r)) h.0, h.1),
        )
    | inr e ↦ rw e (
      elim (Bool-cases (contains at ys)) [
        | inl m ↦ All-insert_after (R y) at x ys (before y (All-at (R y) ys at m h.0)) h.0
        | inr m ↦ rw (insert_after_absent at x ys m) h.0
      ],
      Pairwise-insert_after at x before self behind ys h.1,
    )
  ]
