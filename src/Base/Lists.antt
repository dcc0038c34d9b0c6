-- ===== src/Base/Lists.antt =====
-- Lists: native lengths, Boolean membership, predicates by recursion.
use Prim.Native.Nat.{ℕ, zero, suc, ◌+◌, ◌<◌}
use mathlib.Core.Path.{◌≡◌, refl}
use mathlib.Core.Bool.{Bool, true, false, ◌||◌, ◌&&◌, not}
use mathlib.Core.List.{List, [], ◌∷◌, ◌++◌}
use native.Mathlib.Omega.{arith}
use mathlib.Core.Logic.{inl, inr}
use vyatta_route_broker.Base.Tests.{◌==◌, if◌then◌else◌, Bool-cases, ==→eq}

module _ {ℓ} {A : Type ℓ} where
  abbrev pub length : List A → ℕ
  length [] = 0
  length (x ∷ xs) = suc (length xs)

  abbrev pub take : ℕ → List A → List A
  take zero xs = []
  take (suc n) [] = []
  take (suc n) (x ∷ xs) = x ∷ take n xs

  abbrev pub drop : ℕ → List A → List A
  drop zero xs = xs
  drop (suc n) [] = []
  drop (suc n) (x ∷ xs) = drop n xs

  abbrev pub is_empty : List A → Bool
  is_empty [] = true
  is_empty (x ∷ xs) = false

  -- The items that pass a Boolean test.
  abbrev pub filter : (A → Bool) → List A → List A
  filter p [] = []
  filter p (x ∷ xs) = if p x then x ∷ filter p xs else filter p xs

  abbrev pub all : (A → Bool) → List A → Bool
  all p [] = true
  all p (x ∷ xs) = p x && all p xs

  abbrev pub All {κ} : (A → Type κ) → List A → Type κ
  All P [] = Unit
  All P (x ∷ xs) = P x × All P xs

  -- Every item stands in the relation to each item behind it.
  abbrev pub Pairwise {κ} : (A → A → Type κ) → List A → Type κ
  Pairwise R [] = Unit
  Pairwise R (x ∷ xs) = All (R x) xs × Pairwise R xs

  pub length-append : (xs ys : List A) → length (xs ++ ys) ≡ length xs + length ys
  length-append [] ys = omega arith
  length-append (x ∷ xs) ys = omega (arith, length-append xs ys)

  pub take-append-drop : (n : ℕ) (xs : List A) → take n xs ++ drop n xs ≡ xs
  take-append-drop zero xs = refl
  take-append-drop (suc n) [] = refl
  take-append-drop (suc n) (x ∷ xs) = rw (take-append-drop n xs)

  pub drop-append_self : (xs ys : List A) → drop (length xs) (xs ++ ys) ≡ ys
  drop-append_self [] ys = refl
  drop-append_self (x ∷ xs) ys = drop-append_self xs ys

  pub length-take_of_lt : (n : ℕ) (xs : List A) → n < length xs → length (take n xs) ≡ n
  length-take_of_lt zero xs h = refl
  length-take_of_lt (suc n) [] h = absurd (omega arith)
  length-take_of_lt (suc n) (x ∷ xs) h = omega (arith, length-take_of_lt n xs)

  pub is_empty-drop : (n : ℕ) (xs : List A) → n < length xs → is_empty (drop n xs) ≡ false
  is_empty-drop zero [] h = absurd (omega arith)
  is_empty-drop zero (x ∷ xs) h = refl
  is_empty-drop (suc n) [] h = absurd (omega arith)
  is_empty-drop (suc n) (x ∷ xs) h = is_empty-drop n xs (omega arith)

  -- Two ways to split a list at the same place are the same.
  pub append_inj :
      (xs xs' ys ys' : List A)
      → xs ++ ys ≡ xs' ++ ys'
      → length xs ≡ length xs'
      → (xs ≡ xs') × (ys ≡ ys')
  append_inj [] [] ys ys' e l = (refl, e)
  append_inj [] (x' ∷ xs') ys ys' e l = absurd (omega arith)
  append_inj (x ∷ xs) [] ys ys' e l = absurd (omega arith)
  append_inj (x ∷ xs) (x' ∷ xs') ys ys' e l =
      let rest : xs ++ ys ≡ xs' ++ ys' = cc in
      let ih = append_inj xs xs' ys ys' rest (omega arith) in
      let same : x ≡ x' = cc in (cc (ih.0), ih.1)

  pub filter-append :
      (p : A → Bool) (xs ys : List A) → filter p (xs ++ ys) ≡ filter p xs ++ filter p ys
  filter-append p [] ys = refl
  filter-append p (x ∷ xs) ys = ground (arith, filter-append p xs ys)

-- Membership of an address.
abbrev pub contains : ℕ → List ℕ → Bool
contains a [] = false
contains a (x ∷ xs) = a == x || contains a xs

-- No address stands in the list twice.
abbrev pub distinct : List ℕ → Bool
distinct [] = true
distinct (x ∷ xs) = not (contains x xs) && distinct xs

pub contains-append :
    (a : ℕ) (xs ys : List ℕ) → contains a (xs ++ ys) ≡ (contains a xs || contains a ys)
contains-append a [] ys = refl
contains-append a (x ∷ xs) ys = ground (arith, contains-append a xs ys)

-- A fact of all items, changed into another where the item is known to be in the list.
pub All-mono {ℓ κ} :
    (P : ℕ → Type ℓ) (Q : ℕ → Type κ) (xs : List ℕ)
    → ((x : ℕ) → contains x xs ≡ true → P x → Q x)
    → All P xs
    → All Q xs
All-mono P Q [] f h = tt
All-mono P Q (x ∷ xs) f h =
    (f x (ground arith) h.0, All-mono P Q xs (λ y m p. f y (ground arith) p) h.1)

pub All-at {ℓ} : (P : ℕ → Type ℓ) (xs : List ℕ) (a : ℕ) → contains a xs ≡ true → All P xs → P a
All-at P [] a m h = cc
All-at P (x ∷ xs) a m h = elim (Bool-cases (a == x)) [
  | inl e ↦ rw (==→eq a x e) h.0
  | inr e ↦ All-at P xs a (ground arith) h.1
]

pub All-contains {ℓ} :
    (P : ℕ → Type ℓ) (xs : List ℕ) → ((x : ℕ) → contains x xs ≡ true → P x) → All P xs
All-contains P [] f = tt
All-contains P (x ∷ xs) f = (f x (ground arith), All-contains P xs (λ y m. f y (ground arith)))

pub All-append {ℓ κ} :
    {A : Type κ} (P : A → Type ℓ) (xs ys : List A) → All P xs → All P ys → All P (xs ++ ys)
All-append P [] ys hx hy = hy
All-append P (x ∷ xs) ys hx hy = (hx.0, All-append P xs ys hx.1 hy)
