-- ===== src/Circleq.antt =====
-- The circular queues of <sys/queue.h>, as the broker uses them: the list of the addresses of the
-- elements, from the head to the tail. CIRCLEQ_INSERT_HEAD is `◌∷◌`.
pub mod Laws
pub mod Order
use vyatta_route_broker.Base.{ℕ, List, [], ◌∷◌, ◌++◌, Option, none, some, ◌==◌, if◌then◌else◌}

-- CIRCLEQ_INSERT_TAIL
abbrev pub insert_tail : List ℕ → ℕ → List ℕ
insert_tail l x = l ++ x ∷ []

-- CIRCLEQ_REMOVE
abbrev pub remove : ℕ → List ℕ → List ℕ
remove x [] = []
remove x (y ∷ ys) = if x == y then ys else y ∷ remove x ys

-- CIRCLEQ_INSERT_AFTER: `x` right behind `at`.
abbrev pub insert_after : ℕ → ℕ → List ℕ → List ℕ
insert_after at x [] = []
insert_after at x (y ∷ ys) = if at == y then y ∷ x ∷ ys else y ∷ insert_after at x ys

-- What repeated CIRCLEQ_NEXT from an element visits before it is back at the head.
abbrev pub after : ℕ → List ℕ → List ℕ
after x [] = []
after x (y ∷ ys) = if x == y then ys else after x ys

-- CIRCLEQ_FIRST and CIRCLEQ_LAST; `none` is the head itself.
abbrev pub first : List ℕ → Option ℕ
first [] = none
first (x ∷ xs) = some x

abbrev pub last : List ℕ → Option ℕ
last [] = none
last (x ∷ []) = some x
last (x ∷ y ∷ ys) = last (y ∷ ys)

-- CIRCLEQ_PREV, given the element in front of the list; `none` is the head itself.
abbrev pub prev_from : Option ℕ → ℕ → List ℕ → Option ℕ
prev_from p x [] = none
prev_from p x (y ∷ ys) = if x == y then p else prev_from (some y) x ys

abbrev pub prev : ℕ → List ℕ → Option ℕ
prev = prev_from none
