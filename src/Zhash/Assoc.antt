-- ===== src/Zhash/Assoc.antt =====
-- A hash table as an association list, which shows that the laws of the interface can hold.
use text.Mathlib.Text.{◌==◌ as str_eq}
use text.Mathlib.TextEquality.{eq_iff}
use vyatta_route_broker.Base.{
  ℕ, ◌≡◌, refl, ◌&&◌, not, List, [], ◌∷◌, Option, none, some, String, arith, if◌then◌else◌, is_some,
}
use vyatta_route_broker.Zhash.{Zhash}

abbrev pub Assoc : Type 0
Assoc = List (String × ℕ)

abbrev pub find : Assoc → String → Option ℕ
find [] k = none
find ((j, v) ∷ t) k = if str_eq j k then some v else find t k

abbrev pub put : Assoc → String → ℕ → Assoc
put t k v = if is_some (find t k) then t else (k, v) ∷ t

abbrev pub drop_key : Assoc → String → Assoc
drop_key [] k = []
drop_key ((j, v) ∷ t) k = if str_eq k j then drop_key t k else (j, v) ∷ drop_key t k

pub find-put :
    (t : Assoc) (k j : String) (v : ℕ)
    → find (put t k v) j ≡ (if str_eq k j && not (is_some (find t k)) then some v else find t j)
find-put t k j v = ground arith

pub find-drop_key :
    (t : Assoc) (k j : String) → find (drop_key t k) j ≡ (if str_eq k j then none else find t j)
find-drop_key [] k j = ground arith
find-drop_key ((i, v) ∷ t) k j =
    ground (arith, eq_iff k j, eq_iff k i, eq_iff i j, find-drop_key t k j)

abbrev pub assoc_zhash : Zhash
assoc_zhash = record {
  Table = Assoc;
  new = [];
  lookup = find;
  insert = put;
  delete = drop_key;
  lookup-new = λ k. refl;
  lookup-insert = find-put;
  lookup-delete = find-drop_key;
}
