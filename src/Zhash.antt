-- ===== src/Zhash.antt =====
-- The hash table of czmq (`zhash_t`), which is not part of the repository: an interface with the
-- behaviour that czmq documents. Keys are texts, values are addresses.
pub mod Assoc
use text.Mathlib.Text.{◌==◌ as str_eq}
use vyatta_route_broker.Base.{ℕ, ◌≡◌, ◌&&◌, Option, none, String, if◌then◌else◌, is_some, not}

-- `insert` keeps the item of a key that is there; `delete` of a key that is not there does nothing.
pub record Zhash : Type 1 where
  pub Table : Type 0
  pub new : Table
  pub lookup : Table → String → Option ℕ
  pub insert : Table → String → ℕ → Table
  pub delete : Table → String → Table
  pub lookup-new : (k : String) → lookup new k ≡ none
  pub lookup-insert :
      (t : Table) (k j : String) (v : ℕ)
      → lookup (insert t k v) j
        ≡ (if str_eq k j && not (is_some (lookup t k)) then Option.some v else lookup t j)
  pub lookup-delete :
      (t : Table) (k j : String) → lookup (delete t k) j ≡ (if str_eq k j then none else lookup t j)
