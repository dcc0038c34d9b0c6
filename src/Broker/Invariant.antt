-- ===== src/Broker/Invariant.antt =====
-- What holds of a broker between two calls.
use vyatta_route_broker.Base.{
  ℕ, ◌^◌, ◌≤◌, ◌<◌, ◌≡◌, Bool, true, false, ◌&&◌, ◌||◌, not, List, [], ◌∷◌, ltb, leb, contains,
  distinct, filter, All, Pairwise,
}
use vyatta_route_broker.Circleq.{after}
use vyatta_route_broker.Broker.{Broker, BrokerObj}

-- `x` may stand in front of `y`: an object has a larger id than all in front of it, and what
-- stands behind an object has no smaller id.
abbrev pub in_order : (ℕ → BrokerObj) → ℕ → ℕ → Bool
in_order m x y =
    (not (m y).is_obj || ltb (m x).id (m y).id) && (not (m x).is_obj || leb (m x).id (m y).id)

abbrev pub InOrder : (ℕ → BrokerObj) → ℕ → ℕ → Type 0
InOrder m x y = in_order m x y ≡ true

-- An element of the queue is a client or an object, its id has been given out, and that of an
-- object is not 0.
abbrev pub Known : (ℕ → BrokerObj) → List ℕ → ℕ → ℕ → Type 0
Known m clients top x =
    ((m x).is_obj ≡ not (contains x clients))
    × ((m x).id ≤ top)
    × ((not (m x).is_obj || ltb 0 (m x).id) ≡ true)

pub record Inv (b : Broker) : Type 0 where
  pub queue_distinct : distinct b.b_obj_list ≡ true
  pub clients_distinct : distinct b.b_client_list ≡ true
  pub clients_queued : All (λ c. contains c b.b_obj_list ≡ true) b.b_client_list
  pub known : All (Known b.mem b.b_client_list b.id) b.b_obj_list
  pub ordered : Pairwise (InOrder b.mem) b.b_obj_list
  pub top_fits : b.id < 2 ^ 64

-- The objects that a client has still to be told of, in the order in which it will be.
abbrev pub pending : Broker → ℕ → List ℕ
pending b client = filter (λ o. (b.mem o).is_obj) (after client b.b_obj_list)

-- Some client has still to be told of the object.
abbrev pub wanted_by : Broker → ℕ → List ℕ → Bool
wanted_by b o [] = false
wanted_by b o (c ∷ cs) = contains o (pending b c) || wanted_by b o cs

abbrev pub is_wanted : Broker → ℕ → Bool
is_wanted b o = wanted_by b o b.b_client_list

-- An object that is marked as deleted stays only as long as some client has to be told.
abbrev pub NoLeak : Broker → Type 0
NoLeak b =
    All (λ o. (not (b.mem o).is_obj || not (b.mem o).is_delete || is_wanted b o) ≡ true)
      b.b_obj_list
