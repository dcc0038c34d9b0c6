-- ===== src/Route/Show/Walk.antt =====
-- What `route_broker_show` shows, as a description of the queues.
use vyatta_route_broker.Base.{
  ℕ, zero, suc, ltb, ◌+◌, ◌<◌, ◌≡◌, true, List, [], ◌∷◌, ◌++◌, map, Option, none, some, distinct,
  is_empty, if◌then◌else◌, length,
}
use vyatta_route_broker.Broker.{broker_seq_start, u64}
use vyatta_route_broker.Zhash.{Zhash}
use vyatta_route_broker.Route.Types.{RouteBroker}
use vyatta_route_broker.Route.Show.{Line, total_objects, route_broker_seq_show, heading, show_loop}

abbrev pub backwards : List ℕ → List ℕ
backwards [] = []
backwards (x ∷ xs) = backwards xs ++ (x ∷ [])

abbrev last_or : Option ℕ → List ℕ → Option ℕ
last_or p [] = p
last_or p (x ∷ xs) = last_or (some x) xs

abbrev at_priority : ℕ → List ℕ → List (ℕ × ℕ)
at_priority i l = map (λ o. (i, o)) l

module _ {H : Zhash} {D : Type 0} where
  -- The elements of the queues, with their priorities, each queue from its tail to its head, up to
  -- the first queue that is empty.
  abbrev pub visited : RouteBroker H D → List ℕ → List (ℕ × ℕ)
  visited rb [] = []
  visited rb (i ∷ is) =
      let q = (rb.route_broker i).b_obj_list in
      let rest = visited rb is in if is_empty q then [] else at_priority i (backwards q) ++ rest

  -- The lines for some elements, with a heading where the priority changes, and the number of them.
  abbrev pub report : RouteBroker H D → ℕ → ℕ → List (ℕ × ℕ) → List Line
  report rb pri_last count [] = total_objects count ∷ []
  report rb pri_last count ((i, o) ∷ es) =
      heading rb i pri_last ++ (route_broker_seq_show rb i o ∷ report rb i (u64 (count + 1)) es)

  -- What the walk visits behind a queue.
  abbrev behind : RouteBroker H D → ℕ → List (ℕ × ℕ)
  behind rb zero = visited rb (1 ∷ 2 ∷ [])
  behind rb (suc zero) = visited rb (2 ∷ [])
  behind rb (suc (suc i)) = []

  abbrev pub Distinct : RouteBroker H D → Type 0
  Distinct rb = (i : ℕ) → distinct (rb.route_broker i).b_obj_list ≡ true

  -- A walk from an element of a queue, with enough fuel for what it visits.
  abbrev Walks : ℕ → RouteBroker H D → ℕ → Type 0
  Walks fuel rb i =
      (xs : List ℕ) (o : ℕ) (ys : List ℕ) (pri_last count : ℕ)
      → (rb.route_broker i).b_obj_list ≡ xs ++ (o ∷ ys)
      → length (at_priority i (backwards xs) ++ behind rb i) + 1 < fuel
      → show_loop fuel rb (some o) i pri_last count
        ≡ report rb pri_last count ((i, o) ∷ (at_priority i (backwards xs) ++ behind rb i))

  -- Where the walk goes on behind a queue.
  abbrev next_queue : RouteBroker H D → ℕ → Option ℕ × ℕ
  next_queue rb i =
      if ltb i 2 then (broker_seq_start (rb.route_broker (i + 1)), i + 1) else (none, i)
