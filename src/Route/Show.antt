-- ===== src/Route/Show.antt =====
-- `route_broker_show`: the counters and the walk over the queues of all priorities, from each tail to
-- its head.
pub mod Walk
use vyatta_route_broker.Base.{
  ℕ, zero, suc, ◌+◌, ◌-◌, ◌^◌, Bool, List, [], ◌∷◌, ◌++◌, map, filter, not, Option, none, some,
  String, ◌==◌, ltb, if◌then◌else◌,
}
use vyatta_route_broker.Broker.{broker_seq_start, broker_seq_next, u64}
use vyatta_route_broker.Zhash.{Zhash}
use vyatta_route_broker.Route.Types.{RouteBroker, route_priority_max}

-- A call of `cli_out`, with the values that it prints: of a client, its address and its errors; of
-- a priority, its number and the id of its broker; of a route, its id, the mark and the topic; of a
-- broker's client, its id, its name, what it consumed and how far it is behind.
pub data Line : Type 0 where
  processed : ℕ → Line
  ignored : ℕ → Line
  dropped : ℕ → Line
  client_errors : ℕ → ℕ → Line
  priority : ℕ → ℕ → Line
  route : ℕ → Bool → String → Line
  client : ℕ → String → ℕ → ℕ → Line
  total_objects : ℕ → Line

abbrev if_any : (ℕ → Line) → ℕ → List Line
if_any line n = if n == 0 then [] else line n ∷ []

module _ {H : Zhash} {D : Type 0} where
  -- An element, or NULL, with the priority that the walk is at.
  unfoldable pub route_broker_seq_first : RouteBroker H D → Option ℕ × ℕ
  route_broker_seq_first rb = (broker_seq_start (rb.route_broker 0), 0)

  unfoldable pub route_broker_seq_next : RouteBroker H D → ℕ → ℕ → Option ℕ × ℕ
  route_broker_seq_next rb obj pri = elim (broker_seq_next (rb.route_broker pri) obj) [
    | none ↦
        if ltb pri (route_priority_max - 1)
        then (broker_seq_start (rb.route_broker (pri + 1)), pri + 1)
        else (none, pri)
    | some o ↦ (some o, pri)
  ]

  unfoldable pub route_broker_seq_show : RouteBroker H D → ℕ → ℕ → Line
  route_broker_seq_show rb pri obj =
      let b = rb.route_broker pri in
      let m = b.mem obj in
      if m.is_obj
      then route m.id m.is_delete (rb.rib_route obj).topic
      else client m.id (b.clients obj).name (b.clients obj).consumed (u64 (b.id + 2 ^ 64 - m.id))

  -- The heading of a priority, when the walk has come to another.
  abbrev pub heading : RouteBroker H D → ℕ → ℕ → List Line
  heading rb pri pri_last =
      if pri == pri_last then [] else priority pri (rb.route_broker pri).id ∷ []

  -- The loop of `route_broker_show_internal`, on fuel, and the line behind it.
  unfoldable pub show_loop : ℕ → RouteBroker H D → Option ℕ → ℕ → ℕ → ℕ → List Line
  unfolding route_broker_seq_next route_broker_seq_show
  show_loop zero rb obj pri pri_last count = []
  show_loop (suc fuel) rb none pri pri_last count = total_objects count ∷ []
  show_loop (suc fuel) rb (some obj) pri pri_last count =
      let next = route_broker_seq_next rb obj pri in
      let rest = show_loop fuel rb next.0 next.1 pri (u64 (count + 1)) in
      heading rb pri pri_last ++ (route_broker_seq_show rb pri obj ∷ rest)

  -- The lines in front of the walk; `errors` has the count of each client of the route broker.
  abbrev pub counters : (ℕ → ℕ) → RouteBroker H D → List Line
  counters errors rb =
      processed rb.processed_msg
      ∷ (if_any ignored rb.ignored_msg
          ++ (if_any dropped rb.dropped_msg
              ++ map (λ c. client_errors c (errors c))
                  (filter (λ c. not (errors c == 0)) rb.client_list)))

  unfoldable pub route_broker_show : ℕ → (ℕ → ℕ) → RouteBroker H D → List Line
  unfolding show_loop route_broker_seq_first
  route_broker_show fuel errors rb =
      let start = route_broker_seq_first rb in
      counters errors rb
      ++ (priority 0 (rb.route_broker 0).id ∷ show_loop fuel rb start.0 start.1 0 0)
