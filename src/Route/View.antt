-- ===== src/Route/View.antt =====
-- What the clients of the route broker rely on: a map from topics to routes. The route of a topic
-- is what the table leads to, with the mark of deletion of its element in the queue.
pub mod Steps
pub mod Publish
pub mod Withdraw
pub mod Whole
pub mod Read
use text.Mathlib.Text.{◌==◌ as str_eq}
use mathlib.Core.Option.{map}
use vyatta_route_broker.Base.{
  ℕ, Bool, true, false, List, Option, none, some, String, if◌then◌else◌, ltb, is_empty, ◌||◌,
}
use vyatta_route_broker.Zhash.{Zhash}
use vyatta_route_broker.Route.Types.{Callbacks, RouteBroker}

pub record Seen (D : Type 0) : Type 0 where
  pub payload : D
  pub deleted : Bool
  pub pri : ℕ

-- No client has to be told of what happens at a priority.
abbrev pub unwatched : {H : Zhash} {D : Type 0} → RouteBroker H D → ℕ → Bool
unwatched rb i = is_empty (rb.route_broker i).b_client_list

module _ {H : Zhash} {D : Type 0} where
  abbrev pub seen : RouteBroker H D → ℕ → Seen D
  seen rb r = record {
    payload = (rb.rib_route r).payload;
    deleted = ((rb.route_broker (rb.rib_route r).pri).mem r).is_delete;
    pri = (rb.rib_route r).pri;
  }

  abbrev pub view : RouteBroker H D → String → Option (Seen D)
  view rb topic = map (seen rb) (H.lookup rb.route_hashtbl topic)

module _ {D : Type 0} where
  -- What an update of a topic makes of its entry: the new data, at the higher of the priorities.
  abbrev pub updated : ℕ → D → Option (Seen D) → Option (Seen D)
  updated pri d none = some (record { payload = d; deleted = false; pri = pri })
  updated pri d (some old) =
      some (record { payload = d; deleted = false; pri = if ltb pri old.pri then pri else old.pri })

  -- What a delete makes of it: it stays, marked, until the clients have been told, but goes at once
  -- if the delete comes at a higher priority than the entry's.
  abbrev pub withdrawn : (ℕ → Bool) → ℕ → D → Option (Seen D) → Option (Seen D)
  withdrawn alone pri d none = none
  withdrawn alone pri d (some old) =
      if ltb pri old.pri || alone old.pri
      then none
      else some (record { payload = d; deleted = true; pri = old.pri })

  abbrev pub at_topic :
      String → Option (Seen D) → (String → Option (Seen D)) → String → Option (Seen D)
  at_topic topic entry v t = if str_eq topic t then entry else v t

  -- A message that is published: the copy of the object with what the topic callback makes of it,
  -- if it can be copied.
  abbrev pub message : Callbacks D → D → Option (D × Option (String × Bool))
  message cb obj = map (λ d. (d, cb.topic_gen d)) (cb.copy_obj obj)

  -- What a message at a priority makes of the map.
  abbrev pub after_message :
      (ℕ → Bool)
      → ℕ
      → Option (D × Option (String × Bool))
      → (String → Option (Seen D))
      → String
      → Option (Seen D)
  after_message alone pri none v t = v t
  after_message alone pri (some (d, none)) v t = v t
  after_message alone pri (some (d, some (topic, false))) v t =
      at_topic topic (updated pri d (v topic)) v t
  after_message alone pri (some (d, some (topic, true))) v t =
      at_topic topic (withdrawn alone pri d (v topic)) v t
