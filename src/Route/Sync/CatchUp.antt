-- ===== src/Route/Sync/CatchUp.antt =====
-- A client of broker/route_broker.c that follows and reads until nothing is available, while no other
-- thread acts.
use text.Mathlib.TextPositions.{eq_refl as text_eq_refl}
use vyatta_route_broker.Base.{
  ltb, ◌||◌, ℕ, zero, suc, ◌<◌, ◌≡◌, ◌∙◌, refl, ap, inl, inr, Bool, true, false, [], String, arith,
  some, none, Option, Option-cases, if◌then◌else◌, Bool-cases, contains,
}
use vyatta_route_broker.Zhash.{Zhash}
use vyatta_route_broker.Route.Types.{Callbacks, RouteBroker, route_priorities}
use vyatta_route_broker.Route.Client.{data_available_for_client, route_broker_client_get_data}
use vyatta_route_broker.Route.Publish.{object_broker_publish}
use vyatta_route_broker.Route.Drain.{rounds}
use vyatta_route_broker.Route.Drain.Step.{available-Serves}
use vyatta_route_broker.Route.Drain.Rounds.{served-Told}
use vyatta_route_broker.Route.Calls.{publish, AllowedCall, Served-levels, route_step}
use vyatta_route_broker.Route.View.{Seen, view, unwatched, after_message, withdrawn, updated}
use vyatta_route_broker.Route.View.Whole.{object_broker_publish-view}
use vyatta_route_broker.Route.View.Read.{get_data-KeptOrGone}
use vyatta_route_broker.Route.Sync.{live, receive}
use vyatta_route_broker.Route.Sync.Steady.{KeptOrGone-live}
use vyatta_route_broker.Route.Sync.Own.{Copies}
use vyatta_route_broker.Route.Sync.Follow.{Follow, other, read, Following, Consistent-IsClient}
use vyatta_route_broker.Route.Sync.Replica.{Follow-Following, Follow-live}

module _ {D : Type 0} where
  -- What is in force of a topic behind a message of it.
  published-live :
      (alone : ℕ → Bool) (pri : ℕ) (d : D) (topic : String) (deleted : Bool)
      (v : String → Option (Seen D))
      → live (after_message alone pri (some (d, some (topic, deleted))) v topic)
        ≡ (if deleted then none else some d)
  published-live alone pri d topic false v = rw (text_eq_refl topic) (go (v topic))
    where
      go : (old : Option (Seen D)) → live (updated pri d old) ≡ some d
      go none = refl
      go (some old) = refl
  published-live alone pri d topic true v = rw (text_eq_refl topic) (go (v topic))
    where
      go : (old : Option (Seen D)) → live (withdrawn alone pri d old) ≡ none
      go none = refl
      go (some old) = elim (Bool-cases (ltb pri old.pri || alone old.pri)) [
        | inl e ↦ rw e refl
        | inr e ↦ rw e refl
      ]

module _ {H : Zhash} {D : Type 0} (cb : Callbacks D) (c : ℕ) where
  -- The loop of a client that stores what it is given.
  unfoldable pub catch_up :
      ℕ → RouteBroker H D → (String → Option D) → RouteBroker H D × (String → Option D)
  catch_up zero rb R = (rb, R)
  catch_up (suc n) rb R =
      let got = route_broker_client_get_data cb [] rb c in
      let rest = catch_up n got.1 (receive cb R got.0) in
      elim (data_available_for_client rb c) [ none ↦ (rb, R) | some i ↦ rest ]

  fewer_left :
      {rb : RouteBroker H D} {R : String → Option D} (i : ℕ)
      → Following cb c rb R
      → data_available_for_client rb c ≡ some i
      → rounds (route_broker_client_get_data cb [] rb c).1 c < rounds rb c
  unfolding route_broker_client_get_data
  fewer_left {rb} i f e =
      rw (e, route_broker_client_get_data)
        ((served-Told cb rb c i (Consistent-IsClient cb c c f.consistent f.on_list)
          (available-Serves cb rb c i e)).1)

  -- A client comes to a route broker in step, whose routes have the topics and marks that their data
  -- give, and at the three priorities; then messages at these priorities are published, with ids left
  -- and none of them a delete at a higher priority than that of the route that its topic then has, and
  -- other clients come, read and go, and the client reads and stores, in any order. If
  -- every object can be copied and the client now reads, alone, until nothing is available, then more
  -- rounds than it has objects pending and priorities at which it is behind leave it with the route
  -- in force, or none, of every topic, as they were when it began.
  pub catch_up-live :
      (n : ℕ) (rb : RouteBroker H D) (R : String → Option D) (t : String)
      → Copies cb
      → Follow cb c rb R
      → rounds rb c < n
      → (catch_up n rb R).1 t ≡ live (view rb t)
  unfolding catch_up
  catch_up-live zero rb R t copies f lt = absurd (omega arith)
  catch_up-live (suc n) rb R t copies f lt = elim (Option-cases (data_available_for_client rb c)) [
    | inl e ↦ rw (e, catch_up) (Follow-live cb c t copies f e)
    | inr (i, e) ↦
        let k = Follow-Following cb c copies f in
        let fewer = fewer_left i k e in
        let u = (route_broker_client_get_data cb [] rb c).1 in
        let kept =
          get_data-KeptOrGone cb rb c t k.consistent.sound
            (Served-levels cb c k.consistent.served k.on_list) in
        rw (e, catch_up)
          (catch_up-live n u (receive cb R (route_broker_client_get_data cb [] rb c).0) t copies
              (read f) (omega arith)
            ∙ KeptOrGone-live rb u t kept)
  ]

  -- If every object can be copied and a message of a topic is published, with ids left and at one of
  -- the three priorities, in any state in which a client follows, and neither this message nor one
  -- before it, since the client came, is a delete at a higher priority than that of the route that its
  -- topic then has, and the client then reads, alone, for more rounds than it has objects pending and
  -- priorities at which it is behind, it has the message's data for the topic, or nothing if the
  -- message is a delete.
  pub catch_up-object_broker_publish :
      (n : ℕ) (rb : RouteBroker H D) (R : String → Option D) (obj : D) (pri a : ℕ) (topic : String)
      (deleted : Bool)
      → Copies cb
      → Follow cb c rb R
      → AllowedCall cb rb (publish obj pri (some a))
      → contains pri route_priorities ≡ true
      → cb.topic_gen obj ≡ some (topic, deleted)
      → rounds (object_broker_publish cb rb obj pri (some a)) c < n
      → (catch_up n (object_broker_publish cb rb obj pri (some a)) R).1 topic
        ≡ (if deleted then none else some obj)
  unfolding route_step
  catch_up-object_broker_publish n rb R obj pri a topic deleted copies f allowed p g lt =
      let k = Follow-Following cb c copies f in
      catch_up-live n (object_broker_publish cb rb obj pri (some a)) R topic copies
        (other f (publish obj pri (some a)) allowed p) lt
      ∙ ap live (
          object_broker_publish-view cb rb obj pri a topic k.consistent.sound allowed.0
            (allowed.1 a refl))
      ∙ rw (copies obj, g) (published-live (unwatched rb) pri obj topic deleted (view rb))
