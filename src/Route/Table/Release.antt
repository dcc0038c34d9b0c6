-- ===== src/Route/Table/Release.antt =====
-- A route whose reference is released, or that never had one, is freed.
use text.Mathlib.Text.{◌==◌ as str_eq}
use text.Mathlib.TextPositions.{eq_refl as text_eq_refl}
use vyatta_route_broker.Base.{
  ℕ, ◌≡◌, ◌∙◌, refl, ap, sym, inl, inr, Bool, true, false, ◌∷◌, some, String, arith, ◌==◌, contains,
  Bool-cases, ==→eq,
}
use vyatta_route_broker.Broker.{update}
use vyatta_route_broker.Zhash.{Zhash}
use vyatta_route_broker.Route.Types.{
  World, rib_route_unlock, rib_route_delete, free_data, free_route,
}
use vyatta_route_broker.Route.Table.{Tabled, unqueued_ne, but_for, but_for_facts, str_ne}

module _ {H : Zhash} {D : Type 0} where
  -- Behind the release of the one reference of a queued route.
  abbrev pub released : World H D → ℕ → World H D
  released w r = record w {
    rib_route = update w.rib_route r (record (w.rib_route r) { refcount = 0 });
    route_hashtbl = H.delete w.route_hashtbl (w.rib_route r).topic;
    freed_routes = r ∷ w.freed_routes;
    freed_data = (w.rib_route r).payload ∷ w.freed_data;
  }

  pub unlock-released :
      (w : World H D) (r : ℕ) → (w.rib_route r).refcount ≡ 1 → rib_route_unlock w r ≡ released w r
  unfolding rib_route_unlock rib_route_delete free_data free_route
  unlock-released w r e = rw e refl

  -- The table has no other entry for the topic of a route than that of the route.
  topic_ne :
      {q : ℕ → ℕ → Bool} {w : World H D} (i r j x : ℕ)
      → Tabled q w
      → q i r ≡ true
      → q j x ≡ true
      → (r == x) ≡ false
      → str_eq (w.rib_route r).topic (w.rib_route x).topic ≡ false
  topic_ne {q} {w} i r j x v m h ne = str_ne _ _ (λ e.
      let same : some r ≡ some x =
        sym (v.known i r m) ∙ ap (H.lookup w.route_hashtbl) e ∙ v.known j x h in
      ground arith)

  left_in_table :
      {q : ℕ → ℕ → Bool} {w : World H D} (r x : ℕ) (t : String)
      → Tabled q w
      → H.lookup (H.delete w.route_hashtbl (w.rib_route r).topic) t ≡ some x
      → (H.lookup w.route_hashtbl t ≡ some x) × ((r == x) ≡ false)
  left_in_table {q} {w} r x t v h =
      let g = sym (H.lookup-delete w.route_hashtbl (w.rib_route r).topic t) ∙ h in
      elim (Bool-cases (str_eq (w.rib_route r).topic t)) [
        | inl e ↦ absurd (ground (arith, g, e))
        | inr e ↦
            let was : H.lookup w.route_hashtbl t ≡ some x = ground (arith, g, e) in
            (
              was,
              elim (Bool-cases (r == x)) [
                | inl s ↦
                    let topic : (w.rib_route r).topic ≡ t =
                      ap (λ y. (w.rib_route y).topic) (==→eq r x s) ∙ (v.found t x was).1 in
                    absurd (
                      cc (
                        sym e
                        ∙ ap (str_eq (w.rib_route r).topic) (sym topic)
                        ∙ text_eq_refl (w.rib_route r).topic))
                | inr s ↦ s
              ],
            )
      ]

  -- A queued route whose reference is released leaves its queue and the table, and is freed.
  released-Tabled :
      {q : ℕ → ℕ → Bool} {w : World H D} (i r : ℕ)
      → Tabled q w
      → q i r ≡ true
      → Tabled (but_for q r) (released w r)
  released-Tabled {q} {w} i r v m = record {
    counted = λ j x h. rw ((but_for_facts q r j x h).1) (v.counted j x (but_for_facts q r j x h).0);
    leveled = λ j x h. rw ((but_for_facts q r j x h).1) (v.leveled j x (but_for_facts q r j x h).0);
    known = λ j x h. rw ((but_for_facts q r j x h).1) (
        H.lookup-delete w.route_hashtbl _ _
        ∙ rw (topic_ne i r j x v m (but_for_facts q r j x h).0 (but_for_facts q r j x h).1)
            (v.known j x (but_for_facts q r j x h).0));
    found = λ t x h.
        let was = left_in_table r x t v h in
        let f = v.found t x was.0 in rw (was.1) (ground (arith, f.0), f.1);
    alive = λ j x h.
        let ne : (x == r) ≡ false = ground arith in rw ne (v.alive j x (but_for_facts q r j x h).0);
    freed_once = ground (arith, v.alive i r m, v.freed_once);
  }

  pub unlock-Tabled :
      {q : ℕ → ℕ → Bool} {w : World H D} (i r : ℕ)
      → Tabled q w
      → q i r ≡ true
      → Tabled (but_for q r) (rib_route_unlock w r)
  unlock-Tabled {q} {w} i r v m =
      rw (unlock-released w r (v.counted i r m)) (released-Tabled i r v m)

  -- A route that is in no queue is freed.
  pub free_route-Tabled :
      {q : ℕ → ℕ → Bool} {w : World H D} (a : ℕ)
      → Tabled q w
      → ((i : ℕ) → q i a ≡ false)
      → contains a w.freed_routes ≡ false
      → Tabled q (free_route w a)
  unfolding free_route
  free_route-Tabled {q} {w} a v n f = record {
    counted = v.counted;
    leveled = v.leveled;
    known = v.known;
    found = v.found;
    alive = λ i x h.
        let ne = unqueued_ne q a i x n h in
        let ne' : (x == a) ≡ false = ground arith in rw ne' (v.alive i x h);
    freed_once = ground (arith, f, v.freed_once);
  }
