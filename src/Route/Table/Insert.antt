-- ===== src/Route/Table/Insert.antt =====
-- A new route is queued and entered in the table.
use text.Mathlib.Text.{◌==◌ as str_eq}
use text.Mathlib.TextPositions.{eq_refl as text_eq_refl}
use vyatta_route_broker.Base.{
  ℕ, ◌≡◌, ◌∙◌, refl, ap, sym, inl, inr, Bool, false, none, String, arith, contains, Bool-cases,
}
use vyatta_route_broker.Broker.Placed.{eq_refl}
use vyatta_route_broker.Zhash.{Zhash}
use vyatta_route_broker.Route.Types.{World}
use vyatta_route_broker.Route.Table.{Tabled, with_route, with_route_cases, str_ne, str_eq→eq}

module _ {H : Zhash} {D : Type 0} where
  -- A route that is in no queue, and whose topic the table does not know, is queued and entered.
  pub insert-Tabled :
      {q : ℕ → ℕ → Bool} {w : World H D} (i a : ℕ)
      → Tabled q w
      → ((i : ℕ) → q i a ≡ false)
      → contains a w.freed_routes ≡ false
      → (w.rib_route a).refcount ≡ 1
      → (w.rib_route a).pri ≡ i
      → H.lookup w.route_hashtbl (w.rib_route a).topic ≡ none
      → Tabled
          (with_route q i a)
          (record w { route_hashtbl = H.insert w.route_hashtbl (w.rib_route a).topic a })
  insert-Tabled {q} {w} i a v n f one pri new = record {
    counted = λ j x h. elim (with_route_cases q i a j x h) [
      | inl p ↦ rw (sym (p.1)) one
      | inr m ↦ v.counted j x m
    ];
    leveled = λ j x h. elim (with_route_cases q i a j x h) [
      | inl p ↦ rw (sym (p.1)) (pri ∙ p.0)
      | inr m ↦ v.leveled j x m
    ];
    known = λ j x h. H.lookup-insert w.route_hashtbl _ _ a ∙ elim (with_route_cases q i a j x h) [
      | inl p ↦ rw (sym (p.1), text_eq_refl, new) refl
      | inr m ↦
          let apart =
            str_ne (w.rib_route a).topic (w.rib_route x).topic
              (λ e. cc (sym new ∙ ap (H.lookup w.route_hashtbl) e ∙ v.known j x m)) in
          rw apart (v.known j x m)
    ];
    found = λ t x h.
        let g = sym (H.lookup-insert w.route_hashtbl (w.rib_route a).topic t a) ∙ h in
        elim (Bool-cases (str_eq (w.rib_route a).topic t)) [
          | inl e ↦
              let same : a ≡ x = ground (arith, g, e, new) in
              rw (sym same, pri, eq_refl i, eq_refl a) (refl, str_eq→eq _ t e)
          | inr e ↦ let was = v.found t x (ground (arith, g, e)) in rw (was.0) (ground arith, was.1)
        ];
    alive = λ j x h. elim (with_route_cases q i a j x h) [
      | inl p ↦ rw (sym (p.1)) f
      | inr m ↦ v.alive j x m
    ];
    freed_once = v.freed_once;
  }

  pub insert_as-Tabled :
      {q : ℕ → ℕ → Bool} {w : World H D} (i a : ℕ) (topic : String)
      → Tabled q w
      → ((i : ℕ) → q i a ≡ false)
      → contains a w.freed_routes ≡ false
      → (w.rib_route a).refcount ≡ 1
      → (w.rib_route a).pri ≡ i
      → (w.rib_route a).topic ≡ topic
      → H.lookup w.route_hashtbl topic ≡ none
      → Tabled (with_route q i a) (record w { route_hashtbl = H.insert w.route_hashtbl topic a })
  insert_as-Tabled {q} {w} i a topic v n f one pri e new =
      rw (sym e) (insert-Tabled i a v n f one pri (ap (H.lookup w.route_hashtbl) e ∙ new))
