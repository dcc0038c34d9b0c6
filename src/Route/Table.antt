-- ===== src/Route/Table.antt =====
-- The table of topics and the three queues, which broker/route_broker.c keeps in step: what holds of
-- them between two calls, in terms of which queue has which route.
pub mod Release
pub mod Insert
pub mod Levels
use text.Mathlib.Text.{◌==◌ as str_eq}
use text.Mathlib.TextEquality.{eq_iff}
use text.Mathlib.TextPositions.{eq_refl as text_eq_refl}
use vyatta_route_broker.Base.{
  ℕ, ◌+◌, ◌-◌, ◌%◌, ◌^◌, ◌≡◌, ◌≢◌, ◌⊎◌, ◌∙◌, refl, ap, sym, inl, inr, Bool, true, false, ◌&&◌, ◌||◌,
  not, List, [], ◌∷◌, Option, none, some, String, arith, ◌==◌, if◌then◌else◌, contains, distinct,
  Bool-cases, ==→eq, is_some,
}
use vyatta_route_broker.Broker.{update}
use vyatta_route_broker.Broker.Placed.{eq_refl}
use vyatta_route_broker.Zhash.{Zhash}
use vyatta_route_broker.Route.Types.{
  RibRoute, World, rib_route_unlock, rib_route_delete, free_data, free_route,
}

pub unqueued_ne :
    (q : ℕ → ℕ → Bool) (a i r : ℕ) → ((i : ℕ) → q i a ≡ false) → q i r ≡ true → (a == r) ≡ false
unqueued_ne q a i r n h = elim (Bool-cases (a == r)) [
  | inl e ↦ cc (sym (n i) ∙ ap (q i) (==→eq a r e) ∙ h)
  | inr e ↦ e
]

-- The route `r` of the queues is left out.
abbrev pub but_for : (ℕ → ℕ → Bool) → ℕ → ℕ → ℕ → Bool
but_for q r i x = q i x && not (r == x)

-- The queue of priority `i` has the route `a` besides.
abbrev pub with_route : (ℕ → ℕ → Bool) → ℕ → ℕ → ℕ → ℕ → Bool
with_route q i a j x = (i == j && a == x) || q j x

-- A queued route is the new one or one that was there.
pub with_route_cases :
    (q : ℕ → ℕ → Bool) (i a j x : ℕ)
    → with_route q i a j x ≡ true
    → ((i ≡ j) × (a ≡ x)) ⊎ (q j x ≡ true)
with_route_cases q i a j x h = elim (Bool-cases (q j x)) [
  | inl e ↦ inr e
  | inr e ↦ inl (ground arith, ground arith)
]

pub but_for_facts :
    (q : ℕ → ℕ → Bool) (r i x : ℕ) → but_for q r i x ≡ true → (q i x ≡ true) × ((r == x) ≡ false)
but_for_facts q r i x h = ground arith

-- Texts that are not equal stay apart under the test.
pub str_ne : (s t : String) → s ≢ t → str_eq s t ≡ false
str_ne s t n = ground (arith, eq_iff s t)

pub str_eq→eq : (s t : String) → str_eq s t ≡ true → s ≡ t
str_eq→eq s t e = (eq_iff s t).0 e

module _ {H : Zhash} {D : Type 0} where
  -- `q i r` says that the queue of the priority `i` has the route `r`. Each queued route has one
  -- reference, that of its queue, and is of the queue's priority; the table leads from its topic to
  -- it, and leads nowhere else. No queued route is freed, and none is freed twice.
  pub record Tabled (q : ℕ → ℕ → Bool) (w : World H D) : Type 0 where
    pub counted : (i r : ℕ) → q i r ≡ true → (w.rib_route r).refcount ≡ 1
    pub leveled : (i r : ℕ) → q i r ≡ true → (w.rib_route r).pri ≡ i
    pub known : (i r : ℕ) → q i r ≡ true → H.lookup w.route_hashtbl (w.rib_route r).topic ≡ some r
    pub found :
        (t : String) (r : ℕ)
        → H.lookup w.route_hashtbl t ≡ some r
        → (q (w.rib_route r).pri r ≡ true) × ((w.rib_route r).topic ≡ t)
    pub alive : (i r : ℕ) → q i r ≡ true → contains r w.freed_routes ≡ false
    pub freed_once : distinct w.freed_routes ≡ true

  pub Tabled-ext :
      {q p : ℕ → ℕ → Bool} {w : World H D} → ((i r : ℕ) → p i r ≡ q i r) → Tabled q w → Tabled p w
  Tabled-ext e v = record {
    counted = λ i r h. v.counted i r (sym (e i r) ∙ h);
    leveled = λ i r h. v.leveled i r (sym (e i r) ∙ h);
    known = λ i r h. v.known i r (sym (e i r) ∙ h);
    found = λ t r h. (e _ r ∙ (v.found t r h).0, (v.found t r h).1);
    alive = λ i r h. v.alive i r (sym (e i r) ∙ h);
    freed_once = v.freed_once;
  }

  -- The worlds have the same table and freed routes, and the same routes but for their data.
  pub record SameKeys (w u : World H D) : Type 0 where
    pub refcounts : (r : ℕ) → (u.rib_route r).refcount ≡ (w.rib_route r).refcount
    pub pris : (r : ℕ) → (u.rib_route r).pri ≡ (w.rib_route r).pri
    pub topics : (r : ℕ) → (u.rib_route r).topic ≡ (w.rib_route r).topic
    pub table : u.route_hashtbl ≡ w.route_hashtbl
    pub freed : u.freed_routes ≡ w.freed_routes

  pub SameKeys-Tabled :
      {q : ℕ → ℕ → Bool} {w u : World H D} → SameKeys w u → Tabled q w → Tabled q u
  SameKeys-Tabled {q} {w} {u} e v = record {
    counted = λ i r h. e.refcounts r ∙ v.counted i r h;
    leveled = λ i r h. e.pris r ∙ v.leveled i r h;
    known = λ i r h. rw (e.table, e.topics r) (v.known i r h);
    found = λ t r h.
        let f = v.found t r (ap (λ ht. H.lookup ht t) (sym e.table) ∙ h) in
        (ap (λ i. q i r) (e.pris r) ∙ f.0, e.topics r ∙ f.1);
    alive = λ i r h. ap (contains r) e.freed ∙ v.alive i r h;
    freed_once = ap distinct e.freed ∙ v.freed_once;
  }

  -- A route that is in no queue may be written.
  pub Tabled-write :
      {q : ℕ → ℕ → Bool} {w : World H D} (a : ℕ) (o : RibRoute D)
      → Tabled q w
      → ((i : ℕ) → q i a ≡ false)
      → Tabled q (record w { rib_route = update w.rib_route a o })
  Tabled-write {q} {w} a o v n = record {
    counted = λ i r h. rw (unqueued_ne q a i r n h) (v.counted i r h);
    leveled = λ i r h. rw (unqueued_ne q a i r n h) (v.leveled i r h);
    known = λ i r h. rw (unqueued_ne q a i r n h) (v.known i r h);
    found = λ t r h. let f = v.found t r h in rw (unqueued_ne q a (w.rib_route r).pri r n f.0) f;
    alive = v.alive;
    freed_once = v.freed_once;
  }
