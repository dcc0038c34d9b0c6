-- ===== src/Dataplane/Shutdown.antt =====
-- The end of the control thread, in broker/route_broker_dp_ctrl.c: `close_all_dp_sessions`.
use text.Mathlib.Text.{◌==◌ as str_eq}
use text.Mathlib.TextEquality.{eq_iff}
use text.Mathlib.TextPositions.{eq_refl as text_eq_refl}
use vyatta_route_broker.Base.{
  ℕ, ◌≤◌, zero, suc, ◌<◌, ◌≡◌, ◌⊎◌, ◌∙◌, refl, ap, sym, inl, inr, true, false, List, [], ◌∷◌,
  Option, none, some, String, arith, ◌==◌, is_some, contains, distinct, Bool-cases, Option-cases,
  ==→eq, length,
}
use vyatta_route_broker.Broker.Placed.{eq_refl}
use vyatta_route_broker.Zhash.{Zhash}
use vyatta_route_broker.Zhash.Assoc.{Assoc, find, drop_key, assoc_zhash}
use vyatta_route_broker.Dataplane.Ctrl.{
  Dp, Sessions, close_dp_session, stop_old_dp_thread, delete_dp, push_some,
}
use vyatta_route_broker.Dataplane.Sessions.{Coherent, close-Coherent, close_lookup, left_entry}

-- What czmq documents of the cursor and of the size of a hash table.
pub record ZhashCursor (H : Zhash) : Type 0 where
  pub first : H.Table → Option ℕ
  pub size : H.Table → ℕ
  pub first-none : (t : H.Table) → first t ≡ none → (k : String) → H.lookup t k ≡ none
  pub first-some : (t : H.Table) (v : ℕ) → first t ≡ some v → (k : String) × (H.lookup t k ≡ some v)
  pub size-delete :
      (t : H.Table) (k : String) → is_some (H.lookup t k) ≡ true → size (H.delete t k) < size t

pub contains-push_some :
    (a : ℕ) (o : Option ℕ) (l : List ℕ) → contains a l ≡ true → contains a (push_some o l) ≡ true
contains-push_some a none l h = h
contains-push_some a (some x) l h = ground arith

module _ {H : Zhash} where
  -- How the sessions stand behind the loop: the table is empty, and its sessions, and no others, have
  -- been freed, each once, and their actors stopped.
  pub record AllClosed (s t : Sessions H) : Type 0 where
    pub emptied : (u : String) → H.lookup t.dp_uuid_ht u ≡ none
    pub every : (u : String) (d : ℕ) → H.lookup s.dp_uuid_ht u ≡ some d → contains d t.freed ≡ true
    pub still : (d : ℕ) → contains d s.freed ≡ true → contains d t.freed ≡ true
    pub only :
        (d : ℕ)
        → contains d t.freed ≡ true
        → (contains d s.freed ≡ true) ⊎ ((u : String) × (H.lookup s.dp_uuid_ht u ≡ some d))
    pub once : distinct t.freed ≡ true
    pub actors :
        (u : String) (d a : ℕ)
        → H.lookup s.dp_uuid_ht u ≡ some d
        → (s.dp d).ipc ≡ some a
        → contains a t.stopped ≡ true
    pub still_stopped : (a : ℕ) → contains a s.stopped ≡ true → contains a t.stopped ≡ true

  -- What the closing of one session does.
  record OneClosed (s t : Sessions H) (k : String) (d : ℕ) : Type 0 where
    table : t.dp_uuid_ht ≡ H.delete s.dp_uuid_ht k
    freed : t.freed ≡ d ∷ s.freed
    stopped : t.stopped ≡ push_some (s.dp d).ipc s.stopped
    others : (x : ℕ) → (d == x) ≡ false → t.dp x ≡ s.dp x

  close-OneClosed : (s : Sessions H) (d : ℕ) → OneClosed s (close_dp_session s d) (s.dp d).uuid d
  unfolding close_dp_session stop_old_dp_thread delete_dp
  close-OneClosed s d = record {
    table = refl;
    freed = refl;
    stopped = refl;
    others = λ x ne. rw ne refl;
  }

  same_entry :
      (s : Sessions H) (k u : String) (d x : ℕ)
      → H.lookup s.dp_uuid_ht k ≡ some d
      → H.lookup s.dp_uuid_ht u ≡ some x
      → (d ≡ x) ⊎ (str_eq k u ≡ false)
  same_entry s k u d x e h = elim (Bool-cases (str_eq k u)) [
    | inl q ↦
        let same : k ≡ u = (eq_iff k u).0 q in
        let both : some d ≡ some x = sym e ∙ ap (H.lookup s.dp_uuid_ht) same ∙ h in inl cc
    | inr q ↦ inr q
  ]

  still_entry :
      (s : Sessions H) (k u : String) (d x : ℕ)
      → Coherent s
      → H.lookup s.dp_uuid_ht k ≡ some d
      → H.lookup s.dp_uuid_ht u ≡ some x
      → str_eq k u ≡ false
      → H.lookup (close_dp_session s d).dp_uuid_ht u ≡ some x
  still_entry s k u d x v e h q = close_lookup s k u d v e ∙ rw q h

  close_step :
      {s t : Sessions H} (k : String) (d : ℕ)
      → Coherent s
      → H.lookup s.dp_uuid_ht k ≡ some d
      → AllClosed (close_dp_session s d) t
      → AllClosed s t
  close_step {s} {t} k d v e ih =
      let one = close-OneClosed s d in
      record {
        emptied = ih.emptied;
        every = λ u x h. elim (same_entry s k u d x e h) [
          | inl q ↦ ih.still x (rw (one.freed, q, eq_refl x) refl)
          | inr q ↦ ih.every u x (still_entry s k u d x v e h q)
        ];
        still = λ x h. ih.still x (rw (one.freed) (ground arith));
        only = λ x h. elim (ih.only x h) [
          | inl f ↦
              let g : contains x (d ∷ s.freed) ≡ true = ap (contains x) (sym one.freed) ∙ f in
              elim (Bool-cases (x == d)) [
                | inl q ↦ inr (k, e ∙ ap Option.some (sym (==→eq x d q)))
                | inr q ↦ inl (ground arith)
              ]
          | inr (u, l) ↦ inr (u, (left_entry s k u d x v e l).0)
        ];
        once = ih.once;
        actors = λ u x a h i. elim (same_entry s k u d x e h) [
          | inl q ↦
              let own : (s.dp d).ipc ≡ some a = ap (λ y. (s.dp y).ipc) q ∙ i in
              ih.still_stopped a (rw (one.stopped, own, eq_refl a) refl)
          | inr q ↦
              let l = still_entry s k u d x v e h q in
              let far = (left_entry s k u d x v e l).1 in
              let same = one.others x (ground arith) in
              ih.actors u x a l (ap (λ (o : Dp). o.ipc) same ∙ i)
        ];
        still_stopped = λ a h.
            ih.still_stopped a (rw (one.stopped) (contains-push_some a (s.dp d).ipc s.stopped h));
      }

module _ {H : Zhash} (C : ZhashCursor H) where
  -- The loop of `close_all_dp_sessions`, on fuel, and the empty table that it leaves.
  unfoldable pub close_sessions : ℕ → Sessions H → Sessions H
  unfolding close_dp_session
  close_sessions zero s = s
  close_sessions (suc n) s = elim (C.first s.dp_uuid_ht) [
    | none ↦ s
    | some d ↦ close_sessions n (close_dp_session s d)
  ]

  unfoldable pub close_all_dp_sessions : Sessions H → Sessions H
  unfolding close_sessions
  close_all_dp_sessions s = close_sessions (suc (C.size s.dp_uuid_ht)) s

  closed_distinct :
      (s : Sessions H) (k : String) (d : ℕ)
      → Coherent s
      → H.lookup s.dp_uuid_ht k ≡ some d
      → distinct s.freed ≡ true
      → distinct (close_dp_session s d).freed ≡ true
  closed_distinct s k d v e once = rw ((close-OneClosed s d).freed, v.live k d e) once

  fewer_sessions :
      (s : Sessions H) (k : String) (d : ℕ)
      → Coherent s
      → H.lookup s.dp_uuid_ht k ≡ some d
      → C.size (close_dp_session s d).dp_uuid_ht < C.size s.dp_uuid_ht
  fewer_sessions s k d v e =
      rw ((close-OneClosed s d).table, v.own_uuid k d e) (C.size-delete s.dp_uuid_ht k (rw e refl))

  close_sessions-AllClosed :
      (n : ℕ) (s : Sessions H)
      → Coherent s
      → distinct s.freed ≡ true
      → C.size s.dp_uuid_ht < n
      → AllClosed s (close_sessions n s)
  unfolding close_sessions
  close_sessions-AllClosed zero s v once lt = absurd (omega arith)
  close_sessions-AllClosed (suc n) s v once lt = elim (Option-cases (C.first s.dp_uuid_ht)) [
    | inl e ↦
        let empty = C.first-none s.dp_uuid_ht e in
        rw (e, close_sessions)
          (record {
            emptied = empty;
            every = λ u d h. absurd (cc (empty u, h));
            still = λ d h. h;
            only = λ d h. inl h;
            once = once;
            actors = λ u d a h i. absurd (cc (empty u, h));
            still_stopped = λ a h. h;
          })
    | inr (d, e) ↦
        let (k, l) = C.first-some s.dp_uuid_ht d e in
        rw (e, close_sessions)
          (close_step k d v l (
            close_sessions-AllClosed n (close_dp_session s d) (close-Coherent s k d v l)
              (closed_distinct s k d v l once) (omega (arith, fewer_sessions s k d v l))))
  ]

  pub close_all_dp_sessions-AllClosed :
      (s : Sessions H)
      → Coherent s
      → distinct s.freed ≡ true
      → AllClosed s (close_all_dp_sessions s)
  unfolding close_all_dp_sessions
  close_all_dp_sessions-AllClosed s v once =
      close_sessions-AllClosed (suc (C.size s.dp_uuid_ht)) s v once (omega arith)

-- The association lists have such a cursor: the first entry, and the number of entries.
abbrev pub first_entry : Assoc → Option ℕ
first_entry [] = none
first_entry ((k, v) ∷ t) = some v

pub first_entry-none : (t : Assoc) → first_entry t ≡ none → (k : String) → find t k ≡ none
first_entry-none [] e k = refl
first_entry-none ((j, v) ∷ t) e k = cc

pub first_entry-some :
    (t : Assoc) (v : ℕ) → first_entry t ≡ some v → (k : String) × (find t k ≡ some v)
first_entry-some [] v e = cc
first_entry-some ((j, w) ∷ t) v e = (j, rw (text_eq_refl j) e)

length-drop_key : (t : Assoc) (k : String) → length (drop_key t k) ≤ length t
length-drop_key [] k = omega arith
length-drop_key ((j, v) ∷ t) k = ground (arith, length-drop_key t k)

pub fewer_entries :
    (t : Assoc) (k : String) → is_some (find t k) ≡ true → length (drop_key t k) < length t
fewer_entries [] k h = cc
fewer_entries ((j, v) ∷ t) k h =
    ground (arith, length-drop_key t k, fewer_entries t k, eq_iff j k, eq_iff k j)

abbrev pub assoc_cursor : ZhashCursor assoc_zhash
assoc_cursor = record {
  first = first_entry;
  size = length;
  first-none = first_entry-none;
  first-some = first_entry-some;
  size-delete = fewer_entries;
}
