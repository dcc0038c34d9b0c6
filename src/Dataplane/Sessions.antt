-- ===== src/Dataplane/Sessions.antt =====
-- The sessions of broker/route_broker_dp_ctrl.c: one for each uuid.
use text.Mathlib.Text.{◌==◌ as str_eq}
use text.Mathlib.TextPositions.{eq_refl as text_eq_refl}
use vyatta_route_broker.Base.{
  ℕ, ◌≡◌, ◌≢◌, ◌∙◌, refl, ap, sym, inl, inr, Bool, true, false, ◌&&◌, List, ◌∷◌, Option, none, some,
  String, arith, ◌==◌, if◌then◌else◌, contains, Bool-cases, ==→eq,
}
use vyatta_route_broker.Broker.{update}
use vyatta_route_broker.Zhash.{Zhash}
use vyatta_route_broker.Dataplane.Ctrl.{
  Dp, Reply, Libs, Sessions, push_some, broker_dp_ctrl_msg_prepare, broker_dp_ctrl_msg_accept,
  start_new_dp_data_thread, dp_insert, close_old, open_session, close_dp_session,
  stop_old_dp_thread, delete_dp,
}

same_uuid_of :
    (f : ℕ → Dp) (d : ℕ) (o : Dp)
    → o.uuid ≡ (f d).uuid
    → (x : ℕ) → (update f d o x).uuid ≡ (f x).uuid
same_uuid_of f d o e x = ground (arith, e)

module _ {H : Zhash} where
  -- The table leads from a uuid to a session of that uuid that is not freed.
  pub record Coherent (s : Sessions H) : Type 0 where
    pub own_uuid : (u : String) (d : ℕ) → H.lookup s.dp_uuid_ht u ≡ some d → (s.dp d).uuid ≡ u
    pub live : (u : String) (d : ℕ) → H.lookup s.dp_uuid_ht u ≡ some d → contains d s.freed ≡ false

  -- The address that `calloc` gives is of no session that there is or was.
  pub record Fresh (s : Sessions H) (addr : Option ℕ) : Type 0 where
    pub not_used : (u : String) (d : ℕ) → addr ≡ some d → H.lookup s.dp_uuid_ht u ≢ some d
    pub not_freed : (d : ℕ) → addr ≡ some d → contains d s.freed ≡ false

  -- The parts of the state that the table and the lives of the sessions depend on.
  pub record Same (s t : Sessions H) : Type 0 where
    pub same_table : t.dp_uuid_ht ≡ s.dp_uuid_ht
    pub same_uuid : (x : ℕ) → (t.dp x).uuid ≡ (s.dp x).uuid
    pub same_freed : t.freed ≡ s.freed

  if-Same : (b : Bool) {s t u : Sessions H} → Same s t → Same s u → Same s (if b then t else u)
  if-Same true p q = p
  if-Same false p q = q

  pub Same-trans : {s t u : Sessions H} → Same s t → Same t u → Same s u
  Same-trans p q = record {
    same_table = q.same_table ∙ p.same_table;
    same_uuid = λ x. q.same_uuid x ∙ p.same_uuid x;
    same_freed = q.same_freed ∙ p.same_freed;
  }

  -- A session whose fields are set keeps its uuid.
  set-Same :
      (s : Sessions H) (d : ℕ) (o : Dp) (sent : List Reply)
      → o.uuid ≡ (s.dp d).uuid
      → Same s (record s { dp = update s.dp d o; sent = sent })
  set-Same s d o sent e = record {
    same_table = refl;
    same_uuid = same_uuid_of s.dp d o e;
    same_freed = refl;
  }

  accept-Same :
      (l : Libs) (s : Sessions H) (d : ℕ) (url : Option String) (n : ℕ)
      → Same s (broker_dp_ctrl_msg_accept l s d url n)
  unfolding broker_dp_ctrl_msg_accept
  accept-Same l s d url n =
      if-Same (broker_dp_ctrl_msg_prepare l "ACCEPT" (s.dp d).uuid)
        (if-Same (l.zmsg_addstr url && l.zmsg_addu32) (set-Same s d _ _ refl)
          (set-Same s d _ _ refl))
        (record { same_table = refl; same_uuid = λ x. refl; same_freed = refl })

  start-Same : (l : Libs) (s : Sessions H) (d : ℕ) → Same s (start_new_dp_data_thread l s d).1
  unfolding start_new_dp_data_thread
  start-Same l s d = elim (Bool-cases l.calloc_args) [
    | inl e ↦ rw e (set-Same s d _ _ refl)
    | inr e ↦ rw e (record { same_table = refl; same_uuid = λ x. refl; same_freed = refl })
  ]

  -- The state with the new session in the table, before its thread is started.
  abbrev pub with_session : Sessions H → Option ℕ → String → ℕ → Sessions H
  with_session s envelope uuid d =
      dp_insert
        (record s {
          dp =
              update s.dp d
                (record { uuid = uuid; envelope = envelope; ipc = none; data_url = none });
        })
        d

  pub open-Same :
      (l : Libs) (s : Sessions H) (envelope : Option ℕ) (uuid : String) (n d : ℕ)
      → Same (with_session s envelope uuid d) (open_session l s envelope uuid n (some d))
  unfolding open_session
  open-Same l s envelope uuid n d =
      let w = with_session s envelope uuid d in
      let started = start_new_dp_data_thread l w d in
      let t = started.1 in
      Same-trans (start-Same l w d) (
        Same-trans (set-Same t d (record (t.dp d) { data_url = started.0 }) t.sent refl)
          (accept-Same l _ d started.0 n))

  pub Same-Coherent : {s t : Sessions H} → Same s t → Coherent s → Coherent t
  Same-Coherent e v = record {
    own_uuid =
        λ u d h. e.same_uuid d ∙ v.own_uuid u d (ap (λ ht. H.lookup ht u) (sym e.same_table) ∙ h);
    live = λ u d h.
        ap (contains d) e.same_freed ∙ v.live u d (ap (λ ht. H.lookup ht u) (sym e.same_table) ∙ h);
  }

  -- Closing the session of a uuid takes it out of the table and frees it, and nothing else.
  pub close_lookup :
      (s : Sessions H) (uuid u : String) (old : ℕ)
      → Coherent s
      → H.lookup s.dp_uuid_ht uuid ≡ some old
      → H.lookup (close_dp_session s old).dp_uuid_ht u
        ≡ (if str_eq uuid u then none else H.lookup s.dp_uuid_ht u)
  unfolding close_dp_session stop_old_dp_thread delete_dp
  close_lookup s uuid u old v h =
      H.lookup-delete s.dp_uuid_ht (s.dp old).uuid u
      ∙ ap (λ k. if str_eq k u then none else H.lookup s.dp_uuid_ht u) (v.own_uuid uuid old h)

  close_uuid : (s : Sessions H) (old x : ℕ) → ((close_dp_session s old).dp x).uuid ≡ (s.dp x).uuid
  unfolding close_dp_session stop_old_dp_thread delete_dp
  close_uuid s old = same_uuid_of s.dp old _ refl

  close_freed : (s : Sessions H) (old : ℕ) → (close_dp_session s old).freed ≡ old ∷ s.freed
  unfolding close_dp_session stop_old_dp_thread delete_dp
  close_freed s old = refl

  other_session :
      (s : Sessions H) (uuid u : String) (old d : ℕ)
      → (s.dp old).uuid ≡ uuid
      → (s.dp d).uuid ≡ u
      → str_eq uuid u ≡ false
      → (d == old) ≡ false
  other_session s uuid u old d a b ne = elim (Bool-cases (d == old)) [
    | inl i ↦
        let same : uuid ≡ u = sym a ∙ ap (λ x. (s.dp x).uuid) (sym (==→eq d old i)) ∙ b in
        let both : false ≡ true = sym ne ∙ ap (str_eq uuid) (sym same) ∙ text_eq_refl uuid in
        absurd (cc both)
    | inr i ↦ i
  ]

  -- An entry that is left after the closing was there before, for another uuid and session.
  pub left_entry :
      (s : Sessions H) (uuid u : String) (old d : ℕ)
      → Coherent s
      → H.lookup s.dp_uuid_ht uuid ≡ some old
      → H.lookup (close_dp_session s old).dp_uuid_ht u ≡ some d
      → (H.lookup s.dp_uuid_ht u ≡ some d) × ((d == old) ≡ false)
  left_entry s uuid u old d v h e =
      let g = sym (close_lookup s uuid u old v h) ∙ e in
      elim (Bool-cases (str_eq uuid u)) [
        | inl same ↦ absurd (ground (arith, g, same))
        | inr other ↦
            let was : H.lookup s.dp_uuid_ht u ≡ some d = ground (arith, g, other) in
            (was, other_session s uuid u old d (v.own_uuid uuid old h) (v.own_uuid u d was) other)
      ]

  pub close-Coherent :
      (s : Sessions H) (uuid : String) (old : ℕ)
      → Coherent s
      → H.lookup s.dp_uuid_ht uuid ≡ some old
      → Coherent (close_dp_session s old)
  close-Coherent s uuid old v h = record {
    own_uuid = λ u d e. close_uuid s old d ∙ v.own_uuid u d (left_entry s uuid u old d v h e).0;
    live = λ u d e.
        let was = left_entry s uuid u old d v h e in
        rw (close_freed s old, was.1) (v.live u d was.0);
  }

  -- The state before the new session: the old one of its uuid, if there is one, is closed.
  pub record Cleared (s : Sessions H) (uuid : String) (t : Sessions H) : Type 0 where
    pub gone : H.lookup t.dp_uuid_ht uuid ≡ none
    pub others :
        (u : String) → str_eq uuid u ≡ false → H.lookup t.dp_uuid_ht u ≡ H.lookup s.dp_uuid_ht u
    pub freed_old : t.freed ≡ push_some (H.lookup s.dp_uuid_ht uuid) s.freed
    pub coherent : Coherent t

  pub close_old-Cleared :
      (s : Sessions H) (uuid : String) (old : Option ℕ)
      → Coherent s
      → H.lookup s.dp_uuid_ht uuid ≡ old
      → Cleared s uuid (close_old s old)
  unfolding close_old
  close_old-Cleared s uuid none v h = record {
    gone = h;
    others = λ u e. refl;
    freed_old = rw h refl;
    coherent = v;
  }
  close_old-Cleared s uuid (some old) v h = record {
    gone = close_lookup s uuid uuid old v h ∙ rw text_eq_refl refl;
    others = λ u e. close_lookup s uuid u old v h ∙ rw e refl;
    freed_old = rw h (close_freed s old);
    coherent = close-Coherent s uuid old v h;
  }
