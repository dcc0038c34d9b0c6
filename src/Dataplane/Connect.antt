-- ===== src/Dataplane/Connect.antt =====
-- `process_connect_message`, `process_keepalive_message` and `process_ctrl_message` of
-- broker/route_broker_dp_ctrl.c on the sessions.
use text.Mathlib.Text.{◌==◌ as str_eq}
use text.Mathlib.TextEquality.{eq_iff}
use text.Mathlib.TextPositions.{eq_refl as text_eq_refl}
use vyatta_route_broker.Base.{
  ℕ, ◌≡◌, ◌≢◌, ◌⊎◌, ◌∙◌, refl, ap, sym, inl, inr, Bool, true, false, List, Option, none, some,
  String, arith, ◌==◌, if◌then◌else◌, is_some, contains, Bool-cases, ==→eq,
}
use vyatta_route_broker.Broker.Placed.{eq_refl}
use vyatta_route_broker.Zhash.{Zhash}
use vyatta_route_broker.Dataplane.Message.{
  Frame, Request, req_error, req_connect, req_keepalive, broker_dp_ctrl_msg_parse,
}
use vyatta_route_broker.Dataplane.Ctrl.{
  Libs, Sessions, push_some, broker_dp_ctrl_msg_prepare, broker_dp_ctrl_msg_reconnect, dp_insert,
  close_old, open_session, dp_findbyuuid, process_connect_message, process_keepalive_message,
  dispatch, process_ctrl_message,
}
use vyatta_route_broker.Dataplane.Sessions.{
  Coherent, Fresh, open-Same, Same-Coherent, Cleared, close_old-Cleared, with_session,
}

module _ {H : Zhash} where
  with_session_lookup :
      (s : Sessions H) (envelope : Option ℕ) (uuid u : String) (d : ℕ)
      → H.lookup s.dp_uuid_ht uuid ≡ none
      → H.lookup (with_session s envelope uuid d).dp_uuid_ht u
        ≡ (if str_eq uuid u then some d else H.lookup s.dp_uuid_ht u)
  unfolding dp_insert
  with_session_lookup s envelope uuid u d h =
      rw (eq_refl d) (H.lookup-insert s.dp_uuid_ht uuid u d ∙ rw h (ground arith))

  -- An entry of the table is the new one or an old one.
  entry_cases :
      (s : Sessions H) (envelope : Option ℕ) (uuid u : String) (d x : ℕ)
      → H.lookup s.dp_uuid_ht uuid ≡ none
      → Fresh s (some d)
      → H.lookup (with_session s envelope uuid d).dp_uuid_ht u ≡ some x
      → ((d ≡ x) × (uuid ≡ u)) ⊎ ((H.lookup s.dp_uuid_ht u ≡ some x) × ((d == x) ≡ false))
  entry_cases s envelope uuid u d x h f e =
      let g = sym (with_session_lookup s envelope uuid u d h) ∙ e in
      elim (Bool-cases (str_eq uuid u)) [
        | inl i ↦ inl (ground (arith, g, i), ground (arith, eq_iff uuid u, i))
        | inr i ↦
            let was : H.lookup s.dp_uuid_ht u ≡ some x = ground (arith, g, i) in
            inr (
              was,
              elim (Bool-cases (d == x)) [
                | inl j ↦ absurd (f.not_used u x (ap Option.some (==→eq d x j)) was)
                | inr j ↦ j
              ],
            )
      ]

  with_session-Coherent :
      (s : Sessions H) (envelope : Option ℕ) (uuid : String) (d : ℕ)
      → Coherent s
      → H.lookup s.dp_uuid_ht uuid ≡ none
      → Fresh s (some d)
      → Coherent (with_session s envelope uuid d)
  unfolding dp_insert
  with_session-Coherent s envelope uuid d v h f = record {
    own_uuid = λ u x e. elim (entry_cases s envelope uuid u d x h f e) [
      | inl p ↦ rw (sym (p.0), eq_refl d) (p.1)
      | inr p ↦ rw (p.1) (v.own_uuid u x p.0)
    ];
    live = λ u x e. elim (entry_cases s envelope uuid u d x h f e) [
      | inl p ↦ f.not_freed x (ap Option.some p.0)
      | inr p ↦ v.live u x p.0
    ];
  }

  contains-push_some :
      (s : Sessions H) (uuid : String) (d : ℕ) (old : Option ℕ)
      → Fresh s (some d)
      → H.lookup s.dp_uuid_ht uuid ≡ old
      → contains d (push_some old s.freed) ≡ false
  contains-push_some s uuid d none f h = f.not_freed d refl
  contains-push_some s uuid d (some old) f h = elim (Bool-cases (d == old)) [
    | inl i ↦ absurd (f.not_used uuid d refl (h ∙ ap Option.some (sym (==→eq d old i))))
    | inr i ↦ rw i (f.not_freed d refl)
  ]

  close_old-Fresh :
      (s t : Sessions H) (uuid : String) (d : ℕ)
      → Cleared s uuid t
      → Fresh s (some d)
      → Fresh t (some d)
  close_old-Fresh s t uuid d c f = record {
    not_used = λ u x e h. elim (Bool-cases (str_eq uuid u)) [
      | inl i ↦
          let same : uuid ≡ u = ground (arith, eq_iff uuid u, i) in
          absurd (cc (sym c.gone ∙ ap (H.lookup t.dp_uuid_ht) same ∙ h))
      | inr i ↦ f.not_used u x e (sym (c.others u i) ∙ h)
    ];
    not_freed = λ x e.
        let same : d ≡ x = ground arith in
        rw (sym same, c.freed_old)
          (contains-push_some s uuid d (H.lookup s.dp_uuid_ht uuid) f refl);
  }

  -- What a connection makes of the table and of the sessions, when there is memory for it.
  pub record Connected (s : Sessions H) (uuid : String) (d : ℕ) (t : Sessions H) : Type 0 where
    pub entry : H.lookup t.dp_uuid_ht uuid ≡ some d
    pub owner : (t.dp d).uuid ≡ uuid
    pub kept : (u : String) → u ≢ uuid → H.lookup t.dp_uuid_ht u ≡ H.lookup s.dp_uuid_ht u
    pub closed : t.freed ≡ push_some (H.lookup s.dp_uuid_ht uuid) s.freed
    pub sound : Coherent t

  open-Connected :
      (l : Libs) (s c : Sessions H) (envelope : Option ℕ) (uuid : String) (n d : ℕ)
      → Cleared s uuid c
      → Fresh s (some d)
      → Connected s uuid d (open_session l c envelope uuid n (some d))
  unfolding dp_insert
  open-Connected l s c envelope uuid n d cl f =
      let w = with_session c envelope uuid d in
      let same = open-Same l c envelope uuid n d in
      let coherent =
        with_session-Coherent c envelope uuid d cl.coherent cl.gone
          (close_old-Fresh s c uuid d cl f) in
      let look = (λ (u : String).
        ap (λ ht. H.lookup ht u) same.same_table
        ∙ with_session_lookup c envelope uuid u d cl.gone) in
      record {
        entry = look uuid ∙ rw text_eq_refl refl;
        owner = same.same_uuid d ∙ rw (eq_refl d) refl;
        kept = λ u ne.
            let other : str_eq uuid u ≡ false = ground (arith, eq_iff uuid u) in
            look u ∙ rw other (cl.others u other);
        closed = same.same_freed ∙ cl.freed_old;
        sound = Same-Coherent same coherent;
      }

  -- A connection of a dataplane gives its uuid the new session, whatever was there before: the old
  -- session of the uuid, if there is one, is freed, no other session is, and the entries of all
  -- other uuids stay. The table leads from each uuid to a session of that uuid that is not freed.
  pub process_connect_message-Connected :
      (l : Libs) (s : Sessions H) (envelope : Option ℕ) (uuid : String) (n d : ℕ)
      → Coherent s
      → l.calloc_dp ≡ some d
      → Fresh s (some d)
      → Connected s uuid d (process_connect_message l s envelope uuid n)
  unfolding process_connect_message dp_findbyuuid
  process_connect_message-Connected l s envelope uuid n d v e f = rw e (
      open-Connected l s (close_old s (H.lookup s.dp_uuid_ht uuid)) envelope uuid n d
        (close_old-Cleared s uuid (H.lookup s.dp_uuid_ht uuid) v refl) f)

  -- Behind a connection, a keepalive of its uuid, or of one that was known before, changes nothing
  -- and is not answered: a dataplane is told to connect again only when it has no session.
  process_keepalive_message-process_connect_message :
      (l m : Libs) (s : Sessions H) (envelope again : Option ℕ) (uuid u : String) (n d : ℕ)
      → Coherent s
      → l.calloc_dp ≡ some d
      → Fresh s (some d)
      → (u ≡ uuid) ⊎ (is_some (H.lookup s.dp_uuid_ht u) ≡ true)
      → process_keepalive_message m (process_connect_message l s envelope uuid n) again u
        ≡ process_connect_message l s envelope uuid n
  unfolding process_keepalive_message dp_findbyuuid
  process_keepalive_message-process_connect_message l m s envelope again uuid u n d v e f k =
      let c = process_connect_message-Connected l s envelope uuid n d v e f in
      elim (Bool-cases (str_eq u uuid)) [
        | inl i ↦ let same : u ≡ uuid = ground (arith, eq_iff u uuid, i) in rw (same, c.entry) refl
        | inr i ↦
            let apart : u ≢ uuid = (λ x. cc (sym i ∙ ap (str_eq u) (sym x) ∙ text_eq_refl u)) in
            elim k [ inl x ↦ absurd (apart x) | inr known ↦ rw (c.kept u apart, known) refl ]
      ]

  connect-Coherent :
      (l : Libs) (s : Sessions H) (envelope : Option ℕ) (uuid : String) (n : ℕ) (addr : Option ℕ)
      → Coherent s
      → l.calloc_dp ≡ addr
      → Fresh s addr
      → Coherent (process_connect_message l s envelope uuid n)
  unfolding process_connect_message dp_findbyuuid open_session
  connect-Coherent l s envelope uuid n none v e f =
      rw e (close_old-Cleared s uuid (H.lookup s.dp_uuid_ht uuid) v refl).coherent
  connect-Coherent l s envelope uuid n (some d) v e f =
      (process_connect_message-Connected l s envelope uuid n d v e f).sound

  if-Coherent :
      (b : Bool) {s t : Sessions H} → Coherent s → Coherent t → Coherent (if b then s else t)
  if-Coherent true v w = v
  if-Coherent false v w = w

  keepalive-Coherent :
      (l : Libs) (s : Sessions H) (envelope : Option ℕ) (uuid : String)
      → Coherent s
      → Coherent (process_keepalive_message l s envelope uuid)
  unfolding process_keepalive_message broker_dp_ctrl_msg_reconnect
  keepalive-Coherent l s envelope uuid v = if-Coherent (is_some (dp_findbyuuid s uuid)) v (
      if-Coherent (broker_dp_ctrl_msg_prepare l "RECONNECT" uuid)
        (record { own_uuid = v.own_uuid; live = v.live }) v)

  dispatch-Coherent :
      (l : Libs) (s : Sessions H) (envelope : Option ℕ) (n : ℕ) (req : Request × Option String)
      → Coherent s
      → Fresh s l.calloc_dp
      → Coherent (dispatch l s envelope n req)
  unfolding dispatch
  dispatch-Coherent l s envelope n (req_error, some u) v f = v
  dispatch-Coherent l s envelope n (req_error, none) v f = v
  dispatch-Coherent l s envelope n (req_connect, none) v f = v
  dispatch-Coherent l s envelope n (req_keepalive, none) v f = v
  dispatch-Coherent l s envelope n (req_connect, some u) v f =
      connect-Coherent l s envelope u n l.calloc_dp v refl f
  dispatch-Coherent l s envelope n (req_keepalive, some u) v f = keepalive-Coherent l s envelope u v

  -- Whatever message comes, and whatever fails on the way, the table goes on to lead from each
  -- uuid to a session of that uuid that is not freed, if the memory for a new session is fresh.
  pub process_ctrl_message-Coherent :
      (l : Libs) (s : Sessions H) (envelope : Option ℕ) (n : ℕ) (msg : List Frame)
      → Coherent s
      → Fresh s l.calloc_dp
      → Coherent (process_ctrl_message l s envelope n msg)
  unfolding process_ctrl_message
  process_ctrl_message-Coherent l s envelope n msg v f =
      dispatch-Coherent l s envelope n (broker_dp_ctrl_msg_parse msg) v f
