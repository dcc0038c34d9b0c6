-- ===== src/Dataplane/Ledger.antt =====
-- The sessions of the control thread of broker/route_broker_dp_ctrl.c, from their creation on.
use text.Mathlib.Text.{◌==◌ as str_eq}
use text.Mathlib.TextEquality.{eq_iff}
use text.Mathlib.TextPositions.{eq_refl as text_eq_refl}
use vyatta_route_broker.Base.{
  ℕ, ◌≡◌, ◌⊎◌, ◌∙◌, refl, ap, sym, inl, inr, true, false, List, [], ◌∷◌, Option, none, some, String,
  arith, ◌==◌, is_some, contains, distinct, Bool-cases, ==→eq,
}
use vyatta_route_broker.Broker.Placed.{eq_refl}
use vyatta_route_broker.Zhash.{Zhash}
use vyatta_route_broker.Dataplane.Message.{
  Request, req_error, req_connect, req_keepalive, broker_dp_ctrl_msg_parse,
}
use vyatta_route_broker.Dataplane.Ctrl.{
  Dp, Libs, Reply, Sessions, push_some, process_connect_message, process_keepalive_message,
  open_session, dp_findbyuuid, dispatch, process_ctrl_message, broker_dp_ctrl_msg_reconnect,
  broker_dp_ctrl_msg_prepare,
}
use vyatta_route_broker.Dataplane.Sessions.{Coherent, Fresh, close_old-Cleared}
use vyatta_route_broker.Dataplane.Connect.{process_connect_message-Connected}
use vyatta_route_broker.Dataplane.Shutdown.{
  ZhashCursor, AllClosed, close_all_dp_sessions, close_all_dp_sessions-AllClosed,
  contains-push_some,
}
use vyatta_route_broker.Dataplane.Thread.{
  Incoming, serve_messages, opened, opened_by, ThreadCalls, ended, no_sessions, broker_dp_ctrl,
}

in_push_some : (o : Option ℕ) (d : ℕ) (l : List ℕ) → o ≡ some d → contains d (push_some o l) ≡ true
in_push_some o d l e = rw (e, eq_refl d) refl

push_some_cases :
    (o : Option ℕ) (d : ℕ) (l : List ℕ)
    → contains d (push_some o l) ≡ true
    → (o ≡ some d) ⊎ (contains d l ≡ true)
push_some_cases none d l h = inr h
push_some_cases (some x) d l h = elim (Bool-cases (d == x)) [
  | inl e ↦ inl (ap Option.some (sym (==→eq d x e)))
  | inr e ↦ inr (ground arith)
]

distinct-push_some :
    (o : Option ℕ) (l : List ℕ)
    → ((d : ℕ) → o ≡ some d → contains d l ≡ false)
    → distinct l ≡ true
    → distinct (push_some o l) ≡ true
distinct-push_some none l n h = h
distinct-push_some (some x) l n h = rw (n x refl) h

module _ {H : Zhash} where
  -- Each session that was opened is in the table or has been freed, once.
  pub record Ledger (s : Sessions H) (l : List ℕ) : Type 0 where
    pub coherent : Coherent s
    pub once : distinct s.freed ≡ true
    pub covered :
        (d : ℕ)
        → contains d l ≡ true
        → (contains d s.freed ≡ true) ⊎ ((u : String) × (H.lookup s.dp_uuid_ht u ≡ some d))
    pub freed_opened : (d : ℕ) → contains d s.freed ≡ true → contains d l ≡ true
    pub entry_opened : (u : String) (d : ℕ) → H.lookup s.dp_uuid_ht u ≡ some d → contains d l ≡ true

  -- What a connection does, with and without memory for the new session.
  record Turn (s : Sessions H) (uuid : String) (new : Option ℕ) (t : Sessions H) : Type 0 where
    entry : H.lookup t.dp_uuid_ht uuid ≡ new
    kept : (u : String) → str_eq uuid u ≡ false → H.lookup t.dp_uuid_ht u ≡ H.lookup s.dp_uuid_ht u
    closed : t.freed ≡ push_some (H.lookup s.dp_uuid_ht uuid) s.freed
    sound : Coherent t

  Turn-Ledger :
      {s t : Sessions H} (uuid : String) (new : Option ℕ) (l : List ℕ)
      → Ledger s l
      → Turn s uuid new t
      → Ledger t (push_some new l)
  Turn-Ledger {s} {t} uuid new l g w =
      let old = H.lookup s.dp_uuid_ht uuid in
      record {
        coherent = w.sound;
        once =
            rw (w.closed) (distinct-push_some old s.freed (λ d e. g.coherent.live uuid d e) g.once);
        covered = λ d m. elim (push_some_cases new d l m) [
          | inl e ↦ inr (uuid, w.entry ∙ e)
          | inr m' ↦ elim (g.covered d m') [
            | inl f ↦ inl (rw (w.closed) (contains-push_some d old s.freed f))
            | inr (u, e) ↦ elim (Bool-cases (str_eq uuid u)) [
              | inl q ↦
                  let same : uuid ≡ u = (eq_iff uuid u).0 q in
                  inl (
                    rw (w.closed)
                      (in_push_some old d s.freed (ap (H.lookup s.dp_uuid_ht) same ∙ e)))
              | inr q ↦ inr (u, w.kept u q ∙ e)
            ]
          ]
        ];
        freed_opened = λ d m.
            elim (push_some_cases old d s.freed (ap (contains d) (sym w.closed) ∙ m)) [
              | inl e ↦ contains-push_some d new l (g.entry_opened uuid d e)
              | inr f ↦ contains-push_some d new l (g.freed_opened d f)
            ];
        entry_opened = λ u d e. elim (Bool-cases (str_eq uuid u)) [
          | inl q ↦
              let same : uuid ≡ u = (eq_iff uuid u).0 q in
              in_push_some new d l (sym w.entry ∙ ap (H.lookup t.dp_uuid_ht) same ∙ e)
          | inr q ↦ contains-push_some d new l (g.entry_opened u d (sym (w.kept u q) ∙ e))
        ];
      }

  idle-Turn :
      (s : Sessions H) (l : List ℕ) (sent : List Reply)
      → Ledger s l
      → Ledger (record s { sent = sent }) l
  idle-Turn s l sent g = record {
    coherent = record { own_uuid = g.coherent.own_uuid; live = g.coherent.live };
    once = g.once;
    covered = g.covered;
    freed_opened = g.freed_opened;
    entry_opened = g.entry_opened;
  }

  connect-Ledger :
      (l : Libs) (s : Sessions H) (envelope : Option ℕ) (uuid : String) (n : ℕ) (addr : Option ℕ)
      (al : List ℕ)
      → Ledger s al
      → l.calloc_dp ≡ addr
      → Fresh s addr
      → Ledger (process_connect_message l s envelope uuid n) (push_some addr al)
  unfolding process_connect_message dp_findbyuuid open_session
  connect-Ledger l s envelope uuid n none al g e f =
      let c = close_old-Cleared s uuid (H.lookup s.dp_uuid_ht uuid) g.coherent refl in
      rw e (
        Turn-Ledger uuid none al g
          (record { entry = c.gone; kept = c.others; closed = c.freed_old; sound = c.coherent }))
  connect-Ledger l s envelope uuid n (some d) al g e f =
      let c = process_connect_message-Connected l s envelope uuid n d g.coherent e f in
      Turn-Ledger uuid (some d) al g (record {
        entry = c.entry;
        kept = λ u ne. c.kept u (λ same. cc (sym ne ∙ ap (str_eq uuid) same ∙ text_eq_refl uuid));
        closed = c.closed;
        sound = c.sound;
      })

  keepalive-Ledger :
      (l : Libs) (s : Sessions H) (envelope : Option ℕ) (uuid : String) (al : List ℕ)
      → Ledger s al
      → Ledger (process_keepalive_message l s envelope uuid) al
  unfolding process_keepalive_message broker_dp_ctrl_msg_reconnect
  keepalive-Ledger l s envelope uuid al g = elim (Bool-cases (is_some (dp_findbyuuid s uuid))) [
    | inl e ↦ rw e g
    | inr e ↦ elim (Bool-cases (broker_dp_ctrl_msg_prepare l "RECONNECT" uuid)) [
      | inl p ↦ rw (e, p) (idle-Turn s al _ g)
      | inr p ↦ rw (e, p) g
    ]
  ]

  dispatch-Ledger :
      (l : Libs) (s : Sessions H) (envelope : Option ℕ) (n : ℕ) (req : Request × Option String)
      (al : List ℕ)
      → Ledger s al
      → Fresh s l.calloc_dp
      → Ledger (dispatch l s envelope n req) (push_some (opened_by l.calloc_dp req) al)
  unfolding dispatch
  dispatch-Ledger l s envelope n (req_error, some u) al g f = g
  dispatch-Ledger l s envelope n (req_error, none) al g f = g
  dispatch-Ledger l s envelope n (req_connect, none) al g f = g
  dispatch-Ledger l s envelope n (req_keepalive, none) al g f = g
  dispatch-Ledger l s envelope n (req_connect, some u) al g f =
      connect-Ledger l s envelope u n l.calloc_dp al g refl f
  dispatch-Ledger l s envelope n (req_keepalive, some u) al g f =
      keepalive-Ledger l s envelope u al g

  -- The memory for each new session is in use for no other when it is asked for.
  abbrev pub AllFresh : ℕ → List Incoming → Sessions H → Type 0
  AllFresh n [] s = Unit {0}
  AllFresh n (m ∷ ms) s =
      Fresh s m.libs.calloc_dp × AllFresh n ms (process_ctrl_message m.libs s m.envelope n m.frames)

  serve-Ledger :
      (n : ℕ) (ms : List Incoming) (s : Sessions H) (al : List ℕ)
      → Ledger s al
      → AllFresh n ms s
      → Ledger (serve_messages n ms s) (opened ms al)
  unfolding serve_messages process_ctrl_message
  serve-Ledger n [] s al g f = g
  serve-Ledger n (m ∷ ms) s al g f =
      serve-Ledger n ms (process_ctrl_message m.libs s m.envelope n m.frames)
        (push_some (opened_by m.libs.calloc_dp (broker_dp_ctrl_msg_parse m.frames)) al)
        (dispatch-Ledger m.libs s m.envelope n (broker_dp_ctrl_msg_parse m.frames) al g f.0) f.1

  started-Ledger : (memory : ℕ → Dp) → Ledger (no_sessions {H = H} memory) []
  started-Ledger memory = record {
    coherent = record { own_uuid = λ u d e. absurd (cc (H.lookup-new u, e)); live = λ u d e. refl };
    once = refl;
    covered = λ d m. cc;
    freed_opened = λ d m. cc;
    entry_opened = λ u d e. absurd (cc (H.lookup-new u, e));
  }

  -- The sessions that are freed behind the end are those that were opened.
  closed-opened :
      (s t : Sessions H) (al : List ℕ)
      → Ledger s al
      → AllClosed s t
      → (d : ℕ) → contains d t.freed ≡ contains d al
  closed-opened s t al g c d = elim (Bool-cases (contains d al)) [
    | inl m ↦ elim (g.covered d m) [
      | inl f ↦ c.still d f ∙ sym m
      | inr (u, e) ↦ c.every u d e ∙ sym m
    ]
    | inr m ↦ elim (Bool-cases (contains d t.freed)) [
      | inr x ↦ x ∙ sym m
      | inl x ↦ elim (c.only d x) [
        | inl f ↦ absurd (cc (g.freed_opened d f, m))
        | inr (u, e) ↦ absurd (cc (g.entry_opened u d e, m))
      ]
    ]
  ]

  -- A control thread whose socket is there and bound, and changed if it is a local one, serves any
  -- messages and then ends, with an empty table. If the memory for each new session is fresh, the
  -- sessions that were freed by then are exactly those that were opened, each freed once.
  pub broker_dp_ctrl-opened :
      (C : ZhashCursor H) (calls : ThreadCalls) (memory : ℕ → Dp) (n : ℕ) (ms : List Incoming)
      → calls.zsock_new_router ≡ true
      → calls.zsock_bind ≡ true
      → (calls.is_ipc ≡ false) ⊎ (calls.chmod ≡ true)
      → AllFresh n ms (no_sessions memory)
      → (t : Sessions H) × (broker_dp_ctrl C calls memory n ms ≡ ended t)
        × ((u : String) → H.lookup t.dp_uuid_ht u ≡ none)
        × ((d : ℕ) → contains d t.freed ≡ contains d (opened ms []))
        × (distinct t.freed ≡ true)
  unfolding broker_dp_ctrl
  broker_dp_ctrl-opened C calls memory n ms r b i f =
      let s = serve_messages n ms (no_sessions memory) in
      let g = serve-Ledger n ms (no_sessions memory) [] (started-Ledger memory) f in
      let c = close_all_dp_sessions-AllClosed C s g.coherent g.once in
      (
        close_all_dp_sessions C s,
        elim i [
          | inl x ↦ rw (r, b, x) refl
          | inr x ↦
              rw (r, b, x)
                (elim (Bool-cases calls.is_ipc) [ inl y ↦ rw y refl | inr y ↦ rw y refl ])
        ],
        c.emptied,
        closed-opened s (close_all_dp_sessions C s) (opened ms []) g c,
        c.once,
      )
