-- ===== src/Dataplane/Sockets.antt =====
-- The sockets of the data threads, in broker/route_broker_dp_data.c. `dp_data_sock` is a static
-- variable of `broker_dp_data_client`, so that all threads that run the function share it.
use mathlib.Core.List.{append_assoc, append-nil}
use vyatta_route_broker.Base.{
  ℕ, ◌≡◌, ◌∙◌, refl, ap, sym, Bool, List, [], ◌∷◌, ◌++◌, map, All, Option, none, some, ◌&&◌, ◌||◌,
  not, if◌then◌else◌,
}

-- What the calls of `broker_dp_data_init` do; the endpoint and its url tell which are made.
pub record InitCalls : Type 0 where
  pub zsock_new : Option ℕ
  pub zsock_bind : Bool
  pub is_ipc : Bool
  pub chmod : Bool
  pub is_wild : Bool
  pub has_slash : Bool
  pub chmod_dir : Bool

-- Behind the creation of the socket, each failure is an `assert`.
unfoldable pub init_done : InitCalls → Bool
init_done c =
    c.zsock_bind && (not c.is_ipc || (c.chmod && (not (c.is_wild && c.has_slash) || c.chmod_dir)))

-- The socket, or `none` for an `assert` that fails.
unfoldable pub broker_dp_data_init : InitCalls → Option ℕ
unfolding init_done
broker_dp_data_init c = if init_done c then c.zsock_new else none

-- What the data threads do with the variable: a thread is started, publishes an object, and ends.
-- `sent` has each object that is published, with the value of the variable.
pub record DataSockets : Type 0 where
  pub dp_data_sock : Option ℕ
  pub sent : List (ℕ × Option ℕ)
  pub destroyed : List ℕ
  pub aborted : Bool

pub data SocketCall : Type 0 where
  started : ℕ → InitCalls → SocketCall
  publishes : ℕ → ℕ → SocketCall
  stops : ℕ → SocketCall

-- `zsock_destroy` does nothing for NULL, and sets the variable to NULL.
abbrev pub destroyed_with : List ℕ → Option ℕ → List ℕ
destroyed_with l none = l
destroyed_with l (some x) = l ++ (x ∷ [])

unfoldable pub socket_step : DataSockets → SocketCall → DataSockets
unfolding broker_dp_data_init
socket_step s (started t c) = elim (broker_dp_data_init c) [
  | none ↦ record s { aborted = Bool.true }
  | some x ↦ record s { dp_data_sock = some x }
]
socket_step s (publishes t obj) = record s { sent = s.sent ++ ((obj, s.dp_data_sock) ∷ []) }
socket_step s (stops t) = record s {
  dp_data_sock = none;
  destroyed = destroyed_with s.destroyed s.dp_data_sock;
}

unfoldable pub data_threads : DataSockets → List SocketCall → DataSockets
unfolding socket_step
data_threads s [] = s
data_threads s (c ∷ cs) = data_threads (socket_step s c) cs

data_threads-append :
    (s : DataSockets) (xs ys : List SocketCall)
    → data_threads s (xs ++ ys) ≡ data_threads (data_threads s xs) ys
unfolding data_threads
data_threads-append s [] ys = refl
data_threads-append s (x ∷ xs) ys = data_threads-append (socket_step s x) xs ys

-- The objects, published on the socket.
abbrev pub all_on : Option ℕ → List ℕ → List (ℕ × Option ℕ)
all_on x objs = map (λ o. (o, x)) objs

data_threads-publishes :
    (s : DataSockets) (t : ℕ) (objs : List ℕ)
    → data_threads s (map (publishes t) objs)
      ≡ record s { sent = s.sent ++ all_on s.dp_data_sock objs }
unfolding data_threads socket_step
data_threads-publishes s t [] = ap (λ l. record s { sent = l }) (sym (append-nil s.sent))
data_threads-publishes s t (o ∷ os) =
    data_threads-publishes (socket_step s (publishes t o)) t os
    ∙ ap (λ l. record s { sent = l })
        (append_assoc s.sent ((o, s.dp_data_sock) ∷ []) (all_on s.dp_data_sock os))

published_first :
    (s : DataSockets) (t : ℕ) (objs : List ℕ) (rest : List SocketCall)
    → data_threads s (map (publishes t) objs ++ rest)
      ≡ data_threads (record s { sent = s.sent ++ all_on s.dp_data_sock objs }) rest
published_first s t objs rest =
    data_threads-append s (map (publishes t) objs) rest
    ∙ ap (λ u. data_threads u rest) (data_threads-publishes s t objs)

-- A thread, the calls that get its socket, and the objects that it publishes.
pub record Session : Type 0 where
  pub thread : ℕ
  pub calls : InitCalls
  pub socket : ℕ
  pub objects : List ℕ

abbrev pub Ready : Session → Type 0
Ready d = broker_dp_data_init d.calls ≡ some d.socket

started_socket :
    (s : DataSockets) (d : Session)
    → Ready d
    → socket_step s (started d.thread d.calls) ≡ record s { dp_data_sock = some d.socket }
unfolding socket_step
started_socket s d r = rw (r, socket_step) refl

abbrev pub session_calls : Session → List SocketCall
session_calls d =
    started d.thread d.calls ∷ (map (publishes d.thread) d.objects ++ (stops d.thread ∷ []))

started_first :
    (s : DataSockets) (d : Session) (rest : List SocketCall)
    → Ready d
    → data_threads s (started d.thread d.calls ∷ rest)
      ≡ data_threads (record s { dp_data_sock = some d.socket }) rest
unfolding data_threads
started_first s d rest r = ap (λ u. data_threads u rest) (started_socket s d r)

session_behind :
    (s : DataSockets) (d : Session)
    → Ready d
    → data_threads s (session_calls d) ≡ record s {
      dp_data_sock = none;
      sent = s.sent ++ all_on (some d.socket) d.objects;
      destroyed = s.destroyed ++ (d.socket ∷ []);
    }
unfolding data_threads socket_step
session_behind s d r =
    started_first s d (map (publishes d.thread) d.objects ++ (stops d.thread ∷ [])) r
    ∙ published_first (record s { dp_data_sock = some d.socket }) d.thread d.objects
        (stops d.thread ∷ [])

abbrev pub one_by_one : List Session → List SocketCall
one_by_one [] = []
one_by_one (d ∷ ds) = session_calls d ++ one_by_one ds

-- What each session should send, and what should be destroyed.
abbrev pub own_sockets : List Session → List (ℕ × Option ℕ)
own_sockets [] = []
own_sockets (d ∷ ds) = all_on (some d.socket) d.objects ++ own_sockets ds

-- When each thread ends before the next one starts, as when a dataplane connects again, and their
-- sockets can be set up, each object goes to the socket of its thread, in order, and each socket is
-- destroyed once.
pub data_threads-one_by_one :
    (ds : List Session) (s : DataSockets)
    → All Ready ds
    → ((data_threads s (one_by_one ds)).sent ≡ s.sent ++ own_sockets ds)
      × ((data_threads s (one_by_one ds)).destroyed ≡ s.destroyed ++ map (λ d. d.socket) ds)
unfolding data_threads
data_threads-one_by_one [] s r = (sym (append-nil s.sent), sym (append-nil s.destroyed))
data_threads-one_by_one (d ∷ ds) s r =
    let u : DataSockets = record s {
      dp_data_sock = none;
      sent = s.sent ++ all_on (some d.socket) d.objects;
      destroyed = s.destroyed ++ (d.socket ∷ []);
    } in
    let split =
      data_threads-append s (session_calls d) (one_by_one ds)
      ∙ ap (λ t. data_threads t (one_by_one ds)) (session_behind s d r.0) in
    let ih = data_threads-one_by_one ds u r.1 in
    (
      ap (λ (t : DataSockets). t.sent) split
          ∙ ih.0
          ∙ append_assoc s.sent (all_on (some d.socket) d.objects) (own_sockets ds),
      ap (λ (t : DataSockets). t.destroyed) split
          ∙ ih.1
          ∙ append_assoc s.destroyed (d.socket ∷ []) (map (λ e. e.socket) ds),
    )

-- Two threads at a time: what the first publishes before and behind the start of the second, and
-- behind its end.
abbrev pub overlapping : Session → Session → List ℕ → List ℕ → List SocketCall
overlapping d e second third =
    started d.thread d.calls
    ∷ (map (publishes d.thread) d.objects
        ++ (started e.thread e.calls
            ∷ (map (publishes d.thread) second
                ++ (stops e.thread ∷ (map (publishes d.thread) third ++ (stops d.thread ∷ []))))))

overlapping_behind :
    (d e : Session) (second third : List ℕ) (s : DataSockets)
    → Ready d
    → Ready e
    → data_threads s (overlapping d e second third) ≡ record s {
      dp_data_sock = none;
      sent =
          ((s.sent ++ all_on (some d.socket) d.objects) ++ all_on (some e.socket) second)
          ++ all_on none third;
      destroyed = s.destroyed ++ (e.socket ∷ []);
    }
unfolding data_threads socket_step
overlapping_behind d e second third s rd re =
    let last = map (publishes d.thread) third ++ (stops d.thread ∷ []) in
    let behind = map (publishes d.thread) second ++ (stops e.thread ∷ last) in
    let first : DataSockets = record s {
      dp_data_sock = some d.socket;
      sent = s.sent ++ all_on (some d.socket) d.objects;
    } in
    let both : DataSockets = record first {
      dp_data_sock = some e.socket;
      sent = first.sent ++ all_on (some e.socket) second;
    } in
    let left : DataSockets = record both {
      dp_data_sock = none;
      destroyed = both.destroyed ++ (e.socket ∷ []);
    } in
    started_first s d (map (publishes d.thread) d.objects ++ (started e.thread e.calls ∷ behind)) rd
    ∙ published_first (record s { dp_data_sock = some d.socket }) d.thread d.objects
        (started e.thread e.calls ∷ behind)
    ∙ started_first first e behind re
    ∙ published_first (record first { dp_data_sock = some e.socket }) d.thread second
        (stops e.thread ∷ last)
    ∙ published_first left d.thread third (stops d.thread ∷ [])

-- When a second thread starts while the first one runs, and ends before it without publishing, and
-- both sockets can be set up, then the objects that the first publishes meanwhile go to the socket of
-- the second, and those that it publishes behind the end of the second go to NULL. Only the socket
-- of the second is destroyed.
pub data_threads-overlapping :
    (d e : Session) (second third : List ℕ) (s : DataSockets)
    → Ready d
    → Ready e
    → ((data_threads s (overlapping d e second third)).sent
        ≡ s.sent
          ++ (all_on (some d.socket) d.objects
              ++ (all_on (some e.socket) second ++ all_on none third)))
      × ((data_threads s (overlapping d e second third)).destroyed ≡ s.destroyed ++ (e.socket ∷ []))
data_threads-overlapping d e second third s rd re =
    let k = overlapping_behind d e second third s rd re in
    let a = all_on (some d.socket) d.objects in
    let b = all_on (some e.socket) second in
    let c = all_on none third in
    (
      ap (λ (t : DataSockets). t.sent) k
          ∙ append_assoc (s.sent ++ a) b c
          ∙ append_assoc s.sent a (b ++ c),
      ap (λ (t : DataSockets). t.destroyed) k,
    )
