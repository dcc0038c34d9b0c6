-- ===== src/Dataplane/Thread.antt =====
-- `broker_dp_ctrl` of broker/route_broker_dp_ctrl.c: the control thread from its start to its end.
use vyatta_route_broker.Base.{ℕ, Bool, List, [], ◌∷◌, Option, none, some, String, if◌then◌else◌}
use vyatta_route_broker.Zhash.{Zhash}
use vyatta_route_broker.Dataplane.Message.{Frame, Request, req_connect, broker_dp_ctrl_msg_parse}
use vyatta_route_broker.Dataplane.Ctrl.{Dp, Libs, Sessions, push_some, process_ctrl_message}
use vyatta_route_broker.Dataplane.Shutdown.{ZhashCursor, close_all_dp_sessions}

-- A message on the control socket, and what the libraries do while it is handled.
pub record Incoming : Type 0 where
  pub libs : Libs
  pub envelope : Option ℕ
  pub frames : List Frame

-- Whether the calls that set the thread up succeed; the url tells whether `chmod` is called.
pub record ThreadCalls : Type 0 where
  pub zsock_new_router : Bool
  pub zsock_bind : Bool
  pub is_ipc : Bool
  pub chmod : Bool

-- How the thread ends: early, for the socket, or behind its loop.
pub data ThreadEnd (S : Type 0) : Type 0 where
  no_socket not_bound not_changed : ThreadEnd S
  ended : S → ThreadEnd S

module _ {H : Zhash} where
  abbrev pub no_sessions : (ℕ → Dp) → Sessions H
  no_sessions memory = record {
    dp = memory;
    dp_uuid_ht = H.new;
    sent = [];
    stopped = [];
    destroyed = [];
    freed = [];
  }

  -- The messages that `zloop_start` hands on until the thread is told to end.
  unfoldable pub serve_messages : ℕ → List Incoming → Sessions H → Sessions H
  unfolding process_ctrl_message
  serve_messages data_format [] s = s
  serve_messages data_format (m ∷ ms) s =
      serve_messages data_format ms (process_ctrl_message m.libs s m.envelope data_format m.frames)

  unfoldable pub broker_dp_ctrl :
      ZhashCursor H → ThreadCalls → (ℕ → Dp) → ℕ → List Incoming → ThreadEnd (Sessions H)
  unfolding serve_messages close_all_dp_sessions
  broker_dp_ctrl C calls memory data_format ms =
      if calls.zsock_new_router
      then if calls.zsock_bind
        then if calls.is_ipc then if calls.chmod then served else not_changed else served
        else not_bound
      else no_socket
    where
      served : ThreadEnd (Sessions H)
      served = ended (close_all_dp_sessions C (serve_messages data_format ms (no_sessions memory)))

-- The session for which a request takes memory.
abbrev pub opened_by : Option ℕ → Request × Option String → Option ℕ
opened_by addr (req_connect, some uuid) = addr
opened_by addr _ = none

-- The sessions that the messages open, the last one first.
abbrev pub opened : List Incoming → List ℕ → List ℕ
opened [] l = l
opened (m ∷ ms) l =
    opened ms (push_some (opened_by m.libs.calloc_dp (broker_dp_ctrl_msg_parse m.frames)) l)
