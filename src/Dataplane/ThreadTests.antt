-- ===== src/Dataplane/ThreadTests.antt =====
-- A control thread to which a dataplane connects twice, and two data threads.
use vyatta_route_broker.Base.{
  ℕ, ◌≡◌, refl, inr, true, false, List, [], ◌∷◌, none, some, String, arith, contains, distinct,
}
use vyatta_route_broker.Zhash.Assoc.{assoc_zhash}
use vyatta_route_broker.Dataplane.Message.{Frame, broker_dp_ctrl_msg_parse}
use vyatta_route_broker.Dataplane.Ctrl.{
  Dp, Sessions, process_ctrl_message, dispatch, process_connect_message, close_old, open_session,
  dp_findbyuuid, dp_insert, start_new_dp_data_thread, broker_dp_ctrl_msg_accept,
  broker_dp_ctrl_msg_prepare,
}
use vyatta_route_broker.Dataplane.Shutdown.{assoc_cursor}
use vyatta_route_broker.Dataplane.Thread.{
  Incoming, ThreadCalls, ended, no_sessions, broker_dp_ctrl, opened,
}
use vyatta_route_broker.Dataplane.Ledger.{AllFresh, broker_dp_ctrl-opened}
use vyatta_route_broker.Dataplane.Sockets.{
  InitCalls, Session, DataSockets, Ready, broker_dp_data_init, data_threads, one_by_one,
  overlapping, data_threads-one_by_one, data_threads-overlapping,
}

abbrev connect_frames : List Frame
connect_frames =
    record { text = "CONNECT"; size = 7; word = 1313755971 }
    ∷ record { text = ""; size = 4; word = 0 }
    ∷ record { text = "dp1"; size = 3; word = 0 }
    ∷ []

abbrev connects : ℕ → Incoming
connects d = record {
  libs = record {
    calloc_dp = some d;
    calloc_args = true;
    zactor_new = some 70;
    zstr_recv = λ _. some "ipc://data";
    zmsg_new = true;
    zmsg_addstr = λ _. true;
    zmsg_prepend = true;
    zmsg_addu32 = true;
  };
  envelope = some 9;
  frames = connect_frames;
}

abbrev twice : List Incoming
twice = connects 2 ∷ connects 3 ∷ []

abbrev no_memory : ℕ → Dp
no_memory d = record { uuid = ""; envelope = none; ipc = none; data_url = none }

abbrev all_calls : ThreadCalls
all_calls = record { zsock_new_router = true; zsock_bind = true; is_ipc = true; chmod = true }

twice-AllFresh : AllFresh {H = assoc_zhash} 0 twice (no_sessions no_memory)
unfolding process_ctrl_message dispatch process_connect_message close_old open_session dp_findbyuuid
    dp_insert start_new_dp_data_thread broker_dp_ctrl_msg_accept broker_dp_ctrl_msg_prepare
    broker_dp_ctrl_msg_parse
twice-AllFresh = (
  record { not_used = λ u d e h. cc; not_freed = λ d e. refl },
  (record { not_used = λ u d e h. ground (arith, e, h); not_freed = λ d e. refl }, tt),
)

broker_dp_ctrl-opened_example :
    (t : Sessions assoc_zhash) × (broker_dp_ctrl assoc_cursor all_calls no_memory 0 twice ≡ ended t)
    × ((u : String) → assoc_zhash.lookup t.dp_uuid_ht u ≡ none)
    × ((d : ℕ) → contains d t.freed ≡ contains d (opened twice []))
    × (distinct t.freed ≡ true)
broker_dp_ctrl-opened_example =
    broker_dp_ctrl-opened assoc_cursor all_calls no_memory 0 twice refl refl (inr refl)
      twice-AllFresh

-- The calls that set up a local socket, with success.
abbrev calls_for : ℕ → InitCalls
calls_for x = record {
  zsock_new = some x;
  zsock_bind = true;
  is_ipc = true;
  chmod = true;
  is_wild = true;
  has_slash = true;
  chmod_dir = true;
}

abbrev first_session : Session
first_session = record { thread = 1; calls = calls_for 10; socket = 10; objects = 5 ∷ 6 ∷ [] }

abbrev second_session : Session
second_session = record { thread = 2; calls = calls_for 20; socket = 20; objects = 7 ∷ [] }

abbrev no_threads : DataSockets
no_threads = record { dp_data_sock = none; sent = []; destroyed = []; aborted = false }

first_session-Ready : Ready first_session
unfolding broker_dp_data_init
first_session-Ready = refl

second_session-Ready : Ready second_session
unfolding broker_dp_data_init
second_session-Ready = refl

data_threads-one_by_one_example :
    ((data_threads no_threads (one_by_one (first_session ∷ second_session ∷ []))).sent
      ≡ (5, some 10) ∷ (6, some 10) ∷ (7, some 20) ∷ [])
    × ((data_threads no_threads (one_by_one (first_session ∷ second_session ∷ []))).destroyed
        ≡ 10 ∷ 20 ∷ [])
data_threads-one_by_one_example =
    data_threads-one_by_one (first_session ∷ second_session ∷ []) no_threads
      (first_session-Ready, (second_session-Ready, tt))

data_threads-overlapping_example :
    ((data_threads no_threads (overlapping first_session second_session (8 ∷ []) (9 ∷ []))).sent
      ≡ (5, some 10) ∷ (6, some 10) ∷ (8, some 20) ∷ (9, none) ∷ [])
    × ((data_threads no_threads
          (overlapping first_session second_session (8 ∷ []) (9 ∷ []))).destroyed
        ≡ 20 ∷ [])
data_threads-overlapping_example =
    data_threads-overlapping first_session second_session (8 ∷ []) (9 ∷ []) no_threads
      first_session-Ready second_session-Ready
