-- ===== src/Dataplane/Tests.antt =====
-- Sessions and messages on which the theorems are applied.
use text.Mathlib.TextEquality.{eq_iff}
use vyatta_route_broker.Base.{
  ◌≢◌, ◌⊎◌, String, ℕ, Bool, ◌≡◌, refl, true, false, List, [], ◌∷◌, ◌++◌, none, some, arith,
}
use vyatta_route_broker.Zhash.Assoc.{assoc_zhash}
use vyatta_route_broker.Dataplane.Config.{
  Entry, RibBrokerCfg, parse_entries, parse_entries-last_value,
}
use vyatta_route_broker.Dataplane.Message.{
  Frame, Request, req_connect, req_error, IsRequest, broker_dp_ctrl_msg_parse,
  broker_dp_ctrl_msg_parse-IsRequest,
}
use vyatta_route_broker.Dataplane.Ctrl.{
  Libs, Sessions, process_connect_message, process_ctrl_message,
}
use vyatta_route_broker.Dataplane.Sessions.{Coherent, Fresh}
use vyatta_route_broker.Dataplane.Consumer.{
  Event, got, published, failed, polled, dp_data_start, broker_dp_data_client, in_hand, unsent,
  broker_dp_data_client-sent, broker_consumer, kernel_start, broker_consumer-accepted,
}
use vyatta_route_broker.Dataplane.Connect.{
  Connected, process_connect_message-Connected, process_ctrl_message-Coherent,
}

abbrev connect_msg : List Frame
connect_msg =
    record { text = "CONNECT"; size = 7; word = 1313755971 }
    ∷ record { text = ""; size = 4; word = 0 }
    ∷ record { text = "dp1"; size = 3; word = 0 }
    ∷ []

connect_msg-IsRequest : IsRequest req_connect "dp1" connect_msg
connect_msg-IsRequest = record {
  named = record { text = "CONNECT"; size = 7; word = 1313755971 };
  version = record { text = ""; size = 4; word = 0 };
  id = record { text = "dp1"; size = 3; word = 0 };
  more = [];
  layout = refl;
  name_is = refl;
  version_size = refl;
  version_zero = refl;
  uuid_is = refl;
}

broker_dp_ctrl_msg_parse-IsRequest_example :
    ((req : Request) × (uuid : String) × (req ≢ req_error)
      × IsRequest req uuid connect_msg
      × (broker_dp_ctrl_msg_parse connect_msg ≡ (req, some uuid)))
    ⊎ ((broker_dp_ctrl_msg_parse connect_msg ≡ (req_error, none))
        × ((req : Request) (uuid : String) → req ≢ req_error → ¬ (IsRequest req uuid connect_msg)))
broker_dp_ctrl_msg_parse-IsRequest_example = broker_dp_ctrl_msg_parse-IsRequest connect_msg

abbrev all_well : Libs
all_well = record {
  calloc_dp = some 2;
  calloc_args = true;
  zactor_new = some 70;
  zstr_recv = λ _. some "ipc://data";
  zmsg_new = true;
  zmsg_addstr = λ _. true;
  zmsg_prepend = true;
  zmsg_addu32 = true;
}

-- The session 1 of the dataplane dp1.
abbrev one_session : Sessions assoc_zhash
one_session = record {
  dp = λ d. record { uuid = "dp1"; envelope = none; ipc = some 60; data_url = some "ipc://old" };
  dp_uuid_ht = ("dp1", 1) ∷ [];
  sent = [];
  stopped = [];
  destroyed = [];
  freed = [];
}

one_session-Coherent : Coherent one_session
one_session-Coherent = record {
  own_uuid = λ u d e. ground (arith, eq_iff "dp1" u, e);
  live = λ u d e. refl;
}

one_session-Fresh : Fresh one_session (some 2)
one_session-Fresh = record { not_used = λ u d e h. ground (arith, e, h); not_freed = λ d e. refl }

process_connect_message-Connected_example :
    Connected one_session "dp1" 2 (process_connect_message all_well one_session (some 9) "dp1" 0)
process_connect_message-Connected_example =
    process_connect_message-Connected all_well one_session (some 9) "dp1" 0 2 one_session-Coherent
      refl one_session-Fresh

process_ctrl_message-Coherent_example :
    Coherent (process_ctrl_message all_well one_session (some 9) 0 connect_msg)
process_ctrl_message-Coherent_example =
    process_ctrl_message-Coherent all_well one_session (some 9) 0 connect_msg one_session-Coherent
      one_session-Fresh

-- The object 5 is published at the second attempt; the thread is stopped with the object 6.
abbrev events : List (Event ℕ)
events =
    got (some 5)
    ∷ failed true false
    ∷ published
    ∷ polled false
    ∷ got (some 6)
    ∷ failed false true
    ∷ []

broker_dp_data_client-sent_example :
    let c = broker_dp_data_client dp_data_start events in
    (c.taken ≡ c.sent ++ unsent c.phase) × (c.taken ≡ c.freed ++ in_hand c.phase)
broker_dp_data_client-sent_example = broker_dp_data_client-sent events

events_sent : (broker_dp_data_client dp_data_start events).sent ≡ 5 ∷ []
unfolding broker_dp_data_client
events_sent = refl

-- The first object is refused.
abbrev offered : List (ℕ × Bool)
offered = (5, true) ∷ (6, false) ∷ []

broker_consumer-accepted_example :
    ((broker_consumer kernel_start offered).published_ok ≡ 6 ∷ [])
    × ((broker_consumer kernel_start offered).released ≡ 5 ∷ 6 ∷ [])
broker_consumer-accepted_example = broker_consumer-accepted offered

-- The second entry for `control` counts; the address is read and lost.
abbrev rib_conf : List Entry
rib_conf =
    record { section = "RIB"; name = "control"; value = "ipc:///a" }
    ∷ record { section = "rib"; name = "ip"; value = "127.0.0.1" }
    ∷ record { section = "Rib"; name = "control"; value = "ipc:///b" }
    ∷ []

abbrev no_cfg : RibBrokerCfg
no_cfg = record { local_ip = 0; rib_dp_ctrl_url = none; rib_dp_data_url = none; freed = [] }

abbrev any_address : String → Bool
any_address s = true

parse_entries-last_value_example :
    ((parse_entries any_address no_cfg rib_conf).0.rib_dp_ctrl_url ≡ some "ipc:///b")
    × ((parse_entries any_address no_cfg rib_conf).0.rib_dp_data_url ≡ none)
    × ((parse_entries any_address no_cfg rib_conf).0.local_ip ≡ 0)
parse_entries-last_value_example = parse_entries-last_value any_address no_cfg rib_conf
