-- ===== src/Dataplane/Ctrl.antt =====
-- broker/route_broker_dp_ctrl.c: the sessions of the dataplanes, and the handlers of the messages
-- on the control socket.
use vyatta_route_broker.Base.{
  ℕ, Bool, ◌&&◌, List, ◌∷◌, Option, none, some, String, if◌then◌else◌, is_some,
}
use vyatta_route_broker.Broker.{update}
use vyatta_route_broker.Zhash.{Zhash}
use vyatta_route_broker.Dataplane.Message.{
  Frame, Request, req_connect, req_keepalive, broker_dp_ctrl_msg_parse,
}

-- `struct dp`: frames and actors are known by their address, `none` is NULL.
pub record Dp : Type 0 where
  pub uuid : String
  pub envelope : Option ℕ
  pub ipc : Option ℕ
  pub data_url : Option String

-- The messages that go out on the control socket.
pub data Reply : Type 0 where
  accept : String → Option String → ℕ → Option ℕ → Reply
  reconnect : String → Option ℕ → Reply

-- What `calloc`, czmq and zeromq do during one call.
pub record Libs : Type 0 where
  pub calloc_dp : Option ℕ
  pub calloc_args : Bool
  pub zactor_new : Option ℕ
  pub zstr_recv : Option ℕ → Option String
  pub zmsg_new : Bool
  pub zmsg_addstr : Option String → Bool
  pub zmsg_prepend : Bool
  pub zmsg_addu32 : Bool

module _ (H : Zhash) where
  -- The memory of the sessions, the table by uuid, the replies (the last one first), the actors
  -- that were stopped, and the frames and sessions that were freed.
  pub record Sessions : Type 0 where
    pub dp : ℕ → Dp
    pub dp_uuid_ht : H.Table
    pub sent : List Reply
    pub stopped : List ℕ
    pub destroyed : List ℕ
    pub freed : List ℕ

abbrev pub push_some : Option ℕ → List ℕ → List ℕ
push_some none l = l
push_some (some x) l = x ∷ l

-- Whether `broker_dp_ctrl_msg_prepare` gives a message.
unfoldable pub broker_dp_ctrl_msg_prepare : Libs → String → String → Bool
broker_dp_ctrl_msg_prepare l reply uuid =
    l.zmsg_new && l.zmsg_addstr (some reply) && l.zmsg_addstr (some uuid) && l.zmsg_prepend

module _ {H : Zhash} where
  unfoldable pub dp_findbyuuid : Sessions H → String → Option ℕ
  dp_findbyuuid s uuid = H.lookup s.dp_uuid_ht uuid

  unfoldable pub dp_insert : Sessions H → ℕ → Sessions H
  dp_insert s d = record s { dp_uuid_ht = H.insert s.dp_uuid_ht (s.dp d).uuid d }

  unfoldable pub delete_dp : Sessions H → ℕ → Sessions H
  delete_dp s d = record s {
    destroyed = push_some (s.dp d).envelope s.destroyed;
    freed = d ∷ s.freed;
  }

  -- `zactor_destroy` takes the actor and sets the pointer to NULL.
  unfoldable pub stop_old_dp_thread : Sessions H → ℕ → Sessions H
  stop_old_dp_thread s d = record s {
    stopped = push_some (s.dp d).ipc s.stopped;
    dp = update s.dp d (record (s.dp d) { ipc = none });
  }

  unfoldable pub close_dp_session : Sessions H → ℕ → Sessions H
  unfolding stop_old_dp_thread delete_dp
  close_dp_session s d =
      delete_dp
        (stop_old_dp_thread (record s { dp_uuid_ht = H.delete s.dp_uuid_ht (s.dp d).uuid }) d) d

  -- The message takes the envelope away from the session.
  unfoldable pub broker_dp_ctrl_msg_accept : Libs → Sessions H → ℕ → Option String → ℕ → Sessions H
  unfolding broker_dp_ctrl_msg_prepare
  broker_dp_ctrl_msg_accept l s d url data_format =
      if broker_dp_ctrl_msg_prepare l "ACCEPT" o.uuid
      then if l.zmsg_addstr url && l.zmsg_addu32
        then record moved { sent = accept o.uuid url data_format o.envelope ∷ s.sent }
        else moved
      else s
    where
      o : Dp
      o = s.dp d

      moved : Sessions H
      moved = record s { dp = update s.dp d (record o { envelope = none }) }

  unfoldable pub broker_dp_ctrl_msg_reconnect : Libs → Sessions H → String → Option ℕ → Sessions H
  unfolding broker_dp_ctrl_msg_prepare
  broker_dp_ctrl_msg_reconnect l s uuid envelope =
      if broker_dp_ctrl_msg_prepare l "RECONNECT" uuid
      then record s { sent = reconnect uuid envelope ∷ s.sent }
      else s

  -- The new actor, and the url that it sends.
  unfoldable pub start_new_dp_data_thread : Libs → Sessions H → ℕ → Option String × Sessions H
  start_new_dp_data_thread l s d =
      if l.calloc_args
      then (
        l.zstr_recv l.zactor_new,
        record s { dp = update s.dp d (record (s.dp d) { ipc = l.zactor_new }) },
      )
      else (none, s)

  unfoldable pub close_old : Sessions H → Option ℕ → Sessions H
  unfolding close_dp_session
  close_old s none = s
  close_old s (some d) = close_dp_session s d

  unfoldable pub open_session : Libs → Sessions H → Option ℕ → String → ℕ → Option ℕ → Sessions H
  unfolding dp_insert start_new_dp_data_thread broker_dp_ctrl_msg_accept
  open_session l s envelope uuid data_format none = s
  open_session l s envelope uuid data_format (some d) =
      let new : Dp = record { uuid = uuid; envelope = envelope; ipc = none; data_url = none } in
      let started =
        start_new_dp_data_thread l (dp_insert (record s { dp = update s.dp d new }) d) d in
      let t = started.1 in
      broker_dp_ctrl_msg_accept l
        (record t { dp = update t.dp d (record (t.dp d) { data_url = started.0 }) }) d started.0
        data_format

  unfoldable pub process_connect_message : Libs → Sessions H → Option ℕ → String → ℕ → Sessions H
  unfolding close_old open_session dp_findbyuuid
  process_connect_message l s envelope uuid data_format =
      open_session l (close_old s (dp_findbyuuid s uuid)) envelope uuid data_format l.calloc_dp

  unfoldable pub process_keepalive_message : Libs → Sessions H → Option ℕ → String → Sessions H
  unfolding dp_findbyuuid broker_dp_ctrl_msg_reconnect
  process_keepalive_message l s envelope uuid =
      if is_some (dp_findbyuuid s uuid) then s else broker_dp_ctrl_msg_reconnect l s uuid envelope

  unfoldable pub dispatch : Libs → Sessions H → Option ℕ → ℕ → Request × Option String → Sessions H
  unfolding process_connect_message process_keepalive_message
  dispatch l s envelope data_format (req_connect, some uuid) =
      process_connect_message l s envelope uuid data_format
  dispatch l s envelope data_format (req_keepalive, some uuid) =
      process_keepalive_message l s envelope uuid
  dispatch l s envelope data_format _ = s

  -- `envelope` is what `zmsg_unwrap` takes off the message, `msg` what is left of it.
  unfoldable pub process_ctrl_message : Libs → Sessions H → Option ℕ → ℕ → List Frame → Sessions H
  unfolding dispatch
  process_ctrl_message l s envelope data_format msg =
      dispatch l s envelope data_format (broker_dp_ctrl_msg_parse msg)
