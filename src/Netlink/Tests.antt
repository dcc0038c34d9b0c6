-- ===== src/Netlink/Tests.antt =====
-- Messages on which the definitions are run and the theorems applied.
use vyatta_route_broker.Base.{
  All, ℕ, zero, suc, Bool, ◌+◌, ◌-◌, ◌^◌, ◌≤◌, ◌≡◌, ◌≢◌, ◌⊎◌, refl, true, false, List, [], ◌∷◌,
  some, arith,
}
use vyatta_route_broker.Fpm.{FpmMsgHdr, IsHdr, fpm_msg_hdr_ok, size_t}
use vyatta_route_broker.Netlink.Rtnl.{
  RouteMsg, process_one, dump_route, rt_table_unspec, rt_table_main, rt_scope_universe, rtn_unicast,
  rtm_delroute, rtm_newroute, LinkScope, Untyped, process_one-normal,
}
use vyatta_route_broker.Netlink.Dump.{
  over, dump_messages, broker_dump_routes, broker_dump_routes-all,
}
use vyatta_route_broker.Netlink.Published.{ComesFrom, process_buffer, process_buffer-ComesFrom}
use vyatta_route_broker.Netlink.Walk.{
  AllInside, process_nlmsg, nlmsg_loop, nlmsg_align, nlmsg_loop_overrun,
}
use vyatta_route_broker.Netlink.Receive.{
  IsFrame, header, check_header, processed, broker_process_fpm, process_fpm-frame,
  process_fpm_inside,
}
use vyatta_route_broker.Netlink.Stream.{Stream, arrives, IsOpen, bytes}

-- A link-scope route of the kernel for IPv4, in no named table.
abbrev connected : RouteMsg
connected = record {
  nlmsg_len = 60;
  nlmsg_type = 24;
  nlmsg_pid = 0;
  is_replace = false;
  rtm_family = 2;
  rtm_table = 0;
  rtm_protocol = 2;
  rtm_scope = 253;
  rtm_type = 1;
}

abbrev normal : RouteMsg
normal = record connected { is_replace = true; rtm_table = 254; rtm_scope = 0 }

connected_out : process_one connected ≡ some (normal, 0)
unfolding process_one
connected_out = refl

process_one-normal_example :
    (normal ≡ record connected {
      rtm_table = normal.rtm_table;
      rtm_scope = normal.rtm_scope;
      rtm_type = normal.rtm_type;
      is_replace = normal.is_replace;
    })
    × ((connected.rtm_table ≡ rt_table_unspec) × (normal.rtm_table ≡ rt_table_main)
        ⊎ (connected.rtm_table ≢ rt_table_unspec) × (normal.rtm_table ≡ connected.rtm_table))
    × (LinkScope connected × (normal.rtm_scope ≡ rt_scope_universe)
        ⊎ (¬ (LinkScope connected)) × (normal.rtm_scope ≡ connected.rtm_scope))
    × (Untyped connected × (normal.rtm_type ≡ rtn_unicast)
        ⊎ (¬ (Untyped connected)) × (normal.rtm_type ≡ connected.rtm_type))
    × ((connected.nlmsg_type ≡ rtm_newroute) × (normal.is_replace ≡ true)
        ⊎ (connected.nlmsg_type ≡ rtm_delroute) × (normal.is_replace ≡ connected.is_replace))
process_one-normal_example = process_one-normal connected normal 0 connected_out

dumped : dump_route connected ≡ some (record normal { is_replace = false }, 0)
unfolding dump_route
dumped = refl

-- Dumps of two datagrams each, of which the second is not a route of the kernel.
abbrev parts : ℕ → List RouteMsg
parts zero = connected ∷ record connected { rtm_protocol = 4 } ∷ []
parts (suc n) = []

abbrev goes_on : ℕ → Bool
goes_on zero = true
goes_on (suc n) = false

broker_dump_routes-all_example :
    broker_dump_routes parts goes_on true true true
      (some 0 ∷ some 1 ∷ some 0 ∷ some 0 ∷ some 1 ∷ some 0 ∷ [])
    ≡ record {
      published =
          (record normal { is_replace = false }, 0)
          ∷ (record normal { is_replace = false }, 0)
          ∷ (record normal { is_replace = false }, 0)
          ∷ [];
      state = over;
      left = some 0 ∷ [];
    }
broker_dump_routes-all_example =
    broker_dump_routes-all parts goes_on (0 ∷ []) 1 (0 ∷ 0 ∷ []) 1 (some 0 ∷ []) ((refl, tt), refl)
      ((refl, (refl, tt)), refl)

dump_messages-run :
    dump_messages parts goes_on (parts 0) ≡ (record normal { is_replace = false }, 0) ∷ []
unfolding dump_messages dump_route
dump_messages-run = refl

-- A netlink message of 8 bytes behind the header.
abbrev frame_hdr : List ℕ
frame_hdr = 1 ∷ 1 ∷ 0 ∷ 12 ∷ []

abbrev payload : List ℕ
payload = 16 ∷ 0 ∷ 0 ∷ 0 ∷ 24 ∷ 0 ∷ 0 ∷ 0 ∷ []

abbrev hdr12 : FpmMsgHdr
hdr12 = record { version = 1; msg_type = 1; msg_len_high = 0; msg_len_low = 12 }

hdr12-IsHdr : IsHdr hdr12
hdr12-IsHdr = omega arith

-- The frame and the first byte of the next, in three pieces.
abbrev pieces : Stream
pieces =
    arrives (1 ∷ 1 ∷ 0 ∷ [])
    ∷ arrives (12 ∷ 16 ∷ 0 ∷ 0 ∷ 0 ∷ 24 ∷ [])
    ∷ arrives (0 ∷ 0 ∷ 0 ∷ 1 ∷ [])
    ∷ []

frame_hdr-IsFrame : IsFrame frame_hdr payload
unfolding header check_header fpm_msg_hdr_ok
frame_hdr-IsFrame = record { four = refl; checked = refl; sized = refl }

process_fpm-frame_example :
    (left : Stream) × (broker_process_fpm pieces ≡ processed payload left)
    × (bytes left ≡ 1 ∷ [])
    × IsOpen left
process_fpm-frame_example =
    process_fpm-frame frame_hdr payload (1 ∷ []) pieces (refl, (refl, (refl, tt))) refl
      frame_hdr-IsFrame

-- Every header says 16 bytes.
abbrev sixteen : ℕ → ℕ
sixteen off = 16

process_fpm_inside_example :
    AllInside sixteen 8 (process_nlmsg sixteen 8).0 × ((process_nlmsg sixteen 8).1 ≡ true)
unfolding header
process_fpm_inside_example =
    process_fpm_inside sixteen frame_hdr payload hdr12-IsHdr frame_hdr-IsFrame

abbrev seventeen : ℕ → ℕ
seventeen off = 17

nlmsg_loop_overrun_example :
    let left = size_t (17 + 2 ^ 64 - nlmsg_align 17) in
    (2 ^ 64 - 3 ≤ left)
    × ((nlmsg_loop seventeen 5 0 17).0
        ≡ (0, 17) ∷ (nlmsg_loop seventeen 4 (0 + nlmsg_align 17) left).0)
nlmsg_loop_overrun_example =
    nlmsg_loop_overrun seventeen 4 0 17 (omega arith) (omega arith) (omega arith) refl

-- Every message is the link-scope route of the kernel, of 60 bytes.
abbrev sixty : ℕ → ℕ
sixty off = 60

process_buffer-ComesFrom_example :
    All (ComesFrom sixty (λ off. connected) 120) (process_buffer sixty (λ off. connected) 120)
process_buffer-ComesFrom_example =
    process_buffer-ComesFrom sixty (λ off. connected) 120 refl (omega arith)
