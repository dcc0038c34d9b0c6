-- ===== src/Netlink/Rtnl.antt =====
-- `process_rtnl` and `dump_route`: what is published for a route message, at which priority.
use vyatta_route_broker.Base.{
  ℕ, ◌≡◌, ◌≢◌, ◌⊎◌, Bool, true, ◌&&◌, not, Option, none, some, arith, ◌==◌, ltb, if◌then◌else◌,
}

-- The fields of `struct nlmsghdr` and of the `struct rtmsg` behind it that the code reads.
pub record RouteMsg : Type 0 where
  pub nlmsg_len : ℕ
  pub nlmsg_type : ℕ
  pub nlmsg_pid : ℕ
  pub is_replace : Bool
  pub rtm_family : ℕ
  pub rtm_table : ℕ
  pub rtm_protocol : ℕ
  pub rtm_scope : ℕ
  pub rtm_type : ℕ

-- The constants of <linux/rtnetlink.h> and <sys/socket.h>.
abbrev pub rtm_newroute : ℕ
rtm_newroute = 24

abbrev pub rtm_delroute : ℕ
rtm_delroute = 25

abbrev pub rtprot_kernel : ℕ
rtprot_kernel = 2

abbrev pub af_inet : ℕ
af_inet = 2

abbrev pub rt_scope_universe : ℕ
rt_scope_universe = 0

abbrev pub rt_scope_link : ℕ
rt_scope_link = 253

abbrev pub rt_table_unspec : ℕ
rt_table_unspec = 0

abbrev pub rt_table_main : ℕ
rt_table_main = 254

abbrev pub rtn_unspec : ℕ
rtn_unspec = 0

abbrev pub rtn_unicast : ℕ
rtn_unicast = 1

-- NLMSG_LENGTH(sizeof(struct rtmsg)): headers of 16 and of 12 bytes.
abbrev pub rtmsg_length : ℕ
rtmsg_length = 28

-- ROUTE_CONNECTED and ROUTE_OTHER
abbrev pub route_connected : ℕ
route_connected = 0

abbrev pub route_other : ℕ
route_other = 2

set_scope : RouteMsg → RouteMsg
set_scope m =
    if m.rtm_protocol == rtprot_kernel && m.rtm_family == af_inet && m.rtm_scope == rt_scope_link
    then record m { rtm_scope = rt_scope_universe }
    else m

set_table : RouteMsg → RouteMsg
set_table m = if m.rtm_table == rt_table_unspec then record m { rtm_table = rt_table_main } else m

set_type : RouteMsg → RouteMsg
set_type m =
    if m.nlmsg_type == rtm_delroute && not (m.nlmsg_pid == 0) && m.rtm_type == rtn_unspec
    then record m { rtm_type = rtn_unicast }
    else m

priority : RouteMsg → ℕ
priority m = if m.rtm_protocol == rtprot_kernel then route_connected else route_other

-- The message and the priority that `route_broker_publish` is called with, if it is.
unfoldable pub process_rtnl : RouteMsg → Option (RouteMsg × ℕ)
unfolding set_scope set_table set_type priority
process_rtnl m =
    if ltb m.nlmsg_len rtmsg_length
    then none
    else some (set_type (set_table (set_scope m)), priority m)

-- The body of the loop in `process_nlmsg`.
unfoldable pub process_one : RouteMsg → Option (RouteMsg × ℕ)
unfolding process_rtnl
process_one m =
    if m.nlmsg_type == rtm_newroute
    then process_rtnl (record m { is_replace = true })
    else if m.nlmsg_type == rtm_delroute
    then process_rtnl m
    else none

-- What `dump_route` publishes of a dump of the kernel's table.
unfoldable pub dump_route : RouteMsg → Option (RouteMsg × ℕ)
unfolding process_rtnl
dump_route m =
    if m.nlmsg_type == rtm_newroute && not (ltb m.nlmsg_len rtmsg_length)
    then if m.rtm_protocol == rtprot_kernel then process_rtnl m else none
    else none

-- A route of the kernel for IPv4 in the link scope.
abbrev pub LinkScope : RouteMsg → Type 0
LinkScope m =
    (m.rtm_protocol ≡ rtprot_kernel) × (m.rtm_family ≡ af_inet) × (m.rtm_scope ≡ rt_scope_link)

-- A delete that comes from a process and names no type.
abbrev pub Untyped : RouteMsg → Type 0
Untyped m = (m.nlmsg_type ≡ rtm_delroute) × (m.nlmsg_pid ≢ 0) × (m.rtm_type ≡ rtn_unspec)

-- A message that `process_nlmsg` publishes differs from the one that came in its table, its scope,
-- its type and the mark of replacing at most. The table is the main one if none was named, and as it
-- was if not. The scope is the universe for a kernel route of IPv4 in the link scope, and as it was
-- for every other. The type is unicast for a delete of a process that names no type, and as it was
-- for every other. Updates are marked as replacing, deletes as they were.
pub process_one-normal :
    (m out : RouteMsg) (pri : ℕ)
    → process_one m ≡ some (out, pri)
    → (out ≡ record m {
      rtm_table = out.rtm_table;
      rtm_scope = out.rtm_scope;
      rtm_type = out.rtm_type;
      is_replace = out.is_replace;
    })
      × ((m.rtm_table ≡ rt_table_unspec) × (out.rtm_table ≡ rt_table_main)
          ⊎ (m.rtm_table ≢ rt_table_unspec) × (out.rtm_table ≡ m.rtm_table))
      × (LinkScope m × (out.rtm_scope ≡ rt_scope_universe)
          ⊎ (¬ (LinkScope m)) × (out.rtm_scope ≡ m.rtm_scope))
      × (Untyped m × (out.rtm_type ≡ rtn_unicast) ⊎ (¬ (Untyped m)) × (out.rtm_type ≡ m.rtm_type))
      × ((m.nlmsg_type ≡ rtm_newroute) × (out.is_replace ≡ true)
          ⊎ (m.nlmsg_type ≡ rtm_delroute) × (out.is_replace ≡ m.is_replace))
unfolding process_one
process_one-normal m out pri e =
    (ground arith, ground arith, ground arith, ground arith, ground arith)

-- The kernel's routes are published at the highest priority, all others at the lowest.
process_one-priority :
    (m out : RouteMsg) (pri : ℕ)
    → process_one m ≡ some (out, pri)
    → ((pri ≡ route_connected) × (m.rtm_protocol ≡ rtprot_kernel))
      ⊎ ((pri ≡ route_other) × (m.rtm_protocol ≢ rtprot_kernel))
unfolding process_one
process_one-priority m out pri e = ground arith

-- A message that was published would be published again as it is.
process_one-idempotent :
    (m out : RouteMsg) (pri : ℕ)
    → process_one m ≡ some (out, pri)
    → process_one out ≡ some (out, pri)
unfolding process_one
process_one-idempotent m out pri e = ground arith

-- A route of a dump is published as the kernel's notification of the same route would be, but
-- for the mark of replacing, at the highest priority.
pub dump_route-process_one :
    (m out : RouteMsg) (pri : ℕ)
    → dump_route m ≡ some (out, pri)
    → (process_one m ≡ some (record out { is_replace = true }, pri)) × (pri ≡ route_connected)
unfolding dump_route process_one
dump_route-process_one m out pri e = (ground arith, ground arith)
