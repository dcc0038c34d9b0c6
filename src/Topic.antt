-- ===== src/Topic.antt =====
-- broker/topic.c: the topic of a route, as the bytes that `snprintf` writes.
pub mod Decimal
pub mod Bounds
pub mod Key
pub mod Refused
mod Tests
use vyatta_route_broker.Base.{
  ℕ, ◌+◌, ◌-◌, ◌*◌, ◌/◌, ◌%◌, ◌^◌, ◌≤◌, ◌<◌, ◌≡◌, Bool, true, false, ◌&&◌, ◌||◌, List, [], ◌∷◌,
  ◌++◌, Option, none, some, ◌==◌, leb, if◌then◌else◌, length, All,
}
use vyatta_route_broker.Topic.Decimal.{Bytes, codes, unsigned, signed}

-- An attribute of a netlink message, and the message as far as the topic reads it: the fields of
-- `struct nlmsghdr` and `struct rtmsg`, and what `mnl_attr_parse` walks over, `none` if it fails.
pub record Attr : Type 0 where
  pub nla_type : ℕ
  pub payload : Bytes

pub record TopicMsg : Type 0 where
  pub nlmsg_type : ℕ
  pub rtm_family : ℕ
  pub rtm_dst_len : ℕ
  pub rtm_src_len : ℕ
  pub rtm_table : ℕ
  pub rtm_scope : ℕ
  pub rtm_type : ℕ
  pub rtm_flags : ℕ
  pub attrs : Option (List Attr)

-- What is not of the repository: `inet_ntop` of a family (`none` is NULL) and the byte order, the
-- reading of an attribute as a number, the greatest type of the kernel's attributes, the type of
-- the attribute with the routing domain and the main domain (RTA_RTG_DOMAIN and VRF_ID_MAIN, if
-- RTNLGRP_RTDMN is defined), and whether RTNLGRP_MPLS_ROUTE is defined.
pub record Platform : Type 0 where
  pub inet_ntop : ℕ → Bytes → Option Bytes
  pub ntohl : ℕ → ℕ
  pub mnl_attr_get_u32 : Bytes → ℕ
  pub rta_max : ℕ
  pub rtg_domain : Option (ℕ × ℕ)
  pub mpls_route : Bool

-- What a topic function returns: -1, the text that is written, or nothing that is defined, for a
-- NULL that is printed as a text.
pub data Topic : Type 0 where
  refused : Topic
  written : Bytes → Topic
  undefined : Topic

-- `tb`, indexed by the type.
abbrev AttrTable : Type 0
AttrTable = ℕ → Option Bytes

-- INADDR_ANY or in6addr_any
abbrev pub anyaddr : Bytes
anyaddr = 0 ∷ 0 ∷ 0 ∷ 0 ∷ 0 ∷ 0 ∷ 0 ∷ 0 ∷ 0 ∷ 0 ∷ 0 ∷ 0 ∷ 0 ∷ 0 ∷ 0 ∷ 0 ∷ []

abbrev pub payload_or : Bytes → Option Bytes → Bytes
payload_or other none = other
payload_or other (some p) = p

-- ` %u`
abbrev pub spaced : ℕ → Bytes → Bytes
spaced n rest = b' ' ∷ (unsigned n ++ rest)

-- `%s/%u`
abbrev pub network : Bytes → ℕ → Bytes → Bytes
network addr len rest = addr ++ (b'/' ∷ (unsigned len ++ rest))

abbrev pub domain : Option ℕ → Bytes → Bytes
domain none rest = rest
domain (some rd_id) rest = spaced rd_id rest

-- What tells the routes that are not of multicast apart.
pub record RouteKey : Type 0 where
  pub dest : Bytes
  pub dst_len : ℕ
  pub scope : ℕ
  pub tableid : ℕ
  pub rd_id : Option ℕ

unfoldable pub route_text : RouteKey → Bytes
route_text k =
    b'r' ∷ (b' ' ∷ network k.dest k.dst_len (spaced k.scope (spaced k.tableid (domain k.rd_id []))))

unfoldable pub mroute_text : ℕ → ℕ → Bytes → ℕ → Bytes → ℕ → Option ℕ → ℕ → Bytes
mroute_text ifindex oifindex group dst_len origin src_len rd_id tableid =
    codes "route "
    ++ (signed ifindex
        ++ (b' '
            ∷ (signed oifindex
                ++ (b' '
                    ∷ network group dst_len
                        (b' ' ∷ network origin src_len (domain rd_id (spaced tableid [])))))))

-- RTM_F_CLONED
abbrev pub is_cloned : TopicMsg → Bool
is_cloned m = (m.rtm_flags / 2 ^ 9) % 2 == 1

module _ (P : Platform) where
  -- The callback of `mnl_attr_parse`.
  unfoldable pub route_attr : AttrTable → Attr → AttrTable
  route_attr tb attr =
      if leb attr.nla_type P.rta_max
      then (λ t. if attr.nla_type == t then some attr.payload else tb t)
      else tb

  unfoldable pub attr_table : List Attr → AttrTable → AttrTable
  unfolding route_attr
  attr_table [] tb = tb
  attr_table (a ∷ l) tb = attr_table l (route_attr tb a)

  abbrev pub u32_or : ℕ → Option Bytes → ℕ
  u32_or other none = other
  u32_or other (some p) = P.mnl_attr_get_u32 p

  -- RTA_DST, RTA_SRC, RTA_IIF, RTA_OIF, RTA_TABLE
  abbrev pub table_id : TopicMsg → AttrTable → ℕ
  table_id m tb = u32_or m.rtm_table (tb 15)

  -- RTNL_FAMILY_IPMR with AF_INET, RTNL_FAMILY_IP6MR with AF_INET6
  unfoldable pub mroute_ntop : ℕ → Bytes → Option Bytes
  mroute_ntop af src =
      if af == 128 then P.inet_ntop 2 src else if af == 129 then P.inet_ntop 10 src else none

  abbrev pub rd_id_of : AttrTable → Option ℕ
  rd_id_of tb = elim P.rtg_domain [
    | none ↦ none
    | some (type, vrf_id_main) ↦ some (u32_or vrf_id_main (tb type))
  ]

  unfoldable pub mroute_topic : TopicMsg → Topic
  unfolding mroute_ntop attr_table mroute_text
  mroute_topic m =
      if m.rtm_table == 255
      then refused
      else elim m.attrs [ none ↦ refused | some l ↦ text (attr_table l (λ _. none)) ]
    where
      text : AttrTable → Topic
      text tb = elim (mroute_ntop m.rtm_family (payload_or anyaddr (tb 1))) [
        | none ↦ undefined
        | some group ↦ elim (mroute_ntop m.rtm_family (payload_or anyaddr (tb 2))) [
          | none ↦ undefined
          | some origin ↦ written (
              mroute_text (u32_or 0 (tb 3)) (u32_or 0 (tb 4)) group m.rtm_dst_len origin
                m.rtm_src_len (rd_id_of tb) (table_id m tb))
        ]
      ]

  -- The label of an entry of the label stack.
  unfoldable pub mpls_ls_get_label : ℕ → ℕ
  mpls_ls_get_label ls = (P.ntohl ls % 2 ^ 32) / 2 ^ 12

  unfoldable pub mplsroute_topic : TopicMsg → Topic
  unfolding attr_table mpls_ls_get_label
  mplsroute_topic m = elim m.attrs [
    | none ↦ refused
    | some l ↦ elim (attr_table l (λ _. none) 1) [
      | none ↦ refused
      | some label ↦
          written (codes "route-mpls " ++ unsigned (mpls_ls_get_label (P.mnl_attr_get_u32 label)))
    ]
  ]

  -- Neither of MPLS nor of multicast.
  unfoldable pub unicast_topic : TopicMsg → Topic
  unfolding attr_table route_text
  unicast_topic m = elim m.attrs [ none ↦ refused | some l ↦ text (attr_table l (λ _. none)) ]
    where
      text : AttrTable → Topic
      text tb = elim (P.inet_ntop m.rtm_family (payload_or anyaddr (tb 1))) [
        | none ↦ undefined
        | some dest ↦ written (
            route_text (record {
              dest = dest;
              dst_len = m.rtm_dst_len;
              scope = m.rtm_scope;
              tableid = table_id m tb;
              rd_id = rd_id_of tb;
            }))
      ]

  -- Behind the test of the message's type; AF_MPLS, RTN_MULTICAST, RTN_BROADCAST.
  unfoldable pub topic_of_family : TopicMsg → Topic
  unfolding mplsroute_topic mroute_topic unicast_topic
  topic_of_family m =
      if P.mpls_route && m.rtm_family == 28
      then mplsroute_topic m
      else if m.rtm_type == 5
      then mroute_topic m
      else if m.rtm_type == 3 || is_cloned m
      then refused
      else unicast_topic m

  -- With the flag `del`. RTM_NEWROUTE, RTM_DELROUTE.
  unfoldable pub route_topic : TopicMsg → Topic × Bool
  unfolding topic_of_family
  route_topic m =
      if m.nlmsg_type == 24
      then (topic_of_family m, false)
      else if m.nlmsg_type == 25
      then (topic_of_family m, true)
      else (refused, false)
