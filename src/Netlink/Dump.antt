-- ===== src/Netlink/Dump.antt =====
-- `dump_af_routes` and `broker_dump_routes`: the kernel's routes that are there when the daemon starts.
use mathlib.Core.List.{append-nil}
use vyatta_route_broker.Base.{
  ℕ, ◌∙◌, sym, arith, filter, ◌==◌, ◌&&◌, leb, Bool-cases, map, ◌≡◌, refl, ap, inl, inr, Bool, true,
  false, List, [], ◌∷◌, ◌++◌, Option, none, some, All, if◌then◌else◌, Option-cases,
}
use vyatta_route_broker.Netlink.Rtnl.{
  RouteMsg, dump_route, process_rtnl, rtm_newroute, rtmsg_length, rtprot_kernel,
}

-- How a part of the dump stands: it waits for the kernel, it is over, or the process has exited.
pub data Dump : Type 0 where
  receives over exits : Dump

-- A route of the kernel, in a message that is long enough for it.
abbrev pub is_kernel_route : RouteMsg → Bool
is_kernel_route m =
    m.nlmsg_type == rtm_newroute && leb rtmsg_length m.nlmsg_len && m.rtm_protocol == rtprot_kernel

-- With the main table if it names none, and the universe for an IPv4 route in the link scope, at the
-- highest priority.
abbrev pub announced : RouteMsg → RouteMsg × ℕ
announced m = (
  record m {
    rtm_table = if m.rtm_table == 0 then 254 else m.rtm_table;
    rtm_scope = if m.rtm_family == 2 && m.rtm_scope == 253 then 0 else m.rtm_scope;
  },
  0,
)

dump_route-announced :
    (m : RouteMsg) → dump_route m ≡ (if is_kernel_route m then some (announced m) else none)
unfolding dump_route process_rtnl
dump_route-announced m = ground arith

-- `D` is a datagram. libmnl's `mnl_cb_run` calls `dump_route` for each of its `messages`, and returns
-- more than MNL_CB_STOP if the dump `continues`.
module _ {D : Type 0} (messages : D → List RouteMsg) (continues : D → Bool) where
  -- The calls of `route_broker_publish`, how it stands, and the datagrams that are left.
  pub record Dumped : Type 0 where
    pub published : List (RouteMsg × ℕ)
    pub state : Dump
    pub left : List (Option D)

  unfoldable pub dump_messages : List RouteMsg → List (RouteMsg × ℕ)
  dump_messages [] = []
  dump_messages (m ∷ ms) =
      let more = dump_messages ms in elim (dump_route m) [ none ↦ more | some out ↦ out ∷ more ]

  -- What `mnl_socket_recvfrom` gives, one call after the other; `none` is an error.
  unfoldable pub receive_dump : List (Option D) → Dumped
  unfolding dump_messages
  receive_dump [] = record { published = []; state = receives; left = [] }
  receive_dump (none ∷ ds) = record { published = []; state = exits; left = ds }
  receive_dump (some d ∷ ds) =
      let rest = receive_dump ds in
      if continues d
      then record rest { published = dump_messages (messages d) ++ rest.published }
      else record { published = dump_messages (messages d); state = over; left = ds }

  -- `sent` is whether the request for a family is sent.
  unfoldable pub dump_af_routes : Bool → List (Option D) → Dumped
  unfolding receive_dump
  dump_af_routes sent ds =
      if sent then receive_dump ds else record { published = []; state = exits; left = ds }

  -- The second family behind the first, if that is over.
  unfoldable pub both_families : Dumped → (List (Option D) → Dumped) → Dumped
  both_families first second = elim first.state [
    | receives ↦ first
    | exits ↦ first
    | over ↦ let r = second first.left in record r { published = first.published ++ r.published }
  ]

  unfoldable pub broker_dump_routes : Bool → Bool → Bool → List (Option D) → Dumped
  unfolding dump_af_routes both_families
  broker_dump_routes opened sent4 sent6 ds =
      if opened
      then both_families (dump_af_routes sent4 ds) (dump_af_routes sent6)
      else record { published = []; state = exits; left = ds }

  dump_messages-announced :
      (ms : List RouteMsg) → dump_messages ms ≡ map announced (filter is_kernel_route ms)
  unfolding dump_messages
  dump_messages-announced [] = refl
  dump_messages-announced (m ∷ ms) = elim (Bool-cases (is_kernel_route m)) [
    | inl e ↦
        let k : dump_route m ≡ some (announced m) = dump_route-announced m ∙ rw e refl in
        rw (dump_messages, k, e) (ap (◌∷◌ (announced m)) (dump_messages-announced ms))
    | inr e ↦
        let k : dump_route m ≡ none = dump_route-announced m ∙ rw e refl in
        rw (dump_messages, k, e) (dump_messages-announced ms)
  ]

  dump_messages-append :
      (xs ys : List RouteMsg) → dump_messages (xs ++ ys) ≡ dump_messages xs ++ dump_messages ys
  unfolding dump_messages
  dump_messages-append [] ys = refl
  dump_messages-append (x ∷ xs) ys = elim (Option-cases (dump_route x)) [
    | inl e ↦ rw (dump_messages, e) (dump_messages-append xs ys)
    | inr (o, e) ↦ rw (dump_messages, e) (ap (◌∷◌ o) (dump_messages-append xs ys))
  ]

  abbrev pub all_messages : List D → List RouteMsg
  all_messages [] = []
  all_messages (d ∷ ds) = messages d ++ all_messages ds

  -- The datagrams of a dump, and the one that ends it.
  abbrev pub IsDump : List D → D → Type 0
  IsDump ds last = All (λ d. continues d ≡ true) ds × (continues last ≡ false)

  abbrev datagrams : List D → D → List (Option D) → List (Option D)
  datagrams ds last tail = map some ds ++ (some last ∷ tail)

  receive_dump-all :
      (ds : List D) (last : D) (tail : List (Option D))
      → IsDump ds last
      → receive_dump (datagrams ds last tail) ≡ record {
        published = dump_messages (all_messages (ds ++ (last ∷ [])));
        state = over;
        left = tail;
      }
  unfolding receive_dump
  receive_dump-all [] last tail (a, e) = rw (e, append-nil (messages last)) refl
  receive_dump-all (d ∷ ds) last tail ((h, a), e) =
      rw
        (
          h,
          receive_dump-all ds last tail (a, e),
          dump_messages-append (messages d) (all_messages (ds ++ (last ∷ []))),
        )
        refl

  -- If the socket is opened and both requests are sent, and the kernel answers with a dump of IPv4
  -- and one of IPv6, then the dump is over behind the last datagram of the second. Of all messages of
  -- both, the routes of the kernel are published, in order and no others: in the main table if they
  -- name none, in the scope of the universe if they are of IPv4 in the link scope, not marked as
  -- replacing unless they came so, and otherwise as they came, at the highest priority.
  pub broker_dump_routes-all :
      (ds₄ : List D) (last₄ : D) (ds₆ : List D) (last₆ : D) (tail : List (Option D))
      → IsDump ds₄ last₄
      → IsDump ds₆ last₆
      → broker_dump_routes true true true
          (map some ds₄ ++ (some last₄ ∷ (map some ds₆ ++ (some last₆ ∷ tail))))
        ≡ record {
          published = map announced (
              filter is_kernel_route
                (all_messages (ds₄ ++ (last₄ ∷ [])) ++ all_messages (ds₆ ++ (last₆ ∷ []))));
          state = over;
          left = tail;
        }
  unfolding broker_dump_routes dump_af_routes both_families
  broker_dump_routes-all ds₄ last₄ ds₆ last₆ tail d₄ d₆ =
      let first_part = all_messages (ds₄ ++ (last₄ ∷ [])) in
      let second_part = all_messages (ds₆ ++ (last₆ ∷ [])) in
      rw
        (
          receive_dump-all ds₄ last₄ (datagrams ds₆ last₆ tail) d₄,
          receive_dump-all ds₆ last₆ tail d₆,
          sym (dump_messages-announced (first_part ++ second_part)),
          dump_messages-append first_part second_part,
        )
        refl
