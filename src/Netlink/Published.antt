-- ===== src/Netlink/Published.antt =====
-- `process_nlmsg` as a whole, and `broker_process_nl`: what is published of the messages that the walk
-- visits.
use vyatta_route_broker.Base.{
  ℕ, zero, suc, Option, arith, ◌+◌, ◌%◌, ◌^◌, ◌≤◌, ◌<◌, ◌≡◌, List, [], ◌∷◌, none, some, All, inl,
  inr, Option-cases,
}
use vyatta_route_broker.Daemon.{Got, message, closed, failed}
use vyatta_route_broker.Netlink.Rtnl.{RouteMsg, process_one}
use vyatta_route_broker.Netlink.Walk.{process_nlmsg, AllInside, process_nlmsg_inside}

-- `len_at` reads the length of the message at an offset, `msg_at` the message.
module _ (len_at : ℕ → ℕ) (msg_at : ℕ → RouteMsg) where
  publish_visited : List (ℕ × ℕ) → List (RouteMsg × ℕ)
  publish_visited [] = []
  publish_visited ((off, len) ∷ rest) =
      let more = publish_visited rest in
      elim (process_one (msg_at off)) [ none ↦ more | some out ↦ out ∷ more ]

  -- The calls of `route_broker_publish` for a buffer of `len` bytes, in order.
  pub process_buffer : ℕ → List (RouteMsg × ℕ)
  unfolding publish_visited
  process_buffer len = publish_visited (process_nlmsg len_at len).0

  -- The message that was published is made of one that lies in the buffer.
  abbrev pub ComesFrom : ℕ → RouteMsg × ℕ → Type 0
  ComesFrom size out = (off : ℕ) × (off + len_at off ≤ size) × (process_one (msg_at off) ≡ some out)

  visited_from :
      (size : ℕ) (l : List (ℕ × ℕ))
      → AllInside len_at size l
      → All (ComesFrom size) (publish_visited l)
  unfolding publish_visited
  visited_from size [] a = tt
  visited_from size ((off, len) ∷ rest) (i, a) = elim (Option-cases (process_one (msg_at off))) [
    | inl e ↦ rw (e, publish_visited) (visited_from size rest a)
    | inr (o, e) ↦ rw (e, publish_visited) ((off, i, e), visited_from size rest a)
  ]

  -- Of a buffer of a whole number of words, of less than 2 ^ 31 bytes, only such messages are
  -- published as lie in it, whatever lengths the headers claim.
  pub process_buffer-ComesFrom :
      (len : ℕ) → len % 4 ≡ 0 → len < 2 ^ 31 → All (ComesFrom len) (process_buffer len)
  unfolding process_buffer
  process_buffer-ComesFrom len m b = visited_from len _ (process_nlmsg_inside len_at len m b).0

  -- What is published of what `recv` gives on the kernel's socket, and the sign of what is returned;
  -- `none` is an error.
  unfoldable pub broker_process_nl : Option ℕ → List (RouteMsg × ℕ) × Got
  unfolding process_buffer
  broker_process_nl none = ([], failed)
  broker_process_nl (some zero) = ([], closed)
  broker_process_nl (some (suc n)) = (process_buffer (suc n), message)

  -- The size of the buffer, BUFSIZ of <stdio.h>.
  abbrev bufsiz : ℕ
  bufsiz = 8192

  -- The messages of the kernel that are published lie in what was received, which fits the buffer.
  broker_process_nl-ComesFrom :
      (n : ℕ) → n % 4 ≡ 0 → n ≤ bufsiz → All (ComesFrom n) (broker_process_nl (some n)).0
  unfolding broker_process_nl
  broker_process_nl-ComesFrom zero m b = tt
  broker_process_nl-ComesFrom (suc n) m b = process_buffer-ComesFrom (suc n) m (omega (arith, b))
