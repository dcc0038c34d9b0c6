-- ===== src/Netlink/Walk.antt =====
-- `process_nlmsg`: the walk over the netlink messages of a buffer, by NLMSG_OK and NLMSG_NEXT of
-- <linux/netlink.h> with the length as a `size_t`.
use vyatta_route_broker.Base.{
  ℕ, zero, suc, ◌+◌, ◌-◌, ◌*◌, ◌/◌, ◌%◌, ◌^◌, ◌≤◌, ◌<◌, ◌≡◌, ◌≢◌, refl, inl, inr, Bool, true, false,
  ◌&&◌, List, [], ◌∷◌, arith, leb, if◌then◌else◌, Bool-cases, All,
}
use vyatta_route_broker.Fpm.{size_t}

-- NLMSG_ALIGN, of a length of 32 bits.
abbrev pub nlmsg_align : ℕ → ℕ
nlmsg_align len = (len + 3) % 2 ^ 32 / 4 * 4

-- sizeof(struct nlmsghdr)
abbrev pub nlmsg_hdrlen : ℕ
nlmsg_hdrlen = 16

-- `len_at` reads the field `nlmsg_len` of the header at an offset.
module _ (len_at : ℕ → ℕ) where
  abbrev pub nlmsg_ok : ℕ → ℕ → Bool
  nlmsg_ok off len = leb nlmsg_hdrlen len && leb nlmsg_hdrlen (len_at off) && leb (len_at off) len

  -- The loop on fuel: the offset and the length left at each message that it visits, and whether
  -- it came to its end.
  pub nlmsg_loop : ℕ → ℕ → ℕ → List (ℕ × ℕ) × Bool
  nlmsg_loop zero off len = ([], false)
  nlmsg_loop (suc fuel) off len =
      let step = nlmsg_align (len_at off) in
      let rest = nlmsg_loop fuel (off + step) (size_t (len + 2 ^ 64 - step)) in
      if nlmsg_ok off len then ((off, len) ∷ rest.0, rest.1) else ([], true)

  -- A message that lies in a buffer.
  abbrev pub Inside : ℕ → ℕ × ℕ → Type 0
  Inside size (off, len) = off + len_at off ≤ size

  abbrev pub AllInside : ℕ → List (ℕ × ℕ) → Type 0
  AllInside size = All (Inside size)

  nlmsg_loop_inside :
      (fuel off len size : ℕ)
      → len % 4 ≡ 0
      → len < 2 ^ 31
      → off + len ≤ size
      → len < fuel * 16
      → AllInside size (nlmsg_loop fuel off len).0 × ((nlmsg_loop fuel off len).1 ≡ true)
  unfolding nlmsg_loop
  nlmsg_loop_inside zero off len size m b s f = absurd (omega arith)
  nlmsg_loop_inside (suc fuel) off len size m b s f = elim (Bool-cases (nlmsg_ok off len)) [
    | inl e ↦
        let step = nlmsg_align (len_at off) in
        let lo : 16 ≤ len_at off = ground arith in
        let hi : len_at off ≤ len = ground arith in
        let left : size_t (len + 2 ^ 64 - step) ≡ len - step = omega arith in
        let ih =
          nlmsg_loop_inside fuel (off + step) (len - step) size (omega arith) (omega arith)
            (omega arith) (omega arith) in
        rw (e, left) ((omega arith, ih.0), ih.1)
    | inr e ↦ rw e (tt, refl)
  ]

  -- `process_nlmsg` for a buffer of `len` bytes: with one round for each 16 bytes and one more.
  pub process_nlmsg : ℕ → List (ℕ × ℕ) × Bool
  unfolding nlmsg_loop
  process_nlmsg len = nlmsg_loop (len / 16 + 1) 0 len

  -- On a buffer of a whole number of words, of less than 2 ^ 31 bytes, the walk ends and visits
  -- only messages that lie in it, whatever the headers claim.
  pub process_nlmsg_inside :
      (len : ℕ)
      → len % 4 ≡ 0
      → len < 2 ^ 31
      → AllInside len (process_nlmsg len).0 × ((process_nlmsg len).1 ≡ true)
  unfolding process_nlmsg
  process_nlmsg_inside len m b =
      nlmsg_loop_inside (len / 16 + 1) 0 len len m b (omega arith) (omega arith)

  -- On any other length, when a message ends with the buffer, the length that is left wraps
  -- around, and the walk goes on behind the end: the next header is read there.
  pub nlmsg_loop_overrun :
      (fuel off len : ℕ)
      → len < 2 ^ 31
      → len % 4 ≢ 0
      → nlmsg_hdrlen ≤ len
      → len_at off ≡ len
      → let left = size_t (len + 2 ^ 64 - nlmsg_align len) in
        (2 ^ 64 - 3 ≤ left)
        × ((nlmsg_loop (suc fuel) off len).0
            ≡ (off, len) ∷ (nlmsg_loop fuel (off + nlmsg_align len) left).0)
  unfolding nlmsg_loop
  nlmsg_loop_overrun fuel off len b m lo e = (omega arith, ground arith)
