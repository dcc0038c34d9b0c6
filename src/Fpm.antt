-- ===== src/Fpm.antt =====
-- daemon/fpm.h: the header of a message of the forwarding plane manager, and its checks.
use vyatta_route_broker.Base.{
  ℕ, ◌+◌, ◌-◌, ◌*◌, ◌%◌, ◌^◌, ◌≤◌, ◌<◌, ◌≡◌, Bool, true, false, ◌&&◌, ◌||◌, not, Option, none, some,
  arith, ◌==◌, ltb, if◌then◌else◌,
}

-- `fpm_msg_hdr_t`: a byte, a byte, and two bytes in network order.
pub record FpmMsgHdr : Type 0 where
  pub version : ℕ
  pub msg_type : ℕ
  pub msg_len_high : ℕ
  pub msg_len_low : ℕ

-- The fields are bytes.
pub record IsHdr (h : FpmMsgHdr) : Type 0 where
  pub version_byte : h.version < 256
  pub msg_type_byte : h.msg_type < 256
  pub high_byte : h.msg_len_high < 256
  pub low_byte : h.msg_len_low < 256

abbrev pub fpm_max_msg_len : ℕ
fpm_max_msg_len = 4096

abbrev pub fpm_msg_alignto : ℕ
fpm_msg_alignto = 4

abbrev pub fpm_msg_hdr_len : ℕ
fpm_msg_hdr_len = 4

-- FPM_MSG_TYPE_NONE and FPM_MSG_TYPE_NETLINK
abbrev pub fpm_msg_type_none : ℕ
fpm_msg_type_none = 0

abbrev pub fpm_msg_type_netlink : ℕ
fpm_msg_type_netlink = 1

abbrev pub size_t : ℕ → ℕ
size_t n = n % 2 ^ 64

-- The mask clears the two lowest bits.
unfoldable pub fpm_msg_align : ℕ → ℕ
fpm_msg_align len =
    size_t (len + fpm_msg_alignto - 1) - size_t (len + fpm_msg_alignto - 1) % fpm_msg_alignto

unfoldable pub fpm_data_len_to_msg_len : ℕ → ℕ
fpm_data_len_to_msg_len data_len = size_t (data_len + fpm_msg_hdr_len)

-- ntohs
unfoldable pub fpm_msg_len : FpmMsgHdr → ℕ
fpm_msg_len hdr = hdr.msg_len_high * 256 + hdr.msg_len_low

unfoldable pub fpm_msg_data_len : FpmMsgHdr → ℕ
unfolding fpm_msg_len
fpm_msg_data_len hdr = size_t (fpm_msg_len hdr + 2 ^ 64 - fpm_msg_hdr_len)

-- The offset of the next message and the length that is left; `none` is the failed assertion.
unfoldable pub fpm_msg_next : FpmMsgHdr → ℕ → Option (ℕ × ℕ)
unfolding fpm_msg_len
fpm_msg_next hdr len =
    if ltb len (fpm_msg_len hdr) then none else some (fpm_msg_len hdr, len - fpm_msg_len hdr)

unfoldable pub fpm_msg_hdr_ok : FpmMsgHdr → Bool
unfolding fpm_msg_len fpm_msg_align
fpm_msg_hdr_ok hdr =
    if hdr.msg_type == fpm_msg_type_none
    then false
    else if ltb (fpm_msg_len hdr) fpm_msg_hdr_len || ltb fpm_max_msg_len (fpm_msg_len hdr)
    then false
    else not (
        hdr.msg_type == fpm_msg_type_netlink
        && not (fpm_msg_align (fpm_msg_len hdr) == fpm_msg_len hdr))

unfoldable pub fpm_msg_ok : FpmMsgHdr → ℕ → Bool
unfolding fpm_msg_hdr_ok
fpm_msg_ok hdr len =
    if ltb len fpm_msg_hdr_len
    then false
    else if not (fpm_msg_hdr_ok hdr)
    then false
    else not (ltb len (fpm_msg_len hdr))

-- Rounding up a length below 2 ^ 64 - 3 gives the least multiple of 4 that is not below.
fpm_msg_align_bounds :
    (len : ℕ)
    → len < 2 ^ 64 - 3
    → (len ≤ fpm_msg_align len) × (fpm_msg_align len < len + 4) × (fpm_msg_align len % 4 ≡ 0)
unfolding fpm_msg_align
fpm_msg_align_bounds len h = (omega arith, omega arith, omega arith)

-- A netlink message that passes the header's check has a payload that fits the buffer with the
-- header and is a whole number of 4-byte words, and that is the length it was built with.
pub hdr_ok-data_len :
    (hdr : FpmMsgHdr)
    → IsHdr hdr
    → fpm_msg_hdr_ok hdr ≡ true
    → hdr.msg_type ≡ fpm_msg_type_netlink
    → (fpm_msg_data_len hdr + fpm_msg_hdr_len ≤ fpm_max_msg_len)
      × (fpm_msg_data_len hdr % 4 ≡ 0)
      × (fpm_data_len_to_msg_len (fpm_msg_data_len hdr) ≡ fpm_msg_len hdr)
unfolding fpm_msg_hdr_ok fpm_msg_data_len fpm_data_len_to_msg_len
hdr_ok-data_len hdr v ok t = (ground arith, ground arith, ground arith)

-- A message that is well formed in a buffer can be stepped over, and leaves the rest of the buffer.
fpm_msg_next-ok :
    (hdr : FpmMsgHdr) (len : ℕ)
    → fpm_msg_ok hdr len ≡ true
    → (fpm_msg_next hdr len ≡ some (fpm_msg_len hdr, len - fpm_msg_len hdr))
      × (fpm_msg_hdr_len ≤ fpm_msg_len hdr)
      × (fpm_msg_len hdr ≤ len)
unfolding fpm_msg_ok fpm_msg_next
fpm_msg_next-ok hdr len ok = (ground arith, ground arith, ground arith)

pub data_len-sized :
    (hdr : FpmMsgHdr) (n : ℕ)
    → IsHdr hdr
    → fpm_msg_len hdr ≡ fpm_msg_hdr_len + n
    → fpm_msg_data_len hdr ≡ n
unfolding fpm_msg_data_len
data_len-sized hdr n v e = ground arith
