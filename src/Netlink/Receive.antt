-- ===== src/Netlink/Receive.antt =====
-- `broker_process_fpm`: one message of the stream is read, in as many pieces as the socket gives.
use vyatta_route_broker.Base.{
  ℕ, ◌+◌, ◌≡◌, ◌∙◌, refl, ap, sym, true, not, List, [], ◌∷◌, ◌++◌, Option, none, some, arith, ◌==◌,
  ltb, if◌then◌else◌, length, length-append, drop, append_inj, drop-append_self,
}
use vyatta_route_broker.Fpm.{
  FpmMsgHdr, IsHdr, fpm_msg_hdr_ok, fpm_msg_len, fpm_msg_hdr_len, fpm_msg_type_netlink,
  fpm_max_msg_len, hdr_ok-data_len, data_len-sized,
}
use vyatta_route_broker.Netlink.Walk.{process_nlmsg, AllInside, process_nlmsg_inside}
use vyatta_route_broker.Netlink.Stream.{
  Stream, Reading, read_upto, bytes, IsOpen, read_upto-ReadAll, full, ended, broken, stalled,
}

-- BROKER_FPM_VERSION
abbrev pub broker_fpm_version : ℕ
broker_fpm_version = 1

-- The header in the first four bytes.
unfoldable pub header : List ℕ → FpmMsgHdr
header (v ∷ t ∷ h ∷ l ∷ rest) = record {
  version = v;
  msg_type = t;
  msg_len_high = h;
  msg_len_low = l;
}
header _ = record { version = 0; msg_type = 0; msg_len_high = 0; msg_len_low = 0 }

pub data Outcome : Type 0 where
  processed : List ℕ → Stream → Outcome
  corrupt unknown_version unexpected_type too_big eof recv_failed waiting : Outcome

-- The checks of the header, in the order of the code; `none` if all pass.
unfoldable pub check_header : FpmMsgHdr → Option Outcome
check_header h =
    if not (fpm_msg_hdr_ok h)
    then some corrupt
    else if not (h.version == broker_fpm_version)
    then some unknown_version
    else if not (h.msg_type == fpm_msg_type_netlink)
    then some unexpected_type
    else if ltb fpm_max_msg_len (fpm_msg_len h)
    then some too_big
    else none

finish : Reading → Outcome
finish (full buf s) = processed (drop fpm_msg_hdr_len buf) s
finish ended = eof
finish broken = recv_failed
finish stalled = waiting

read_rest : Reading → Outcome
unfolding header check_header finish
read_rest (full buf s) = elim (check_header (header buf)) [
  | none ↦ finish (read_upto (fpm_msg_len (header buf)) (fpm_msg_len (header buf)) buf s)
  | some o ↦ o
]
read_rest ended = eof
read_rest broken = recv_failed
read_rest stalled = waiting

-- One message is read and its payload handed to `process_nlmsg`; otherwise the cause of the end.
pub broker_process_fpm : Stream → Outcome
unfolding read_rest
broker_process_fpm s = read_rest (read_upto fpm_msg_hdr_len fpm_msg_hdr_len [] s)

-- A frame of the protocol: a header that passes the checks, and its payload.
pub record IsFrame (hdr payload : List ℕ) : Type 0 where
  pub four : length hdr ≡ fpm_msg_hdr_len
  pub checked : check_header (header hdr) ≡ none
  pub sized : fpm_msg_len (header hdr) ≡ fpm_msg_hdr_len + length payload

read_rest_checked :
    (hdr : List ℕ) (s : Stream)
    → check_header (header hdr) ≡ none
    → read_rest (full hdr s)
      ≡ finish (read_upto (fpm_msg_len (header hdr)) (fpm_msg_len (header hdr)) hdr s)
unfolding read_rest
read_rest_checked hdr s e = rw (e, read_rest) refl

finish_frame :
    (hdr payload : List ℕ) (s : Stream)
    → length hdr ≡ fpm_msg_hdr_len
    → finish (full (hdr ++ payload) s) ≡ processed payload s
unfolding finish
finish_frame hdr payload s e =
    ap (λ l. processed l s)
      (ap (λ n. drop n (hdr ++ payload)) (sym e) ∙ drop-append_self hdr payload)

-- However the stream is cut into pieces, a frame at its front is read whole and nothing more: its
-- payload is processed, and the stream goes on behind it.
pub process_fpm-frame :
    (hdr payload more : List ℕ) (s : Stream)
    → IsOpen s
    → bytes s ≡ hdr ++ (payload ++ more)
    → IsFrame hdr payload
    → (left : Stream) × (broker_process_fpm s ≡ processed payload left)
      × (bytes left ≡ more)
      × IsOpen left
unfolding broker_process_fpm
process_fpm-frame hdr payload more s o e f =
    let total = ap length e ∙ length-append hdr (payload ++ more) in
    let r = read_upto-ReadAll 4 4 [] s o (omega arith) (omega arith) (omega (arith, f.four)) in
    let cut =
      append_inj r.piece hdr (bytes r.left) (payload ++ more) (sym r.split ∙ e)
        (omega (arith, r.size, f.four)) in
    let rest = ap length cut.1 ∙ length-append payload more in
    let q =
      read_upto-ReadAll (fpm_msg_len (header hdr)) (fpm_msg_len (header hdr)) hdr r.left
        r.still_open (omega (arith, f.four, f.sized)) (omega arith)
        (omega (arith, f.four, f.sized)) in
    let cut' =
      append_inj q.piece payload (bytes q.left) more (sym q.split ∙ cut.1)
        (omega (arith, q.size, f.sized, f.four)) in
    (
      q.left,
      ap read_rest (r.result ∙ ap (λ l. full l r.left) cut.0)
          ∙ read_rest_checked hdr r.left f.checked
          ∙ ap finish (q.result ∙ ap (λ l. full (hdr ++ l) q.left) cut'.0)
          ∙ finish_frame hdr payload q.left f.four,
      cut'.1,
      q.still_open,
    )

checked_facts :
    (h : FpmMsgHdr)
    → check_header h ≡ none
    → (fpm_msg_hdr_ok h ≡ true) × (h.msg_type ≡ fpm_msg_type_netlink)
unfolding check_header
checked_facts h e = (ground arith, ground arith)

-- The walk over the payload of a frame ends, and visits only messages that lie in the payload.
pub process_fpm_inside :
    (len_at : ℕ → ℕ) (hdr payload : List ℕ)
    → IsHdr (header hdr)
    → IsFrame hdr payload
    → AllInside len_at (length payload) (process_nlmsg len_at (length payload)).0
      × ((process_nlmsg len_at (length payload)).1 ≡ true)
process_fpm_inside len_at hdr payload v f =
    let facts = checked_facts (header hdr) f.checked in
    let lens = hdr_ok-data_len (header hdr) v facts.0 facts.1 in
    let same = data_len-sized (header hdr) (length payload) v f.sized in
    process_nlmsg_inside len_at (length payload) (omega arith) (omega arith)
