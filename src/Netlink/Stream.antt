-- ===== src/Netlink/Stream.antt =====
-- The stream of a socket, and the loop of `broker_process_fpm` that reads a number of bytes from it.
use vyatta_route_broker.Base.{
  ℕ, zero, suc, ◌+◌, ◌-◌, ◌≤◌, ◌<◌, ◌≡◌, ◌∙◌, refl, ap, sym, inl, inr, true, false, List, [], ◌∷◌,
  ◌++◌, arith, ltb, if◌then◌else◌, Bool-cases, All, length, length-append, take, drop, is_empty,
  take-append-drop, length-take_of_lt, is_empty-drop,
}
use mathlib.Core.List.{append_assoc, append-nil}

-- What happens at the socket: a piece arrives, or `recv` fails.
pub data Arrival : Type 0 where
  arrives : List ℕ → Arrival
  fails : Arrival

-- What the socket holds, in the pieces in which it arrives. An empty piece is the end of the
-- stream; when no piece is left `recv` does not return.
abbrev pub Stream : Type 0
Stream = List Arrival

-- How `recv` ends: with bytes, with the end of the stream, with -1, or not at all.
pub data Recv : Type 0 where
  got : List ℕ → Stream → Recv
  closed : Recv
  failed : Recv
  blocked : Recv

-- `recv` gives at most `size` bytes of the first piece and leaves the rest of it.
pub recv : Stream → ℕ → Recv
recv [] size = blocked
recv (fails ∷ pieces) size = failed
recv (arrives [] ∷ pieces) size = closed
recv (arrives (x ∷ xs) ∷ pieces) size =
    if ltb size (length (x ∷ xs))
    then got (take size (x ∷ xs)) (arrives (drop size (x ∷ xs)) ∷ pieces)
    else got (x ∷ xs) pieces

pub data Reading : Type 0 where
  full : List ℕ → Stream → Reading
  ended : Reading
  broken : Reading
  stalled : Reading

-- for (; l < want; l += n) n = recv(fd, buf + l, want - l, 0), on fuel.
pub read_upto : ℕ → ℕ → List ℕ → Stream → Reading
unfolding recv
read_upto zero want buf s = if ltb (length buf) want then stalled else full buf s
read_upto (suc fuel) want buf s =
    let again = (λ (n : List ℕ) (s' : Stream). read_upto fuel want (buf ++ n) s') in
    if ltb (length buf) want
    then elim (recv s (want - length buf)) [
      | got n s' ↦ again n s'
      | closed ↦ ended
      | failed ↦ broken
      | blocked ↦ stalled
    ]
    else full buf s

-- All bytes of the stream.
abbrev pub bytes : Stream → List ℕ
bytes [] = []
bytes (arrives p ∷ ps) = p ++ bytes ps
bytes (fails ∷ ps) = bytes ps

abbrev pub Keeps : Arrival → Type 0
Keeps (arrives p) = is_empty p ≡ false
Keeps fails = ⊥

-- No piece is empty, and `recv` does not fail: the stream does not end.
abbrev pub IsOpen : Stream → Type 0
IsOpen = All Keeps

-- `recv` on an open stream takes at least one byte and at most as many as asked, from the front.
pub record Took (s : Stream) (size : ℕ) : Type 0 where
  pub piece : List ℕ
  pub left : Stream
  pub result : recv s size ≡ got piece left
  pub split : bytes s ≡ piece ++ bytes left
  pub some_byte : 0 < length piece
  pub fits : length piece ≤ size
  pub still_open : IsOpen left

recv-Took : (s : Stream) (size : ℕ) → IsOpen s → 0 < size → 0 < length (bytes s) → Took s size
unfolding recv
recv-Took [] size o z l = absurd (omega arith)
recv-Took (fails ∷ pieces) size o z l = absurd o.0
recv-Took (arrives [] ∷ pieces) size o z l = cc (o.0)
recv-Took (arrives (x ∷ xs) ∷ pieces) size o z l = elim (Bool-cases (ltb size (length (x ∷ xs)))) [
  | inl e ↦
      let lt : size < length (x ∷ xs) = ground arith in
      record {
        piece = take size (x ∷ xs);
        left = arrives (drop size (x ∷ xs)) ∷ pieces;
        result = rw e refl;
        split =
            ap (λ l. l ++ bytes pieces) (sym (take-append-drop size (x ∷ xs)))
            ∙ append_assoc (take size (x ∷ xs)) (drop size (x ∷ xs)) (bytes pieces);
        some_byte = omega (arith, length-take_of_lt size (x ∷ xs) lt);
        fits = omega (arith, length-take_of_lt size (x ∷ xs) lt);
        still_open = (is_empty-drop size (x ∷ xs) lt, o.1);
      }
  | inr e ↦ record {
    piece = x ∷ xs;
    left = pieces;
    result = rw e refl;
    split = refl;
    some_byte = omega arith;
    fits = ground arith;
    still_open = o.1;
  }
]

-- The loop ends with the wanted number of bytes, those at the front of the stream, in however
-- many pieces they come.
pub record ReadAll (fuel want : ℕ) (buf : List ℕ) (s : Stream) : Type 0 where
  pub piece : List ℕ
  pub left : Stream
  pub result : read_upto fuel want buf s ≡ full (buf ++ piece) left
  pub split : bytes s ≡ piece ++ bytes left
  pub size : length buf + length piece ≡ want
  pub still_open : IsOpen left

one_more :
    (fuel want : ℕ) (buf : List ℕ) (s : Stream)
    → ltb (length buf) want ≡ true
    → (t : Took s (want - length buf)) → ReadAll fuel want (buf ++ t.piece) t.left
    → ReadAll (suc fuel) want buf s
unfolding read_upto
one_more fuel want buf s e t r = record {
  piece = t.piece ++ r.piece;
  left = r.left;
  result =
      rw (e, t.result, read_upto)
        (r.result ∙ ap (λ l. full l r.left) (append_assoc buf t.piece r.piece));
  split = t.split ∙ ap (◌++◌ t.piece) r.split ∙ sym (append_assoc t.piece r.piece (bytes r.left));
  size = omega (arith, length-append t.piece r.piece, length-append buf t.piece, r.size);
  still_open = r.still_open;
}

pub read_upto-ReadAll :
    (fuel want : ℕ) (buf : List ℕ) (s : Stream)
    → IsOpen s
    → length buf ≤ want
    → want ≤ length buf + fuel
    → want ≤ length buf + length (bytes s)
    → ReadAll fuel want buf s
unfolding read_upto
read_upto-ReadAll zero want buf s o le f l = record {
  piece = [];
  left = s;
  result = ground (arith, append-nil buf);
  split = refl;
  size = omega arith;
  still_open = o;
}
read_upto-ReadAll (suc fuel) want buf s o le f l = elim (Bool-cases (ltb (length buf) want)) [
  | inl e ↦
      let lt : length buf < want = ground arith in
      let t = recv-Took s (want - length buf) o (omega arith) (omega arith) in
      let len = length-append buf t.piece in
      let rest = ap length t.split in
      let total = length-append t.piece (bytes t.left) in
      one_more fuel want buf s e t (
        read_upto-ReadAll fuel want (buf ++ t.piece) t.left t.still_open (omega (arith, t.fits))
          (omega (arith, t.some_byte)) (omega arith))
  | inr e ↦ record {
    piece = [];
    left = s;
    result = ground (arith, append-nil buf);
    split = refl;
    size = ground arith;
    still_open = o;
  }
]
