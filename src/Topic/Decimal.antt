-- ===== src/Topic/Decimal.antt =====
-- The decimal text that the conversions %u and %d of `snprintf` write, and its reading.
use Prim.Native.Char.{code}
use vyatta_route_broker.Base.{
  ℕ, zero, suc, ◌+◌, ◌-◌, ◌*◌, ◌/◌, ◌%◌, ◌^◌, ◌≤◌, ◌<◌, ◌≡◌, ◌∙◌, refl, ap, Bool, false, ◌&&◌, List,
  [], ◌∷◌, ◌++◌, arith, String, ltb, leb, if◌then◌else◌, length,
}

abbrev pub Bytes : Type 0
Bytes = List ℕ

-- The bytes of an ASCII text.
abbrev pub codes : String → Bytes
codes String.[] = []
codes (String.◌∷◌ c s) = code c ∷ codes s

-- At most `k` digits, from the last to the first, in front of `out`.
unfoldable pub digits : ℕ → ℕ → Bytes → Bytes
digits zero n out = out
digits (suc k) n out =
    let rest = digits k (n / 10) ((b'0' + n % 10) ∷ out) in
    if ltb n 10 then (b'0' + n) ∷ out else rest

-- %u; a number below 2 ^ 32 has at most ten digits.
unfoldable pub unsigned : ℕ → Bytes
unfolding digits
unsigned n = digits 10 n []

-- %d, of the 32 bits of an int.
unfoldable pub signed : ℕ → Bytes
unfolding unsigned
signed n = if ltb n (2 ^ 31) then unsigned n else b'-' ∷ unsigned (2 ^ 32 - n)

abbrev pub is_digit : ℕ → Bool
is_digit c = leb b'0' c && leb c b'9'

-- Reads digits as long as there are any, behind the number `n`.
pub read_number : Bytes → ℕ → ℕ × Bytes
read_number [] n = (n, [])
read_number (c ∷ s) n =
    let rest = read_number s (n * 10 + (c - b'0')) in if is_digit c then rest else (n, c ∷ s)

digits-append : (k n : ℕ) (out rest : Bytes) → digits k n out ++ rest ≡ digits k n (out ++ rest)
unfolding digits
digits-append zero n out rest = refl
digits-append (suc k) n out rest =
    ground (arith, digits-append k (n / 10) ((b'0' + n % 10) ∷ out) rest)

read-digits :
    (k n : ℕ) (out : Bytes) → n < 10 ^ k → read_number (digits k n out) 0 ≡ read_number out n
unfolding digits read_number
read-digits zero n out h = ap (read_number out) (omega arith)
read-digits (suc k) n out h = ground (arith, read-digits k (n / 10) ((b'0' + n % 10) ∷ out))

-- What follows a printed number is no digit.
abbrev pub EndsNumber : Bytes → Type 0
EndsNumber [] = Unit {0}
EndsNumber (c ∷ s) = is_digit c ≡ false

read_end : (s : Bytes) (n : ℕ) → EndsNumber s → read_number s n ≡ (n, s)
unfolding read_number
read_end [] n h = refl
read_end (c ∷ s) n h = rw h refl

-- A number below 2 ^ 32 that is printed is read back, and the rest is what follows it.
pub read-unsigned :
    (n : ℕ) (s : Bytes) → n < 2 ^ 32 → EndsNumber s → read_number (unsigned n ++ s) 0 ≡ (n, s)
unfolding unsigned
read-unsigned n s h e =
    ap (λ x. read_number x 0) (digits-append 10 n [] s)
    ∙ read-digits 10 n s (omega arith)
    ∙ read_end s n e

pub length-digits : (k n : ℕ) (out : Bytes) → length (digits k n out) ≤ k + length out
unfolding digits
length-digits zero n out = omega arith
length-digits (suc k) n out = ground (arith, length-digits k (n / 10) ((b'0' + n % 10) ∷ out))

digits_one : (k n : ℕ) (out : Bytes) → n < 10 → length (digits (suc k) n out) ≤ 1 + length out
unfolding digits
digits_one k n out h = ground arith

digits_two :
    (k n : ℕ) (out : Bytes) → n < 100 → length (digits (suc (suc k)) n out) ≤ 2 + length out
unfolding digits
digits_two k n out h = ground (arith, digits_one k (n / 10) ((b'0' + n % 10) ∷ out))

digits_three :
    (k n : ℕ) (out : Bytes) → n < 1000 → length (digits (suc (suc (suc k))) n out) ≤ 3 + length out
unfolding digits
digits_three k n out h = ground (arith, digits_two k (n / 10) ((b'0' + n % 10) ∷ out))

pub length-unsigned : (n : ℕ) → length (unsigned n) ≤ 10
unfolding unsigned
length-unsigned n = length-digits 10 n []

-- A byte is printed with at most three digits.
pub length-unsigned_byte : (n : ℕ) → n < 256 → length (unsigned n) ≤ 3
unfolding unsigned
length-unsigned_byte n h = digits_three 7 n [] (omega arith)

pub length-signed : (n : ℕ) → length (signed n) ≤ 11
unfolding signed
length-signed n = ground (arith, length-unsigned n, length-unsigned (2 ^ 32 - n))

unsigned_max : unsigned (2 ^ 32 - 1) ≡ codes "4294967295"
unfolding unsigned
unsigned_max = refl

signed_negative : signed (2 ^ 32 - 7) ≡ codes "-7"
unfolding signed
signed_negative = refl
