-- ===== src/Bytes.antt =====
-- Byte strings and the big-endian words of Go's encoding/binary, as the carrier code uses them.
-- A byte string is a list of numbers; `IsBytes` says that each fits a byte.
use wg_frag_go.Common.{
  ℕ, zero, suc, ◌+◌, ◌*◌, ◌/◌, ◌%◌, ◌≤◌, ◌<◌, ◌≡◌, refl, ap, sym, ◌∙◌, List, [], ◌∷◌, ◌++◌, arith,
  length, get_or, take, drop,
}

abbrev pub IsBytes : List ℕ → Type 0
IsBytes [] = Unit {0}
IsBytes (b ∷ bs) = (b < 256) × IsBytes bs

-- `binary.BigEndian.PutUint16`: the two bytes that it writes.
abbrev pub put_uint16 : ℕ → List ℕ
put_uint16 v = (v / 256 % 256) ∷ (v % 256) ∷ []

-- `binary.BigEndian.PutUint32`: the four bytes that it writes.
abbrev pub put_uint32 : ℕ → List ℕ
put_uint32 v = (v / 16777216 % 256) ∷ (v / 65536 % 256) ∷ (v / 256 % 256) ∷ (v % 256) ∷ []

-- `binary.BigEndian.Uint16(src[at:at+2])`; the callers check the length first.
abbrev pub uint16_at : List ℕ → ℕ → ℕ
uint16_at src at = get_or src at 0 * 256 + get_or src (suc at) 0

-- `binary.BigEndian.Uint32(src[at:at+4])`.
abbrev pub uint32_at : List ℕ → ℕ → ℕ
uint32_at src at =
    get_or src at 0 * 16777216
    + get_or src (suc at) 0 * 65536
    + get_or src (suc (suc at)) 0 * 256
    + get_or src (suc (suc (suc at))) 0

pub get_or-lt-256 : (bs : List ℕ) (i : ℕ) → IsBytes bs → get_or bs i 0 < 256
get_or-lt-256 [] i h = omega arith
get_or-lt-256 (b ∷ bs) zero h = h.0
get_or-lt-256 (b ∷ bs) (suc i) h = get_or-lt-256 bs i h.1

pub drop-IsBytes : (n : ℕ) (bs : List ℕ) → IsBytes bs → IsBytes (drop n bs)
drop-IsBytes zero bs h = h
drop-IsBytes (suc n) [] h = tt
drop-IsBytes (suc n) (b ∷ bs) h = drop-IsBytes n bs h.1

pub take-IsBytes : (n : ℕ) (bs : List ℕ) → IsBytes bs → IsBytes (take n bs)
take-IsBytes zero bs h = tt
take-IsBytes (suc n) [] h = tt
take-IsBytes (suc n) (b ∷ bs) h = (h.0, take-IsBytes n bs h.1)

pub append-IsBytes : (xs ys : List ℕ) → IsBytes xs → IsBytes ys → IsBytes (xs ++ ys)
append-IsBytes [] ys h k = k
append-IsBytes (x ∷ xs) ys h k = (h.0, append-IsBytes xs ys h.1 k)

-- The `n` elements from position `i` on, read one by one.
abbrev pub read_from : ℕ → ℕ → List ℕ → List ℕ
read_from zero i bs = []
read_from (suc n) i bs = get_or bs i 0 ∷ read_from n (suc i) bs

read_from-cons : (n i b : ℕ) (bs : List ℕ) → read_from n (suc i) (b ∷ bs) ≡ read_from n i bs
read_from-cons zero i b bs = refl
read_from-cons (suc n) i b bs = ap (◌∷◌ (get_or bs i 0)) (read_from-cons n (suc i) b bs)

pub take-eq-read_from : (n : ℕ) (bs : List ℕ) → n ≤ length bs → take n bs ≡ read_from n 0 bs
take-eq-read_from zero bs h = refl
take-eq-read_from (suc n) [] h = absurd (omega arith)
take-eq-read_from (suc n) (b ∷ bs) h =
    ap (◌∷◌ b) (take-eq-read_from n bs (omega arith) ∙ sym (read_from-cons n 0 b bs))

pub uint16_at-put_uint16 : (v : ℕ) → v < 65536 → v / 256 % 256 * 256 + v % 256 ≡ v
uint16_at-put_uint16 v h = omega arith

pub uint32_at-put_uint32 :
    (v : ℕ)
    → v < 4294967296
    → v / 16777216 % 256 * 16777216 + v / 65536 % 256 * 65536 + v / 256 % 256 * 256 + v % 256 ≡ v
uint32_at-put_uint32 v h = omega arith

module _ (a b : ℕ) (ha : a < 256) (hb : b < 256) where
  pub put_uint16-uint16_at : put_uint16 (a * 256 + b) ≡ a ∷ b ∷ []
  put_uint16-uint16_at = ground arith

pub put_uint32-uint32_at :
    (a b c d : ℕ)
    → a < 256
    → b < 256
    → c < 256
    → d < 256
    → put_uint32 (a * 16777216 + b * 65536 + c * 256 + d) ≡ a ∷ b ∷ c ∷ d ∷ []
put_uint32-uint32_at a b c d ha hb hc hd = ground arith
