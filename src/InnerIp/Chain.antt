-- ===== src/InnerIp/Chain.antt =====
-- internal/core/innerip/fragment.go: the extension headers as a chain.
use wg_frag_go.Common.{
  ℕ, zero, suc, ◌+◌, ◌*◌, ◌≤◌, ◌≡◌, ◌≢◌, ◌⊎◌, inl, inr, Bool, true, false, ltb, ◌||◌, List, ok,
  ◌==◌, length, get_or, arith, ◌↔◌, Bool-cases, subst,
}
use wg_frag_go.Bytes.{uint16_at}
use wg_frag_go.InnerIp.{in_eights, extension_len, walk_extensions, ipv6_fragmented}

-- The extension headers of RFC 8200 and RFC 4302, by kind, length byte and size: Hop-by-Hop Options,
-- Routing and Destination Options, and the Authentication Header.
abbrev pub IsExtension : ℕ → ℕ → ℕ → Type 0
IsExtension kind byte size =
    ((kind ≡ 0) ⊎ (kind ≡ 43) ⊎ (kind ≡ 60)) × (size ≡ 8 + 8 * byte)
    ⊎ (kind ≡ 51) × (size ≡ 8 + 4 * byte)

-- Neither one of these nor a fragment header.
abbrev pub IsUpper : ℕ → Type 0
IsUpper kind = (kind ≢ 0) × (kind ≢ 43) × (kind ≢ 44) × (kind ≢ 51) × (kind ≢ 60)

-- From a header of kind `next` at `offset`, at most `rounds` headers on, all of them in the packet:
-- either a header that is no extension (`false`) or a fragment header (`true`).
pub data Leads (packet : List ℕ) : ℕ → ℕ → ℕ → Bool → Type 0 where
  upper : {rounds next offset : ℕ} → IsUpper next → Leads packet (suc rounds) next offset false
  fragment :
      {rounds next offset : ℕ}
      → next ≡ 44
      → offset + 8 ≤ length packet
      → Leads packet (suc rounds) next offset true
  extension :
      {rounds next offset : ℕ} {b : Bool} (size : ℕ)
      → IsExtension next (get_or packet (offset + 1) 0) size
      → offset + size ≤ length packet
      → Leads packet rounds (get_or packet offset 0) (offset + size) b
      → Leads packet (suc rounds) next offset b

-- The code's test and length agree with these.
extension_len-IsExtension :
    (next byte : ℕ)
    → (in_eights next || (next == 51)) ≡ true
    → IsExtension next byte (extension_len next byte)
extension_len-IsExtension next byte more = elim (Bool-cases (in_eights next)) [
  | inl eights ↦ inl (ground arith, ground arith)
  | inr fours ↦ inr (ground arith, ground arith)
]

IsExtension-extension_len :
    (next byte size : ℕ)
    → IsExtension next byte size
    → (next ≢ 44)
      × ((in_eights next || (next == 51)) ≡ true)
      × (size ≡ extension_len next byte)
      × (8 ≤ size)
IsExtension-extension_len next byte size (inl (inl e, h)) =
    (ground arith, ground arith, ground arith, omega arith)
IsExtension-extension_len next byte size (inl (inr (inl e), h)) =
    (ground arith, ground arith, ground arith, omega arith)
IsExtension-extension_len next byte size (inl (inr (inr e), h)) =
    (ground arith, ground arith, ground arith, omega arith)
IsExtension-extension_len next byte size (inr (e, h)) =
    (ground arith, ground arith, ground arith, omega arith)

walk-ok_Leads :
    (packet : List ℕ) (rounds next offset : ℕ) (b : Bool)
    → walk_extensions packet rounds next offset ≡ ok b
    → Leads packet rounds next offset b
unfolding walk_extensions
walk-ok_Leads packet zero next offset b e = absurd (ground arith)
walk-ok_Leads packet (suc rounds) next offset b e = elim (Bool-cases (next == 44)) [
  | inl is ↦
      subst (Leads packet (suc rounds) next offset) {x = true} {y = b} (ground arith)
        (fragment (ground arith) (ground arith))
  | inr isnt ↦ elim (Bool-cases (in_eights next || (next == 51))) [
    | inr last ↦
        subst (Leads packet (suc rounds) next offset) {x = false} {y = b} (ground arith)
          (upper (ground arith, ground arith, ground arith, ground arith, ground arith))
    | inl more ↦
        extension (extension_len next (get_or packet (offset + 1) 0))
          (extension_len-IsExtension next (get_or packet (offset + 1) 0) more) (ground arith)
          (walk-ok_Leads packet rounds (get_or packet offset 0)
            (offset + extension_len next (get_or packet (offset + 1) 0)) b (ground arith))
  ]
]

walk_step :
    (packet : List ℕ) (rounds next offset : ℕ) (b : Bool)
    → next ≢ 44
    → (in_eights next || (next == 51)) ≡ true
    → offset + extension_len next (get_or packet (offset + 1) 0) ≤ length packet
    → 8 ≤ extension_len next (get_or packet (offset + 1) 0)
    → walk_extensions packet rounds
        (get_or packet offset 0)
        (offset + extension_len next (get_or packet (offset + 1) 0))
      ≡ ok b
    → walk_extensions packet (suc rounds) next offset ≡ ok b
unfolding walk_extensions
walk_step packet rounds next offset b no_fragment more room least rest =
    let two : ltb (length packet) (offset + 2) ≡ false = ground arith in
    let short : ltb (extension_len next (get_or packet (offset + 1) 0)) 8 ≡ false = ground arith in
    let inside : ltb (length packet) (offset + extension_len next (get_or packet (offset + 1) 0))
        ≡ false =
      ground arith in
    let other : (next == 44) ≡ false = ground arith in rw (other, more, two, short, inside) rest

walk_of_Leads :
    (packet : List ℕ) (rounds next offset : ℕ) (b : Bool)
    → Leads packet rounds next offset b
    → walk_extensions packet rounds next offset ≡ ok b
unfolding walk_extensions
walk_of_Leads packet zero next offset b l = elim l [ ]
walk_of_Leads packet (suc rounds) next offset false (upper (a, b, c, d, e)) = ground arith
walk_of_Leads packet (suc rounds) next offset true (fragment a b) = ground arith
walk_of_Leads packet (suc rounds) next offset b (extension size is inside l) =
    let (no_fragment, more, size_eq, large) =
      IsExtension-extension_len next (get_or packet (offset + 1) 0) size is in
    let rest =
      walk_of_Leads packet rounds (get_or packet offset 0)
        (offset + extension_len next (get_or packet (offset + 1) 0)) b
        (subst (λ n. Leads packet rounds (get_or packet offset 0) (offset + n) b) size_eq l) in
    let room : offset + extension_len next (get_or packet (offset + 1) 0) ≤ length packet =
      subst (λ n. offset + n ≤ length packet) size_eq inside in
    let least : 8 ≤ extension_len next (get_or packet (offset + 1) 0) =
      subst (λ n. 8 ≤ n) size_eq large in
    walk_step packet rounds next offset b no_fragment more room least rest

-- `ipv6Fragmented` gives an answer exactly on a packet of the length that its header says, whose extension headers lead
-- within four steps, all inside the packet, to that answer.
pub ipv6_fragmented_iff :
    (p : List ℕ) (b : Bool)
    → (ipv6_fragmented p ≡ ok b) ↔ ((length p ≡ 40 + uint16_at p 4) × Leads p 4 (get_or p 6 0) 40 b)
unfolding ipv6_fragmented
ipv6_fragmented_iff p b = (
  λ e. (ground arith, walk-ok_Leads p 4 (get_or p 6 0) 40 b (ground arith)),
  λ (size, l). let e = walk_of_Leads p 4 (get_or p 6 0) 40 b l in ground arith,
)
