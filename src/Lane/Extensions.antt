-- ===== src/Lane/Extensions.antt =====
-- internal/core/lane/lane.go: the loop of `writeAddresses` over the extension headers of IPv6.
use wg_frag_go.Common.{
  ℕ, zero, suc, ◌+◌, ◌-◌, ◌*◌, ◌≤◌, ◌≡◌, ◌≢◌, refl, sym, ap, ◌∙◌, ◌⊎◌, inl, inr, true, false, List,
  [], ◌∷◌, ◌++◌, some, ltb, ◌==◌, length, get_or, drop, arith, length-append, drop-append_self,
  drop-drop, get_or-drop, length-drop,
}
use wg_frag_go.InnerIp.Chain.{IsExtension}
use wg_frag_go.Lane.{is_extension, skip_extensions}

-- The bytes after a header that names a header of this kind: fewer than `rounds` extension headers, then the payload of
-- a protocol.
pub data Chain : ℕ → ℕ → List ℕ → ℕ → List ℕ → Type 0 where
  last :
      {rounds kind : ℕ} {bytes : List ℕ}
      → kind ≢ 0
      → kind ≢ 43
      → kind ≢ 60
      → kind ≢ 51
      → Chain (suc rounds) kind bytes kind bytes
  header :
      {rounds kind protocol : ℕ} {rest payload : List ℕ} (next byte size : ℕ) (content : List ℕ)
      → IsExtension kind byte size
      → 2 + length content ≡ size
      → Chain rounds next rest protocol payload
      → Chain (suc rounds) kind ((next ∷ byte ∷ content) ++ rest) protocol payload

-- The bytes from an offset on.
pub drop_more :
    (n k : ℕ) (packet xs ys : List ℕ)
    → drop n packet ≡ xs ++ ys
    → length xs ≡ k
    → drop (n + k) packet ≡ ys
drop_more n k packet xs ys e h =
    sym (drop-drop k n packet) ∙ ap (drop k) e ∙ drop-append_self k xs ys h

pub get_or_at : (n b : ℕ) (packet ys : List ℕ) → drop n packet ≡ b ∷ ys → get_or packet n 0 ≡ b
get_or_at n b packet ys e =
    ap (λ k. get_or packet k 0) {x = n} {y = n + 0} (omega arith)
    ∙ sym (get_or-drop n packet 0 0)
    ∙ ap (λ xs. get_or xs 0 0) e

pub length_at : (n : ℕ) (packet ys : List ℕ) → drop n packet ≡ ys → length ys ≡ length packet - n
length_at n packet ys e = ap length (sym e) ∙ length-drop n packet

is_extension_eq :
    (kind byte size : ℕ)
    → IsExtension kind byte size
    → (is_extension kind ≡ true) × (size ≡ (byte + 1) * 8)
      ⊎ (is_extension kind ≡ false) × ((kind == 51) ≡ true) × (size ≡ (byte + 2) * 4)
is_extension_eq kind byte size (inl (inl e, h)) = inl (ground arith, omega arith)
is_extension_eq kind byte size (inl (inr (inl e), h)) = inl (ground arith, omega arith)
is_extension_eq kind byte size (inl (inr (inr e), h)) = inl (ground arith, omega arith)
is_extension_eq kind byte size (inr (e, h)) = inr (ground arith, ground arith, omega arith)

-- One extension header.
skip_step :
    (packet : List ℕ) (rounds kind offset byte size : ℕ)
    → get_or packet (offset + 1) 0 ≡ byte
    → IsExtension kind byte size
    → 2 ≤ size
    → offset + size ≤ length packet
    → skip_extensions (suc rounds) packet kind offset
      ≡ skip_extensions rounds packet (get_or packet offset 0) (offset + size)
unfolding skip_extensions
skip_step packet rounds kind offset byte size byte_eq is least room =
    let two : ltb (length packet) (offset + 2) ≡ false = ground (arith, least, room) in
    let inside : ltb (length packet) (offset + size) ≡ false = ground (arith, room) in
    elim (is_extension_eq kind byte size is) [
      | inl (eights, size_eq) ↦ rw (skip_extensions, eights, byte_eq, sym size_eq, two, inside) refl
      | inr (fours, auth, size_eq) ↦
          rw (skip_extensions, fours, auth, byte_eq, sym size_eq, two, inside) refl
    ]

pub skip-Chain :
    (packet : List ℕ) (rounds kind offset : ℕ) (bytes : List ℕ) (protocol : ℕ) (payload : List ℕ)
    → Chain rounds kind bytes protocol payload
    → drop offset packet ≡ bytes
    → skip_extensions rounds packet kind offset ≡ (protocol ∷ [], some (protocol, payload))
unfolding skip_extensions
skip-Chain packet zero kind offset bytes protocol payload chain e = elim chain [ ]
skip-Chain packet (suc rounds) kind offset bytes protocol payload (last a b c d) e =
    let no_eights : is_extension kind ≡ false = ground arith in
    let no_fours : (kind == 51) ≡ false = ground arith in
    rw (skip_extensions, no_eights, no_fours, e) refl
skip-Chain packet (suc rounds) kind offset bytes protocol payload
      (header {rest = rest} next byte size content is size_eq more) e =
    let here = get_or_at offset next packet _ e in
    let there =
      get_or_at (offset + 1) byte packet _
        (drop_more offset 1 packet (next ∷ []) ((byte ∷ content) ++ rest) e refl) in
    let room : offset + size ≤ length packet =
      omega
        (arith, size_eq, length_at offset packet _ e, length-append (next ∷ byte ∷ content) rest) in
    skip_step packet rounds kind offset byte size there is (omega (arith, size_eq)) room
    ∙ ap (λ k. skip_extensions rounds packet k (offset + size)) here
    ∙ skip-Chain packet rounds next (offset + size) rest protocol payload more
        (drop_more offset size packet (next ∷ byte ∷ content) rest e (omega (arith, size_eq)))
