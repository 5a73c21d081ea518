-- ===== src/PeerRoute/Bits.antt =====
-- internal/core/peerroute/allowedips.go: the bits of an address in the order of a path.
use wg_frag_go.Common.{
  ℕ, ◌+◌, ◌-◌, ◌*◌, ◌/◌, ◌%◌, ◌^◌, ◌<◌, ◌≡◌, refl, ap, ◌∙◌, inl, inr, Bool, true, false, List, [],
  ◌∷◌, ◌==◌, get_or, arith, Bool-cases,
}
use wg_frag_go.PeerRoute.{address_bit}
use wg_frag_go.PeerRoute.Walk.{path_from}

-- The number with these digits in base two, after `n`, the first digit being the most significant one.
abbrev pub number_after : ℕ → List Bool → ℕ
number_after n [] = n
number_after n (true ∷ bits) = number_after (2 * n + 1) bits
number_after n (false ∷ bits) = number_after (2 * n) bits

digit :
    (n x : ℕ) (bits : List Bool)
    → number_after n ((x % 2 == 1) ∷ bits) ≡ number_after (2 * n + x % 2) bits
digit n x bits = elim (Bool-cases (x % 2 == 1)) [
  | inl one ↦ rw one (ap (λ k. number_after k bits) (ground arith))
  | inr no_one ↦ rw no_one (ap (λ k. number_after k bits) (ground arith))
]

-- One bit of byte `i`.
next_digit :
    (address : List ℕ) (i k depth n b : ℕ) (bits : List Bool)
    → depth ≡ 8 * i + k
    → k < 8
    → get_or address i 0 ≡ b
    → number_after n (address_bit address depth ∷ bits)
      ≡ number_after (2 * n + b / 2 ^ (7 - k) % 2) bits
unfolding address_bit
next_digit address i k depth n b bits d_eq lt b_eq =
    let byte : depth / 8 ≡ i = omega arith in
    let at : depth % 8 ≡ k = omega arith in
    digit n (get_or address (depth / 8) 0 / 2 ^ (7 - depth % 8)) bits ∙ rw (byte, at, b_eq) refl

byte_value :
    (b : ℕ)
    → b < 256
    → 2
          * (2
                * (2
                      * (2
                            * (2 * (2 * (2 * (2 * 0 + b / 128 % 2) + b / 64 % 2) + b / 32 % 2)
                                + b / 16 % 2)
                          + b / 8 % 2)
                    + b / 4 % 2)
              + b / 2 % 2)
        + b / 1 % 2
      ≡ b
byte_value b h = omega arith

-- The bits that a trie reads of an address are those of its bytes in network order: the eight from bit 8 * i on, most
-- significant first, are byte i in base two.
pub number-path_from :
    (address : List ℕ) (i : ℕ)
    → get_or address i 0 < 256
    → number_after 0 (path_from 8 (8 * i) address) ≡ get_or address i 0
number-path_from address i h =
    next_digit address i 0 _ _ _ _ (omega arith) (omega arith) refl
    ∙ next_digit address i 1 _ _ _ _ (omega arith) (omega arith) refl
    ∙ next_digit address i 2 _ _ _ _ (omega arith) (omega arith) refl
    ∙ next_digit address i 3 _ _ _ _ (omega arith) (omega arith) refl
    ∙ next_digit address i 4 _ _ _ _ (omega arith) (omega arith) refl
    ∙ next_digit address i 5 _ _ _ _ (omega arith) (omega arith) refl
    ∙ next_digit address i 6 _ _ _ _ (omega arith) (omega arith) refl
    ∙ next_digit address i 7 _ _ _ _ (omega arith) (omega arith) refl
    ∙ byte_value (get_or address i 0) h
