-- ===== src/InnerIp/Exact.antt =====
-- internal/core/innerip/fragment.go: what `ParseExact` accepts.
use wg_frag_go.Common.{
  ℕ, ◌+◌, ◌*◌, ◌/◌, ◌%◌, ◌≤◌, ◌≡◌, ap, ◌∙◌, ◌⊎◌, inl, inr, true, false, List, ok, ◌==◌, length,
  get_or, take, arith, drop, Result-cases, Bool-cases, take-length_le, length-take,
}
use wg_frag_go.Bytes.{uint16_at}
use wg_frag_go.InnerIp.{
  InnerPacket, ipv4_fragmented, has_native_fragment, packet_of, parse, parse_exact,
}
use wg_frag_go.InnerIp.Chain.{Leads, ipv6_fragmented_iff}

-- A whole IPv4 datagram that is no fragment.
abbrev pub IsWhole4 : List ℕ → Type 0
IsWhole4 p =
    (get_or p 0 0 / 16 ≡ 4)
    × (20 ≤ get_or p 0 0 % 16 * 4)
    × (get_or p 0 0 % 16 * 4 ≤ uint16_at p 2)
    × (uint16_at p 2 ≡ length p)
    × (uint16_at p 6 / 8192 % 2 ≡ 0)
    × (uint16_at p 6 % 8192 ≡ 0)

-- A whole IPv6 datagram without a fragment header.
abbrev pub IsWhole6 : List ℕ → Type 0
IsWhole6 p =
    (get_or p 0 0 / 16 ≡ 6) × (length p ≡ 40 + uint16_at p 4) × Leads p 4 (get_or p 6 0) 40 false

module _ {ℓ} {A : Type ℓ} (from4 from16 : List ℕ → A) (p : List ℕ) where
  parse_exact-parts :
      (q : InnerPacket A)
      → parse_exact from4 from16 p ≡ ok q
      → (has_native_fragment p ≡ ok false)
        × (packet_of from4 from16 p ≡ ok q)
        × (length q.content ≡ length p)
  unfolding parse_exact parse
  parse_exact-parts q e = elim (Result-cases (has_native_fragment p)) [
    | inr (x, h) ↦ absurd (ground arith)
    | inl (b, h) ↦ elim (Result-cases (packet_of from4 from16 p)) [
      | inr (x, k) ↦ absurd (ground arith)
      | inl (r, k) ↦ (ground arith, ground arith, ground arith)
    ]
  ]

  version4 :
      (q : InnerPacket A)
      → (get_or p 0 0 / 16 == 4) ≡ true
      → has_native_fragment p ≡ ok false
      → packet_of from4 from16 p ≡ ok q
      → length q.content ≡ length p
      → IsWhole4 p × (q.version ≡ 4) × (q.content ≡ p)
  unfolding has_native_fragment ipv4_fragmented packet_of
  version4 q v h k size =
      let is : q.content ≡ take (uint16_at p 2) p = ground arith in
      let inside : uint16_at p 2 ≤ length p = ground arith in
      let all : uint16_at p 2 ≡ length p =
        omega (arith, inside, size, ap length is, length-take (uint16_at p 2) p) in
      (
        (ground arith, ground arith, ground arith, all, ground arith, ground arith),
        ground arith,
        is ∙ take-length_le (uint16_at p 2) p (omega (arith, all)),
      )

  version6 :
      (q : InnerPacket A)
      → (get_or p 0 0 / 16 == 4) ≡ false
      → has_native_fragment p ≡ ok false
      → packet_of from4 from16 p ≡ ok q
      → IsWhole6 p × (q.version ≡ 6) × (q.content ≡ p)
  unfolding has_native_fragment packet_of
  version6 q v h k =
      let six : (get_or p 0 0 / 16 == 6) ≡ true = ground arith in
      let is : q.content ≡ take (40 + uint16_at p 4) p = ground arith in
      let whole = (ipv6_fragmented_iff p false).0 (ground arith) in
      (
        (ground arith, whole.0, whole.1),
        ground arith,
        is ∙ take-length_le (40 + uint16_at p 4) p (omega (arith, whole.0)),
      )

  -- What `ParseExact` accepts is a whole IPv4 datagram with no fragment bit or offset, or a whole IPv6 datagram whose
  -- extension headers lead inside it to an upper layer and not to a fragment header; and all of it is the result's data.
  pub parse_exact-IsWhole :
      (q : InnerPacket A)
      → parse_exact from4 from16 p ≡ ok q
      → (IsWhole4 p × (q.version ≡ 4) × (q.content ≡ p))
        ⊎ (IsWhole6 p × (q.version ≡ 6) × (q.content ≡ p))
  parse_exact-IsWhole q e =
      let (h, k, size) = parse_exact-parts q e in
      elim (Bool-cases (get_or p 0 0 / 16 == 4)) [
        | inl four ↦ inl (version4 q four h k size)
        | inr other ↦ inr (version6 q other h k)
      ]

  -- What the data of a whole datagram is: its version, its addresses and all of its bytes.
  abbrev pub datagram4 : InnerPacket A
  datagram4 = record {
    version = 4;
    source = from4 (take 4 (drop 12 p));
    destination = from4 (take 4 (drop 16 p));
    content = p;
  }

  abbrev pub datagram6 : InnerPacket A
  datagram6 = record {
    version = 6;
    source = from16 (take 16 (drop 8 p));
    destination = from16 (take 16 (drop 24 p));
    content = p;
  }
