-- ===== src/Tests/Datagrams.antt =====
-- internal/core/innerip on a UDP packet behind a destination-options header.
use wg_frag_go.Common.{ℕ, ◌≡◌, refl, false, List, [], ◌∷◌, ◌++◌, replicate, ok, ◌↔◌, ◌+◌}
use wg_frag_go.Bytes.{uint16_at}
use wg_frag_go.InnerIp.{InnerPacket, ipv6_fragmented, parse_exact}
use wg_frag_go.InnerIp.Chain.{Leads, ipv6_fragmented_iff}

-- The payload is an options header of eight bytes and four bytes of UDP.
abbrev datagram : List ℕ
datagram =
    96
    ∷ 0
    ∷ 0
    ∷ 0
    ∷ 0
    ∷ 12
    ∷ 60
    ∷ 64
    ∷ (replicate 32 1 ++ (17 ∷ 0 ∷ (replicate 6 0 ++ (1 ∷ 2 ∷ 3 ∷ 4 ∷ []))))

abbrev identity : List ℕ → List ℕ
identity bytes = bytes

abbrev parsed : InnerPacket (List ℕ)
parsed = record {
  version = 6;
  source = replicate 16 1;
  destination = replicate 16 1;
  content = datagram;
}

datagram_parses : parse_exact identity identity datagram ≡ ok parsed
unfolding parse_exact wg_frag_go.InnerIp.parse wg_frag_go.InnerIp.has_native_fragment
    ipv6_fragmented wg_frag_go.InnerIp.walk_extensions wg_frag_go.InnerIp.packet_of
datagram_parses = refl

ipv6_fragmented_iff_example :
    (ipv6_fragmented datagram ≡ ok false)
    ↔ ((52 ≡ 40 + uint16_at datagram 4) × Leads datagram 4 60 40 false)
ipv6_fragmented_iff_example = ipv6_fragmented_iff datagram false
