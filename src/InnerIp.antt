-- ===== src/InnerIp.antt =====
-- internal/core/innerip/fragment.go: length checks of an inner packet, and the test for a fragment.
-- `netip.AddrFrom4` and `netip.AddrFrom16` are parameters. A shift or mask of a byte is written as a
-- quotient or remainder by a power of two.
pub mod Chain
pub mod Exact
use wg_frag_go.Common.{
  ℕ, zero, suc, ◌+◌, ◌*◌, ◌/◌, ◌%◌, Bool, true, false, not, ◌||◌, List, Result, ok, err, ◌>>=◌,
  ◌>>◌, refuse, ltb, ◌==◌, if◌then◌else◌, length, get_or, take, drop,
}
use wg_frag_go.Bytes.{uint16_at}

pub data InnerError : Type 0 where
  too_short unsupported_ip invalid_ipv4 invalid_ipv6 trailing_data native_fragment : InnerError

-- The field `Data` of the source is `content`.
pub record InnerPacket {ℓ} (A : Type ℓ) : Type ℓ where
  pub version : ℕ
  pub source : A
  pub destination : A
  pub content : List ℕ

unfoldable pub ipv4_fragmented : List ℕ → Result InnerError Bool
ipv4_fragmented packet = do
  refuse (ltb (length packet) 20) too_short
  let header_len = get_or packet 0 0 % 16 * 4
  refuse (ltb header_len 20 || ltb (length packet) header_len) invalid_ipv4
  let total_len = uint16_at packet 2
  refuse (ltb total_len header_len || ltb (length packet) total_len) invalid_ipv4
  let flags_offset = uint16_at packet 6
  ok (not (flags_offset / 8192 % 2 == 0) || not (flags_offset % 8192 == 0))

-- Does an extension header of this kind follow that gives its length in units of 8, or of 4?
abbrev pub in_eights : ℕ → Bool
in_eights next = (next == 0) || (next == 43) || (next == 60)

-- The length of an extension header, from its second byte.
abbrev pub extension_len : ℕ → ℕ → ℕ
extension_len next byte = if in_eights next then (byte + 1) * 8 else (byte + 2) * 4

-- The loop of `ipv6Fragmented`, with the number of rounds left.
unfoldable pub walk_extensions : List ℕ → ℕ → ℕ → ℕ → Result InnerError Bool
walk_extensions packet zero next offset = err invalid_ipv6
walk_extensions packet (suc rounds) next offset =
    let header_len = extension_len next (get_or packet (offset + 1) 0) in
    let rest = walk_extensions packet rounds (get_or packet offset 0) (offset + header_len) in
    if next == 44
    then (if ltb (length packet) (offset + 8) then err invalid_ipv6 else ok true)
    else (if in_eights next || (next == 51)
        then (if ltb (length packet) (offset + 2)
            then err invalid_ipv6
            else (if ltb header_len 8 || ltb (length packet) (offset + header_len)
                then err invalid_ipv6
                else rest))
        else ok false)

unfoldable pub ipv6_fragmented : List ℕ → Result InnerError Bool
ipv6_fragmented packet = do
  refuse (ltb (length packet) 40) too_short
  refuse (not (length packet == 40 + uint16_at packet 4)) invalid_ipv6
  walk_extensions packet 4 (get_or packet 6 0) 40

unfoldable pub has_native_fragment : List ℕ → Result InnerError Bool
has_native_fragment packet =
    if length packet == 0
    then err too_short
    else (if get_or packet 0 0 / 16 == 4
        then ipv4_fragmented packet
        else (if get_or packet 0 0 / 16 == 6 then ipv6_fragmented packet else err unsupported_ip))

module _ {ℓ} {A : Type ℓ} (from4 from16 : List ℕ → A) where
  -- `Parse`, behind its test for a fragment.
  unfoldable pub packet_of : List ℕ → Result InnerError (InnerPacket A)
  packet_of packet =
      if get_or packet 0 0 / 16 == 4
      then ok (record {
        version = 4;
        source = from4 (take 4 (drop 12 packet));
        destination = from4 (take 4 (drop 16 packet));
        content = take (uint16_at packet 2) packet;
      })
      else (if get_or packet 0 0 / 16 == 6
          then ok (record {
            version = 6;
            source = from16 (take 16 (drop 8 packet));
            destination = from16 (take 16 (drop 24 packet));
            content = take (40 + uint16_at packet 4) packet;
          })
          else err unsupported_ip)

  unfoldable pub parse : List ℕ → Result InnerError (InnerPacket A)
  parse packet = do
    fragmented ← has_native_fragment packet
    refuse fragmented native_fragment
    packet_of packet

  unfoldable pub parse_exact : List ℕ → Result InnerError (InnerPacket A)
  parse_exact packet = do
    parsed ← parse packet
    refuse (not (length parsed.content == length packet)) trailing_data
    ok parsed
