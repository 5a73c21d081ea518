-- ===== src/Lane/Headers.antt =====
-- internal/core/lane/lane.go: `writeAddresses` on packets that are built from the fields of their headers.
use wg_frag_go.Common.{
  ℕ, ◌+◌, ◌-◌, ◌*◌, ◌/◌, ◌%◌, ◌<◌, ◌≤◌, ◌≡◌, refl, ap, ◌∙◌, ◌⊎◌, inl, inr, true, false, List, [],
  ◌∷◌, ◌++◌, some, ltb, ◌==◌, length, get_or, take, drop, arith, length-append, drop-append_self,
  take-append_self,
}
use wg_frag_go.Lane.Extensions.{Chain, drop_more, get_or_at, length_at, skip-Chain}
use wg_frag_go.Lane.{skip_extensions, write_addresses}

-- An IPv4 packet: the first byte with the header's length in words, eight bytes up to the protocol, the protocol, the
-- checksum, the addresses, the options and the payload.
pub record IsIpv4 (packet addresses : List ℕ) (protocol : ℕ) (payload : List ℕ) : Type 0 where
  pub words : ℕ
  pub front : List ℕ
  pub checksum : List ℕ
  pub options : List ℕ
  pub words_ge : 5 ≤ words
  pub words_lt : words < 16
  pub front_len : length front ≡ 8
  pub checksum_len : length checksum ≡ 2
  pub addresses_len : length addresses ≡ 8
  pub options_len : length options ≡ 4 * words - 20
  pub packet_eq :
      packet
      ≡ ((64 + words) ∷ front) ++ ((protocol ∷ checksum) ++ (addresses ++ (options ++ payload)))

-- An IPv6 packet: the first byte, five bytes up to the next header, the next header, the hop limit, the addresses, and
-- at most three extension headers before the payload.
pub record IsIpv6 (packet addresses : List ℕ) (protocol : ℕ) (payload : List ℕ) : Type 0 where
  pub class : ℕ
  pub front : List ℕ
  pub kind : ℕ
  pub hops : ℕ
  pub bytes : List ℕ
  pub class_lt : class < 16
  pub front_len : length front ≡ 5
  pub addresses_len : length addresses ≡ 32
  pub chain : Chain 4 kind bytes protocol payload
  pub packet_eq : packet ≡ ((96 + class) ∷ front) ++ ((kind ∷ hops ∷ []) ++ (addresses ++ bytes))

-- An IP packet with these addresses, this protocol and this payload.
abbrev pub IsIp : List ℕ → List ℕ → ℕ → List ℕ → Type 0
IsIp packet addresses protocol payload =
    IsIpv4 packet addresses protocol payload ⊎ IsIpv6 packet addresses protocol payload

module _ (packet : List ℕ) where
  -- `writeAddresses` by what it reads.
  ipv4_read :
      get_or packet 0 0 / 16 ≡ 4
      → 20 ≤ get_or packet 0 0 % 16 * 4
      → get_or packet 0 0 % 16 * 4 ≤ length packet
      → write_addresses packet ≡ (
        take 8 (drop 12 packet) ++ get_or packet 9 0 ∷ [],
        some (get_or packet 9 0, drop (get_or packet 0 0 % 16 * 4) packet),
      )
  unfolding write_addresses
  ipv4_read version_eq ge le =
      let version : (get_or packet 0 0 / 16 == 4) ≡ true = ground (arith, version_eq) in
      let some_bytes : (length packet == 0) ≡ false = ground (arith, ge, le) in
      let long : ltb (length packet) 20 ≡ false = ground (arith, ge, le) in
      let least : ltb (get_or packet 0 0 % 16 * 4) 20 ≡ false = ground (arith, ge) in
      let inside : ltb (length packet) (get_or packet 0 0 % 16 * 4) ≡ false = ground (arith, le) in
      rw (some_bytes, version, long, least, inside) refl

  ipv6_read :
      get_or packet 0 0 / 16 ≡ 6
      → 40 ≤ length packet
      → write_addresses packet ≡ (
        take 32 (drop 8 packet) ++ (skip_extensions 4 packet (get_or packet 6 0) 40).0,
        (skip_extensions 4 packet (get_or packet 6 0) 40).1,
      )
  unfolding write_addresses
  ipv6_read version_eq ge =
      let version : (get_or packet 0 0 / 16 == 4) ≡ false = ground (arith, version_eq) in
      let six : (get_or packet 0 0 / 16 == 6) ≡ true = ground (arith, version_eq) in
      let some_bytes : (length packet == 0) ≡ false = ground (arith, ge) in
      let long : ltb (length packet) 40 ≡ false = ground (arith, ge) in
      rw (some_bytes, version, six, long) refl

-- What `writeAddresses` gives for an IP packet: the addresses and the protocol, and the payload.
abbrev pub Reads : List ℕ → List ℕ → ℕ → List ℕ → Type 0
Reads packet addresses protocol payload =
    write_addresses packet ≡ (addresses ++ protocol ∷ [], some (protocol, payload))

Reads-IsIpv4 :
    (packet addresses : List ℕ) (protocol : ℕ) (payload : List ℕ)
    → IsIpv4 packet addresses protocol payload
    → Reads packet addresses protocol payload
Reads-IsIpv4 packet addresses protocol payload v =
    let first_eq : get_or packet 0 0 ≡ 64 + v.words = ap (λ xs. get_or xs 0 0) v.packet_eq in
    let at9 : drop 9 packet ≡ (protocol ∷ v.checksum) ++ (addresses ++ (v.options ++ payload)) =
      ap (drop 9) v.packet_eq
      ∙ drop-append_self 9 ((64 + v.words) ∷ v.front) _ (omega (arith, v.front_len)) in
    let at12 : drop 12 packet ≡ addresses ++ (v.options ++ payload) =
      drop_more 9 3 packet (protocol ∷ v.checksum) _ at9 (omega (arith, v.checksum_len)) in
    let at20 : drop 20 packet ≡ v.options ++ payload =
      drop_more 12 8 packet addresses _ at12 v.addresses_len in
    let read_len : get_or packet 0 0 % 16 * 4 ≡ 20 + (4 * v.words - 20) =
      omega (arith, first_eq, v.words_ge, v.words_lt) in
    let at_end : drop (get_or packet 0 0 % 16 * 4) packet ≡ payload =
      ap (λ n. drop n packet) read_len
      ∙ drop_more 20 (4 * v.words - 20) packet v.options payload at20 v.options_len in
    let protocol_eq = get_or_at 9 protocol packet _ at9 in
    let taken : take 8 (drop 12 packet) ≡ addresses =
      ap (take 8) at12 ∙ take-append_self 8 addresses _ v.addresses_len in
    let room : get_or packet 0 0 % 16 * 4 ≤ length packet = omega (
      arith,
      read_len,
      v.options_len,
      v.addresses_len,
      length_at 12 packet _ at12,
      length-append addresses (v.options ++ payload),
      length-append v.options payload,
    ) in
    ipv4_read packet (omega (arith, first_eq, v.words_lt)) (omega (arith, read_len)) room
    ∙ rw (taken, protocol_eq, at_end) refl

Reads-IsIpv6 :
    (packet addresses : List ℕ) (protocol : ℕ) (payload : List ℕ)
    → IsIpv6 packet addresses protocol payload
    → Reads packet addresses protocol payload
Reads-IsIpv6 packet addresses protocol payload v =
    let first_eq : get_or packet 0 0 ≡ 96 + v.class = ap (λ xs. get_or xs 0 0) v.packet_eq in
    let at6 : drop 6 packet ≡ (v.kind ∷ v.hops ∷ []) ++ (addresses ++ v.bytes) =
      ap (drop 6) v.packet_eq
      ∙ drop-append_self 6 ((96 + v.class) ∷ v.front) _ (omega (arith, v.front_len)) in
    let at8 : drop 8 packet ≡ addresses ++ v.bytes =
      drop_more 6 2 packet (v.kind ∷ v.hops ∷ []) _ at6 refl in
    let at40 : drop 40 packet ≡ v.bytes =
      drop_more 8 32 packet addresses v.bytes at8 v.addresses_len in
    let kind_eq = get_or_at 6 v.kind packet _ at6 in
    let taken : take 32 (drop 8 packet) ≡ addresses =
      ap (take 32) at8 ∙ take-append_self 32 addresses _ v.addresses_len in
    let room : 40 ≤ length packet =
      omega (arith, v.addresses_len, length_at 8 packet _ at8, length-append addresses v.bytes) in
    let skipped = skip-Chain packet 4 v.kind 40 v.bytes protocol payload v.chain at40 in
    ipv6_read packet (omega (arith, first_eq, v.class_lt)) room ∙ rw (taken, kind_eq, skipped) refl

pub write_addresses-IsIp :
    (packet addresses : List ℕ) (protocol : ℕ) (payload : List ℕ)
    → IsIp packet addresses protocol payload
    → Reads packet addresses protocol payload
write_addresses-IsIp packet addresses protocol payload (inl v) =
    Reads-IsIpv4 packet addresses protocol payload v
write_addresses-IsIp packet addresses protocol payload (inr v) =
    Reads-IsIpv6 packet addresses protocol payload v
