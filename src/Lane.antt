-- ===== src/Lane.antt =====
-- internal/core/lane/lane.go: the lane of a packet, from the bytes of its flow.
-- hash/maphash with a seed is a parameter: a function from the bytes that are written to a number.
pub mod Extensions
pub mod Headers
pub mod Vxlan
pub mod Flow
use wg_frag_go.Common.{
  ℕ, zero, suc, ◌+◌, ◌-◌, ◌*◌, ◌/◌, ◌%◌, Bool, true, false, not, ◌&&◌, ◌||◌, List, [], ◌∷◌, ◌++◌,
  Option, none, some, Result, ok, err, ◌>>=◌, ◌>>◌, refuse, ltb, ◌==◌, if◌then◌else◌, length,
  get_or, take, drop,
}
use wg_frag_go.Bytes.{uint16_at}

abbrev pub lanes : ℕ
lanes = 256

abbrev pub default_depth : ℕ
default_depth = 1

abbrev pub max_depth : ℕ
max_depth = 4

abbrev pub vxlan_port : ℕ
vxlan_port = 4789

pub data LaneError : Type 0 where
  bad_depth : LaneError

-- The seed is what `hash` stands for.
pub record Classifier : Type 0 where
  pub hash : List ℕ → ℕ
  pub depth : ℕ

-- A depth that is negative fails the check as zero does.
unfoldable pub new_classifier : (List ℕ → ℕ) → ℕ → Result LaneError Classifier
new_classifier hash depth = do
  refuse (ltb depth 1 || ltb max_depth depth) bad_depth
  ok (record { hash = hash; depth = depth })

-- Protocol and payload; `none` for false.
abbrev pub Transport : Type 0
Transport = Option (ℕ × List ℕ)

-- Extension headers whose length counts in units of eight bytes.
abbrev pub is_extension : ℕ → Bool
is_extension next = (next == 0) || (next == 43) || (next == 60)

-- The loop over the extension headers: what it writes, and what it returns.
unfoldable pub skip_extensions : ℕ → List ℕ → ℕ → ℕ → List ℕ × Transport
skip_extensions zero packet next offset = ([], none)
skip_extensions (suc rounds) packet next offset =
    let header_len =
      if is_extension next
      then (get_or packet (offset + 1) 0 + 1) * 8
      else (get_or packet (offset + 1) 0 + 2) * 4 in
    let rest = skip_extensions rounds packet (get_or packet offset 0) (offset + header_len) in
    if is_extension next || (next == 51)
    then (if ltb (length packet) (offset + 2) || ltb (length packet) (offset + header_len)
        then ([], none)
        else rest)
    else (next ∷ [], some (next, drop offset packet))

-- What it writes, and what it returns.
unfoldable pub write_addresses : List ℕ → List ℕ × Transport
write_addresses packet =
    let version = get_or packet 0 0 / 16 in
    let header_len = get_or packet 0 0 % 16 * 4 in
    let extensions = skip_extensions 4 packet (get_or packet 6 0) 40 in
    if length packet == 0
    then ([], none)
    else (if version == 4
        then (if ltb (length packet) 20 || ltb header_len 20 || ltb (length packet) header_len
            then ([], none)
            else (
              take 8 (drop 12 packet) ++ get_or packet 9 0 ∷ [],
              some (get_or packet 9 0, drop header_len packet),
            ))
        else (if version == 6
            then (if ltb (length packet) 40
                then ([], none)
                else (take 32 (drop 8 packet) ++ extensions.0, extensions.1))
            else ([], none)))

unfoldable pub vxlan_inner : List ℕ → Option (List ℕ)
vxlan_inner udp =
    let frame = drop 16 udp in
    let tagged = uint16_at frame 12 == 0x8100 in
    let ether_type = if tagged then uint16_at frame 16 else uint16_at frame 12 in
    let payload = if tagged then drop 18 frame else drop 14 frame in
    if ltb (length udp) 30 || tagged && ltb (length frame) 18
    then none
    else (if (ether_type == 0x0800) || (ether_type == 0x86dd) then some payload else none)

-- TCP, UDP and SCTP.
abbrev pub has_ports : ℕ → Bool
has_ports transport = (transport == 6) || (transport == 17) || (transport == 132)

-- The packet inside a VXLAN payload.
abbrev pub encapsulated : ℕ → List ℕ → Option (List ℕ)
encapsulated transport payload =
    if not (transport == 17) || not (uint16_at payload 2 == vxlan_port)
    then none
    else vxlan_inner payload

-- What is written for a packet. A classifier has depth 1 or more, and depth 0 is where the recursion stops.
unfoldable pub write_flow : ℕ → List ℕ → List ℕ
write_flow zero packet = []
write_flow (suc depth) packet = elim (write_addresses packet).1 [
  | none ↦ (write_addresses packet).0
  | some (transport, payload) ↦
      let inner : List ℕ = elim (encapsulated transport payload) [
        | none ↦ []
        | some p ↦ write_flow depth p
      ] in
      if not (has_ports transport) || ltb (length payload) 4
      then (write_addresses packet).0
      else (write_addresses packet).0 ++ take 4 payload ++ inner
]

unfoldable pub lane : Classifier → List ℕ → ℕ
lane c packet = c.hash (write_flow c.depth packet) % 256
