-- ===== src/Carrier/Envelope.antt =====
-- internal/core/carrier/envelope.go: the hidden IPv6 packet around a carrier payload.
-- `netip.Addr` is a parameter, a type with the functions that the code calls. The payload to write
-- may lie in the destination buffer; what the code copies is then what stands there at that moment.
pub mod RoundTrip
use wg_frag_go.Common.{
  ℕ, ◌+◌, ◌-◌, ◌*◌, ◌/◌, Bool, not, ◌||◌, List, [], ◌∷◌, Result, ok, err, ◌>>=◌, ◌>>◌, refuse, ltb,
  ◌==◌, length, get_or, take, drop, copy_at,
}
use wg_frag_go.Bytes.{put_uint16, put_uint32, uint16_at}
use wg_frag_go.Carrier.Errors.{
  CarrierError, short_buffer, carrier_too_short, carrier_version, carrier_next_header,
  carrier_payload_size, carrier_source, carrier_destination, carrier_address, carrier_payload_limit,
}
use wg_frag_go.Carrier.Record.{max_uint16}

abbrev pub ipv6_header_size : ℕ
ipv6_header_size = 40

abbrev pub carrier_protocol : ℕ
carrier_protocol = 253

abbrev pub carrier_hop_limit : ℕ
carrier_hop_limit = 64

-- What is used of `netip.Addr`; `same` is its operator `==`, `zoned` is `Zone() != ""`.
pub record Addresses {ℓ} (A : Type ℓ) : Type ℓ where
  pub as16 : A → List ℕ
  pub from16 : List ℕ → A
  pub is6 : A → Bool
  pub zoned : A → Bool
  pub is_link_local : A → Bool
  pub same : A → A → Bool

-- Bytes of their own, or a range of the buffer that is written.
pub data Source : Type 0 where
  apart : List ℕ → Source
  within : ℕ → ℕ → Source

abbrev pub source_bytes : Source → List ℕ → List ℕ
source_bytes (apart bytes) dst = bytes
source_bytes (within from len) dst = take len (drop from dst)

pub record Envelope {ℓ} (A : Type ℓ) : Type ℓ where
  pub source : A
  pub destination : A
  pub payload : List ℕ

module _ {ℓ} {A : Type ℓ} (net : Addresses A) where
  unfoldable pub validate_carrier_address : A → Result CarrierError (Unit {0})
  validate_carrier_address a = refuse (not (net.is6 a) || net.zoned a) carrier_address

  -- The writes of `MarshalEnvelopeTo`, in order.
  unfoldable pub write_envelope : List ℕ → A → A → Source → List ℕ
  write_envelope dst source destination payload =
      let dst1 = copy_at ipv6_header_size (source_bytes payload dst) dst in
      let dst2 = copy_at 0 (put_uint32 1610612736) dst1 in
      let dst3 = copy_at 4 (put_uint16 (length (source_bytes payload dst))) dst2 in
      let dst4 = copy_at 6 (carrier_protocol ∷ []) dst3 in
      let dst5 = copy_at 7 (carrier_hop_limit ∷ []) dst4 in
      let dst6 = copy_at 8 (take 16 (net.as16 source)) dst5 in
      copy_at 24 (take 16 (net.as16 destination)) dst6

  unfoldable pub marshal_envelope_to : List ℕ → A → A → Source → Result CarrierError (ℕ × List ℕ)
  marshal_envelope_to dst source destination payload = do
    validate_carrier_address source
    validate_carrier_address destination
    refuse (ltb max_uint16 (length (source_bytes payload dst))) carrier_payload_limit
    let required = ipv6_header_size + length (source_bytes payload dst)
    refuse (ltb (length dst) required) short_buffer
    ok (required, write_envelope dst source destination payload)

  unfoldable pub decode_envelope : List ℕ → A → Result CarrierError (Envelope A)
  decode_envelope packet expected = do
    validate_carrier_address expected
    refuse (ltb (length packet) ipv6_header_size) carrier_too_short
    refuse (not (get_or packet 0 0 / 16 == 6)) carrier_version
    refuse (not (get_or packet 6 0 == carrier_protocol)) carrier_next_header
    refuse (not (uint16_at packet 4 == length packet - ipv6_header_size)) carrier_payload_size
    let source = net.from16 (take 16 (drop 8 packet))
    refuse (not (net.is_link_local source)) carrier_source
    let destination = net.from16 (take 16 (drop 24 packet))
    refuse (not (net.same destination expected)) carrier_destination
    ok (record {
      source = source;
      destination = destination;
      payload = drop ipv6_header_size packet;
    })

  unfoldable pub parse_envelope : List ℕ → A → A → Result CarrierError (Envelope A)
  parse_envelope packet source destination = do
    validate_carrier_address source
    envelope ← decode_envelope packet destination
    refuse (not (net.same envelope.source source)) carrier_source
    ok envelope
