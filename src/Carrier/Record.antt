-- ===== src/Carrier/Record.antt =====
-- internal/core/carrier/record.go: the DATA record, its encoder, its decoder and the walk over a
-- carrier payload. A buffer that a call writes into is returned beside the call's result.
pub mod RoundTrip
pub mod Stream
use wg_frag_go.Common.{
  ℕ, zero, suc, ◌+◌, ◌-◌, ◌*◌, ◌/◌, ◌%◌, ◌||◌, bit_or, bit_and, Bool, List, [], ◌∷◌, Option, none,
  some, Result, ok, err, ◌>>=◌, ◌>>◌, refuse, ltb, leb, ◌==◌, length, get_or, take, drop, copy_at,
}
use wg_frag_go.Bytes.{put_uint16, put_uint32, uint16_at, uint32_at}
use wg_frag_go.Carrier.Errors.{
  CarrierError, header_too_short, record_truncated, invalid_record_length, invalid_fragment,
  invalid_data_session_id, invalid_range, short_buffer,
}

abbrev pub header_size : ℕ
header_size = 12

abbrev pub min_record_size : ℕ
min_record_size = header_size + 1

abbrev pub max_uint16 : ℕ
max_uint16 = 65535

pub record Header : Type 0 where
  pub fragment_index : ℕ
  pub fragment_count : ℕ
  pub lane_id : ℕ
  pub data_session_id : ℕ
  pub lane_sequence : ℕ
  pub offset : ℕ

-- The field `Data` of the source.
pub record Record : Type 0 where
  pub header : Header
  pub content : List ℕ

unfoldable pub validate : Header → ℕ → Result CarrierError (Unit {0})
validate h data_len = do
  refuse
      (ltb h.fragment_count 1 || ltb 16 h.fragment_count || leb h.fragment_count h.fragment_index)
      invalid_fragment
  refuse (h.data_session_id == 0) invalid_data_session_id
  refuse (ltb data_len 1 || ltb (max_uint16 - header_size) data_len) invalid_record_length
  refuse (ltb max_uint16 (h.offset + data_len)) invalid_range

-- `header.FragmentIndex<<4 | (header.FragmentCount - 1)`, in uint8.
unfoldable pub fragment_byte : Header → ℕ
fragment_byte h = bit_or (h.fragment_index * 16 % 256) ((h.fragment_count + 255) % 256)

-- The writes of `MarshalTo`, in order.
unfoldable pub write_record : List ℕ → Header → List ℕ → ℕ → List ℕ
unfolding fragment_byte
write_record dst h content record_len =
    let dst1 = copy_at 0 (put_uint16 (record_len % 65536)) dst in
    let dst2 = copy_at 2 (fragment_byte h ∷ []) dst1 in
    let dst3 = copy_at 3 (h.lane_id ∷ []) dst2 in
    let dst4 = copy_at 4 (put_uint16 h.data_session_id) dst3 in
    let dst5 = copy_at 6 (put_uint32 h.lane_sequence) dst4 in
    let dst6 = copy_at 10 (put_uint16 h.offset) dst5 in
    copy_at header_size (take (record_len - header_size) content) dst6

-- The bytes written and the buffer after them. An error leaves the buffer alone.
unfoldable pub marshal_to : List ℕ → Header → List ℕ → Result CarrierError (ℕ × List ℕ)
unfolding validate write_record
marshal_to dst h content = do
  validate h (length content)
  let record_len = header_size + length content
  refuse (ltb (length dst) record_len) short_buffer
  ok (record_len, write_record dst h content record_len)

unfoldable pub decode_header : List ℕ → Header
decode_header src = record {
  fragment_index = get_or src 2 0 / 16;
  fragment_count = get_or src 2 0 % 16 + 1;
  lane_id = get_or src 3 0;
  data_session_id = uint16_at src 4;
  lane_sequence = uint32_at src 6;
  offset = uint16_at src 10;
}

unfoldable pub decode_record : List ℕ → Result CarrierError (Record × ℕ)
unfolding decode_header validate
decode_record src = do
  refuse (ltb (length src) header_size) header_too_short
  let record_len = uint16_at src 0
  refuse (ltb record_len min_record_size) invalid_record_length
  refuse (ltb (length src) record_len) record_truncated
  let content = take (record_len - header_size) (drop header_size src)
  validate (decode_header src) (length content)
  ok (record { header = decode_header src; content = content }, record_len)

-- `Parse` with a callback that keeps a state of type `S` and may stop the walk by an error.
-- `inject` makes a record error an error of the caller. The walk takes fuel; `none` means that it
-- ran out, which `Stream.parse_total` excludes.
module _ {ℓ κ} {S : Type ℓ} {E : Type κ} (inject : CarrierError → E)
    (visit : S → Record → S × Option E) where
  unfoldable pub parse_from : ℕ → S → List ℕ → Option (S × Option E)
  parse_from fuel s [] = some (s, none)
  parse_from zero s (b ∷ payload) = none
  parse_from (suc fuel) s (b ∷ payload) = elim (decode_record (b ∷ payload)) [
    | err e ↦ some (s, some (inject e))
    | ok (r, consumed) ↦ elim ((visit s r).1) [
      | some e ↦ some ((visit s r).0, some e)
      | none ↦ parse_from fuel (visit s r).0 (drop consumed (b ∷ payload))
    ]
  ]

  unfoldable pub parse : S → List ℕ → Option (S × Option E)
  unfolding parse_from
  parse s [] = some (s, some (inject header_too_short))
  parse s (b ∷ payload) = parse_from (length (b ∷ payload)) s (b ∷ payload)
