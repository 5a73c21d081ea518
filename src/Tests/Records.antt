-- ===== src/Tests/Records.antt =====
-- internal/core/carrier at concrete records.
use wg_frag_go.Common.{
  ℕ, ◌≡◌, ◌≢◌, refl, List, [], ◌∷◌, ◌++◌, Option, none, some, ok, arith, length, drop, replicate,
}
use wg_frag_go.Bytes.{IsBytes}
use wg_frag_go.Carrier.Errors.{CarrierError, header_too_short}
use wg_frag_go.Carrier.Record.{Header, Record, validate, marshal_to, decode_record, parse}
use wg_frag_go.Carrier.Record.RoundTrip.{
  IsHeader, Decoded, marshal_then_decode, decode_record-Decoded,
}
use wg_frag_go.Carrier.Record.Stream.{
  IsRecord, encode_all, Framed, parse_total, parse-encode_all, parse-Framed,
}

-- The record of TestMarshalTo in record_test.go.
abbrev header : Header
header = record {
  fragment_index = 1;
  fragment_count = 3;
  lane_id = 0x56;
  data_session_id = 0x1234;
  lane_sequence = 0x789abcde;
  offset = 0x0102;
}

abbrev content : List ℕ
content = 0xaa ∷ 0xbb ∷ 0xcc ∷ []

abbrev wire : List ℕ
wire =
    0x00 ∷ 0x0f ∷ 0x12 ∷ 0x56 ∷ 0x12 ∷ 0x34 ∷ 0x78 ∷ 0x9a ∷ 0xbc ∷ 0xde ∷ 0x01 ∷ 0x02 ∷ 0xaa ∷ 0xbb
    ∷ 0xcc ∷ []

abbrev sample : Record
sample = record { header = header; content = content }

marshal_sample : marshal_to (replicate 16 7) header content ≡ ok (15, wire ++ 7 ∷ [])
unfolding marshal_to
marshal_sample = refl

decode_sample : decode_record wire ≡ ok (sample, 15)
unfolding decode_record
decode_sample = refl

header-IsHeader : IsHeader header
header-IsHeader = omega arith

sample-IsRecord : IsRecord sample
sample-IsRecord = record { header_ok = omega arith; valid = omega arith }

wire-IsBytes : IsBytes wire
wire-IsBytes = omega arith

-- A callback that keeps the records it sees, the newest first.
abbrev collect : List Record → Record → List Record × Option CarrierError
collect seen r = (r ∷ seen, none)

abbrev as_is : CarrierError → CarrierError
as_is e = e

parse-sample : parse as_is collect [] (wire ++ wire) ≡ some (sample ∷ sample ∷ [], none)
unfolding parse decode_record
parse-sample = refl

parse_trailing : parse as_is collect [] (wire ++ 0 ∷ []) ≡ some (sample ∷ [], some header_too_short)
unfolding parse decode_record
parse_trailing = refl

header_ok : validate header 3 ≡ ok tt
unfolding validate
header_ok = refl

marshal_then_decode_example :
    (out : List ℕ) × (marshal_to (replicate 16 7) header content ≡ ok (15, out))
    × (decode_record out ≡ ok (sample, 15))
    × (length out ≡ 16)
    × (drop 15 out ≡ 7 ∷ [])
marshal_then_decode_example =
    marshal_then_decode (replicate 16 7) header content header-IsHeader header_ok (omega arith)

decode_record-Decoded_example : Decoded wire sample 15
decode_record-Decoded_example = decode_record-Decoded wire sample 15 wire-IsBytes decode_sample

parse_total_example :
    (out : List Record × Option CarrierError) × (parse as_is collect [] (0 ∷ 1 ∷ []) ≡ some out)
parse_total_example = parse_total as_is collect [] (0 ∷ 1 ∷ [])

parse-encode_all_example :
    parse as_is collect [] (encode_all (sample ∷ sample ∷ [])) ≡ some (sample ∷ sample ∷ [], none)
parse-encode_all_example =
    parse-encode_all as_is collect [] sample (sample ∷ []) (sample-IsRecord, (sample-IsRecord, tt))

parse-Framed_example :
    (wire ++ wire ≢ []) × Framed as_is collect [] (wire ++ wire) (sample ∷ sample ∷ [])
parse-Framed_example =
    parse-Framed as_is collect [] (sample ∷ sample ∷ []) (wire ++ wire) (omega arith) parse-sample
