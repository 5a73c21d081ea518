-- ===== src/Carrier/Record/RoundTrip.antt =====
-- record.go: `MarshalTo` and `DecodeRecord` undo one another.
use wg_frag_go.Common.{
  ℕ, ◌+◌, ◌-◌, ◌*◌, ◌/◌, ◌%◌, ◌≤◌, ◌<◌, ◌≡◌, refl, sym, ap, ap₂, ◌∙◌, bit_or, true, List, [], ◌∷◌,
  ◌++◌, ok, ◌==◌, ==_iff, passes, passes_at, arith, length, length-append, length-drop, length-take,
  take, drop, take-append_self, drop-append_self, take-length_le, take-take-drop, concat, copy_all,
  copy_all_lem, append-nil,
}
use wg_frag_go.Bytes.{
  IsBytes, put_uint16, put_uint32, uint16_at, get_or-lt-256, take-eq-read_from, read_from,
}
use wg_frag_go.Carrier.Record.{
  Header, Record, header_size, max_uint16, validate, fragment_byte, write_record, marshal_to,
  decode_header, decode_record,
}

-- The ranges of Go's field types.
pub record IsHeader (h : Header) : Type 0 where
  pub index : h.fragment_index < 256
  pub count : h.fragment_count < 256
  pub lane : h.lane_id < 256
  pub session : h.data_session_id < 65536
  pub sequence : h.lane_sequence < 4294967296
  pub range : h.offset < 65536

-- What `validate` accepts.
pub record IsValid (h : Header) (data_len : ℕ) : Type 0 where
  pub count_pos : 1 ≤ h.fragment_count
  pub count_le : h.fragment_count ≤ 16
  pub index_lt : h.fragment_index < h.fragment_count
  pub session_ne : 1 ≤ h.data_session_id
  pub len_pos : 1 ≤ data_len
  pub len_le : data_len ≤ max_uint16 - header_size
  pub end_le : h.offset + data_len ≤ max_uint16

pub validate-ok_IsValid : (h : Header) (n : ℕ) → validate h n ≡ ok tt → IsValid h n
unfolding validate
validate-ok_IsValid h n e = ground arith

pub validate-eq-ok : (h : Header) (n : ℕ) → IsValid h n → validate h n ≡ ok tt
unfolding validate
validate-eq-ok h n v = ground arith

-- The first two bytes, the fragment byte and so on, as one list.
abbrev pub encode_header : Header → ℕ → List ℕ
encode_header h record_len =
    (record_len / 256 % 256)
    ∷ (record_len % 256)
    ∷ (h.fragment_index * 16 + h.fragment_count - 1)
    ∷ h.lane_id
    ∷ (h.data_session_id / 256 % 256)
    ∷ (h.data_session_id % 256)
    ∷ (h.lane_sequence / 16777216 % 256)
    ∷ (h.lane_sequence / 65536 % 256)
    ∷ (h.lane_sequence / 256 % 256)
    ∷ (h.lane_sequence % 256)
    ∷ (h.offset / 256 % 256)
    ∷ (h.offset % 256)
    ∷ []

-- The wire form of a record.
abbrev pub encode : Header → List ℕ → List ℕ
encode h content = encode_header h (header_size + length content) ++ content

pub length-encode :
    (h : Header) (content : List ℕ) → length (encode h content) ≡ 12 + length content
length-encode h content = omega arith

tag_table :
    passes (λ i. passes (λ c. bit_or (i * 16 % 256) ((c + 256) % 256) == i * 16 + c) 16) 16 ≡ true
unfolding passes
tag_table = refl

tag : (i c : ℕ) → i < 16 → c < 16 → bit_or (i * 16 % 256) ((c + 256) % 256) ≡ i * 16 + c
tag i c hi hc = (==_iff _ _).0 (passes_at _ 16 c hc (passes_at _ 16 i hi tag_table))

fragment_byte_lem :
    (h : Header) (n : ℕ)
    → IsValid h n
    → fragment_byte h ≡ h.fragment_index * 16 + h.fragment_count - 1
unfolding fragment_byte
fragment_byte_lem h n v =
    ap (bit_or (h.fragment_index * 16 % 256)) {y = (h.fragment_count - 1 + 256) % 256} (omega arith)
    ∙ tag h.fragment_index (h.fragment_count - 1) (omega arith) (omega arith)
    ∙ omega arith

-- What `MarshalTo` writes, write by write.
abbrev chunks : Header → List ℕ → List (List ℕ)
chunks h content =
    put_uint16 ((12 + length content) % 65536)
    ∷ (fragment_byte h ∷ [])
    ∷ (h.lane_id ∷ [])
    ∷ put_uint16 h.data_session_id
    ∷ put_uint32 h.lane_sequence
    ∷ put_uint16 h.offset
    ∷ take (12 + length content - 12) content
    ∷ []

write_record-eq-copy_all :
    (dst : List ℕ) (h : Header) (content : List ℕ)
    → write_record dst h content (12 + length content) ≡ copy_all 0 (chunks h content) dst
unfolding write_record
write_record-eq-copy_all dst h content = refl

concat-chunks :
    (h : Header) (content : List ℕ)
    → IsValid h (length content)
    → concat (chunks h content) ≡ encode h content
concat-chunks h content v =
    rw
      (
        fragment_byte_lem h (length content) v,
        append-nil,
        take-length_le (12 + length content - 12) content (omega arith),
      )
      (ground arith)

-- The chain of writes puts the wire form in front of what the buffer held.
write_record_lem :
    (dst : List ℕ) (h : Header) (content : List ℕ)
    → IsValid h (length content)
    → 12 + length content ≤ length dst
    → write_record dst h content (12 + length content)
      ≡ encode h content ++ drop (12 + length content) dst
write_record_lem dst h content v room =
    write_record-eq-copy_all dst h content
    ∙ copy_all_lem (chunks h content) (encode h content) dst (concat-chunks h content v)
        (omega arith)
    ∙ ap (λ k. encode h content ++ drop k dst) {x = length (encode h content)} (omega arith)

pub marshal_to_lem :
    (dst : List ℕ) (h : Header) (content : List ℕ)
    → IsValid h (length content)
    → 12 + length content ≤ length dst
    → marshal_to dst h content
      ≡ ok (12 + length content, encode h content ++ drop (12 + length content) dst)
unfolding marshal_to
marshal_to_lem dst h content v room =
    ground (arith, validate-eq-ok h (length content) v, write_record_lem dst h content v room)

-- A valid record decodes from its wire form, whatever follows it.
decode_header-encode :
    (h : Header) (content rest : List ℕ)
    → IsHeader h
    → IsValid h (length content)
    → decode_header (encode h content ++ rest) ≡ h
unfolding decode_header
decode_header-encode h content rest w v = ground arith

pub decode_record-encode :
    (h : Header) (content rest : List ℕ)
    → IsHeader h
    → IsValid h (length content)
    → decode_record (encode h content ++ rest)
      ≡ ok (record { header = h; content = content }, 12 + length content)
unfolding decode_record
decode_record-encode h content rest w v = ground (
  arith,
  decode_header-encode h content rest w v,
  validate-eq-ok h (length content) v,
  take-append_self (length content) content rest refl,
  length-append content rest,
)

-- `MarshalTo` succeeds on every valid record that has room, keeps the buffer behind the record,
-- and `DecodeRecord` gives the record back from the buffer.
pub marshal_then_decode :
    (dst : List ℕ) (h : Header) (content : List ℕ)
    → IsHeader h
    → validate h (length content) ≡ ok tt
    → 12 + length content ≤ length dst
    → (out : List ℕ) × (marshal_to dst h content ≡ ok (12 + length content, out))
      × (decode_record out ≡ ok (record { header = h; content = content }, 12 + length content))
      × (length out ≡ length dst)
      × (drop (12 + length content) out ≡ drop (12 + length content) dst)
marshal_then_decode dst h content w e room =
    let n : ℕ = 12 + length content in
    let v : IsValid h (length content) = validate-ok_IsValid h (length content) e in
    (
      encode h content ++ drop n dst,
      marshal_to_lem dst h content v room,
      decode_record-encode h content (drop n dst) w v,
      omega (
        arith,
        length-append (encode h content) (drop n dst),
        length-encode h content,
        length-drop n dst,
      ),
      drop-append_self n (encode h content) (drop n dst) (length-encode h content),
    )

-- What an accepted prefix consists of.
pub record Decoded (src : List ℕ) (r : Record) (n : ℕ) : Type 0 where
  pub header_ok : IsHeader r.header
  pub valid : IsValid r.header (length r.content)
  pub size : n ≡ 12 + length r.content
  pub within : n ≤ length src
  pub bytes : encode r.header r.content ≡ take n src

record Parts (src : List ℕ) (r : Record) (n : ℕ) : Type 0 where
  room : 12 ≤ length src
  size : n ≡ uint16_at src 0
  size_ge : 13 ≤ n
  within : n ≤ length src
  head : r.header ≡ decode_header src
  rest : r.content ≡ take (n - 12) (drop 12 src)
  checked : validate r.header (length r.content) ≡ ok tt

decode_record-Parts :
    (src : List ℕ) (r : Record) (n : ℕ) → decode_record src ≡ ok (r, n) → Parts src r n
unfolding decode_record
decode_record-Parts src r n e = ground arith

-- The header's twelve bytes are what the decoder read.
encode_header-decode_header :
    (src : List ℕ)
    → IsBytes src
    → encode_header (decode_header src) (uint16_at src 0) ≡ read_from 12 0 src
unfolding decode_header
encode_header-decode_header src b = ground (
  arith,
  get_or-lt-256 src 0 b,
  get_or-lt-256 src 1 b,
  get_or-lt-256 src 2 b,
  get_or-lt-256 src 4 b,
  get_or-lt-256 src 5 b,
  get_or-lt-256 src 6 b,
  get_or-lt-256 src 7 b,
  get_or-lt-256 src 8 b,
  get_or-lt-256 src 9 b,
  get_or-lt-256 src 10 b,
  get_or-lt-256 src 11 b,
)

decode_header-IsHeader : (src : List ℕ) → IsBytes src → IsHeader (decode_header src)
unfolding decode_header
decode_header-IsHeader src b = record {
  index = omega (arith, get_or-lt-256 src 2 b);
  count = omega arith;
  lane = get_or-lt-256 src 3 b;
  session = omega (arith, get_or-lt-256 src 4 b, get_or-lt-256 src 5 b);
  sequence = omega (
    arith,
    get_or-lt-256 src 6 b,
    get_or-lt-256 src 7 b,
    get_or-lt-256 src 8 b,
    get_or-lt-256 src 9 b,
  );
  range = omega (arith, get_or-lt-256 src 10 b, get_or-lt-256 src 11 b);
}

Parts-Decoded : {src : List ℕ} {r : Record} {n : ℕ} → IsBytes src → Parts src r n → Decoded src r n
Parts-Decoded {src} {r} {n} b p = record {
  header_ok = rw p.head (decode_header-IsHeader src b);
  valid = validate-ok_IsValid r.header (length r.content) p.checked;
  size = size;
  within = p.within;
  bytes = bytes;
}
  where
    size : n ≡ 12 + length r.content
    size = omega (
      arith,
      ap length p.rest,
      p.within,
      p.size_ge,
      length-take (n - 12) (drop 12 src),
      length-drop 12 src,
    )

    start : encode_header r.header (12 + length r.content) ≡ take 12 src
    start =
        ap₂ encode_header p.head (sym size ∙ p.size)
        ∙ encode_header-decode_header src b
        ∙ sym (take-eq-read_from 12 src p.room)

    bytes : encode r.header r.content ≡ take n src
    bytes =
        ap₂ ◌++◌ start p.rest
        ∙ take-take-drop 12 (n - 12) src
        ∙ ap (λ k. take k src) {x = 12 + (n - 12)} (omega (arith, p.size_ge))

-- What `DecodeRecord` accepts is a valid header in range with its content, and encoding it again
-- gives the very bytes that were consumed; so no two byte strings decode to one record.
pub decode_record-Decoded :
    (src : List ℕ) (r : Record) (n : ℕ)
    → IsBytes src
    → decode_record src ≡ ok (r, n)
    → Decoded src r n
decode_record-Decoded src r n b e = Parts-Decoded b (decode_record-Parts src r n e)

-- The bytes that one step of `Parse` takes off.
pub decode_size :
    (src : List ℕ) (r : Record) (n : ℕ)
    → decode_record src ≡ ok (r, n)
    → (13 ≤ n) × (n ≤ length src)
decode_size src r n e = let p = decode_record-Parts src r n e in (p.size_ge, p.within)
