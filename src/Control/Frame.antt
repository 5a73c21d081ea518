-- ===== src/Control/Frame.antt =====
-- internal/core/control/frame.go: one CONTROL frame, a marker, a version and a protobuf message.
-- A limit that is negative fails the checks as zero does, so it is a natural number. The payload to
-- write may lie in the destination buffer.
pub mod RoundTrip
use wg_frag_go.Common.{
  ℕ, ◌+◌, ◌-◌, not, List, [], ◌∷◌, Result, ok, err, ◌>>=◌, ◌>>◌, refuse, ltb, ◌==◌, length, get_or,
  drop, copy_at,
}
use wg_frag_go.Bytes.{put_uint16, uint16_at}
use wg_frag_go.Carrier.Envelope.{Source, source_bytes}

abbrev pub frame_header_size : ℕ
frame_header_size = 3

abbrev pub marker : ℕ
marker = 0

abbrev pub protocol_version : ℕ
protocol_version = 1

pub data FrameError : Type 0 where
  invalid_max_frame_size frame_too_short invalid_marker unsupported_version : FrameError
  empty_payload frame_too_large no_room : FrameError

pub record Codec : Type 0 where
  pub max_frame_size : ℕ

unfoldable pub new_codec : ℕ → Result FrameError Codec
new_codec max_frame_size = do
  refuse (ltb max_frame_size (frame_header_size + 1)) invalid_max_frame_size
  ok (record { max_frame_size = max_frame_size })

-- The writes of `MarshalTo`, in order.
unfoldable pub write_frame : List ℕ → Source → List ℕ
write_frame dst payload =
    let dst1 = copy_at frame_header_size (source_bytes payload dst) dst in
    let dst2 = copy_at 0 (put_uint16 marker) dst1 in copy_at 2 (protocol_version ∷ []) dst2

unfoldable pub marshal_to : Codec → List ℕ → Source → Result FrameError (ℕ × List ℕ)
marshal_to c dst payload = do
  refuse (length (source_bytes payload dst) == 0) empty_payload
  refuse (ltb c.max_frame_size (frame_header_size + 1)) invalid_max_frame_size
  refuse (ltb (c.max_frame_size - frame_header_size) (length (source_bytes payload dst)))
      frame_too_large
  let frame_size = frame_header_size + length (source_bytes payload dst)
  refuse (ltb (length dst) frame_size) no_room
  ok (frame_size, write_frame dst payload)

unfoldable pub parse : Codec → List ℕ → Result FrameError (List ℕ)
parse c frame = do
  refuse (ltb (length frame) frame_header_size) frame_too_short
  refuse (not (uint16_at frame 0 == marker)) invalid_marker
  refuse (not (get_or frame 2 0 == protocol_version)) unsupported_version
  refuse (ltb c.max_frame_size (frame_header_size + 1)) invalid_max_frame_size
  refuse (ltb c.max_frame_size (length frame)) frame_too_large
  refuse (length frame == frame_header_size) empty_payload
  ok (drop frame_header_size frame)
