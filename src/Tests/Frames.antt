-- ===== src/Tests/Frames.antt =====
-- internal/core/control and internal/core/lane at short inputs.
use wg_frag_go.Common.{ℕ, ◌+◌, ◌≡◌, ◌↔◌, refl, List, [], ◌∷◌, ◌++◌, ok, replicate, arith}
use wg_frag_go.Carrier.Envelope.{within}
use wg_frag_go.Control.Frame.{Codec, marshal_to, write_frame, parse}
use wg_frag_go.Control.Frame.RoundTrip.{Frames, marshal_to-Frames, IsFrame, parse-IsFrame}
use wg_frag_go.Lane.{Classifier}
use wg_frag_go.Lane.Flow.{Flow}

abbrev codec : Codec
codec = record { max_frame_size = 16 }

-- The message is the first two bytes of the buffer.
abbrev buffer : List ℕ
buffer = 10 ∷ 20 ∷ 30 ∷ 40 ∷ 50 ∷ 60 ∷ []

overlaps : marshal_to codec buffer (within 0 2) ≡ ok (5, 0 ∷ 0 ∷ 1 ∷ 10 ∷ 20 ∷ 60 ∷ [])
unfolding marshal_to write_frame
overlaps = refl

marshal_to-Frames_example : Frames codec buffer (within 0 2)
marshal_to-Frames_example =
    marshal_to-Frames codec buffer (within 0 2) (omega arith) (omega arith) (omega arith)

parse-IsFrame_example :
    (parse codec (0 ∷ 0 ∷ 1 ∷ 9 ∷ []) ≡ ok (9 ∷ [])) ↔ IsFrame codec (0 ∷ 0 ∷ 1 ∷ 9 ∷ []) (9 ∷ [])
parse-IsFrame_example = parse-IsFrame codec (0 ∷ 0 ∷ 1 ∷ 9 ∷ []) (9 ∷ [])

-- TCP from 10.0.0.1 to 10.0.0.2, ports 1000 and 80.
abbrev segment : List ℕ
segment =
    69 ∷ replicate 8 0
    ++ 6 ∷ 0 ∷ 0 ∷ 10 ∷ 0 ∷ 0 ∷ 1 ∷ 10 ∷ 0 ∷ 0 ∷ 2 ∷ 3 ∷ 232 ∷ 0 ∷ 80 ∷ replicate 16 0

abbrev segment_bytes : List ℕ
segment_bytes = 10 ∷ 0 ∷ 0 ∷ 1 ∷ 10 ∷ 0 ∷ 0 ∷ 2 ∷ 6 ∷ 3 ∷ 232 ∷ 0 ∷ 80 ∷ []

-- It in a VXLAN frame, from 10.0.0.3 to 10.0.0.4.
abbrev frame_payload : List ℕ
frame_payload = 0 ∷ 100 ∷ 18 ∷ 181 ∷ replicate 24 0 ++ 8 ∷ 0 ∷ segment

abbrev tunnel : List ℕ
tunnel = 69 ∷ replicate 8 0 ++ 17 ∷ 0 ∷ 0 ∷ 10 ∷ 0 ∷ 0 ∷ 3 ∷ 10 ∷ 0 ∷ 0 ∷ 4 ∷ frame_payload

-- UDP over IPv6 behind a header of hop-by-hop options, ports 9 and 53.
abbrev query : List ℕ
query =
    96 ∷ replicate 5 0 ++ 0 ∷ 64 ∷ replicate 32 7 ++ 17 ∷ 0 ∷ replicate 6 0 ++ 0 ∷ 9 ∷ 0 ∷ 53 ∷ []

abbrev add_bytes : List ℕ → ℕ
add_bytes [] = 0
add_bytes (b ∷ bs) = b + add_bytes bs

abbrev classifier : Classifier
classifier = record { hash = add_bytes; depth = 1 }
