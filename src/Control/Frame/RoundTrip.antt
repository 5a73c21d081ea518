-- ===== src/Control/Frame/RoundTrip.antt =====
-- internal/core/control/frame.go: what `Parse` accepts, and that it reads what `MarshalTo` writes.
use wg_frag_go.Common.{
  ℕ, suc, ◌+◌, ◌-◌, ◌*◌, ◌≤◌, ◌≡◌, ◌↔◌, refl, sym, ap, ◌∙◌, inl, inr, Bool-cases, true, false, List,
  [], ◌∷◌, ◌++◌, ok, ltb, ◌==◌, length, take, drop, overwrite, overwrite-le, take-append_self,
  drop-append_self, arith,
}
use wg_frag_go.Carrier.Envelope.{Source, source_bytes}
use wg_frag_go.Control.Frame.{Codec, marshal_to, write_frame, parse}

-- A frame within the limit, with its message.
pub record IsFrame (c : Codec) (frame payload : List ℕ) : Type 0 where
  pub frame_eq : frame ≡ 0 ∷ 0 ∷ 1 ∷ payload
  pub nonempty : 1 ≤ length payload
  pub fits : 3 + length payload ≤ c.max_frame_size

parse_frame :
    (c : Codec) (payload : List ℕ)
    → 1 ≤ length payload
    → 3 + length payload ≤ c.max_frame_size
    → parse c (0 ∷ 0 ∷ 1 ∷ payload) ≡ ok payload
unfolding parse
parse_frame c payload pos fits =
    let short : ltb (suc (suc (suc (length payload)))) 3 ≡ false = ground arith in
    let limit : ltb c.max_frame_size 4 ≡ false = ground arith in
    let large : ltb c.max_frame_size (suc (suc (suc (length payload)))) ≡ false = ground arith in
    let some_bytes : (suc (suc (suc (length payload))) == 3) ≡ false = ground arith in
    rw (short, limit, large, some_bytes) refl

-- The parts of a frame, when `Parse` accepts it.
parse-parts :
    (c : Codec) (a b v : ℕ) (rest payload : List ℕ)
    → parse c (a ∷ b ∷ v ∷ rest) ≡ ok payload
    → ((a * 256 + b == 0) ≡ true)
      × ((v == 1) ≡ true)
      × (ltb c.max_frame_size (suc (suc (suc (length rest)))) ≡ false)
      × ((suc (suc (suc (length rest))) == 3) ≡ false)
      × (rest ≡ payload)
unfolding parse
parse-parts c a b v rest payload e =
    let long : ltb (suc (suc (suc (length rest)))) 3 ≡ false = ground arith in
    elim (Bool-cases (a * 256 + b == 0)) [
      | inr bad ↦ absurd (ground arith)
      | inl marked ↦ elim (Bool-cases (v == 1)) [
        | inr bad ↦ absurd (ground arith)
        | inl version ↦ elim (Bool-cases (ltb c.max_frame_size 4)) [
          | inl bad ↦ absurd (ground arith)
          | inr limit ↦ elim (Bool-cases (ltb c.max_frame_size (suc (suc (suc (length rest)))))) [
            | inl bad ↦ absurd (ground arith)
            | inr fits ↦ elim (Bool-cases (suc (suc (suc (length rest))) == 3)) [
              | inl bad ↦ absurd (ground arith)
              | inr more ↦ (marked, version, fits, more, ground arith)
            ]
          ]
        ]
      ]
    ]

parse-bytes :
    (c : Codec) (a b v : ℕ) (rest payload : List ℕ)
    → parse c (a ∷ b ∷ v ∷ rest) ≡ ok payload
    → IsFrame c (a ∷ b ∷ v ∷ rest) payload
parse-bytes c a b v rest payload e =
    let (marked, version, fits, more, same) = parse-parts c a b v rest payload e in
    let len : length rest ≡ length payload = ap length same in
    let a0 : a ≡ 0 = ground arith in
    let b0 : b ≡ 0 = ground arith in
    let v1 : v ≡ 1 = ground arith in
    record { frame_eq = rw (a0, b0, v1, same) refl; nonempty = ground arith; fits = ground arith }

parse-short :
    (c : Codec) (frame payload : List ℕ) → length frame ≤ 2 → ¬ (parse c frame ≡ ok payload)
unfolding parse
parse-short c frame payload h e =
    let short : ltb (length frame) 3 ≡ true = ground arith in absurd (ground arith)

parse-accepted :
    (c : Codec) (frame payload : List ℕ) → parse c frame ≡ ok payload → IsFrame c frame payload
parse-accepted c [] payload e = absurd (parse-short c [] payload (omega arith) e)
parse-accepted c (a ∷ []) payload e = absurd (parse-short c (a ∷ []) payload (omega arith) e)
parse-accepted c (a ∷ b ∷ []) payload e =
    absurd (parse-short c (a ∷ b ∷ []) payload (omega arith) e)
parse-accepted c (a ∷ b ∷ v ∷ rest) payload e = parse-bytes c a b v rest payload e

-- `Parse` accepts exactly the frames with the marker, the version and a message that is not empty, within the limit, and
-- returns the message.
pub parse-IsFrame :
    (c : Codec) (frame payload : List ℕ) → (parse c frame ≡ ok payload) ↔ IsFrame c frame payload
parse-IsFrame c frame payload = (
  parse-accepted c frame payload,
  λ v. ap (parse c) v.frame_eq ∙ parse_frame c payload v.nonempty v.fits,
)

write_frame_lem :
    (a b v : ℕ) (rest : List ℕ) (payload : Source)
    → write_frame (a ∷ b ∷ v ∷ rest) payload
      ≡ 0 ∷ 0 ∷ 1 ∷ overwrite (source_bytes payload (a ∷ b ∷ v ∷ rest)) rest
unfolding write_frame
write_frame_lem a b v rest payload = refl

take_frame : (n a b v : ℕ) (xs : List ℕ) → take (3 + n) (a ∷ b ∷ v ∷ xs) ≡ a ∷ b ∷ v ∷ take n xs
take_frame n a b v xs =
    ap (λ k. take k (a ∷ b ∷ v ∷ xs)) {x = 3 + n} {y = suc (suc (suc n))} (omega arith)

drop_frame : (n a b v : ℕ) (xs : List ℕ) → drop (3 + n) (a ∷ b ∷ v ∷ xs) ≡ drop n xs
drop_frame n a b v xs =
    ap (λ k. drop k (a ∷ b ∷ v ∷ xs)) {x = 3 + n} {y = suc (suc (suc n))} (omega arith)

-- A frame that was written, with what follows it in the buffer.
pub record Frames (c : Codec) (dst : List ℕ) (payload : Source) : Type 0 where
  pub out : List ℕ
  pub out_eq : marshal_to c dst payload ≡ ok (3 + length (source_bytes payload dst), out)
  pub parsed :
      parse c (take (3 + length (source_bytes payload dst)) out) ≡ ok (source_bytes payload dst)
  pub rest_eq :
      drop (3 + length (source_bytes payload dst)) out
      ≡ drop (3 + length (source_bytes payload dst)) dst

-- `MarshalTo` writes each message that is not empty and within the limit into a buffer with room for it, also where the
-- message lies in that buffer; `Parse` reads the message back, and the rest of the buffer is left alone.
pub marshal_to-Frames :
    (c : Codec) (dst : List ℕ) (payload : Source)
    → 1 ≤ length (source_bytes payload dst)
    → 3 + length (source_bytes payload dst) ≤ c.max_frame_size
    → 3 + length (source_bytes payload dst) ≤ length dst
    → Frames c dst payload
unfolding marshal_to
marshal_to-Frames c [] payload pos fits room = absurd (omega arith)
marshal_to-Frames c (a ∷ []) payload pos fits room = absurd (omega arith)
marshal_to-Frames c (a ∷ b ∷ []) payload pos fits room = absurd (omega arith)
marshal_to-Frames c (a ∷ b ∷ v ∷ rest) payload pos fits room =
    let bytes = source_bytes payload (a ∷ b ∷ v ∷ rest) in
    let some_bytes : (length bytes == 0) ≡ false = ground arith in
    let limit : ltb c.max_frame_size 4 ≡ false = ground arith in
    let small : ltb (c.max_frame_size - 3) (length bytes) ≡ false = ground arith in
    let space : ltb (suc (suc (suc (length rest)))) (3 + length bytes) ≡ false = ground arith in
    let tail : overwrite bytes rest ≡ bytes ++ drop (length bytes) rest =
      overwrite-le bytes rest (omega arith) in
    record {
      out = 0 ∷ 0 ∷ 1 ∷ overwrite bytes rest;
      out_eq = rw (some_bytes, limit, small, space, write_frame_lem a b v rest payload) refl;
      parsed =
          ap (parse c) (
            take_frame (length bytes) 0 0 1 (overwrite bytes rest)
            ∙ ap (λ x. 0 ∷ 0 ∷ 1 ∷ take (length bytes) x) tail
            ∙ ap (λ x. 0 ∷ 0 ∷ 1 ∷ x)
                (take-append_self (length bytes) bytes (drop (length bytes) rest) refl))
          ∙ parse_frame c bytes pos fits;
      rest_eq =
          drop_frame (length bytes) 0 0 1 (overwrite bytes rest)
          ∙ ap (drop (length bytes)) tail
          ∙ drop-append_self (length bytes) bytes (drop (length bytes) rest) refl
          ∙ sym (drop_frame (length bytes) a b v rest);
    }
