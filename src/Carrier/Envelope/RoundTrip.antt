-- ===== src/Carrier/Envelope/RoundTrip.antt =====
-- envelope.go: what `MarshalEnvelopeTo` writes, `ParseEnvelope` reads.
use wg_frag_go.Common.{
  drop-drop, ltb, ◌==◌, ℕ, ◌+◌, ◌-◌, ◌≤◌, ◌≡◌, refl, sym, ap, ◌∙◌, true, false, List, [], ◌∷◌, ◌++◌,
  append_assoc, append-nil, ok, length, take, drop, concat, arith, length-append, length-take,
  length-drop, take-append_self, drop-append_self, take-append-drop, take-length_le, copy_at-append,
  overwrite-le, copy_all_lem, copy_all, length-copy_at, copy_at,
}
use wg_frag_go.Bytes.{put_uint16, put_uint32, uint16_at}
use wg_frag_go.Carrier.Envelope.{
  Addresses, Source, apart, source_bytes, validate_carrier_address, write_envelope,
  marshal_envelope_to, decode_envelope, parse_envelope,
}

-- Documented facts of net/netip.
pub record Laws {ℓ} {A : Type ℓ} (net : Addresses A) : Type ℓ where
  pub length16 : (a : A) → length (net.as16 a) ≡ 16
  pub from-as : (a : A) → net.is6 a ≡ true → net.zoned a ≡ false → net.from16 (net.as16 a) ≡ a
  pub same_self : (a : A) → net.same a a ≡ true

module _ {ℓ} {A : Type ℓ} (net : Addresses A) (laws : Laws net) (source destination : A) where
  -- The forty bytes of the header.
  abbrev header_bytes : ℕ → List ℕ
  header_bytes n =
      put_uint32 1610612736
      ++ (put_uint16 n ++ (253 ∷ 64 ∷ (net.as16 source ++ net.as16 destination)))

  length-header_bytes : (n : ℕ) → length (header_bytes n) ≡ 40
  length-header_bytes n = omega (
    arith,
    length-append (net.as16 source) (net.as16 destination),
    laws.length16 source,
    laws.length16 destination,
  )

  abbrev chunks : ℕ → List (List ℕ)
  chunks n =
      put_uint32 1610612736
      ∷ put_uint16 n
      ∷ (253 ∷ [])
      ∷ (64 ∷ [])
      ∷ take 16 (net.as16 source)
      ∷ take 16 (net.as16 destination)
      ∷ []

  concat-chunks : (n : ℕ) → concat (chunks n) ≡ header_bytes n
  concat-chunks n =
      rw
        (
          take-length_le 16 (net.as16 source) (omega (arith, laws.length16 source)),
          take-length_le 16 (net.as16 destination) (omega (arith, laws.length16 destination)),
          append-nil,
        )
        refl

  write_envelope-eq-copy_all :
      (dst payload : List ℕ)
      → write_envelope net dst source destination (apart payload)
        ≡ copy_all 0 (chunks (length payload)) (copy_at 40 payload dst)
  unfolding write_envelope
  write_envelope-eq-copy_all dst payload =
      ap
        (λ k. copy_at k (take 16 (net.as16 destination)) (
          copy_at 8 (take 16 (net.as16 source)) (
            copy_at 7 (64 ∷ []) (
              copy_at 6 (253 ∷ []) (
                copy_at 4 (put_uint16 (length payload))
                  (copy_at 0 (put_uint32 1610612736) (copy_at 40 payload dst)))))))
        {x = 24} {y = 8 + length (take 16 (net.as16 source))}
        (omega (arith, length-take 16 (net.as16 source), laws.length16 source))

  -- The payload stands behind the header, and then what the buffer held.
  drop-copy_at :
      (dst payload : List ℕ)
      → 40 + length payload ≤ length dst
      → drop 40 (copy_at 40 payload dst) ≡ payload ++ drop (length payload) (drop 40 dst)
  drop-copy_at dst payload room =
      let front : length (take 40 dst) ≡ 40 = omega (arith, length-take 40 dst) in
      ap (λ d. drop 40 (copy_at 40 payload d)) (sym (take-append-drop 40 dst))
      ∙ ap (drop 40) (copy_at-append 40 (take 40 dst) payload (drop 40 dst) front)
      ∙ drop-append_self 40 (take 40 dst) _ front
      ∙ overwrite-le payload (drop 40 dst) (omega (arith, length-drop 40 dst))

  write_envelope_lem :
      (dst payload : List ℕ)
      → 40 + length payload ≤ length dst
      → write_envelope net dst source destination (apart payload)
        ≡ header_bytes (length payload) ++ (payload ++ drop (length payload) (drop 40 dst))
  write_envelope_lem dst payload room =
      write_envelope-eq-copy_all dst payload
      ∙ copy_all_lem (chunks (length payload)) (header_bytes (length payload))
          (copy_at 40 payload dst) (concat-chunks (length payload))
          (omega (arith, length-copy_at 40 payload dst, length-header_bytes (length payload)))
      ∙ ap (λ k. header_bytes (length payload) ++ drop k (copy_at 40 payload dst))
          (length-header_bytes (length payload))
      ∙ ap (◌++◌ (header_bytes (length payload))) (drop-copy_at dst payload room)

  -- The packet that is written.
  abbrev envelope_bytes : List ℕ → List ℕ
  envelope_bytes payload = header_bytes (length payload) ++ payload

  module _ (payload : List ℕ) where
    source_at : take 16 (drop 8 (envelope_bytes payload)) ≡ net.as16 source
    source_at =
        ap (take 16) (append_assoc (net.as16 source) (net.as16 destination) payload)
        ∙ take-append_self 16 (net.as16 source) (net.as16 destination ++ payload)
            (laws.length16 source)

    destination_at : take 16 (drop 24 (envelope_bytes payload)) ≡ net.as16 destination
    destination_at =
        ap (λ x. take 16 (drop 16 x))
          (append_assoc (net.as16 source) (net.as16 destination) payload)
        ∙ ap (take 16) (
            drop-append_self 16 (net.as16 source) (net.as16 destination ++ payload)
              (laws.length16 source))
        ∙ take-append_self 16 (net.as16 destination) payload (laws.length16 destination)

    payload_at : drop 40 (envelope_bytes payload) ≡ payload
    payload_at =
        drop-append_self 40 (header_bytes (length payload)) payload
          (length-header_bytes (length payload))

    length-envelope_bytes : length (envelope_bytes payload) ≡ 40 + length payload
    length-envelope_bytes = omega (
      arith,
      length-append (header_bytes (length payload)) payload,
      length-header_bytes (length payload),
    )

  abbrev pub IsCarrierAddress : A → Type 0
  IsCarrierAddress a = (net.is6 a ≡ true) × (net.zoned a ≡ false)

  module _ (s6 : IsCarrierAddress source) (d6 : IsCarrierAddress destination)
      (local : net.is_link_local source ≡ true) where
    decode_envelope-envelope_bytes :
        (payload : List ℕ)
        → length payload ≤ 65535
        → decode_envelope net (envelope_bytes payload) destination
          ≡ ok (record { source = source; destination = destination; payload = payload })
    unfolding decode_envelope validate_carrier_address
    decode_envelope-envelope_bytes payload h =
        let from_source = ap net.from16 (source_at payload) ∙ laws.from-as source s6.0 s6.1 in
        let from_destination =
          ap net.from16 (destination_at payload) ∙ laws.from-as destination d6.0 d6.1 in
        let size = length-envelope_bytes payload in
        let long : ltb (length (envelope_bytes payload)) 40 ≡ false = ground arith in
        let exact : (uint16_at (envelope_bytes payload) 4 == length (envelope_bytes payload) - 40)
            ≡ true =
          ground arith in
        rw
          (
            d6.0,
            d6.1,
            long,
            exact,
            from_source,
            from_destination,
            local,
            laws.same_self destination,
            payload_at payload,
          )
          refl

    parse_envelope-envelope_bytes :
        (payload : List ℕ)
        → length payload ≤ 65535
        → parse_envelope net (envelope_bytes payload) source destination
          ≡ ok (record { source = source; destination = destination; payload = payload })
    unfolding parse_envelope validate_carrier_address
    parse_envelope-envelope_bytes payload h =
        rw (s6.0, s6.1, decode_envelope-envelope_bytes payload h, laws.same_self source) refl

    write_envelope-envelope_bytes :
        (dst payload : List ℕ)
        → 40 + length payload ≤ length dst
        → write_envelope net dst source destination (apart payload)
          ≡ envelope_bytes payload ++ drop (40 + length payload) dst
    write_envelope-envelope_bytes dst payload room =
        write_envelope_lem dst payload room
        ∙ ap (λ k. header_bytes (length payload) ++ (payload ++ k))
            (drop-drop (length payload) 40 dst)
        ∙ sym
            (append_assoc (header_bytes (length payload)) payload (drop (40 + length payload) dst))

    write_envelope-apart :
        (dst : List ℕ) (payload : Source)
        → write_envelope net dst source destination payload
          ≡ write_envelope net dst source destination (apart (source_bytes payload dst))
    unfolding write_envelope
    write_envelope-apart dst payload = refl

    marshal_envelope_lem :
        (dst : List ℕ) (payload : Source)
        → length (source_bytes payload dst) ≤ 65535
        → 40 + length (source_bytes payload dst) ≤ length dst
        → marshal_envelope_to net dst source destination payload
          ≡ ok (
            40 + length (source_bytes payload dst),
            write_envelope net dst source destination payload,
          )
    unfolding marshal_envelope_to validate_carrier_address
    marshal_envelope_lem dst payload h room =
        let small : ltb 65535 (length (source_bytes payload dst)) ≡ false = ground arith in
        let fits : ltb (length dst) (40 + length (source_bytes payload dst)) ≡ false =
          ground arith in
        rw (s6.0, s6.1, d6.0, d6.1, small, fits) refl

    -- Let both addresses be unscoped IPv6 and the source link-local. With a payload that the length field can say, and
    -- room, `MarshalEnvelopeTo` succeeds, keeps the rest of the buffer, and `ParseEnvelope` with the same addresses
    -- reads back the bytes that the payload had before the call, even where it lies in the buffer that is written.
    pub marshal_envelope_then_parse :
        (dst : List ℕ) (payload : Source)
        → length (source_bytes payload dst) ≤ 65535
        → 40 + length (source_bytes payload dst) ≤ length dst
        → (dst' : List ℕ) × (marshal_envelope_to net dst source destination payload
            ≡ ok (40 + length (source_bytes payload dst), dst'))
          × (parse_envelope net
                (take (40 + length (source_bytes payload dst)) dst')
                source
                destination
              ≡ ok (record {
                source = source;
                destination = destination;
                payload = source_bytes payload dst;
              }))
          × (drop (40 + length (source_bytes payload dst)) dst'
              ≡ drop (40 + length (source_bytes payload dst)) dst)
    marshal_envelope_then_parse dst payload h room =
        let bytes = source_bytes payload dst in
        let size = length-envelope_bytes bytes in
        let written =
          write_envelope-apart dst payload ∙ write_envelope-envelope_bytes dst bytes room in
        (
          write_envelope net dst source destination payload,
          marshal_envelope_lem dst payload h room,
          ap (λ x. parse_envelope net x source destination)
                (ap (take (40 + length bytes)) written
                  ∙ take-append_self (40 + length bytes) (envelope_bytes bytes)
                      (drop (40 + length bytes) dst) size)
              ∙ parse_envelope-envelope_bytes bytes h,
          ap (drop (40 + length bytes)) written
              ∙ drop-append_self (40 + length bytes) (envelope_bytes bytes)
                  (drop (40 + length bytes) dst) size,
        )
