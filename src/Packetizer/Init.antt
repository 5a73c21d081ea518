-- ===== src/Packetizer/Init.antt =====
-- packetizer.go: `Init`.
use wg_frag_go.Common.{
  Bool-cases, leb_ℤ, ltb_ℤ, ◌||◌, negsuc, sym, ap, ◌∙◌, ℕ, ◌≤◌, ◌<◌, ◌≡◌, refl, ◌⊎◌, inl, inr, true,
  List, [], ok, err, length, take, ℤ, pos, pos_part, arith, length-take,
}
use wg_frag_go.Carrier.Record.{header_size, max_uint16}
use wg_frag_go.Packetizer.{
  payload_error, pack_error, Packetizer, Config, PacketizerError, init, pending,
}
use wg_frag_go.Packetizer.Pack.{Ready}

-- The carrier holds a record and no more than a 16-bit length says, and the buffer holds the carrier.
abbrev pub IsConfig : Config → List ℕ → Type 0
IsConfig c buffer =
    (12 < pos_part c.carrier_payload)
    × (pos_part c.carrier_payload ≤ 65535)
    × (pos_part c.carrier_payload ≤ length buffer)
    × (1 ≤ pos_part c.min_pack)

abbrev fresh : List ℕ → Config → Packetizer
fresh buffer c = record {
  buffer = take (pos_part c.carrier_payload) buffer;
  used = 0;
  config = c;
  valid = true;
}

pos_of : (z : ℤ) → 0 < pos_part z → z ≡ pos (pos_part z)
pos_of (pos n) h = refl
pos_of (negsuc n) h = absurd (omega arith)

module _ {ℓ} {E : Type ℓ} (p : Packetizer) (buffer : List ℕ) (c : Config) where
  init_ok : IsConfig c buffer → init {E = E} p buffer c true ≡ ok (fresh buffer c)
  unfolding init
  init_ok is = ground arith

  init_err : ¬ IsConfig c buffer → (e : PacketizerError E) × (init {E = E} p buffer c true ≡ err e)
  unfolding init
  init_err isnt =
      elim (Bool-cases (
        leb_ℤ c.carrier_payload (pos header_size)
        || ltb_ℤ (pos max_uint16) c.carrier_payload
        || ltb_ℤ (pos (length buffer)) c.carrier_payload)) [
          | inl bad ↦ (payload_error, rw (bad, init))
          | inr fine ↦
              let small : ltb_ℤ c.min_pack (pos 1) ≡ true = ground arith in
              (pack_error, rw (fine, small, init))
        ]

IsConfig-Dec : (c : Config) (buffer : List ℕ) → IsConfig c buffer ⊎ ¬ IsConfig c buffer
IsConfig-Dec c buffer = ground arith

-- With an emitter, `Init` succeeds exactly when the carrier is of 13 to 65535 bytes, the buffer holds it and the
-- smallest piece to pack is positive. The packetizer is then ready, with nothing pending, whatever it was before.
pub init-cases {ℓ} :
    {E : Type ℓ} (p : Packetizer) (buffer : List ℕ) (c : Config)
    → (IsConfig c buffer
        × ((q : Packetizer) × (init {E = E} p buffer c true ≡ ok q)
            × Ready q
            × (q.config ≡ c)
            × (pending q ≡ [])))
      ⊎ (¬ IsConfig c buffer × ((e : PacketizerError E) × (init {E = E} p buffer c true ≡ err e)))
init-cases {E = E} p buffer c = elim (IsConfig-Dec c buffer) [
  | inr isnt ↦ inr (isnt, init_err p buffer c isnt)
  | inl is ↦
      let size : length (take (pos_part c.carrier_payload) buffer) ≡ pos_part c.carrier_payload =
        omega (arith, length-take (pos_part c.carrier_payload) buffer) in
      inl (
        is,
        (
          fresh buffer c,
          init_ok p buffer c is,
          record {
            valid = refl;
            used_le = omega arith;
            payload_eq = pos_of c.carrier_payload (omega (arith, is.0)) ∙ ap pos (sym size);
            size_gt = omega (arith, is.0);
            size_le = omega (arith, is.1);
          },
          refl,
          refl,
        ),
      )
]
