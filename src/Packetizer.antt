-- ===== src/Packetizer.antt =====
-- internal/core/packetizer/packetizer.go: pack DATA records into one carrier buffer.
-- The emitter is a parameter: from its state and a payload, its new state and perhaps an error. A
-- call returns the packetizer and the emitter's state also when it fails. The descriptor array, of
-- which the source clears the aliases, is not kept from one call to the next.
pub mod Pack
pub mod Add
pub mod Init
use wg_frag_go.Common.{
  ℕ, zero, suc, ◌+◌, ◌-◌, min, Bool, true, false, ◌&&◌, ◌||◌, not, List, [], ◌∷◌, ◌++◌, Option,
  none, some, Result, ok, err, ltb, leb, ◌==◌, if◌then◌else◌, length, take, drop, ℤ, pos, pos_part,
  ltb_ℤ, leb_ℤ,
}
use wg_frag_go.Limits.{max_fragments}
use wg_frag_go.Carrier.Errors.{CarrierError}
use wg_frag_go.Carrier.Record.{Header, Record, header_size, max_uint16, marshal_to}
use wg_frag_go.Fragment.{Fragment, FragmentError, Metadata, SplitResult, split}

pub record Config : Type 0 where
  pub carrier_payload : ℤ
  pub min_pack : ℤ

pub data PacketizerError {ℓ} (E : Type ℓ) : Type ℓ where
  payload_error pack_error no_emitter uninitialized : PacketizerError E
  from_split : FragmentError → PacketizerError E
  from_record : CarrierError → PacketizerError E
  from_emitter : E → PacketizerError E

pub record Packetizer : Type 0 where
  pub buffer : List ℕ
  pub used : ℕ
  pub config : Config
  pub valid : Bool

-- `Init` with an emitter, or with nil.
unfoldable pub init {ℓ} :
    {E : Type ℓ} → Packetizer → List ℕ → Config → Bool → Result (PacketizerError E) Packetizer
init p buffer config has_emitter =
    if leb_ℤ config.carrier_payload (pos header_size)
      || ltb_ℤ (pos max_uint16) config.carrier_payload
      || ltb_ℤ (pos (length buffer)) config.carrier_payload
    then err payload_error
    else (if ltb_ℤ config.min_pack (pos 1)
        then err pack_error
        else (if not has_emitter
            then err no_emitter
            else ok (record {
              buffer = take (pos_part config.carrier_payload) buffer;
              used = 0;
              config = config;
              valid = true;
            })))

unfoldable pub reset : Packetizer → Packetizer
reset p = record p { used = 0 }

-- The bytes that the next `Flush` emits.
abbrev pub pending : Packetizer → List ℕ
pending p = take p.used p.buffer

-- `Split` for a carrier with this much room left.
abbrev pub split_for : Packetizer → List ℕ → Metadata → ℕ → Result FragmentError SplitResult
split_for p packet metadata remaining =
    split packet metadata
      (record {
        carrier_payload = p.config.carrier_payload;
        carrier_remaining = pos remaining;
        min_pack = p.config.min_pack;
      })
      max_fragments

module _ {ℓ κ} {S : Type ℓ} {E : Type κ} (emit : S → List ℕ → S × Option E) where
  abbrev pub After : Type (ℓ ⊔ κ)
  After = (Packetizer × S) × Option (PacketizerError E)

  unfoldable pub flush : Packetizer → S → After
  flush p s =
      if not p.valid
      then ((p, s), some uninitialized)
      else (if p.used == 0 then ((p, s), none) else elim (emit s (pending p)).1 [
        | some e ↦ ((p, (emit s (pending p)).0), some (from_emitter e))
        | none ↦ ((record p { used = 0 }, (emit s (pending p)).0), none)
      ])

  -- `MarshalTo` behind what is pending.
  unfoldable pub append_record : Packetizer → S → Fragment → After
  append_record p s f = elim (marshal_to (drop p.used p.buffer) f.header f.content) [
    | err e ↦ ((p, s), some (from_record e))
    | ok (written, tail) ↦
        ((record p { buffer = pending p ++ tail; used = p.used + written }, s), none)
  ]

  -- One round of the loop of `Add`.
  unfoldable pub write_one : Packetizer → S → Fragment → After
  write_one p s f =
      if ltb (length p.buffer - p.used) (header_size + length f.content)
      then elim (flush p s).1 [
        | some e ↦ ((flush p s).0, some e)
        | none ↦ append_record (flush p s).0.0 (flush p s).0.1 f
      ]
      else append_record p s f

  unfoldable pub write_all : Packetizer → S → List Fragment → After
  write_all p s [] = ((p, s), none)
  write_all p s (f ∷ fs) = elim (write_one p s f).1 [
    | some e ↦ ((write_one p s f).0, some e)
    | none ↦ write_all (write_one p s f).0.0 (write_one p s f).0.1 fs
  ]

  abbrev pub split_and_write : Packetizer → S → Result FragmentError SplitResult → After
  split_and_write p s (err e) = ((p, s), some (from_split e))
  split_and_write p s (ok r) = write_all p s r.fragments

  unfoldable pub add : Packetizer → S → List ℕ → Metadata → After
  add p s packet metadata =
      if not p.valid
      then ((p, s), some uninitialized)
      else elim (split_for p packet metadata (length p.buffer - p.used)) [
        | err e ↦ ((p, s), some (from_split e))
        | ok r ↦
            if not r.start_in_tail && not (p.used == 0)
            then elim (flush p s).1 [
              | some e ↦ ((flush p s).0, some e)
              | none ↦
                  split_and_write (flush p s).0.0 (flush p s).0.1
                    (split_for (flush p s).0.0 packet metadata (length (flush p s).0.0.buffer))
            ]
            else write_all p s r.fragments
      ]
