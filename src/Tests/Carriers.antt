-- ===== src/Tests/Carriers.antt =====
-- internal/core/packetizer with carriers of 28 bytes.
use wg_frag_go.Common.{
  ℕ, ◌≡◌, refl, true, List, [], ◌∷◌, ◌++◌, Option, none, replicate, arith, pos, ok, err, ◌⊎◌,
}
use wg_frag_go.Carrier.Record.{Record}
use wg_frag_go.Carrier.Record.RoundTrip.{encode}
use wg_frag_go.Fragment.{Metadata}
use wg_frag_go.Packetizer.{Packetizer, add, init, pending, PacketizerError}
use wg_frag_go.Packetizer.Pack.{Ready, Emitter, Packs}
use wg_frag_go.Packetizer.Add.{IsCut, Packable, add-Packs}
use wg_frag_go.Packetizer.Init.{IsConfig, init-cases}

-- An emitter that keeps what it is given.
abbrev collect : List (List ℕ) → List ℕ → List (List ℕ) × Option ℕ
collect s x = (s ++ (x ∷ []), none)

collect-Emitter : Emitter collect
collect-Emitter = record { payloads = λ s. s; accepts = λ s x. refl; keeps = λ s x. refl }

abbrev first_record : Record
first_record = record {
  header = record {
    fragment_index = 0;
    fragment_count = 1;
    lane_id = 1;
    data_session_id = 5;
    lane_sequence = 8;
    offset = 0;
  };
  content = 7 ∷ [];
}

abbrev part_full : Packetizer
part_full = record {
  buffer = encode first_record.header first_record.content ++ replicate 15 0;
  used = 13;
  config = record { carrier_payload = pos 28; min_pack = pos 1 };
  valid = true;
}

abbrev thirty_bytes : List ℕ
thirty_bytes = replicate 30 9

abbrev lane_metadata : Metadata
lane_metadata = record { data_session_id = 5; lane_id = 1; lane_sequence = 9 }

part_full-Ready : Ready part_full
part_full-Ready = record {
  valid = refl;
  used_le = omega arith;
  payload_eq = refl;
  size_gt = omega arith;
  size_le = omega arith;
}

thirty_bytes-Packable : Packable 28 thirty_bytes lane_metadata
thirty_bytes-Packable = record {
  nonempty = omega arith;
  len_le = omega arith;
  metadata = record {
    session_pos = omega arith;
    session_lt = omega arith;
    lane_lt = omega arith;
    sequence_lt = omega arith;
  };
  few = omega arith;
}

add-Packs_example :
    (fs : List Record) × IsCut 28 thirty_bytes fs
    × Packs collect collect-Emitter part_full []
        (first_record ∷ [])
        fs
        (add collect part_full [] thirty_bytes lane_metadata)
add-Packs_example =
    add-Packs collect collect-Emitter part_full [] (first_record ∷ []) thirty_bytes lane_metadata 0
      part_full-Ready refl refl thirty_bytes-Packable

init-cases_example :
    (IsConfig part_full.config part_full.buffer
      × ((q : Packetizer) × (init {E = ℕ} part_full part_full.buffer part_full.config true ≡ ok q)
          × Ready q
          × (q.config ≡ part_full.config)
          × (pending q ≡ [])))
    ⊎ (¬ IsConfig part_full.config part_full.buffer
        × ((e : PacketizerError ℕ) × (init {E = ℕ} part_full part_full.buffer part_full.config true
              ≡ err e)))
init-cases_example = init-cases part_full part_full.buffer part_full.config
