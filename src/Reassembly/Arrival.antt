-- ===== src/Reassembly/Arrival.antt =====
-- reassembly.go: `Accept` of a piece of the packet that a slot is for.
use wg_frag_go.Common.{
  ℕ, suc, ◌+◌, ◌≤◌, ◌<◌, ◌≡◌, refl, sym, ap, ap₂, ◌∙◌, inl, inr, true, false, not, List, Option,
  none, some, ok, ◌==◌, length, get_or, set, length-set, arith, Bool-cases, subst,
}
use wg_frag_go.Carrier.Record.{Record}
use wg_frag_go.Reassembly.{Key, Packet, Reassembler, Slot}
use wg_frag_go.Reassembly.Index.{slot_at, is_free, find_key}
use wg_frag_go.Reassembly.Slots.{set_slot, is_assembling, expired}
use wg_frag_go.Reassembly.Accept.{
  accepted, duplicate, completed_status, outcome, validate_key, validate_record, fill, finish,
  all_present, add_fragment, accept_valid, accept, overlap_from,
}
use wg_frag_go.Reassembly.Pieces.{IsCut, Holds, off-le, fill-Holds}
use wg_frag_go.Reassembly.Complete.{overlap_from-eq-false, is_repeat-eq-true, all_present-get_or}
use wg_frag_go.Reassembly.Content.{contiguous_length-eq-some, take-buf}
use wg_frag_go.Reassembly.Lookup.{SameToLookup, find_key-set_slot}
use wg_frag_go.Reassembly.Serve.{
  slot_at_set, Serves, IsPieceFor, arrived, Takes, set_present_same, finish_accepted,
  finish_completed, closed, whole,
}

module _ (packet : List ℕ) (count : ℕ) (off : ℕ → ℕ) (cut : IsCut packet count off) (k : Key)
    (i : ℕ) (r : Reassembler) (v : Serves packet count off k i r) (f : Record)
    (p : IsPieceFor packet count off k f) where
  abbrev idx : ℕ
  idx = f.header.fragment_index

  pub valid_record : validate_record r k f ≡ ok tt
  unfolding validate_record
  valid_record =
      let rises = cut.rises idx p.piece.index_lt in
      let inside = off-le packet count off cut (suc idx) count p.piece.index_lt (omega arith) in
      let pos : 1 ≤ length f.content = omega (arith, p.piece.length_eq) in
      let end : f.header.offset + length f.content ≤ r.config.max_packet_size =
        omega (arith, p.piece.length_eq, p.piece.offset_eq, cut.end_eq, v.size_le) in
      ground (
        arith, p.session_eq, p.lane_eq, p.sequence_eq, p.piece.count_eq, p.piece.index_lt,
        cut.count_pos, cut.count_le,
      )

  pub accept_found :
      (now : ℕ) → expired r (slot_at r i) now ≡ false → accept r now k f ≡ add_fragment r i f none
  unfolding accept accept_valid
  accept_found now fresh =
      let key_ok = v.key_ok in let record_ok = valid_record in let found = v.found in ground arith

  count_same : ((slot_at r i).count == f.header.fragment_count) ≡ true
  count_same = ground (arith, v.holds.count_eq, p.piece.count_eq)

  repeated :
      get_or (arrived i r) idx false ≡ true
      → add_fragment r i f none ≡ ok (r, ok (outcome duplicate none none))
  unfolding add_fragment
  repeated there =
      rw
        (
          count_same,
          there,
          is_repeat-eq-true packet count off cut (slot_at r i) v.holds f p.piece there,
        )
        refl

  stored :
      get_or (arrived i r) idx false ≡ false
      → add_fragment r i f none ≡ finish (set_slot r i (fill (slot_at r i) f)) i none
  unfolding add_fragment
  stored gone =
      let none_overlaps : overlap_from (slot_at r i).count 0 (slot_at r i) f.header.offset
            (f.header.offset + length f.content)
          ≡ false =
        overlap_from-eq-false packet count off cut (slot_at r i) v.holds f p.piece
          (slot_at r i).count 0 (omega (arith, v.holds.count_eq)) gone in
      rw (count_same, gone, none_overlaps) refl

  abbrev filled : Slot
  filled = fill (slot_at r i) f

  abbrev with_piece : Reassembler
  with_piece = set_slot r i filled

  filled-Holds : Holds packet count off filled
  filled-Holds = fill-Holds packet count off cut (slot_at r i) f v.holds p.piece

  filled_eqs :
      (filled.state ≡ (slot_at r i).state)
      × (filled.key ≡ (slot_at r i).key)
      × (filled.detached ≡ (slot_at r i).detached)
      × (filled.first_seen ≡ (slot_at r i).first_seen)
      × (filled.generation ≡ (slot_at r i).generation)
      × (filled.present ≡ set (arrived i r) idx true)
  unfolding fill
  filled_eqs = (refl, refl, refl, refl, refl, refl)

  at_filled : slot_at with_piece i ≡ filled
  at_filled = slot_at_set r i filled v.index_lt

  at_filled-Holds : Holds packet count off (slot_at with_piece i)
  at_filled-Holds = subst (Holds packet count off) (sym at_filled) filled-Holds

  at_present : (slot_at with_piece i).present ≡ set (arrived i r) idx true
  at_present = ap (λ s. s.present) at_filled ∙ filled_eqs.5

  all_eq :
      all_present (slot_at with_piece i).count (slot_at with_piece i).present
      ≡ all_present count (set (arrived i r) idx true)
  all_eq = ap₂ all_present at_filled-Holds.count_eq at_present

  filled-SameToLookup : SameToLookup (slot_at r i) filled
  filled-SameToLookup = record {
    key_same = filled_eqs.1;
    detached_eq = filled_eqs.2;
    free_eq = ap is_free filled_eqs.0;
  }

  with_piece-found : find_key with_piece k ≡ some i
  with_piece-found = find_key-set_slot r i filled k v.index_lt filled-SameToLookup ∙ v.found

  whole_eq :
      ◌≡◌ {A = Option Packet} (some (whole i filled packet)) (some (whole i (slot_at r i) packet))
  whole_eq =
      ap₂
        (λ g key.
          some
            (record { handle = record { index = i; generation = g }; key = key; content = packet }))
        filled_eqs.4 filled_eqs.1

  absent_assembling :
      get_or (arrived i r) idx false ≡ false → is_assembling (slot_at r i).state ≡ true
  absent_assembling gone = elim (Bool-cases (all_present count (arrived i r))) [
    | inr more ↦ v.waits ∙ ap not more
    | inl all ↦ absurd (
        cc (
          all_present-get_or count (arrived i r) idx all p.piece.index_lt
            (omega (arith, v.holds.present_size, p.piece.index_lt, cut.count_le))))
  ]

  -- More pieces are to come.
  stored-Takes :
      get_or (arrived i r) idx false ≡ false
      → all_present count (set (arrived i r) idx true) ≡ false
      → Takes packet count off k i r f (finish with_piece i none)
  unfolding validate_key
  stored-Takes gone more = record {
    rest = with_piece;
    result = outcome accepted none none;
    out_eq = finish_accepted with_piece i (all_eq ∙ more);
    serves = record {
      index_lt = omega (arith, length-set r.slots i filled, v.index_lt);
      found = with_piece-found;
      active = ap (λ s. is_free s.state) at_filled ∙ ap is_free filled_eqs.0 ∙ v.active;
      holds = at_filled-Holds;
      key_ok = v.key_ok;
      size_le = v.size_le;
      waits =
          ap (λ s. is_assembling s.state) at_filled
          ∙ ap is_assembling filled_eqs.0
          ∙ absent_assembling gone
          ∙ sym (ap not (ap (all_present count) at_present ∙ more));
    };
    reports = (refl, inr (gone, inl (more, refl, refl)));
    arrived_eq = at_present;
    seen_eq = ap (λ s. s.first_seen) at_filled ∙ filled_eqs.3;
    generation_eq = ap (λ s. s.generation) at_filled ∙ filled_eqs.4;
    key_eq = ap (λ s. s.key) at_filled ∙ filled_eqs.1;
    config_eq = refl;
  }

  -- This was the last one.
  completed-Takes :
      get_or (arrived i r) idx false ≡ false
      → all_present count (set (arrived i r) idx true) ≡ true
      → Takes packet count off k i r f (finish with_piece i none)
  unfolding validate_key
  completed-Takes gone all =
      let s = slot_at with_piece i in
      let size = v.index_lt in
      let lt : i < length with_piece.slots = omega (arith, length-set r.slots i filled) in
      let all_there : all_present count s.present ≡ true =
        ap (all_present count) at_present ∙ all in
      let at_closed = slot_at_set with_piece i (closed s (length packet)) lt in
      let h = at_filled-Holds in
      record {
        rest = set_slot with_piece i (closed s (length packet));
        result = outcome completed_status (some (whole i s packet)) none;
        out_eq =
            finish_completed with_piece i (length packet) packet (all_eq ∙ all)
              (contiguous_length-eq-some packet count off cut s h all_there)
              (take-buf packet count off cut s h all_there);
        serves = record {
          index_lt = omega (arith, length-set with_piece.slots i (closed s (length packet)));
          found =
              find_key-set_slot with_piece i (closed s (length packet)) k lt (record {
                key_same = refl;
                detached_eq = refl;
                free_eq =
                    sym (ap (λ t. is_free t.state) at_filled ∙ ap is_free filled_eqs.0 ∙ v.active);
              })
              ∙ with_piece-found;
          active = ap (λ t. is_free t.state) at_closed;
          holds = subst (Holds packet count off) (sym at_closed) (record {
            count_eq = h.count_eq;
            present_size = h.present_size;
            offsets_size = h.offsets_size;
            lengths_size = h.lengths_size;
            room = h.room;
            offsets_eq = h.offsets_eq;
            lengths_eq = h.lengths_eq;
            bytes_eq = h.bytes_eq;
            beyond = h.beyond;
          });
          key_ok = v.key_ok;
          size_le = v.size_le;
          waits =
              ap (λ t. is_assembling t.state) at_closed
              ∙ sym (ap not (ap (λ t. all_present count t.present) at_closed ∙ all_there));
        };
        reports = (
          refl,
          inr (gone, inr (all, refl, ap (λ t. some (whole i t packet)) at_filled ∙ whole_eq)),
        );
        arrived_eq = ap (λ t. t.present) at_closed ∙ at_present;
        seen_eq =
            ap (λ t. t.first_seen) at_closed ∙ ap (λ t. t.first_seen) at_filled ∙ filled_eqs.3;
        generation_eq =
            ap (λ t. t.generation) at_closed ∙ ap (λ t. t.generation) at_filled ∙ filled_eqs.4;
        key_eq = ap (λ t. t.key) at_closed ∙ ap (λ t. t.key) at_filled ∙ filled_eqs.1;
        config_eq = refl;
      }

  repeated-Takes :
      get_or (arrived i r) idx false ≡ true
      → Takes packet count off k i r f (add_fragment r i f none)
  repeated-Takes there = record {
    rest = r;
    result = outcome duplicate none none;
    out_eq = repeated there;
    serves = v;
    reports = (refl, inl (there, refl, refl));
    arrived_eq = sym (set_present_same (arrived i r) idx there);
    seen_eq = refl;
    generation_eq = refl;
    key_eq = refl;
    config_eq = refl;
  }

  -- A piece of the packet under its key, before the slot's lifetime is over, is always taken: it is a duplicate exactly
  -- if it was there, the packet is handed out whole exactly if it was the last that was missing, and otherwise it is kept.
  pub accept-Takes :
      (now : ℕ)
      → expired r (slot_at r i) now ≡ false
      → Takes packet count off k i r f (accept r now k f)
  accept-Takes now fresh =
      subst (Takes packet count off k i r f) (sym (accept_found now fresh))
        (elim (Bool-cases (get_or (arrived i r) idx false)) [
          | inl there ↦ repeated-Takes there
          | inr gone ↦
              subst (Takes packet count off k i r f) (sym (stored gone))
                (elim (Bool-cases (all_present count (set (arrived i r) idx true))) [
                  | inl all ↦ completed-Takes gone all
                  | inr more ↦ stored-Takes gone more
                ])
        ])
