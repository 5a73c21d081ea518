-- ===== src/Reassembly/FromSplit.antt =====
-- internal/core/fragment and internal/core/reassembly together: the fragments of `Split` are the pieces
-- that `Accept` puts together again.
use wg_frag_go.Common.{
  ltb, ltb→lt, ap₂, ℕ, zero, suc, ◌+◌, ◌-◌, ◌≤◌, ◌<◌, ◌≡◌, refl, sym, ap, ◌∙◌, ◌⊎◌, inl, inr, Bool,
  true, false, List, [], ◌∷◌, some, ok, length, get_or, get_elem?, take, drop, get_or-take,
  get_or-drop, arith, Bool-cases, subst, pos_part,
}
use wg_frag_go.Carrier.Record.{Record}
use wg_frag_go.Fragment.{Metadata, Options, SplitResult, split}
use wg_frag_go.Fragment.Cover.{Covers}
use wg_frag_go.Fragment.Split.{split-Cut}
use wg_frag_go.Reassembly.{Key, Reassembler}
use wg_frag_go.Reassembly.Index.{slot_at}
use wg_frag_go.Reassembly.Accept.{all_present}
use wg_frag_go.Reassembly.Pieces.{IsCut}
use wg_frag_go.Reassembly.Complete.{all_present_of}
use wg_frag_go.Reassembly.Serve.{Serves, IsPieceFor, arrived, whole}
use wg_frag_go.Reassembly.Reassemble.{
  Arrivals, Timely, Arrives, Reassembles, accept_all, accept_all-Reassembles, packets, due, mark,
  mark-Arrives, mark-present,
}

-- Where the `i`th fragment starts.
abbrev pub start_of : List Record → ℕ → ℕ
start_of [] i = 0
start_of (f ∷ fs) zero = 0
start_of (f ∷ fs) (suc i) = length f.content + start_of fs i

start_of-zero : (fs : List Record) → start_of fs 0 ≡ 0
start_of-zero [] = refl
start_of-zero (f ∷ fs) = refl

module _ (packet : List ℕ) (m : Metadata) (count full : ℕ) where
  start_of-rises :
      (i offset : ℕ) (fs : List Record)
      → Covers packet m count full i offset fs
      → (j : ℕ) → j < length fs
      → start_of fs j < start_of fs (suc j)
  start_of-rises i offset [] c j h = absurd (omega arith)
  start_of-rises i offset (f ∷ fs) (p, c) zero h = omega (arith, p.nonempty)
  start_of-rises i offset (f ∷ fs) (p, c) (suc j) h =
      omega (arith, start_of-rises (i + 1) (offset + length f.content) fs c j (omega arith))

  start_of-end :
      (i offset : ℕ) (fs : List Record)
      → Covers packet m count full i offset fs
      → offset + start_of fs (length fs) ≡ length packet
  start_of-end i offset [] c = omega (arith, c.1)
  start_of-end i offset (f ∷ fs) (p, c) =
      omega (arith, start_of-end (i + 1) (offset + length f.content) fs c)

  -- The `j`th fragment.
  record AtPlace (i offset j : ℕ) (fs : List Record) (f : Record) : Type 0 where
    count_eq : f.header.fragment_count ≡ count
    index_eq : f.header.fragment_index ≡ i + j
    session_eq : f.header.data_session_id ≡ m.data_session_id
    lane_eq : f.header.lane_id ≡ m.lane_id
    sequence_eq : f.header.lane_sequence ≡ m.lane_sequence
    offset_eq : f.header.offset ≡ offset + start_of fs j
    length_eq : start_of fs j + length f.content ≡ start_of fs (suc j)
    bytes : f.content ≡ take (length f.content) (drop (offset + start_of fs j) packet)

  place_of :
      (i offset : ℕ) (fs : List Record)
      → Covers packet m count full i offset fs
      → (j : ℕ) (f : Record) → get_elem? fs j ≡ some f
      → AtPlace i offset j fs f
  place_of i offset [] c j f e = absurd (ground arith)
  place_of i offset (g ∷ fs) (p, c) zero f e =
      subst (AtPlace i offset 0 (g ∷ fs)) {x = g} {y = f} (ground arith) (record {
        count_eq = ap (λ h. h.fragment_count) p.header_eq;
        index_eq = ap (λ h. h.fragment_index) p.header_eq ∙ omega arith;
        session_eq = ap (λ h. h.data_session_id) p.header_eq;
        lane_eq = ap (λ h. h.lane_id) p.header_eq;
        sequence_eq = ap (λ h. h.lane_sequence) p.header_eq;
        offset_eq = ap (λ h. h.offset) p.header_eq ∙ omega arith;
        length_eq = omega (arith, start_of-zero fs);
        bytes = p.bytes ∙ ap (λ n. take (length g.content) (drop n packet)) (omega arith);
      })
  place_of i offset (g ∷ fs) (p, c) (suc j) f e =
      let q = place_of (i + 1) (offset + length g.content) fs c j f e in
      record {
        count_eq = q.count_eq;
        index_eq = omega (arith, q.index_eq);
        session_eq = q.session_eq;
        lane_eq = q.lane_eq;
        sequence_eq = q.sequence_eq;
        offset_eq = omega (arith, q.offset_eq);
        length_eq = omega (arith, q.length_eq);
        bytes = q.bytes ∙ ap (λ n. take (length f.content) (drop n packet)) (omega arith);
      }

-- One of the fragments.
abbrev pub IsOneOf : List Record → Record → Type 0
IsOneOf fs f = (j : ℕ) × (j < length fs) × (get_elem? fs j ≡ some f)

-- Fragments of the packet, each of which arrives before `deadline`.
abbrev pub AllFrom : List Record → ℕ → Arrivals → Type 0
AllFrom fs deadline [] = Unit
AllFrom fs deadline ((now, f) ∷ es) = (now < deadline) × IsOneOf fs f × AllFrom fs deadline es

abbrev pub KeyOf : Metadata → Key → Type 0
KeyOf m k =
    (k.data_session_id ≡ m.data_session_id)
    × (k.lane_id ≡ m.lane_id)
    × (k.lane_sequence ≡ m.lane_sequence)

module _ (packet : List ℕ) (m : Metadata) (full : ℕ) (fs : List Record)
    (c : Covers packet m (length fs) full 0 0 fs) (k : Key) (same : KeyOf m k) where
  pub fragment-IsPieceFor :
      (f : Record) → IsOneOf fs f → IsPieceFor packet (length fs) (start_of fs) k f
  fragment-IsPieceFor f (j, h, e) =
      let q = place_of packet m (length fs) full 0 0 fs c j f e in
      let index : f.header.fragment_index ≡ j = omega (arith, q.index_eq) in
      record {
        piece = record {
          count_eq = q.count_eq;
          index_lt = omega arith;
          offset_eq = q.offset_eq ∙ omega arith ∙ ap (start_of fs) (sym index);
          length_eq =
              subst (λ n. start_of fs n + length f.content ≡ start_of fs (suc n)) (sym index)
                q.length_eq;
          bytes = λ b l.
              ap (λ xs. get_or xs b 0) q.bytes
              ∙ get_or-take (length f.content) (drop (0 + start_of fs j) packet) b 0 l
              ∙ get_or-drop (0 + start_of fs j) packet b 0
              ∙ ap (λ n. get_or packet (0 + start_of fs n + b) 0) (sym index)
              ∙ ap (λ n. get_or packet n 0) (omega arith);
        };
        session_eq = q.session_eq ∙ sym same.0;
        lane_eq = q.lane_eq ∙ sym same.1;
        sequence_eq = q.sequence_eq ∙ sym same.2;
      }

  AllFrom-Timely :
      (deadline i : ℕ) (es : Arrivals)
      → AllFrom fs deadline es
      → Timely packet (length fs) (start_of fs) k i deadline es
  AllFrom-Timely deadline i [] a = tt
  AllFrom-Timely deadline i ((now, f) ∷ es) (early, one, a) =
      (early, fragment-IsPieceFor f one, AllFrom-Timely deadline i es a)

no_pieces :
    (bs : List Bool) → ((i : ℕ) → 0 ≤ i → get_or bs i false ≡ false) → all_present 0 bs ≡ true
no_pieces bs h = all_present_of 0 bs (λ i l. absurd (omega arith)) h

pub split-IsCut :
    (packet : List ℕ) (m : Metadata) (options : Options) (n : ℕ) (cut : SplitResult)
    → split packet m options n ≡ ok cut
    → 1 ≤ length cut.fragments
    → IsCut packet (length cut.fragments) (start_of cut.fragments)
split-IsCut packet m options n cut e pos =
    let fs = cut.fragments in
    let c = split-Cut packet m options n cut e in
    let full = pos_part options.carrier_payload - 12 in
    record {
      count_pos = pos;
      count_le = c.count_le;
      start_eq = start_of-zero fs;
      rises = start_of-rises packet m (length fs) full 0 0 fs c.covers;
      end_eq = omega (arith, start_of-end packet m (length fs) full 0 0 fs c.covers);
    }

-- Let a slot be found for the key of a packet that `Split` cut, with some of its fragments or none. Let any of the
-- fragments then arrive before the slot's lifetime is over, in any order and as often as they may, and each of them at
-- least once unless it was there. Then every call succeeds, and exactly one of them hands out a packet: under the key
-- and the slot's handle, with the bytes of the packet that was cut.
pub split-Reassembles :
    (packet : List ℕ) (m : Metadata) (options : Options) (n : ℕ) (cut : SplitResult) (k : Key)
    (i : ℕ) (r : Reassembler) (es : Arrivals)
    → split packet m options n ≡ ok cut
    → KeyOf m k
    → Serves packet (length cut.fragments) (start_of cut.fragments) k i r
    → all_present (length cut.fragments) (arrived i r) ≡ false
    → AllFrom cut.fragments ((slot_at r i).first_seen + r.config.lifetime) es
    → ((j : ℕ) → j < length cut.fragments → (get_or (arrived i r) j false ≡ true) ⊎ Arrives j es)
    → (out : Reassembles packet
        (length cut.fragments)
        (start_of cut.fragments)
        k
        i
        r
        es
        (accept_all r k es))
      × (packets out.results ≡ whole i (slot_at r i) packet ∷ [])
split-Reassembles packet m options n cut k i r es e same v missing all every =
    let fs = cut.fragments in
    let c = split-Cut packet m options n cut e in
    let covers = c.covers in
    let full = pos_part options.carrier_payload - 12 in
    let some_pieces : 1 ≤ length fs = elim (Bool-cases (ltb 0 (length fs))) [
      | inl pos ↦ ltb→lt _ _ pos
      | inr none_there ↦
          let zero_eq : length fs ≡ 0 = ground arith in
          let done : all_present (length fs) (arrived i r) ≡ true =
            ap (λ x. all_present x (arrived i r)) zero_eq
            ∙ no_pieces (arrived i r) (λ j l. v.holds.beyond j (omega arith)) in
          absurd (cc)
    ] in
    let pieces = split-IsCut packet m options n cut e some_pieces in
    let out =
      accept_all-Reassembles packet (length fs) (start_of fs) k i pieces r
        ((slot_at r i).first_seen + r.config.lifetime) es v refl
        (AllFrom-Timely packet m full fs covers k same
          ((slot_at r i).first_seen + r.config.lifetime) i es all) in
    let complete : all_present (length fs) (mark (arrived i r) es) ≡ true =
      all_present_of (length fs) (mark (arrived i r) es)
        (λ j l. elim (every j l) [
          | inl there ↦ mark-present j (arrived i r) es there
          | inr comes ↦
              mark-Arrives j (arrived i r) es (omega (arith, v.holds.present_size, c.count_le))
                comes
        ])
        (λ j l. ap (λ bs. get_or bs j false) (sym out.arrived_eq) ∙ out.serves.holds.beyond j l) in
    (
      out,
      out.packets_eq
          ∙ ap₂ (λ a b. due packet (length fs) (start_of fs) k i a b (whole i (slot_at r i) packet))
              missing complete,
    )
