-- ===== src/Fragment/Cover.antt =====
-- fragment.go: the fragments are the packet, cut without gap or overlap.
use wg_frag_go.Common.{
  ℕ, zero, suc, ◌+◌, ◌-◌, ◌*◌, ◌≤◌, ◌<◌, ◌≡◌, refl, sym, ap, ap₂, subst, ◌∙◌, min, false, ◌&&◌,
  List, [], ◌∷◌, ◌++◌, arith, length, length-take, length-drop, take, drop, drop-drop,
  drop-length_le, take-append-drop, concat, map, ◌==◌,
}
use wg_frag_go.Carrier.Record.Stream.{IsRecord, AllRecords}
use wg_frag_go.Packing.{Plan}
use wg_frag_go.Packing.Bounds.{TailPlan, FreshPlan}
use wg_frag_go.Fragment.{Metadata, Fragment, capacity, header_at, split_loop}

-- The ranges of Go's field types, and a session that is set.
pub record IsMetadata (m : Metadata) : Type 0 where
  pub session_pos : 1 ≤ m.data_session_id
  pub session_lt : m.data_session_id < 65536
  pub lane_lt : m.lane_id < 256
  pub sequence_lt : m.lane_sequence < 4294967296

module _ (packet : List ℕ) (metadata : Metadata) (count full : ℕ) where
  -- The `i`th fragment holds at least one and at most `full` bytes of the packet from `offset` on,
  -- and its header says so.
  pub record IsPiece (i offset : ℕ) (f : Fragment) : Type 0 where
    pub header_eq : f.header ≡ record {
      fragment_index = i;
      fragment_count = count;
      lane_id = metadata.lane_id;
      data_session_id = metadata.data_session_id;
      lane_sequence = metadata.lane_sequence;
      offset = offset;
    }
    pub bytes : f.content ≡ take (length f.content) (drop offset packet)
    pub nonempty : 1 ≤ length f.content
    pub small : length f.content ≤ full
    pub inside : offset + length f.content ≤ length packet

  -- The fragments from the `i`th on continue one another from `offset` to the packet's end.
  abbrev pub Covers : ℕ → ℕ → List Fragment → Type 0
  Covers i offset [] = (i ≡ count) × (offset ≡ length packet)
  Covers i offset (f ∷ fs) = IsPiece i offset f × Covers (i + 1) (offset + length f.content) fs

  pub concat-Covers :
      (i offset : ℕ) (fs : List Fragment)
      → Covers i offset fs
      → concat (map (λ f. f.content) fs) ≡ drop offset packet
  concat-Covers i offset [] c = sym (drop-length_le offset packet (omega (arith, c.1)))
  concat-Covers i offset (f ∷ fs) (p, c) =
      ap₂ ◌++◌ p.bytes (
        concat-Covers (i + 1) (offset + length f.content) fs c
        ∙ sym (drop-drop (length f.content) offset packet))
      ∙ take-append-drop (length f.content) (drop offset packet)

  pub length-Covers :
      (i offset : ℕ) (fs : List Fragment) → Covers i offset fs → i + length fs ≡ count
  length-Covers i offset [] c = omega (arith, c.0)
  length-Covers i offset (f ∷ fs) (p, c) =
      omega (arith, length-Covers (i + 1) (offset + length f.content) fs c)

  IsPiece-IsRecord :
      (i offset : ℕ) (f : Fragment)
      → IsMetadata metadata
      → count ≤ 16
      → length packet ≤ 9612
      → i < count
      → IsPiece i offset f
      → IsRecord f
  IsPiece-IsRecord i offset f m hc hp hi p = record {
    header_ok = rw p.header_eq (omega (arith, m.session_lt, m.lane_lt, m.sequence_lt, p.inside));
    valid = rw p.header_eq (omega (arith, m.session_pos, p.inside, p.nonempty));
  }

  pub Covers-AllRecords :
      (i offset : ℕ) (fs : List Fragment)
      → IsMetadata metadata
      → count ≤ 16
      → length packet ≤ 9612
      → Covers i offset fs
      → AllRecords fs
  Covers-AllRecords i offset [] m hc hp c = tt
  Covers-AllRecords i offset (f ∷ fs) m hc hp (p, c) = (
    IsPiece-IsRecord i offset f m hc hp
        (omega (arith, length-Covers (i + 1) (offset + length f.content) fs c)) p,
    Covers-AllRecords (i + 1) (offset + length f.content) fs m hc hp c,
  )

module _ (packet : List ℕ) (metadata : Metadata) (plan : Plan) (full : ℕ)
    (hp : length packet ≤ 9612) (hc : plan.fragments ≤ 16) where
  abbrev pub Completes : ℕ → ℕ → ℕ → Type 0
  Completes rounds i offset =
      let out = split_loop packet metadata plan full rounds i offset in
      Covers packet metadata plan.fragments full i offset out.0 × (out.1 ≡ length packet)

  -- One round, whose capacity is `cap`.
  round-Covers :
      (cap rounds i offset : ℕ)
      → capacity packet metadata plan full i ≡ cap
      → 1 ≤ cap
      → cap ≤ full
      → i < plan.fragments
      → offset < length packet
      → Completes rounds (i + 1) (offset + min cap (length packet - offset))
      → Completes (suc rounds) i offset
  unfolding split_loop header_at
  round-Covers cap rounds i offset e hcap hfull hi ho rest = rw (e, size) ((piece, rest.0), rest.1)
    where
      size :
          length (take (min cap (length packet - offset)) (drop offset packet))
          ≡ min cap (length packet - offset)
      size = omega (
        arith,
        length-take (min cap (length packet - offset)) (drop offset packet),
        length-drop offset packet,
      )

      piece : IsPiece packet metadata plan.fragments full i offset (record {
        header = header_at packet metadata plan full i offset;
        content = take (min cap (length packet - offset)) (drop offset packet);
      })
      piece = record {
        header_eq = ground arith;
        bytes = rw size;
        nonempty = rw size (omega arith);
        small = rw size (omega arith);
        inside = rw size (omega arith);
      }

  split_loop-Covers :
      (rounds i offset : ℕ)
      → ((i == 0) && plan.start_in_tail) ≡ false
      → i + rounds ≡ plan.fragments
      → 1 ≤ full
      → offset ≤ length packet
      → length packet - offset ≤ rounds * full
      → rounds * full < length packet - offset + full
      → Completes rounds i offset
  unfolding split_loop capacity
  split_loop-Covers zero i offset hi sum hf ho enough least = ground arith
  split_loop-Covers (suc rounds) i offset hi sum hf ho enough least =
      round-Covers full rounds i offset (rw hi) hf (omega arith) (omega arith) (omega arith) (
        split_loop-Covers rounds (i + 1) (offset + min full (length packet - offset)) (ground arith)
          (omega arith) hf (omega arith) (omega arith) (omega arith))

  first_round :
      (rounds tail_data : ℕ)
      → plan.fragments ≡ suc rounds
      → tail_data ≤ full
      → 1 ≤ length packet
      → 1 ≤ full
      → TailPlan (length packet) full tail_data plan
      → Completes (suc rounds) 0 0
  unfolding capacity
  first_round rounds tail_data e ht hp0 hf t =
      round-Covers plan.first_data rounds 0 0 (ground arith) t.first_pos (omega (arith, t.first_eq))
        (omega arith) hp0
        (split_loop-Covers rounds 1 (0 + min plan.first_data (length packet - 0)) refl (omega arith)
          hf (omega arith) (omega (arith, t.enough, t.first_eq, pieces))
          (omega (arith, t.least, t.first_eq, pieces)))
    where
      pieces : (plan.fragments - 1) * full ≡ rounds * full
      pieces = ap (λ n. n * full) {x = plan.fragments - 1} (omega arith)

  -- The whole loop, for either kind of plan.
  pub split_loop-TailPlan :
      (tail_data : ℕ)
      → tail_data ≤ full
      → 1 ≤ length packet
      → 1 ≤ full
      → TailPlan (length packet) full tail_data plan
      → Completes plan.fragments 0 0
  split_loop-TailPlan tail_data ht hp0 hf t =
      let e : plan.fragments ≡ suc (plan.fragments - 1) = omega (arith, t.count_pos) in
      subst (λ n. Completes n 0 0) (sym e)
        (first_round (plan.fragments - 1) tail_data e ht hp0 hf t)

  pub split_loop-FreshPlan :
      1 ≤ full → FreshPlan (length packet) full plan → Completes plan.fragments 0 0
  split_loop-FreshPlan hf p =
      split_loop-Covers plan.fragments 0 0 (rw p.in_fresh) (omega arith) hf (omega arith)
        (omega (arith, p.enough)) (omega (arith, p.least))
