-- ===== src/Reassembly/Pieces.antt =====
-- reassembly.go: a slot that holds pieces of one packet, and the arrival of another piece.
-- `off i` is where the `i`th of `count` pieces starts.
use wg_frag_go.Common.{
  ℕ, zero, suc, ◌+◌, ◌-◌, ◌≤◌, ◌<◌, ◌≡◌, ◌≢◌, sym, ap, ◌∙◌, ◌⊎◌, inl, inr, true, false, List, ltb,
  ltb→lt, length, get_or, set, copy_at, length-set, length-copy_at, get_or-set_self, get_or-set_ne,
  get_or-copy_at_in, get_or-copy_at_before, get_or-copy_at_behind, arith, Bool-cases, subst,
}
use wg_frag_go.Carrier.Record.{Record}
use wg_frag_go.Reassembly.{Slot}
use wg_frag_go.Reassembly.Accept.{fill}

-- Whether two numbers are equal.
pub same_or_not : (i j : ℕ) → (i ≡ j) ⊎ (i ≢ j)
same_or_not i j = ground arith

pub record IsCut (packet : List ℕ) (count : ℕ) (off : ℕ → ℕ) : Type 0 where
  pub count_pos : 1 ≤ count
  pub count_le : count ≤ 16
  pub start_eq : off 0 ≡ 0
  pub rises : (i : ℕ) → i < count → off i < off (suc i)
  pub end_eq : off count ≡ length packet

pub record IsPiece (packet : List ℕ) (count : ℕ) (off : ℕ → ℕ) (f : Record) : Type 0 where
  pub count_eq : f.header.fragment_count ≡ count
  pub index_lt : f.header.fragment_index < count
  pub offset_eq : f.header.offset ≡ off f.header.fragment_index
  pub length_eq : off f.header.fragment_index + length f.content ≡ off (suc f.header.fragment_index)
  pub bytes :
      (b : ℕ)
      → b < length f.content
      → get_or f.content b 0 ≡ get_or packet (off f.header.fragment_index + b) 0

pub record Holds (packet : List ℕ) (count : ℕ) (off : ℕ → ℕ) (s : Slot) : Type 0 where
  pub count_eq : s.count ≡ count
  pub present_size : length s.present ≡ 16
  pub offsets_size : length s.offsets ≡ 16
  pub lengths_size : length s.lengths ≡ 16
  pub room : length packet ≤ length s.buf
  pub offsets_eq :
      (i : ℕ) → i < count → get_or s.present i false ≡ true → get_or s.offsets i 0 ≡ off i
  pub lengths_eq :
      (i : ℕ)
      → i < count
      → get_or s.present i false ≡ true
      → off i + get_or s.lengths i 0 ≡ off (suc i)
  pub bytes_eq :
      (i : ℕ)
      → i < count
      → get_or s.present i false ≡ true
      → (b : ℕ) → off i ≤ b
      → b < off (suc i)
      → get_or s.buf b 0 ≡ get_or packet b 0
  pub beyond : (i : ℕ) → count ≤ i → get_or s.present i false ≡ false

module _ (packet : List ℕ) (count : ℕ) (off : ℕ → ℕ) (cut : IsCut packet count off) where
  pub off-le : (i j : ℕ) → i ≤ j → j ≤ count → off i ≤ off j
  off-le i zero h k = subst (λ n. off n ≤ off 0) {x = 0} {y = i} (omega arith) (omega arith)
  off-le i (suc j) h k = elim (same_or_not i (suc j)) [
    | inl e ↦ subst (λ n. off n ≤ off (suc j)) {x = suc j} {y = i} (sym e) (omega arith)
    | inr ne ↦
        let below = off-le i j (omega arith) (omega arith) in
        omega (arith, cut.rises j (omega arith))
  ]

  module _ (s : Slot) (f : Record) (h : Holds packet count off s)
      (p : IsPiece packet count off f) where
    abbrev idx : ℕ
    idx = f.header.fragment_index

    piece_inside : f.header.offset + length f.content ≤ length packet
    piece_inside = omega (
      arith,
      off-le (suc idx) count p.index_lt (omega arith),
      cut.end_eq,
      p.length_eq,
      p.offset_eq,
    )

    -- The bytes of another piece are left alone.
    other_bytes :
        (i b : ℕ)
        → i < count
        → i ≢ idx
        → off i ≤ b
        → b < off (suc i)
        → get_or (copy_at f.header.offset f.content s.buf) b 0 ≡ get_or s.buf b 0
    other_bytes i b hi ne lo hi' = elim (Bool-cases (ltb i idx)) [
      | inl before ↦
          let lt : i < idx = ltb→lt _ _ before in
          get_or-copy_at_before f.header.offset f.content s.buf b 0
            (omega (arith, off-le (suc i) idx lt (omega (arith, p.index_lt)), p.offset_eq))
      | inr behind ↦
          let gt : idx < i = ground arith in
          get_or-copy_at_behind f.header.offset f.content s.buf b 0
            (omega (arith, off-le (suc idx) i gt (omega arith), p.offset_eq, p.length_eq))
    ]

    own_bytes :
        (b : ℕ)
        → off idx ≤ b
        → b < off (suc idx)
        → get_or (copy_at f.header.offset f.content s.buf) b 0 ≡ get_or packet b 0
    own_bytes b lo hi =
        get_or-copy_at_in f.header.offset f.content s.buf b 0 (omega (arith, p.offset_eq))
          (omega (arith, p.offset_eq, p.length_eq))
          (omega (arith, piece_inside, h.room, p.offset_eq, p.length_eq))
        ∙ p.bytes (b - f.header.offset) (omega (arith, p.offset_eq, p.length_eq))
        ∙ ap (λ n. get_or packet n 0) (omega (arith, p.offset_eq))

    present_other :
        (i : ℕ) → i ≢ idx → get_or (set s.present idx true) i false ≡ get_or s.present i false
    present_other i ne = get_or-set_ne s.present idx i true false (λ e. ne (sym e))

    pub fill-Holds : Holds packet count off (fill s f)
    unfolding fill
    fill-Holds = record {
      count_eq = h.count_eq;
      present_size = length-set s.present idx true ∙ h.present_size;
      offsets_size = length-set s.offsets idx _ ∙ h.offsets_size;
      lengths_size = length-set s.lengths idx _ ∙ h.lengths_size;
      room = omega (arith, length-copy_at f.header.offset f.content s.buf, h.room);
      offsets_eq = λ i k there. elim (same_or_not i idx) [
        | inl e ↦ rw e (
            get_or-set_self s.offsets idx f.header.offset 0
              (omega (arith, h.offsets_size, p.index_lt, cut.count_le))
            ∙ p.offset_eq)
        | inr ne ↦
            get_or-set_ne s.offsets idx i _ 0 (λ e. ne (sym e))
            ∙ h.offsets_eq i k (sym (present_other i ne) ∙ there)
      ];
      lengths_eq = λ i k there. elim (same_or_not i idx) [
        | inl e ↦ rw e (
            ap (λ n. off idx + n)
              (get_or-set_self s.lengths idx (length f.content) 0
                (omega (arith, h.lengths_size, p.index_lt, cut.count_le)))
            ∙ p.length_eq)
        | inr ne ↦
            ap (λ n. off i + n) (get_or-set_ne s.lengths idx i _ 0 (λ e. ne (sym e)))
            ∙ h.lengths_eq i k (sym (present_other i ne) ∙ there)
      ];
      bytes_eq = λ i k there b lo hi. elim (same_or_not i idx) [
        | inl e ↦ own_bytes b (subst (λ n. off n ≤ b) e lo) (subst (λ n. b < off (suc n)) e hi)
        | inr ne ↦
            other_bytes i b k ne lo hi ∙ h.bytes_eq i k (sym (present_other i ne) ∙ there) b lo hi
      ];
      beyond = λ i k. present_other i (omega (arith, p.index_lt)) ∙ h.beyond i k;
    }
