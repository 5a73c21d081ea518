-- ===== src/Reassembly/Complete.antt =====
-- reassembly.go: no conflict among the pieces of one packet, and what is there once all have arrived.
use wg_frag_go.Common.{
  ℕ, zero, suc, ◌+◌, ◌≤◌, ◌<◌, ◌≡◌, refl, sym, ap, ◌∙◌, inl, inr, Bool, true, false, List, [], ◌∷◌,
  ltb, ltb→lt, length, get_or, take, drop, length-take, length-drop, get_or_ext, get_or-take,
  get_or-drop, arith, Bool-cases,
}
use wg_frag_go.Carrier.Record.{Record}
use wg_frag_go.Reassembly.{Slot}
use wg_frag_go.Reassembly.Accept.{overlap_from, same_bytes, is_repeat}
use wg_frag_go.Reassembly.Accept.{all_present}
use wg_frag_go.Reassembly.Pieces.{IsCut, IsPiece, Holds, off-le, same_or_not}

same_bytes_refl : (xs : List ℕ) → same_bytes xs xs ≡ true
unfolding same_bytes
same_bytes_refl [] = refl
same_bytes_refl (x ∷ xs) = ground (arith, same_bytes_refl xs)

pub all_present-get_or :
    (count : ℕ) (bs : List Bool) (i : ℕ)
    → all_present count bs ≡ true
    → i < count
    → i < length bs
    → get_or bs i false ≡ true
unfolding all_present
all_present-get_or count [] i h k l = absurd (omega arith)
all_present-get_or zero (b ∷ bs) i h k l = absurd (omega arith)
all_present-get_or (suc count) (b ∷ bs) zero h k l = ground arith
all_present-get_or (suc count) (b ∷ bs) (suc i) h k l =
    all_present-get_or count bs i (ground arith) (omega arith) (omega arith)

pub all_present_of :
    (count : ℕ) (bs : List Bool)
    → ((i : ℕ) → i < count → get_or bs i false ≡ true)
    → ((i : ℕ) → count ≤ i → get_or bs i false ≡ false)
    → all_present count bs ≡ true
unfolding all_present
all_present_of count [] h k = refl
all_present_of zero (b ∷ bs) h k =
    let now = k 0 (omega arith) in
    ground
      (arith, all_present_of zero bs (λ i l. absurd (omega arith)) (λ i l. k (suc i) (omega arith)))
all_present_of (suc count) (b ∷ bs) h k =
    let now = h 0 (omega arith) in
    ground (
      arith,
      all_present_of count bs (λ i l. h (suc i) (omega arith)) (λ i l. k (suc i) (omega arith)),
    )

module _ (packet : List ℕ) (count : ℕ) (off : ℕ → ℕ) (cut : IsCut packet count off) (s : Slot)
    (h : Holds packet count off s) where
  module _ (f : Record) (p : IsPiece packet count off f) where
    -- A piece that is not there does not overlap those that are.
    pub overlap_from-eq-false :
        (rounds i : ℕ)
        → i + rounds ≡ count
        → get_or s.present f.header.fragment_index false ≡ false
        → overlap_from rounds i s f.header.offset (f.header.offset + length f.content) ≡ false
    unfolding overlap_from
    overlap_from-eq-false zero i e absent = refl
    overlap_from-eq-false (suc rounds) i e absent =
        let rest = overlap_from-eq-false rounds (i + 1) (omega arith) absent in
        elim (Bool-cases (get_or s.present i false)) [
          | inr gone ↦ rw (gone, rest) refl
          | inl there ↦
              let o = h.offsets_eq i (omega arith) there in
              let l = h.lengths_eq i (omega arith) there in
              elim (Bool-cases (ltb i f.header.fragment_index)) [
                | inl before ↦
                    let lt : i < f.header.fragment_index = ltb→lt _ _ before in
                    let below =
                      off-le packet count off cut (suc i) f.header.fragment_index lt
                        (omega (arith, p.index_lt)) in
                    let apart : ltb f.header.offset (get_or s.offsets i 0 + get_or s.lengths i 0)
                        ≡ false =
                      ground (arith, p.offset_eq) in
                    rw (there, apart, rest) refl
                | inr other ↦ elim (same_or_not i f.header.fragment_index) [
                  | inl e' ↦ absurd (cc (ap (λ n. get_or s.present n false) e'))
                  | inr ne ↦
                      let gt : f.header.fragment_index < i = ground arith in
                      let above =
                        off-le packet count off cut (suc f.header.fragment_index) i gt
                          (omega arith) in
                      let apart : ltb (get_or s.offsets i 0) (f.header.offset + length f.content)
                          ≡ false =
                        ground (arith, p.offset_eq, p.length_eq) in
                      ground (arith, rest)
                ]
              ]
        ]

    -- A piece that is there is the same again.
    pub is_repeat-eq-true :
        get_or s.present f.header.fragment_index false ≡ true → is_repeat s f ≡ true
    unfolding is_repeat
    is_repeat-eq-true there =
        let o = h.offsets_eq f.header.fragment_index p.index_lt there in
        let l = h.lengths_eq f.header.fragment_index p.index_lt there in
        let inside =
          off-le packet count off cut (suc f.header.fragment_index) count p.index_lt
            (omega arith) in
        let size : length (take (length f.content) (drop f.header.offset s.buf))
            ≡ length f.content =
          omega (
            arith,
            length-take (length f.content) (drop f.header.offset s.buf),
            length-drop f.header.offset s.buf,
            h.room,
            cut.end_eq,
            p.offset_eq,
            p.length_eq,
          ) in
        let same : take (length f.content) (drop f.header.offset s.buf) ≡ f.content =
          get_or_ext _ f.content 0 size (λ b k.
            get_or-take (length f.content) (drop f.header.offset s.buf) b 0 (omega (arith, size))
            ∙ get_or-drop f.header.offset s.buf b 0
            ∙ h.bytes_eq f.header.fragment_index p.index_lt there (f.header.offset + b)
                (omega (arith, p.offset_eq)) (omega (arith, p.offset_eq, p.length_eq, size))
            ∙ ap (λ n. get_or packet n 0) (omega (arith, p.offset_eq))
            ∙ sym (p.bytes b (omega (arith, size)))) in
        let start : get_or s.offsets f.header.fragment_index 0 ≡ f.header.offset =
          omega (arith, p.offset_eq) in
        let len : get_or s.lengths f.header.fragment_index 0 ≡ length f.content =
          omega (arith, p.length_eq) in
        rw same (ground (arith, same_bytes_refl f.content))
