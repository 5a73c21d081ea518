-- ===== src/Reassembly/Content.antt =====
-- reassembly.go: the length and the bytes of a slot that has all pieces.
use wg_frag_go.Common.{
  ℕ, zero, suc, ◌+◌, ◌≤◌, ◌<◌, ◌≡◌, refl, sym, ap, ◌∙◌, inl, inr, Bool, true, false, List, some,
  ltb, ltb→lt, length, get_or, set, take, length-set, length-take, get_or-set_self, get_or-set_ne,
  get_or_ext, get_or-take, arith, Bool-cases, replicate, get_or-replicate,
}
use wg_frag_go.Reassembly.{Slot}
use wg_frag_go.Reassembly.Accept.{starting_at, contiguous_from, contiguous_length, all_present}
use wg_frag_go.Reassembly.Pieces.{IsCut, Holds, same_or_not}
use wg_frag_go.Reassembly.Complete.{all_present-get_or}

module _ (packet : List ℕ) (count : ℕ) (off : ℕ → ℕ) (cut : IsCut packet count off) (s : Slot)
    (h : Holds packet count off s) (all : all_present count s.present ≡ true) where
  present_at : (i : ℕ) → i < count → get_or s.present i false ≡ true
  present_at i k =
      all_present-get_or count s.present i all k (omega (arith, h.present_size, cut.count_le))

  -- The first `n` pieces are used.
  abbrev UsedTo : ℕ → List Bool → Type 0
  UsedTo n used =
      (length used ≡ 16)
      × ((i : ℕ) → i < n → get_or used i false ≡ true)
      × ((i : ℕ) → n ≤ i → get_or used i false ≡ false)

  set-UsedTo :
      (n : ℕ) (used : List Bool) → n < count → UsedTo n used → UsedTo (suc n) (set used n true)
  set-UsedTo n used k (size, below, above) = (
    length-set used n true ∙ size,
    λ i l. elim (same_or_not i n) [
      | inl e ↦ rw e (get_or-set_self used n true false (omega (arith, cut.count_le)))
      | inr ne ↦ get_or-set_ne used n i true false (λ e. ne (sym e)) ∙ below i (omega arith)
    ],
    λ i l.
        get_or-set_ne used n i true false (λ e. absurd (omega (arith, e))) ∙ above i (omega arith),
  )

  starting_at-eq-some :
      (rounds i n : ℕ) (used : List Bool)
      → i + rounds ≡ count
      → i ≤ n
      → n < count
      → UsedTo n used
      → starting_at rounds i s used (off n) ≡ some n
  unfolding starting_at
  starting_at-eq-some zero i n used e k l u = absurd (omega arith)
  starting_at-eq-some (suc rounds) i n used e k l u = elim (same_or_not i n) [
    | inl same ↦
        let o = h.offsets_eq i (omega arith) (present_at i (omega arith)) in
        let unused : get_or used i false ≡ false = u.2 i (omega arith) in
        let starts : get_or s.offsets i 0 ≡ off n = o ∙ ap off same in ground arith
    | inr ne ↦
        let used_i : get_or used i false ≡ true = u.1 i (omega arith) in
        let rest = starting_at-eq-some rounds (i + 1) n used (omega arith) (omega arith) l u in
        ground arith
  ]

  contiguous_from-eq-some :
      (rounds n : ℕ) (used : List Bool)
      → n + rounds ≡ count
      → UsedTo n used
      → contiguous_from rounds s used (off n) ≡ some (length packet)
  unfolding contiguous_from
  contiguous_from-eq-some zero n used e u =
      ap some (ap off {x = n} {y = count} (omega arith) ∙ cut.end_eq)
  contiguous_from-eq-some (suc rounds) n used e u =
      let found : starting_at s.count 0 s used (off n) ≡ some n =
        ap (λ c. starting_at c 0 s used (off n)) h.count_eq
        ∙ (starting_at-eq-some count 0 n used (omega arith) (omega arith) (omega arith) u) in
      let grown : off n + get_or s.lengths n 0 ≡ off (suc n) =
        h.lengths_eq n (omega arith) (present_at n (omega arith)) in
      rw (found, contiguous_from, grown)
        (contiguous_from-eq-some rounds (suc n) (set used n true) (omega arith)
          (set-UsedTo n used (omega arith) u))

  pub contiguous_length-eq-some : contiguous_length s ≡ some (length packet)
  unfolding contiguous_length
  contiguous_length-eq-some =
      ap (λ c. contiguous_from c s (replicate 16 false) 0) h.count_eq
      ∙ ap (contiguous_from count s (replicate 16 false)) (sym cut.start_eq)
      ∙ contiguous_from-eq-some count 0 (replicate 16 false) (omega arith)
          (refl, (λ i l. absurd (omega arith)), (λ i l. get_or-replicate 16 i false))

  -- The piece that a byte lies in.
  piece_of : (n b : ℕ) → n ≤ count → b < off n → (i : ℕ) × (i < n) × (off i ≤ b) × (b < off (suc i))
  piece_of zero b k l = absurd (omega (arith, cut.start_eq))
  piece_of (suc n) b k l = elim (Bool-cases (ltb b (off n))) [
    | inl below ↦
        let lt : b < off n = ltb→lt _ _ below in
        let (i, x, y, z) = piece_of n b (omega arith) lt in (i, omega arith, y, z)
    | inr above ↦ (n, omega arith, ground arith, l)
  ]

  pub take-buf : take (length packet) s.buf ≡ packet
  take-buf =
      get_or_ext _ packet 0 (omega (arith, length-take (length packet) s.buf, h.room)) (λ b k.
        let lt : b < length packet = omega (arith, length-take (length packet) s.buf, h.room) in
        let (i, x, y, z) = piece_of count b (omega arith) (omega (arith, cut.end_eq)) in
        get_or-take (length packet) s.buf b 0 lt ∙ h.bytes_eq i x (present_at i x) b y z)
