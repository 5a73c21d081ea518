-- ===== src/Reassembly/Insert.antt =====
-- reassembly.go: an insertion into the index, and the lookup after it.
use native.Mathlib.Nat.{mod-lt, mod-eq_of_lt, mod-add-mod}
use wg_frag_go.Common.{
  ℕ, zero, suc, ◌+◌, ◌-◌, ◌%◌, ◌≤◌, ◌<◌, ◌≡◌, ◌≢◌, refl, sym, ap, ◌∙◌, inl, inr, true, false, [],
  none, some, ok, ◌==◌, length, get_or, set, length-set, get_or-set_self, get_or-set_ne, arith,
  Bool-cases, subst,
}
use wg_frag_go.Reassembly.{Key, Reassembler, Slot, blank, key_eq}
use wg_frag_go.Reassembly.Index.{slot_at, find_loop, insert_loop}
use wg_frag_go.Reassembly.Lookup.{slot_at-set_slot, hit}
use wg_frag_go.Reassembly.Slots.{set_slot}

-- The reassembler with an entry for slot `i` at position `q`.
abbrev pub indexed : Reassembler → ℕ → ℕ → Reassembler
indexed r i q = record r { key_slots = set r.key_slots q (i + 1) }

key_eq_refl : (k : Key) → key_eq k k ≡ true
key_eq_refl k = ground arith

-- An insertion from `position` on, and the lookup after it.
pub record Inserts (probes : ℕ) (r : Reassembler) (i : ℕ) (k : Key) (position : ℕ) : Type 0 where
  pub at : ℕ
  pub out_eq : insert_loop probes r i position ≡ ok (indexed r i at)
  pub found : find_loop probes (indexed r i at) k position ≡ some i

module _ (r0 : Reassembler) (i : ℕ) (t : Slot) (k : Key) (h : i < length r0.slots)
    (hits : hit t k ≡ true) where
  abbrev r : Reassembler
  r = set_slot r0 i t

  at_i : slot_at r i ≡ t
  at_i = get_or-set_self r0.slots i t (blank [] none) h

  -- One probe of the lookup: a hit at slot `i`, or what it was before.
  abbrev n : ℕ
  n = length r0.key_slots

  find_hit :
      (probes : ℕ) (q position : ℕ)
      → get_or (set r0.key_slots q (i + 1)) position 0 ≡ i + 1
      → find_loop (suc probes) (indexed r i q) k position ≡ some i
  unfolding find_loop
  find_hit probes q position e =
      let s : hit (slot_at r (i + 1 - 1)) k ≡ true =
        ap (λ j. hit (slot_at r j) k) {x = i + 1 - 1} {y = i} (omega arith)
        ∙ ap (λ x. hit x k) at_i
        ∙ hits in
      let some_entry : (i + 1 == 0) ≡ false = ground arith in
      rw (e, some_entry, s) (ap some (omega arith))

  find_next :
      (probes : ℕ) (q position : ℕ)
      → (get_or (set r0.key_slots q (i + 1)) position 0 == 0) ≡ false
      → hit (slot_at r (get_or (set r0.key_slots q (i + 1)) position 0 - 1)) k ≡ false
      → find_loop (suc probes) (indexed r i q) k position
        ≡ find_loop probes (indexed r i q) k ((position + 1) % length (set r0.key_slots q (i + 1)))
  unfolding find_loop
  find_next probes q position e miss = rw (e, miss) refl

  missed :
      (probes : ℕ) (position : ℕ)
      → find_loop (suc probes) r0 k position ≡ none
      → (get_or r0.key_slots position 0 == 0) ≡ false
      → (hit (slot_at r0 (get_or r0.key_slots position 0 - 1)) k ≡ false)
        × (find_loop probes r0 k ((position + 1) % n) ≡ none)
  unfolding find_loop
  missed probes position e some_entry =
      elim (Bool-cases (hit (slot_at r0 (get_or r0.key_slots position 0 - 1)) k)) [
        | inl x ↦ absurd (ground arith)
        | inr x ↦ (x, ground arith)
      ]

  -- The lookup with the new entry at `q`: at each position it is the entry that is found, or the lookup goes on.
  find_through :
      (probes position q : ℕ)
      → position < n
      → (get_or r0.key_slots position 0 == 0) ≡ false
      → hit (slot_at r0 (get_or r0.key_slots position 0 - 1)) k ≡ false
      → find_loop probes (indexed r i q) k ((position + 1) % n) ≡ some i
      → find_loop (suc probes) (indexed r i q) k position ≡ some i
  find_through probes position q lt taken miss rest = elim (Bool-cases (q == position)) [
    | inl same ↦
        let e : q ≡ position = ground arith in
        find_hit probes q position (
          subst (λ x. get_or (set r0.key_slots q (i + 1)) x 0 ≡ i + 1) e
            (get_or-set_self r0.key_slots q (i + 1) 0 (omega arith)))
    | inr other ↦
        let e = get_or-set_ne r0.key_slots q position (i + 1) 0 (ground arith) in
        elim (slot_at-set_slot r0 i (get_or r0.key_slots position 0 - 1) t h) [
          | inr (ij, at) ↦ find_hit probes q position (e ∙ (ground arith))
          | inl at ↦
              find_next probes q position (ap (λ x. x == 0) e ∙ taken)
                (ap (λ x. hit (slot_at r (x - 1)) k) e ∙ ap (λ s. hit s k) at ∙ miss)
              ∙ ap (λ m. find_loop probes (indexed r i q) k ((position + 1) % m))
                  (length-set r0.key_slots q (i + 1))
              ∙ rest
        ]
  ]

  pub inserts :
      (probes position j : ℕ)
      → position < n
      → j < probes
      → get_or r0.key_slots ((position + j) % n) 0 ≡ 0
      → find_loop probes r0 k position ≡ none
      → Inserts probes r i k position
  unfolding insert_loop
  inserts zero position j lt l e none_before = absurd (omega arith)
  inserts (suc probes) position j lt l e none_before =
      elim (Bool-cases (get_or r0.key_slots position 0 == 0)) [
        | inl empty ↦ record {
          at = position;
          out_eq = rw empty refl;
          found =
              find_hit probes position position
                (get_or-set_self r0.key_slots position (i + 1) 0 lt);
        }
        | inr taken ↦
            let some_entry : get_or r0.key_slots position 0 ≢ 0 = ground arith in
            let here : (position + 0) % n ≡ position =
              ap (λ x. x % n) {x = position + 0} {y = position} (omega arith) ∙ mod-eq_of_lt lt in
            let later : 1 ≤ j = elim (Bool-cases (j == 0)) [
              | inl z ↦
                  let jz : j ≡ 0 = ground arith in
                  absurd (
                    some_entry (
                      ap (λ x. get_or r0.key_slots x 0)
                        (sym here ∙ ap (λ x. (position + x) % n) (sym jz))
                      ∙ e))
              | inr nz ↦ ground arith
            ] in
            let m = missed probes position none_before taken in
            let rest =
              inserts probes ((position + 1) % n) (j - 1) (mod-lt (position + 1) (omega arith))
                (omega arith)
                (ap (λ x. get_or r0.key_slots x 0)
                    (mod-add-mod (position + 1) n (j - 1)
                      ∙ ap (λ x. x % n) {x = position + 1 + (j - 1)} {y = position + j}
                          (omega arith))
                  ∙ e)
                m.1 in
            record {
              at = rest.at;
              out_eq = rw taken rest.out_eq;
              found = find_through probes position rest.at lt taken m.0 rest.found;
            }
      ]
