-- ===== src/Reassembly/Lookup.antt =====
-- reassembly.go: a lookup after a slot has changed.
use wg_frag_go.Common.{
  ℕ, zero, suc, ◌%◌, ◌+◌, ◌-◌, ◌<◌, ◌≡◌, refl, ap, ◌∙◌, ◌⊎◌, inl, inr, Bool, not, ◌&&◌, [], none,
  ◌==◌, length, get_or, set, get_or-set_self, get_or-set_ne, arith, Bool-cases, subst,
}
use wg_frag_go.Reassembly.{Key, Reassembler, Slot, blank, key_eq}
use wg_frag_go.Reassembly.Index.{slot_at, is_free, find_key, find_loop, key_position}
use wg_frag_go.Reassembly.Slots.{set_slot}

-- A lookup sees of a slot only its key, and whether it is free or detached.
pub record SameToLookup (s t : Slot) : Type 0 where
  pub key_same : t.key ≡ s.key
  pub detached_eq : t.detached ≡ s.detached
  pub free_eq : is_free t.state ≡ is_free s.state

pub slot_at-set_slot :
    (r : Reassembler) (i j : ℕ) (t : Slot)
    → i < length r.slots
    → (slot_at (set_slot r i t) j ≡ slot_at r j) ⊎ ((i ≡ j) × (slot_at (set_slot r i t) j ≡ t))
slot_at-set_slot r i j t h = elim (Bool-cases (i == j)) [
  | inl same ↦
      let e : i ≡ j = ground arith in
      inr (
        e,
        subst (λ k. get_or (set r.slots i t) k (blank [] none) ≡ t) e
            (get_or-set_self r.slots i t (blank [] none) h),
      )
  | inr other ↦ inl (get_or-set_ne r.slots i j t (blank [] none) (ground arith))
]

-- What a lookup reads at a slot.
abbrev pub hit : Slot → Key → Bool
hit s k = not s.detached && not (is_free s.state) && key_eq s.key k

hit-set_slot :
    (r : Reassembler) (i j : ℕ) (t : Slot) (k : Key)
    → i < length r.slots
    → SameToLookup (slot_at r i) t
    → hit (slot_at (set_slot r i t) j) k ≡ hit (slot_at r j) k
hit-set_slot r i j t k h same = elim (slot_at-set_slot r i j t h) [
  | inl e ↦ ap (λ s. hit s k) e
  | inr (ij, e) ↦
      ap (λ s. hit s k) e
      ∙ rw (same.key_same, same.detached_eq, same.free_eq) refl
      ∙ ap (λ n. hit (slot_at r n) k) ij
]

find_loop-set_slot :
    (probes : ℕ) (r : Reassembler) (i : ℕ) (t : Slot) (k : Key) (position : ℕ)
    → i < length r.slots
    → SameToLookup (slot_at r i) t
    → find_loop probes (set_slot r i t) k position ≡ find_loop probes r k position
unfolding find_loop
find_loop-set_slot zero r i t k position h same = refl
find_loop-set_slot (suc probes) r i t k position h same =
    let e = hit-set_slot r i (get_or r.key_slots position 0 - 1) t k h same in
    rw (e, find_loop-set_slot probes r i t k ((position + 1) % length r.key_slots) h same) refl

pub find_key-set_slot :
    (r : Reassembler) (i : ℕ) (t : Slot) (k : Key)
    → i < length r.slots
    → SameToLookup (slot_at r i) t
    → find_key (set_slot r i t) k ≡ find_key r k
unfolding find_key key_position
find_key-set_slot r i t k h same = find_loop-set_slot (length r.key_slots) r i t k _ h same
