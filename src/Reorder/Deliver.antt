-- ===== src/Reorder/Deliver.antt =====
-- reorder.go: the branch of `Accept` for the packet that is next.
use wg_frag_go.Common.{
  ℕ, ◌+◌, ◌%◌, ◌<◌, ◌≡◌, refl, sym, ap, ◌∙◌, inl, inr, false, List, ◌∷◌, Option, none, ◌==◌, length,
  arith, Bool-cases, subst,
}
use mathlib.Core.List.Perm
use wg_frag_go.Reassembly.{Packet}
use wg_frag_go.Reorder.{
  Reorderer, sequence_space, half_sequence_space, sequence_of, distance, after_sequence, delivered,
  drain_contiguous,
}
use wg_frag_go.Reorder.Queue.{deliver}
use wg_frag_go.Reorder.Held.{AllHeld, AllHeld-zip}
use wg_frag_go.Reorder.Emits.{
  length-Emits, Emits-perm, Emits-AllHeld, Emits-Distinct, Emits-Rising, Emits-next_after,
  next_after, IsBeyond, Rising,
}
use wg_frag_go.Reorder.Loops.{Counted, Left-done, Drained, drain_loop-Drained, empty-AllHeld}
use wg_frag_go.Reorder.Inv.{Inv, is_none}
use wg_frag_go.Reorder.Accept.{Accepted, after-IsBeyond, after_near, length-held}

drain_contiguous-Drained :
    (r : Reorderer) → r.next < sequence_space → Counted r → Drained r (drain_contiguous r)
unfolding drain_contiguous
drain_contiguous-Drained r n c = elim (Bool-cases (r.count == 0)) [
  | inl nothing ↦ rw nothing (record {
    left = Left-done r c;
    consecutive = tt;
    none_next = empty-AllHeld _ r.entries (ground arith);
  })
  | inr some_held ↦
      let h = length-held r.entries in
      rw some_held (drain_loop-Drained (length r.entries) r n c (omega arith))
]

-- The reorderer that `deliver` drains.
abbrev next_one : Reorderer → Reorderer
next_one r = record r { next = after_sequence r.next }

module _ (r : Reorderer) (p : Packet) (v : Inv r) where
  next_one-Drained : Drained (next_one r) (drain_contiguous (next_one r))
  next_one-Drained = drain_contiguous-Drained (next_one r) (omega arith) v.counted

  abbrev drained : Reorderer × List Packet
  drained = drain_contiguous (next_one r)

  drained-Rising :
      Rising r.next 1 drained.1
      × ((end : ℕ) × (drained.0.next ≡ (r.next + end) % sequence_space)
          × AllHeld (IsBeyond r.next end) drained.0.entries)
  drained-Rising =
      Emits-Rising r.next 1 v.next_lt refl v.beyond v.distinct next_one-Drained.left.emits

  drained-IsBeyond : AllHeld (IsBeyond drained.0.next 1) drained.0.entries
  drained-IsBeyond =
      let (rising, (end, at, b)) = drained-Rising in
      AllHeld-zip _ _ _ drained.0.entries
        (λ q x y. after-IsBeyond r.next end drained.0.next q v.next_lt at x y) b
        next_one-Drained.none_next

  drained_near :
      AllHeld (λ q. distance drained.0.next (sequence_of q) < half_sequence_space) drained.0.entries
  drained_near =
      let (rising, (end, at, b)) = drained-Rising in
      AllHeld-zip _ _ _ drained.0.entries
        (λ q x y. after_near r.next end drained.0.next q v.next_lt at x y) b
        (Emits-AllHeld (λ q. distance r.next (sequence_of q) < half_sequence_space)
          next_one-Drained.left.emits v.near)

  drained_gap : (drained.0.count == 0) ≡ false → is_none drained.0.gap_started_at ≡ false
  drained_gap some_left =
      let d = next_one-Drained.left in
      let h = length-Emits d.emits in
      let some_held : (r.count == 0) ≡ false = ground (arith, d.counted, v.counted) in
      rw d.gap_eq (sym v.gap ∙ some_held)

  -- The call, with the instant that it leaves.
  delivered-Accepted :
      (g : Option ℕ)
      → sequence_of p ≡ r.next
      → (drained.0.count == 0) ≡ is_none g
      → Accepted r p
          (record drained.0 { gap_started_at = g })
          (record { status = delivered; out = p ∷ drained.1 })
  delivered-Accepted g e waits =
      let d = next_one-Drained.left in
      let (rising, (end, at, b)) = drained-Rising in
      let zero_away : distance r.next (sequence_of p) ≡ 0 = omega (arith, v.next_lt) in
      record {
        inv = record {
          enabled = ap (λ c. c.enabled) d.config_eq ∙ v.enabled;
          counted = d.counted;
          next_lt = omega arith;
          distinct = Emits-Distinct d.emits v.distinct;
          beyond = drained-IsBeyond;
          near = drained_near;
          gap = waits;
        };
        config_eq = d.config_eq;
        size_eq = d.size_eq;
        reason = (e, (e, next_one-Drained.consecutive));
        kept = Perm.cons p (Emits-perm d.emits);
        rising = (omega arith, subst (λ n. Rising r.next (n + 1) drained.1) (sym zero_away) rising);
        next_eq =
            Emits-next_after d.emits
            ∙ ap (λ n. next_after ((n + 1) % sequence_space) drained.1) (sym e);
      }

  pub deliver-Accepted : sequence_of p ≡ r.next → Accepted r p (deliver r p).0 (deliver r p).1
  unfolding deliver
  deliver-Accepted e = elim (Bool-cases (drained.0.count == 0)) [
    | inl nothing ↦ rw nothing (delivered-Accepted none e nothing)
    | inr some_left ↦
        rw some_left
          (delivered-Accepted drained.0.gap_started_at e (some_left ∙ sym (drained_gap some_left)))
  ]
