-- ===== src/Reorder/Enqueue.antt =====
-- reorder.go: the branches of `Accept` that hold a packet and that flush the queue.
use wg_frag_go.Common.{
  ℕ, ◌+◌, ◌<◌, ◌≡◌, ◌≢◌, refl, sym, ap, ◌∙◌, inl, inr, true, false, [], Option, some, ◌==◌, length,
  arith, Bool-cases, ok,
}
use wg_frag_go.Reassembly.{Packet}
use wg_frag_go.Reorder.{
  Reorderer, sequence_space, half_sequence_space, sequence_of, distance, held, insert, contains,
  ahead_of, queued, flushed, flush_including_loop, flush_including_all, no_gap,
}
use wg_frag_go.Reorder.Queue.{enqueue}
use wg_frag_go.Reorder.Held.{AllHeld, AllHeld-zip, find_from-none}
use wg_frag_go.Reorder.Emits.{Emits-perm, Emits-Distinct, Emits-Rising, Emits-next_after, IsBeyond}
use wg_frag_go.Reorder.Loops.{FlushedWith, flush_including_loop-FlushedWith, empty-AllHeld}
use wg_frag_go.Reorder.Inv.{
  Inv, is_none, Inserted, insert_at-Inserted, insert_at-AllHeld, insert_at-Distinct,
}
use wg_frag_go.Reorder.Accept.{Accepted}

-- The branch that holds the packet.
module _ (r : Reorderer) (p : Packet) (now : ℕ) (v : Inv r) (fits : sequence_of p < sequence_space)
    (ahead : ahead_of (sequence_of p) r.next ≡ true)
    (absent : contains r (sequence_of p) ≡ false) where
  differs : AllHeld (λ q. sequence_of q ≢ sequence_of p) r.entries
  unfolding contains
  differs =
      AllHeld-zip _ _ _ r.entries (λ q x y. ground arith)
        (find_from-none r.entries 0 (sequence_of p) (ground arith))
        (find_from-none r.entries 0 (sequence_of p) (ground arith))

  far :
      (0 < distance r.next (sequence_of p))
      × (distance r.next (sequence_of p) < half_sequence_space)
  unfolding ahead_of
  far = ground arith

  module _ (room : r.count < length r.entries) where
    inserted : Inserted p r.entries
    inserted = insert_at-Inserted p r.entries (omega (arith, v.counted))

    -- The call, with the instant that it leaves.
    queued-Accepted :
        (g : Option ℕ)
        → is_none g ≡ false
        → Accepted r p
            (record r { entries = inserted.filled; count = r.count + 1; gap_started_at = g })
            (record { status = queued; out = [] })
    queued-Accepted g waits = record {
      inv = record {
        enabled = v.enabled;
        counted = omega (arith, v.counted, inserted.count_eq);
        next_lt = v.next_lt;
        distinct =
            insert_at-Distinct p r.entries inserted.filled inserted.out_eq differs v.distinct;
        beyond =
            insert_at-AllHeld _ p r.entries inserted.filled inserted.out_eq
              (fits, omega (arith, far.0)) v.beyond;
        near = insert_at-AllHeld _ p r.entries inserted.filled inserted.out_eq far.1 v.near;
        gap = ground arith;
      };
      config_eq = refl;
      size_eq = inserted.size_eq;
      reason = (ahead, absent, room, refl);
      kept = inserted.perm;
      rising = tt;
      next_eq = refl;
    }

    insert_eq : insert r p ≡ record r { entries = inserted.filled; count = r.count + 1 }
    unfolding insert
    insert_eq = rw (inserted.out_eq, insert)

    pub enqueue-Accepted : Accepted r p (enqueue r now p) (record { status = queued; out = [] })
    unfolding enqueue
    enqueue-Accepted =
        rw (insert_eq, enqueue)
          (elim (Bool-cases (r.count + 1 == 1)) [
            | inl first ↦ rw first (queued-Accepted (some now) refl)
            | inr later ↦ rw later (queued-Accepted r.gap_started_at (sym v.gap ∙ ground arith))
          ])

  -- The branch that flushes.
  module _ (full : r.count ≡ length r.entries) where
    pub all_out : FlushedWith r p (flush_including_loop (r.count + 1) r p)
    all_out = flush_including_loop-FlushedWith (r.count + 1) r p v.counted (omega arith)

    pub flushed-Accepted :
        Accepted r p (no_gap all_out.rest) (record { status = flushed; out = all_out.packets })
    flushed-Accepted =
        let l = all_out.left in
        let nothing : length (held all_out.rest.entries) ≡ 0 =
          omega (arith, l.counted, all_out.empty) in
        let beyond_all =
          AllHeld-zip _ _ (IsBeyond r.next 0) r.entries (λ q x y. (x.0, omega arith)) v.beyond
            v.beyond in
        let (rising, (end, at, b)) =
          Emits-Rising r.next 0 v.next_lt (omega (arith, v.next_lt))
            ((fits, omega arith), beyond_all) (differs, v.distinct) l.emits in
        record {
          inv = record {
            enabled = ap (λ c. c.enabled) l.config_eq ∙ v.enabled;
            counted = l.counted;
            next_lt = omega arith;
            distinct = Emits-Distinct l.emits (differs, v.distinct);
            beyond = empty-AllHeld _ all_out.rest.entries nothing;
            near = empty-AllHeld _ all_out.rest.entries nothing;
            gap = ground (arith, all_out.empty);
          };
          config_eq = l.config_eq;
          size_eq = l.size_eq;
          reason = (ahead, absent, full, all_out.empty);
          kept = Emits-perm l.emits;
          rising = rising;
          next_eq = Emits-next_after l.emits;
        }

    pub flush_including_all_eq : flush_including_all r p ≡ ok (no_gap all_out.rest, all_out.packets)
    unfolding flush_including_all
    flush_including_all_eq = rw all_out.out_eq
