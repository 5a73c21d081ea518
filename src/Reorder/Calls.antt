-- ===== src/Reorder/Calls.antt =====
-- reorder.go: the calls as a whole, from `New` on.
use wg_frag_go.Common.{
  ℕ, ◌+◌, ◌≤◌, ◌<◌, ◌≡◌, ◌≢◌, refl, ap, ◌∙◌, inl, inr, true, false, [], ltb, ◌==◌, length, arith,
  Bool-cases, Result, ok,
}
use mathlib.Core.List.Perm
use wg_frag_go.Reassembly.{Packet}
use wg_frag_go.Reorder.{
  Reorderer, ReorderError, sequence_space, half_sequence_space, sequence_of, distance, held,
  contains, ahead_of, matches_lane, Status, queued, duplicate, late, flushed, flush_including_all,
  no_gap,
}
use wg_frag_go.Reorder.Queue.{with_status, Outcome, deliver, enqueue, accept}
use wg_frag_go.Reorder.Inv.{Inv}
use wg_frag_go.Reorder.Accept.{Accepted, taken, Reason, length-held}
use wg_frag_go.Reorder.Deliver.{deliver-Accepted}
use wg_frag_go.Reorder.Enqueue.{enqueue-Accepted, all_out, flushed-Accepted, flush_including_all_eq}

unchanged-Accepted :
    (r : Reorderer) (p : Packet) (status : Status)
    → Inv r
    → taken status p ≡ []
    → Reason r p r [] status
    → Accepted r p r (record { status = status; out = [] })
unchanged-Accepted r p status v untaken why = record {
  inv = v;
  config_eq = refl;
  size_eq = refl;
  reason = why;
  kept = rw untaken (Perm.refl (held r.entries));
  rising = tt;
  next_eq = refl;
}

-- The result of a call that ends well.
abbrev pub EndsWell : Reorderer → Packet → Result ReorderError (Reorderer × Outcome) → Type 0
EndsWell r p out = (rest : Reorderer) × (o : Outcome) × (out ≡ ok (rest, o)) × Accepted r p rest o

-- `accept` after its checks.
module _ (r : Reorderer) (now : ℕ) (p : Packet) (room : ℕ) (v : Inv r)
    (lane : matches_lane r p ≡ true) (large : ltb room (length r.entries + 1) ≡ false) where
  accept_next : (sequence_of p == r.next) ≡ true → accept r now p room ≡ ok (deliver r p)
  unfolding accept
  accept_next e = let enabled = v.enabled in ground arith

  module _ (other : (sequence_of p == r.next) ≡ false) where
    accept_late :
        ahead_of (sequence_of p) r.next ≡ false
        → accept r now p room ≡ ok (r, record { status = late; out = [] })
    unfolding accept
    accept_late e = let enabled = v.enabled in ground arith

    module _ (ahead : ahead_of (sequence_of p) r.next ≡ true) where
      accept_duplicate :
          contains r (sequence_of p) ≡ true
          → accept r now p room ≡ ok (r, record { status = duplicate; out = [] })
      unfolding accept
      accept_duplicate e = let enabled = v.enabled in ground arith

      accept_full :
          contains r (sequence_of p) ≡ false
          → (r.count == length r.entries) ≡ true
          → accept r now p room ≡ with_status flushed (flush_including_all r p)
      unfolding accept
      accept_full e full = let enabled = v.enabled in ground arith

      accept_queued :
          contains r (sequence_of p) ≡ false
          → (r.count == length r.entries) ≡ false
          → accept r now p room ≡ ok (enqueue r now p, record { status = queued; out = [] })
      unfolding accept
      accept_queued e room_left = let enabled = v.enabled in ground arith

      ahead-EndsWell : sequence_of p < sequence_space → EndsWell r p (accept r now p room)
      ahead-EndsWell fits = elim (Bool-cases (contains r (sequence_of p))) [
        | inl known ↦ (
          r,
          _,
          accept_duplicate known,
          unchanged-Accepted r p duplicate v refl (known, refl, refl),
        )
        | inr absent ↦ elim (Bool-cases (r.count == length r.entries)) [
          | inl full ↦
              let f : r.count ≡ length r.entries = ground arith in
              let out = all_out r p now v fits ahead absent f in
              (
                no_gap out.rest,
                _,
                accept_full absent full
                    ∙ ap (with_status flushed)
                        (flush_including_all_eq r p now v fits ahead absent f),
                flushed-Accepted r p now v fits ahead absent f,
              )
          | inr room_left ↦
              let h = length-held r.entries in
              let free : r.count < length r.entries = ground (arith, v.counted) in
              (
                enqueue r now p,
                _,
                accept_queued absent room_left,
                enqueue-Accepted r p now v fits ahead absent free,
              )
        ]
      ]

    late_distance :
        ahead_of (sequence_of p) r.next ≡ false
        → sequence_of p < sequence_space
        → half_sequence_space ≤ distance r.next (sequence_of p)
    unfolding ahead_of
    late_distance e fits =
        let n = v.next_lt in
        let differs : sequence_of p ≢ r.next = ground arith in
        let away : 0 < distance r.next (sequence_of p) = omega arith in ground arith

  pub accept-EndsWell : sequence_of p < sequence_space → EndsWell r p (accept r now p room)
  accept-EndsWell fits = elim (Bool-cases (sequence_of p == r.next)) [
    | inl next ↦ (_, _, accept_next next, deliver-Accepted r p v (ground arith))
    | inr other ↦ elim (Bool-cases (ahead_of (sequence_of p) r.next)) [
      | inl ahead ↦ ahead-EndsWell other ahead fits
      | inr behind ↦ (
        r,
        _,
        accept_late other behind,
        unchanged-Accepted r p late v refl (late_distance other behind fits, refl, refl),
      )
    ]
  ]
