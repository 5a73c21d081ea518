-- ===== src/Reorder/Queue.antt =====
-- reorder.go: the operations that the receiver calls. Each returns the new state, or an error that
-- leaves the state alone.
use wg_frag_go.Common.{
  ℕ, ◌+◌, Bool, false, not, ◌||◌, List, [], ◌∷◌, Option, none, some, Result, ok, err, ◌>>◌, refuse,
  ltb, ◌==◌, if◌then◌else◌, length, replicate,
}
use wg_frag_go.Reassembly.{Packet}
use wg_frag_go.Reorder.{
  Reorderer, ReorderError, wrong_lane, output_too_small, Status, delivered, queued, duplicate, late,
  flushed, sequence_of, ahead_of, matches_lane, held, insert, contains, drain_contiguous, flush_all,
  flush_including_all, after_sequence, no_gap,
}

-- `Result` with the packets written out: `Delivered` is their number.
pub record Outcome : Type 0 where
  pub status : Status
  pub out : List Packet

abbrev pub with_status :
    Status
    → Result ReorderError (Reorderer × List Packet)
    → Result ReorderError (Reorderer × Outcome)
with_status status (ok (r, ps)) = ok (r, record { status = status; out = ps })
with_status status (err e) = err e

-- The branch of `Accept` for the packet that is next.
unfoldable pub deliver : Reorderer → Packet → Reorderer × Outcome
deliver r p =
    let drained = drain_contiguous (record r { next = after_sequence r.next }) in
    let r1 = drained.0 in
    (if r1.count == 0 then no_gap r1 else r1, record { status = delivered; out = p ∷ drained.1 })

-- The branch of `Accept` that holds the packet.
unfoldable pub enqueue : Reorderer → ℕ → Packet → Reorderer
enqueue r now p =
    let r1 = insert r p in if r1.count == 1 then record r1 { gap_started_at = some now } else r1

unfoldable pub accept : Reorderer → ℕ → Packet → ℕ → Result ReorderError (Reorderer × Outcome)
accept r now p room = do
  refuse (not (matches_lane r p)) wrong_lane
  if not r.config.enabled
      then (if ltb room 1
          then err output_too_small
          else ok (r, record { status = delivered; out = p ∷ [] }))
      else (if ltb room (length r.entries + 1)
          then err output_too_small
          else (if sequence_of p == r.next
              then ok (deliver r p)
              else (if not (ahead_of (sequence_of p) r.next)
                  then ok (r, record { status = late; out = [] })
                  else (if contains r (sequence_of p)
                      then ok (r, record { status = duplicate; out = [] })
                      else (if r.count == length r.entries
                          then with_status flushed (flush_including_all r p)
                          else ok (enqueue r now p, record { status = queued; out = [] }))))))

-- `now.Before(r.gapStartedAt.Add(r.config.MaxDelay))`; the zero time lies before every instant.
abbrev pub before_due : Option ℕ → ℕ → ℕ → Bool
before_due none delay now = false
before_due (some t) delay now = ltb now (t + delay)

unfoldable pub tick : Reorderer → ℕ → ℕ → Result ReorderError (Reorderer × List Packet)
tick r now room =
    if not r.config.enabled || (r.count == 0) || before_due r.gap_started_at r.config.max_delay now
    then ok (r, [])
    else (if ltb room (length r.entries) then err output_too_small else flush_all r)

unfoldable pub flush : Reorderer → ℕ → Result ReorderError (Reorderer × List Packet)
flush r room =
    if not r.config.enabled || (r.count == 0)
    then ok (r, [])
    else (if ltb room (length r.entries) then err output_too_small else flush_all r)

unfoldable pub flush_including :
    Reorderer → Packet → ℕ → Result ReorderError (Reorderer × List Packet)
flush_including r p room =
    if not r.config.enabled
    then (if ltb room 1 then err output_too_small else ok (r, p ∷ []))
    else (if not (matches_lane r p)
        then err wrong_lane
        else (if ltb room (length r.entries + 1)
            then err output_too_small
            else flush_including_all r p))

unfoldable pub would_queue : Reorderer → ℕ → Bool
would_queue r sequence =
    if not r.config.enabled
      || (sequence == r.next)
      || not (ahead_of sequence r.next)
      || contains r sequence
    then false
    else ltb r.count (length r.entries)

-- The held packets go to the caller, in the order of the entries.
unfoldable pub reset : Reorderer → ℕ → ℕ → Result ReorderError (Reorderer × List Packet)
reset r next_sequence room =
    if ltb room r.count
    then err output_too_small
    else ok (
      record r {
        entries = replicate (length r.entries) none;
        count = 0;
        next = next_sequence;
        gap_started_at = none;
      },
      held r.entries,
    )
