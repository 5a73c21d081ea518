-- ===== src/Reorder/Accept.antt =====
-- reorder.go: what each call of `Accept` does, on every branch.
use wg_frag_go.Common.{
  ℕ, ◌+◌, ◌%◌, ◌≤◌, ◌<◌, ◌≡◌, ◌≢◌, true, false, List, [], ◌∷◌, ◌++◌, none, some, ◌==◌, length,
  arith,
}
use mathlib.Core.List.{Perm}
use wg_frag_go.Reassembly.{Packet}
use wg_frag_go.Reorder.{
  Reorderer, Entries, sequence_space, half_sequence_space, sequence_of, distance, held, contains,
  ahead_of, Status, delivered, queued, duplicate, late, flushed,
}
use wg_frag_go.Reorder.Queue.{Outcome}
use wg_frag_go.Reorder.Emits.{IsBeyond, Rising, Consecutive, next_after}
use wg_frag_go.Reorder.Inv.{Inv}

-- Why a packet gets its status, and what that says of the queue after the call.
abbrev pub Reason : Reorderer → Packet → Reorderer → List Packet → Status → Type 0
Reason r p rest out delivered = (sequence_of p ≡ r.next) × Consecutive r.next out
Reason r p rest out late =
    (half_sequence_space ≤ distance r.next (sequence_of p)) × (rest ≡ r) × (out ≡ [])
Reason r p rest out duplicate = (contains r (sequence_of p) ≡ true) × (rest ≡ r) × (out ≡ [])
Reason r p rest out queued =
    (ahead_of (sequence_of p) r.next ≡ true)
    × (contains r (sequence_of p) ≡ false)
    × (r.count < length r.entries)
    × (out ≡ [])
Reason r p rest out flushed =
    (ahead_of (sequence_of p) r.next ≡ true)
    × (contains r (sequence_of p) ≡ false)
    × (r.count ≡ length r.entries)
    × (rest.count ≡ 0)

-- The packet, if it is taken.
abbrev pub taken : Status → Packet → List Packet
taken delivered p = p ∷ []
taken queued p = p ∷ []
taken flushed p = p ∷ []
taken late p = []
taken duplicate p = []

-- A call that ends well.
pub record Accepted (r : Reorderer) (p : Packet) (rest : Reorderer) (o : Outcome) : Type 0 where
  pub inv : Inv rest
  pub config_eq : rest.config ≡ r.config
  pub size_eq : length rest.entries ≡ length r.entries
  pub reason : Reason r p rest o.out o.status
  pub kept : Perm (taken o.status p ++ held r.entries) (o.out ++ held rest.entries)
  pub rising : Rising r.next 0 o.out
  pub next_eq : rest.next ≡ next_after r.next o.out

pub after-IsBeyond :
    (start end next : ℕ) (q : Packet)
    → start < sequence_space
    → next ≡ (start + end) % sequence_space
    → IsBeyond start end q
    → (sequence_of q == next) ≡ false
    → IsBeyond next 1 q
after-IsBeyond start end next q h e b miss =
    let other : sequence_of q ≢ next = ground arith in (b.0, omega arith)

pub after_near :
    (start end next : ℕ) (q : Packet)
    → start < sequence_space
    → next ≡ (start + end) % sequence_space
    → IsBeyond start end q
    → distance start (sequence_of q) < half_sequence_space
    → distance next (sequence_of q) < half_sequence_space
after_near start end next q h e b near = omega arith

pub length-held : (es : Entries) → length (held es) ≤ length es
length-held [] = omega arith
length-held (none ∷ es) = let h = length-held es in omega arith
length-held (some p ∷ es) = let h = length-held es in omega arith
