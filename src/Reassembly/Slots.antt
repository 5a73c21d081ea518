-- ===== src/Reassembly/Slots.antt =====
-- reassembly.go: slots are taken from the free list, started, cleared and evicted.
use wg_frag_go.Common.{
  ℕ, ◌+◌, ◌-◌, ◌%◌, Bool, true, false, not, ◌&&◌, ◌||◌, List, [], ◌∷◌, Option, none, some, Result,
  ok, err, ◌>>=◌, ltb, leb, ◌==◌, if◌then◌else◌, get_or, set, replicate,
}
use wg_frag_go.Reassembly.{
  Key, Reassembler, Slot, SlotState, free, assembling, completed, Fault, evicted_not_free,
  not_free_in_list, blank,
}
use wg_frag_go.Reassembly.Index.{slot_at, is_free, insert_key, remove_key, uint64_mod}

abbrev pub set_slot : Reassembler → ℕ → Slot → Reassembler
set_slot r i s = record r { slots = set r.slots i s }

abbrev pub is_assembling : SlotState → Bool
is_assembling assembling = true
is_assembling free = false
is_assembling completed = false

-- `now.Before(s.firstSeen.Add(r.config.Lifetime))` is false.
unfoldable pub expired : Reassembler → Slot → ℕ → Bool
expired r s now = leb (s.first_seen + r.config.lifetime) now

-- `none` for -1; the popped slot's link becomes -1.
unfoldable pub take_free_slot : Reassembler → Result Fault (Reassembler × Option ℕ)
take_free_slot r = elim r.free_head [
  | none ↦ ok (r, none)
  | some i ↦
      if not (is_free (slot_at r i).state)
      then err not_free_in_list
      else ok (
        record (set_slot r i (record (slot_at r i) { free_next = none })) {
          free_head = (slot_at r i).free_next;
        },
        some i,
      )
]

abbrev pub started : Slot → Key → ℕ → ℕ → ℕ → Slot
started s k now count born = record s {
  state = assembling;
  detached = false;
  counted = true;
  free_next = some 0;
  generation = (s.generation + 1) % uint64_mod;
  born = born;
  key = k;
  first_seen = now;
  count = count;
  present = replicate 16 false;
  offsets = replicate 16 0;
  lengths = replicate 16 0;
  packet_len = 0;
}

abbrev pub change_count : Reassembler → ℕ → (ℕ → ℕ) → Reassembler
change_count r peer change = record r {
  peer_counts = set r.peer_counts peer (change (get_or r.peer_counts peer 0));
}

unfoldable pub start_slot : Reassembler → ℕ → ℕ → Key → ℕ → Result Fault Reassembler
start_slot r i now k count =
    let born = (r.next_born + 1) % uint64_mod in
    let r1 = record (set_slot r i (started (slot_at r i) k now count born)) { next_born = born } in
    insert_key (change_count r1 k.peer_id (λ n. (n + 1) % 4294967296)) i

-- `uncount`, on the slot at `i`.
unfoldable pub uncount : Reassembler → ℕ → Reassembler
uncount r i =
    let s = slot_at r i in
    if not s.counted
    then r
    else set_slot (change_count r s.key.peer_id (λ n. n - 1)) i (record s { counted = false })

abbrev pub cleared : Slot → Option ℕ → Slot
cleared s head = record (blank s.buf head) { generation = s.generation }

unfoldable pub clear_slot : Reassembler → ℕ → Result Fault Reassembler
clear_slot r i = if is_free (slot_at r i).state then ok r else (do
  r1 ← (if (slot_at r i).detached then ok r else remove_key r (slot_at r i).key)
  let r2 = uncount r1 i
  ok (record (set_slot r2 i (cleared (slot_at r2 i) r2.free_head)) { free_head = some i }))

-- Is this slot older than the best so far?
abbrev pub older : Slot → Slot → Bool
older s t = ltb s.first_seen t.first_seen || ((s.first_seen == t.first_seen) && ltb s.born t.born)

-- The loop of `oldestAssembling`; `peer` is `none` where the source has `samePeer` false.
unfoldable pub oldest_loop : Option ℕ → ℕ → Option (ℕ × Slot) → List Slot → Option (ℕ × Slot)
oldest_loop peer i best [] = best
oldest_loop peer i best (s ∷ ss) =
    oldest_loop peer (i + 1)
      (if not (is_assembling s.state)
          || elim peer [ none ↦ false | some p ↦ not (s.key.peer_id == p) ]
        then best
        else elim best [
          | none ↦ some (i, s)
          | some (j, t) ↦ if older s t then some (i, s) else some (j, t)
        ])
      ss

unfoldable pub oldest_assembling : Reassembler → Option ℕ → Option ℕ
oldest_assembling r peer = elim (oldest_loop peer 0 none r.slots) [
  | none ↦ none
  | some (i, s) ↦ some i
]

-- The slot that is given out, and the key that was evicted for it.
pub record Allocation : Type 0 where
  pub index : ℕ
  pub evicted : Option Key

unfoldable pub replace_slot :
    Reassembler → ℕ → ℕ → Key → ℕ → Result Fault (Reassembler × Option Allocation)
replace_slot r i now k count = do
  r1 ← clear_slot r i
  taken ← take_free_slot r1
  if elim taken.1 [ none ↦ false | some got ↦ got == i ]
      then (do
        r3 ← start_slot taken.0 i now k count
        ok (r3, some (record { index = i; evicted = some (slot_at r i).key })))
      else err evicted_not_free

unfoldable pub evict :
    Reassembler → Option ℕ → ℕ → Key → ℕ → Result Fault (Reassembler × Option Allocation)
evict r peer now k count = elim (oldest_assembling r peer) [
  | none ↦ ok (r, none)
  | some i ↦ replace_slot r i now k count
]

unfoldable pub allocate_slot :
    Reassembler → ℕ → Key → ℕ → Result Fault (Reassembler × Option Allocation)
allocate_slot r now k count =
    if leb r.config.per_peer_slots (get_or r.peer_counts k.peer_id 0)
    then evict r (some k.peer_id) now k count
    else (do
      taken ← take_free_slot r
      elim taken.1 [
        | some i ↦ do
          r1 ← start_slot taken.0 i now k count
          ok (r1, some (record { index = i; evicted = none }))
        | none ↦ evict taken.0 none now k count
      ])
