-- ===== src/Reassembly/Index.antt =====
-- reassembly.go: the open-address index from keys to slots. An entry is the slot's index plus one, and
-- 0 where the position is empty. Each loop over the index has as many rounds as the index has entries.
use wg_frag_go.Common.{
  ℕ, zero, suc, ◌+◌, ◌-◌, ◌*◌, ◌/◌, ◌%◌, Bool, true, false, not, ◌&&◌, [], Option, none, some,
  Result, ok, err, ltb, ◌==◌, if◌then◌else◌, length, get_or, set, bit_or, bit_xor,
}
use wg_frag_go.Reassembly.{
  Key, Reassembler, Slot, SlotState, free, assembling, completed, Fault, index_exhausted, endless,
  blank, key_eq,
}

abbrev pub uint64_mod : ℕ
uint64_mod = 18446744073709551616

-- In uint64, where the shift of the peer may lose its top bits.
unfoldable pub hash_key : Key → ℕ
hash_key k =
    let x1 =
      bit_or (bit_or (k.peer_id * 1099511627776) (k.data_session_id * 16777216)) (k.lane_id * 65536)
      % uint64_mod in
    let x2 = bit_xor x1 k.lane_sequence in
    let x3 = (x2 + 0x9e3779b97f4a7c15) % uint64_mod in
    let x4 = bit_xor x3 (x3 / 1073741824) * 0xbf58476d1ce4e5b9 % uint64_mod in
    let x5 = bit_xor x4 (x4 / 134217728) * 0x94d049bb133111eb % uint64_mod in
    bit_xor x5 (x5 / 2147483648)

unfoldable pub key_position : Reassembler → Key → ℕ
key_position r k = hash_key k % length r.key_slots

-- `(position + 1) & keyMask`.
abbrev pub next_position : Reassembler → ℕ → ℕ
next_position r position = (position + 1) % length r.key_slots

-- The slot at an index; the code reads no other.
abbrev pub slot_at : Reassembler → ℕ → Slot
slot_at r i = get_or r.slots i (blank [] none)

abbrev pub is_free : SlotState → Bool
is_free free = true
is_free assembling = false
is_free completed = false

unfoldable pub find_loop : ℕ → Reassembler → Key → ℕ → Option ℕ
find_loop zero r k position = none
find_loop (suc probes) r k position =
    let entry = get_or r.key_slots position 0 in
    let s = slot_at r (entry - 1) in
    let rest = find_loop probes r k (next_position r position) in
    if entry == 0
    then none
    else (if not s.detached && not (is_free s.state) && key_eq s.key k
        then some (entry - 1)
        else rest)

-- `none` for -1.
unfoldable pub find_key : Reassembler → Key → Option ℕ
find_key r k = find_loop (length r.key_slots) r k (key_position r k)

unfoldable pub insert_loop : ℕ → Reassembler → ℕ → ℕ → Result Fault Reassembler
insert_loop zero r index position = err index_exhausted
insert_loop (suc probes) r index position =
    let rest = insert_loop probes r index (next_position r position) in
    if get_or r.key_slots position 0 == 0
    then ok (record r { key_slots = set r.key_slots position (index + 1) })
    else rest

unfoldable pub insert_key : Reassembler → ℕ → Result Fault Reassembler
insert_key r index = insert_loop (length r.key_slots) r index (key_position r (slot_at r index).key)

-- `keyDistance`, for positions below the size of the index.
abbrev pub key_distance : Reassembler → ℕ → ℕ → ℕ
key_distance r from to = (to + length r.key_slots - from) % length r.key_slots

-- The loop of `deleteKeyPosition`, with the hole at `position`.
unfoldable pub backshift : ℕ → Reassembler → ℕ → ℕ → Result Fault Reassembler
backshift zero r position next = err endless
backshift (suc rounds) r position next =
    let entry = get_or r.key_slots next 0 in
    let home = key_position r (slot_at r (entry - 1)).key in
    let moved = record r { key_slots = set (set r.key_slots position entry) next 0 } in
    let filled = backshift rounds moved next (next_position r next) in
    let kept = backshift rounds r position (next_position r next) in
    if entry == 0
    then ok r
    else (if ltb (key_distance r home position) (key_distance r home next) then filled else kept)

unfoldable pub delete_key_position : Reassembler → ℕ → Result Fault Reassembler
delete_key_position r position =
    backshift (length r.key_slots) (record r { key_slots = set r.key_slots position 0 }) position
      (next_position r position)

unfoldable pub remove_loop : ℕ → Reassembler → Key → ℕ → Result Fault Reassembler
remove_loop zero r k position = ok r
remove_loop (suc probes) r k position =
    let entry = get_or r.key_slots position 0 in
    let rest = remove_loop probes r k (next_position r position) in
    if entry == 0
    then ok r
    else (if key_eq (slot_at r (entry - 1)).key k then delete_key_position r position else rest)

unfoldable pub remove_key : Reassembler → Key → Result Fault Reassembler
remove_key r k = remove_loop (length r.key_slots) r k (key_position r k)
