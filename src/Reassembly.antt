-- ===== src/Reassembly.antt =====
-- internal/core/reassembly/reassembly.go: the types, and `New`.
-- A length, count or duration of the configuration that is negative fails the checks of `New` as zero
-- does, so these are natural numbers. Instants are numbers of nanoseconds. The storage that all slots
-- share is cut into disjoint pieces, so each slot has its own buffer here.
pub mod Index
pub mod Slots
pub mod Accept
pub mod Pieces
pub mod Complete
pub mod Content
pub mod Lookup
pub mod Serve
pub mod Arrival
pub mod Reassemble
pub mod FromSplit
pub mod Insert
pub mod Start
pub mod Transfer
use wg_frag_go.Common.{
  ℕ, zero, suc, ◌+◌, ◌-◌, ◌*◌, ◌/◌, Bool, true, false, ◌||◌, List, [], ◌∷◌, Option, none, some,
  Result, ok, err, ltb, leb, ◌==◌, if◌then◌else◌, ◌&&◌, length, replicate,
}

pub record Key : Type 0 where
  pub peer_id : ℕ
  pub data_session_id : ℕ
  pub lane_id : ℕ
  pub lane_sequence : ℕ

pub record SlotHandle : Type 0 where
  pub index : ℕ
  pub generation : ℕ

-- The field `Data` of the source.
pub record Packet : Type 0 where
  pub handle : SlotHandle
  pub key : Key
  pub content : List ℕ

pub data ReassemblyError : Type 0 where
  invalid_config invalid_peer invalid_key key_mismatch invalid_fragment invalid_range :
      ReassemblyError
  count_mismatch fragment_conflict fragment_overlap coverage peer_quota no_slot : ReassemblyError
  invalid_handle completed_conflict : ReassemblyError

-- The panics of the source, and a loop that would not end.
pub data Fault : Type 0 where
  evicted_not_free not_free_in_list index_exhausted endless : Fault

pub record Config : Type 0 where
  pub slots : ℕ
  pub max_packet_size : ℕ
  pub max_peers : ℕ
  pub per_peer_slots : ℕ
  pub lifetime : ℕ

pub data SlotState : Type 0 where
  free assembling completed : SlotState

-- The sixteen bits of `present` are a list; `free_next` is `none` for -1.
pub record Slot : Type 0 where
  pub state : SlotState
  pub detached : Bool
  pub counted : Bool
  pub free_next : Option ℕ
  pub generation : ℕ
  pub born : ℕ
  pub key : Key
  pub first_seen : ℕ
  pub count : ℕ
  pub present : List Bool
  pub offsets : List ℕ
  pub lengths : List ℕ
  pub packet_len : ℕ
  pub buf : List ℕ

-- `keyMask` is the number of `key_slots` less one, a power of two less one: `x & keyMask` is the
-- remainder of `x` by that number.
pub record Reassembler : Type 0 where
  pub config : Config
  pub slots : List Slot
  pub peer_counts : List ℕ
  pub key_slots : List ℕ
  pub free_head : Option ℕ
  pub next_born : ℕ

abbrev pub max_fragments : ℕ
max_fragments = 16

abbrev pub max_int : ℕ
max_int = 9223372036854775807

abbrev pub zero_key : Key
zero_key = record { peer_id = 0; data_session_id = 0; lane_id = 0; lane_sequence = 0 }

-- The zero value of a slot, with a buffer and a link.
abbrev pub blank : List ℕ → Option ℕ → Slot
blank buf next = record {
  state = free;
  detached = false;
  counted = false;
  free_next = next;
  generation = 0;
  born = 0;
  key = zero_key;
  first_seen = 0;
  count = 0;
  present = replicate 16 false;
  offsets = replicate 16 0;
  lengths = replicate 16 0;
  packet_len = 0;
  buf = buf;
}

abbrev pub key_eq : Key → Key → Bool
key_eq a b =
    (a.peer_id == b.peer_id)
    && (a.data_session_id == b.data_session_id)
    && (a.lane_id == b.lane_id)
    && (a.lane_sequence == b.lane_sequence)

-- The loop of `keyIndexSize`: `size` doubles at most sixty-two times.
unfoldable pub double_until : ℕ → ℕ → ℕ → Option ℕ
double_until zero size want = none
double_until (suc fuel) size want =
    let rest = double_until fuel (size * 2) want in
    if ltb size want then (if ltb (max_int / 2) size then none else rest) else some size

unfoldable pub key_index_size : ℕ → Option ℕ
key_index_size slots = if ltb (max_int / 2) slots then none else double_until 64 1 (slots * 2)

-- The free list of `New`: the slots from `i` on, the last `rest` of them.
unfoldable pub fresh_slots : ℕ → ℕ → ℕ → List Slot
fresh_slots zero i size = []
fresh_slots (suc rest) i size =
    blank (replicate size 0) (if rest == 0 then none else some (i + 1))
    ∷ fresh_slots rest (i + 1) size

unfoldable pub new : Config → Result ReassemblyError Reassembler
new c =
    if (c.slots == 0)
      || (c.max_packet_size == 0)
      || ltb 65535 c.max_packet_size
      || (c.max_peers == 0)
      || (c.per_peer_slots == 0)
      || ltb c.slots c.per_peer_slots
      || (c.lifetime == 0)
      || ltb (max_int / c.max_packet_size) c.slots
    then err invalid_config
    else elim (key_index_size c.slots) [
      | none ↦ err invalid_config
      | some size ↦ ok (record {
        config = c;
        slots = fresh_slots c.slots 0 c.max_packet_size;
        peer_counts = replicate c.max_peers 0;
        key_slots = replicate size 0;
        free_head = some 0;
        next_born = 0;
      })
    ]
