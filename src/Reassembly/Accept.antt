-- ===== src/Reassembly/Accept.antt =====
-- reassembly.go: the operations that the receiver calls. Each returns the new state also when it fails
-- with an error; a panic ends the program.
use wg_frag_go.Common.{
  ℕ, zero, suc, ◌+◌, ◌-◌, Bool, true, false, not, ◌&&◌, ◌||◌, List, [], ◌∷◌, Option, none, some,
  Result, ok, err, ◌>>=◌, ◌>>◌, refuse, ltb, leb, ◌==◌, if◌then◌else◌, length, get_or, set,
  replicate, take, drop, copy_at,
}
use wg_frag_go.Carrier.Record.{Record}
use wg_frag_go.Reassembly.{
  Key, SlotHandle, Packet, Reassembler, Slot, completed, Fault, ReassemblyError, max_fragments,
  invalid_peer, invalid_key, key_mismatch, invalid_fragment, invalid_range, count_mismatch,
  fragment_conflict, fragment_overlap, coverage, peer_quota, no_slot, invalid_handle,
  completed_conflict,
}
use wg_frag_go.Reassembly.Index.{slot_at, is_free, find_key, remove_key}
use wg_frag_go.Reassembly.Slots.{
  set_slot, is_assembling, expired, uncount, clear_slot, allocate_slot,
}

pub data Status : Type 0 where
  accepted duplicate completed_status : Status

-- `Result` of the source. `packet` is there for a completed packet only.
pub record Outcome : Type 0 where
  pub status : Status
  pub packet : Option Packet
  pub evicted : Option Key

abbrev pub After : Type 0
After = Result Fault (Reassembler × Result ReassemblyError Outcome)

unfoldable pub validate_key : Reassembler → Key → Result ReassemblyError (Unit {0})
validate_key r k = do
  refuse (leb r.config.max_peers k.peer_id) invalid_peer
  refuse (k.data_session_id == 0) invalid_key

unfoldable pub validate_record : Reassembler → Key → Record → Result ReassemblyError (Unit {0})
validate_record r k rec = do
  refuse
      (not (rec.header.data_session_id == k.data_session_id)
        || not (rec.header.lane_id == k.lane_id)
        || not (rec.header.lane_sequence == k.lane_sequence))
      key_mismatch
  refuse
      (ltb rec.header.fragment_count 1
        || ltb max_fragments rec.header.fragment_count
        || leb rec.header.fragment_count rec.header.fragment_index)
      invalid_fragment
  refuse (ltb (length rec.content) 1 || ltb r.config.max_packet_size (length rec.content))
      invalid_range
  refuse (ltb (r.config.max_packet_size - length rec.content) rec.header.offset) invalid_range

unfoldable pub drop_assembling_key : Reassembler → Key → Result Fault Reassembler
drop_assembling_key r k = elim (find_key r k) [
  | none ↦ ok r
  | some i ↦ if is_assembling (slot_at r i).state then clear_slot r i else ok r
]

-- The error that is left on a conflict, when the packet is not complete already.
unfoldable pub conflict : Reassembler → ℕ → ReassemblyError → After
conflict r i e =
    if not (is_free (slot_at r i).state) && not (is_assembling (slot_at r i).state)
    then ok (r, err completed_conflict)
    else (do r1 ← clear_slot r i; ok (r1, err e))

-- The loop over the fragments that are there: does one overlap `start` to `end`?
unfoldable pub overlap_from : ℕ → ℕ → Slot → ℕ → ℕ → Bool
overlap_from zero i s start end = false
overlap_from (suc rounds) i s start end =
    get_or s.present i false
      && (ltb start (get_or s.offsets i 0 + get_or s.lengths i 0) && ltb (get_or s.offsets i 0) end)
    || overlap_from rounds (i + 1) s start end

-- The inner loop of `contiguousLength`: the first fragment from `i` on that is not used and starts at `next`.
unfoldable pub starting_at : ℕ → ℕ → Slot → List Bool → ℕ → Option ℕ
starting_at zero i s used next = none
starting_at (suc rounds) i s used next =
    let rest = starting_at rounds (i + 1) s used next in
    if not (get_or used i false) && (get_or s.offsets i 0 == next) then some i else rest

-- Its outer loop.
unfoldable pub contiguous_from : ℕ → Slot → List Bool → ℕ → Option ℕ
contiguous_from zero s used next = some next
contiguous_from (suc rounds) s used next = elim (starting_at s.count 0 s used next) [
  | none ↦ none
  | some i ↦ contiguous_from rounds s (set used i true) (next + get_or s.lengths i 0)
]

unfoldable pub contiguous_length : Slot → Option ℕ
contiguous_length s = contiguous_from s.count s (replicate 16 false) 0

-- `present` is `1<<count - 1`: the first `count` bits and no others.
unfoldable pub all_present : ℕ → List Bool → Bool
all_present count [] = true
all_present zero (b ∷ bs) = not b && all_present zero bs
all_present (suc count) (b ∷ bs) = b && all_present count bs

unfoldable pub same_bytes : List ℕ → List ℕ → Bool
same_bytes [] [] = true
same_bytes (a ∷ xs) (b ∷ ys) = (a == b) && same_bytes xs ys
same_bytes [] (b ∷ ys) = false
same_bytes (a ∷ xs) [] = false

-- Is the fragment that is there the one that arrives?
unfoldable pub is_repeat : Slot → Record → Bool
is_repeat s rec =
    (get_or s.offsets rec.header.fragment_index 0 == rec.header.offset)
    && (get_or s.lengths rec.header.fragment_index 0 == length rec.content)
    && same_bytes (take (length rec.content) (drop rec.header.offset s.buf)) rec.content

-- The fragment is written.
unfoldable pub fill : Slot → Record → Slot
fill s rec = record s {
  buf = copy_at rec.header.offset rec.content s.buf;
  offsets = set s.offsets rec.header.fragment_index rec.header.offset;
  lengths = set s.lengths rec.header.fragment_index (length rec.content);
  present = set s.present rec.header.fragment_index true;
}

abbrev pub outcome : Status → Option Packet → Option Key → Outcome
outcome status packet evicted = record { status = status; packet = packet; evicted = evicted }

-- The end of `Accept`, with the fragment written to the slot at `i`.
unfoldable pub finish : Reassembler → ℕ → Option Key → After
finish r i evicted =
    let s = slot_at r i in
    if not (all_present s.count s.present)
    then ok (r, ok (outcome accepted none evicted))
    else elim (contiguous_length s) [
      | none ↦ conflict r i coverage
      | some len ↦ ok (
        set_slot r i (record s { state = completed; packet_len = len }),
        ok (
            outcome completed_status
              (some (record {
                handle = record { index = i; generation = s.generation };
                key = s.key;
                content = take len s.buf;
              }))
              evicted),
      )
    ]

-- `Accept` from where it has a slot.
unfoldable pub add_fragment : Reassembler → ℕ → Record → Option Key → After
add_fragment r i rec evicted =
    let s = slot_at r i in
    if not (s.count == rec.header.fragment_count)
    then conflict r i count_mismatch
    else (if get_or s.present rec.header.fragment_index false
        then (if is_repeat s rec
            then ok (r, ok (outcome duplicate none evicted))
            else conflict r i fragment_conflict)
        else (if overlap_from s.count 0 s rec.header.offset (rec.header.offset + length rec.content)
            then conflict r i fragment_overlap
            else finish (set_slot r i (fill s rec)) i evicted))

-- A slot for a new key, or the reason why there is none.
unfoldable pub new_slot : Reassembler → ℕ → Key → Record → After
new_slot r now k rec = do
  given ← allocate_slot r now k rec.header.fragment_count
  elim given.1 [
    | none ↦ ok (
      given.0,
      err (
          if leb given.0.config.per_peer_slots (get_or given.0.peer_counts k.peer_id 0)
          then peer_quota
          else no_slot),
    )
    | some a ↦ add_fragment given.0 a.index rec a.evicted
  ]

unfoldable pub accept_valid : Reassembler → ℕ → Key → Record → After
accept_valid r now k rec = elim (find_key r k) [
  | none ↦ new_slot r now k rec
  | some i ↦
      if is_assembling (slot_at r i).state && expired r (slot_at r i) now
      then (do r1 ← clear_slot r i; new_slot r1 now k rec)
      else add_fragment r i rec none
]

unfoldable pub accept : Reassembler → ℕ → Key → Record → After
accept r now k rec = elim (validate_key r k) [
  | err e ↦ ok (r, err e)
  | ok u ↦ elim (validate_record r k rec) [
    | err e ↦ do r1 ← drop_assembling_key r k; ok (r1, err e)
    | ok u' ↦ accept_valid r now k rec
  ]
]

-- The loop of `Expire`, from slot `i` on.
unfoldable pub expire_from : ℕ → ℕ → Reassembler → ℕ → Result Fault (Reassembler × ℕ)
expire_from zero i r now = ok (r, 0)
expire_from (suc rounds) i r now =
    elim (is_assembling (slot_at r i).state && expired r (slot_at r i) now) [
      | true ↦ do
        r1 ← clear_slot r i
        rest ← expire_from rounds (i + 1) r1 now
        ok (rest.0, rest.1 + 1)
      | false ↦ expire_from rounds (i + 1) r now
    ]

unfoldable pub expire : Reassembler → ℕ → Result Fault (Reassembler × ℕ)
expire r now = expire_from (length r.slots) 0 r now

-- A completed packet leaves the index and the quota, and keeps its storage.
unfoldable pub detach : Reassembler → ℕ → Result Fault Reassembler
detach r i = do
  r1 ← remove_key (set_slot r i (record (slot_at r i) { detached = true })) (slot_at r i).key
  ok (uncount r1 i)

unfoldable pub purge_from : ℕ → ℕ → Reassembler → ℕ → Result Fault (Reassembler × ℕ)
purge_from zero i r peer = ok (r, 0)
purge_from (suc rounds) i r peer =
    elim (is_free (slot_at r i).state
      || not ((slot_at r i).key.peer_id == peer)
      || (slot_at r i).detached) [
        | true ↦ purge_from rounds (i + 1) r peer
        | false ↦ do
          r1 ← (if is_assembling (slot_at r i).state then clear_slot r i else detach r i)
          rest ← purge_from rounds (i + 1) r1 peer
          ok (rest.0, rest.1 + 1)
      ]

unfoldable pub purge_peer : Reassembler → ℕ → Result Fault (Reassembler × ℕ)
purge_peer r peer =
    if leb r.config.max_peers peer then ok (r, 0) else purge_from (length r.slots) 0 r peer

unfoldable pub release :
    Reassembler → SlotHandle → Result Fault (Reassembler × Result ReassemblyError (Unit {0}))
release r h =
    if leb (length r.slots) h.index
    then ok (r, err invalid_handle)
    else (if is_free (slot_at r h.index).state
          || is_assembling (slot_at r h.index).state
          || not ((slot_at r h.index).generation == h.generation)
        then ok (r, err invalid_handle)
        else (do r1 ← clear_slot r h.index; ok (r1, ok tt)))
