-- ===== src/Reassembly/Start.antt =====
-- reassembly.go: `Accept` of the first fragment under a key, with a free slot and room in the quota.
use native.Mathlib.Nat.{mod-lt, mod-eq_of_lt, add-mod-mod, add-mod_right}
use wg_frag_go.Common.{
  ℕ, zero, suc, ◌+◌, ◌-◌, ◌%◌, ◌≤◌, ◌<◌, ◌≡◌, refl, sym, ap, ◌∙◌, true, false, not, List, Option,
  none, some, ok, leb, length, get_or, set, replicate, length-set, get_or-replicate, arith, subst,
}
use wg_frag_go.Carrier.Record.{Record}
use wg_frag_go.Reassembly.{Key, Reassembler, Slot, free}
use wg_frag_go.Reassembly.Index.{
  hash_key, slot_at, is_free, find_key, find_loop, insert_key, insert_loop, key_position,
  uint64_mod,
}
use wg_frag_go.Reassembly.Lookup.{hit, find_key-set_slot}
use wg_frag_go.Reassembly.Slots.{
  set_slot, started, take_free_slot, start_slot, allocate_slot, change_count, expired,
  is_assembling,
}
use wg_frag_go.Reassembly.Accept.{
  validate_key, validate_record, add_fragment, new_slot, accept_valid, accept, all_present,
}
use wg_frag_go.Reassembly.Pieces.{IsCut, Holds}
use wg_frag_go.Reassembly.Serve.{Serves, IsPieceFor, slot_at_set}
use wg_frag_go.Reassembly.Arrival.{accept_found, valid_record}
use wg_frag_go.Reassembly.Insert.{indexed, inserts, Inserts}

-- A new key has a place: its peer is below its quota, slot `i` is the first free one and holds the packet, and a
-- position of the index is empty.
pub record HasRoom (size : ℕ) (k : Key) (i : ℕ) (r : Reassembler) : Type 0 where
  pub index_lt : i < length r.slots
  pub unknown : find_key r k ≡ none
  pub key_ok : validate_key r k ≡ ok tt
  pub in_quota : get_or r.peer_counts k.peer_id 0 < r.config.per_peer_slots
  pub head_eq : r.free_head ≡ some i
  pub state_eq : (slot_at r i).state ≡ free
  pub room : size ≤ length (slot_at r i).buf
  pub size_le : size ≤ r.config.max_packet_size
  pub lives : 0 < r.config.lifetime
  pub hole : (q : ℕ) × (q < length r.key_slots) × (get_or r.key_slots q 0 ≡ 0)

find_loop_fields :
    (probes : ℕ) (r : Reassembler) (k : Key) (position : ℕ) (counts : List ℕ) (head : Option ℕ)
    (born : ℕ)
    → find_loop probes
        (record r { peer_counts = counts; free_head = head; next_born = born })
        k
        position
      ≡ find_loop probes r k position
unfolding find_loop
find_loop_fields zero r k position counts head born = refl
find_loop_fields (suc probes) r k position counts head born =
    rw (find_loop_fields probes r k ((position + 1) % length r.key_slots) counts head born) refl

-- The number of steps from one position to another.
steps_to : (p q n : ℕ) → p < n → q < n → (p + (q + n - p) % n) % n ≡ q
steps_to p q n hp hq =
    add-mod-mod p (q + n - p) n
    ∙ ap (λ x. x % n) {x = p + (q + n - p)} {y = q + n} (omega arith)
    ∙ add-mod_right q n
    ∙ mod-eq_of_lt hq

pub none_present : (count : ℕ) → 1 ≤ count → all_present count (replicate 16 false) ≡ false
unfolding all_present
none_present zero h = absurd (omega arith)
none_present (suc count) h = refl

module _ (r : Reassembler) (now : ℕ) (k : Key) (i count size : ℕ) (v : HasRoom size k i r) where
  abbrev unlinked : Slot
  unlinked = record (slot_at r i) { free_next = none }

  abbrev born : ℕ
  born = (r.next_born + 1) % uint64_mod

  abbrev pub given : Slot
  given = started unlinked k now count born

  -- The state before the slot is started, but for the slot.
  abbrev before : Reassembler
  before = record (change_count (set_slot r i unlinked) k.peer_id (λ n. (n + 1) % 4294967296)) {
    free_head = (slot_at r i).free_next;
    next_born = born;
  }

  size_lt : i < length (set r.slots i unlinked)
  size_lt = omega (arith, length-set r.slots i unlinked, v.index_lt)

  taken_eq :
      take_free_slot r
      ≡ ok (record (set_slot r i unlinked) { free_head = (slot_at r i).free_next }, some i)
  unfolding take_free_slot
  taken_eq = rw (v.head_eq, v.state_eq) refl

  before_unknown : find_key before k ≡ none
  unfolding find_key key_position
  before_unknown =
      find_loop_fields (length r.key_slots) (set_slot r i unlinked) k _ _ _ _
      ∙ find_key-set_slot r i unlinked k v.index_lt
          (record { key_same = refl; detached_eq = refl; free_eq = refl })
      ∙ v.unknown

  position_lt : key_position r k < length r.key_slots
  unfolding key_position
  position_lt = let at = v.hole in mod-lt _ (omega (arith, at.1))

  given-hit : hit given k ≡ true
  given-hit = ground arith

  pub inserted : Inserts (length r.key_slots) (set_slot before i given) i k (key_position r k)
  unfolding find_key key_position
  inserted =
      let at = v.hole in
      inserts before i given k size_lt given-hit (length r.key_slots) (key_position r k)
        ((at.0 + length r.key_slots - key_position r k) % length r.key_slots) position_lt
        (mod-lt _ (omega (arith, at.1)))
        (ap (λ q. get_or r.key_slots q 0)
            (steps_to (key_position r k) at.0 (length r.key_slots) position_lt at.1)
          ∙ at.2)
        before_unknown

  -- The state with the slot, before the fragment is written.
  abbrev pub ready : Reassembler
  ready = indexed (set_slot before i given) i inserted.at

  pub at_ready : slot_at ready i ≡ given
  at_ready = slot_at_set before i given size_lt

  abbrev taken : Reassembler
  taken = record (set_slot r i unlinked) { free_head = (slot_at r i).free_next }

  at_given : slot_at (set_slot before i given) i ≡ given
  at_given = slot_at_set before i given size_lt

  inserted_eq : insert_key (set_slot before i given) i ≡ ok ready
  unfolding insert_key key_position
  inserted_eq =
      ap
        (λ s.
          insert_loop (length r.key_slots) (set_slot before i given) i (key_position before s.key))
        at_given
      ∙ inserted.out_eq

  started_eq : start_slot taken i now k count ≡ ok ready
  unfolding start_slot
  started_eq =
      ap (λ s. insert_key (set_slot before i (started s k now count born)) i)
        (slot_at_set r i unlinked v.index_lt)
      ∙ inserted_eq

  allocate_eq :
      allocate_slot r now k count ≡ ok (ready, some (record { index = i; evicted = none }))
  unfolding allocate_slot
  allocate_eq =
      let q = v.in_quota in
      let below : leb r.config.per_peer_slots (get_or r.peer_counts k.peer_id 0) ≡ false =
        ground arith in
      rw (below, taken_eq, started_eq) refl

  ready_found : find_key ready k ≡ some i
  unfolding find_key key_position
  ready_found =
      ap (λ n. find_loop n ready k (key_position ready k))
        (length-set r.key_slots inserted.at (i + 1))
      ∙ ap (λ n. find_loop (length r.key_slots) ready k (hash_key k % n))
          (length-set r.key_slots inserted.at (i + 1))
      ∙ inserted.found

  module _ (packet : List ℕ) (off : ℕ → ℕ) (cut : IsCut packet count off)
      (fits : length packet ≤ size) where
    given-Holds : Holds packet count off given
    given-Holds = record {
      count_eq = refl;
      present_size = refl;
      offsets_size = refl;
      lengths_size = refl;
      room = omega (arith, v.room);
      offsets_eq = λ j l there. absurd (cc (get_or-replicate 16 j false));
      lengths_eq = λ j l there. absurd (cc (get_or-replicate 16 j false));
      bytes_eq = λ j l there. absurd (cc (get_or-replicate 16 j false));
      beyond = λ j l. get_or-replicate 16 j false;
    }

    pub ready-Serves : Serves packet count off k i ready
    unfolding validate_key
    ready-Serves = record {
      index_lt = omega (arith, length-set (set r.slots i unlinked) i given, size_lt);
      found = ready_found;
      active = ap (λ s. is_free s.state) at_ready;
      holds = subst (Holds packet count off) (sym at_ready) given-Holds;
      key_ok = v.key_ok;
      size_le = omega (arith, v.size_le);
      waits =
          ap (λ s. is_assembling s.state) at_ready
          ∙ sym (
              ap not (
                ap (λ s. all_present count s.present) at_ready ∙ none_present count cut.count_pos));
    }

    ready_fresh : expired ready (slot_at ready i) now ≡ false
    unfolding expired
    ready_fresh =
        let l = v.lives in
        let at : (slot_at ready i).first_seen ≡ now = ap (λ s. s.first_seen) at_ready in
        ground arith

    first_valid : (f : Record) → IsPieceFor packet count off k f → validate_record r k f ≡ ok tt
    unfolding validate_record
    first_valid f p = valid_record packet count off cut k i ready ready-Serves f p

    allocate_first :
        (f : Record)
        → IsPieceFor packet count off k f
        → allocate_slot r now k f.header.fragment_count
          ≡ ok (ready, some (record { index = i; evicted = none }))
    allocate_first f p = ap (allocate_slot r now k) p.piece.count_eq ∙ allocate_eq

    accept_unknown :
        (f : Record)
        → IsPieceFor packet count off k f
        → accept r now k f ≡ add_fragment ready i f none
    unfolding accept accept_valid new_slot
    accept_unknown f p =
        let key_ok = v.key_ok in
        let record_ok = first_valid f p in
        let unknown = v.unknown in
        rw (key_ok, accept, record_ok, unknown, accept_valid, allocate_first f p, new_slot) refl

    pub accept_first :
        (f : Record) → IsPieceFor packet count off k f → accept r now k f ≡ accept ready now k f
    accept_first f p =
        accept_unknown f p
        ∙ sym (accept_found packet count off cut k i ready ready-Serves f p now ready_fresh)
