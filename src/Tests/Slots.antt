-- ===== src/Tests/Slots.antt =====
-- internal/core/reassembly: the thirty bytes that Tests.Packets cuts, in an empty reassembler of two slots.
use wg_frag_go.Common.{
  ℕ, zero, suc, ◌+◌, ◌<◌, ◌≡◌, ◌∙◌, refl, sym, ap, subst, inl, inr, false, [], ◌∷◌, none, some, ok,
  arith, replicate, leb, length-replicate, get_elem?, Bool, true, Option, Result, err,
}
use wg_frag_go.Carrier.Record.{Record}
use wg_frag_go.Fragment.Split.{split-Cut}
use wg_frag_go.Reassembly.{
  Key, Config, Reassembler, blank, new, fresh_slots, key_index_size, double_until, ReassemblyError,
  coverage,
}
use wg_frag_go.Reassembly.Index.{
  slot_at, find_key, find_loop, hash_key, key_position, is_free, insert_key, insert_loop,
  remove_key, remove_loop, delete_key_position, backshift,
}
use wg_frag_go.Reassembly.Slots.{
  expired, allocate_slot, take_free_slot, start_slot, clear_slot, uncount, evict, replace_slot,
  oldest_assembling, oldest_loop,
}
use wg_frag_go.Reassembly.Accept.{
  accept, validate_key, all_present, Outcome, accept_valid, validate_record, new_slot, add_fragment,
  overlap_from, fill, finish, contiguous_length, contiguous_from, starting_at, conflict,
}
use wg_frag_go.Reassembly.Pieces.{IsCut}
use wg_frag_go.Reassembly.Serve.{Serves, IsPieceFor, Takes, whole}
use wg_frag_go.Reassembly.Arrival.{accept-Takes}
use wg_frag_go.Reassembly.Reassemble.{accept_all, Arrivals, Arrives, Reassembles, packets}
use wg_frag_go.Reassembly.FromSplit.{
  start_of, IsOneOf, AllFrom, KeyOf, split-IsCut, fragment-IsPieceFor, split-Reassembles,
}
use wg_frag_go.Reassembly.Start.{HasRoom, ready, ready-Serves, at_ready, given, none_present}
use wg_frag_go.Reassembly.Transfer.{Transfers, split-Transfers}
use wg_frag_go.Tests.Packets.{packet, metadata, options, cut, split-packet}

abbrev key : Key
key = record { peer_id = 1; data_session_id = 5; lane_id = 2; lane_sequence = 77 }

abbrev config : Config
config = record {
  slots = 2;
  max_packet_size = 64;
  max_peers = 2;
  per_peer_slots = 2;
  lifetime = 1000;
}

abbrev empty : Reassembler
empty = record {
  config = config;
  slots = blank (replicate 64 0) (some 1) ∷ blank (replicate 64 0) none ∷ [];
  peer_counts = 0 ∷ 0 ∷ [];
  key_slots = 0 ∷ 0 ∷ 0 ∷ 0 ∷ [];
  free_head = some 0;
  next_born = 0;
}

new-empty : new config ≡ ok empty
unfolding new fresh_slots key_index_size double_until
new-empty = refl

hash_pos : key_position empty key ≡ 0
unfolding key_position hash_key
hash_pos = refl

-- There is room for the thirty bytes.
empty-HasRoom : HasRoom 30 key 0 empty
unfolding find_key find_loop key_position hash_key validate_key
empty-HasRoom = record {
  index_lt = omega arith;
  unknown = refl;
  key_ok = refl;
  in_quota = omega arith;
  head_eq = refl;
  state_eq = refl;
  room = omega (arith, length-replicate {A = ℕ} 64 0);
  size_le = omega arith;
  lives = omega arith;
  hole = (3, omega arith, refl);
}

key-KeyOf : KeyOf metadata key
key-KeyOf = (refl, refl, refl)

abbrev no_record : Record
no_record = record {
  header = record {
    fragment_index = 0;
    fragment_count = 0;
    lane_id = 0;
    data_session_id = 0;
    lane_sequence = 0;
    offset = 0;
  };
  content = [];
}

abbrev piece : ℕ → Record
piece n = elim (get_elem? cut.fragments n) [ some f ↦ f | none ↦ no_record ]

-- The third fragment arrives first, and again after the first one.
abbrev events : Arrivals
events = (200, piece 0) ∷ (250, piece 2) ∷ (300, piece 1) ∷ []

one_of : (n : ℕ) → n < 3 → IsOneOf cut.fragments (piece n)
one_of zero h = (0, h, refl)
one_of (suc zero) h = (1, h, refl)
one_of (suc (suc zero)) h = (2, h, refl)
one_of (suc (suc (suc n))) h = absurd (omega arith)

all_from : AllFrom cut.fragments 1100 events
all_from = (
  omega arith,
  one_of 0 (omega arith),
  (omega arith, one_of 2 (omega arith), (omega arith, one_of 1 (omega arith), tt)),
)

all_arrive : (j : ℕ) → j < 3 → Arrives j ((100, piece 2) ∷ events)
all_arrive zero h = inr (inl refl)
all_arrive (suc zero) h = inr (inr (inr (inl refl)))
all_arrive (suc (suc zero)) h = inl refl
all_arrive (suc (suc (suc n))) h = absurd (omega arith)

split-Transfers_example :
    Transfers
      (record { handle = record { index = 0; generation = 1 }; key = key; content = packet })
      (accept_all empty key ((100, piece 2) ∷ events))
split-Transfers_example =
    split-Transfers packet metadata options 16 cut key 0 empty 100 (piece 2) events split-packet
      key-KeyOf empty-HasRoom (one_of 2 (omega arith)) all_from all_arrive

pieces : IsCut packet 3 (start_of cut.fragments)
pieces = split-IsCut packet metadata options 16 cut split-packet (omega arith)

-- The reassembler with a slot for the packet.
abbrev waiting : Reassembler
waiting = ready empty 100 key 0 3 30 empty-HasRoom

waiting-Serves : Serves packet 3 (start_of cut.fragments) key 0 waiting
waiting-Serves =
    ready-Serves empty 100 key 0 3 30 empty-HasRoom packet (start_of cut.fragments) pieces
      (omega arith)

piece-IsPieceFor : (n : ℕ) → n < 3 → IsPieceFor packet 3 (start_of cut.fragments) key (piece n)
piece-IsPieceFor n h =
    fragment-IsPieceFor packet metadata 16 cut.fragments
      (split-Cut packet metadata options 16 cut split-packet).covers key key-KeyOf (piece n)
      (one_of n h)

at_waiting : slot_at waiting 0 ≡ given empty 100 key 0 3 30 empty-HasRoom
at_waiting = at_ready empty 100 key 0 3 30 empty-HasRoom

waiting_fresh : expired waiting (slot_at waiting 0) 300 ≡ false
unfolding expired
waiting_fresh = ap (λ s. leb (s.first_seen + 1000) 300) at_waiting

accept-Takes_example :
    Takes packet 3
      (start_of cut.fragments)
      key
      0
      waiting
      (piece 1)
      (accept waiting 300 key (piece 1))
accept-Takes_example =
    accept-Takes packet 3 (start_of cut.fragments) pieces key 0 waiting waiting-Serves (piece 1)
      (piece-IsPieceFor 1 (omega arith)) 300 waiting_fresh

split-Reassembles_example :
    (out : Reassembles packet 3
      (start_of cut.fragments)
      key
      0
      waiting
      ((100, piece 2) ∷ events)
      (accept_all waiting key ((100, piece 2) ∷ events)))
    × (packets out.results ≡ whole 0 (slot_at waiting 0) packet ∷ [])
split-Reassembles_example =
    split-Reassembles packet metadata options 16 cut key 0 waiting ((100, piece 2) ∷ events)
      split-packet key-KeyOf waiting-Serves
      (ap (λ s. all_present 3 s.present) at_waiting ∙ none_present 3 (omega arith))
      (subst (λ s. AllFrom cut.fragments (s.first_seen + 1000) ((100, piece 2) ∷ events))
        (sym at_waiting) (omega arith, one_of 2 (omega arith), all_from))
      (λ j l. inr (all_arrive j l))

-- One slot, which the first packet takes. A record of another packet, a single fragment that does not start
-- at offset 0, evicts it; the call fails, and nothing is left of either packet.
abbrev narrow : Reassembler
narrow = record {
  config = record {
    slots = 1;
    max_packet_size = 64;
    max_peers = 2;
    per_peer_slots = 1;
    lifetime = 1000;
  };
  slots = blank (replicate 64 0) none ∷ [];
  peer_counts = 0 ∷ 0 ∷ [];
  key_slots = 0 ∷ 0 ∷ [];
  free_head = some 0;
  next_born = 0;
}

abbrev lone : Record
lone = record {
  header = record {
    fragment_index = 0;
    fragment_count = 1;
    lane_id = 2;
    data_session_id = 5;
    lane_sequence = 78;
    offset = 5;
  };
  content = 9 ∷ [];
}

abbrev other_key : Key
other_key = record { peer_id = 1; data_session_id = 5; lane_id = 2; lane_sequence = 78 }

-- The result of the second call, and whether the slot is free.
abbrev both : Option (Result ReassemblyError Outcome × Bool)
both = elim (accept narrow 100 key (piece 2)) [
  | err f ↦ none
  | ok (r1, first) ↦ elim (accept r1 200 other_key lone) [
    | err f ↦ none
    | ok (r2, second) ↦ some (second, is_free (slot_at r2 0).state)
  ]
]

loses_eviction : both ≡ some (err coverage, true)
unfolding accept accept_valid validate_key validate_record find_key find_loop key_position hash_key
    new_slot allocate_slot take_free_slot start_slot insert_key insert_loop add_fragment
    overlap_from fill finish all_present contiguous_length contiguous_from starting_at conflict
    clear_slot uncount remove_key remove_loop delete_key_position backshift evict replace_slot
    oldest_assembling oldest_loop
loses_eviction = refl
