-- ===== src/Reassembly/Serve.antt =====
-- reassembly.go: a slot that is found for a key, and what a call of `Accept` makes of it.
use wg_frag_go.Common.{
  ℕ, zero, suc, ◌≤◌, ◌<◌, ◌≡◌, refl, sym, ap, ◌⊎◌, Bool, true, false, not, List, [], ◌∷◌, none,
  some, ok, length, get_or, set, take, get_or-set_self,
}
use wg_frag_go.Carrier.Record.{Record}
use wg_frag_go.Reassembly.{Key, Packet, Reassembler, Slot, completed, blank}
use wg_frag_go.Reassembly.Index.{slot_at, is_free, find_key}
use wg_frag_go.Reassembly.Slots.{set_slot, is_assembling}
use wg_frag_go.Reassembly.Accept.{
  accepted, duplicate, completed_status, Outcome, After, outcome, validate_key, finish, all_present,
  contiguous_length,
}
use wg_frag_go.Reassembly.Pieces.{IsPiece, Holds}

pub slot_at_set :
    (r : Reassembler) (i : ℕ) (t : Slot) → i < length r.slots → slot_at (set_slot r i t) i ≡ t
slot_at_set r i t h = get_or-set_self r.slots i t (blank [] none) h

-- The slot at `i` is found for `k`, and holds pieces of the packet.
pub record Serves (packet : List ℕ) (count : ℕ) (off : ℕ → ℕ) (k : Key) (i : ℕ) (r : Reassembler)
    : Type 0 where
  pub index_lt : i < length r.slots
  pub found : find_key r k ≡ some i
  pub active : is_free (slot_at r i).state ≡ false
  pub holds : Holds packet count off (slot_at r i)
  pub key_ok : validate_key r k ≡ ok tt
  pub size_le : length packet ≤ r.config.max_packet_size
  pub waits : is_assembling (slot_at r i).state ≡ not (all_present count (slot_at r i).present)

-- A piece under the key.
pub record IsPieceFor (packet : List ℕ) (count : ℕ) (off : ℕ → ℕ) (k : Key) (f : Record)
    : Type 0 where
  pub piece : IsPiece packet count off f
  pub session_eq : f.header.data_session_id ≡ k.data_session_id
  pub lane_eq : f.header.lane_id ≡ k.lane_id
  pub sequence_eq : f.header.lane_sequence ≡ k.lane_sequence

abbrev pub arrived : ℕ → Reassembler → List Bool
arrived i r = (slot_at r i).present

-- What a call reports, from the bits before and after it.
abbrev pub Reports : List ℕ → ℕ → ℕ → Reassembler → Record → Outcome → Type 0
Reports packet count i r f o =
    (o.evicted ≡ none)
    × ((get_or (arrived i r) f.header.fragment_index false ≡ true)
          × (o.status ≡ duplicate)
          × (o.packet ≡ none)
        ⊎ (get_or (arrived i r) f.header.fragment_index false ≡ false)
          × ((all_present count (set (arrived i r) f.header.fragment_index true) ≡ false)
                × (o.status ≡ accepted)
                × (o.packet ≡ none)
              ⊎ (all_present count (set (arrived i r) f.header.fragment_index true) ≡ true)
                × (o.status ≡ completed_status)
                × (o.packet
                    ≡ some (record {
                      handle = record { index = i; generation = (slot_at r i).generation };
                      key = (slot_at r i).key;
                      content = packet;
                    }))))

-- A call that takes the piece.
pub record Takes (packet : List ℕ) (count : ℕ) (off : ℕ → ℕ) (k : Key) (i : ℕ) (r : Reassembler)
    (f : Record) (out : After) : Type 0 where
  pub rest : Reassembler
  pub result : Outcome
  pub out_eq : out ≡ ok (rest, ok result)
  pub serves : Serves packet count off k i rest
  pub reports : Reports packet count i r f result
  pub arrived_eq : arrived i rest ≡ set (arrived i r) f.header.fragment_index true
  pub seen_eq : (slot_at rest i).first_seen ≡ (slot_at r i).first_seen
  pub generation_eq : (slot_at rest i).generation ≡ (slot_at r i).generation
  pub key_eq : (slot_at rest i).key ≡ (slot_at r i).key
  pub config_eq : rest.config ≡ r.config

pub set_present_same : (bs : List Bool) (i : ℕ) → get_or bs i false ≡ true → set bs i true ≡ bs
set_present_same [] i h = refl
set_present_same (b ∷ bs) zero h = ap (λ x. x ∷ bs) (sym h)
set_present_same (b ∷ bs) (suc i) h = ap (◌∷◌ b) (set_present_same bs i h)

pub finish_accepted :
    (r : Reassembler) (i : ℕ)
    → all_present (slot_at r i).count (slot_at r i).present ≡ false
    → finish r i none ≡ ok (r, ok (outcome accepted none none))
unfolding finish
finish_accepted r i more = rw more refl

-- A slot when its packet is complete.
abbrev pub closed : Slot → ℕ → Slot
closed s len = record s { state = completed; packet_len = len }

abbrev pub whole : ℕ → Slot → List ℕ → Packet
whole i s packet = record {
  handle = record { index = i; generation = s.generation };
  key = s.key;
  content = packet;
}

pub finish_completed :
    (r : Reassembler) (i len : ℕ) (packet : List ℕ)
    → all_present (slot_at r i).count (slot_at r i).present ≡ true
    → contiguous_length (slot_at r i) ≡ some len
    → take len (slot_at r i).buf ≡ packet
    → finish r i none
      ≡ ok (
        set_slot r i (closed (slot_at r i) len),
        ok (outcome completed_status (some (whole i (slot_at r i) packet)) none),
      )
unfolding finish
finish_completed r i len packet all long bytes = rw (all, long, bytes) refl
