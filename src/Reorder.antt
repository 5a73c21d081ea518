-- ===== src/Reorder.antt =====
-- internal/core/reorder/reorder.go: the bounded queue of one lane.
-- An entry that is not used is `none`. A caller's output slice is given by its length, and what is
-- written to it is the list of a result. `index_panic` stands for Go's panic at index -1.
-- Instants and durations are numbers of nanoseconds; a negative duration fails the check of `New`
-- as zero does. The zero `time.Time` of `gapStartedAt` is `none`.
pub mod Queue
pub mod Held
pub mod Emits
pub mod Loops
pub mod Inv
pub mod Accept
pub mod Deliver
pub mod Enqueue
pub mod Calls
pub mod Flush
pub mod Run
use wg_frag_go.Common.{
  ℕ, zero, suc, ◌+◌, ◌-◌, ◌%◌, Bool, true, false, not, ◌&&◌, ◌||◌, List, [], ◌∷◌, ◌++◌, Option,
  none, some, Result, ok, err, ◌>>=◌, ◌>>◌, refuse, ltb, leb, ◌==◌, if◌then◌else◌, length, set,
  replicate, ℤ, pos, pos_part, neg_part, ltb_ℤ, leb_ℤ,
}
use wg_frag_go.Reassembly.{Key, Packet}

abbrev pub half_sequence_space : ℕ
half_sequence_space = 2147483648

abbrev pub sequence_space : ℕ
sequence_space = 4294967296

pub data ReorderError : Type 0 where
  invalid_config wrong_lane output_too_small index_panic : ReorderError

pub record Lane : Type 0 where
  pub peer_id : ℕ
  pub data_session_id : ℕ
  pub lane_id : ℕ

pub record Config : Type 0 where
  pub enabled : Bool
  pub capacity : ℤ
  pub max_delay : ℕ
  pub lane : Lane
  pub next_sequence : ℕ

pub data Status : Type 0 where
  delivered queued duplicate late flushed : Status

pub record Reorderer : Type 0 where
  pub config : Config
  pub next : ℕ
  pub entries : List (Option Packet)
  pub count : ℕ
  pub gap_started_at : Option ℕ

abbrev pub Entries : Type 0
Entries = List (Option Packet)

unfoldable pub new : Config → Result ReorderError Reorderer
new c =
    if not c.enabled
    then ok (record {
      config = c;
      next = c.next_sequence;
      entries = [];
      count = 0;
      gap_started_at = none;
    })
    else (if leb_ℤ c.capacity (pos 0)
          || leb half_sequence_space (pos_part c.capacity)
          || (c.max_delay == 0)
          || (c.lane.data_session_id == 0)
        then err invalid_config
        else ok (record {
          config = c;
          next = c.next_sequence;
          entries = replicate (pos_part c.capacity) none;
          count = 0;
          gap_started_at = none;
        }))

abbrev pub sequence_of : Packet → ℕ
sequence_of p = p.key.lane_sequence

-- `sequence - expected`, in uint32.
abbrev pub distance : ℕ → ℕ → ℕ
distance expected sequence = (sequence + sequence_space - expected) % sequence_space

unfoldable pub ahead_of : ℕ → ℕ → Bool
ahead_of sequence expected =
    let delta = distance expected sequence in not (delta == 0) && ltb delta half_sequence_space

unfoldable pub matches_lane : Reorderer → Packet → Bool
matches_lane r p =
    if not r.config.enabled
    then true
    else ((p.key.peer_id == r.config.lane.peer_id)
        && (p.key.data_session_id == r.config.lane.data_session_id)
        && (p.key.lane_id == r.config.lane.lane_id))

-- The packets of the used entries, by index.
abbrev pub held : Entries → List Packet
held [] = []
held (none ∷ es) = held es
held (some p ∷ es) = p ∷ held es

-- The loop of `insert`: the first entry that is not used.
unfoldable pub insert_at : Packet → Entries → Option Entries
insert_at p [] = none
insert_at p (none ∷ es) = some (some p ∷ es)
insert_at p (some q ∷ es) = elim (insert_at p es) [ none ↦ none | some es' ↦ some (some q ∷ es') ]

unfoldable pub insert : Reorderer → Packet → Reorderer
insert r p = elim (insert_at p r.entries) [
  | none ↦ r
  | some es ↦ record r { entries = es; count = r.count + 1 }
]

-- The index of the first used entry with this sequence, with its packet.
unfoldable pub find_from : ℕ → ℕ → Entries → Option (ℕ × Packet)
find_from i sequence [] = none
find_from i sequence (none ∷ es) = find_from (suc i) sequence es
find_from i sequence (some p ∷ es) =
    let rest = find_from (suc i) sequence es in
    if sequence_of p == sequence then some (i, p) else rest

unfoldable pub contains : Reorderer → ℕ → Bool
contains r sequence = elim (find_from 0 sequence r.entries) [ none ↦ false | some e ↦ true ]

-- The first entry, from index `i` on, that is closer to `next` than the best so far.
unfoldable pub closest_from : ℕ → ℕ → Option (ℕ × Packet) → Entries → Option (ℕ × Packet)
closest_from next i best [] = best
closest_from next i best (none ∷ es) = closest_from next (suc i) best es
closest_from next i none (some p ∷ es) = closest_from next (suc i) (some (i, p)) es
closest_from next i (some (j, q)) (some p ∷ es) =
    closest_from next (suc i)
      (if ltb (distance next (sequence_of p)) (distance next (sequence_of q))
        then some (i, p)
        else some (j, q))
      es

unfoldable pub closest_ahead : Reorderer → Option (ℕ × Packet)
closest_ahead r = closest_from r.next 0 none r.entries

-- `r.next++`, and `out[n].Key.LaneSequence + 1`.
abbrev pub after_sequence : ℕ → ℕ
after_sequence n = (n + 1) % sequence_space

-- The entry at index `i` is cleared, and `next` is what follows its packet.
abbrev pub take_out : Reorderer → ℕ → ℕ → Reorderer
take_out r i next = record r { entries = set r.entries i none; count = r.count - 1; next = next }

-- The loop of `drainContiguous`; each round clears an entry.
unfoldable pub drain_loop : ℕ → Reorderer → Reorderer × List Packet
drain_loop zero r = (r, [])
drain_loop (suc fuel) r = elim (find_from 0 r.next r.entries) [
  | none ↦ (r, [])
  | some (i, p) ↦
      let rest = drain_loop fuel (take_out r i (after_sequence r.next)) in (rest.0, p ∷ rest.1)
]

unfoldable pub drain_contiguous : Reorderer → Reorderer × List Packet
drain_contiguous r = if r.count == 0 then (r, []) else drain_loop (length r.entries) r

-- The loop of `flush`: `none` for the panic, or for no fuel.
unfoldable pub flush_loop : ℕ → Reorderer → Option (Reorderer × List Packet)
flush_loop zero r = if r.count == 0 then some (r, []) else none
flush_loop (suc fuel) r = elim (r.count == 0) [
  | true ↦ some (r, [])
  | false ↦ elim (closest_ahead r) [
    | none ↦ none
    | some (i, p) ↦ elim (flush_loop fuel (take_out r i (after_sequence (sequence_of p)))) [
      | none ↦ none
      | some (r', ps) ↦ some (r', p ∷ ps)
    ]
  ]
]

abbrev pub no_gap : Reorderer → Reorderer
no_gap r = record r { gap_started_at = none }

abbrev pub ended {ℓ} : {A : Type ℓ} → Option (Reorderer × A) → Result ReorderError (Reorderer × A)
ended none = err index_panic
ended (some (r, a)) = ok (no_gap r, a)

-- The private `flush`.
unfoldable pub flush_all : Reorderer → Result ReorderError (Reorderer × List Packet)
flush_all r = ended (flush_loop r.count r)

-- Is the incoming packet to go out before the closest held one?
abbrev pub virtual_first : ℕ → Packet → Option (ℕ × Packet) → Bool
virtual_first next v none = true
virtual_first next v (some (i, p)) =
    ltb (distance next (sequence_of v)) (distance next (sequence_of p))

-- The loop of `flushIncluding` until `virtual` is out; from there on it is the loop of `flush`.
unfoldable pub flush_including_loop : ℕ → Reorderer → Packet → Option (Reorderer × List Packet)
flush_including_loop zero r v = none
flush_including_loop (suc fuel) r v = elim (virtual_first r.next v (closest_ahead r)) [
  | true ↦ elim (flush_loop fuel (record r { next = after_sequence (sequence_of v) })) [
    | none ↦ none
    | some (r', ps) ↦ some (r', v ∷ ps)
  ]
  | false ↦ elim (closest_ahead r) [
    | none ↦ none
    | some (i, p) ↦
        elim (flush_including_loop fuel (take_out r i (after_sequence (sequence_of p))) v) [
          | none ↦ none
          | some (r', ps) ↦ some (r', p ∷ ps)
        ]
  ]
]

-- The private `flushIncluding`.
unfoldable pub flush_including_all :
    Reorderer → Packet → Result ReorderError (Reorderer × List Packet)
flush_including_all r p = ended (flush_including_loop (r.count + 1) r p)
