-- ===== src/MemoryPlan.antt =====
-- internal/memoryplan/estimate.go: the memory that a configuration reserves, in uint64.
-- A field that is negative fails the check as zero does, so these are natural numbers.
pub mod Gates
pub mod Exact
use wg_frag_go.Common.{
  ℕ, ◌+◌, ◌-◌, ◌*◌, ◌/◌, ◌%◌, ◌&&◌, ◌||◌, not, List, [], ◌∷◌, Result, ok, err, ◌>>=◌, ltb, ◌==◌,
  if◌then◌else◌,
}

pub record Config : Type 0 where
  pub mtu : ℕ
  pub peers : ℕ
  pub reassembly_slots : ℕ
  pub max_carrier_payload : ℕ
  pub carrier_queue_slots : ℕ
  pub control_queue_slots : ℕ
  pub reorder_capacity : ℕ
  pub reorder_lanes : ℕ
  pub tun_batch_size : ℕ

pub record Estimate : Type 0 where
  pub reassembly_bytes : ℕ
  pub sender_bytes : ℕ
  pub carrier_bytes : ℕ
  pub control_bytes : ℕ
  pub reorder_bytes : ℕ
  pub tun_batch_bytes : ℕ
  pub total_bytes : ℕ

pub data EstimateError : Type 0 where
  invalid_config : EstimateError

abbrev pub reassembly_metadata_bytes : ℕ
reassembly_metadata_bytes = 64

abbrev pub sender_metadata_bytes : ℕ
sender_metadata_bytes = 64

abbrev pub reorder_entry_bytes : ℕ
reorder_entry_bytes = 32

abbrev pub batch_metadata_bytes : ℕ
batch_metadata_bytes = 16

-- `^uint64(0)`.
abbrev pub max_uint64 : ℕ
max_uint64 = 18446744073709551615

abbrev pub uint64 : ℕ → ℕ
uint64 n = n % 18446744073709551616

-- The loop of `product`.
unfoldable pub product_from : ℕ → List ℕ → Result EstimateError ℕ
product_from out [] = ok out
product_from out (value ∷ values) =
    let rest = product_from (uint64 (out * value)) values in
    if not (value == 0) && ltb (max_uint64 / value) out then err invalid_config else rest

unfoldable pub product : List ℕ → Result EstimateError ℕ
product values = product_from 1 values

-- The loop over the parts in `Calculate`.
unfoldable pub sum_from : ℕ → List ℕ → Result EstimateError ℕ
sum_from total [] = ok total
sum_from total (part ∷ parts) =
    let rest = sum_from (uint64 (total + part)) parts in
    if ltb (max_uint64 - total) part then err invalid_config else rest

-- The sums of two ints wrap, and are converted to uint64.
unfoldable pub calculate : Config → Result EstimateError Estimate
calculate c =
    if (c.mtu == 0)
      || (c.peers == 0)
      || (c.reassembly_slots == 0)
      || (c.max_carrier_payload == 0)
      || (c.carrier_queue_slots == 0)
      || (c.control_queue_slots == 0)
      || (c.reorder_capacity == 0)
      || (c.reorder_lanes == 0)
      || (c.tun_batch_size == 0)
    then err invalid_config
    else (do
      reassembly ←
          product (c.peers ∷ c.reassembly_slots ∷ uint64 (c.mtu + reassembly_metadata_bytes) ∷ [])
      sender ← product (c.peers ∷ uint64 (c.max_carrier_payload + sender_metadata_bytes) ∷ [])
      carrier ← product (c.carrier_queue_slots ∷ c.max_carrier_payload ∷ [])
      control ← product (c.control_queue_slots ∷ c.max_carrier_payload ∷ [])
      reorder ← product (c.peers ∷ c.reorder_lanes ∷ c.reorder_capacity ∷ reorder_entry_bytes ∷ [])
      tun ← product (c.tun_batch_size ∷ uint64 (c.mtu + batch_metadata_bytes) ∷ [])
      total ← sum_from 0 (reassembly ∷ sender ∷ carrier ∷ control ∷ reorder ∷ tun ∷ [])
      ok (record {
        reassembly_bytes = reassembly;
        sender_bytes = sender;
        carrier_bytes = carrier;
        control_bytes = control;
        reorder_bytes = reorder;
        tun_batch_bytes = tun;
        total_bytes = total;
      }))
