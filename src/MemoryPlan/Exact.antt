-- ===== src/MemoryPlan/Exact.antt =====
-- internal/memoryplan/estimate.go: `Calculate`, against the sums and products without a bound.
use native.Mathlib.Nat.{mul-one}
use wg_frag_go.Common.{
  ℕ, ◌+◌, ◌*◌, ◌≤◌, ◌<◌, ◌≡◌, refl, ap, ◌∙◌, false, ◌||◌, [], ◌∷◌, Result, ok, err, ◌>>=◌, leb,
  ◌==◌, if◌then◌else◌, arith, Bool-cases, inl, inr,
}
use wg_frag_go.MemoryPlan.{
  Config, Estimate, EstimateError, invalid_config, max_uint64, uint64, sum_from, calculate,
}
use wg_frag_go.MemoryPlan.Gates.{
  plus, gate, gate_over, gate_fits, uint64_id, sum_from-gate, gate-then, product-gate,
}

-- The estimate without a bound.
abbrev pub exact : Config → Estimate
exact c =
    let reassembly = c.peers * (c.reassembly_slots * (c.mtu + 64)) in
    let sender = c.peers * (c.max_carrier_payload + 64) in
    let carrier = c.carrier_queue_slots * c.max_carrier_payload in
    let control = c.control_queue_slots * c.max_carrier_payload in
    let reorder = c.peers * (c.reorder_lanes * (c.reorder_capacity * 32)) in
    let tun = c.tun_batch_size * (c.mtu + 16) in
    record {
      reassembly_bytes = reassembly;
      sender_bytes = sender;
      carrier_bytes = carrier;
      control_bytes = control;
      reorder_bytes = reorder;
      tun_batch_bytes = tun;
      total_bytes = reassembly + sender + carrier + control + reorder + tun;
    }

-- No field is negative or zero, and the two that are added to are ints.
pub record IsConfig (c : Config) : Type 0 where
  pub mtu_pos : 1 ≤ c.mtu
  pub mtu_le : c.mtu ≤ 9223372036854775807
  pub peers_pos : 1 ≤ c.peers
  pub reassembly_slots_pos : 1 ≤ c.reassembly_slots
  pub max_carrier_payload_pos : 1 ≤ c.max_carrier_payload
  pub max_carrier_payload_le : c.max_carrier_payload ≤ 9223372036854775807
  pub carrier_queue_slots_pos : 1 ≤ c.carrier_queue_slots
  pub control_queue_slots_pos : 1 ≤ c.control_queue_slots
  pub reorder_capacity_pos : 1 ≤ c.reorder_capacity
  pub reorder_lanes_pos : 1 ≤ c.reorder_lanes
  pub tun_batch_size_pos : 1 ≤ c.tun_batch_size

abbrev estimate : ℕ → ℕ → ℕ → ℕ → ℕ → ℕ → ℕ → Estimate
estimate r s c k o t total = record {
  reassembly_bytes = r;
  sender_bytes = s;
  carrier_bytes = c;
  control_bytes = k;
  reorder_bytes = o;
  tun_batch_bytes = t;
  total_bytes = total;
}

-- `Calculate` after its first check, with the six products.
abbrev chain : ℕ → ℕ → ℕ → ℕ → ℕ → ℕ → Result EstimateError Estimate
chain r s c k o t = do
  r' ← gate r
  s' ← gate s
  c' ← gate c
  k' ← gate k
  o' ← gate o
  t' ← gate t
  total ← sum_from 0 (r' ∷ s' ∷ c' ∷ k' ∷ o' ∷ t' ∷ [])
  ok (estimate r' s' c' k' o' t' total)

sum-six : (r s c k o t : ℕ) → sum_from 0 (r ∷ s ∷ c ∷ k ∷ o ∷ t ∷ []) ≡ gate (r + s + c + k + o + t)
sum-six r s c k o t =
    sum_from-gate 0 (r ∷ s ∷ c ∷ k ∷ o ∷ t ∷ []) (omega arith)
    ∙ ap gate {x = 0 + plus (r ∷ s ∷ c ∷ k ∷ o ∷ t ∷ [])} {y = r + s + c + k + o + t} (omega arith)

chain_fits :
    (r s c k o t : ℕ)
    → r + s + c + k + o + t ≤ max_uint64
    → chain r s c k o t ≡ ok (estimate r s c k o t (r + s + c + k + o + t))
chain_fits r s c k o t h =
    let sum = sum-six r s c k o t ∙ gate_fits (r + s + c + k + o + t) h in
    rw
      (
        gate_fits r (omega arith),
        gate_fits s (omega arith),
        gate_fits c (omega arith),
        gate_fits k (omega arith),
        gate_fits o (omega arith),
        gate_fits t (omega arith),
        sum,
      )
      refl

chain_over :
    (r s c k o t : ℕ) → max_uint64 < r + s + c + k + o + t → chain r s c k o t ≡ err invalid_config
chain_over r s c k o t h = gate-then r _ (λ _. gate-then s _ (λ _. gate-then c _ (λ _.
    gate-then k _ (λ _. gate-then o _ (λ _.
      gate-then t _ (λ _. rw (sum-six r s c k o t, gate_over (r + s + c + k + o + t) h) refl))))))

chain_exact :
    (r s c k o t : ℕ)
    → chain r s c k o t ≡ (
        if leb (r + s + c + k + o + t) max_uint64
        then ok (estimate r s c k o t (r + s + c + k + o + t))
        else err invalid_config)
chain_exact r s c k o t = elim (Bool-cases (leb (r + s + c + k + o + t) max_uint64)) [
  | inl fits ↦ chain_fits r s c k o t (ground arith) ∙ rw fits refl
  | inr over ↦ chain_over r s c k o t (ground arith) ∙ rw over refl
]

not_zero : (n : ℕ) → 1 ≤ n → (n == 0) ≡ false
not_zero n h = ground arith

nonzero :
    (c : Config)
    → IsConfig c
    → ((c.mtu == 0)
        || (c.peers == 0)
        || (c.reassembly_slots == 0)
        || (c.max_carrier_payload == 0)
        || (c.carrier_queue_slots == 0)
        || (c.control_queue_slots == 0)
        || (c.reorder_capacity == 0)
        || (c.reorder_lanes == 0)
        || (c.tun_batch_size == 0))
      ≡ false
nonzero c v =
    rw
      (
        not_zero c.mtu v.mtu_pos,
        not_zero c.peers v.peers_pos,
        not_zero c.reassembly_slots v.reassembly_slots_pos,
        not_zero c.max_carrier_payload v.max_carrier_payload_pos,
        not_zero c.carrier_queue_slots v.carrier_queue_slots_pos,
        not_zero c.control_queue_slots v.control_queue_slots_pos,
        not_zero c.reorder_capacity v.reorder_capacity_pos,
        not_zero c.reorder_lanes v.reorder_lanes_pos,
        not_zero c.tun_batch_size v.tun_batch_size_pos,
      )
      refl

calculate-chain :
    (c : Config)
    → IsConfig c
    → calculate c
      ≡ chain
          (exact c).reassembly_bytes
          (exact c).sender_bytes
          (exact c).carrier_bytes
          (exact c).control_bytes
          (exact c).reorder_bytes
          (exact c).tun_batch_bytes
unfolding calculate
calculate-chain c v =
    let mtu : uint64 (c.mtu + 64) ≡ c.mtu + 64 = uint64_id (c.mtu + 64) (omega (arith, v.mtu_le)) in
    let batch : uint64 (c.mtu + 16) ≡ c.mtu + 16 =
      uint64_id (c.mtu + 16) (omega (arith, v.mtu_le)) in
    let payload : uint64 (c.max_carrier_payload + 64) ≡ c.max_carrier_payload + 64 =
      uint64_id (c.max_carrier_payload + 64) (omega (arith, v.max_carrier_payload_le)) in
    let r =
      product-gate (c.peers ∷ c.reassembly_slots ∷ (c.mtu + 64) ∷ []) (exact c).reassembly_bytes
        (v.peers_pos, (v.reassembly_slots_pos, (omega arith, tt)))
        (ap (λ n. c.peers * (c.reassembly_slots * n)) (mul-one (c.mtu + 64))) in
    let s =
      product-gate (c.peers ∷ (c.max_carrier_payload + 64) ∷ []) (exact c).sender_bytes
        (v.peers_pos, (omega arith, tt))
        (ap (◌*◌ c.peers) (mul-one (c.max_carrier_payload + 64))) in
    let d =
      product-gate (c.carrier_queue_slots ∷ c.max_carrier_payload ∷ []) (exact c).carrier_bytes
        (v.carrier_queue_slots_pos, (v.max_carrier_payload_pos, tt))
        (ap (◌*◌ c.carrier_queue_slots) (mul-one c.max_carrier_payload)) in
    let k =
      product-gate (c.control_queue_slots ∷ c.max_carrier_payload ∷ []) (exact c).control_bytes
        (v.control_queue_slots_pos, (v.max_carrier_payload_pos, tt))
        (ap (◌*◌ c.control_queue_slots) (mul-one c.max_carrier_payload)) in
    let o =
      product-gate (c.peers ∷ c.reorder_lanes ∷ c.reorder_capacity ∷ 32 ∷ [])
        (exact c).reorder_bytes
        (v.peers_pos, (v.reorder_lanes_pos, (v.reorder_capacity_pos, (omega arith, tt)))) refl in
    let t =
      product-gate (c.tun_batch_size ∷ (c.mtu + 16) ∷ []) (exact c).tun_batch_bytes
        (v.tun_batch_size_pos, (omega arith, tt))
        (ap (◌*◌ c.tun_batch_size) (mul-one (c.mtu + 16))) in
    rw (calculate, nonzero c v, mtu, batch, payload, r, s, d, k, o, t) refl

-- On a configuration without zero or negative fields, `Calculate` computes the exact estimate, without a wrap, where the
-- total is below 2^64, and fails where it is not.
pub calculate-exact :
    (c : Config)
    → IsConfig c
    → calculate c
      ≡ (if leb (exact c).total_bytes max_uint64 then ok (exact c) else err invalid_config)
calculate-exact c v = calculate-chain c v ∙ chain_exact _ _ _ _ _ _
