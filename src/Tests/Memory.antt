-- ===== src/Tests/Memory.antt =====
-- internal/memoryplan at the sizes of a small tunnel.
use wg_frag_go.Common.{◌≡◌, ok, err, leb, if◌then◌else◌, arith}
use wg_frag_go.MemoryPlan.{Config, calculate, max_uint64, invalid_config}
use wg_frag_go.MemoryPlan.Exact.{exact, calculate-exact}

abbrev small : Config
small = record {
  mtu = 1420;
  peers = 4;
  reassembly_slots = 64;
  max_carrier_payload = 1200;
  carrier_queue_slots = 32;
  control_queue_slots = 8;
  reorder_capacity = 16;
  reorder_lanes = 256;
  tun_batch_size = 128;
}

calculate-exact_example :
    calculate small
    ≡ (if leb (exact small).total_bytes max_uint64 then ok (exact small) else err invalid_config)
calculate-exact_example = calculate-exact small (record {
  mtu_pos = omega arith;
  mtu_le = omega arith;
  peers_pos = omega arith;
  reassembly_slots_pos = omega arith;
  max_carrier_payload_pos = omega arith;
  max_carrier_payload_le = omega arith;
  carrier_queue_slots_pos = omega arith;
  control_queue_slots_pos = omega arith;
  reorder_capacity_pos = omega arith;
  reorder_lanes_pos = omega arith;
  tun_batch_size_pos = omega arith;
})
