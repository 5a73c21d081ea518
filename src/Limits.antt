-- ===== src/Limits.antt =====
-- internal/core/limits/limits.go: the bounds that the wire format sets.
use wg_frag_go.Common.{ℕ, ◌+◌, ◌-◌, ◌*◌, ◌/◌, ◌≤◌, max, ◌↔◌, ◌||◌, Result, ◌>>◌, refuse, ltb, arith}

abbrev pub data_header_size : ℕ
data_header_size = 12

abbrev pub max_fragments : ℕ
max_fragments = 16

abbrev pub min_inner_mtu : ℕ
min_inner_mtu = 1280

abbrev pub max_inner_mtu : ℕ
max_inner_mtu = 9612

abbrev pub default_carrier_payload : ℕ
default_carrier_payload = 613

pub data LimitError : Type 0 where
  inner_mtu_range carrier_payload_low : LimitError

unfoldable pub min_carrier_payload : ℕ → ℕ
min_carrier_payload mtu = (mtu + max_fragments - 1) / max_fragments + data_header_size

unfoldable pub validate_inner_mtu : ℕ → Result LimitError (Unit {0})
validate_inner_mtu mtu = refuse (ltb mtu min_inner_mtu || ltb max_inner_mtu mtu) inner_mtu_range

unfoldable pub validate_min_carrier_payload : ℕ → ℕ → Result LimitError (Unit {0})
unfolding validate_inner_mtu min_carrier_payload
validate_min_carrier_payload mtu payload = do
  validate_inner_mtu mtu
  let minimum = max default_carrier_payload (min_carrier_payload mtu)
  refuse (ltb payload minimum) carrier_payload_low

-- Sixteen records of carriers with this payload hold a packet of the MTU.
abbrev pub FitsSixteen : ℕ → ℕ → Type 0
FitsSixteen mtu payload = mtu ≤ 16 * (payload - 12)

-- For an MTU of 1 or more, `MinCarrierPayload` is the least payload with which sixteen records hold an inner packet of it: the payloads
-- from it on hold one, and no smaller payload does.
pub min_carrier_payload-FitsSixteen :
    (mtu payload : ℕ) → 1 ≤ mtu → (min_carrier_payload mtu ≤ payload) ↔ FitsSixteen mtu payload
unfolding min_carrier_payload
min_carrier_payload-FitsSixteen mtu payload pos = (λ h. omega arith, λ h. omega arith)
