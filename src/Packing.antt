-- ===== src/Packing.antt =====
-- internal/core/packing/plan.go: may a packet start in the tail of the current carrier?
-- The arguments are Go's `int`s, which the checks test for being negative. What follows the checks
-- is over natural numbers: `tailData >= minPack` is `minPack + 12 <= remaining` there.
pub mod Bounds
use wg_frag_go.Common.{
  ℕ, ◌+◌, ◌-◌, ◌/◌, min, Bool, true, false, ◌||◌, Result, ok, err, ◌>>=◌, ◌>>◌, refuse, ltb, leb,
  ◌==◌, if◌then◌else◌, ℤ, pos, pos_part, neg_part, ltb_ℤ, leb_ℤ,
}
use wg_frag_go.Limits.{data_header_size, max_fragments}

pub record Plan : Type 0 where
  pub start_in_tail : Bool
  pub fragments : ℕ
  pub first_data : ℕ

pub data PlanError : Type 0 where
  packet_length carrier_payload_small remaining_range min_pack_low too_many : PlanError

unfoldable pub ceil_div : ℕ → ℕ → ℕ
ceil_div n d = if n == 0 then 0 else (n + d - 1) / d

-- From a fresh carrier.
unfoldable pub fresh_plan : ℕ → ℕ → Result PlanError Plan
fresh_plan packet_len full_data =
    let fragments = ceil_div packet_len full_data in
    if ltb max_fragments fragments
    then err too_many
    else ok (record { start_in_tail = false; fragments = fragments; first_data = 0 })

-- Behind the checks.
unfoldable pub plan_checked : ℕ → ℕ → ℕ → ℕ → Result PlanError Plan
plan_checked packet_len carrier_payload remaining min_pack =
    let full_data = carrier_payload - data_header_size in
    let tail_data = remaining - data_header_size in
    let first = min packet_len tail_data in
    let fragments = 1 + ceil_div (packet_len - first) full_data in
    if leb (min_pack + data_header_size) remaining
    then (if leb fragments max_fragments
        then ok (record { start_in_tail = true; fragments = fragments; first_data = first })
        else fresh_plan packet_len full_data)
    else fresh_plan packet_len full_data

unfoldable pub make_plan : ℤ → ℤ → ℤ → ℤ → Result PlanError Plan
make_plan packet_len carrier_payload remaining min_pack = do
  refuse (ltb_ℤ packet_len (pos 1)) packet_length
  refuse (leb_ℤ carrier_payload (pos data_header_size)) carrier_payload_small
  refuse (ltb_ℤ remaining (pos 0) || ltb_ℤ carrier_payload remaining) remaining_range
  refuse (ltb_ℤ min_pack (pos 1)) min_pack_low
  plan_checked (pos_part packet_len) (pos_part carrier_payload) (pos_part remaining)
      (pos_part min_pack)
