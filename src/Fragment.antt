-- ===== src/Fragment.antt =====
-- internal/core/fragment/fragment.go: cut one inner packet into DATA records.
-- The descriptors are a list; the caller's slice is given by its length. A fragment's bytes are a
-- copy here, where the source aliases the packet.
pub mod Cover
pub mod Split
use wg_frag_go.Common.{
  ℕ, zero, suc, ◌+◌, ◌-◌, ◌%◌, min, Bool, ◌&&◌, ◌||◌, not, List, [], ◌∷◌, Result, ok, err, ◌>>=◌,
  ◌>>◌, refuse, ltb, ◌==◌, if◌then◌else◌, length, take, drop, ℤ, pos, pos_part, neg_part, ltb_ℤ,
  leb_ℤ,
}
use wg_frag_go.Limits.{max_fragments, max_inner_mtu}
use wg_frag_go.Packing.{Plan, PlanError, make_plan}
use wg_frag_go.Carrier.Record.{Header, Record, header_size, max_uint16}

pub data FragmentError : Type 0 where
  packet_size data_session_id carrier_payload carrier_remaining min_pack : FragmentError
  too_many_fragments output_too_short : FragmentError

pub record Metadata : Type 0 where
  pub data_session_id : ℕ
  pub lane_id : ℕ
  pub lane_sequence : ℕ

pub record Options : Type 0 where
  pub carrier_payload : ℤ
  pub carrier_remaining : ℤ
  pub min_pack : ℤ

-- `fragment.Fragment` is the pair of a header and its bytes, as `carrier.Record` is.
abbrev pub Fragment : Type 0
Fragment = Record

-- The field `Fragments` of the source.
pub record SplitResult : Type 0 where
  pub fragments : List Fragment
  pub start_in_tail : Bool

module _ (packet : List ℕ) (metadata : Metadata) (plan : Plan) (full_data : ℕ) where
  -- `capacity` in round `i`.
  unfoldable pub capacity : ℕ → ℕ
  capacity i = if (i == 0) && plan.start_in_tail then plan.first_data else full_data

  unfoldable pub header_at : ℕ → ℕ → Header
  header_at i offset = record {
    fragment_index = i % 256;
    fragment_count = plan.fragments % 256;
    lane_id = metadata.lane_id;
    data_session_id = metadata.data_session_id;
    lane_sequence = metadata.lane_sequence;
    offset = offset % 65536;
  }

  -- The loop, with the number of rounds left: the descriptors, and `offset` at the end.
  unfoldable pub split_loop : ℕ → ℕ → ℕ → List Fragment × ℕ
  split_loop zero i offset = ([], offset)
  split_loop (suc rounds) i offset =
      let data_len = min (capacity i) (length packet - offset) in
      let rest = split_loop rounds (i + 1) (offset + data_len) in
      (
        record { header = header_at i offset; content = take data_len (drop offset packet) }
            ∷ rest.0,
        rest.1,
      )

-- Every error of `MakePlan` becomes ErrTooManyFragments.
abbrev pub or_too_many : Result PlanError Plan → Result FragmentError Plan
or_too_many (ok plan) = ok plan
or_too_many (err e) = err too_many_fragments

-- The checks and the plan that stand before the loop.
unfoldable pub split_plan : List ℕ → Metadata → Options → ℕ → Result FragmentError Plan
split_plan packet metadata options output_len = do
  refuse (ltb (length packet) 1 || ltb max_inner_mtu (length packet)) packet_size
  refuse (metadata.data_session_id == 0) data_session_id
  refuse
      (leb_ℤ options.carrier_payload (pos header_size)
        || ltb_ℤ (pos max_uint16) options.carrier_payload)
      carrier_payload
  refuse
      (ltb_ℤ options.carrier_remaining (pos 0)
        || ltb_ℤ options.carrier_payload options.carrier_remaining)
      carrier_remaining
  refuse (ltb_ℤ options.min_pack (pos 1)) min_pack
  plan ← or_too_many (
      make_plan (pos (length packet)) options.carrier_payload options.carrier_remaining
        options.min_pack)
  refuse (ltb plan.fragments 1 || ltb max_fragments plan.fragments) too_many_fragments
  refuse (ltb output_len plan.fragments) output_too_short
  ok plan

unfoldable pub split : List ℕ → Metadata → Options → ℕ → Result FragmentError SplitResult
split packet metadata options output_len = do
  plan ← split_plan packet metadata options output_len
  let full_data = pos_part options.carrier_payload - header_size
  let cut = split_loop packet metadata plan full_data plan.fragments 0 0
  refuse (not (cut.1 == length packet)) too_many_fragments
  ok (record { fragments = cut.0; start_in_tail = plan.start_in_tail })
