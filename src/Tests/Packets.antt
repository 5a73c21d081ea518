-- ===== src/Tests/Packets.antt =====
-- internal/core/limits, packing and fragment at a packet of thirty bytes.
use wg_frag_go.Common.{
  ℕ, ◌-◌, ◌*◌, ◌≤◌, ◌≡◌, ◌↔◌, ◌⊎◌, refl, true, List, [], ◌∷◌, ok, arith, replicate, pos,
}
use wg_frag_go.Limits.{FitsSixteen, min_carrier_payload, min_carrier_payload-FitsSixteen}
use wg_frag_go.Packing.{Plan, make_plan, plan_checked, fresh_plan, ceil_div}
use wg_frag_go.Packing.Bounds.{FitsTail, TailPlan, FreshPlan, make_plan-starts, make_plan_iff}
use wg_frag_go.Fragment.{
  Metadata, Options, SplitResult, split, split_plan, split_loop, header_at, capacity,
}
use wg_frag_go.Fragment.Split.{Cut, split-Cut, split_iff}

abbrev pub packet : List ℕ
packet = replicate 30 9

abbrev pub metadata : Metadata
metadata = record { data_session_id = 5; lane_id = 2; lane_sequence = 77 }

abbrev pub options : Options
options = record { carrier_payload = pos 28; carrier_remaining = pos 20; min_pack = pos 4 }

abbrev tail_plan : Plan
tail_plan = record { start_in_tail = true; fragments = 3; first_data = 8 }

plans_in_tail : make_plan (pos 30) (pos 28) (pos 20) (pos 4) ≡ ok tail_plan
unfolding make_plan plan_checked fresh_plan ceil_div
plans_in_tail = refl

-- The three fragments have 8, 16 and 6 bytes.
abbrev pub cut : SplitResult
cut = record {
  fragments =
      record {
        header = record {
          fragment_index = 0;
          fragment_count = 3;
          lane_id = 2;
          data_session_id = 5;
          lane_sequence = 77;
          offset = 0;
        };
        content = replicate 8 9;
      }
      ∷ record {
        header = record {
          fragment_index = 1;
          fragment_count = 3;
          lane_id = 2;
          data_session_id = 5;
          lane_sequence = 77;
          offset = 8;
        };
        content = replicate 16 9;
      }
      ∷ record {
        header = record {
          fragment_index = 2;
          fragment_count = 3;
          lane_id = 2;
          data_session_id = 5;
          lane_sequence = 77;
          offset = 24;
        };
        content = replicate 6 9;
      }
      ∷ [];
  start_in_tail = true;
}

pub split-packet : split packet metadata options 16 ≡ ok cut
unfolding split split_plan split_loop header_at capacity make_plan plan_checked fresh_plan ceil_div
split-packet = refl

make_plan-starts_example :
    FitsTail 30 28 20 4 × TailPlan 30 16 8 tail_plan
    ⊎ ¬ FitsTail 30 28 20 4 × FreshPlan 30 16 tail_plan
make_plan-starts_example = make_plan-starts 30 28 20 4 tail_plan plans_in_tail

make_plan_iff_example :
    ((p : Plan) × (make_plan (pos 30) (pos 28) (pos 20) (pos 4) ≡ ok p)) ↔ (30 ≤ 16 * (28 - 12))
make_plan_iff_example =
    make_plan_iff 30 28 20 4 (omega arith) (omega arith) (omega arith) (omega arith)

split-Cut_example : Cut packet metadata options 16 cut
split-Cut_example = split-Cut packet metadata options 16 cut split-packet

split_iff_example :
    ((out : SplitResult) × (split packet metadata options 16 ≡ ok out)) ↔ (30 ≤ 16 * (28 - 12))
split_iff_example =
    split_iff packet metadata 28 20 4 (omega arith) (omega arith) (omega arith) (omega arith)
      (omega arith) (omega arith) (omega arith)

min_carrier_payload-FitsSixteen_example : (min_carrier_payload 9612 ≤ 613) ↔ FitsSixteen 9612 613
min_carrier_payload-FitsSixteen_example = min_carrier_payload-FitsSixteen 9612 613 (omega arith)
