-- ===== src/Tests/Lanes.antt =====
-- internal/core/reorder on a lane that is about to wrap.
use wg_frag_go.Common.{
  ℕ, ◌≡◌, refl, true, false, List, [], ◌∷◌, some, none, arith, pos, ok, length, ◌⊎◌, err, ◌<◌, ◌≤◌,
}
use wg_frag_go.Reassembly.{Packet}
use wg_frag_go.Reorder.{
  matches_lane, Reorderer, Config, Lane, held, new, invalid_config, output_too_small,
}
use wg_frag_go.Reorder.Queue.{accept, tick, flush, reset}
use wg_frag_go.Reorder.Inv.{Inv}
use wg_frag_go.Reorder.Flush.{
  IsConfig, IsNew, new-cases, IsDue, Empties, tick-cases, flush-Empties, reset-cases,
}
use wg_frag_go.Reorder.Run.{
  Event, arrives, ticks, flushes, AllInLane, Conserves, calls, calls-Conserves,
}

abbrev lane_config : Config
lane_config = record {
  enabled = true;
  capacity = pos 2;
  max_delay = 50;
  lane = record { peer_id = 7; data_session_id = 9; lane_id = 1 };
  next_sequence = 4294967294;
}

abbrev numbered : ℕ → Packet
numbered n = record {
  handle = record { index = 0; generation = 1 };
  key = record { peer_id = 7; data_session_id = 9; lane_id = 1; lane_sequence = n };
  content = n ∷ [];
}

-- Sequence 0, two places beyond what is expected, is held.
abbrev waiting : Reorderer
waiting = record {
  config = lane_config;
  next = 4294967294;
  entries = some (numbered 0) ∷ none ∷ [];
  count = 1;
  gap_started_at = some 100;
}

waiting-Inv : Inv waiting
waiting-Inv = record {
  enabled = refl;
  counted = refl;
  next_lt = omega arith;
  distinct = (tt, tt);
  beyond = ((omega arith, omega arith), tt);
  near = (omega arith, tt);
  gap = refl;
}

abbrev traffic : List Event
traffic =
    arrives 110 (numbered 4294967295)
    ∷ arrives 120 (numbered 2)
    ∷ arrives 130 (numbered 4294967294)
    ∷ ticks 170
    ∷ flushes
    ∷ []

traffic_outs :
    calls waiting traffic
    ≡ ok (record {
      rest = record {
        config = lane_config;
        next = 3;
        entries = none ∷ none ∷ [];
        count = 0;
        gap_started_at = none;
      };
      ins = numbered 4294967295 ∷ numbered 2 ∷ [];
      outs = numbered 4294967295 ∷ numbered 0 ∷ numbered 2 ∷ [];
    })
unfolding calls wg_frag_go.Reorder.Run.call accept wg_frag_go.Reorder.matches_lane
    wg_frag_go.Reorder.ahead_of wg_frag_go.Reorder.contains wg_frag_go.Reorder.find_from
    wg_frag_go.Reorder.Queue.enqueue wg_frag_go.Reorder.insert wg_frag_go.Reorder.insert_at
    wg_frag_go.Reorder.flush_including_all wg_frag_go.Reorder.flush_including_loop
    wg_frag_go.Reorder.closest_ahead wg_frag_go.Reorder.closest_from wg_frag_go.Reorder.flush_loop
    tick flush
traffic_outs = refl

calls-Conserves_example : Conserves waiting (calls waiting traffic)
calls-Conserves_example = calls-Conserves waiting traffic waiting-Inv (
  (omega arith, refl, refl, refl),
  ((omega arith, refl, refl, refl), ((omega arith, refl, refl, refl), (tt, (tt, tt)))),
)

tick-cases_example :
    (IsDue waiting 150 × Empties waiting (tick waiting 150 2))
    ⊎ (¬ IsDue waiting 150 × (tick waiting 150 2 ≡ ok (waiting, [])))
tick-cases_example = tick-cases waiting 150 2 waiting-Inv (omega arith)

flush-Empties_example : Empties waiting (flush waiting 2)
flush-Empties_example = flush-Empties waiting 2 waiting-Inv (omega arith)

reset-cases_example :
    ((1 ≤ 1)
      × ((rest : Reorderer) × (reset waiting 5 1 ≡ ok (rest, held waiting.entries))
          × Inv rest
          × (rest.next ≡ 5)
          × (held rest.entries ≡ [])
          × (length rest.entries ≡ 2)))
    ⊎ ((1 < 1) × (reset waiting 5 1 ≡ err output_too_small))
reset-cases_example = reset-cases waiting 5 1 waiting-Inv (omega arith)

new-cases_example :
    ((lane_config.enabled ≡ false)
      × ((r : Reorderer) × (new lane_config ≡ ok r)
          × (r.config ≡ lane_config)
          × (r.next ≡ lane_config.next_sequence)
          × (r.entries ≡ [])))
    ⊎ ((lane_config.enabled ≡ true)
        × ((IsConfig lane_config
              × ((r : Reorderer) × (new lane_config ≡ ok r) × IsNew lane_config r))
            ⊎ (¬ IsConfig lane_config × (new lane_config ≡ err invalid_config))))
new-cases_example = new-cases lane_config (omega arith)
