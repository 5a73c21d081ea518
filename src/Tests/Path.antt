-- ===== src/Tests/Path.antt =====
-- internal/core/pmtu on a path that carries 800 bytes.
use wg_frag_go.Common.{ℕ, ◌%◌, ◌==◌, ◌≡◌, refl, Bool, false, List, [], ◌∷◌, none, some, arith}
use wg_frag_go.Pmtu.{Config, State, new, identity, searching}
use wg_frag_go.Pmtu.Machine.{
  Event, starts, sends, acks, times_out, blackholes, start_with_hint, run,
}
use wg_frag_go.Pmtu.Inv.{Inv}
use wg_frag_go.Pmtu.Steps.{run-new-Inv}
use wg_frag_go.Pmtu.Live.{IsLive, run-start-IsLive}
use wg_frag_go.Pmtu.Converges.{drive, search_converges}

abbrev config : Config
config = record {
  base = 613;
  ceiling = 2000;
  canonicalize = none;
  probe_timeout = 1000000000;
  refresh_interval = 600000000000;
  confirmation_interval = 30000000000;
}

abbrev fresh : State
fresh = record {
  config = config;
  canonicalize = identity;
  confirmed = 613;
  low = 0;
  bad = 0;
  candidate = 0;
  rounds = record { first = 0; second = 0; third = 0 };
  results = 0;
  attempt = 0;
  in_flight = false;
  pending = false;
  deadline = 0;
  next_refresh = none;
  candidate_tries = 0;
  confirming = false;
  refreshing = false;
  confirmation_candidate = 0;
  confirm_failures = 0;
  next_confirmation = none;
  blackholed = false;
  srtt = 0;
  search_hint = 0;
}

new-fresh : new config ≡ some fresh
unfolding new
new-fresh = refl

abbrev calls : List (ℕ × Event)
calls =
    (1, starts)
    ∷ (2, sends)
    ∷ (3, acks 1 1226)
    ∷ (4, sends)
    ∷ (9000000000, times_out)
    ∷ (10, blackholes)
    ∷ []

run-new-Inv_example : Inv (run fresh calls)
run-new-Inv_example = run-new-Inv config fresh calls (omega arith) new-fresh

run-start-IsLive_example : IsLive (run (start_with_hint fresh 5 900) calls)
run-start-IsLive_example = run-start-IsLive config fresh 5 900 calls (omega arith) new-fresh

-- Losses of probes of an even size are reported.
abbrev by_parity : ℕ → Bool
by_parity size = size % 2 == 0

search_converges_example :
    let s = drive by_parity 800 2777 (start_with_hint fresh 1 900) 1 in
    (s.confirmed ≡ 800) × (searching s ≡ false)
search_converges_example =
    search_converges by_parity config 800 900 1 2777 fresh refl (omega arith) (omega arith)
      (omega arith) new-fresh (omega arith)
