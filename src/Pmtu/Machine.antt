-- ===== src/Pmtu/Machine.antt =====
-- pmtu.go, the operations that the control plane calls.
use wg_frag_go.Common.{
  ℕ, ◌+◌, ◌-◌, ◌*◌, ◌/◌, ◌%◌, Bool, true, false, not, ◌||◌, Option, none, some, ltb, leb, ◌==◌,
  if◌then◌else◌, List, [], ◌∷◌, ℤ, pos, negsuc,
}
use wg_frag_go.Pmtu.{
  State, Probe, searching, u64_mod, confirmation_failure_limit, minimum_probe_timeout, max_duration,
}
use wg_frag_go.Pmtu.Search.{begin_round, success, failure}

unfoldable pub outstanding : State → Option Probe
outstanding s =
    if s.in_flight then some (record { attempt = s.attempt; payload_size = s.candidate }) else none

unfoldable pub adjust_current : State → ℕ → ℕ → State × Bool
adjust_current s attempt payload_size =
    if not s.in_flight
      || not (attempt == s.attempt)
      || ltb payload_size s.config.base
      || ltb s.config.ceiling payload_size
    then (s, false)
    else (record s { candidate = payload_size }, true)

-- The private `start`.
unfoldable pub start_search : State → ℕ → Bool → State
start_search s now refreshing =
    let s1 = record s {
      search_hint = if refreshing then 0 else s.search_hint;
      results = 0;
      confirming = false;
      refreshing = refreshing;
      confirmation_candidate = 0;
      confirm_failures = 0;
      next_confirmation = none;
    } in
    if s.config.ceiling == s.config.base
    then record s1 {
      confirmed = s.config.base;
      pending = false;
      in_flight = false;
      search_hint = 0;
      next_refresh = some (now + s.config.refresh_interval);
      next_confirmation = some (now + s.config.confirmation_interval);
    }
    else begin_round s1 now

unfoldable pub start : State → ℕ → State
start s now = start_search (record s { search_hint = 0 }) now false

unfoldable pub start_with_hint : State → ℕ → ℕ → State
start_with_hint s now hint = start_search (record s { search_hint = hint }) now false

-- `t.IsZero() || now.Before(t)`.
abbrev pub not_due : Option ℕ → ℕ → Bool
not_due none now = true
not_due (some t) now = ltb now t

unfoldable pub refresh_due : State → ℕ → State × Bool
refresh_due s now =
    if searching s || not_due s.next_refresh now
    then (s, false)
    else (start_search s now true, true)

unfoldable pub confirmation_due : State → ℕ → State × Bool
confirmation_due s now = if searching s || not_due s.next_confirmation now then (s, false) else (
  record s {
    confirming = true;
    confirmation_candidate = 0;
    candidate = s.confirmed;
    candidate_tries = 0;
    pending = true;
  },
  true,
)

unfoldable pub probe_timeout : State → ℕ
probe_timeout s =
    if s.srtt == 0
    then s.config.probe_timeout
    else (if ltb (max_duration / 4) s.srtt
        then max_duration
        else (if ltb (4 * s.srtt) minimum_probe_timeout then minimum_probe_timeout else 4 * s.srtt))

unfoldable pub next : State → ℕ → State × Option Probe
next s now = if not s.pending then (s, none) else (
  record s {
    pending = false;
    in_flight = true;
    attempt = (s.attempt + 1) % u64_mod;
    candidate_tries = s.candidate_tries + 1;
    deadline = now + probe_timeout s;
  },
  some (record { attempt = (s.attempt + 1) % u64_mod; payload_size = s.candidate }),
)

unfoldable pub confirm_success : State → ℕ → State
confirm_success s now =
    if not (s.confirmation_candidate == 0)
    then record s {
      confirmed = s.confirmation_candidate;
      confirmation_candidate = 0;
      refreshing = false;
      confirming = false;
      pending = false;
      confirm_failures = 0;
      next_refresh = some (now + s.config.refresh_interval);
      next_confirmation = some (now + s.config.confirmation_interval);
    }
    else record s {
      confirming = false;
      pending = false;
      confirm_failures = 0;
      next_confirmation = some (now + s.config.confirmation_interval);
    }

unfoldable pub confirm_failure : State → ℕ → State
confirm_failure s now =
    if not (s.confirmation_candidate == 0)
    then record s {
      confirmation_candidate = 0;
      refreshing = false;
      confirming = false;
      pending = false;
      confirm_failures = 0;
      next_refresh = some (now + s.config.refresh_interval);
      next_confirmation = some (now + s.config.confirmation_interval);
    }
    else (let s1 = record s {
      confirming = false;
      pending = false;
      confirm_failures = s.confirm_failures + 1;
    } in
        if ltb (s.confirm_failures + 1) confirmation_failure_limit
        then record s1 { next_confirmation = some (now + s.config.confirmation_interval) }
        else start (record s1 { confirmed = s.config.base; blackholed = true }) now)

unfoldable pub acknowledge : State → ℕ → ℕ → ℕ → State × Bool
acknowledge s attempt payload_size now =
    let s1 = record s { in_flight = false } in
    if not s.in_flight || not (attempt == s.attempt) || not (payload_size == s.candidate)
    then (s, false)
    else (if s.confirming then (confirm_success s1 now, true) else (success s1 now, true))

-- What a probe that did not get through leads to; `definitive` for a reported failure.
unfoldable pub lost : State → ℕ → Bool → State
lost s now definitive =
    let s1 = record s { in_flight = false } in
    if s.confirming then confirm_failure s1 now else failure s1 now definitive

unfoldable pub fail : State → ℕ → ℕ → State × Bool
fail s attempt now =
    if not s.in_flight || not (attempt == s.attempt) then (s, false) else (lost s now true, true)

unfoldable pub fail_current : State → ℕ → State × Bool
fail_current s now = if not s.in_flight then (s, false) else fail s s.attempt now

unfoldable pub soft_fail_current : State → ℕ → State × Bool
soft_fail_current s now = if not s.in_flight then (s, false) else (lost s now false, true)

unfoldable pub tick : State → ℕ → State × Bool
tick s now = if not s.in_flight || ltb now s.deadline then (s, false) else (lost s now false, true)

unfoldable pub report_blackhole : State → ℕ → State
report_blackhole s now = start (record s { confirmed = s.config.base }) now

-- Go's division rounds towards zero.
unfoldable pub observe_rtt : State → ℤ → State
observe_rtt s (negsuc n) = s
observe_rtt s (pos sample) =
    if sample == 0
    then s
    else (if s.srtt == 0 then record s { srtt = sample } else record s {
      srtt =
          if leb s.srtt sample
          then s.srtt + (sample - s.srtt) / 8
          else s.srtt - (s.srtt - sample) / 8;
    })

unfoldable pub take_blackhole : State → State × Bool
take_blackhole s = (record s { blackholed = false }, s.blackholed)

-- A call of the control plane, at an instant.
pub data Event : Type 0 where
  starts : Event
  starts_with_hint : ℕ → Event
  refreshes confirms sends : Event
  acks : ℕ → ℕ → Event
  fails : ℕ → Event
  fails_current soft_fails times_out blackholes : Event
  observes : ℤ → Event
  takes_blackhole : Event
  adjusts : ℕ → ℕ → Event

unfoldable pub step : State → ℕ → Event → State
step s now starts = start s now
step s now (starts_with_hint hint) = start_with_hint s now hint
step s now refreshes = (refresh_due s now).0
step s now confirms = (confirmation_due s now).0
step s now sends = (next s now).0
step s now (acks attempt size) = (acknowledge s attempt size now).0
step s now (fails attempt) = (fail s attempt now).0
step s now fails_current = (fail_current s now).0
step s now soft_fails = (soft_fail_current s now).0
step s now times_out = (tick s now).0
step s now blackholes = report_blackhole s now
step s now (observes sample) = observe_rtt s sample
step s now takes_blackhole = (take_blackhole s).0
step s now (adjusts attempt size) = (adjust_current s attempt size).0

unfoldable pub run : State → List (ℕ × Event) → State
run s [] = s
run s ((now, e) ∷ es) = run (step s now e) es
