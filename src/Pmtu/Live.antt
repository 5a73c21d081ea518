-- ===== src/Pmtu/Live.antt =====
-- pmtu.go: a search that was started never stalls, and has three rounds at most.
use wg_frag_go.Common.{
  ℕ, zero, suc, ◌+◌, ◌≤◌, ◌<◌, ◌≡◌, refl, inl, inr, Bool, true, false, not, ◌&&◌, ◌||◌, Option,
  none, some, ltb, ◌==◌, if◌then◌else◌, arith, Bool-cases, List, [], ◌∷◌, pos, negsuc,
}
use wg_frag_go.Pmtu.{Config, State, new, searching, u32_mod}
use wg_frag_go.Pmtu.Search.{
  open_round, record_round, again, conclude, finish_round, begin_round, go_on, success, failure,
  next_candidate,
}
use wg_frag_go.Pmtu.Machine.{
  Event, adjust_current, start_search, start, start_with_hint, refresh_due, confirmation_due, next,
  confirm_success, confirm_failure, acknowledge, lost, fail, fail_current, soft_fail_current, tick,
  report_blackhole, observe_rtt, take_blackhole, step, run, starts, starts_with_hint, refreshes,
  confirms, sends, acks, fails, fails_current, soft_fails, times_out, blackholes, observes,
  takes_blackhole, adjusts,
}
use wg_frag_go.Pmtu.Inv.{Inv, new-Inv}
use wg_frag_go.Pmtu.Steps.{step-Inv}

abbrev is_some : Option ℕ → Bool
is_some none = false
is_some (some t) = true

-- A probe is pending or in flight, or both timers are set; and the timer for the next search is
-- set while a confirmed size is probed again.
pub record IsLive (s : State) : Type 0 where
  pub alive : (searching s || (is_some s.next_refresh && is_some s.next_confirmation)) ≡ true
  pub refresh :
      (not s.confirming || not (s.confirmation_candidate == 0) || is_some s.next_refresh) ≡ true

open_round-same :
    (s : State) → ((open_round s).results ≡ s.results) × ((open_round s).confirming ≡ s.confirming)
unfolding open_round
open_round-same s = (refl, refl)

record_round-same :
    (s : State)
    → ((record_round s).results ≡ s.results + 1) × ((record_round s).confirming ≡ s.confirming)
unfolding record_round
record_round-same s = (refl, refl)

again-lt : (s : State) → again s ≡ true → s.results < 3
again-lt s e = ground arith

conclude-IsLive : (s : State) (now : ℕ) → s.confirming ≡ false → IsLive (conclude s now)
unfolding conclude
conclude-IsLive s now h = ground arith

pend-IsLive : (s : State) → s.confirming ≡ false → IsLive (record s { pending = true })
pend-IsLive s h = ground arith

finish_round-IsLive :
    (fuel : ℕ) (s : State) (now : ℕ)
    → s.confirming ≡ false
    → s.results < 3
    → 3 ≤ s.results + fuel
    → IsLive (finish_round fuel s now)
unfolding finish_round
finish_round-IsLive zero s now c h f = absurd (omega arith)
finish_round-IsLive (suc fuel) s now c h f =
    let done = record_round s in
    let opened = open_round done in
    let sd = record_round-same s in
    let so = open_round-same done in
    ground (
      arith,
      conclude-IsLive done now,
      again-lt done,
      pend-IsLive opened,
      finish_round-IsLive fuel opened now,
    )

finish_round-eq :
    (f g : ℕ) (s : State) (now : ℕ)
    → s.results < 3
    → 3 ≤ s.results + f
    → 3 ≤ s.results + g
    → finish_round f s now ≡ finish_round g s now
unfolding finish_round
finish_round-eq zero g s now h hf hg = absurd (omega arith)
finish_round-eq (suc f) zero s now h hf hg = absurd (omega arith)
finish_round-eq (suc f) (suc g) s now h hf hg =
    let done = record_round s in
    let opened = open_round done in
    let sd = record_round-same s in
    let so = open_round-same done in ground (arith, again-lt done, finish_round-eq f g opened now)

-- With fewer than three results on record, any fuel of three or more gives the same outcome.
pub finish_round_fuel :
    (fuel : ℕ) (s : State) (now : ℕ)
    → s.results < 3
    → 3 ≤ fuel
    → finish_round fuel s now ≡ finish_round 3 s now
finish_round_fuel fuel s now h hf = finish_round-eq fuel 3 s now h (omega arith) (omega arith)

begin_round-IsLive :
    (s : State) (now : ℕ) → s.confirming ≡ false → s.results ≡ 0 → IsLive (begin_round s now)
unfolding begin_round
begin_round-IsLive s now c h =
    let opened = open_round s in
    let so = open_round-same s in
    ground (arith, pend-IsLive opened, finish_round-IsLive 3 opened now)

go_on-IsLive : (s : State) (now : ℕ) → s.confirming ≡ false → s.results < 3 → IsLive (go_on s now)
unfolding go_on
go_on-IsLive s now c h =
    let s1 = record s { candidate_tries = 0; candidate = next_candidate s } in
    ground (arith, pend-IsLive s1, finish_round-IsLive 3 s1 now)

start_search-IsLive :
    (s : State) (now : ℕ) (refreshing : Bool) → IsLive (start_search s now refreshing)
unfolding start_search
start_search-IsLive s now refreshing =
    let s1 = record s {
      search_hint = if refreshing then 0 else s.search_hint;
      results = 0;
      confirming = false;
      refreshing = refreshing;
      confirmation_candidate = 0;
      confirm_failures = 0;
      next_confirmation = none;
    } in
    ground (arith, begin_round-IsLive s1 now refl refl)

module _ (s : State) (v : Inv s) (l : IsLive s) (flying : s.in_flight ≡ true) where
  lost-IsLive : (now : ℕ) (definitive : Bool) → IsLive (lost s now definitive)
  unfolding lost failure confirm_failure start
  lost-IsLive now definitive = elim (Bool-cases s.confirming) [
    | inl e ↦ ground (
      arith,
      start_search-IsLive
          (record s {
            in_flight = false;
            confirming = false;
            pending = false;
            confirm_failures = s.confirm_failures + 1;
            confirmed = s.config.base;
            blackholed = true;
            search_hint = 0;
          })
          now false,
    )
    | inr e ↦ ground (
      arith,
      v.results_lt,
      go_on-IsLive (record s { in_flight = false; bad = s.candidate }) now e,
    )
  ]

  acknowledge-IsLive : (attempt size now : ℕ) → IsLive (acknowledge s attempt size now).0
  unfolding acknowledge success confirm_success
  acknowledge-IsLive attempt size now =
      ground
        (arith, v.results_lt, go_on-IsLive (record s { in_flight = false; low = s.candidate }) now)

lost_if-IsLive :
    (s : State) (now : ℕ) (definitive test : Bool)
    → Inv s
    → IsLive s
    → IsLive
        (if◌then◌else◌ {A = State × Bool}
          (not s.in_flight || test)
          (s, false)
          (lost s now definitive, true)).0
lost_if-IsLive s now definitive test v l = elim (Bool-cases s.in_flight) [
  | inl flying ↦ ground (arith, lost-IsLive s v l flying now definitive)
  | inr idle ↦ ground arith
]

acknowledge_if-IsLive :
    (s : State) (attempt size now : ℕ)
    → Inv s
    → IsLive s
    → IsLive (acknowledge s attempt size now).0
unfolding acknowledge
acknowledge_if-IsLive s attempt size now v l = elim (Bool-cases s.in_flight) [
  | inl flying ↦ acknowledge-IsLive s v l flying attempt size now
  | inr idle ↦ ground arith
]

-- Every call of the control plane keeps a live search alive.
pub step-IsLive : (s : State) (now : ℕ) (e : Event) → Inv s → IsLive s → IsLive (step s now e)
unfolding step start start_with_hint report_blackhole take_blackhole confirmation_due refresh_due
    next fail fail_current soft_fail_current tick observe_rtt adjust_current
step-IsLive s now starts v l = start_search-IsLive (record s { search_hint = 0 }) now false
step-IsLive s now (starts_with_hint hint) v l =
    start_search-IsLive (record s { search_hint = hint }) now false
step-IsLive s now refreshes v l = ground (arith, start_search-IsLive s now true)
step-IsLive s now confirms v l = ground arith
step-IsLive s now sends v l = ground arith
step-IsLive s now (acks attempt size) v l = acknowledge_if-IsLive s attempt size now v l
step-IsLive s now (fails attempt) v l = lost_if-IsLive s now true (not (attempt == s.attempt)) v l
step-IsLive s now fails_current v l =
    ground (arith, lost_if-IsLive s now true (not (s.attempt == s.attempt)) v l)
step-IsLive s now soft_fails v l = ground (arith, lost_if-IsLive s now false false v l)
step-IsLive s now times_out v l = lost_if-IsLive s now false (ltb now s.deadline) v l
step-IsLive s now blackholes v l =
    start_search-IsLive (record s { confirmed = s.config.base; search_hint = 0 }) now false
step-IsLive s now (observes (pos n)) v l = ground arith
step-IsLive s now (observes (negsuc n)) v l = l
step-IsLive s now takes_blackhole v l = record { alive = l.alive; refresh = l.refresh }
step-IsLive s now (adjusts attempt size) v l = ground arith

run-IsLive : (s : State) (es : List (ℕ × Event)) → Inv s → IsLive s → IsLive (run s es)
unfolding run
run-IsLive s [] v l = l
run-IsLive s ((now, e) ∷ es) v l =
    run-IsLive (step s now e) es (step-Inv s now e v) (step-IsLive s now e v l)

-- Once a machine that `New` accepted is started, then after any further calls a probe is pending or
-- in flight, or the next search and the next confirmation are both scheduled.
pub run-start-IsLive :
    (c : Config) (s : State) (begin hint : ℕ) (es : List (ℕ × Event))
    → c.ceiling < u32_mod
    → new c ≡ some s
    → IsLive (run (start_with_hint s begin hint) es)
unfolding start_with_hint step
run-start-IsLive c s begin hint es h e =
    run-IsLive _ es (step-Inv s begin (starts_with_hint hint) (new-Inv c s h e))
      (start_search-IsLive (record s { search_hint = hint }) begin false)
