-- ===== src/Pmtu/Steps.antt =====
-- pmtu.go: every operation keeps the invariant.
use wg_frag_go.Common.{
  ℕ, ◌+◌, ◌<◌, ◌≡◌, inl, inr, Bool, true, false, not, ◌&&◌, ◌||◌, some, ltb, ◌==◌, if◌then◌else◌,
  arith, Bool-cases, List, [], ◌∷◌, ℤ, pos, negsuc,
}
use wg_frag_go.Pmtu.{Config, State, new, u32_mod, search_attempt_limit}
use wg_frag_go.Pmtu.Search.{success, failure}
use wg_frag_go.Pmtu.Machine.{
  Event, adjust_current, start_search, start, start_with_hint, refresh_due, confirmation_due, next,
  confirm_success, confirm_failure, acknowledge, lost, fail, fail_current, soft_fail_current, tick,
  report_blackhole, observe_rtt, take_blackhole, step, run, starts, starts_with_hint, refreshes,
  confirms, sends, acks, fails, fails_current, soft_fails, times_out, blackholes, observes,
  takes_blackhole, adjusts,
}
use wg_frag_go.Pmtu.Inv.{Inv, InRange, IsConfig, new-Inv, start_search-Inv, go_on-Inv}

start-Inv :
    (s : State) (now hint : ℕ)
    → IsConfig s.config
    → InRange s.config s.confirmed
    → Inv (start_search (record s { search_hint = hint }) now false)
start-Inv s now hint c h = start_search-Inv _ now false c h

-- A probe of a round has come back: the state before the next candidate.
module _ (s : State) (v : Inv s) (flying : s.in_flight ≡ true) where
  success-Inv :
      (now : ℕ) → s.confirming ≡ false → Inv (success (record s { in_flight = false }) now)
  unfolding success
  success-Inv now e = go_on-Inv _ now (ground arith) (ground arith)

  failure-Inv :
      (now : ℕ) (definitive : Bool)
      → s.confirming ≡ false
      → Inv (failure (record s { in_flight = false }) now definitive)
  unfolding failure
  failure-Inv now definitive e =
      elim (Bool-cases (not definitive && ltb s.candidate_tries search_attempt_limit)) [
        | inl again ↦ rw (again, failure) (ground arith)
        | inr over ↦ rw (over, failure) (go_on-Inv _ now (ground arith) (ground arith))
      ]

  confirm_success-Inv :
      (now : ℕ) → s.confirming ≡ true → Inv (confirm_success (record s { in_flight = false }) now)
  unfolding confirm_success
  confirm_success-Inv now e = ground arith

  confirm_failure-Inv :
      (now : ℕ) → s.confirming ≡ true → Inv (confirm_failure (record s { in_flight = false }) now)
  unfolding confirm_failure start
  confirm_failure-Inv now e = ground (
    arith,
    start-Inv
        (record s {
          in_flight = false;
          confirming = false;
          pending = false;
          confirm_failures = s.confirm_failures + 1;
          confirmed = s.config.base;
          blackholed = true;
        })
        now 0,
  )

  lost-Inv : (now : ℕ) (definitive : Bool) → Inv (lost s now definitive)
  unfolding lost
  lost-Inv now definitive = elim (Bool-cases s.confirming) [
    | inl e ↦ ground (arith, confirm_failure-Inv now e)
    | inr e ↦ ground (arith, failure-Inv now definitive e)
  ]

confirmation_due-Inv : (s : State) (now : ℕ) → Inv s → Inv (confirmation_due s now).0
unfolding confirmation_due
confirmation_due-Inv s now v = ground arith

next-Inv : (s : State) (now : ℕ) → Inv s → Inv (next s now).0
unfolding next
next-Inv s now v = ground arith

acknowledge-Inv :
    (s : State) (attempt size now : ℕ) → Inv s → Inv (acknowledge s attempt size now).0
unfolding acknowledge
acknowledge-Inv s attempt size now v = elim (Bool-cases s.in_flight) [
  | inl flying ↦ ground (arith, success-Inv s v flying now, confirm_success-Inv s v flying now)
  | inr idle ↦ ground arith
]

-- A call that reports the probe lost if a test passes, and does nothing if not.
lost_if-Inv :
    (s : State) (now : ℕ) (definitive test : Bool)
    → Inv s
    → Inv
        (if◌then◌else◌ {A = State × Bool}
          (not s.in_flight || test)
          (s, false)
          (lost s now definitive, true)).0
lost_if-Inv s now definitive test v = elim (Bool-cases s.in_flight) [
  | inl flying ↦ ground (arith, lost-Inv s v flying now definitive)
  | inr idle ↦ ground arith
]

fail-Inv : (s : State) (attempt now : ℕ) → Inv s → Inv (fail s attempt now).0
unfolding fail
fail-Inv s attempt now v = lost_if-Inv s now true (not (attempt == s.attempt)) v

fail_current-Inv : (s : State) (now : ℕ) → Inv s → Inv (fail_current s now).0
unfolding fail_current
fail_current-Inv s now v = ground (arith, fail-Inv s s.attempt now v)

soft_fail_current-Inv : (s : State) (now : ℕ) → Inv s → Inv (soft_fail_current s now).0
unfolding soft_fail_current
soft_fail_current-Inv s now v = ground (arith, lost_if-Inv s now false false v)

tick-Inv : (s : State) (now : ℕ) → Inv s → Inv (tick s now).0
unfolding tick
tick-Inv s now v = lost_if-Inv s now false (ltb now s.deadline) v

refresh_due-Inv : (s : State) (now : ℕ) → Inv s → Inv (refresh_due s now).0
unfolding refresh_due
refresh_due-Inv s now v = ground (arith, start_search-Inv s now true v.config_ok v.confirmed_ok)

observe_rtt-Inv : (s : State) (sample : ℤ) → Inv s → Inv (observe_rtt s sample)
unfolding observe_rtt
observe_rtt-Inv s (pos n) v = ground arith
observe_rtt-Inv s (negsuc n) v = v

adjust_current-Inv : (s : State) (attempt size : ℕ) → Inv s → Inv (adjust_current s attempt size).0
unfolding adjust_current
adjust_current-Inv s attempt size v = ground arith

-- Every call of the control plane keeps it.
pub step-Inv : (s : State) (now : ℕ) (e : Event) → Inv s → Inv (step s now e)
unfolding step start start_with_hint report_blackhole take_blackhole
step-Inv s now starts v = start-Inv s now 0 v.config_ok v.confirmed_ok
step-Inv s now (starts_with_hint hint) v = start-Inv s now hint v.config_ok v.confirmed_ok
step-Inv s now refreshes v = refresh_due-Inv s now v
step-Inv s now confirms v = confirmation_due-Inv s now v
step-Inv s now sends v = next-Inv s now v
step-Inv s now (acks attempt size) v = acknowledge-Inv s attempt size now v
step-Inv s now (fails attempt) v = fail-Inv s attempt now v
step-Inv s now fails_current v = fail_current-Inv s now v
step-Inv s now soft_fails v = soft_fail_current-Inv s now v
step-Inv s now times_out v = tick-Inv s now v
step-Inv s now blackholes v =
    start-Inv (record s { confirmed = s.config.base }) now 0 v.config_ok
      (omega (arith, v.config_ok))
step-Inv s now (observes sample) v = observe_rtt-Inv s sample v
step-Inv s now takes_blackhole v = ground arith
step-Inv s now (adjusts attempt size) v = adjust_current-Inv s attempt size v

pub run-Inv : (s : State) (es : List (ℕ × Event)) → Inv s → Inv (run s es)
unfolding run
run-Inv s [] v = v
run-Inv s ((now, e) ∷ es) v = run-Inv (step s now e) es (step-Inv s now e v)

-- However a search that `New` accepted is driven, the size for DATA and the size of every probe
-- stay within BASE and the ceiling, and no round is recorded past the third.
pub run-new-Inv :
    (c : Config) (s : State) (es : List (ℕ × Event))
    → c.ceiling < u32_mod
    → new c ≡ some s
    → Inv (run s es)
run-new-Inv c s es h e = run-Inv s es (new-Inv c s h e)
