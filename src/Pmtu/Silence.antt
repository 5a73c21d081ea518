-- ===== src/Pmtu/Silence.antt =====
-- pmtu.go: a candidate whose probes are never answered.
use wg_frag_go.Common.{ℕ, ◌+◌, ◌<◌, ◌≡◌, refl, ap, ◌∙◌, true, false, arith}
use wg_frag_go.Pmtu.{State}
use wg_frag_go.Pmtu.Search.{go_on, failure}
use wg_frag_go.Pmtu.Machine.{next, lost, tick, probe_timeout}

-- A probe is sent at `now`, and nothing comes back by its deadline.
unfoldable pub silence : State → ℕ → State
silence s now = let sent = (next s now).0 in (tick sent sent.deadline).0

-- Three of them, each sent at the deadline of the one before it.
unfoldable pub unanswered : State → ℕ → State
unanswered s now =
    let s1 = silence s now in let s2 = silence s1 s1.deadline in silence s2 s2.deadline

-- The state behind a probe, before its answer moves a bound.
unfoldable pub landing : State → ℕ → State
landing s now = record (next s now).0 { in_flight = false }

-- A silence but the last leads to a retry, and the last one to the next candidate.
silence_retry :
    (s : State) (now : ℕ)
    → s.pending ≡ true
    → s.confirming ≡ false
    → s.candidate_tries + 1 < 3
    → silence s now ≡ record (landing s now) { pending = true }
unfolding silence landing next tick lost failure
silence_retry s now p c h = ground arith

silence_last :
    (s : State) (now : ℕ)
    → s.pending ≡ true
    → s.confirming ≡ false
    → s.candidate_tries ≡ 2
    → silence s now ≡ go_on (record (landing s now) { bad = s.candidate }) (now + probe_timeout s)
unfolding silence landing next tick lost failure
silence_last s now p c h = ground arith

-- The state behind three silences, before the bound moves.
unfoldable pub retried : State → ℕ → State
retried s now = record (landing s now) { pending = true }

unfoldable pub third : State → ℕ → State
third s now = let s1 = retried s now in let s2 = retried s1 s1.deadline in landing s2 s2.deadline

unfoldable pub last_instant : State → ℕ → ℕ
last_instant s now =
    let s1 = retried s now in let s2 = retried s1 s1.deadline in s2.deadline + probe_timeout s2

landing_keeps :
    (s : State) (now : ℕ)
    → s.pending ≡ true
    → ((landing s now).confirming ≡ s.confirming)
      × ((landing s now).candidate_tries ≡ s.candidate_tries + 1)
      × ((landing s now).candidate ≡ s.candidate)
unfolding landing next
landing_keeps s now p = ground arith

pub unanswered-go_on :
    (s : State) (now : ℕ)
    → s.pending ≡ true
    → s.confirming ≡ false
    → s.candidate_tries ≡ 0
    → unanswered s now ≡ go_on (record (third s now) { bad = s.candidate }) (last_instant s now)
unfolding unanswered third last_instant retried
unanswered-go_on s now p c h =
    let s1 = record (landing s now) { pending = true } in
    let s2 = record (landing s1 s1.deadline) { pending = true } in
    let (c1, h1, n1) = landing_keeps s now p in
    let (c2, h2, n2) = landing_keeps s1 s1.deadline refl in
    let e1 : silence s now ≡ s1 = silence_retry s now p c (omega (arith, h)) in
    let e2 : silence s1 s1.deadline ≡ s2 =
      silence_retry s1 s1.deadline refl (c1 ∙ c) (omega (arith, h, h1)) in
    let e3 = silence_last s2 s2.deadline refl (c2 ∙ c1 ∙ c) (omega (arith, h, h1, h2)) in
    ap (λ (t : State). let t1 = silence t t.deadline in silence t1 t1.deadline) e1
    ∙ ap (λ (t : State). silence t t.deadline) e2
    ∙ e3
    ∙ ap
        (λ (n : ℕ).
          go_on (record (landing s2 s2.deadline) { bad = n }) (s2.deadline + probe_timeout s2))
        (n2 ∙ n1)
