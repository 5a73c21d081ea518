-- ===== src/Pmtu/Converges.antt =====
-- pmtu.go: on a path that carries exactly the sizes up to `path`, the search finds `path`.
use wg_frag_go.Common.{
  ℕ, zero, suc, ◌+◌, ◌-◌, ◌*◌, ◌/◌, ◌%◌, ◌≤◌, ◌<◌, ◌≡◌, refl, ap, ◌∙◌, ◌⊎◌, inl, inr, Bool, true,
  false, ◌||◌, none, some, ltb, leb, ◌==◌, if◌then◌else◌, arith, Bool-cases,
}
use native.Mathlib.Decide.{dec_le}
use wg_frag_go.Pmtu.{Config, State, new, searching, u32_mod, identity}
use wg_frag_go.Pmtu.Search.{
  canonical_candidate, next_candidate, open_round, record_round, again, conclude, finish_round,
  begin_round, go_on, success, failure,
}
use wg_frag_go.Pmtu.Machine.{
  start_search, start_with_hint, next, confirm_success, acknowledge, lost, fail,
}
use wg_frag_go.Pmtu.Silence.{unanswered, landing, retried, third, last_instant, unanswered-go_on}
use wg_frag_go.Pmtu.Inv.{IsConfig, InRange}

-- A candidate is probed from `now` on. The path answers a probe that it delivers; that a larger one is lost is reported
-- for the sizes that `reports` says, and for the others nothing comes back.
unfoldable pub exchange : (ℕ → Bool) → ℕ → State → ℕ → State
exchange reports path s now =
    let sent = (next s now).0 in
    if leb sent.candidate path
    then (acknowledge sent sent.attempt sent.candidate now).0
    else (if reports sent.candidate then (fail sent sent.attempt now).0 else unanswered s now)

-- At most `fuel` candidates, while one is pending, the next one at the deadline of the last probe.
unfoldable pub drive : (ℕ → Bool) → ℕ → ℕ → State → ℕ → State
drive reports path zero s now = s
drive reports path (suc fuel) s now =
    let s1 = exchange reports path s now in
    let rest = drive reports path fuel s1 s1.deadline in if s.pending then rest else s

new-IsConfig : (c : Config) (s : State) → c.ceiling < u32_mod → new c ≡ some s → IsConfig c
unfolding new
new-IsConfig c s h e = ground arith

module _ (reports : ℕ → Bool) (c : Config) (path : ℕ) (ok_config : IsConfig c)
    (room : c.base < c.ceiling) (in_range : InRange c path) where
  -- In round `k`: the path's size is still between the bounds, and a probe between them is pending.
  record Round (k : ℕ) (s : State) : Type 0 where
    config_eq : s.config ≡ c
    strategy_eq : s.canonicalize ≡ identity
    confirmed_eq : s.confirmed ≡ c.base
    low_ge : c.base ≤ s.low
    low_le : s.low ≤ path
    bad_gt : (s.bad ≡ 0) ⊎ (path < s.bad) × (s.bad ≤ c.ceiling)
    not_confirming : s.confirming ≡ false
    no_promotion : s.confirmation_candidate ≡ 0
    results_eq : s.results ≡ k
    first_eq : (if k == 0 then path else s.rounds.first) ≡ path

  record Pending (s : State) : Type 0 where
    pending : s.pending ≡ true
    landed : s.in_flight ≡ false
    above : s.low < s.candidate
    below : (s.bad ≡ 0) × (s.candidate ≤ c.ceiling) ⊎ (s.candidate < s.bad)
    no_tries : s.candidate_tries ≡ 0

  -- The sizes left between the bounds.
  abbrev left : State → ℕ
  left s = (if s.bad == 0 then c.ceiling + 1 else s.bad) - s.low

  canonical_identity :
      (s : State) (n : ℕ)
      → s.config ≡ c
      → s.canonicalize ≡ identity
      → canonical_candidate s n ≡ (if ltb n c.base || ltb c.ceiling n then 0 else n)
  unfolding canonical_candidate
  canonical_identity s n e f = ground arith

  -- A candidate lies strictly between the bounds, and there is none only where they have met.
  next_candidate-Round :
      (k : ℕ) (s : State)
      → Round k s
      → ((next_candidate s ≡ 0) × (s.low ≡ path))
        ⊎ (s.low < next_candidate s)
          × ((s.bad ≡ 0) × (next_candidate s ≤ c.ceiling) ⊎ (next_candidate s < s.bad))
  unfolding next_candidate
  next_candidate-Round k s r = elim (Bool-cases (s.bad == 0)) [
    | inl e ↦ ground (
      arith,
      ap (λ (d : Config). d.ceiling) r.config_eq,
      canonical_identity s
          (if ltb (s.config.ceiling / 2) s.low then s.config.ceiling else s.low * 2 % u32_mod)
          r.config_eq r.strategy_eq,
    )
    | inr e ↦ ground (
      arith,
      canonical_identity s ((s.low + (s.bad + u32_mod - s.low) % u32_mod / 2) % u32_mod) r.config_eq
          r.strategy_eq,
    )
  ]

  record Narrowed (k : ℕ) (s s1 : State) : Type 0 where
    round : Round k s1
    landed : s1.in_flight ≡ false
    fewer : left s1 < left s

  up-Narrowed :
      (k : ℕ) (s : State) (now : ℕ)
      → Round k s
      → Pending s
      → s.candidate ≤ path
      → Narrowed k s (record (landing s now) { low = s.candidate })
  unfolding landing next
  up-Narrowed k s now r p h = ground arith

  down-Narrowed :
      (k : ℕ) (s : State) (now : ℕ)
      → Round k s
      → Pending s
      → path < s.candidate
      → Narrowed k s (record (landing s now) { bad = s.candidate })
  unfolding landing next
  down-Narrowed k s now r p h = ground arith

  -- An exchange moves one bound to the candidate.
  exchange_up :
      (k : ℕ) (s : State) (now : ℕ)
      → Round k s
      → Pending s
      → s.candidate ≤ path
      → exchange reports path s now ≡ go_on (record (landing s now) { low = s.candidate }) now
  unfolding exchange landing next acknowledge success
  exchange_up k s now r p h = ground arith

  exchange_down :
      (k : ℕ) (s : State) (now : ℕ)
      → Round k s
      → Pending s
      → path < s.candidate
      → reports s.candidate ≡ true
      → exchange reports path s now ≡ go_on (record (landing s now) { bad = s.candidate }) now
  unfolding exchange landing next fail lost failure
  exchange_down k s now r p h e = ground arith

  silent-Narrowed :
      (k : ℕ) (s : State) (now : ℕ)
      → Round k s
      → Pending s
      → path < s.candidate
      → Narrowed k s (record (third s now) { bad = s.candidate })
  unfolding third retried landing next
  silent-Narrowed k s now r p h = ground arith

  exchange_silent :
      (s : State) (now : ℕ)
      → path < s.candidate
      → s.pending ≡ true
      → reports s.candidate ≡ false
      → exchange reports path s now ≡ unanswered s now
  unfolding exchange next
  exchange_silent s now h p e = ground arith

  record Ready (k : ℕ) (s : State) : Type 0 where
    round : Round k s
    probe : Pending s

  -- The size found, waiting for its last confirmation.
  record Promoting (s : State) : Type 0 where
    promoted : s.confirmation_candidate ≡ path
    probing : s.candidate ≡ path
    not_zero : 1 ≤ path
    confirming : s.confirming ≡ true
    pending : s.pending ≡ true

  record Found (s : State) : Type 0 where
    size : s.confirmed ≡ path
    idle : searching s ≡ false

  go_on-next :
      (k : ℕ) (s : State) (now : ℕ)
      → Round k s
      → s.in_flight ≡ false
      → (next_candidate s == 0) ≡ false
      → Ready k (go_on s now) × (left (go_on s now) ≡ left s)
  unfolding go_on
  go_on-next k s now r f e =
      rw (e, go_on)
        (record { round = ground arith; probe = ground (arith, next_candidate-Round k s r) }, refl)

  -- A round that opens has a candidate above BASE, whatever the hint.
  next_candidate_open :
      (s : State)
      → s.config ≡ c
      → s.canonicalize ≡ identity
      → s.low ≡ c.base
      → s.bad ≡ 0
      → (c.base < next_candidate s) × (next_candidate s ≤ c.ceiling)
  unfolding next_candidate
  next_candidate_open s e f l b = ground (
    arith,
    ap (λ (d : Config). d.ceiling) e,
    ok_config,
    canonical_identity s
        (if ltb (s.config.ceiling / 2) s.low then s.config.ceiling else s.low * 2 % u32_mod) e f,
  )

  open_candidate :
      (s : State)
      → s.config ≡ c
      → s.canonicalize ≡ identity
      → (c.base < (open_round s).candidate) × ((open_round s).candidate ≤ c.ceiling)
  unfolding open_round
  open_candidate s e f =
      let s1 = record s { low = s.config.base; bad = 0; candidate_tries = 0 } in
      ground (
        arith,
        ap (λ (d : Config). d.base) e,
        next_candidate_open s1 e f,
        canonical_identity s1 s.search_hint e f,
      )

  -- The second round opens at BASE with a candidate.
  opens-Ready :
      (s : State)
      → Round 0 s
      → s.low ≡ path
      → let done = record_round s in
        (again done ≡ true)
        × (((open_round done).candidate == 0) ≡ false)
        × Ready 1 (record (open_round done) { pending = true })
  unfolding record_round open_round
  opens-Ready s r e =
      let t = open_candidate (record_round s) r.config_eq r.strategy_eq in
      (
        ground arith,
        ground (arith, t),
        record {
          round = ground (arith, ap (λ (d : Config). d.base) r.config_eq);
          probe = ground (arith, t, ap (λ (d : Config). d.base) r.config_eq);
        },
      )

  concludes :
      (s : State) (now : ℕ)
      → Round 1 s
      → s.low ≡ path
      → let done = record_round s in
        (again done ≡ false) × (Promoting (conclude done now) ⊎ Found (conclude done now))
  unfolding record_round conclude
  concludes s now r e = ground arith

  abbrev over : State → State
  over s = record s { candidate_tries = 0; candidate = next_candidate s }

  -- The first round is over: the second begins.
  go_on-second :
      (s : State) (now : ℕ)
      → Round 0 s
      → (next_candidate s == 0) ≡ true
      → s.low ≡ path
      → Ready 1 (go_on s now)
  unfolding go_on finish_round
  go_on-second s now r e l =
      let s1 = over s in
      let r1 : Round 0 s1 = ground arith in
      let (more, found, ready) = opens-Ready s1 r1 l in
      rw (e, go_on) (rw (more, found, finish_round) ready)

  go_on-settles :
      (s : State) (now : ℕ)
      → Round 1 s
      → (next_candidate s == 0) ≡ true
      → s.low ≡ path
      → Promoting (go_on s now) ⊎ Found (go_on s now)
  unfolding go_on finish_round
  go_on-settles s now r e l =
      let s1 = over s in
      let r1 : Round 1 s1 = ground arith in
      let (stop, done) = concludes s1 now r1 l in rw (e, go_on) (rw (stop, finish_round) done)

  -- What a bound moved leads to, in each round.
  first_round_goes :
      (s s1 : State) (now : ℕ)
      → Narrowed 0 s s1
      → Ready 0 (go_on s1 now) × (left (go_on s1 now) < left s) ⊎ Ready 1 (go_on s1 now)
  first_round_goes s s1 now n = elim (Bool-cases (next_candidate s1 == 0)) [
    | inr e ↦
        let (ready, same) = go_on-next 0 s1 now n.round n.landed e in
        inl (ready, omega (arith, n.fewer))
    | inl e ↦
        inr (go_on-second s1 now n.round e (ground (arith, next_candidate-Round 0 s1 n.round)))
  ]

  second_round_goes :
      (s s1 : State) (now : ℕ)
      → Narrowed 1 s s1
      → Ready 1 (go_on s1 now) × (left (go_on s1 now) < left s)
        ⊎ Promoting (go_on s1 now)
        ⊎ Found (go_on s1 now)
  second_round_goes s s1 now n = elim (Bool-cases (next_candidate s1 == 0)) [
    | inr e ↦
        let (ready, same) = go_on-next 1 s1 now n.round n.landed e in
        inl (ready, omega (arith, n.fewer))
    | inl e ↦
        inr (go_on-settles s1 now n.round e (ground (arith, next_candidate-Round 1 s1 n.round)))
  ]

  -- Every exchange in a round moves a bound.
  exchange-Narrowed :
      (k : ℕ) (s : State) (now : ℕ)
      → Ready k s
      → (s1 : State) × (t : ℕ) × (exchange reports path s now ≡ go_on s1 t) × Narrowed k s s1
  exchange-Narrowed k s now r = elim (dec_le s.candidate path) [
    | yes h ↦ (
      record (landing s now) { low = s.candidate },
      now,
      exchange_up k s now r.round r.probe h,
      up-Narrowed k s now r.round r.probe h,
    )
    | no h ↦ elim (Bool-cases (reports s.candidate)) [
      | inl e ↦ (
        record (landing s now) { bad = s.candidate },
        now,
        exchange_down k s now r.round r.probe (omega arith) e,
        down-Narrowed k s now r.round r.probe (omega arith),
      )
      | inr e ↦ (
        record (third s now) { bad = s.candidate },
        last_instant s now,
        exchange_silent s now (omega arith) r.probe.pending e
            ∙ unanswered-go_on s now r.probe.pending r.round.not_confirming r.probe.no_tries,
        silent-Narrowed k s now r.round r.probe (omega arith),
      )
    ]
  ]

  exchange-Promoting : (s : State) (now : ℕ) → Promoting s → Found (exchange reports path s now)
  unfolding exchange next acknowledge confirm_success
  exchange-Promoting s now p = ground arith

  drive-Found : (fuel : ℕ) (s : State) (now : ℕ) → Found s → Found (drive reports path fuel s now)
  unfolding drive
  drive-Found zero s now f = f
  drive-Found (suc fuel) s now f = ground arith

  -- The time of the next candidate.
  after : State → ℕ → ℕ
  after s now = (exchange reports path s now).deadline

  drive-Promoting :
      (fuel : ℕ) (s : State) (now : ℕ)
      → Promoting s
      → 1 ≤ fuel
      → Found (drive reports path fuel s now)
  unfolding drive after
  drive-Promoting zero s now p h = absurd (omega arith)
  drive-Promoting (suc fuel) s now p h = ground (
    arith,
    drive-Found fuel (exchange reports path s now) (after s now) (exchange-Promoting s now p),
  )

  drive_step :
      (fuel : ℕ) (s s1 : State) (now t : ℕ)
      → s.pending ≡ true
      → exchange reports path s now ≡ go_on s1 t
      → drive reports path (suc fuel) s now
        ≡ drive reports path fuel (go_on s1 t) ((go_on s1 t).deadline)
  unfolding drive
  drive_step fuel s s1 now t p e =
      ap
        (λ b.
          if b
          then drive reports path fuel (exchange reports path s now)
              (exchange reports path s now).deadline
          else s)
        p
      ∙ ap (λ (x : State). drive reports path fuel x x.deadline) e

  left-le : (k : ℕ) (s : State) → Round k s → left s ≤ c.ceiling + 1 - c.base
  left-le k s r = ground arith

  drive-second :
      (fuel : ℕ) (s : State) (now : ℕ)
      → Ready 1 s
      → left s + 1 ≤ fuel
      → Found (drive reports path fuel s now)
  drive-second zero s now r h = absurd (omega arith)
  drive-second (suc fuel) s now r h =
      let (s1, t, e, n) = exchange-Narrowed 1 s now r in
      let s2 = go_on s1 t in
      rw (drive_step fuel s s1 now t r.probe.pending e) (elim (second_round_goes s s1 t n) [
        | inl (ready, fewer) ↦ drive-second fuel s2 s2.deadline ready (omega arith)
        | inr (inl p) ↦ drive-Promoting fuel s2 s2.deadline p (omega (arith, n.fewer))
        | inr (inr f) ↦ drive-Found fuel s2 s2.deadline f
      ])

  drive-first :
      (fuel : ℕ) (s : State) (now : ℕ)
      → Ready 0 s
      → left s + (c.ceiling + 1 - c.base) + 1 ≤ fuel
      → Found (drive reports path fuel s now)
  drive-first zero s now r h = absurd (omega arith)
  drive-first (suc fuel) s now r h =
      let (s1, t, e, n) = exchange-Narrowed 0 s now r in
      let s2 = go_on s1 t in
      rw (drive_step fuel s s1 now t r.probe.pending e) (elim (first_round_goes s s1 t n) [
        | inl (ready, fewer) ↦ drive-first fuel s2 s2.deadline ready (omega arith)
        | inr ready ↦
            drive-second fuel s2 s2.deadline ready
              (omega (arith, n.fewer, left-le 1 s2 ready.round))
      ])

  record IsNew (s : State) : Type 0 where
    config_eq : s.config ≡ c
    strategy_eq : s.canonicalize ≡ identity
    confirmed_eq : s.confirmed ≡ c.base

  new-IsNew : (s : State) → c.canonicalize ≡ none → new c ≡ some s → IsNew s
  unfolding new
  new-IsNew s e h = ground arith

  -- `start` on a machine at BASE.
  abbrev restarted : State → ℕ → State
  restarted s hint = record s {
    search_hint = hint;
    results = 0;
    confirming = false;
    refreshing = false;
    confirmation_candidate = 0;
    confirm_failures = 0;
    next_confirmation = none;
  }

  begins-Ready :
      (s : State)
      → IsNew s
      → s.results ≡ 0
      → s.confirming ≡ false
      → s.confirmation_candidate ≡ 0
      → Ready 0 (record (open_round s) { pending = true })
  unfolding open_round
  begins-Ready s n h1 h2 h3 =
      let t = open_candidate s n.config_eq n.strategy_eq in
      let b = ap (λ (d : Config). d.base) n.config_eq in
      record { round = ground (arith, b); probe = ground (arith, t, b) }

  -- A new machine that starts is ready for its first round.
  starts-Ready : (s : State) (now hint : ℕ) → IsNew s → Ready 0 (start_with_hint s now hint)
  unfolding start_with_hint start_search begin_round
  starts-Ready s now hint n =
      let s1 = restarted s hint in
      let t = open_candidate s1 n.config_eq n.strategy_eq in
      let found : ((open_round s1).candidate == 0) ≡ false = ground (arith, t) in
      let apart : (s.config.ceiling == s.config.base) ≡ false = ground (
        arith,
        ap (λ (d : Config). d.base) n.config_eq,
        ap (λ (d : Config). d.ceiling) n.config_eq,
      ) in
      let n1 : IsNew s1 = record {
        config_eq = n.config_eq;
        strategy_eq = n.strategy_eq;
        confirmed_eq = n.confirmed_eq;
      } in
      rw (apart, start_search) (rw (found, begin_round) (begins-Ready s1 n1 refl refl refl))

-- For a machine without a canonicalization of sizes (`Canonicalize` is nil), on a path that answers each probe up to
-- `path` bytes and none above: of the larger sizes, it reports those lost that `reports` says, by a definitive `Fail`,
-- and for the others three probes run into their deadlines. A new machine started with any hint is, after at most twice
-- as many candidates as there are sizes, idle with `path` confirmed.
pub search_converges :
    (reports : ℕ → Bool) (c : Config) (path hint now fuel : ℕ) (s : State)
    → c.canonicalize ≡ none
    → c.base < c.ceiling
    → c.ceiling < u32_mod
    → InRange c path
    → new c ≡ some s
    → 2 * (c.ceiling + 1 - c.base) + 1 ≤ fuel
    → let s' = drive reports path fuel (start_with_hint s now hint) now in
      (s'.confirmed ≡ path) × (searching s' ≡ false)
search_converges reports c path hint now fuel s e room top in_range h enough =
    let ok_config : IsConfig c = new-IsConfig c s top h in
    let ready =
      starts-Ready reports c path ok_config room in_range s now hint
        (new-IsNew reports c path ok_config room in_range s e h) in
    let f =
      drive-first reports c path ok_config room in_range fuel (start_with_hint s now hint) now ready
        (omega (arith, left-le reports c path ok_config room in_range 0 _ ready.round)) in
    (f.size, f.idle)
