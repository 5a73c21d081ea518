-- ===== src/Pmtu/Inv.antt =====
-- pmtu.go: what holds of the search in every state that it reaches.
use wg_frag_go.Common.{
  ℕ, zero, suc, ◌+◌, ◌≤◌, ◌<◌, ◌≡◌, refl, ◌⊎◌, inl, inr, Bool, true, false, not, ◌&&◌, some, ltb,
  ◌==◌, if◌then◌else◌, arith, Bool-cases,
}
use wg_frag_go.Pmtu.{Config, State, new, searching, u32_mod}
use wg_frag_go.Pmtu.Search.{
  canonical_candidate, next_candidate, open_round, record_round, again, conclude, finish_round,
  begin_round, go_on,
}
use wg_frag_go.Pmtu.Machine.{start_search}

pub record IsConfig (c : Config) : Type 0 where
  pub base_ge : 613 ≤ c.base
  pub base_le : c.base ≤ c.ceiling
  pub ceiling_lt : c.ceiling < u32_mod

abbrev pub InRange : Config → ℕ → Type 0
InRange c size = (c.base ≤ size) × (size ≤ c.ceiling)

-- A round is under way, not the confirmation of a size.
abbrev pub in_round : State → Bool
in_round s = searching s && not s.confirming

-- A field that matters only at times stands under the test that says when.
pub record Inv (s : State) : Type 0 where
  pub config_ok : IsConfig s.config
  pub confirmed_ok : InRange s.config s.confirmed
  pub candidate_ok : InRange s.config (if searching s then s.candidate else s.config.base)
  pub low_ok : InRange s.config (if in_round s then s.low else s.config.base)
  pub results_lt : (if in_round s then s.results else 0) < 3
  pub first_ok : InRange s.config (if ltb 0 s.results then s.rounds.first else s.config.base)
  pub second_ok : InRange s.config (if ltb 1 s.results then s.rounds.second else s.config.base)
  pub third_ok : InRange s.config (if ltb 2 s.results then s.rounds.third else s.config.base)
  pub promote_ok :
      InRange s.config
        (if s.confirmation_candidate == 0 then s.config.base else s.confirmation_candidate)
  pub one_probe : (s.pending && s.in_flight) ≡ false
  pub confirming_ok : (s.confirming && not (searching s)) ≡ false

pub new-Inv : (c : Config) (s : State) → c.ceiling < u32_mod → new c ≡ some s → Inv s
unfolding new
new-Inv c s h e = ground arith

-- Between two rounds, and before the search has a candidate again.
pub record Between (s : State) : Type 0 where
  pub config_ok : IsConfig s.config
  pub confirmed_ok : InRange s.config s.confirmed
  pub low_ok : InRange s.config s.low
  pub first_ok : InRange s.config (if ltb 0 s.results then s.rounds.first else s.config.base)
  pub second_ok : InRange s.config (if ltb 1 s.results then s.rounds.second else s.config.base)
  pub third_ok : InRange s.config (if ltb 2 s.results then s.rounds.third else s.config.base)
  pub promote_ok :
      InRange s.config
        (if s.confirmation_candidate == 0 then s.config.base else s.confirmation_candidate)
  pub not_confirming : s.confirming ≡ false
  pub not_in_flight : s.in_flight ≡ false

-- A number that is zero or within the bounds.
abbrev IsCandidate : State → ℕ → Type 0
IsCandidate s n = (n ≡ 0) ⊎ InRange s.config n

canonical_candidate-IsCandidate : (s : State) (n : ℕ) → IsCandidate s (canonical_candidate s n)
unfolding canonical_candidate
canonical_candidate-IsCandidate s n = ground arith

zero_or {ℓ} : (P : ℕ → Type ℓ) (b : Bool) {n : ℕ} → P 0 → P n → P (if b then 0 else n)
zero_or P true z p = z
zero_or P false z p = p

next_candidate-IsCandidate : (s : State) → IsCandidate s (next_candidate s)
unfolding next_candidate
next_candidate-IsCandidate s = elim (Bool-cases (s.bad == 0)) [
  | inl e ↦ rw e (
      zero_or (IsCandidate s) _ (inl refl)
        (zero_or (IsCandidate s) _ (inl refl) (canonical_candidate-IsCandidate s _)))
  | inr e ↦ rw e (zero_or (IsCandidate s) _ (inl refl) (canonical_candidate-IsCandidate s _))
]

record_round-Between : (s : State) → Between s → s.results < 3 → Between (record_round s)
unfolding record_round
record_round-Between s b h = ground arith

open_round-Between : (s : State) → Between s → Between (open_round s)
unfolding open_round
open_round-Between s b = ground arith

conclude-Inv :
    (s : State) (now : ℕ)
    → Between s
    → 0 < s.results
    → s.results < 4
    → again s ≡ false
    → s.pending ≡ false
    → Inv (conclude s now)
unfolding conclude
conclude-Inv s now b h k e p = ground arith

pend-Inv :
    (s : State)
    → Between s
    → s.results < 3
    → InRange s.config s.candidate
    → Inv (record s { pending = true })
pend-Inv s b h c = ground arith

open_round-IsCandidate :
    (s : State) → IsConfig s.config → IsCandidate (open_round s) (open_round s).candidate
unfolding open_round
open_round-IsCandidate s c = ground (
  arith,
  canonical_candidate-IsCandidate (record s { low = s.config.base; bad = 0; candidate_tries = 0 })
      s.search_hint,
  next_candidate-IsCandidate (record s { low = s.config.base; bad = 0; candidate_tries = 0 }),
)

open_round-same :
    (s : State) → ((open_round s).results ≡ s.results) × ((open_round s).config ≡ s.config)
unfolding open_round
open_round-same s = (refl, refl)

record_round-same :
    (s : State)
    → ((record_round s).results ≡ s.results + 1)
      × ((record_round s).pending ≡ false)
      × ((record_round s).config ≡ s.config)
unfolding record_round
record_round-same s = (refl, refl, refl)

again-lt : (s : State) → again s ≡ true → s.results < 3
again-lt s e = ground arith

candidate_found :
    (s : State)
    → IsCandidate s s.candidate
    → (s.candidate == 0) ≡ false
    → InRange s.config s.candidate
candidate_found s c e = ground arith

-- The rounds left are enough fuel, and the search ends in a state with the invariant.
finish_round-Inv :
    (fuel : ℕ) (s : State) (now : ℕ)
    → Between s
    → s.results < 3
    → 3 ≤ s.results + fuel
    → Inv (finish_round fuel s now)
unfolding finish_round
finish_round-Inv zero s now b h f = absurd (omega arith)
finish_round-Inv (suc fuel) s now b h f =
    let done = record_round s in
    let opened = open_round done in
    let bd : Between done = record_round-Between s b h in
    let bo : Between opened = open_round-Between done bd in
    let sd = record_round-same s in
    let so = open_round-same done in
    elim (Bool-cases (again done)) [
      | inr stop ↦
          rw (stop, finish_round)
            (conclude-Inv done now bd (omega (arith, sd.0)) (omega (arith, sd.0)) stop sd.1)
      | inl more ↦
          let few : opened.results < 3 = omega (arith, again-lt done more, so.0) in
          elim (Bool-cases (opened.candidate == 0)) [
            | inl none_left ↦
                rw (more, none_left, finish_round)
                  (finish_round-Inv fuel opened now bo few (omega (arith, so.0, sd.0)))
            | inr found ↦
                rw (more, found, finish_round)
                  (pend-Inv opened bo few
                    (candidate_found opened (open_round-IsCandidate done bd.config_ok) found))
          ]
    ]

-- What `start` resets before the first round.
record IsFresh (s : State) : Type 0 where
  config_ok : IsConfig s.config
  confirmed_ok : InRange s.config s.confirmed
  no_results : s.results ≡ 0
  not_confirming : s.confirming ≡ false
  no_promotion : s.confirmation_candidate ≡ 0

open_round-IsFresh : (s : State) → IsFresh s → Between (open_round s)
unfolding open_round
open_round-IsFresh s f = ground arith

begin_round-Inv : (s : State) (now : ℕ) → IsFresh s → Inv (begin_round s now)
unfolding begin_round
begin_round-Inv s now f =
    let opened = open_round s in
    let bo : Between opened = open_round-IsFresh s f in
    let few : opened.results < 3 = omega (arith, (open_round-same s).0, f.no_results) in
    elim (Bool-cases (opened.candidate == 0)) [
      | inl none_left ↦
          rw (none_left, begin_round) (finish_round-Inv 3 opened now bo few (omega arith))
      | inr found ↦
          rw (found, begin_round)
            (pend-Inv opened bo few
              (candidate_found opened (open_round-IsCandidate s f.config_ok) found))
    ]

pub start_search-Inv :
    (s : State) (now : ℕ) (refreshing : Bool)
    → IsConfig s.config
    → InRange s.config s.confirmed
    → Inv (start_search s now refreshing)
unfolding start_search
start_search-Inv s now refreshing c h = elim (Bool-cases (s.config.ceiling == s.config.base)) [
  | inl e ↦ rw (e, start_search) (ground arith)
  | inr e ↦ rw (e, start_search) (begin_round-Inv _ now (ground arith))
]

pub go_on-Inv : (s : State) (now : ℕ) → Between s → s.results < 3 → Inv (go_on s now)
unfolding go_on
go_on-Inv s now b h =
    let s1 = record s { candidate_tries = 0; candidate = next_candidate s } in
    let b1 : Between s1 = ground arith in
    elim (Bool-cases (next_candidate s == 0)) [
      | inl none_left ↦ rw (none_left, go_on) (finish_round-Inv 3 s1 now b1 h (omega arith))
      | inr found ↦
          rw (found, go_on)
            (pend-Inv s1 b1 h (candidate_found s1 (next_candidate-IsCandidate s) found))
    ]
