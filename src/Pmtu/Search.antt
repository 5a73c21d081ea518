-- ===== src/Pmtu/Search.antt =====
-- pmtu.go, the search: candidates, rounds, and what a round's result leads to.
use wg_frag_go.Common.{
  ℕ, zero, suc, ◌+◌, ◌-◌, ◌*◌, ◌/◌, ◌%◌, Bool, true, false, not, ◌&&◌, ◌||◌, some, ltb, leb, ◌==◌,
  if◌then◌else◌,
}
use wg_frag_go.Pmtu.{Rounds, State, u32_mod, search_attempt_limit}

unfoldable pub median : ℕ → ℕ → ℕ → ℕ
median a b c =
    let a1 = if ltb b a then b else a in
    let b1 = if ltb b a then a else b in
    let b2 = if ltb c b1 then c else b1 in if ltb b2 a1 then a1 else b2

-- Zero if the strategy's size is out of bounds.
unfoldable pub canonical_candidate : State → ℕ → ℕ
canonical_candidate s payload =
    let candidate = s.canonicalize payload in
    if ltb candidate s.config.base || ltb s.config.ceiling candidate then 0 else candidate

unfoldable pub next_candidate : State → ℕ
next_candidate s =
    let middle =
      canonical_candidate s ((s.low + (s.bad + u32_mod - s.low) % u32_mod / 2) % u32_mod) in
    let doubled =
      if ltb (s.config.ceiling / 2) s.low then s.config.ceiling else s.low * 2 % u32_mod in
    let raised = canonical_candidate s doubled in
    if not (s.bad == 0)
    then (if leb middle s.low || leb s.bad middle then 0 else middle)
    else (if leb s.config.ceiling s.low then 0 else (if leb raised s.low then 0 else raised))

-- `beginRound` up to its test for a candidate.
unfoldable pub open_round : State → State
open_round s =
    let s1 = record s { low = s.config.base; bad = 0; candidate_tries = 0 } in
    let hinted = canonical_candidate s1 s.search_hint in
    record s1 {
      candidate = if ltb s.config.base hinted then hinted else next_candidate s1;
      search_hint = 0;
      in_flight = false;
    }

-- `s.rounds[i] = low`; the source panics at an index above 2.
unfoldable pub set_round : ℕ → ℕ → Rounds → Rounds
set_round i low r =
    if i == 0
    then record r { first = low }
    else (if i == 1
        then record r { second = low }
        else (if i == 2 then record r { third = low } else r))

-- The head of `finishRound`.
unfoldable pub record_round : State → State
unfolding set_round
record_round s = record s {
  pending = false;
  in_flight = false;
  rounds = set_round s.results s.low s.rounds;
  results = s.results + 1;
}

-- Does `finishRound` open another round?
abbrev pub again : State → Bool
again s = (s.results == 1) || (s.results == 2) && not (s.rounds.first == s.rounds.second)

-- The tail of `finishRound`: confirm a larger size, or go idle.
unfoldable pub conclude : State → ℕ → State
unfolding median
conclude s now =
    let candidate =
      if s.results == 2
      then s.rounds.first
      else median s.rounds.first s.rounds.second s.rounds.third in
    if ltb s.confirmed candidate
    then record s {
      confirmation_candidate = candidate;
      confirming = true;
      candidate = candidate;
      candidate_tries = 0;
      pending = true;
    }
    else record s {
      search_hint = 0;
      refreshing = false;
      next_refresh = some (now + s.config.refresh_interval);
      next_confirmation = some (now + s.config.confirmation_interval);
    }

-- `finishRound`, which may begin a round that is over at once, and so on: the fuel counts such
-- rounds.
unfoldable pub finish_round : ℕ → State → ℕ → State
finish_round zero s now = s
finish_round (suc fuel) s now =
    let done = record_round s in
    let opened = open_round done in
    let rest = finish_round fuel opened now in
    if again done
    then (if opened.candidate == 0 then rest else record opened { pending = true })
    else conclude done now

-- No search has more than three rounds.
abbrev pub round_fuel : ℕ
round_fuel = 3

unfoldable pub begin_round : State → ℕ → State
begin_round s now =
    let opened = open_round s in
    if opened.candidate == 0
    then finish_round round_fuel opened now
    else record opened { pending = true }

-- The tail that `success` and `failure` share.
unfoldable pub go_on : State → ℕ → State
go_on s now =
    let s1 = record s { candidate_tries = 0; candidate = next_candidate s } in
    if s1.candidate == 0 then finish_round round_fuel s1 now else record s1 { pending = true }

unfoldable pub success : State → ℕ → State
success s now = go_on (record s { low = s.candidate }) now

unfoldable pub failure : State → ℕ → Bool → State
failure s now definitive =
    if not definitive && ltb s.candidate_tries search_attempt_limit
    then record s { pending = true }
    else go_on (record s { bad = s.candidate }) now
