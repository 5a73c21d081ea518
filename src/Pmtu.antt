-- ===== src/Pmtu.antt =====
-- internal/core/pmtu/pmtu.go: the DPLPMTUD search of one peer direction.
-- Instants and durations are numbers of nanoseconds; a negative duration fails the checks of `New`
-- as zero does. The zero `time.Time`, where the code tests for it, is `none`. A uint32 sum wraps.
pub mod Search
pub mod Machine
pub mod Inv
pub mod Steps
pub mod Silence
pub mod Converges
pub mod Live
use wg_frag_go.Common.{
  ℕ, zero, suc, ◌+◌, ◌-◌, ◌*◌, ◌/◌, ◌%◌, Bool, true, false, not, ◌&&◌, ◌||◌, Option, none, some,
  ltb, leb, ◌==◌, if◌then◌else◌,
}
use wg_frag_go.Limits.{default_carrier_payload}

abbrev pub u32_mod : ℕ
u32_mod = 4294967296

abbrev pub u64_mod : ℕ
u64_mod = 18446744073709551616

abbrev pub confirmation_failure_limit : ℕ
confirmation_failure_limit = 3

abbrev pub search_attempt_limit : ℕ
search_attempt_limit = 3

-- 100 ms.
abbrev pub minimum_probe_timeout : ℕ
minimum_probe_timeout = 100000000

abbrev pub max_duration : ℕ
max_duration = 9223372036854775807

pub record Config : Type 0 where
  pub base : ℕ
  pub ceiling : ℕ
  pub canonicalize : Option (ℕ → ℕ)
  pub probe_timeout : ℕ
  pub refresh_interval : ℕ
  pub confirmation_interval : ℕ

pub record Probe : Type 0 where
  pub attempt : ℕ
  pub payload_size : ℕ

-- The array `rounds [3]uint32`.
pub record Rounds : Type 0 where
  pub first : ℕ
  pub second : ℕ
  pub third : ℕ

pub record State : Type 0 where
  pub config : Config
  pub canonicalize : ℕ → ℕ
  pub confirmed : ℕ
  pub low : ℕ
  pub bad : ℕ
  pub candidate : ℕ
  pub rounds : Rounds
  pub results : ℕ
  pub attempt : ℕ
  pub in_flight : Bool
  pub pending : Bool
  pub deadline : ℕ
  pub next_refresh : Option ℕ
  pub candidate_tries : ℕ
  pub confirming : Bool
  pub refreshing : Bool
  pub confirmation_candidate : ℕ
  pub confirm_failures : ℕ
  pub next_confirmation : Option ℕ
  pub blackholed : Bool
  pub srtt : ℕ
  pub search_hint : ℕ

abbrev pub identity : ℕ → ℕ
identity payload = payload

abbrev pub strategy : Option (ℕ → ℕ) → ℕ → ℕ
strategy none = identity
strategy (some f) = f

-- `none` is ErrInvalidConfig.
unfoldable pub new : Config → Option State
new c =
    if ltb c.base default_carrier_payload
      || ltb c.ceiling c.base
      || ltb c.probe_timeout minimum_probe_timeout
      || (c.refresh_interval == 0)
      || (c.confirmation_interval == 0)
    then none
    else some (record {
      config = c;
      canonicalize = strategy c.canonicalize;
      confirmed = c.base;
      low = 0;
      bad = 0;
      candidate = 0;
      rounds = record { first = 0; second = 0; third = 0 };
      results = 0;
      attempt = 0;
      in_flight = false;
      pending = false;
      deadline = 0;
      next_refresh = none;
      candidate_tries = 0;
      confirming = false;
      refreshing = false;
      confirmation_candidate = 0;
      confirm_failures = 0;
      next_confirmation = none;
      blackholed = false;
      srtt = 0;
      search_hint = 0;
    })

abbrev pub searching : State → Bool
searching s = s.pending || s.in_flight
