-- ===== src/Httpx/Breaker/Period.antt =====
-- internal/httpx/breaker.go (withDefaults, open) and transport.go (fullJitter): the configuration
-- in force, and how long an open circuit stays open.
use native.Mathlib.Nat.{mul-pos, one-le-pow}
use stac_proxy.Common.{ℕ, ◌+◌, ◌*◌, ◌/◌, ◌^◌, ◌≤◌, ◌<◌, ◌≡◌, min, arith}
use stac_proxy.Common.Int.{ℤ, positive_or}
use stac_proxy.Httpx.Breaker.{
  RawConfig, BreakerConfig, with_defaults, full_jitter, open_period, i64_limit, raise_max, second,
}

pub record IsValid (c : BreakerConfig) : Type 0 where
  pub threshold : 0 < c.failure_threshold
  pub base : 0 < c.open_base
  pub top : c.open_base ≤ c.open_max
  pub trials : 0 < c.half_open_probes

positive_or_pos : (d : ℕ) (v : ℤ) → 0 < d → 0 < positive_or d v
positive_or_pos d (ℤ.pos n) h = ground arith
positive_or_pos d (ℤ.negsuc n) h = h

raise_max_le : (base top : ℕ) → base ≤ raise_max base top
unfolding raise_max
raise_max_le base top = ground arith

-- Whatever the operator wrote, the configuration in force has a positive threshold, a positive
-- first period that is no longer than the longest one, and at least one probe.
pub with_defaults-IsValid : (c : RawConfig) → IsValid (with_defaults c)
unfolding with_defaults
with_defaults-IsValid c = record {
  threshold = positive_or_pos 5 c.failure_threshold (omega arith);
  base = positive_or_pos (10 * second) c.open_base (omega arith);
  top = raise_max_le _ _;
  trials = positive_or_pos 1 c.half_open_probes (omega arith);
}

-- What is documented of `rand.N`: it draws below its argument.
abbrev pub Draws : (ℕ → ℕ) → Type 0
Draws rand_n = (n : ℕ) → 0 < n → rand_n n < n

pub full_jitter_bounds :
    (rand_n : ℕ → ℕ) (d : ℕ)
    → Draws rand_n
    → (d / 2 ≤ full_jitter rand_n d) × (full_jitter rand_n d ≤ d)
unfolding full_jitter
full_jitter_bounds rand_n d draws = ground (arith, draws (d / 2 + 1))

pub open_period_le : (c : BreakerConfig) (n : ℕ) → open_period c n ≤ c.open_max
unfolding open_period
open_period_le c n = ground arith

-- As long as the shifted period fits in an int64, the open period doubles with every re-open and
-- is cut off at `open_max`.
pub open_period-min :
    (c : BreakerConfig) (n : ℕ)
    → IsValid c
    → c.open_base * 2 ^ n < i64_limit
    → open_period c n ≡ min (c.open_base * 2 ^ n) c.open_max
unfolding open_period
open_period-min c n v fits =
    let pos : 1 ≤ c.open_base * 2 ^ n = mul-pos v.base (one-le-pow n 2 (omega arith)) in
    ground arith
