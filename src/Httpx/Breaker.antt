-- ===== src/Httpx/Breaker.antt =====
-- internal/httpx/breaker.go: the per-origin circuit breaker, and the jitter of transport.go that
-- it draws on. Times and durations are nanoseconds; the clock and the random source are
-- arguments of each call. `b.mu` makes each of `admit` and `record` one atomic step.
pub mod Period
pub mod Calls
pub mod Trace
use stac_proxy.Common.Int.{ℤ, positive_or}
use stac_proxy.Common.{
  ℕ, ◌+◌, ◌-◌, ◌*◌, ◌/◌, ◌%◌, ◌^◌, Bool, true, false, ◌||◌, Option, none, some, ltb, leb, ◌==◌,
  if◌then◌else◌,
}

pub record RawConfig : Type 0 where
  pub failure_threshold : ℤ
  pub open_base : ℤ
  pub open_max : ℤ
  pub half_open_probes : ℤ

pub record BreakerConfig : Type 0 where
  pub failure_threshold : ℕ
  pub open_base : ℕ
  pub open_max : ℕ
  pub half_open_probes : ℕ

abbrev pub second : ℕ
second = 1000000000

-- `if c.OpenMax < c.OpenBase { c.OpenMax = c.OpenBase }`
raise_max : ℕ → ℕ → ℕ
raise_max base top = if ltb top base then base else top

unfoldable pub with_defaults : RawConfig → BreakerConfig
unfolding raise_max
with_defaults c = record {
  failure_threshold = positive_or 5 c.failure_threshold;
  open_base = positive_or (10 * second) c.open_base;
  open_max =
      raise_max (positive_or (10 * second) c.open_base) (positive_or (120 * second) c.open_max);
  half_open_probes = positive_or 1 c.half_open_probes;
}

pub data BreakerState : Type 0 where
  closed open_ half_open : BreakerState

pub record Breaker : Type 0 where
  pub cfg : BreakerConfig
  pub state : BreakerState
  pub consec_fails : ℕ
  pub reopens : ℕ
  pub open_until : ℕ
  pub probes : ℕ
  pub gen : ℕ

unfoldable pub new_breaker : RawConfig → Breaker
unfolding with_defaults
new_breaker c = record {
  cfg = with_defaults c;
  state = closed;
  consec_fails = 0;
  reopens = 0;
  open_until = 0;
  probes = 0;
  gen = 0;
}

-- What the inner transport returned: `context.Canceled` is told apart from any other error.
pub data TransportError : Type 0 where
  canceled failed : TransportError

pub record Outcome : Type 0 where
  pub resp : Option ℕ
  pub err : Option TransportError

-- `d / 2 + rand.N(d / 2 + 1)`; `rand_n n` is the number that this call of `rand.N(n)` draws.
unfoldable pub full_jitter : (ℕ → ℕ) → ℕ → ℕ
full_jitter rand_n d = if d == 0 then d else d / 2 + rand_n (d / 2 + 1)

-- `OpenBase << reopens` on int64: the low 64 bits, of which the top one is the sign.
abbrev pub u64_mod : ℕ
u64_mod = 2 ^ 64

abbrev pub i64_limit : ℕ
i64_limit = 2 ^ 63

unfoldable pub open_period : BreakerConfig → ℕ → ℕ
open_period cfg reopens =
    let period = cfg.open_base * 2 ^ reopens % u64_mod in
    if ltb cfg.open_max period || (leb i64_limit period || period == 0)
    then cfg.open_max
    else period

unfoldable pub open_circuit : (ℕ → ℕ) → ℕ → Breaker → Breaker
open_circuit rand_n now b = record b {
  state = open_;
  open_until = now + full_jitter rand_n (open_period b.cfg b.reopens);
  consec_fails = 0;
  probes = 0;
  gen = (b.gen + 1) % u64_mod;
}

-- `none` is ErrCircuitOpen.
admit_in : BreakerState → ℕ → Breaker → Breaker × Option ℕ
admit_in closed now b = (b, some b.gen)
admit_in open_ now b =
    if ltb now b.open_until
    then (b, none)
    else (record b { state = half_open; probes = 1 }, some b.gen)
admit_in half_open now b =
    if leb b.cfg.half_open_probes b.probes
    then (b, none)
    else (record b { probes = b.probes + 1 }, some b.gen)

unfoldable pub admit : ℕ → Breaker → Breaker × Option ℕ
unfolding admit_in
admit now b = admit_in b.state now b

unfoldable pub is_canceled : Option TransportError → Bool
is_canceled (some canceled) = true
is_canceled (some failed) = false
is_canceled none = false

-- `err != nil || (resp != nil && resp.StatusCode >= 500)`
unfoldable pub is_failure : Option TransportError → Option ℕ → Bool
is_failure (some e) resp = true
is_failure none (some status) = leb 500 status
is_failure none none = false

release_probe : BreakerState → Breaker → Breaker
release_probe half_open b = if ltb 0 b.probes then record b { probes = b.probes - 1 } else b
release_probe _ b = b

on_failure : BreakerState → (ℕ → ℕ) → ℕ → Breaker → Breaker
on_failure closed rand_n now b =
    if leb b.cfg.failure_threshold (b.consec_fails + 1)
    then open_circuit rand_n now (record b { consec_fails = b.consec_fails + 1; reopens = 0 })
    else record b { consec_fails = b.consec_fails + 1 }
on_failure half_open rand_n now b = open_circuit rand_n now (record b { reopens = b.reopens + 1 })
on_failure open_ rand_n now b = b

on_success : Breaker → Breaker
on_success b = record b { state = closed; consec_fails = 0; reopens = 0; probes = 0 }

-- `record(gen, resp, err)` at time `now`.
unfoldable pub record_outcome : (ℕ → ℕ) → ℕ → ℕ → Outcome → Breaker → Breaker
unfolding is_canceled is_failure release_probe on_failure on_success
record_outcome rand_n now gen out b =
    if gen == b.gen
    then (if is_canceled out.err
        then release_probe b.state b
        else (if is_failure out.err out.resp
            then on_failure b.state rand_n now b
            else on_success b))
    else b
