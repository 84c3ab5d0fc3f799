-- ===== src/Httpx/Breaker/Calls.antt =====
-- internal/httpx/breaker.go (admit, record, open): what the calls do over a stretch of outcomes.
use stac_proxy.Common.{
  ℕ, ◌+◌, ◌/◌, ◌%◌, ◌≤◌, ◌<◌, ◌≡◌, true, false, none, some, List, [], ◌∷◌, arith, length, All,
}
use stac_proxy.Httpx.Breaker.{
  Breaker, closed, open_, half_open, Outcome, admit, record_outcome, open_circuit, open_period,
  full_jitter, u64_mod, is_canceled, is_failure,
}
use stac_proxy.Httpx.Breaker.Period.{Draws, full_jitter_bounds, open_period_le}

-- Outcomes recorded one after another, each under the generation in force.
pub record_all : (ℕ → ℕ) → List (ℕ × Outcome) → Breaker → Breaker
record_all rand_n [] b = b
record_all rand_n ((now, out) ∷ rest) b =
    record_all rand_n rest (record_outcome rand_n now b.gen out b)

-- A failure that counts: a 5xx status, or an error that is no cancellation.
abbrev pub Counts : ℕ × Outcome → Type 0
Counts (now, out) = (is_canceled out.err ≡ false) × (is_failure out.err out.resp ≡ true)

-- Failures in a row on a closed circuit are only counted while their number stays below the
-- threshold.
pub record_all_below :
    (rand_n : ℕ → ℕ) (outs : List (ℕ × Outcome)) (b : Breaker)
    → b.state ≡ closed
    → All Counts outs
    → b.consec_fails + length outs < b.cfg.failure_threshold
    → record_all rand_n outs b ≡ record b { consec_fails = b.consec_fails + length outs }
unfolding record_all record_outcome
record_all_below rand_n [] b st h below = ground arith
record_all_below rand_n ((now, out) ∷ outs) b st h below = ground (
  arith,
  record_all_below rand_n outs (record b { consec_fails = b.consec_fails + 1 }) st h.1
      (omega arith),
)

-- The failure that reaches the threshold opens the circuit for a period of the first length, under
-- a new generation, with the counters at zero.
pub record_at_threshold :
    (rand_n : ℕ → ℕ) (now : ℕ) (out : Outcome) (b : Breaker)
    → b.state ≡ closed
    → Counts (now, out)
    → b.consec_fails + 1 ≡ b.cfg.failure_threshold
    → record_outcome rand_n now b.gen out b ≡ record b {
      state = open_;
      consec_fails = 0;
      reopens = 0;
      probes = 0;
      open_until = now + full_jitter rand_n (open_period b.cfg 0);
      gen = (b.gen + 1) % u64_mod;
    }
unfolding record_outcome open_circuit
record_at_threshold rand_n now out b st h at = ground arith

-- From the moment of opening the circuit refuses every request for at least half the period and
-- is left as it is; after the whole period, at most `open_max`, the next request is let through
-- as the first probe.
pub admit-open_circuit :
    (rand_n : ℕ → ℕ) (now t : ℕ) (b : Breaker)
    → Draws rand_n
    → (t < now + open_period b.cfg b.reopens / 2
        → admit t (open_circuit rand_n now b) ≡ (open_circuit rand_n now b, none))
      × (now + open_period b.cfg b.reopens ≤ t
          → admit t (open_circuit rand_n now b) ≡ (
            record (open_circuit rand_n now b) { state = half_open; probes = 1 },
            some ((b.gen + 1) % u64_mod),
          ))
      × (open_period b.cfg b.reopens ≤ b.cfg.open_max)
unfolding admit open_circuit
admit-open_circuit rand_n now t b draws =
    let (low, high) = full_jitter_bounds rand_n (open_period b.cfg b.reopens) draws in
    (λ h. ground arith, λ h. ground arith, open_period_le b.cfg b.reopens)
