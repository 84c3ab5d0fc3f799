-- ===== src/Tests/Rates.antt =====
-- Runs of internal/middleware/ratelimit: a burst of two, with whole numbers for float64.
use stac_proxy.Common.{
  ◌≡◌, refl, ℕ, ◌+◌, ◌-◌, ◌*◌, ◌/◌, ◌^◌, true, none, some, List, [], ◌∷◌, arith, leb, min,
}
use stac_proxy.Httpx.Headers.{Header}
use stac_proxy.Middleware.RateLimit.{Config, burst_of, default_key, client_ip}
use stac_proxy.Middleware.RateLimit.Script.{Floats, IsExact}
use stac_proxy.Middleware.RateLimit.Redis.{Printing, Store}
use stac_proxy.Middleware.RateLimit.Bursts.{passed_count, passed_count-burst}

abbrev whole : Floats ℕ
whole = record {
  of_nat = λ n. n;
  add = λ a b. a + b;
  sub = λ a b. a - b;
  mul = λ a b. a * b;
  div = λ a b. a / b;
  at_most = leb;
  minimum = min;
  ceil = λ a. a;
  floor = λ a. a;
  printed = λ a. a;
}

whole-IsExact : IsExact whole (10 ^ 14)
whole-IsExact = record {
  nothing = refl;
  enough = λ n h. ground arith;
  taken = λ n h. omega arith;
  kept = λ n h. refl;
}

abbrev p : Printing
p = record { decimal = λ n. "n"; digest = λ s. s }

abbrev cfg : Config
cfg = record {
  default_quota = record { requests = 1; window = 10 ^ 9; burst = 2 };
  fail_closed = true;
}

abbrev empty : Store ℕ
empty = λ k. none

-- Three requests within the millisecond 7.
abbrev three : List (ℕ × Header)
three = (7 * 10 ^ 6, []) ∷ (7 * 10 ^ 6 + 500, []) ∷ (7 * 10 ^ 6 + 900, []) ∷ []

passed_count-burst_example :
    passed_count whole p "rl:" cfg (some "ann") "::1" three empty
    ≡ min 3 (burst_of cfg.default_quota)
unfolding burst_of
passed_count-burst_example =
    passed_count-burst whole p "rl:" cfg (some "ann") "::1" (10 ^ 14) whole-IsExact three 7 empty
      refl (ground arith) (refl, (refl, (refl, tt))) refl

anonymous_key : default_key "anonymous" "::1" ≡ "ip:::1"
unfolding default_key
anonymous_key = refl

bare_address : client_ip (λ s. none) "" "pipe" ≡ "pipe"
unfolding client_ip
bare_address = refl
