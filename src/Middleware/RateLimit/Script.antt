-- ===== src/Middleware/RateLimit/Script.antt =====
-- internal/middleware/ratelimit/redis.go (tokenBucketScript): the Lua script that Redis runs for one
-- request. Its numbers are float64, whose operations are an argument; the times are whole
-- milliseconds, which float64 holds.
use stac_proxy.Common.{
  ℕ, suc, ◌-◌, ◌*◌, ◌≤◌, ◌≡◌, Bool, true, false, Option, none, some, ltb, if◌then◌else◌,
}

-- float64: a number as a float, the four operations, the order, math.min, math.ceil and math.floor of a
-- number that is not negative, and what is read back of a number that Redis stored or replied as
-- text.
pub record Floats (F : Type 0) : Type 0 where
  pub of_nat : ℕ → F
  pub add : F → F → F
  pub sub : F → F → F
  pub mul : F → F → F
  pub div : F → F → F
  pub at_most : F → F → Bool
  pub minimum : F → F → F
  pub ceil : F → ℕ
  pub floor : F → ℕ
  pub printed : F → F

-- What float64 and the texts of Redis promise of whole numbers up to a limit: they are compared, less
-- one, and stored exactly.
pub record IsExact {F : Type 0} (fl : Floats F) (limit : ℕ) : Type 0 where
  pub nothing : fl.at_most (fl.of_nat 1) (fl.of_nat 0) ≡ false
  pub enough : (n : ℕ) → suc n ≤ limit → fl.at_most (fl.of_nat 1) (fl.of_nat (suc n)) ≡ true
  pub taken : (n : ℕ) → suc n ≤ limit → fl.sub (fl.of_nat (suc n)) (fl.of_nat 1) ≡ fl.of_nat n
  pub kept : (n : ℕ) → n ≤ limit → fl.printed (fl.of_nat n) ≡ fl.of_nat n

-- ARGV, less `now`.
pub record Args (F : Type 0) : Type 0 where
  pub rate : F
  pub burst : F
  pub cost : F

-- The hash of one key.
pub record Bucket (F : Type 0) : Type 0 where
  pub tokens : F
  pub ts : ℕ

pub record Reply (F : Type 0) : Type 0 where
  pub allowed : Bool
  pub pre : F
  pub retry_ms : ℕ

-- `tokens == nil or ts == nil`
unfoldable pub found : {F : Type 0} → Args F → ℕ → Option (Bucket F) → Bucket F
found a now none = record { tokens = a.burst; ts = now }
found a now (some b) = b

module _ {F : Type 0} (fl : Floats F) where
  -- `if now > ts`
  unfoldable pub refill : Args F → ℕ → Bucket F → Bucket F
  refill a now b =
      if ltb b.ts now
      then record {
        tokens =
            fl.minimum a.burst
              (fl.add b.tokens (fl.mul (fl.div (fl.of_nat (now - b.ts)) (fl.of_nat 1000)) a.rate));
        ts = now;
      }
      else b

  unfoldable pub spend : Args F → Bucket F → Bucket F × Reply F
  spend a b =
      if fl.at_most a.cost b.tokens
      then (
        record b { tokens = fl.printed (fl.sub b.tokens a.cost) },
        record { allowed = true; pre = fl.printed b.tokens; retry_ms = 0 },
      )
      else (
        record b { tokens = fl.printed b.tokens },
        record {
          allowed = false;
          pre = fl.printed b.tokens;
          retry_ms = fl.ceil (fl.mul (fl.div (fl.sub a.cost b.tokens) a.rate) (fl.of_nat 1000));
        },
      )

  -- The hash that the script writes, and what it returns.
  unfoldable pub token_bucket : Args F → ℕ → Option (Bucket F) → Bucket F × Reply F
  unfolding found refill spend
  token_bucket a now o = spend a (refill a now (found a now o))

  -- The argument of PEXPIRE, in milliseconds.
  unfoldable pub lifetime : Args F → ℕ
  lifetime a = fl.ceil (fl.mul (fl.div a.burst a.rate) (fl.of_nat 1000)) * 2
