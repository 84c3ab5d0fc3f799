-- ===== src/Middleware/RateLimit/Redis.antt =====
-- internal/middleware/ratelimit/redis.go: RedisLimiter.Allow over the hashes that Redis holds, one
-- request after another, and middleware.go around it. Redis drops a key whose lifetime is over, at
-- any time from then on, by the clock that the proxies read. SHA-256 with its hex digits, the
-- decimal digits of numbers and the operations of float64 are arguments.
use Prim.Native.String.{◌++◌ as str_append}
use stac_proxy.Common.{
  ℕ, ◌+◌, ◌-◌, ◌/◌, ◌%◌, ◌^◌, String, false, ◌||◌, Option, none, some, ltb, leb, ◌==◌, str_eq,
  if◌then◌else◌,
}
use stac_proxy.Httpx.Headers.{Header}
use stac_proxy.Middleware.RateLimit.{
  Quota, Info, Decision, decided, unavailable, Config, Outcome, burst_of, default_key, principal_of,
  on_decision, is_degenerate,
}
use stac_proxy.Middleware.RateLimit.Script.{Floats, Args, Bucket, Reply, token_bucket, lifetime}

pub record Entry (F : Type 0) : Type 0 where
  pub bucket : Bucket F
  pub expires_at : ℕ

abbrev pub Store : Type 0 → Type 0
Store F = String → Option (Entry F)

abbrev pub bucket_at : {F : Type 0} → Option (Entry F) → Option (Bucket F)
bucket_at none = none
bucket_at (some e) = some e.bucket

unfoldable pub put : {F : Type 0} → String → Entry F → Store F → Store F
put k e s j = if str_eq k j then some e else s j

-- How the round trip to Redis goes: an error may hide a script that ran.
pub data Network : Type 0 where
  reached : Network
  lost : Network
  unreached : Network

pub record Printing : Type 0 where
  pub decimal : ℕ → String
  pub digest : String → String

unfoldable pub bucket_key : Printing → String → String → Quota → String
bucket_key p prefix key q = str_append prefix (
    p.digest (
      str_append key (
        str_append "\0" (
          str_append (p.decimal q.requests) (
            str_append ":"
              (str_append (p.decimal q.window) (str_append ":" (p.decimal q.burst))))))))

abbrev pub ceil_div : ℕ → ℕ → ℕ
ceil_div a b = (a + (b - 1)) / b

-- The milliseconds of a denial in seconds, rounded up, and one at least.
unfoldable pub retry_seconds : ℕ → ℕ
retry_seconds ms = if ltb (ceil_div ms 1000) 1 then 1 else ceil_div ms 1000

unfoldable pub stored_by : {F : Type 0} → Network → String → Entry F → Store F → Store F
unfolding put
stored_by reached k e s = put k e s
stored_by lost k e s = put k e s
stored_by unreached k e s = s

-- Redis drops a key only when its time is over.
unfoldable pub left_at : {F : Type 0} → ℕ → Option (Entry F) → Option (Entry F)
left_at now none = none
left_at now (some e) = if leb e.expires_at now then none else some e

unfoldable pub drop_at : {F : Type 0} → ℕ → String → Store F → Store F
unfolding left_at
drop_at now k s j = if str_eq k j then left_at now (s j) else s j

module _ {F : Type 0} (fl : Floats F) where
  -- `float64(quota.Requests) / quota.Window.Seconds()`
  unfoldable pub rate_of : Quota → F
  rate_of q = fl.div (fl.of_nat q.requests) (
      fl.add (fl.of_nat (q.window / 10 ^ 9))
        (fl.div (fl.of_nat (q.window % 10 ^ 9)) (fl.of_nat (10 ^ 9))))

  unfoldable pub args_of : Quota → Args F
  unfolding burst_of rate_of
  args_of q = record { rate = rate_of q; burst = fl.of_nat (burst_of q); cost = fl.of_nat 1 }

  unfoldable pub not_below : F → F
  not_below tokens = if fl.at_most (fl.of_nat 0) tokens then tokens else fl.of_nat 0

  -- `resetAt(…).Unix()`
  unfoldable pub reset_time : ℕ → F → Quota → ℕ
  unfolding burst_of rate_of not_below
  reset_time now tokens q =
      if fl.at_most (fl.of_nat (burst_of q)) tokens || (q.requests == 0 || q.window == 0)
      then now / 10 ^ 9
      else (if fl.at_most (rate_of q) (fl.of_nat 0)
          then now / 10 ^ 9
          else (now
              + fl.floor (
                  fl.mul (fl.div (fl.sub (fl.of_nat (burst_of q)) (not_below tokens)) (rate_of q))
                    (fl.of_nat (10 ^ 9))))
            / 10 ^ 9)

  unfoldable pub info_of : ℕ → Quota → Reply F → Info
  unfolding reset_time retry_seconds not_below
  info_of now q r = record {
    limit = q.requests;
    remaining = fl.floor (not_below r.pre);
    reset_at = reset_time now r.pre q;
    retry_after = if r.allowed then 0 else retry_seconds r.retry_ms;
  }

  unfoldable pub entry_of : Args F → ℕ → Option (Entry F) → Entry F
  unfolding token_bucket lifetime
  entry_of a now o = record {
    bucket = (token_bucket fl a now (bucket_at o)).0;
    expires_at = now + lifetime fl a;
  }

  unfoldable pub reply_seen : Network → ℕ → Quota → Reply F → Decision
  unfolding info_of
  reply_seen reached now q r = decided r.allowed (info_of now q r)
  reply_seen lost now q r = unavailable
  reply_seen unreached now q r = unavailable

  unfoldable pub allow :
      Printing → String → Network → ℕ → String → Quota → Store F → Store F × Decision
  unfolding args_of bucket_key entry_of token_bucket reply_seen stored_by
  allow p prefix net now key q s =
      if is_degenerate q
      then (
        s,
        decided false (record { limit = q.requests; remaining = 0; reset_at = 0; retry_after = 1 }),
      )
      else (let k = bucket_key p prefix key q in
          let a = args_of q in
          (
            stored_by net k (entry_of a (now / 10 ^ 6) (s k)) s,
            reply_seen net now q (token_bucket fl a (now / 10 ^ 6) (bucket_at (s k))).1,
          ))

  -- One request through the middleware: the identity of its principal, if it has one, and the IP of
  -- its client.
  unfoldable pub serve :
      Printing
      → String
      → Config
      → Network
      → ℕ
      → Option String
      → String
      → Header
      → Store F
      → Store F × Outcome
  unfolding allow default_key principal_of on_decision
  serve p prefix cfg net now principal ip h s =
      let (s', d) =
        allow p prefix net now (default_key (principal_of principal) ip) cfg.default_quota s in
      (s', on_decision p.decimal cfg h d)
