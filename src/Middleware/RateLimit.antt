-- ===== src/Middleware/RateLimit.antt =====
-- internal/middleware/ratelimit: the quotas, the key of a request, and middleware.go around the
-- answer of a limiter. Times are nanoseconds.
pub mod Script
pub mod Redis
pub mod Bursts
use Prim.Native.String.{◌++◌ as str_append}
use stac_proxy.Common.{
  ℕ, ◌-◌, ◌/◌, ◌+◌, ◌*◌, ◌^◌, String, Bool, true, false, ◌&&◌, ◌||◌, not, Option, none, some, List,
  [], ◌∷◌, ltb, leb, ◌==◌, str_eq, if◌then◌else◌,
}
use stac_proxy.Httpx.Headers.{Header, set_header}

pub record Quota : Type 0 where
  pub requests : ℕ
  pub window : ℕ
  pub burst : ℕ

pub record Info : Type 0 where
  pub limit : ℕ
  pub remaining : ℕ
  pub reset_at : ℕ
  pub retry_after : ℕ

abbrev pub is_degenerate : Quota → Bool
is_degenerate q = q.requests == 0 || q.window == 0

unfoldable pub burst_of : Quota → ℕ
burst_of q = if q.burst == 0 then q.requests else q.burst

-- What `Allow` returns: its two values, or its error.
pub data Decision : Type 0 where
  decided : Bool → Info → Decision
  unavailable : Decision

unfoldable pub default_key : String → String → String
default_key principal_id client_ip =
    if not (str_eq principal_id "") && not (str_eq principal_id "anonymous")
    then str_append "user:" principal_id
    else str_append "ip:" client_ip

-- `split_host_port` is net.SplitHostPort with the host alone, the first text the IP that chi stored.
unfoldable pub client_ip : (String → Option String) → String → String → String
client_ip split_host_port stored remote_addr =
    if not (str_eq stored "")
    then stored
    else (elim (split_host_port remote_addr) [ none ↦ remote_addr | some host ↦ host ])

unfoldable pub principal_of : Option String → String
principal_of none = ""
principal_of (some id) = id

pub record Config : Type 0 where
  pub default_quota : Quota
  pub fail_closed : Bool

-- What the middleware does with a request: it calls the inner handler with these headers set, or
-- writes an error.
pub data Outcome : Type 0 where
  passed : Header → Outcome
  refused : ℕ → String → Header → Outcome

-- `print` is strconv.Itoa and FormatInt.
unfoldable pub quota_headers : (ℕ → String) → Info → Header → Header
unfolding set_header
quota_headers print i h = set_header "X-RateLimit-Reset" (print i.reset_at) (
    set_header "X-RateLimit-Remaining" (print i.remaining)
      (set_header "X-RateLimit-Limit" (print i.limit) h))

unfoldable pub on_decision : (ℕ → String) → Config → Header → Decision → Outcome
unfolding quota_headers set_header
on_decision print cfg h unavailable =
    if cfg.fail_closed
    then refused 503 "RateLimiterUnavailable" (set_header "Retry-After" "1" h)
    else passed h
on_decision print cfg h (decided true i) = passed (quota_headers print i h)
on_decision print cfg h (decided false i) =
    refused 429 "RateLimitExceeded"
      (set_header "Retry-After" (print i.retry_after) (quota_headers print i h))

unfoldable pub is_passed : Outcome → Bool
is_passed (passed h) = true
is_passed (refused code name h) = false
