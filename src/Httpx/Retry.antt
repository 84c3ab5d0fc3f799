-- ===== src/Httpx/Retry.antt =====
-- internal/httpx/transport.go: which requests are retried, when, and after which delay. The retry
-- loop of go-retryablehttp, its DefaultBackoff and the transports are arguments. A transport passes
-- the state of the world on; a method is its text and a duration is in nanoseconds.
use stac_proxy.Common.Int.{ℤ, int_ltb}
use stac_proxy.Common.{
  ◌≡◌, refl, ℕ, ◌/◌, ◌≤◌, String, Bool, true, false, ◌&&◌, ◌||◌, not, Option, none, some, List, [],
  ◌∷◌, str_eq, leb, ◌==◌, if◌then◌else◌, arith,
}
use stac_proxy.Httpx.Headers.{Header, get_header}
use stac_proxy.Httpx.Breaker.{full_jitter}
use stac_proxy.Httpx.Breaker.Period.{Draws, full_jitter_bounds}

pub record RetryConfig : Type 0 where
  pub max_retries : ℤ
  pub initial_backoff : ℕ
  pub max_backoff : ℕ
  pub retry_on : List ℕ
  pub retry_non_idempotent : Bool

pub record Response : Type 0 where
  pub status : ℕ
  pub header : Header

pub data RoundTripped (E : Type 0) : Type 0 where
  responded : Response → RoundTripped E
  failed : E → RoundTripped E

unfoldable pub is_listed : ℕ → List ℕ → Bool
is_listed code [] = false
is_listed code (c ∷ cs) = if code == c then true else is_listed code cs

unfoldable pub is_retry_status : List ℕ → ℕ → Bool
unfolding is_listed
is_retry_status [] code = leb 500 code
is_retry_status (c ∷ cs) code = is_listed code (c ∷ cs)

-- The first argument is the list of status codes, the second the error of the context.
unfoldable pub check_retry : {E : Type 0} → List ℕ → Option E → RoundTripped E → Bool × Option E
unfolding is_retry_status
check_retry retry_on (some e) a = (false, some e)
check_retry retry_on none (failed e) = (true, none)
check_retry retry_on none (responded r) = (is_retry_status retry_on r.status, none)

unfoldable pub keeps_delay : Option Response → Bool
unfolding get_header
keeps_delay none = false
keeps_delay (some r) =
    (r.status == 429 || r.status == 503) && not (str_eq (get_header "Retry-After" r.header) "")

-- `default_backoff` is retryablehttp.DefaultBackoff.
unfoldable pub jittered_backoff :
    (ℕ → ℕ) → (ℕ → ℕ → ℕ → Option Response → ℕ) → ℕ → ℕ → ℕ → Option Response → ℕ
unfolding keeps_delay full_jitter
jittered_backoff rand_n default_backoff min_wait max_wait attempt resp =
    let d = default_backoff min_wait max_wait attempt resp in
    if keeps_delay resp then d else full_jitter rand_n d

-- What the retry client is given: the number of retries, the bounds of the delay, the check and
-- the backoff; it hands its last answer on.
pub record Settings (E : Type 0) : Type 0 where
  pub retry_max : ℤ
  pub retry_wait_min : ℕ
  pub retry_wait_max : ℕ
  pub check : Option E → RoundTripped E → Bool × Option E
  pub backoff : ℕ → ℕ → ℕ → Option Response → ℕ

pub record Request (B : Type 0) : Type 0 where
  pub method : String
  pub body : B

abbrev pub Transport : Type 0 → Type 0 → Type 0 → Type 0
Transport S E B = S → Request B → S × RoundTripped E

unfoldable gated :
    {S : Type 0} → {E : Type 0} → {B : Type 0} → Transport S E B → Transport S E B → Transport S E B
gated retry passthrough s req =
    if str_eq req.method "POST" || str_eq req.method "PATCH" then passthrough s req else retry s req

unfoldable pub settings_of :
    {E : Type 0} → (ℕ → ℕ) → (ℕ → ℕ → ℕ → Option Response → ℕ) → RetryConfig → Settings E
unfolding check_retry jittered_backoff
settings_of rand_n default_backoff cfg = record {
  retry_max = cfg.max_retries;
  retry_wait_min = cfg.initial_backoff;
  retry_wait_max = cfg.max_backoff;
  check = check_retry cfg.retry_on;
  backoff = jittered_backoff rand_n default_backoff;
}

unfoldable pub transport_or : {T : Type 0} → T → Option T → T
transport_or d none = d
transport_or d (some t) = t

-- `client` is the round trip of go-retryablehttp.
unfoldable pub new_retry_transport :
    {S : Type 0}
    → {E : Type 0} → {B : Type 0} → (Settings E → Transport S E B → Transport S E B)
    → (ℕ → ℕ)
    → (ℕ → ℕ → ℕ → Option Response → ℕ)
    → Transport S E B
    → Option (Transport S E B)
    → RetryConfig
    → Transport S E B
unfolding gated settings_of int_ltb transport_or
new_retry_transport client rand_n default_backoff default_transport inner cfg =
    let base = transport_or default_transport inner in
    let retry = client (settings_of rand_n default_backoff cfg) base in
    if int_ltb (ℤ.pos 0) cfg.max_retries
    then (if cfg.retry_non_idempotent then retry else gated retry base)
    else base

-- What is documented of DefaultBackoff, but for a delay that the upstream asked for.
abbrev pub IsLimited : (ℕ → ℕ → ℕ → Option Response → ℕ) → Type 0
IsLimited default_backoff =
    (low high n : ℕ) (resp : Option Response)
    → low ≤ high
    → keeps_delay resp ≡ false
    → (low ≤ default_backoff low high n resp) × (default_backoff low high n resp ≤ high)

-- With the promises of package rand and of DefaultBackoff, where the bounds are in order: the delay
-- before a retry is at least half of the lower bound and at most the upper one, unless a 429 or 503
-- asks for a delay, which is then the delay of DefaultBackoff.
pub jittered_backoff_bounds :
    (rand_n : ℕ → ℕ) (default_backoff : ℕ → ℕ → ℕ → Option Response → ℕ) (low high n : ℕ)
    (resp : Option Response)
    → Draws rand_n
    → IsLimited default_backoff
    → low ≤ high
    → (keeps_delay resp ≡ false
        → (low / 2 ≤ jittered_backoff rand_n default_backoff low high n resp)
          × (jittered_backoff rand_n default_backoff low high n resp ≤ high))
      × (keeps_delay resp ≡ true
          → jittered_backoff rand_n default_backoff low high n resp
            ≡ default_backoff low high n resp)
unfolding jittered_backoff
jittered_backoff_bounds rand_n default_backoff low high n resp draws limited ordered = (
  λ plain.
      let (from, upto) = limited low high n resp ordered plain in
      let (half, whole) = full_jitter_bounds rand_n (default_backoff low high n resp) draws in
      (rw plain (ground arith), rw plain (ground arith)),
  λ asked. rw asked refl,
)
