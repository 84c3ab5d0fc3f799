-- ===== src/Middleware/Auth/Jwks.antt =====
-- internal/middleware/auth/jwks.go: the client that fetches and caches an issuer's JSON Web Keys. A
-- time and a duration are natural numbers; a duration that is not positive is 0. The decoder of
-- base64url is an argument, as is the answer of the issuer to each request.
pub mod Refinement
pub mod Calls
pub mod Floods
use stac_proxy.Common.{
  ℕ, ◌+◌, ◌*◌, ◌%◌, ◌^◌, String, Bool, true, false, ◌||◌, not, Option, none, some, List, [], ◌∷◌,
  ltb, ◌==◌, str_eq, if◌then◌else◌, ◌>>=◌, lookup, upsert,
}

abbrev pub Bytes : Type 0
Bytes = List ℕ

pub record Jwk : Type 0 where
  pub kty : String
  pub kid : String
  pub use_ : String
  pub alg : String
  pub n : String
  pub e : String
  pub crv : String
  pub x : String
  pub y : String

pub data Curve : Type 0 where
  p256 p384 p521 : Curve

-- An exponent is the 64 bits of its int.
pub data PublicKey : Type 0 where
  rsa : ℕ → ℕ → PublicKey
  ecdsa : Curve → ℕ → ℕ → PublicKey

pub record CachedKey : Type 0 where
  pub key : PublicKey
  pub alg : String

-- `big.Int.SetBytes`
unfoldable pub set_bytes : ℕ → Bytes → ℕ
set_bytes acc [] = acc
set_bytes acc (b ∷ bs) = set_bytes (acc * 256 + b) bs

-- The loop `e = e<<8 | int(b)`.
unfoldable pub exponent : ℕ → Bytes → ℕ
exponent acc [] = acc
exponent acc (b ∷ bs) = exponent ((acc * 256 + b) % 2 ^ 64) bs

unfoldable pub curve_of : String → Option Curve
curve_of s =
    if str_eq s "P-256"
    then some p256
    else (if str_eq s "P-384" then some p384 else (if str_eq s "P-521" then some p521 else none))

unfoldable pub is_signing : Jwk → Bool
is_signing j = str_eq j.use_ "" || str_eq j.use_ "sig"

-- The answer to a request: none, or a status with a document that may not parse.
pub data Fetch : Type 0 where
  unreachable : Fetch
  answered : ℕ → Option (List Jwk) → Fetch

unfoldable pub document : Fetch → Option (List Jwk)
document unreachable = none
document (answered status keys) = if status == 200 then keys else none

-- JWKSClientConfig, less what only I/O reads.
pub record ClientConfig : Type 0 where
  pub ttl : ℕ
  pub hard_ttl : ℕ
  pub allow_insecure_http : Bool
  pub min_refresh_interval : ℕ
  pub negative_cache_ttl : ℕ

-- JWKSClient; a zero time is `none`.
pub record JwksClient : Type 0 where
  pub ttl : ℕ
  pub hard : ℕ
  pub min_refresh_interval : ℕ
  pub neg_cache_ttl : ℕ
  pub keys : List (String × CachedKey)
  pub soft_expiry : Option ℕ
  pub hard_expiry : Option ℕ
  pub bg_refresh : Bool
  pub last_refresh_attempt : Option ℕ
  pub neg_kids : List (String × ℕ)

unfoldable pub or_positive : ℕ → ℕ → ℕ
or_positive d n = if n == 0 then d else n

abbrev pub second : ℕ
second = 1000000000

unfoldable pub at_least : ℕ → ℕ → ℕ
at_least low n = if ltb n low then low else n

-- Whether the URL has the https scheme is told.
unfoldable pub new_jwks_client : Bool → ClientConfig → Option JwksClient
unfolding or_positive at_least
new_jwks_client is_https cfg =
    if not (cfg.allow_insecure_http || is_https)
    then none
    else some (record {
      ttl = or_positive (3600 * second) cfg.ttl;
      hard =
          at_least (or_positive (3600 * second) cfg.ttl)
            (or_positive (86400 * second) cfg.hard_ttl);
      min_refresh_interval = or_positive (30 * second) cfg.min_refresh_interval;
      neg_cache_ttl = or_positive (60 * second) cfg.negative_cache_ttl;
      keys = [];
      soft_expiry = none;
      hard_expiry = none;
      bg_refresh = false;
      last_refresh_attempt = none;
      neg_kids = [];
    })

pub data Lookup : Type 0 where
  miss : Lookup
  fresh stale : CachedKey → Lookup

unfoldable pub is_past : ℕ → Option ℕ → Bool
is_past now none = false
is_past now (some expiry) = ltb expiry now

unfoldable pub is_stale : ℕ → Option ℕ → Bool
is_stale now none = true
is_stale now (some expiry) = ltb expiry now

unfoldable pub found_key : ℕ → Option ℕ → Option CachedKey → Lookup
unfolding is_stale
found_key now soft none = miss
found_key now soft (some k) = if is_stale now soft then stale k else fresh k

unfoldable pub lookup_key : ℕ → String → JwksClient → Lookup
unfolding is_past found_key
lookup_key now kid c =
    if is_past now c.hard_expiry then miss else found_key now c.soft_expiry (lookup kid c.keys)

unfoldable pub is_negative : ℕ → Option ℕ → Bool
is_negative now none = false
is_negative now (some expiry) = ltb now expiry

unfoldable pub is_recent : ℕ → ℕ → Option ℕ → Bool
is_recent now interval none = false
is_recent now interval (some attempt) = ltb now (attempt + interval)

unfoldable pub should_short_circuit : ℕ → String → JwksClient → Bool
unfolding is_negative is_recent
should_short_circuit now kid c =
    is_negative now (lookup kid c.neg_kids)
    || is_recent now c.min_refresh_interval c.last_refresh_attempt

unfoldable pub mark_negative : ℕ → String → JwksClient → JwksClient
mark_negative now kid c = record c {
  neg_kids = upsert kid (now + c.neg_cache_ttl) (λ old. now + c.neg_cache_ttl) c.neg_kids;
}

-- The caller that sets the flag starts a refresh in the background.
unfoldable pub kick_background_refresh : JwksClient → JwksClient
kick_background_refresh c = record c { bg_refresh = true }

unfoldable pub finish_background_refresh : JwksClient → JwksClient
finish_background_refresh c = record c { bg_refresh = false }

unfoldable pub begin_refresh : ℕ → JwksClient → JwksClient
begin_refresh now c = record c { last_refresh_attempt = some now }

unfoldable pub entry_for : Jwk → PublicKey → CachedKey
entry_for j key = record { key = key; alg = j.alg }

unfoldable pub keep_parsed :
    Jwk → Option PublicKey → List (String × CachedKey) → List (String × CachedKey)
unfolding entry_for
keep_parsed j none out = out
keep_parsed j (some key) out = upsert j.kid (entry_for j key) (λ old. entry_for j key) out

module _ (decode : String → Option Bytes) where
  unfoldable pub parse_rsa_key : Jwk → Option PublicKey
  unfolding set_bytes exponent
  parse_rsa_key j =
      if str_eq j.n "" || str_eq j.e ""
      then none
      else (decode j.n >>= λ ns. decode j.e >>= λ es. some (rsa (set_bytes 0 ns) (exponent 0 es)))

  unfoldable pub parse_ec_key : Jwk → Option PublicKey
  unfolding set_bytes curve_of
  parse_ec_key j =
      if str_eq j.x "" || (str_eq j.y "" || str_eq j.crv "")
      then none
      else (curve_of j.crv >>= λ curve. decode j.x >>= λ xs.
          decode j.y >>= λ ys. some (ecdsa curve (set_bytes 0 xs) (set_bytes 0 ys)))

  unfoldable pub parse_jwk : Jwk → Option PublicKey
  unfolding parse_rsa_key parse_ec_key
  parse_jwk j =
      if str_eq j.kty "RSA"
      then parse_rsa_key j
      else (if str_eq j.kty "EC" then parse_ec_key j else none)

  -- A key that is not for signing, or does not parse, is skipped.
  unfoldable pub keep_key : Jwk → List (String × CachedKey) → List (String × CachedKey)
  unfolding is_signing keep_parsed parse_jwk
  keep_key j out = if not (is_signing j) then out else keep_parsed j (parse_jwk j) out

  unfoldable pub keys_of : List Jwk → List (String × CachedKey) → List (String × CachedKey)
  unfolding keep_key
  keys_of [] out = out
  keys_of (j ∷ js) out = keys_of js (keep_key j out)

  unfoldable pub swap_keys : ℕ → List Jwk → JwksClient → JwksClient
  unfolding keys_of
  swap_keys now js c = record c {
    keys = keys_of js [];
    soft_expiry = some (now + c.ttl);
    hard_expiry = some (now + c.hard);
    neg_kids = [];
  }

  unfoldable pub end_refresh : ℕ → Option (List Jwk) → JwksClient → JwksClient
  unfolding swap_keys
  end_refresh now none c = c
  end_refresh now (some js) c = swap_keys now js c
