-- ===== src/Middleware/Auth/Tokens.antt =====
-- internal/middleware/auth/bearer.go: which keys and algorithms a token can be accepted under.
use stac_proxy.Common.{
  ◌≡◌, refl, ◌⊎◌, inl, inr, ℕ, String, Bool, true, Option, none, some, str_eq_iff, elem,
  trim_prefix, arith, Option-cases,
}
use stac_proxy.Stac.Cql2.{Float64, Fields}
use stac_proxy.Httpx.Headers.{get_header}
use stac_proxy.Middleware.Auth.{Principal, Request, authenticated}
use stac_proxy.Middleware.Auth.Schemes.{with_token-authenticated}
use stac_proxy.Middleware.Auth.Jwks.{CachedKey}
use stac_proxy.Middleware.Auth.Bearer.{
  Method, hmac, rsa, rsa_pss, ecdsa, other, TokenHeader, Key, secret, public, Parser,
  BearerProvider, is_asymmetric, static_key, matching_key, jwks_key, key_func, options_of, finished,
  on_parsed, authenticate_bearer, IsParser, IsTrusted,
}

static_lem :
    (s : String) (m : Method) (t : TokenHeader) (key : Key)
    → t.method ≡ m
    → static_key s t ≡ some key
    → (m ≡ hmac) × (key ≡ secret s)
unfolding static_key
static_lem s hmac t key e h = (refl, ground arith)
static_lem s rsa t key e h = absurd (ground arith)
static_lem s rsa_pss t key e h = absurd (ground arith)
static_lem s ecdsa t key e h = absurd (ground arith)
static_lem s other t key e h = absurd (ground arith)

matching_lem :
    (alg : String) (o : Option CachedKey) (key : Key)
    → matching_key alg o ≡ some key
    → (k : CachedKey) × (o ≡ some k) × (key ≡ public k.key) × ((k.alg ≡ "") ⊎ (alg ≡ k.alg))
unfolding matching_key
matching_lem alg none key h = absurd (ground arith)
matching_lem alg (some k) key h =
    (k, refl, ground arith, ground (arith, str_eq_iff k.alg "", str_eq_iff alg k.alg))

jwks_lem :
    (key_with_alg : String → Option CachedKey) (t : TokenHeader) (key : Key)
    → jwks_key key_with_alg t ≡ some key
    → (is_asymmetric t.method ≡ true) × (matching_key t.alg (key_with_alg t.kid) ≡ some key)
unfolding jwks_key
jwks_lem key_with_alg t key h = (ground arith, ground arith)

key_func-IsTrusted :
    (p : BearerProvider) (key_with_alg : String → Option CachedKey) (t : TokenHeader) (key : Key)
    → key_func p key_with_alg t ≡ some key
    → IsTrusted p key_with_alg t key
unfolding key_func
key_func-IsTrusted p key_with_alg t key h = elim (Option-cases p.static_secret) [
  | inl none_set ↦
      let found = rw (key_func, none_set) at h in
      let (asymmetric, matches) = jwks_lem key_with_alg t key found in
      let (k, held, same, algorithm) = matching_lem t.alg (key_with_alg t.kid) key matches in
      inr (k, none_set, asymmetric, held, same, algorithm)
  | inr (s, set) ↦
      let found = rw (key_func, set) at h in
      let (m, k) = static_lem s t.method t key refl found in inl (s, set, m, k)
]

finished_lem :
    (to_int : Float64 → ℕ) (token : String) (claims : Fields) (o : Option Principal)
    (who : Principal)
    → finished to_int token claims o ≡ authenticated who
    → who.token ≡ token
unfolding finished
finished_lem to_int token claims none who h = absurd (ground arith)
finished_lem to_int token claims (some p) who h = ground arith

parsed_lem :
    (to_int : Float64 → ℕ) (p : BearerProvider) (token : String) (o : Option Fields)
    (who : Principal)
    → on_parsed to_int p token o ≡ authenticated who
    → (claims : Fields) × (o ≡ some claims) × (who.token ≡ token)
unfolding on_parsed
parsed_lem to_int p token none who h = absurd (ground arith)
parsed_lem to_int p token (some claims) who h =
    (claims, refl, finished_lem to_int token claims (p.claims_func claims) who h)

-- With the promise of jwt.Parse: a request is authenticated only by a token whose signature verifies
-- under a key of the provider, which is its secret for an HMAC, or the issuer's key of the token's ID
-- for another method and for the algorithm that the key is published with, if it names one; the
-- token's algorithm is one of the provider's, and the principal carries the token.
pub authenticate_bearer-IsTrusted :
    {C : Type 0} (to_int : Float64 → ℕ) (parse : Parser) (header_of : String → TokenHeader)
    (verifies : String → Key → Bool) (p : BearerProvider) (key_with_alg : String → Option CachedKey)
    (r : Request C) (who : Principal)
    → IsParser header_of verifies parse
    → authenticate_bearer to_int parse p key_with_alg r ≡ authenticated who
    → (key : Key) × IsTrusted p key_with_alg (header_of who.token) key
      × (elem (header_of who.token).alg p.valid_methods ≡ true)
      × (verifies who.token key ≡ true)
unfolding authenticate_bearer options_of
authenticate_bearer-IsTrusted to_int parse header_of verifies p key_with_alg r who sound h =
    let token = trim_prefix (get_header "Authorization" r.header) "Bearer " in
    let (claims, parsed, same) =
      parsed_lem to_int p token (parse (options_of p) (key_func p key_with_alg) token) who (
        with_token-authenticated
          (λ x. on_parsed to_int p x (parse (options_of p) (key_func p key_with_alg) x)) r who h) in
    let (key, found, valid, verified) =
      sound.checked (options_of p) (key_func p key_with_alg) token claims parsed in
    rw same (key, key_func-IsTrusted p key_with_alg (header_of token) key found, valid, verified)
