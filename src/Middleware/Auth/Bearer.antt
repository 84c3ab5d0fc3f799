-- ===== src/Middleware/Auth/Bearer.antt =====
-- internal/middleware/auth/bearer.go: the provider of JSON Web Tokens. The parser of golang-jwt is an
-- argument, and so is what the client of jwks.go answers for a key ID. Durations are nanoseconds.
use stac_proxy.Common.{
  ◌≡◌, ◌⊎◌, ℕ, ◌*◌, ◌^◌, String, Bool, true, false, not, Option, none, some, List, [], ◌∷◌, str_eq,
  if◌then◌else◌, elem,
}
use stac_proxy.Common.Int.{ℤ, positive_or}
use stac_proxy.Stac.Cql2.{
  Json, null, boolean, number, text, array, object, Float64, Fields, field_of,
}
use stac_proxy.Middleware.Auth.{Principal, Request, Attempt, failed, authenticated, Provider}
use stac_proxy.Middleware.Auth.Oidc.{text_or_empty, texts_of}
use stac_proxy.Middleware.Auth.Schemes.{claims_scheme, with_token}
use stac_proxy.Middleware.Auth.Jwks.{PublicKey, CachedKey}

-- The types of signing methods that the key functions tell apart.
pub data Method : Type 0 where
  hmac rsa rsa_pss ecdsa other : Method

-- What a key function reads of a token: `kid` and `alg` are "" where the header has no text.
pub record TokenHeader : Type 0 where
  pub method : Method
  pub alg : String
  pub kid : String

pub data Key : Type 0 where
  secret : String → Key
  public : PublicKey → Key

abbrev pub hmac_methods : List String
hmac_methods = "HS256" ∷ "HS384" ∷ "HS512" ∷ []

abbrev pub asymmetric_methods : List String
asymmetric_methods = "RS256" ∷ "RS384" ∷ "RS512" ∷ "ES256" ∷ "ES384" ∷ "ES512" ∷ []

-- jwt.ParserOption
pub record Options : Type 0 where
  pub valid_methods : List String
  pub leeway : ℕ
  pub issuer : Option String
  pub audience : Option String

-- jwt.Parse: the claims of a valid token.
abbrev pub Parser : Type 0
Parser = Options → (TokenHeader → Option Key) → String → Option Fields

pub record BearerConfig : Type 0 where
  pub issuer : String
  pub audience : String
  pub jwks_url : String
  pub claims_func : Option (Fields → Option Principal)
  pub static_secret : Option String
  pub leeway : ℤ

-- The source of keys: `none` is the client of jwks.go.
pub record BearerProvider : Type 0 where
  pub issuer : String
  pub audience : String
  pub static_secret : Option String
  pub claims_func : Fields → Option Principal
  pub leeway : ℕ
  pub valid_methods : List String

abbrev pub default_leeway : ℕ
default_leeway = 30 * 10 ^ 9

-- `int64(exp)` of the expiration, if it is a number; `to_int` is the conversion.
unfoldable pub expiry_of : (Float64 → ℕ) → ℕ → Option Json → ℕ
expiry_of to_int old none = old
expiry_of to_int old (some (number x)) = to_int x
expiry_of to_int old (some null) = old
expiry_of to_int old (some (boolean b)) = old
expiry_of to_int old (some (text s)) = old
expiry_of to_int old (some (array xs)) = old
expiry_of to_int old (some (object fs)) = old

unfoldable pub default_claims : (Float64 → ℕ) → Fields → Option Principal
unfolding text_or_empty texts_of expiry_of field_of
default_claims to_int claims = some (record {
  id = text_or_empty (field_of "sub" claims);
  type_ = "user";
  email = text_or_empty (field_of "email" claims);
  name = text_or_empty (field_of "name" claims);
  groups = texts_of (field_of "groups" claims);
  roles = texts_of (field_of "roles" claims);
  attributes = [];
  collections = [];
  token = "";
  expires_at = expiry_of to_int 0 (field_of "exp" claims);
})

unfoldable pub or_default_claims :
    (Float64 → ℕ) → Option (Fields → Option Principal) → Fields → Option Principal
unfolding default_claims
or_default_claims to_int none = default_claims to_int
or_default_claims to_int (some f) = f

unfoldable pub provider_with : (Float64 → ℕ) → BearerConfig → List String → BearerProvider
unfolding or_default_claims
provider_with to_int cfg methods = record {
  issuer = cfg.issuer;
  audience = cfg.audience;
  static_secret = cfg.static_secret;
  claims_func = or_default_claims to_int cfg.claims_func;
  leeway = positive_or default_leeway cfg.leeway;
  valid_methods = methods;
}

-- `new_client` says whether NewJWKSClient succeeds for the URL.
unfoldable pub new_bearer_provider :
    (Float64 → ℕ) → (String → Bool) → BearerConfig → Option BearerProvider
unfolding provider_with
new_bearer_provider to_int new_client cfg = elim cfg.static_secret [
  | none ↦
      if str_eq cfg.jwks_url ""
      then none
      else (if new_client cfg.jwks_url
          then some (provider_with to_int cfg asymmetric_methods)
          else none)
  | some s ↦ if str_eq cfg.jwks_url "" then some (provider_with to_int cfg hmac_methods) else none
]

unfoldable pub static_key : String → TokenHeader → Option Key
static_key s t = elim t.method [
  | hmac ↦ some (secret s)
  | rsa ↦ none
  | rsa_pss ↦ none
  | ecdsa ↦ none
  | other ↦ none
]

unfoldable pub is_asymmetric : Method → Bool
is_asymmetric hmac = false
is_asymmetric rsa = true
is_asymmetric rsa_pss = true
is_asymmetric ecdsa = true
is_asymmetric other = false

unfoldable pub matching_key : String → Option CachedKey → Option Key
matching_key alg none = none
matching_key alg (some k) =
    if str_eq k.alg ""
    then some (public k.key)
    else (if str_eq alg k.alg then some (public k.key) else none)

unfoldable pub jwks_key : (String → Option CachedKey) → TokenHeader → Option Key
unfolding is_asymmetric matching_key
jwks_key key_with_alg t =
    if str_eq t.kid ""
    then none
    else (if not (is_asymmetric t.method) then none else matching_key t.alg (key_with_alg t.kid))

unfoldable pub key_func : BearerProvider → (String → Option CachedKey) → TokenHeader → Option Key
unfolding static_key jwks_key
key_func p key_with_alg = elim p.static_secret [
  | none ↦ jwks_key key_with_alg
  | some s ↦ static_key s
]

unfoldable pub options_of : BearerProvider → Options
options_of p = record {
  valid_methods = p.valid_methods;
  leeway = p.leeway;
  issuer = if str_eq p.issuer "" then none else some p.issuer;
  audience = if str_eq p.audience "" then none else some p.audience;
}

unfoldable pub finished : (Float64 → ℕ) → String → Fields → Option Principal → Attempt
unfolding expiry_of field_of
finished to_int token claims none = failed
finished to_int token claims (some p) =
    authenticated (record p {
      token = token;
      expires_at = expiry_of to_int p.expires_at (field_of "exp" claims);
    })

unfoldable pub on_parsed : (Float64 → ℕ) → BearerProvider → String → Option Fields → Attempt
unfolding finished
on_parsed to_int p token none = failed
on_parsed to_int p token (some claims) = finished to_int token claims (p.claims_func claims)

unfoldable pub authenticate_bearer :
    {C : Type 0}
    → (Float64 → ℕ)
    → Parser
    → BearerProvider
    → (String → Option CachedKey)
    → Request C
    → Attempt
unfolding on_parsed key_func options_of with_token
authenticate_bearer to_int parse p key_with_alg =
    with_token
      (λ token. on_parsed to_int p token (parse (options_of p) (key_func p key_with_alg) token))

unfoldable pub bearer_provider :
    {C : Type 0}
    → (Float64 → ℕ)
    → Parser
    → BearerProvider
    → (String → Option CachedKey)
    → Provider C
unfolding authenticate_bearer claims_scheme
bearer_provider to_int parse p key_with_alg = record {
  claims_credential = claims_scheme "Bearer ";
  authenticate = authenticate_bearer to_int parse p key_with_alg;
}

-- What is documented of jwt.Parse: the claims are those of a token whose algorithm is valid and whose
-- signature verifies under the key of the key function. `header_of` reads the header of a token.
pub record IsParser (header_of : String → TokenHeader) (verifies : String → Key → Bool)
    (parse : Parser) : Type 0 where
  pub checked :
      (o : Options) (f : TokenHeader → Option Key) (token : String) (claims : Fields)
      → parse o f token ≡ some claims
      → (key : Key) × (f (header_of token) ≡ some key)
        × (elem (header_of token).alg o.valid_methods ≡ true)
        × (verifies token key ≡ true)

-- Where the key of a token may come from, and which algorithm its header may name.
abbrev pub IsTrusted : BearerProvider → (String → Option CachedKey) → TokenHeader → Key → Type 0
IsTrusted p key_with_alg t key =
    ((s : String) × (p.static_secret ≡ some s) × (t.method ≡ hmac) × (key ≡ secret s))
    ⊎ ((k : CachedKey) × (p.static_secret ≡ none)
        × (is_asymmetric t.method ≡ true)
        × (key_with_alg t.kid ≡ some k)
        × (key ≡ public k.key)
        × ((k.alg ≡ "") ⊎ (t.alg ≡ k.alg)))
