-- ===== src/Tests/Logins.antt =====
-- Runs of internal/middleware/auth: the providers and their chain.
use stac_proxy.Common.{
  ◌≡◌, refl, inl, inr, String, Bool, true, false, ◌&&◌, Option, none, some, List, [], ◌∷◌, map,
  str_eq, if◌then◌else◌, elem, lookup, arith, Bool-cases,
}
use stac_proxy.Stac.Cql2.{text, Fields, no_field, field}
use stac_proxy.Middleware.Auth.{Principal, Request, Attempt, failed, abstained, authenticated}
use stac_proxy.Middleware.Auth.Chain.{admit, claimed_by, Vouched}
use stac_proxy.Middleware.Auth.Apikey.{
  ApikeyEntry, ApikeyConfig, ApikeyProvider, presented, check_entry, new_apikey_provider,
  authenticate_key,
}
use stac_proxy.Middleware.Auth.Keyring.{
  Change, added, removed, reloaded, changed, owners_after, owners_new, authenticate_key-changed,
}
use stac_proxy.Middleware.Auth.Oidc.{
  OidcProvider, not_mapped, authenticate_oidc, authenticate_oidc-auth_method,
}
use stac_proxy.Middleware.Auth.Bearer.{
  Parser, TokenHeader, Key, secret, hmac, public, hmac_methods, BearerProvider, IsParser, IsTrusted,
  authenticate_bearer, default_claims,
}
use stac_proxy.Middleware.Auth.Tokens.{authenticate_bearer-IsTrusted}
use stac_proxy.Middleware.Auth.Mtls.{Certificate, spiffe_principal, workload_of}
use stac_proxy.Middleware.Auth.Claiming.{
  Backends, Configured, apikey, basic, provider_of, admit_claimed,
}

abbrev same : String → String
same s = s

abbrev entry : String → Bool → ApikeyEntry
entry name on = record {
  key = "";
  name = name;
  description = "";
  roles = [];
  groups = [];
  collections = [];
  enabled = on;
}

abbrev keys_config : ApikeyConfig
keys_config = record {
  header = "";
  query_param = "";
  allow_query_param = false;
  has_keys_file = false;
  keys = ("k1", entry "ann" true) ∷ [];
}

abbrev keys_provider : ApikeyProvider
keys_provider = record {
  header = "X-API-Key";
  query_param = "";
  allow_query_param = false;
  keys = ("k1", entry "ann" true) ∷ [];
}

made : new_apikey_provider same keys_config none ≡ some keys_provider
unfolding new_apikey_provider
made = refl

-- textproto.CanonicalMIMEHeaderKey, at the name that is configured by default.
abbrev canonical : String → String
canonical s = if str_eq s "X-API-Key" then "X-Api-Key" else s

abbrev with_key : String → Request Certificate
with_key k = record {
  header = ("X-Api-Key", k) ∷ [];
  canonical = canonical;
  query = λ name. "";
  peer_certificates = [];
}

abbrev changes : List Change
changes = added "k2" (entry "bob" true) ∷ removed "k1" ∷ reloaded (some []) ∷ []

revoked : authenticate_key same (changed same changes keys_provider) (with_key "k1") ≡ failed
unfolding authenticate_key changed lookup
revoked = refl

-- A reload of a file without the key leaves it valid.
still_valid :
    authenticate_key same (changed same (reloaded (some []) ∷ []) keys_provider) (with_key "k1")
    ≡ check_entry (some (entry "ann" true))
unfolding authenticate_key changed lookup
still_valid = refl

authenticate_key-changed_example :
    authenticate_key same (changed same changes keys_provider) (with_key "k2") ≡ (
      if str_eq (presented keys_provider (with_key "k2")) ""
      then abstained
      else check_entry (
          owners_after changes
            (owners_new false keys_config none)
            (presented keys_provider (with_key "k2"))))
authenticate_key-changed_example =
    authenticate_key-changed same (λ s t h. h) keys_config none keys_provider changes
      (with_key "k2") made

abbrev with_authorization : String → Request Certificate
with_authorization v = record {
  header = ("Authorization", v) ∷ [];
  canonical = canonical;
  query = λ name. "";
  peer_certificates = [];
}

abbrev claims : Fields
claims = field "sub" (text "ann") (field "auth_method" (text "root") no_field)

abbrev issuer : OidcProvider
issuer = record {
  verify = λ token. if str_eq token "t" then some claims else none;
  claims_func = λ c. not_mapped;
  attribute_allow = "auth_method" ∷ [];
}

abbrev who_of : Attempt → Principal
who_of (authenticated p) = p
who_of failed = spiffe_principal ""
who_of abstained = spiffe_principal ""

oidc_login :
    authenticate_oidc issuer (with_authorization "Bearer t")
    ≡ authenticated (who_of (authenticate_oidc issuer (with_authorization "Bearer t")))
unfolding authenticate_oidc
oidc_login = refl

authenticate_oidc-auth_method_example :
    lookup "auth_method"
      (who_of (authenticate_oidc issuer (with_authorization "Bearer t"))).attributes
    ≡ some "oidc"
authenticate_oidc-auth_method_example =
    authenticate_oidc-auth_method issuer (with_authorization "Bearer t") _ oidc_login

abbrev backends : Backends
backends = record {
  digest = same;
  base64 = λ s. if str_eq s "YTpi" then some "a:b" else none;
  compare = λ h w. str_eq h w;
  to_int = λ x. x;
  parse = λ o f token. none;
  key_with_alg = λ kid. none;
  verify = λ c. true;
}

abbrev chain : List Configured
chain =
    apikey keys_provider
    ∷ basic (("a", record { password_hash = "b"; roles = []; attributes = [] }) ∷ [])
    ∷ []

visitor : Principal
unfolding provider_of lookup
visitor =
    let provider =
      provider_of backends
        (basic (("a", record { password_hash = "b"; roles = []; attributes = [] }) ∷ [])) in
    who_of (provider.authenticate (with_authorization "Basic YTpi"))

basic_login :
    admit
      (record { allow_anonymous = true; providers = map (provider_of backends) chain })
      (with_authorization "Basic YTpi")
    ≡ some visitor
unfolding admit provider_of lookup visitor
basic_login = refl

wrong_password :
    admit
      (record { allow_anonymous = true; providers = map (provider_of backends) chain })
      (with_authorization "Basic eDp5")
    ≡ none
unfolding admit provider_of
wrong_password = refl

is_claimed : claimed_by (map (provider_of backends) chain) (with_authorization "Basic YTpi") ≡ true
unfolding provider_of
is_claimed = refl

admit_claimed_example :
    Vouched (map (provider_of backends) chain) (with_authorization "Basic YTpi") visitor
admit_claimed_example =
    admit_claimed backends true chain (with_authorization "Basic YTpi") visitor is_claimed
      basic_login

-- A parser that knows one token, signed by the secret of the provider.
abbrev hs256 : TokenHeader
hs256 = record { method = hmac; alg = "HS256"; kid = "" }

abbrev verifies : String → Key → Bool
verifies token (secret s) = str_eq token "t" && str_eq s "s"
verifies token (public k) = false

abbrev verified : String → Option Key → Option Fields
verified token none = none
verified token (some key) = if verifies token key then some claims else none

abbrev parse : Parser
parse o f token = if elem "HS256" o.valid_methods then verified token (f hs256) else none

verified_lem :
    (token : String) (o : Option Key) (cs : Fields)
    → verified token o ≡ some cs
    → (key : Key) × (o ≡ some key) × (verifies token key ≡ true)
verified_lem token none cs h = absurd (ground arith)
verified_lem token (some key) cs h = elim (Bool-cases (verifies token key)) [
  | inl good ↦ (key, refl, good)
  | inr bad ↦ absurd (let e = rw bad at h in ground arith)
]

parse-IsParser : IsParser (λ token. hs256) verifies parse
parse-IsParser = record {
  checked = λ o f token cs h. elim (Bool-cases (elem "HS256" o.valid_methods)) [
    | inl valid ↦
        let (key, found, good) = verified_lem token (f hs256) cs (let e = rw valid at h in e) in
        (key, found, valid, good)
    | inr invalid ↦ absurd (let e = rw invalid at h in ground arith)
  ];
}

abbrev hmac_provider : BearerProvider
hmac_provider = record {
  issuer = "";
  audience = "";
  static_secret = some "s";
  claims_func = default_claims (λ x. x);
  leeway = 0;
  valid_methods = hmac_methods;
}

abbrev bearer_who : Principal
bearer_who =
    who_of (
      authenticate_bearer (λ x. x) parse hmac_provider (λ kid. none)
        (with_authorization "Bearer t"))

bearer_login :
    authenticate_bearer (λ x. x) parse hmac_provider (λ kid. none) (with_authorization "Bearer t")
    ≡ authenticated bearer_who
unfolding authenticate_bearer elem default_claims
bearer_login = refl

authenticate_bearer-IsTrusted_example :
    (key : Key) × IsTrusted hmac_provider (λ kid. none) hs256 key
    × (elem "HS256" hmac_methods ≡ true)
    × (verifies bearer_who.token key ≡ true)
authenticate_bearer-IsTrusted_example =
    authenticate_bearer-IsTrusted (λ x. x) parse (λ token. hs256) verifies hmac_provider
      (λ kid. none) (with_authorization "Bearer t") bearer_who parse-IsParser bearer_login

workload : workload_of "spiffe://d/ns/web" ≡ "ns/web"
unfolding workload_of
workload = refl
