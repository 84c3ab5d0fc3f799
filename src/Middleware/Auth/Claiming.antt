-- ===== src/Middleware/Auth/Claiming.antt =====
-- internal/middleware/auth: the chain of middleware.go with the providers of the other files.
use stac_proxy.Common.{
  ◌≡◌, ◌≢◌, refl, ℕ, String, Bool, true, false, not, Option, none, some, List, [], ◌∷◌, map, str_eq,
  if◌then◌else◌, has_prefix, lookup, arith, inl, inr, Bool-cases,
}
use stac_proxy.Stac.Cql2.{Float64, Fields}
use stac_proxy.Httpx.Headers.{get_header}
use stac_proxy.Middleware.Auth.{Principal, Request, Attempt, abstained, Provider}
use stac_proxy.Middleware.Auth.Chain.{admit, Decides, AllDecide, claimed_by, Vouched, admit-Vouched}
use stac_proxy.Middleware.Auth.Apikey.{
  ApikeyEntry, ApikeyProvider, header_key, query_key, presented, claims_key, check_entry,
  authenticate_key, apikey_provider,
}
use stac_proxy.Middleware.Auth.Basic.{
  HashedUser, claims_basic, check_password, check_credentials, parse_basic_auth, authenticate_basic,
  basic_provider,
}
use stac_proxy.Middleware.Auth.Oidc.{
  OidcProvider, on_claims-decides, authenticate_oidc, oidc_provider, on_claims,
}
use stac_proxy.Middleware.Auth.Schemes.{has_prefix-not_empty, with_token-decides}
use stac_proxy.Middleware.Auth.Bearer.{
  Parser, BearerProvider, finished, on_parsed, authenticate_bearer, bearer_provider, key_func,
  options_of,
}
use stac_proxy.Middleware.Auth.Mtls.{
  Certificate, SubjectMapper, default_mapper, spiffe_mapper, map_spiffe, map_subject,
  authenticate_chain, mtls_provider,
}
use stac_proxy.Middleware.Auth.Jwks.{CachedKey}

-- What the packages and clients behind the providers do.
pub record Backends : Type 0 where
  pub digest : String → String
  pub base64 : String → Option String
  pub compare : String → String → Bool
  pub to_int : Float64 → ℕ
  pub parse : Parser
  pub key_with_alg : String → Option CachedKey
  pub verify : Certificate → Bool

-- A provider of the repository.
pub data Configured : Type 0 where
  apikey : ApikeyProvider → Configured
  basic : List (String × HashedUser) → Configured
  bearer : BearerProvider → Configured
  oidc : OidcProvider → Configured
  mtls : SubjectMapper → Configured

check_entry-decides : (o : Option ApikeyEntry) → check_entry o ≢ abstained
unfolding check_entry
check_entry-decides none h = absurd (ground arith)
check_entry-decides (some e) h = absurd (ground arith)

not_empty :
    (e : Bool) (a : Attempt) → a ≢ abstained → e ≡ false → (if e then abstained else a) ≢ abstained
not_empty true a says h = absurd (ground arith)
not_empty false a says h = says

key_lem :
    (header query : String) (a : Attempt)
    → a ≢ abstained
    → (if not (str_eq header "") then true else not (str_eq query "")) ≡ true
    → (if str_eq (if str_eq header "" then query else header) "" then abstained else a) ≢ abstained
key_lem header query a says claims = not_empty _ a says (elim (Bool-cases (str_eq header "")) [
  | inl bare ↦ rw bare (let rest = rw bare at claims in ground arith)
  | inr given ↦ rw given given
])

apikey-Decides :
    {C : Type 0} (digest : String → String) (p : ApikeyProvider)
    → Decides {C = C} (apikey_provider digest p)
unfolding apikey_provider claims_key authenticate_key presented
apikey-Decides digest p r claims =
    key_lem (header_key p r) (query_key p r) _ (check_entry-decides _) claims

check_password-decides :
    (base64 : String → Option String) (compare : String → String → Bool) (u w : String)
    (o : Option HashedUser)
    → check_password base64 compare u w o ≢ abstained
unfolding check_password
check_password-decides base64 compare u w none h = absurd (ground arith)
check_password-decides base64 compare u w (some user) h = absurd (ground arith)

check_credentials-decides :
    (base64 : String → Option String) (compare : String → String → Bool)
    (users : List (String × HashedUser)) (o : Option (String × String))
    → check_credentials base64 compare users o ≢ abstained
unfolding check_credentials
check_credentials-decides base64 compare users none h = absurd (ground arith)
check_credentials-decides base64 compare users (some (u, w)) h =
    check_password-decides base64 compare u w (lookup u users) h

bare_basic : has_prefix "" "Basic " ≡ false
unfolding has_prefix
bare_basic = refl

basic_lem :
    (e scheme : Bool) (a : Attempt)
    → a ≢ abstained
    → e ≡ false
    → scheme ≡ true
    → (if e then abstained else (if scheme then a else abstained)) ≢ abstained
basic_lem true scheme a says e h = absurd (ground arith)
basic_lem false true a says e h = says
basic_lem false false a says e h = absurd (ground arith)

basic-Decides :
    {C : Type 0} (base64 : String → Option String) (compare : String → String → Bool)
    (users : List (String × HashedUser))
    → Decides {C = C} (basic_provider base64 compare users)
unfolding basic_provider claims_basic authenticate_basic
basic-Decides base64 compare users r claims =
    let header = get_header "Authorization" r.header in
    basic_lem (str_eq header "") (has_prefix header "Basic ") _
      (check_credentials-decides base64 compare users (parse_basic_auth base64 compare header))
      (has_prefix-not_empty header "Basic " bare_basic claims) claims

on_parsed-decides :
    (to_int : Float64 → ℕ) (p : BearerProvider) (token : String) (o : Option Fields)
    → on_parsed to_int p token o ≢ abstained
unfolding on_parsed finished
on_parsed-decides to_int p token none h = absurd (ground arith)
on_parsed-decides to_int p token (some claims) h = absurd (ground arith)

bearer-Decides :
    {C : Type 0} (to_int : Float64 → ℕ) (parse : Parser) (p : BearerProvider)
    (key_with_alg : String → Option CachedKey)
    → Decides {C = C} (bearer_provider to_int parse p key_with_alg)
unfolding bearer_provider authenticate_bearer
bearer-Decides to_int parse p key_with_alg r claims =
    with_token-decides
      (λ x. on_parsed to_int p x (parse (options_of p) (key_func p key_with_alg) x)) r
      (λ x. on_parsed-decides to_int p x (parse (options_of p) (key_func p key_with_alg) x)) claims

oidc-Decides : {C : Type 0} (p : OidcProvider) → Decides {C = C} (oidc_provider p)
unfolding oidc_provider authenticate_oidc
oidc-Decides p r claims =
    with_token-decides (λ x. on_claims p (p.verify x)) r (λ x. on_claims-decides p (p.verify x))
      claims

map_subject-decides : (mapper : SubjectMapper) (c : Certificate) → map_subject mapper c ≢ abstained
unfolding map_subject map_spiffe
map_subject-decides default_mapper c h = absurd (ground arith)
map_subject-decides (spiffe_mapper domains) c h = absurd (ground arith)

chain_lem :
    (verify : Certificate → Bool) (mapper : SubjectMapper) (cs : List Certificate)
    → (elim cs [ [] ↦ false | c ∷ rest ↦ true ]) ≡ true
    → authenticate_chain verify mapper cs ≢ abstained
unfolding authenticate_chain
chain_lem verify mapper [] claims h = absurd (ground arith)
chain_lem verify mapper (c ∷ cs) claims h = absurd (ground (arith, map_subject-decides mapper c))

mtls-Decides :
    (verify : Certificate → Bool) (mapper : SubjectMapper) → Decides (mtls_provider verify mapper)
unfolding mtls_provider
mtls-Decides verify mapper r claims = chain_lem verify mapper r.peer_certificates claims

module _ (b : Backends) where
  unfoldable pub provider_of : Configured → Provider Certificate
  unfolding apikey_provider basic_provider bearer_provider oidc_provider mtls_provider
  provider_of (apikey p) = apikey_provider b.digest p
  provider_of (basic users) = basic_provider b.base64 b.compare users
  provider_of (bearer p) = bearer_provider b.to_int b.parse p b.key_with_alg
  provider_of (oidc p) = oidc_provider p
  provider_of (mtls mapper) = mtls_provider b.verify mapper

  provider_of-Decides : (c : Configured) → Decides (provider_of c)
  unfolding provider_of
  provider_of-Decides (apikey p) = apikey-Decides b.digest p
  provider_of-Decides (basic users) = basic-Decides b.base64 b.compare users
  provider_of-Decides (bearer p) = bearer-Decides b.to_int b.parse p b.key_with_alg
  provider_of-Decides (oidc p) = oidc-Decides p
  provider_of-Decides (mtls mapper) = mtls-Decides b.verify mapper

  all-decide : (cs : List Configured) → AllDecide (map provider_of cs)
  all-decide [] = tt
  all-decide (c ∷ cs) = (provider_of-Decides c, all-decide cs)

  -- A request that bears a credential of any configured provider is never taken for an anonymous one,
  -- also where anonymous requests are allowed: if it reaches the inner handler, a provider has
  -- authenticated it, and each provider before that one abstained, or failed on a request that it
  -- does not claim.
  pub admit_claimed :
      (allow_anonymous : Bool) (cs : List Configured) (r : Request Certificate) (who : Principal)
      → claimed_by (map provider_of cs) r ≡ true
      → admit (record { allow_anonymous = allow_anonymous; providers = map provider_of cs }) r
        ≡ some who
      → Vouched (map provider_of cs) r who
  admit_claimed allow_anonymous cs r who claimed h =
      admit-Vouched (record { allow_anonymous = allow_anonymous; providers = map provider_of cs }) r
        who (all-decide cs) claimed h
