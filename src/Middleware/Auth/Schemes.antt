-- ===== src/Middleware/Auth/Schemes.antt =====
-- internal/middleware/auth/bearer.go and oidc.go: how their providers find the token of a request.
use stac_proxy.Common.{
  ◌≡◌, ◌≢◌, refl, sym, ap, ◌∙◌, String, Bool, true, false, str_eq, str_eq_iff, if◌then◌else◌,
  has_prefix, trim_prefix, arith, inl, inr, Bool-cases,
}
use stac_proxy.Httpx.Headers.{get_header}
use stac_proxy.Middleware.Auth.{Principal, Request, Attempt, failed, abstained, authenticated}

unfoldable pub claims_scheme : {C : Type 0} → String → Request C → Bool
unfolding has_prefix get_header
claims_scheme scheme r = has_prefix (get_header "Authorization" r.header) scheme

unfoldable pub with_token : {C : Type 0} → (String → Attempt) → Request C → Attempt
unfolding has_prefix trim_prefix get_header
with_token check r =
    if str_eq (get_header "Authorization" r.header) ""
    then abstained
    else (if has_prefix (get_header "Authorization" r.header) "Bearer "
        then (if str_eq (trim_prefix (get_header "Authorization" r.header) "Bearer ") ""
            then failed
            else check (trim_prefix (get_header "Authorization" r.header) "Bearer "))
        else abstained)

token_lem :
    (empty_header bearer empty_token : Bool) (a : Attempt) (who : Principal)
    → (if empty_header
        then abstained
        else (if bearer then (if empty_token then failed else a) else abstained))
      ≡ authenticated who
    → a ≡ authenticated who
token_lem true bearer empty_token a who h = absurd (ground arith)
token_lem false false empty_token a who h = absurd (ground arith)
token_lem false true true a who h = absurd (ground arith)
token_lem false true false a who h = h

-- Whom a token authenticates, its check does.
pub with_token-authenticated :
    {C : Type 0} (check : String → Attempt) (r : Request C) (who : Principal)
    → with_token check r ≡ authenticated who
    → check (trim_prefix (get_header "Authorization" r.header) "Bearer ") ≡ authenticated who
unfolding with_token
with_token-authenticated check r who h =
    let header = get_header "Authorization" r.header in
    let token = trim_prefix header "Bearer " in
    token_lem (str_eq header "") (has_prefix header "Bearer ") (str_eq token "") (check token) who h

silent_lem :
    (empty_header bearer empty_token : Bool) (a : Attempt)
    → a ≢ abstained
    → empty_header ≡ false
    → bearer ≡ true
    → (if empty_header
        then abstained
        else (if bearer then (if empty_token then failed else a) else abstained))
      ≢ abstained
silent_lem true bearer empty_token a says e b h = absurd (ground arith)
silent_lem false false empty_token a says e b h = absurd (ground arith)
silent_lem false true true a says e b h = absurd (ground arith)
silent_lem false true false a says e b h = says h

-- A header with a scheme is not empty.
pub has_prefix-not_empty :
    (s p : String) → has_prefix "" p ≡ false → has_prefix s p ≡ true → str_eq s "" ≡ false
has_prefix-not_empty s p bare h = elim (Bool-cases (str_eq s "")) [
  | inl nothing ↦ absurd (
      let e = ap (λ x. has_prefix x p) ((str_eq_iff s "").0 nothing) in
      let clash : true ≡ false = sym h ∙ e ∙ bare in cc)
  | inr something ↦ something
]

bare_bearer : has_prefix "" "Bearer " ≡ false
unfolding has_prefix
bare_bearer = refl

pub with_token-decides :
    {C : Type 0} (check : String → Attempt) (r : Request C)
    → ((s : String) → check s ≢ abstained)
    → claims_scheme "Bearer " r ≡ true
    → with_token check r ≢ abstained
unfolding with_token claims_scheme
with_token-decides check r says claims =
    let header = get_header "Authorization" r.header in
    let token = trim_prefix header "Bearer " in
    silent_lem (str_eq header "") (has_prefix header "Bearer ") (str_eq token "") (check token)
      (says token) (has_prefix-not_empty _ "Bearer " bare_bearer claims) claims
