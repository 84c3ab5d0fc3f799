-- ===== src/Middleware/Auth/Oidc.antt =====
-- internal/middleware/auth/oidc.go: the provider of OpenID Connect tokens. The verifier of go-oidc,
-- with the claims of the token that it returns, is an argument, as is a custom mapping of claims.
use stac_proxy.Common.{
  ◌≡◌, ◌≢◌, String, Option, none, some, List, [], ◌∷◌, ◌++◌, if◌then◌else◌, lookup, upsert, elem,
  arith, lookup-upsert,
}
use stac_proxy.Stac.Cql2.{
  Json, null, boolean, number, text, array, object, Jsons, empty, more, Fields, no_field, field,
  field_of,
}
use stac_proxy.Middleware.Auth.Schemes.{claims_scheme, with_token, with_token-authenticated}
use stac_proxy.Middleware.Auth.{
  Principal, Request, Attempt, failed, abstained, authenticated, Provider,
}

abbrev pub default_attribute_allowlist : List String
default_attribute_allowlist = "email" ∷ "preferred_username" ∷ "name" ∷ "groups" ∷ []

unfoldable pub text_or_empty : Option Json → String
text_or_empty none = ""
text_or_empty (some (text s)) = s
text_or_empty (some null) = ""
text_or_empty (some (boolean b)) = ""
text_or_empty (some (number x)) = ""
text_or_empty (some (array xs)) = ""
text_or_empty (some (object fs)) = ""

-- The texts of an array.
unfoldable pub texts : Jsons → List String
texts empty = []
texts (more (text s) xs) = s ∷ texts xs
texts (more null xs) = texts xs
texts (more (boolean b) xs) = texts xs
texts (more (number x) xs) = texts xs
texts (more (array ys) xs) = texts xs
texts (more (object fs) xs) = texts xs

unfoldable pub texts_of : Option Json → List String
unfolding texts
texts_of none = []
texts_of (some (array xs)) = texts xs
texts_of (some (text s)) = []
texts_of (some null) = []
texts_of (some (boolean b)) = []
texts_of (some (number x)) = []
texts_of (some (object fs)) = []

unfoldable pub realm_roles : Option Json → List String
unfolding texts_of field_of
realm_roles (some (object fs)) = texts_of (field_of "roles" fs)
realm_roles other = []

unfoldable pub extract_roles : Fields → List String
unfolding texts_of realm_roles field_of
extract_roles claims =
    texts_of (field_of "roles" claims)
    ++ (realm_roles (field_of "realm_access" claims) ++ texts_of (field_of "groups" claims))

-- The claims on the list whose values are texts, in the order of one iteration.
unfoldable pub allowed_claims :
    List String → Fields → List (String × String) → List (String × String)
unfolding elem upsert
allowed_claims allow no_field m = m
allowed_claims allow (field k (text s) fs) m =
    allowed_claims allow fs (if elem k allow then upsert k s (λ old. s) m else m)
allowed_claims allow (field k null fs) m = allowed_claims allow fs m
allowed_claims allow (field k (boolean b) fs) m = allowed_claims allow fs m
allowed_claims allow (field k (number x) fs) m = allowed_claims allow fs m
allowed_claims allow (field k (array xs) fs) m = allowed_claims allow fs m
allowed_claims allow (field k (object gs) fs) m = allowed_claims allow fs m

unfoldable pub oidc_principal : List String → Fields → Principal
unfolding text_or_empty extract_roles allowed_claims field_of
oidc_principal allow claims = record {
  id = text_or_empty (field_of "sub" claims);
  type_ = "user";
  email = text_or_empty (field_of "email" claims);
  name = text_or_empty (field_of "name" claims);
  groups = [];
  roles = extract_roles claims;
  attributes = allowed_claims allow claims [];
  collections = [];
  token = "";
  expires_at = 0;
}

-- What a custom mapping returns: an error, nil, or a principal.
pub data Mapped : Type 0 where
  mapping_failed : Mapped
  not_mapped : Mapped
  mapped : Principal → Mapped

unfoldable pub stamp : Principal → Principal
unfolding upsert
stamp p = record p { attributes = upsert "auth_method" "oidc" (λ old. "oidc") p.attributes }

unfoldable pub apply_mapping : Principal → Mapped → Attempt
unfolding stamp
apply_mapping p mapping_failed = failed
apply_mapping p not_mapped = authenticated (stamp p)
apply_mapping p (mapped q) = authenticated (stamp q)

-- Without a custom mapping every claim is `not_mapped`.
pub record OidcProvider : Type 0 where
  pub verify : String → Option Fields
  pub claims_func : Fields → Mapped
  pub attribute_allow : List String

unfoldable pub on_claims : OidcProvider → Option Fields → Attempt
unfolding apply_mapping oidc_principal
on_claims p none = failed
on_claims p (some claims) =
    apply_mapping (oidc_principal p.attribute_allow claims) (p.claims_func claims)

unfoldable pub authenticate_oidc : {C : Type 0} → OidcProvider → Request C → Attempt
unfolding on_claims with_token
authenticate_oidc p = with_token (λ token. on_claims p (p.verify token))

unfoldable pub oidc_provider : {C : Type 0} → OidcProvider → Provider C
unfolding claims_scheme authenticate_oidc
oidc_provider p = record {
  claims_credential = claims_scheme "Bearer ";
  authenticate = authenticate_oidc p;
}

stamp_lem : (p : Principal) → lookup "auth_method" (stamp p).attributes ≡ some "oidc"
unfolding stamp
stamp_lem p = lookup-upsert "auth_method" "auth_method" "oidc" p.attributes

apply_mapping_lem :
    (p who : Principal) (m : Mapped)
    → apply_mapping p m ≡ authenticated who
    → lookup "auth_method" who.attributes ≡ some "oidc"
unfolding apply_mapping
apply_mapping_lem p who mapping_failed h = absurd (ground arith)
apply_mapping_lem p who not_mapped h =
    let e : stamp p ≡ who = ground arith in rw (← e) (stamp_lem p)
apply_mapping_lem p who (mapped q) h =
    let e : stamp q ≡ who = ground arith in rw (← e) (stamp_lem q)

on_claims_lem :
    (p : OidcProvider) (claims : Option Fields) (who : Principal)
    → on_claims p claims ≡ authenticated who
    → lookup "auth_method" who.attributes ≡ some "oidc"
unfolding on_claims
on_claims_lem p none who h = absurd (ground arith)
on_claims_lem p (some claims) who h =
    apply_mapping_lem (oidc_principal p.attribute_allow claims) who (p.claims_func claims) h

pub on_claims-decides : (p : OidcProvider) (claims : Option Fields) → on_claims p claims ≢ abstained
unfolding on_claims apply_mapping
on_claims-decides p none h = absurd (ground arith)
on_claims-decides p (some claims) h = absurd (ground arith)

-- Whatever the claims of the token and the custom mapping are, the principal says that it comes from
-- this provider.
pub authenticate_oidc-auth_method :
    {C : Type 0} (p : OidcProvider) (r : Request C) (who : Principal)
    → authenticate_oidc p r ≡ authenticated who
    → lookup "auth_method" who.attributes ≡ some "oidc"
unfolding authenticate_oidc
authenticate_oidc-auth_method p r who h =
    on_claims_lem p _ who (with_token-authenticated (λ token. on_claims p (p.verify token)) r who h)
