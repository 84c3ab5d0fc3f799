-- ===== src/Middleware/Auth.antt =====
-- internal/middleware/auth: who a request comes from. provider.go is here; the providers, the chain of
-- them in middleware.go, and the cache of an issuer's keys are the child modules. Errors of providers
-- are not told apart, and tokens, hashes and certificates are read by arguments.
pub mod Chain
pub mod Apikey
pub mod Basic
pub mod Schemes
pub mod Bearer
pub mod Tokens
pub mod Oidc
pub mod Mtls
pub mod Claiming
pub mod Keyring
pub mod Jwks
use stac_proxy.Common.{
  ℕ, String, Bool, true, false, ◌||◌, Option, none, some, List, [], ◌∷◌, str_eq, if◌then◌else◌,
  elem,
}
use stac_proxy.Httpx.Headers.{Header}

pub record Principal : Type 0 where
  pub id : String
  pub type_ : String
  pub email : String
  pub name : String
  pub groups : List String
  pub roles : List String
  pub attributes : List (String × String)
  pub collections : List String
  pub token : String
  pub expires_at : ℕ

abbrev pub anonymous_principal : Principal
anonymous_principal = record {
  id = "anonymous";
  type_ = "anonymous";
  email = "";
  name = "";
  groups = [];
  roles = [];
  attributes = [];
  collections = [];
  token = "";
  expires_at = 0;
}

unfoldable pub is_anonymous : Principal → Bool
is_anonymous p = str_eq p.type_ "anonymous"

unfoldable pub has_group : Principal → String → Bool
unfolding elem
has_group p group = elem group p.groups

unfoldable pub has_role : Principal → String → Bool
unfolding elem
has_role p role = elem role p.roles

unfoldable pub reaches : String → List String → Bool
reaches collection [] = false
reaches collection (c ∷ cs) =
    if str_eq c collection || str_eq c "*" then true else reaches collection cs

unfoldable pub can_access_collection : Principal → String → Bool
unfolding reaches
can_access_collection p collection = elim p.collections [
  | [] ↦ true
  | c ∷ cs ↦ reaches collection (c ∷ cs)
]

-- What the providers read of an http.Request; `C` is the type of certificates. The names of the header
-- lines are in canonical form, and `canonical` puts a name that is configured into it, as Header.Get
-- does.
pub record Request (C : Type 0) : Type 0 where
  pub header : Header
  pub canonical : String → String
  pub query : String → String
  pub peer_certificates : List C

-- The two results of `Authenticate`: an error, neither, or a principal.
pub data Attempt : Type 0 where
  failed : Attempt
  abstained : Attempt
  authenticated : Principal → Attempt

-- A provider that does not implement CredentialClaimer claims nothing.
pub record Provider (C : Type 0) : Type 0 where
  pub claims_credential : Request C → Bool
  pub authenticate : Request C → Attempt
