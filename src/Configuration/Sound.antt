-- ===== src/Configuration/Sound.antt =====
-- internal/config/validation.go: what a configuration without errors promises to the parts of the
-- program that are built from it.
use Prim.Native.String.{len}
use stac_proxy.Common.{
  ◌≡◌, ◌≢◌, refl, sym, ◌∙◌, inl, inr, ◌≤◌, String, Option, none, some, List, [], ◌∷◌, ltb, str_eq,
  trim_space, arith, Bool-cases, All,
}
use stac_proxy.Federation.Pagination.Shares.{count_id}
use stac_proxy.Configuration.{OriginConfig, FederationConfig, Config, System}
use stac_proxy.Configuration.Server.{validate_server, validate_logging}
use stac_proxy.Configuration.Origins.{
  validate_origins, validate_cursor_secret, validate_federation, min_cursor_secret_len,
}
use stac_proxy.Configuration.Components.{
  validate_middleware, validate_authz, validate_redis, validate_asset_signing,
}
use stac_proxy.Configuration.Validation.{federation_errors, validate_mode, validate}
use stac_proxy.Configuration.Lemmas.{
  append-nil_inv, reject-nil, ids_of, ids_lem, HasWebUrl, origins-HasWebUrl,
}

-- The parts of the validation, each without errors.
pub record Clean (sys : System) (cfg : Config) : Type 0 where
  pub by_mode : validate_mode sys cfg ≡ []
  pub middleware : validate_middleware cfg.middleware cfg.redis ≡ []
  pub redis : validate_redis cfg.redis cfg.federation ≡ []
  pub signing : validate_asset_signing cfg ≡ []

pub validate-Clean : (sys : System) (cfg : Config) → validate sys cfg ≡ [] → Clean sys cfg
unfolding validate
validate-Clean sys cfg h =
    let (a, r1) = append-nil_inv (validate_server sys cfg.server) _ h in
    let (b, r2) = append-nil_inv (validate_logging cfg.logging) _ r1 in
    let (c, r3) = append-nil_inv (validate_mode sys cfg) _ r2 in
    let (d, r4) = append-nil_inv (validate_middleware cfg.middleware cfg.redis) _ r3 in
    let (e, r5) = append-nil_inv (validate_authz sys cfg.opa) _ r4 in
    let (f, g) = append-nil_inv (validate_redis cfg.redis cfg.federation) _ r5 in
    record { by_mode = c; middleware = d; redis = f; signing = g }

secret_lem :
    (secret : String)
    → validate_cursor_secret secret ≡ []
    → min_cursor_secret_len ≤ len (trim_space secret)
unfolding validate_cursor_secret
secret_lem secret h = elim (Bool-cases (str_eq (trim_space secret) "")) [
  | inl bare ↦ absurd (let e = rw bare at h in ground arith)
  | inr given ↦
      let e = rw given at h in
      ground (arith, reject-nil (ltb (len (trim_space secret)) min_cursor_secret_len) _ e)
]

-- What a federation block without errors has: an origin, enabled or not; names of origins that are
-- distinct and not empty; base URLs that pass the check; and a secret that is long enough.
pub record IsUsable (sys : System) (f : FederationConfig) : Type 0 where
  pub some_origin : f.origins ≢ []
  pub once : (k : String) → count_id k (ids_of f.origins) ≤ 1
  pub named : count_id "" (ids_of f.origins) ≡ 0
  pub web : All (HasWebUrl sys f.allow_private_origins) f.origins
  pub secret : min_cursor_secret_len ≤ len (trim_space f.cursor_secret)

usable_lem :
    (sys : System) (f : FederationConfig) (os : List OriginConfig)
    → f.origins ≡ os
    → validate_federation sys f ≡ []
    → IsUsable sys f
unfolding validate_federation
usable_lem sys f [] e h = absurd (let wrong = rw (validate_federation, e) at h in ground arith)
usable_lem sys f (o ∷ os) e h =
    let all = rw (validate_federation, e) at h in
    let (origins, rest) =
      append-nil_inv (validate_origins sys (o ∷ os) [] f.allow_private_origins) _ all in
    let (secret, cache) = append-nil_inv (validate_cursor_secret f.cursor_secret) _ rest in
    record {
      some_origin = λ none_there. (let wrong = sym e ∙ none_there in absurd (ground arith));
      once = λ k. rw e (ids_lem sys (o ∷ os) [] f.allow_private_origins k origins).1;
      named = rw e (ids_lem sys (o ∷ os) [] f.allow_private_origins "" origins).2;
      web = rw e (origins-HasWebUrl sys (o ∷ os) [] f.allow_private_origins origins);
      secret = secret_lem f.cursor_secret secret;
    }

mode_lem :
    (sys : System) (cfg : Config) (o : Option FederationConfig)
    → cfg.federation ≡ o
    → federation_errors sys o ≡ []
    → (f : FederationConfig) × (cfg.federation ≡ some f) × IsUsable sys f
unfolding federation_errors
mode_lem sys cfg none e h = absurd (ground arith)
mode_lem sys cfg (some f) e h = (f, e, usable_lem sys f f.origins refl h)

-- A configuration that is accepted in federation mode has a federation block, and there: at least one
-- origin, enabled or not; IDs of origins that are distinct and not empty; for every origin a base
-- URL that parses and has the scheme http or https, and, unless private origins are allowed, a
-- host name that is empty or passes the check of private hosts; and a secret for the cursors of 16
-- bytes or more once it is trimmed.
pub validate-IsUsable :
    (sys : System) (cfg : Config)
    → validate sys cfg ≡ []
    → cfg.mode ≡ "federation"
    → (f : FederationConfig) × (cfg.federation ≡ some f) × IsUsable sys f
unfolding validate_mode
validate-IsUsable sys cfg h mode =
    mode_lem sys cfg cfg.federation refl
      (let e = rw (validate_mode, mode) at (validate-Clean sys cfg h).by_mode in e)
