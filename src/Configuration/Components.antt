-- ===== src/Configuration/Components.antt =====
-- internal/config/validation.go: the middleware list, the authz and redis blocks, and the rewriting of
-- assets. A list of allowed origins is a JSON array, as YAML decodes one.
use stac_proxy.Common.{
  String, Bool, true, false, ◌&&◌, ◌||◌, not, Option, none, some, List, [], ◌∷◌, ◌++◌, str_eq, elem,
  trim_space, if◌then◌else◌,
}
use stac_proxy.Stac.Cql2.{
  Json, null, boolean, number, text, array, object, Jsons, empty, more, Fields, field_of,
}
use stac_proxy.Configuration.{
  OriginConfig, PageCacheConfig, FederationConfig, MiddlewareConfig, OpaConfig, RedisConfig, Config,
  System, Errors, reject, is_negative,
}

-- `s, _ := v.(string)`
unfoldable pub text_of : Option Json → String
text_of none = ""
text_of (some (text s)) = s
text_of (some null) = ""
text_of (some (boolean b)) = ""
text_of (some (number x)) = ""
text_of (some (array xs)) = ""
text_of (some (object fs)) = ""

unfoldable pub is_true : Option Json → Bool
is_true none = false
is_true (some (boolean b)) = b
is_true (some null) = false
is_true (some (text s)) = false
is_true (some (number x)) = false
is_true (some (array xs)) = false
is_true (some (object fs)) = false

unfoldable pub store_selection : Fields → String
unfolding text_of field_of
store_selection cfg = text_of (field_of "store" cfg)

unfoldable pub is_there : {A : Type 0} → Option A → Bool
is_there none = false
is_there (some a) = true

unfoldable pub validate_store_selector : Fields → Option RedisConfig → Errors
unfolding store_selection is_there
validate_store_selector mw redis =
    if str_eq (store_selection mw) "" || str_eq (store_selection mw) "memory"
    then []
    else (if str_eq (store_selection mw) "redis"
        then reject (not (is_there redis)) "middleware store requires the redis block"
        else "middleware store" ∷ [])

unfoldable pub validate_failure_mode : Option Json → Errors
unfolding text_of
validate_failure_mode none = []
validate_failure_mode (some v) =
    reject (not (str_eq (text_of (some v)) "open" || str_eq (text_of (some v)) "closed"))
      "middleware failure_mode"

unfoldable pub validate_rate_limit : Fields → Option RedisConfig → Errors
unfolding validate_store_selector validate_failure_mode field_of
validate_rate_limit mw redis =
    validate_store_selector mw redis ++ validate_failure_mode (field_of "failure_mode" mw)

unfoldable pub not_texts : Jsons → Errors
not_texts empty = []
not_texts (more (text s) xs) = not_texts xs
not_texts (more null xs) = "cors.allowed_origins entry" ∷ not_texts xs
not_texts (more (boolean b) xs) = "cors.allowed_origins entry" ∷ not_texts xs
not_texts (more (number x) xs) = "cors.allowed_origins entry" ∷ not_texts xs
not_texts (more (array ys) xs) = "cors.allowed_origins entry" ∷ not_texts xs
not_texts (more (object fs) xs) = "cors.allowed_origins entry" ∷ not_texts xs

unfoldable pub has_wildcard : Jsons → Bool
has_wildcard empty = false
has_wildcard (more (text s) xs) = str_eq s "*" || has_wildcard xs
has_wildcard (more null xs) = has_wildcard xs
has_wildcard (more (boolean b) xs) = has_wildcard xs
has_wildcard (more (number x) xs) = has_wildcard xs
has_wildcard (more (array ys) xs) = has_wildcard xs
has_wildcard (more (object fs) xs) = has_wildcard xs

unfoldable pub validate_allowed_origins : Bool → Option Json → Errors
unfolding not_texts has_wildcard
validate_allowed_origins credentials none = []
validate_allowed_origins credentials (some null) = []
validate_allowed_origins credentials (some (array xs)) =
    not_texts xs ++ reject (credentials && has_wildcard xs) "cors.allow_credentials"
validate_allowed_origins credentials (some (text s)) = "cors.allowed_origins" ∷ []
validate_allowed_origins credentials (some (boolean b)) = "cors.allowed_origins" ∷ []
validate_allowed_origins credentials (some (number x)) = "cors.allowed_origins" ∷ []
validate_allowed_origins credentials (some (object fs)) = "cors.allowed_origins" ∷ []

unfoldable pub validate_cors : Fields → Errors
unfolding is_true validate_allowed_origins field_of
validate_cors mw =
    validate_allowed_origins (is_true (field_of "allow_credentials" mw))
      (field_of "allowed_origins" mw)

abbrev pub middleware_names : List String
middleware_names = "logging" ∷ "auth" ∷ "authz" ∷ "cache" ∷ "rate_limit" ∷ "url_remap" ∷ "cors" ∷ []

unfoldable pub validate_one : MiddlewareConfig → Option RedisConfig → Errors
unfolding validate_cors validate_store_selector validate_rate_limit elem
validate_one mw redis =
    if not (elem mw.name middleware_names)
    then "middleware name" ∷ []
    else (if str_eq mw.name "cors"
        then validate_cors mw.config
        else (if str_eq mw.name "cache"
            then validate_store_selector mw.config redis
            else (if str_eq mw.name "rate_limit" then validate_rate_limit mw.config redis else [])))

unfoldable pub validate_middleware : List MiddlewareConfig → Option RedisConfig → Errors
unfolding validate_one
validate_middleware [] redis = []
validate_middleware (mw ∷ mws) redis = validate_one mw redis ++ validate_middleware mws redis

unfoldable pub missing_files : System → List String → Errors
missing_files sys [] = []
missing_files sys (f ∷ fs) =
    reject (not (sys.exists f)) "authz.opa.rego_files" ++ missing_files sys fs

unfoldable pub no_files : List String → Bool
no_files [] = true
no_files (f ∷ fs) = false

unfoldable pub validate_authz : System → Option OpaConfig → Errors
unfolding missing_files no_files
validate_authz sys none = []
validate_authz sys (some opa) =
    reject (not opa.embedded) "authz.opa.embedded"
    ++ (reject (str_eq opa.policy_path "" && no_files opa.rego_files)
          "authz.opa requires policy_path or rego_files"
        ++ (reject (not (str_eq opa.policy_path "") && not (sys.exists opa.policy_path))
              "authz.opa.policy_path"
            ++ missing_files sys opa.rego_files))

unfoldable pub cache_on_redis : Option PageCacheConfig → Bool
cache_on_redis none = false
cache_on_redis (some c) = str_eq c.store "redis"

unfoldable pub pages_on_redis : Option FederationConfig → Bool
unfolding cache_on_redis
pages_on_redis none = false
pages_on_redis (some f) = cache_on_redis f.page_cache

-- `(cert == "") != (key == "")`
unfoldable pub differ : Bool → Bool → Bool
differ true b = not b
differ false b = b

unfoldable pub validate_redis : Option RedisConfig → Option FederationConfig → Errors
unfolding pages_on_redis differ trim_space
validate_redis none fed = reject (pages_on_redis fed) "federation.page_cache.store requires redis"
validate_redis (some r) fed =
    reject (str_eq (trim_space r.addr) "") "redis.addr"
    ++ (reject (is_negative r.db) "redis.db"
        ++ (reject (is_negative r.pool_size || is_negative r.min_idle_conns) "redis.pool_size"
            ++ (reject
                  (is_negative r.dial_timeout
                    || (is_negative r.read_timeout || is_negative r.write_timeout))
                  "redis timeouts"
                ++ reject
                    (r.tls.enabled && differ (str_eq r.tls.cert_file "") (str_eq r.tls.key_file ""))
                    "redis.tls")))

unfoldable pub middleware_on_redis : List MiddlewareConfig → Bool
unfolding store_selection
middleware_on_redis [] = false
middleware_on_redis (mw ∷ mws) =
    ((str_eq mw.name "cache" || str_eq mw.name "rate_limit")
      && str_eq (store_selection mw.config) "redis")
    || middleware_on_redis mws

unfoldable pub selects_redis : Config → Bool
unfolding middleware_on_redis pages_on_redis
selects_redis cfg = middleware_on_redis cfg.middleware || pages_on_redis cfg.federation

unfoldable pub any_signs : List OriginConfig → Bool
any_signs [] = false
any_signs (o ∷ os) = str_eq o.rewrite_assets "sign" || any_signs os

unfoldable pub signing_wanted : Option FederationConfig → Bool
unfolding any_signs
signing_wanted none = false
signing_wanted (some f) = any_signs f.origins

unfoldable pub has_secret : List MiddlewareConfig → Bool
unfolding text_of field_of trim_space
has_secret [] = false
has_secret (mw ∷ mws) =
    (str_eq mw.name "url_remap"
      && not (str_eq (trim_space (text_of (field_of "secret" mw.config))) ""))
    || has_secret mws

unfoldable pub validate_asset_signing : Config → Errors
unfolding signing_wanted has_secret
validate_asset_signing cfg =
    reject (signing_wanted cfg.federation && not (has_secret cfg.middleware)) "rewrite_assets: sign"
