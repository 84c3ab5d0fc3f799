-- ===== src/Configuration/Origins.antt =====
-- internal/config/validation.go: the upstream of single mode, and the origins of federation mode with
-- the cursors and the page cache.
use Prim.Native.String.{len, [] as str_nil, ◌∷◌ as str_cons}
use Prim.Native.Char.{code}
use stac_proxy.Common.Int.{ℤ, int_ltb}
use stac_proxy.Common.{
  ℕ, String, Bool, true, false, ◌&&◌, ◌||◌, not, Option, none, some, List, [], ◌∷◌, ◌++◌, ltb, leb,
  ◌==◌, str_eq, elem, trim_space, if◌then◌else◌,
}
use stac_proxy.Configuration.{
  UpstreamConfig, CircuitBreakerConfig, Oauth2Config, OriginAuthConfig, OriginConfig,
  PageCacheConfig, FederationConfig, Url, Ip, System, Errors, reject, is_negative,
}
use stac_proxy.Configuration.Server.{is_web}

unfoldable pub is_letter : ℕ → Bool
is_letter c = (leb 65 c && leb c 90) || (leb 97 c && leb c 122)

unfoldable pub is_id_char : ℕ → Bool
unfolding is_letter
is_id_char c = is_letter c || ((leb 48 c && leb c 57) || c == 45)

unfoldable pub all_id_chars : String → Bool
unfolding is_id_char
all_id_chars str_nil = true
all_id_chars (str_cons c s) = is_id_char (code c) && all_id_chars s

-- `^[a-zA-Z][a-zA-Z0-9-]*$`
unfoldable pub is_valid_id : String → Bool
unfolding is_letter all_id_chars
is_valid_id str_nil = false
is_valid_id (str_cons c s) = is_letter (code c) && all_id_chars s

unfoldable pub validate_breaker : Option CircuitBreakerConfig → Errors
validate_breaker none = []
validate_breaker (some cb) =
    reject (is_negative cb.failure_threshold) "circuit_breaker.failure_threshold"
    ++ (reject (is_negative cb.half_open_probes) "circuit_breaker.half_open_probes"
        ++ (reject (is_negative cb.open_duration || is_negative cb.max_open_duration)
              "circuit_breaker durations"
            ++ reject
                (int_ltb (ℤ.pos 0) cb.open_duration
                  && (int_ltb (ℤ.pos 0) cb.max_open_duration
                      && int_ltb cb.max_open_duration cb.open_duration))
                "circuit_breaker.max_open_duration"))

-- The IDs that were seen before, and after, this one.
unfoldable pub validate_id : String → List String → Errors
unfolding elem is_valid_id
validate_id id seen =
    (if str_eq id "" then "id is required" ∷ [] else reject (elem id seen) "id is duplicate")
    ++ reject (not (str_eq id "") && not (is_valid_id id)) "id has invalid characters"

unfoldable pub see : String → List String → List String
unfolding elem
see id seen = if str_eq id "" || elem id seen then seen else id ∷ seen

abbrev pub auth_types : List String
auth_types = "none" ∷ "basic" ∷ "bearer" ∷ "api_key" ∷ "oauth2" ∷ "aws_sigv4" ∷ "custom" ∷ []

unfoldable pub validate_oauth2 : Option Oauth2Config → Errors
validate_oauth2 none = "auth.oauth2" ∷ []
validate_oauth2 (some o) =
    reject (str_eq o.token_url "") "auth.oauth2.token_url"
    ++ reject (str_eq o.client_id "") "auth.oauth2.client_id"

unfoldable pub validate_origin_auth : Option OriginAuthConfig → Errors
unfolding validate_oauth2 elem
validate_origin_auth none = []
validate_origin_auth (some a) =
    if not (elem a.type_ auth_types)
    then "auth.type" ∷ []
    else (if str_eq a.type_ "basic"
        then reject (str_eq a.username "" || str_eq a.password "") "auth.username"
        else (if str_eq a.type_ "bearer"
            then reject (str_eq a.token "") "auth.token"
            else (if str_eq a.type_ "api_key"
                then reject (str_eq a.api_key_header "" || str_eq a.api_key_value "") "auth.api_key"
                else (if str_eq a.type_ "oauth2" then validate_oauth2 a.oauth2 else []))))

abbrev pub rewrite_modes : List String
rewrite_modes = "" ∷ "never" ∷ "sign" ∷ "proxy" ∷ []

abbrev pub adapters : List String
adapters = "" ∷ "auto" ∷ "token" ∷ "next_url" ∷ "offset" ∷ "link_header" ∷ []

unfoldable pub validate_adapter : Option String → Errors
unfolding elem
validate_adapter none = []
validate_adapter (some a) = reject (not (elem a adapters)) "pagination.adapter"

unfoldable pub is_internal : Option Ip → Bool
is_internal none = false
is_internal (some ip) = ip.is_loopback || (ip.is_private || ip.is_link_local_unicast)

module _ (sys : System) where
  -- The host is refused as private: localhost, or an address of such a range.
  unfoldable pub is_private_host : String → Bool
  unfolding is_internal
  is_private_host host = str_eq (sys.to_lower host) "localhost" || is_internal (sys.parse_ip host)

  unfoldable pub validate_origin_url : Bool → Url → Errors
  unfolding is_web is_private_host
  validate_origin_url allow_private u =
      if not (is_web (sys.to_lower u.scheme))
      then "url scheme" ∷ []
      else (if str_eq u.hostname ""
          then []
          else reject (not allow_private && is_private_host u.hostname) "url host")

  unfoldable pub validate_url : Bool → Option Url → Errors
  unfolding validate_origin_url
  validate_url allow_private none = "url" ∷ []
  validate_url allow_private (some u) = validate_origin_url allow_private u

  unfoldable pub validate_upstream : UpstreamConfig → Errors
  unfolding validate_url
  validate_upstream cfg =
      if str_eq cfg.url ""
      then "upstream.url" ∷ []
      else validate_url cfg.allow_private_origin (sys.parse_url cfg.url)
        ++ (reject (is_negative cfg.timeout) "upstream.timeout"
            ++ reject (is_negative cfg.max_response_bytes) "upstream.max_response_bytes")

  unfoldable pub validate_origin : OriginConfig → List String → Bool → Errors
  unfolding validate_breaker validate_id validate_url validate_adapter validate_origin_auth elem
  validate_origin o seen allow_private =
      validate_breaker o.circuit_breaker
      ++ (validate_id o.id seen
          ++ ((if str_eq o.base_url ""
                then "base_url" ∷ []
                else validate_url allow_private (sys.parse_url o.base_url))
              ++ (reject (is_negative o.timeout) "timeout"
                  ++ (reject (is_negative o.max_response_bytes) "max_response_bytes"
                      ++ (reject (not (elem o.rewrite_assets rewrite_modes)) "rewrite_assets"
                          ++ (reject (is_negative o.asset_sign_ttl) "asset_sign_ttl"
                              ++ (validate_adapter o.pagination_adapter
                                  ++ validate_origin_auth o.auth)))))))

  unfoldable pub validate_origins : List OriginConfig → List String → Bool → Errors
  unfolding validate_origin see
  validate_origins [] seen allow_private = []
  validate_origins (o ∷ os) seen allow_private =
      validate_origin o seen allow_private ++ validate_origins os (see o.id seen) allow_private

abbrev pub min_cursor_secret_len : ℕ
min_cursor_secret_len = 16

unfoldable pub validate_cursor_secret : String → Errors
unfolding trim_space
validate_cursor_secret secret =
    if str_eq (trim_space secret) ""
    then "federation.cursor_secret is required" ∷ []
    else reject (ltb (len (trim_space secret)) min_cursor_secret_len)
        "federation.cursor_secret is too short"

unfoldable pub is_enabled : Option Bool → Bool
is_enabled none = false
is_enabled (some b) = b

abbrev pub stores : List String
stores = "" ∷ "memory" ∷ "redis" ∷ []

unfoldable pub validate_page_cache : String → Option PageCacheConfig → Errors
unfolding is_enabled elem
validate_page_cache secret none = []
validate_page_cache secret (some c) =
    reject (is_negative c.max_entries) "federation.page_cache.max_entries"
    ++ (reject (is_negative c.ttl) "federation.page_cache.ttl"
        ++ (reject (is_enabled c.enabled && str_eq secret "") "federation.page_cache.enabled"
            ++ reject (not (elem c.store stores)) "federation.page_cache.store"))

unfoldable pub validate_federation : System → FederationConfig → Errors
unfolding validate_origins validate_cursor_secret validate_page_cache
validate_federation sys cfg = elim cfg.origins [
  | [] ↦ "federation.origins" ∷ []
  | o ∷ os ↦
      validate_origins sys (o ∷ os) [] cfg.allow_private_origins
      ++ (validate_cursor_secret cfg.cursor_secret
          ++ validate_page_cache cfg.cursor_secret cfg.page_cache)
]
