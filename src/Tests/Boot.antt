-- ===== src/Tests/Boot.antt =====
-- Runs of internal/config/validation.go: a federation of two origins with its page cache on Redis.
use stac_proxy.Common.Int.{ℤ, int_ltb}
use stac_proxy.Common.{
  ◌≡◌, ◌≢◌, trim_space, keys, refl, String, true, false, none, some, List, [], ◌∷◌, str_eq,
  if◌then◌else◌,
}
use stac_proxy.Stac.Cql2.{text, boolean, array, empty, more, no_field, field}
use stac_proxy.Federation.Cursor.{new_federated_cursor}
use stac_proxy.Federation.Pagination.Conserve.{HasKeys}
use stac_proxy.Configuration.{
  TlsConfig, OriginConfig, FederationConfig, RedisConfig, Config, System,
}
use stac_proxy.Configuration.Components.{selects_redis, validate_cors}
use stac_proxy.Configuration.Validation.{validate}
use stac_proxy.Configuration.Lemmas.{ids_of}
use stac_proxy.Configuration.Sound.{IsUsable, validate-IsUsable}
use stac_proxy.Federation.Pagination.Shares.{count_id}
use stac_proxy.Configuration.Started.{enabled_origins, first_cursor, validate-HasKeys}
use stac_proxy.Configuration.References.{validate-selects_redis}

abbrev no_tls : TlsConfig
no_tls = record { enabled = false; cert_file = ""; key_file = "" }

abbrev host_of : String → String
host_of s = if str_eq s "http://localhost/" then "localhost" else "stac.example"

abbrev sys : System
sys = record {
  parse_url = λ s. some (record {
    scheme = "https";
    host = host_of s;
    hostname = host_of s;
    raw_query = "";
    fragment = "";
  });
  parse_ip = λ s. none;
  is_prefix = λ s. true;
  to_lower = λ s. s;
  exists = λ s. true;
}

abbrev origin : String → String → OriginConfig
origin id url = record {
  id = id;
  base_url = url;
  enabled = true;
  timeout = ℤ.pos 0;
  circuit_breaker = none;
  auth = none;
  max_response_bytes = ℤ.pos 0;
  rewrite_assets = "sign";
  asset_sign_ttl = ℤ.pos 0;
  pagination_adapter = some "auto";
}

abbrev federation_of : List OriginConfig → FederationConfig
federation_of os = record {
  origins = os;
  allow_private_origins = false;
  cursor_secret = "0123456789abcdef";
  page_cache =
      some (record { enabled = none; store = "redis"; max_entries = ℤ.pos 0; ttl = ℤ.pos 0 });
}

abbrev config_of : List OriginConfig → Config
config_of os = record {
  server = record {
    port = ℤ.pos 8080;
    read_timeout = ℤ.pos 0;
    write_timeout = ℤ.pos 0;
    idle_timeout = ℤ.pos 0;
    max_header_bytes = ℤ.pos 0;
    tls = no_tls;
    public_base_url = "";
    client_ip = record { source = ""; header = ""; trusted_proxies = []; trusted_count = ℤ.pos 0 };
  };
  logging = record { level = "info"; format = "" };
  middleware = record { name = "url_remap"; config = field "secret" (text "s") no_field } ∷ [];
  mode = "federation";
  upstream = none;
  federation = some (federation_of os);
  opa = none;
  redis = some (record {
    addr = "redis:6379";
    db = ℤ.pos 0;
    pool_size = ℤ.pos 0;
    min_idle_conns = ℤ.pos 0;
    dial_timeout = ℤ.pos 0;
    read_timeout = ℤ.pos 0;
    write_timeout = ℤ.pos 0;
    tls = no_tls;
  });
}

-- Two origins that are enabled, and one that is not.
abbrev two : List OriginConfig
two =
    origin "a" "https://stac.example/a"
    ∷ record (origin "c" "https://stac.example/c") { enabled = false }
    ∷ origin "b" "https://stac.example/b"
    ∷ []

accepted : validate sys (config_of two) ≡ []
unfolding validate int_ltb
accepted = refl

-- The same name twice, and a host that is private.
refused :
    validate sys
      (config_of (origin "a" "https://stac.example/a" ∷ origin "a" "http://localhost/" ∷ []))
    ≡ "id is duplicate" ∷ "url host" ∷ []
unfolding validate int_ltb
refused = refl

wildcard :
    validate_cors (
      field "allow_credentials"
        (boolean true)
        (field "allowed_origins" (array (more (text "*") empty)) no_field))
    ≡ "cors.allow_credentials" ∷ []
unfolding validate_cors
wildcard = refl

validate-IsUsable_example :
    (f : FederationConfig) × ((config_of two).federation ≡ some f) × IsUsable sys f
validate-IsUsable_example = validate-IsUsable sys (config_of two) accepted refl

validate-HasKeys_example :
    (f : FederationConfig) × ((config_of two).federation ≡ some f)
    × ((k : String)
        → count_id k (keys (first_cursor f 0 "q" "p" 60).origins)
          ≡ count_id k (ids_of (enabled_origins f.origins)))
    × HasKeys (first_cursor f 0 "q" "p" 60)
validate-HasKeys_example = validate-HasKeys sys (config_of two) 0 60 "q" "p" accepted refl

two_started : keys (first_cursor (federation_of two) 0 "q" "p" 60).origins ≡ "a" ∷ "b" ∷ []
unfolding first_cursor new_federated_cursor
two_started = refl

uses_redis : selects_redis (config_of two) ≡ true
unfolding selects_redis
uses_redis = refl

validate-selects_redis_example :
    (r : RedisConfig) × ((config_of two).redis ≡ some r) × (trim_space r.addr ≢ "")
validate-selects_redis_example = validate-selects_redis sys (config_of two) accepted uses_redis
