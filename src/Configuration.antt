-- ===== src/Configuration.antt =====
-- internal/config/config.go: the parts of the configuration that its validation reads. A Go int or
-- duration may be negative; the settings of a middleware are the fields of a JSON object, and a nil
-- map has none. An error stands by the name of the setting that it is about; warnings, which only go
-- with errors, are left out.
pub mod Server
pub mod Origins
pub mod Components
pub mod Validation
pub mod Lemmas
pub mod Sound
pub mod Started
pub mod References
use stac_proxy.Common.Int.{ℤ, int_ltb}
use stac_proxy.Common.{
  ℕ, String, Bool, true, false, not, Option, none, some, List, [], ◌∷◌, str_eq, if◌then◌else◌,
}
use stac_proxy.Stac.Cql2.{Json, Fields}

pub record TlsConfig : Type 0 where
  pub enabled : Bool
  pub cert_file : String
  pub key_file : String

pub record ClientIpConfig : Type 0 where
  pub source : String
  pub header : String
  pub trusted_proxies : List String
  pub trusted_count : ℤ

pub record ServerConfig : Type 0 where
  pub port : ℤ
  pub read_timeout : ℤ
  pub write_timeout : ℤ
  pub idle_timeout : ℤ
  pub max_header_bytes : ℤ
  pub tls : TlsConfig
  pub public_base_url : String
  pub client_ip : ClientIpConfig

pub record LoggingConfig : Type 0 where
  pub level : String
  pub format : String

pub record UpstreamConfig : Type 0 where
  pub url : String
  pub timeout : ℤ
  pub max_response_bytes : ℤ
  pub allow_private_origin : Bool

pub record CircuitBreakerConfig : Type 0 where
  pub failure_threshold : ℤ
  pub open_duration : ℤ
  pub max_open_duration : ℤ
  pub half_open_probes : ℤ

pub record Oauth2Config : Type 0 where
  pub token_url : String
  pub client_id : String

pub record OriginAuthConfig : Type 0 where
  pub type_ : String
  pub username : String
  pub password : String
  pub token : String
  pub api_key_header : String
  pub api_key_value : String
  pub oauth2 : Option Oauth2Config

pub record OriginConfig : Type 0 where
  pub id : String
  pub base_url : String
  pub enabled : Bool
  pub timeout : ℤ
  pub circuit_breaker : Option CircuitBreakerConfig
  pub auth : Option OriginAuthConfig
  pub max_response_bytes : ℤ
  pub rewrite_assets : String
  pub asset_sign_ttl : ℤ
  pub pagination_adapter : Option String

pub record PageCacheConfig : Type 0 where
  pub enabled : Option Bool
  pub store : String
  pub max_entries : ℤ
  pub ttl : ℤ

pub record FederationConfig : Type 0 where
  pub origins : List OriginConfig
  pub allow_private_origins : Bool
  pub cursor_secret : String
  pub page_cache : Option PageCacheConfig

pub record MiddlewareConfig : Type 0 where
  pub name : String
  pub config : Fields

pub record OpaConfig : Type 0 where
  pub policy_path : String
  pub embedded : Bool
  pub rego_files : List String

pub record RedisConfig : Type 0 where
  pub addr : String
  pub db : ℤ
  pub pool_size : ℤ
  pub min_idle_conns : ℤ
  pub dial_timeout : ℤ
  pub read_timeout : ℤ
  pub write_timeout : ℤ
  pub tls : TlsConfig

-- `opa` is the block of the authz block, if both are there.
pub record Config : Type 0 where
  pub server : ServerConfig
  pub logging : LoggingConfig
  pub middleware : List MiddlewareConfig
  pub mode : String
  pub upstream : Option UpstreamConfig
  pub federation : Option FederationConfig
  pub opa : Option OpaConfig
  pub redis : Option RedisConfig

-- url.URL
pub record Url : Type 0 where
  pub scheme : String
  pub host : String
  pub hostname : String
  pub raw_query : String
  pub fragment : String

pub record Ip : Type 0 where
  pub is_loopback : Bool
  pub is_private : Bool
  pub is_link_local_unicast : Bool

-- url.Parse, net.ParseIP, netip.ParsePrefix without error, strings.ToLower, and os.Stat without error.
pub record System : Type 0 where
  pub parse_url : String → Option Url
  pub parse_ip : String → Option Ip
  pub is_prefix : String → Bool
  pub to_lower : String → String
  pub exists : String → Bool

abbrev pub Errors : Type 0
Errors = List String

-- `if b { v.addError(…) }`
abbrev pub reject : Bool → String → Errors
reject b name = if b then name ∷ [] else []

abbrev pub is_negative : ℤ → Bool
is_negative n = int_ltb n (ℤ.pos 0)
