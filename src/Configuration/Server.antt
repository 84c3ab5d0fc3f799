-- ===== src/Configuration/Server.antt =====
-- internal/config/validation.go: the server and logging blocks.
use stac_proxy.Common.Int.{ℤ, int_ltb}
use stac_proxy.Common.{
  String, Bool, ◌&&◌, ◌||◌, not, Option, none, some, List, [], ◌∷◌, ◌++◌, str_eq, elem,
  if◌then◌else◌,
}
use stac_proxy.Configuration.{
  TlsConfig, ClientIpConfig, ServerConfig, LoggingConfig, Url, System, Errors, reject, is_negative,
}

unfoldable pub validate_tls : TlsConfig → Errors
validate_tls cfg =
    reject (str_eq cfg.cert_file "") "server.tls.cert_file"
    ++ reject (str_eq cfg.key_file "") "server.tls.key_file"

-- `scheme != "http" && scheme != "https"`
unfoldable pub is_web : String → Bool
is_web scheme = str_eq scheme "http" || str_eq scheme "https"

module _ (sys : System) where
  unfoldable pub validate_base_url : Option Url → Errors
  unfolding is_web
  validate_base_url none = "server.public_base_url" ∷ []
  validate_base_url (some u) =
      reject (not (is_web (sys.to_lower u.scheme))) "server.public_base_url scheme"
      ++ (reject (str_eq u.host "") "server.public_base_url host"
          ++ reject (not (str_eq u.raw_query "") || not (str_eq u.fragment ""))
              "server.public_base_url query")

  unfoldable pub validate_prefixes : List String → Errors
  validate_prefixes [] = []
  validate_prefixes (p ∷ ps) =
      reject (not (sys.is_prefix p)) "server.client_ip.trusted_proxies" ++ validate_prefixes ps

  unfoldable pub validate_client_ip : ClientIpConfig → Errors
  unfolding validate_prefixes
  validate_client_ip cfg =
      if str_eq cfg.source "" || str_eq cfg.source "remote_addr"
      then []
      else (if str_eq cfg.source "header"
          then reject (str_eq cfg.header "") "server.client_ip.header"
          else (if str_eq cfg.source "xff"
              then validate_prefixes cfg.trusted_proxies
              else (if str_eq cfg.source "xff_trusted_count"
                  then reject (int_ltb cfg.trusted_count (ℤ.pos 1)) "server.client_ip.trusted_count"
                  else "server.client_ip.source" ∷ [])))

  unfoldable pub validate_server : ServerConfig → Errors
  unfolding validate_tls validate_base_url validate_client_ip
  validate_server cfg =
      reject (int_ltb cfg.port (ℤ.pos 1) || int_ltb (ℤ.pos 65535) cfg.port) "server.port"
      ++ (reject (is_negative cfg.read_timeout) "server.timeouts.read"
          ++ (reject (is_negative cfg.write_timeout) "server.timeouts.write"
              ++ (reject (is_negative cfg.idle_timeout) "server.timeouts.idle"
                  ++ (reject (is_negative cfg.max_header_bytes) "server.max_header_bytes"
                      ++ ((if cfg.tls.enabled then validate_tls cfg.tls else [])
                          ++ ((if not (str_eq cfg.public_base_url "")
                                then validate_base_url (sys.parse_url cfg.public_base_url)
                                else [])
                              ++ validate_client_ip cfg.client_ip))))))

abbrev pub levels : List String
levels = "debug" ∷ "info" ∷ "warn" ∷ "error" ∷ []

abbrev pub formats : List String
formats = "json" ∷ "text" ∷ "console" ∷ []

unfoldable pub validate_logging : LoggingConfig → Errors
unfolding elem
validate_logging cfg =
    reject (not (str_eq cfg.level "") && not (elem cfg.level levels)) "logging.level"
    ++ reject (not (str_eq cfg.format "") && not (elem cfg.format formats)) "logging.format"
