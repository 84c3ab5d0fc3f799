-- ===== src/Configuration/Validation.antt =====
-- internal/config/validation.go: Validate, the whole of it.
use stac_proxy.Common.{Option, none, some, [], ◌∷◌, ◌++◌, str_eq, if◌then◌else◌}
use stac_proxy.Configuration.{UpstreamConfig, FederationConfig, Config, System, Errors}
use stac_proxy.Configuration.Server.{validate_server, validate_logging}
use stac_proxy.Configuration.Origins.{validate_upstream, validate_federation}
use stac_proxy.Configuration.Components.{
  validate_middleware, validate_authz, validate_redis, validate_asset_signing,
}

module _ (sys : System) where
  unfoldable pub upstream_errors : Option UpstreamConfig → Errors
  unfolding validate_upstream
  upstream_errors none = "upstream" ∷ []
  upstream_errors (some u) = validate_upstream sys u

  unfoldable pub federation_errors : Option FederationConfig → Errors
  unfolding validate_federation
  federation_errors none = "federation" ∷ []
  federation_errors (some f) = validate_federation sys f

  unfoldable pub validate_mode : Config → Errors
  unfolding upstream_errors federation_errors
  validate_mode cfg =
      if str_eq cfg.mode "single"
      then upstream_errors cfg.upstream
      else (if str_eq cfg.mode "federation" then federation_errors cfg.federation else "mode" ∷ [])

  -- The errors of a configuration, in the order in which they are found.
  unfoldable pub validate : Config → Errors
  unfolding validate_server validate_logging validate_mode validate_middleware validate_authz
      validate_redis validate_asset_signing
  validate cfg =
      validate_server sys cfg.server
      ++ (validate_logging cfg.logging
          ++ (validate_mode cfg
              ++ (validate_middleware cfg.middleware cfg.redis
                  ++ (validate_authz sys cfg.opa
                      ++ (validate_redis cfg.redis cfg.federation ++ validate_asset_signing cfg)))))
