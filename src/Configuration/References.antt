-- ===== src/Configuration/References.antt =====
-- internal/config/validation.go: what one block of a configuration without errors asks of another.
use mathlib.Core.Path.{subst}
use stac_proxy.Common.{
  ◌≡◌, ◌≢◌, trim_space, refl, sym, ◌∙◌, inl, inr, String, Bool, true, false, ◌&&◌, ◌||◌, not,
  Option, none, some, List, [], ◌∷◌, str_eq, str_eq_iff, if◌then◌else◌, arith, Bool-cases,
}
use stac_proxy.Configuration.{
  MiddlewareConfig, FederationConfig, RedisConfig, Config, System, reject,
}
use stac_proxy.Configuration.Components.{
  store_selection, is_there, validate_store_selector, validate_one, validate_middleware,
  validate_redis, validate_asset_signing, pages_on_redis, middleware_on_redis, selects_redis,
  signing_wanted, has_secret,
}
use stac_proxy.Configuration.Validation.{validate}
use stac_proxy.Configuration.Lemmas.{append-nil_inv, reject-nil, true_of_not}
use stac_proxy.Configuration.Sound.{validate-Clean}

selector_text :
    (store : String) (there : Bool)
    → store ≡ "redis"
    → (if str_eq store "" || str_eq store "memory"
        then []
        else (if str_eq store "redis"
            then reject (not there) "middleware store requires the redis block"
            else "middleware store" ∷ []))
      ≡ []
    → there ≡ true
selector_text store there e h =
    true_of_not there
      (reject-nil (not there) "middleware store requires the redis block" (rw e at h))

-- A middleware without errors that selects Redis has it.
selector_lem :
    (mw : MiddlewareConfig) (redis : Option RedisConfig)
    → validate_store_selector mw.config redis ≡ []
    → str_eq (store_selection mw.config) "redis" ≡ true
    → is_there redis ≡ true
unfolding validate_store_selector
selector_lem mw redis h wants =
    selector_text (store_selection mw.config) (is_there redis) ((str_eq_iff _ _).0 wants) h

renamed :
    (mw : MiddlewareConfig) (redis : Option RedisConfig) (name : String)
    → str_eq mw.name name ≡ true
    → validate_one mw redis ≡ []
    → validate_one (record mw { name = name }) redis ≡ []
renamed mw redis name same h =
    subst (λ n. validate_one (record mw { name = n }) redis ≡ []) ((str_eq_iff mw.name name).0 same)
      h

one_lem :
    (mw : MiddlewareConfig) (redis : Option RedisConfig)
    → validate_one mw redis ≡ []
    → (str_eq mw.name "cache" || str_eq mw.name "rate_limit") ≡ true
    → validate_store_selector mw.config redis ≡ []
unfolding validate_one
one_lem mw redis h named = elim (Bool-cases (str_eq mw.name "cache")) [
  | inl cache ↦ renamed mw redis "cache" cache h
  | inr other ↦
      (append-nil_inv (validate_store_selector mw.config redis) _
        (renamed mw redis "rate_limit" (ground (arith, other, named)) h)).0
]

and_true : (a b : Bool) → (a && b) ≡ true → (a ≡ true) × (b ≡ true)
and_true true b h = (refl, h)
and_true false b h = absurd (ground arith)

or_right : (a b : Bool) → a ≡ false → (a || b) ≡ true → b ≡ true
or_right true b h w = absurd (ground arith)
or_right false b h w = w

middleware_lem :
    (mws : List MiddlewareConfig) (redis : Option RedisConfig)
    → validate_middleware mws redis ≡ []
    → middleware_on_redis mws ≡ true
    → is_there redis ≡ true
unfolding validate_middleware middleware_on_redis
middleware_lem [] redis h wants = absurd (ground arith)
middleware_lem (mw ∷ mws) redis h wants =
    let (this, others) = append-nil_inv (validate_one mw redis) (validate_middleware mws redis) h in
    elim (Bool-cases (
      (str_eq mw.name "cache" || str_eq mw.name "rate_limit")
      && str_eq (store_selection mw.config) "redis")) [
        | inl here ↦
            let (named, selects) = and_true _ _ here in
            selector_lem mw redis (one_lem mw redis this named) selects
        | inr elsewhere ↦ middleware_lem mws redis others (or_right _ _ elsewhere wants)
      ]

redis_lem :
    (cfg : Config) (redis : Option RedisConfig)
    → (middleware_on_redis cfg.middleware ≡ true → is_there redis ≡ true)
    → validate_redis redis cfg.federation ≡ []
    → (middleware_on_redis cfg.middleware || pages_on_redis cfg.federation) ≡ true
    → is_there redis ≡ true
unfolding validate_redis is_there
redis_lem cfg (some r) by_middleware h wants = refl
redis_lem cfg none by_middleware h wants = elim (Bool-cases (middleware_on_redis cfg.middleware)) [
  | inl there ↦ by_middleware there
  | inr no_middleware ↦ absurd (
      let fed = reject-nil (pages_on_redis cfg.federation) _ h in
      let page = or_right _ _ no_middleware wants in
      let clash : true ≡ false = sym page ∙ fed in cc)
]

addr_lem :
    (redis : Option RedisConfig) (fed : Option FederationConfig)
    → is_there redis ≡ true
    → validate_redis redis fed ≡ []
    → (r : RedisConfig) × (redis ≡ some r) × (str_eq (trim_space r.addr) "" ≡ false)
unfolding is_there validate_redis
addr_lem none fed there h = absurd (ground arith)
addr_lem (some r) fed there h =
    let (addr, rest) = append-nil_inv (reject (str_eq (trim_space r.addr) "") "redis.addr") _ h in
    (r, refl, reject-nil (str_eq (trim_space r.addr) "") _ addr)

-- Where the cache, the rate limiter or the page cache of an accepted configuration selects Redis, there
-- is a redis block, and its address is not blank.
pub validate-selects_redis :
    (sys : System) (cfg : Config)
    → validate sys cfg ≡ []
    → selects_redis cfg ≡ true
    → (r : RedisConfig) × (cfg.redis ≡ some r) × (trim_space r.addr ≢ "")
unfolding selects_redis
validate-selects_redis sys cfg h wants =
    let clean = validate-Clean sys cfg h in
    let (r, there, full) =
      addr_lem cfg.redis cfg.federation
        (redis_lem cfg cfg.redis (middleware_lem cfg.middleware cfg.redis clean.middleware)
          clean.redis wants)
        clean.redis in
    (
      r,
      there,
      λ blank. (let w = (str_eq_iff (trim_space r.addr) "").1 blank in absurd (ground arith)),
    )

-- Where an origin of an accepted configuration has its assets signed, a secret to sign them with is
-- configured.
pub validate-has_secret :
    (sys : System) (cfg : Config)
    → validate sys cfg ≡ []
    → signing_wanted cfg.federation ≡ true
    → has_secret cfg.middleware ≡ true
unfolding validate_asset_signing
validate-has_secret sys cfg h wants =
    let e = reject-nil _ _ (validate-Clean sys cfg h).signing in ground arith
