-- ===== src/Configuration/Started.antt =====
-- cmd/stac-proxy/main.go (buildFederationHandler) and internal/federation/handler.go (NewHandler): the
-- origins that a configuration starts, and the cursor of a first page, which names the keys of the
-- handler's map.
use stac_proxy.Common.{
  ◌≡◌, refl, ap, ◌∙◌, ℕ, ◌+◌, ◌≤◌, String, some, List, [], ◌∷◌, map, keys, str_eq, str_eq_refl,
  upsert, if◌then◌else◌, arith,
}
use stac_proxy.Federation.Cursor.{FederatedCursor, new_federated_cursor, new_origin_cursor}
use stac_proxy.Federation.Pagination.Shares.{count_id}
use stac_proxy.Federation.Pagination.Conserve.{HasKeys}
use stac_proxy.Configuration.{OriginConfig, FederationConfig, Config, System}
use stac_proxy.Configuration.Validation.{validate}
use stac_proxy.Configuration.Lemmas.{ids_of}
use stac_proxy.Configuration.Sound.{validate-IsUsable}

-- `if !originCfg.Enabled { continue }`
unfoldable pub enabled_origins : List OriginConfig → List OriginConfig
enabled_origins [] = []
enabled_origins (o ∷ os) = let rest = enabled_origins os in if o.enabled then o ∷ rest else rest

-- `handler.origins[origin.ID] = client`, one origin after the other: a later one replaces an earlier one
-- of the same ID.
unfoldable pub add_clients :
    List OriginConfig → List (String × OriginConfig) → List (String × OriginConfig)
unfolding upsert
add_clients [] clients = clients
add_clients (o ∷ os) clients = add_clients os (upsert o.id o (λ old. o) clients)

unfoldable pub handler_origins : FederationConfig → List (String × OriginConfig)
unfolding enabled_origins add_clients
handler_origins f = add_clients (enabled_origins f.origins) []

-- The cursor of a search without a token.
unfoldable pub first_cursor : FederationConfig → ℕ → String → String → ℕ → FederatedCursor
unfolding handler_origins
first_cursor f now query_hash principal_hash ttl =
    new_federated_cursor now query_hash principal_hash (keys (handler_origins f)) ttl

count-enabled_le :
    (k : String) (os : List OriginConfig)
    → count_id k (ids_of (enabled_origins os)) ≤ count_id k (ids_of os)
unfolding count_id enabled_origins
count-enabled_le k [] = omega arith
count-enabled_le k (o ∷ os) = ground (arith, count-enabled_le k os)

count-upsert :
    (k id : String) (o : OriginConfig) (m : List (String × OriginConfig))
    → count_id id (keys m) ≡ 0
    → count_id k (keys (upsert id o (λ old. o) m))
      ≡ count_id k (keys m) + (if str_eq id k then 1 else 0)
unfolding count_id upsert
count-upsert k id o [] h = ground arith
count-upsert k id o ((j, p) ∷ m) h = ground (arith, count-upsert k id o m)

count-add_clients :
    (os : List OriginConfig) (m : List (String × OriginConfig))
    → ((k : String) → count_id k (keys m) + count_id k (ids_of os) ≤ 1)
    → (k : String)
    → count_id k (keys (add_clients os m)) ≡ count_id k (keys m) + count_id k (ids_of os)
unfolding count_id add_clients
count-add_clients [] m apart k = ground arith
count-add_clients (o ∷ os) m apart k =
    let fresh : count_id o.id (keys m) ≡ 0 = ground (arith, apart o.id, str_eq_refl o.id) in
    let grown = λ (j : String). count-upsert j o.id o m fresh in
    ground (
      arith,
      grown k,
      count-add_clients os (upsert o.id o (λ old. o) m) (λ j. ground (arith, grown j, apart j)) k,
    )

count-added :
    (os : List OriginConfig)
    → ((k : String) → count_id k (ids_of os) ≤ 1)
    → (k : String) → count_id k (keys (add_clients os [])) ≡ count_id k (ids_of os)
unfolding count_id
count-added os few k =
    let total = count-add_clients os [] (λ j. omega (arith, few j)) k in omega (arith, total)

keys_new : (ids : List String) → keys (map (λ id. (id, new_origin_cursor id)) ids) ≡ ids
keys_new [] = refl
keys_new (id ∷ ids) = ap (λ rest. id ∷ rest) (keys_new ids)

-- A configuration that is accepted in federation mode has a federation block, and the cursor that a
-- search starts with names the origins of the block that are enabled: each of them once, because
-- no client replaces another, no other origin, and none by the empty name.
pub validate-HasKeys :
    (sys : System) (cfg : Config) (now ttl : ℕ) (query_hash principal_hash : String)
    → validate sys cfg ≡ []
    → cfg.mode ≡ "federation"
    → (f : FederationConfig) × (cfg.federation ≡ some f)
      × ((k : String)
          → count_id k (keys (first_cursor f now query_hash principal_hash ttl).origins)
            ≡ count_id k (ids_of (enabled_origins f.origins)))
      × HasKeys (first_cursor f now query_hash principal_hash ttl)
unfolding new_federated_cursor first_cursor handler_origins
validate-HasKeys sys cfg now ttl query_hash principal_hash h mode =
    let (f, there, usable) = validate-IsUsable sys cfg h mode in
    let started = enabled_origins f.origins in
    let few : (k : String) → count_id k (ids_of started) ≤ 1 =
      λ k. omega (arith, usable.once k, count-enabled_le k f.origins) in
    let exact : (k : String)
        → count_id k (keys (first_cursor f now query_hash principal_hash ttl).origins)
          ≡ count_id k (ids_of started) =
      λ k. ap (count_id k) (keys_new (keys (handler_origins f))) ∙ count-added started few k in
    (
      f,
      there,
      exact,
      (
        λ k. omega (arith, exact k, few k),
        omega (arith, exact "", usable.named, count-enabled_le "" f.origins),
      ),
    )
