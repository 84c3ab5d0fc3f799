-- ===== src/Middleware/Auth/Jwks/Floods.antt =====
-- internal/middleware/auth/jwks.go (KeyWithAlg): how often calls for keys that the client does not know
-- reach the issuer.
use stac_proxy.Common.{ℕ, ◌+◌, ◌*◌, ◌≤◌, ◌≡◌, String, Option, some, List, [], ◌∷◌, if◌then◌else◌}
use stac_proxy.Middleware.Auth.Jwks.{Bytes, JwksClient}
use stac_proxy.Middleware.Auth.Jwks.Calls.{Event, called, background, KeyOutcome}

-- The requests of the events begin in their order, none before the time, and none of a call before it
-- was made.
abbrev pub InOrder : ℕ → List Event → Type 0
InOrder t [] = Unit {0}
InOrder t (called call ∷ es) = (t ≤ call.now) × (call.now ≤ call.started) × InOrder call.started es
InOrder t (background started done fetch ∷ es) = (t ≤ started) × InOrder started es

module _ (decode : String → Option Bytes) where
  -- The client after a call, with the last refresh no later than the time.
  Began : JwksClient → ℕ → ℕ → KeyOutcome → Type 0
  Began c a t o =
      (o.client.min_refresh_interval ≡ c.min_refresh_interval)
      × ((a' : ℕ) × (o.client.last_refresh_attempt ≡ some a')
          × (a + c.min_refresh_interval * (if o.fetched then 1 else 0) ≤ a')
          × (a' ≤ t))

  -- A refresh in the background keeps the interval, and the last refresh moves on at most.
  Moved : JwksClient → ℕ → ℕ → JwksClient → Type 0
  Moved c a t d =
      (d.min_refresh_interval ≡ c.min_refresh_interval)
      × ((a' : ℕ) × (d.last_refresh_attempt ≡ some a') × (a ≤ a') × (a' ≤ t))
