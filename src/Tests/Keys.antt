-- ===== src/Tests/Keys.antt =====
-- Runs of internal/middleware/auth/jwks.go.
use stac_proxy.Common.{
  ℕ, ◌+◌, ◌≡◌, refl, String, true, false, Option, none, some, List, [], ◌∷◌, arith, lookup, upsert,
}
use stac_proxy.Middleware.Auth.Jwks.{
  Bytes, Jwk, rsa, ClientConfig, JwksClient, new_jwks_client, answered, unreachable, stale,
  lookup_key, keys_of, begin_refresh,
}
use stac_proxy.Middleware.Auth.Jwks.Refinement.{
  Section, begun, ended, marked, kicked, run, latest, answer_of, lookup_key-run,
}
use stac_proxy.Middleware.Auth.Jwks.Calls.{
  Call, Event, called, background, key_with_alg, background_refresh, requests,
}
use stac_proxy.Middleware.Auth.Jwks.Floods.{InOrder}

abbrev decode : String → Option Bytes
decode s = some (1 ∷ 0 ∷ 1 ∷ [])

abbrev jwk : String → String → Jwk
jwk kid purpose = record {
  kty = "RSA";
  kid = kid;
  use_ = purpose;
  alg = "RS256";
  n = "AQAB";
  e = "AQAB";
  crv = "";
  x = "";
  y = "";
}

abbrev config : ClientConfig
config = record {
  ttl = 100;
  hard_ttl = 1000;
  allow_insecure_http = false;
  min_refresh_interval = 30;
  negative_cache_ttl = 60;
}

abbrev client : JwksClient
client = record {
  ttl = 100;
  hard = 1000;
  min_refresh_interval = 30;
  neg_cache_ttl = 60;
  keys = [];
  soft_expiry = none;
  hard_expiry = none;
  bg_refresh = false;
  last_refresh_attempt = none;
  neg_kids = [];
}

client_made : new_jwks_client true config ≡ some client
unfolding new_jwks_client
client_made = refl

-- A key for signing, one for encryption under the same ID, and a refresh that fails.
abbrev sections : List Section
sections =
    begun 10
    ∷ ended 12 (some (jwk "a" "sig" ∷ jwk "a" "enc" ∷ []))
    ∷ kicked
    ∷ begun 200
    ∷ ended 201 none
    ∷ marked 205 "b"
    ∷ []

lookup_key-run_example :
    lookup_key 210 "a" (run decode sections client)
    ≡ answer_of decode client.ttl client.hard 210 "a" (latest none sections)
lookup_key-run_example = lookup_key-run decode true config client sections 210 "a" client_made

-- While the issuer does not answer the key is served as stale.
lookup_stale :
    lookup_key 210 "a" (run decode sections client)
    ≡ stale (record { key = rsa 65537 65537; alg = "RS256" })
unfolding lookup_key run keys_of lookup upsert
lookup_stale = refl

abbrev call : ℕ → String → Call
call now kid = record {
  now = now;
  started = now;
  done = now + 1;
  kid = kid;
  fetch = answered 200 (some (jwk "a" "" ∷ []));
}

-- A flood of unknown keys, one each ten units of time, with a refresh in the background that does
-- nothing because none was started.
abbrev flood : List Event
flood =
    called (call 110 "x")
    ∷ called (call 120 "y")
    ∷ background 125 126 unreachable
    ∷ called (call 130 "z")
    ∷ called (call 140 "u")
    ∷ []

abbrev times : InOrder 100 flood
times = (
  omega arith,
  omega arith,
  (
    omega arith,
    omega arith,
    (omega arith, (omega arith, omega arith, (omega arith, omega arith, tt))),
  ),
)

requests-flood : requests decode flood (begin_refresh 100 client) ≡ 1
unfolding requests begin_refresh lookup upsert
requests-flood = refl

-- A client with a stale key, whose issuer does not answer: of two calls one after the other each starts
-- a refresh in the background, although the interval is not over.
abbrev stale_client : JwksClient
stale_client = record client {
  keys = ("a", record { key = rsa 65537 65537; alg = "RS256" }) ∷ [];
  soft_expiry = some 50;
  hard_expiry = some 1000;
}

abbrev after_first : JwksClient
after_first =
    background_refresh decode 100 101 unreachable
      (key_with_alg decode (call 100 "a") stale_client).client

starts_refresh-twice :
    ((key_with_alg decode (call 100 "a") stale_client).starts_refresh ≡ true)
    × (after_first.last_refresh_attempt ≡ some 100)
    × ((key_with_alg decode (call 102 "a") after_first).starts_refresh ≡ true)
unfolding key_with_alg background_refresh lookup
starts_refresh-twice = (refl, refl, refl)
