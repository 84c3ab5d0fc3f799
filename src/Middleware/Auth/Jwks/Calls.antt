-- ===== src/Middleware/Auth/Jwks/Calls.antt =====
-- internal/middleware/auth/jwks.go (KeyWithAlg): a call as a whole. A refresh in the background is an
-- event of its own, at any time after the call that started it.
use stac_proxy.Common.{
  ℕ, ◌+◌, String, Bool, true, false, not, Option, none, some, List, [], ◌∷◌, if◌then◌else◌,
}
use stac_proxy.Middleware.Auth.Jwks.{
  Bytes, Jwk, CachedKey, JwksClient, Fetch, document, Lookup, miss, fresh, stale, lookup_key,
  should_short_circuit, mark_negative, kick_background_refresh, begin_refresh, swap_keys,
  end_refresh, finish_background_refresh,
}

-- The time of the call, of its request to the issuer, and of the answer, if there is a request.
pub record Call : Type 0 where
  pub now : ℕ
  pub started : ℕ
  pub done : ℕ
  pub kid : String
  pub fetch : Fetch

-- A call, or the refresh in the background with the times of its request and its answer.
pub data Event : Type 0 where
  called : Call → Event
  background : ℕ → ℕ → Fetch → Event

pub data KeyAnswer : Type 0 where
  served : CachedKey → KeyAnswer
  negative_cached fetch_failed not_present : KeyAnswer

-- An answer, whether the call asked the issuer for it and waited, whether it started a refresh in the
-- background, and the client after it.
pub record KeyOutcome : Type 0 where
  pub answer : KeyAnswer
  pub fetched : Bool
  pub starts_refresh : Bool
  pub client : JwksClient

unfoldable pub after_swap : ℕ → String → JwksClient → Lookup → KeyOutcome
unfolding mark_negative
after_swap done kid c miss = record {
  answer = not_present;
  fetched = true;
  starts_refresh = false;
  client = mark_negative done kid c;
}
after_swap done kid c (fresh k) = record {
  answer = served k;
  fetched = true;
  starts_refresh = false;
  client = c;
}
after_swap done kid c (stale k) = record {
  answer = served k;
  fetched = true;
  starts_refresh = false;
  client = c;
}

module _ (decode : String → Option Bytes) where
  unfoldable pub after_fetch : ℕ → String → JwksClient → Option (List Jwk) → KeyOutcome
  unfolding after_swap swap_keys lookup_key
  after_fetch done kid c none = record {
    answer = fetch_failed;
    fetched = true;
    starts_refresh = false;
    client = c;
  }
  after_fetch done kid c (some js) =
      after_swap done kid (swap_keys decode done js c)
        (lookup_key done kid (swap_keys decode done js c))

  unfoldable pub on_lookup : Call → JwksClient → Lookup → KeyOutcome
  unfolding after_fetch document begin_refresh should_short_circuit kick_background_refresh
  on_lookup call c (fresh k) = record {
    answer = served k;
    fetched = false;
    starts_refresh = false;
    client = c;
  }
  on_lookup call c (stale k) = record {
    answer = served k;
    fetched = false;
    starts_refresh = not c.bg_refresh;
    client = kick_background_refresh c;
  }
  on_lookup call c miss =
      if should_short_circuit call.now call.kid c
      then record { answer = negative_cached; fetched = false; starts_refresh = false; client = c }
      else after_fetch call.done call.kid (begin_refresh call.started c) (document call.fetch)

  unfoldable pub key_with_alg : Call → JwksClient → KeyOutcome
  unfolding on_lookup lookup_key
  key_with_alg call c = on_lookup call c (lookup_key call.now call.kid c)

  -- The refresh that a call with a stale key started, if there is one.
  unfoldable pub background_refresh : ℕ → ℕ → Fetch → JwksClient → JwksClient
  unfolding begin_refresh end_refresh swap_keys finish_background_refresh document
  background_refresh started done fetch c =
      if c.bg_refresh
      then finish_background_refresh
          (end_refresh decode done (document fetch) (begin_refresh started c))
      else c

  -- One event after the other: the client after them, and how many calls asked the issuer and waited.
  unfoldable pub run_events : List Event → JwksClient → JwksClient
  unfolding key_with_alg background_refresh
  run_events [] c = c
  run_events (called call ∷ es) c = run_events es (key_with_alg call c).client
  run_events (background started done fetch ∷ es) c =
      run_events es (background_refresh started done fetch c)

  unfoldable pub requests : List Event → JwksClient → ℕ
  unfolding key_with_alg background_refresh
  requests [] c = 0
  requests (called call ∷ es) c =
      (if (key_with_alg call c).fetched then 1 else 0) + requests es (key_with_alg call c).client
  requests (background started done fetch ∷ es) c =
      requests es (background_refresh started done fetch c)
