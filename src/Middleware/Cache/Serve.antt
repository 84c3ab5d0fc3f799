-- ===== src/Middleware/Cache/Serve.antt =====
-- internal/middleware/cache/middleware.go (NewHTTPMiddleware) and memory.go: one request through the
-- cache in front of a memory store.
use stac_proxy.Common.{ℕ, ◌+◌, String, not, Option, none, some, ltb, ◌==◌, str_eq, if◌then◌else◌}
use stac_proxy.Middleware.Authz.{has_constraints}
use stac_proxy.Httpx.Headers.{get_header}
use stac_proxy.Middleware.Cache.{
  Bytes, CacheableRequest, CacheEntry, Stored, Library, Config, Incoming, Response, or_raw,
  principal_class, should_cache, join, lifetime, listed, with_status_header, entry_of,
  cached_response,
}

module _ {C : Type 0} (lib : Library C) where
  unfoldable pub still_alive : ℕ → String → Option Stored × C → Option Bytes × C
  still_alive now key (none, c) = (none, c)
  still_alive now key (some e, c) =
      if ltb e.expires_at now then (none, lib.lru.remove key c) else (some e.value, c)

  -- `MemoryStore.Get`: an entry past its time is removed and is a miss.
  unfoldable pub memory_get : ℕ → String → C → Option Bytes × C
  unfolding still_alive
  memory_get now key c = still_alive now key (lib.lru.get key c)

  -- `MemoryStore.Set`
  unfoldable pub memory_set : ℕ → String → Bytes → ℕ → C → C
  memory_set now key value ttl c =
      lib.lru.add key (record { value = value; expires_at = now + ttl }) c

  unfoldable pub normalize_query : String → String
  unfolding or_raw
  normalize_query raw = if str_eq raw "" then "" else or_raw raw (lib.parse_query raw)

  unfoldable pub request_of : Incoming → CacheableRequest
  request_of r = record {
    method = r.method;
    path = r.path;
    query = normalize_query r.raw_query;
    request_type = r.request_type;
    collection = r.collection;
    principal_class = principal_class r.principal;
  }

  unfoldable pub cache_key : CacheableRequest → String
  cache_key req = lib.digest (join req.principal_class (join req.method (join req.path req.query)))

  unfoldable pub stored_as : ℕ → String → ℕ → Option Bytes → C → C
  stored_as now key ttl none c = c
  stored_as now key ttl (some envelope) c = memory_set now key envelope ttl c

  -- What a miss leaves in the store: nothing for a status that is not listed, a response that declines
  -- to be stored, or a lifetime of zero.
  unfoldable pub store_response : Config → ℕ → CacheableRequest → Response → C → C
  unfolding stored_as
  store_response cfg now req resp c =
      if not (listed resp.status cfg.cacheable_statuses)
      then c
      else (if lib.says_no_store (get_header "Cache-Control" resp.headers)
          then c
          else (if lifetime cfg req resp.status == 0
              then c
              else stored_as now (cache_key req) (lifetime cfg req resp.status)
                  (lib.marshal (entry_of resp)) c))

  unfoldable pub decoded : Option Bytes → Option CacheEntry
  decoded none = none
  decoded (some bytes) = lib.unmarshal bytes

  unfoldable pub answer :
      Config → ℕ → CacheableRequest → Response → Option CacheEntry → C → Response × C
  answer cfg now req resp (some e) c = (cached_response e, c)
  answer cfg now req resp none c =
      (with_status_header "MISS" resp, store_response cfg now req resp c)

  unfoldable pub through_cache : Config → ℕ → CacheableRequest → Response → C → Response × C
  unfolding decoded answer
  through_cache cfg now req resp c =
      answer cfg now req resp (decoded (memory_get now (cache_key req) c).0)
        (memory_get now (cache_key req) c).1

  -- One request at a time, with the response that the inner handler gives when it is called.
  unfoldable pub serve : Config → ℕ → Incoming → Response → C → Response × C
  serve cfg now r resp c =
      if not r.has_info
      then (resp, c)
      else (if has_constraints r.decision
          then (resp, c)
          else (if not (should_cache (request_of r))
              then (resp, c)
              else through_cache cfg now (request_of r) resp c))
