-- ===== src/Tests/Caching.antt =====
-- A run of internal/middleware/cache.
use stac_proxy.Common.{
  ℕ, ◌≡◌, refl, sym, ◌⊎◌, inl, inr, String, true, false, Option, none, some, List, [], ◌∷◌, lookup,
  str_eq, str_eq_iff, if◌then◌else◌, arith, is_empty, Bool-cases,
}
use stac_proxy.Stac.Cql2.{object, no_field}
use stac_proxy.Middleware.Authz.{has_constraints}
use stac_proxy.Httpx.Headers.{get_header}
use stac_proxy.Middleware.Cache.{
  listed, lifetime, ttl_of, filter_cacheable_headers, principal_class, should_cache, Bytes,
  Principal, CacheEntry, Stored, Lru, Library, Config, Incoming, Response, entry_of,
  cached_response,
}
use stac_proxy.Middleware.Cache.Serve.{
  through_cache, memory_get, memory_set, still_alive, decoded, answer, store_response, stored_as,
  normalize_query, serve, request_of, cache_key,
}
use stac_proxy.Federation.Status.{mark_partial}
use stac_proxy.Middleware.Cache.Partial.{serve-mark_partial}
use stac_proxy.Middleware.Cache.Isolation.{IsLru, Call, Survives, IsAnswer, after, after-IsAnswer}

abbrev Entries : Type 0
Entries = List (String × Stored)

drop_key : String → Entries → Entries
drop_key k [] = []
drop_key k ((j, e) ∷ m) = if str_eq j k then drop_key k m else (j, e) ∷ drop_key k m

-- An entry of the key stands in the list.
abbrev Stands : Entries → String → Stored → Type 0
Stands [] k e = ⊥
Stands ((j, d) ∷ m) k e = ((k ≡ j) × (e ≡ d)) ⊎ Stands m k e

-- A cache that never evicts.
abbrev lru : Lru Entries
lru = record {
  new = [];
  get = λ k m. (lookup k m, m);
  add = λ k e m. (k, e) ∷ m;
  remove = drop_key;
}

lookup-Stands : (k : String) (m : Entries) (e : Stored) → lookup k m ≡ some e → Stands m k e
unfolding lookup
lookup-Stands k [] e h = absurd (ground arith)
lookup-Stands k ((j, d) ∷ m) e h = elim (Bool-cases (str_eq j k)) [
  | inl here ↦ inl (sym ((str_eq_iff j k).0 here), ground arith)
  | inr away ↦ inr (lookup-Stands k m e (rw (lookup, away) at h))
]

drop_key-Stands :
    (k : String) (m : Entries) (q : String) (e : Stored) → Stands (drop_key k m) q e → Stands m q e
unfolding drop_key
drop_key-Stands k [] q e h = h
drop_key-Stands k ((j, d) ∷ m) q e h = elim (Bool-cases (str_eq j k)) [
  | inl here ↦ inr (drop_key-Stands k m q e (rw (drop_key, here) at h))
  | inr away ↦ elim (rw (drop_key, away, Stands) at h) [
    | inl same ↦ inl same
    | inr rest ↦ inr (drop_key-Stands k m q e rest)
  ]
]

lru-IsLru : IsLru lru
lru-IsLru = record {
  Held = Stands;
  new-Held = λ k e h. h;
  get-found = lookup-Stands;
  get-Held = λ k c q e h. h;
  add-Held = λ k d c q e h. h;
  remove-Held = drop_key-Stands;
}

read_entry : Bytes → Option CacheEntry
read_entry [] = none
read_entry (s ∷ body) = some (record { status = s; headers = []; body = body })

-- Responses without headers are encoded by their status and body.
abbrev library : Library Entries
library = record {
  lru = lru;
  parse_query = λ raw. some raw;
  digest = λ s. s;
  marshal = λ e. if is_empty e.headers then some (e.status ∷ e.body) else none;
  unmarshal = read_entry;
  says_no_store = λ v. str_eq v "no-store";
}

read_entry-fields :
    (s : ℕ) (hs : List (String × String)) (b v : Bytes)
    → library.marshal (record { status = s; headers = hs; body = b }) ≡ some v
    → read_entry v ≡ some (record { status = s; headers = hs; body = b })
unfolding read_entry
read_entry-fields s [] b v h = let shape : v ≡ s ∷ b = ground arith in rw shape refl
read_entry-fields s (x ∷ hs) b v h = absurd (ground arith)

abbrev config : Config
config = record {
  collection_ttl = 300;
  item_ttl = 60;
  search_ttl = 30;
  cacheable_statuses = 200 ∷ 404 ∷ [];
  negative_ttl = 300;
}

library-Survives : Survives library lru-IsLru config
library-Survives e v h = read_entry-fields e.status e.headers e.body v h

abbrev asks : Option Principal → Incoming
asks p = record {
  has_info = true;
  decision = none;
  method = "GET";
  path = "/search";
  raw_query = "limit=1";
  request_type = "search";
  collection = "";
  principal = p;
}

abbrev plain : Bytes → Response
plain b = record { status = 200; headers = []; body = b }

abbrev asked : List Call
asked = record { now = 100; request = asks none; response = plain (1 ∷ []) } ∷ []

after-IsAnswer_example :
    IsAnswer library lru-IsLru config asked 120
      (asks none)
      (plain (2 ∷ []))
      (serve library config 120
        (asks none)
        (plain (2 ∷ []))
        (after library lru-IsLru config asked)).0
after-IsAnswer_example =
    after-IsAnswer library lru-IsLru config asked 120 (asks none) (plain (2 ∷ [])) library-Survives

-- The second request within the lifetime gets the first one's bytes.
asked-hit :
    (serve library config 120 (asks none) (plain (2 ∷ [])) (after library lru-IsLru config asked)).0
    ≡ cached_response (entry_of (plain (1 ∷ [])))
unfolding after serve through_cache memory_get memory_set still_alive decoded answer store_response
    stored_as listed lifetime ttl_of get_header entry_of filter_cacheable_headers cache_key
    request_of normalize_query principal_class should_cache has_constraints lookup read_entry
asked-hit = refl

-- A principal without an ID shares its class with the principal of the ID "_unknown".
principal_class-shared :
    principal_class (some (record { id = ""; type_ = "user" }))
    ≡ principal_class (some (record { id = "_unknown"; type_ = "user" }))
unfolding principal_class
principal_class-shared = refl

-- A geofence that only denies an area counts as no constraint.
denied_only-free :
    has_constraints (
      some (record {
        allowed = true;
        reasons = [];
        constraints = some (record {
          allowed_collections = [];
          denied_collections = [];
          geofence = some (record {
            allowed_area = none;
            denied_area = some (object no_field);
            filter_mode = true;
            geometry_property = "";
          });
          max_results = 0;
          required_filters = [];
          cql2_filter = "";
          cql2_filter_json = none;
          geofence_pushed_down = false;
        });
        final = false;
      }))
    ≡ false
unfolding has_constraints
denied_only-free = refl

abbrev partial : Response
partial = record (plain (1 ∷ [])) { headers = mark_partial ("a" ∷ []) [] }

serve-mark_partial_example :
    ((serve library config 100 (asks none) partial []).1 ≡ [])
    ⊎ ((serve library config 100 (asks none) partial []).1
        ≡ (memory_get library 100 (cache_key library (request_of library (asks none))) []).1)
serve-mark_partial_example =
    serve-mark_partial library config 100 (asks none) (plain (1 ∷ [])) "a" [] [] refl
