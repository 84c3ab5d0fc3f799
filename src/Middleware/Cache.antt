-- ===== src/Middleware/Cache.antt =====
-- internal/middleware/cache: the response cache. The LRU cache of golang-lru, package json, the query
-- parser, strings.ToLower with Contains and the digest are arguments.
pub mod Serve
pub mod Isolation
pub mod Partial
use Prim.Native.String.{◌++◌ as str_append}
use stac_proxy.Common.{
  ℕ, ◌+◌, String, Bool, true, false, ◌&&◌, ◌||◌, not, Option, none, some, List, [], ◌∷◌, ◌++◌, ltb,
  leb, ◌==◌, str_eq, if◌then◌else◌,
}
use stac_proxy.Httpx.Headers.{Header, set_header}
use stac_proxy.Middleware.Authz.{AuthzDecision, has_constraints}

abbrev pub Bytes : Type 0
Bytes = List ℕ

pub record Principal : Type 0 where
  pub id : String
  pub type_ : String

pub record CacheableRequest : Type 0 where
  pub method : String
  pub path : String
  pub query : String
  pub request_type : String
  pub collection : String
  pub principal_class : String

pub record CacheEntry : Type 0 where
  pub status : ℕ
  pub headers : Header
  pub body : Bytes

-- `entry` of the memory store.
pub record Stored : Type 0 where
  pub value : Bytes
  pub expires_at : ℕ

-- The operations of lru.Cache, with the cache after each.
pub record Lru (C : Type 0) : Type 0 where
  pub new : C
  pub get : String → C → Option Stored × C
  pub add : String → Stored → C → C
  pub remove : String → C → C

-- `url.ParseQuery(raw)` with `Encode`, SHA-256 with its hex digits, JSON, and the search of
-- "no-store" in a header's value.
pub record Library (C : Type 0) : Type 0 where
  pub lru : Lru C
  pub parse_query : String → Option String
  pub digest : String → String
  pub marshal : CacheEntry → Option Bytes
  pub unmarshal : Bytes → Option CacheEntry
  pub says_no_store : String → Bool

pub record Config : Type 0 where
  pub collection_ttl : ℕ
  pub item_ttl : ℕ
  pub search_ttl : ℕ
  pub cacheable_statuses : List ℕ
  pub negative_ttl : ℕ

unfoldable pub or_raw : String → Option String → String
or_raw raw (some q) = q
or_raw raw none = raw

unfoldable pub principal_class : Option Principal → String
principal_class none = "anonymous"
principal_class (some p) =
    if str_eq p.type_ "anonymous"
    then "anonymous"
    else (if str_eq p.id "" then "principal:_unknown" else str_append "principal:" p.id)

unfoldable pub should_cache : CacheableRequest → Bool
should_cache req = str_eq req.method "GET" && not (str_eq req.request_type "asset")

-- The separator is the character NUL.
abbrev pub nul : String
nul = "\0"

abbrev pub join : String → String → String
join s t = str_append s (str_append nul t)

unfoldable pub ttl_of : Config → CacheableRequest → ℕ → ℕ
ttl_of cfg req status =
    if ltb status 200 || leb 400 status
    then 0
    else (if str_eq req.request_type "collection" || str_eq req.request_type "collections"
        then cfg.collection_ttl
        else (if str_eq req.request_type "search" then cfg.search_ttl else cfg.item_ttl))

-- The lifetime that the middleware gives to a response.
unfoldable pub lifetime : Config → CacheableRequest → ℕ → ℕ
lifetime cfg req status =
    if leb 400 status && ltb status 500 then cfg.negative_ttl else ttl_of cfg req status

unfoldable pub listed : ℕ → List ℕ → Bool
listed s [] = false
listed s (x ∷ xs) = if x == s then true else listed s xs

cacheable_header : String → Bool
cacheable_header name =
    str_eq name "Content-Type"
    || (str_eq name "Content-Encoding"
        || (str_eq name "Content-Language"
            || (str_eq name "Etag"
                || (str_eq name "Last-Modified"
                    || (str_eq name "Cache-Control"
                        || (str_eq name "Expires"
                            || (str_eq name "Vary" || str_eq name "X-Cache-Status")))))))

unfoldable pub filter_cacheable_headers : Header → Header
unfolding cacheable_header
filter_cacheable_headers [] = []
filter_cacheable_headers ((name, v) ∷ hs) =
    if cacheable_header name
    then (name, v) ∷ filter_cacheable_headers hs
    else filter_cacheable_headers hs

-- A request as it reaches the middleware: what the router and the authorization left in its context.
pub record Incoming : Type 0 where
  pub has_info : Bool
  pub decision : Option AuthzDecision
  pub method : String
  pub path : String
  pub raw_query : String
  pub request_type : String
  pub collection : String
  pub principal : Option Principal

-- The inner handler's response as it was captured.
pub record Response : Type 0 where
  pub status : ℕ
  pub headers : Header
  pub body : Bytes

unfoldable pub with_status_header : String → Response → Response
unfolding set_header
with_status_header v r = record r { headers = set_header "X-Cache-Status" v r.headers }

unfoldable pub entry_of : Response → CacheEntry
entry_of r = record {
  status = r.status;
  headers = filter_cacheable_headers r.headers;
  body = r.body;
}

unfoldable pub cached_response : CacheEntry → Response
cached_response e = with_status_header "HIT" (record {
  status = if e.status == 0 then 200 else e.status;
  headers = e.headers;
  body = e.body;
})
