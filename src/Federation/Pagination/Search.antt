-- ===== src/Federation/Pagination/Search.antt =====
-- internal/federation/pagination.go (Search, putToPageCache): a page from the client's token to the
-- next token. The page cache answers through `cached`, what its Get returned for the token.
use stac_proxy.Common.{
  ℕ, ◌+◌, String, Bool, false, ◌&&◌, not, Option, none, some, List, [], ◌∷◌, map, ltb, ◌==◌, str_eq,
  if◌then◌else◌, lookup, is_empty, length, sort_by, str_ltb, keys,
}
use stac_proxy.Stac.Item.{Item, TimeFormat}
use stac_proxy.Federation.Cursor.{
  Bytes, OriginCursor, FederatedCursor, new_federated_cursor, active_origins, has_more, clone,
}
use stac_proxy.Federation.Cursor.Codec.{
  Codec, Result, ok, err, invalid, ◌>>=◌, ◌>>◌, require, encode, decode_cursor, split_dots,
}
use stac_proxy.Federation.Pagination.{
  SearchRequest, FetchResult, Origin, PaginatedSearcher, page_limit, to_fetch, fetch_from_origins,
  merge_results,
}
use stac_proxy.Federation.Status.{
  FetchError, OriginStatus, classify_origin_error, failed_from_statuses,
}

pub record SearchContext : Type 0 where
  pub returned : ℕ
  pub limit : ℕ
  pub origins : List OriginStatus

-- An empty token stands for the missing link.
pub record SearchResult : Type 0 where
  pub items : List Item
  pub total_count : ℕ
  pub next_cursor : Bytes
  pub prev_cursor : Bytes
  pub first_cursor : Bytes
  pub self_cursor : Bytes
  pub context : SearchContext

-- A result, and whether `putToPageCache` hands it to the cache.
pub record Page : Type 0 where
  pub result : SearchResult
  pub stored : Bool

-- What the process is configured with: the secret, the codec, the clock, the hash of a request,
-- the time layouts, and whether there is a page cache.
pub record Env : Type 0 where
  pub codec : Codec
  pub secret : Bytes
  pub now : ℕ
  pub hash : SearchRequest → String
  pub time_format : TimeFormat
  pub page_cache : Bool

-- `DefaultTTL`: one hour, in seconds.
abbrev pub default_ttl : ℕ
default_ttl = 3600

-- The page's cursor, as the token of the next page carries it.
unfoldable pub next_cursor_of : Bytes → FederatedCursor → FederatedCursor
next_cursor_of token cursor = record (clone cursor) {
  prev_cursor = token;
  first_cursor = if cursor.page_seq == 0 then token else cursor.first_cursor;
  page_seq = cursor.page_seq + 1;
}

or_empty : Result Bytes → Bytes
or_empty (ok token) = token
or_empty (err e) = []

unfoldable pub next_token_of : Env → Bytes → FederatedCursor → Bytes
unfolding or_empty
next_token_of env token cursor =
    if has_more cursor
    then or_empty (encode env.codec env.secret (next_cursor_of token cursor))
    else []

kind_of : Option (Option FetchError) → String
kind_of (some (some e)) = classify_origin_error e
kind_of (some none) = "fetch_failed"
kind_of none = "fetch_failed"

error_in : List (String × FetchResult) → String → Option (Option FetchError)
error_in results id = elim (lookup id results) [ none ↦ none | some r ↦ some r.error ]

unfoldable pub status_of : List (String × FetchResult) → String × OriginCursor → OriginStatus
unfolding kind_of error_in
status_of results (id, o) = record {
  id = id;
  matched = 0;
  returned = o.item_count;
  exhausted = o.exhausted;
  error = if o.error then kind_of (error_in results id) else "";
}

status_less : OriginStatus → OriginStatus → Bool
status_less a b = str_ltb a.id b.id

-- The second half of a token: what follows its last dot, if a dot is there.
last_part : List Bytes → Bytes
last_part [] = []
last_part (p ∷ []) = p
last_part (p ∷ q ∷ ps) = last_part (q ∷ ps)

after_dot : List Bytes → Bytes
after_dot [] = []
after_dot (p ∷ []) = []
after_dot (p ∷ q ∷ ps) = last_part (q ∷ ps)

unfoldable pub signature_of : Bytes → Bytes
unfolding last_part after_dot
signature_of token = after_dot (split_dots token)

-- The guards of the put: a token, no failed origin, a cache, a signature, and time left.
unfoldable pub is_stored : Env → Bytes → FederatedCursor → List OriginStatus → Bool
is_stored env token cursor statuses =
    not (is_empty token)
    && is_empty (failed_from_statuses statuses)
    && (env.page_cache && not (is_empty (signature_of token)) && ltb env.now cursor.expires_at)

-- Search after the fetches: merge, count, chain the tokens, report the origins.
unfoldable pub finish_page :
    Env → PaginatedSearcher → Bytes → ℕ → List (String × FetchResult) → FederatedCursor → Page
unfolding status_less
finish_page env s token limit results cursor =
    let (items, c) = merge_results env.time_format s results cursor limit in
    let c' : FederatedCursor = record c { total_returned = c.total_returned + length items } in
    let statuses = sort_by status_less (map (status_of results) c'.origins) in
    record {
      result = record {
        items = items;
        total_count = c'.total_returned;
        next_cursor = next_token_of env token c';
        prev_cursor = c'.prev_cursor;
        first_cursor = c'.first_cursor;
        self_cursor = token;
        context = record { returned = length items; limit = limit; origins = statuses };
      };
      stored = is_stored env token c' statuses;
    }

abbrev pub empty_page : ℕ → Page
empty_page limit = record {
  result = record {
    items = [];
    total_count = 0;
    next_cursor = [];
    prev_cursor = [];
    first_cursor = [];
    self_cursor = [];
    context = record { returned = 0; limit = limit; origins = [] };
  };
  stored = false;
}

-- Search from the cursor on: nothing to do, or fetch and merge.
unfoldable pub run_page : Env → PaginatedSearcher → SearchRequest → Bytes → FederatedCursor → Page
unfolding finish_page
run_page env s req token cursor =
    let limit = page_limit s req in
    let active = active_origins cursor in
    if is_empty active
    then empty_page limit
    else finish_page env s token limit
        (fetch_from_origins s req cursor (to_fetch limit cursor active) limit) cursor

allowed_urls : List (String × Origin) → List (String × String)
allowed_urls [] = []
allowed_urls ((id, o) ∷ rest) = (id, o.base_url) ∷ allowed_urls rest

from_cache :
    Env → PaginatedSearcher → SearchRequest → Bytes → FederatedCursor → Option SearchResult → Page
from_cache env s req token cursor (some r) = record { result = r; stored = false }
from_cache env s req token cursor none = run_page env s req token cursor

-- `Search(ctx, req, cursorStr)` for the principal whose hash is given.
unfoldable pub search :
    Env → PaginatedSearcher → SearchRequest → String → Option SearchResult → Bytes → Result Page
unfolding allowed_urls from_cache
search env s req principal_hash cached [] = ok (
    run_page env s req []
      (new_federated_cursor env.now (env.hash req) principal_hash (keys s.origins) default_ttl))
search env s req principal_hash cached (b ∷ bs) = do
  cursor ←
      decode_cursor env.codec env.secret env.now (allowed_urls s.origins) principal_hash (b ∷ bs)
  require (str_eq cursor.query_hash (env.hash req)) invalid
  ok (from_cache env s req (b ∷ bs) cursor cached)
