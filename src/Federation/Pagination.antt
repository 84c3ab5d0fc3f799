-- ===== src/Federation/Pagination.antt =====
-- internal/federation/pagination.go: one page of a federated search. The searchers of the origins,
-- package time and the hash of a request are arguments.
pub mod Search
pub mod Stashes
pub mod Shares
pub mod Links
pub mod Conserve
pub mod Order
pub mod Failures
use stac_proxy.Common.{
  ℕ, ◌+◌, String, Bool, true, false, ◌&&◌, ◌||◌, not, Option, none, some, List, [], ◌∷◌, ◌++◌, map,
  ltb, leb, str_eq, if◌then◌else◌, lookup, modify, is_empty, length, take, drop, sort_by, str_ltb,
  keys,
}
use stac_proxy.Stac.Item.{Item, TimeFormat, item_datetime, item_origin_id}
use stac_proxy.Federation.Cursor.{
  Bytes, OriginCursor, FederatedCursor, OriginUpdate, is_retired, active_origins, mark_error,
  update_origin_state, get_origin_cursor,
}
use stac_proxy.Federation.Merger.{ItemSource, merge_items_first_wins}
use stac_proxy.Federation.Status.{FetchError, fetch_failed}

-- `query` stands for every parameter that is handed on unread. A negative limit takes the branches
-- of 0.
pub record SearchRequest : Type 0 where
  pub query : String
  pub limit : ℕ
  pub token : String
  pub override_url : String
  pub override_body : Bytes
  pub adapter_name : String

-- What `Searcher.Search` returns: with an error the other results are not looked at.
pub record FetchResult : Type 0 where
  pub items : List Item
  pub next_token : String
  pub next_url : String
  pub next_body : Bytes
  pub adapter_name : String
  pub error : Option FetchError

pub record Origin : Type 0 where
  pub base_url : String
  pub search : SearchRequest → FetchResult

pub record PaginatedSearcher : Type 0 where
  pub origins : List (String × Origin)
  pub page_size : ℕ
  pub max_page_size : ℕ

-- `if req.Limit > 0 && req.Limit <= s.maxPageSize`
unfoldable pub page_limit : PaginatedSearcher → SearchRequest → ℕ
page_limit s req =
    if ltb 0 req.limit && leb req.limit s.max_page_size then req.limit else s.page_size

-- The cursor state of one origin decides whether it is queried for this page.
wants_fetch : ℕ → Option OriginCursor → Bool
wants_fetch limit none = false
wants_fetch limit (some oc) = not oc.exhausted && not (is_retired oc) && ltb (length oc.stash) limit

unfoldable pub to_fetch : ℕ → FederatedCursor → List String → List String
unfolding wants_fetch
to_fetch limit cursor [] = []
to_fetch limit cursor (id ∷ ids) =
    if wants_fetch limit (get_origin_cursor id cursor)
    then id ∷ to_fetch limit cursor ids
    else to_fetch limit cursor ids

-- The request for one origin: the page limit, and the cursor's hints where it has any.
with_state : ℕ → SearchRequest → Option OriginCursor → SearchRequest
with_state limit req none = record req { limit = limit }
with_state limit req (some oc) = record req {
  limit = limit;
  token = if str_eq oc.next_token "" then req.token else oc.next_token;
  override_url = if str_eq oc.next_url "" then req.override_url else oc.next_url;
  override_body = if is_empty oc.next_body then req.override_body else oc.next_body;
  adapter_name = oc.adapter_name;
}

abbrev pub not_found : FetchResult
not_found = record {
  items = [];
  next_token = "";
  next_url = "";
  next_body = [];
  adapter_name = "";
  error = some fetch_failed;
}

ask : Option Origin → SearchRequest → FetchResult
ask none req = not_found
ask (some origin) req = origin.search req

-- `fanOut` returns the results in the order of its inputs.
unfoldable pub fetch_from_origins :
    PaginatedSearcher
    → SearchRequest
    → FederatedCursor
    → List String
    → ℕ
    → List (String × FetchResult)
unfolding with_state ask
fetch_from_origins s req cursor ids limit =
    map (λ id. (id, ask (lookup id s.origins) (with_state limit req (get_origin_cursor id cursor))))
      ids

unfoldable pub mark_if : String → Option FetchError → FederatedCursor → FederatedCursor
mark_if id none cursor = cursor
mark_if id (some e) cursor = mark_error id cursor

-- Phase 1: the failed origins are marked, and the other results kept by origin.
unfoldable pub mark_errors : List (String × FetchResult) → FederatedCursor → FederatedCursor
unfolding mark_if
mark_errors [] cursor = cursor
mark_errors ((id, r) ∷ rest) cursor = mark_errors rest (mark_if id r.error cursor)

succeeded : Option FetchError → Bool
succeeded none = true
succeeded (some e) = false

unfoldable pub fresh_by_origin : List (String × FetchResult) → List (String × FetchResult)
unfolding succeeded
fresh_by_origin [] = []
fresh_by_origin ((id, r) ∷ rest) =
    if succeeded r.error then (id, r) ∷ fresh_by_origin rest else fresh_by_origin rest

unfoldable pub stash_in : Option OriginCursor → List Item
stash_in none = []
stash_in (some oc) = oc.stash

unfoldable pub stash_of : String → FederatedCursor → List Item
unfolding stash_in
stash_of id cursor = stash_in (get_origin_cursor id cursor)

items_in : Option FetchResult → List Item
items_in none = []
items_in (some r) = r.items

unfoldable pub fresh_items : String → List (String × FetchResult) → List Item
unfolding items_in
fresh_items id fresh = items_in (lookup id fresh)

base_url_in : Option Origin → String
base_url_in none = ""
base_url_in (some o) = o.base_url

-- Phase 2: the stash of every active origin, and then what it just sent. (A source with no items
-- adds nothing, so the ones that the loop skips are kept here.)
unfoldable pub sources_of :
    PaginatedSearcher
    → FederatedCursor
    → List (String × FetchResult)
    → List String
    → List ItemSource
unfolding base_url_in
sources_of s cursor fresh [] = []
sources_of s cursor fresh (id ∷ ids) =
    record {
      origin_id = id;
      origin_url = base_url_in (lookup id s.origins);
      items = stash_of id cursor ++ fresh_items id fresh;
    }
    ∷ sources_of s cursor fresh ids

or_property : Option String → Option (Option String) → String
or_property (some t) p = t
or_property none (some (some s)) = s
or_property none (some none) = ""
or_property none none = ""

unfoldable pub get_datetime : TimeFormat → Item → String
unfolding or_property
get_datetime time_format item =
    or_property (item_datetime time_format item) (lookup "datetime" item.properties)

-- Newest first, then by ID.
unfoldable pub item_less : TimeFormat → Item → Item → Bool
item_less time_format a b =
    if str_eq (get_datetime time_format a) (get_datetime time_format b)
    then str_ltb a.id b.id
    else str_ltb (get_datetime time_format b) (get_datetime time_format a)

-- Phase 4: the items beyond the page that carry the link of one origin.
unfoldable pub stash_for : String → List Item → List Item
stash_for id [] = []
stash_for id (x ∷ xs) =
    if str_eq (item_origin_id x) id && not (str_eq (item_origin_id x) "")
    then x ∷ stash_for id xs
    else stash_for id xs

last_property : Option String → Option (Option String) → Option String
last_property (some t) p = some t
last_property none (some v) = v
last_property none none = none

unfoldable pub last_sort : TimeFormat → List Item → Option String
unfolding last_property
last_sort time_format [] = none
last_sort time_format (x ∷ []) =
    last_property (item_datetime time_format x) (lookup "datetime" x.properties)
last_sort time_format (x ∷ y ∷ ys) = last_sort time_format (y ∷ ys)

unfoldable pub update_of : TimeFormat → FetchResult → OriginUpdate
update_of time_format r = record {
  item_count = length r.items;
  next_token = r.next_token;
  next_url = r.next_url;
  next_body = r.next_body;
  offset = 0;
  adapter_name = r.adapter_name;
  last_sort_value = last_sort time_format r.items;
}

unfoldable pub advance :
    TimeFormat → String → Option FetchResult → FederatedCursor → FederatedCursor
advance time_format id none cursor = cursor
advance time_format id (some r) cursor = update_origin_state id (update_of time_format r) cursor

-- Phase 5 for one origin: its next-page state if it was fetched, and its new stash.
unfoldable pub settle :
    TimeFormat
    → List (String × FetchResult)
    → List Item
    → String
    → FederatedCursor
    → FederatedCursor
settle time_format fresh remainder id cursor =
    let c = advance time_format id (lookup id fresh) cursor in
    record c { origins = modify id (λ o. record o { stash = stash_for id remainder }) c.origins }

unfoldable pub settle_all :
    TimeFormat
    → List (String × FetchResult)
    → List Item
    → List String
    → FederatedCursor
    → FederatedCursor
settle_all time_format fresh remainder [] cursor = cursor
settle_all time_format fresh remainder (id ∷ ids) cursor =
    settle_all time_format fresh remainder ids (settle time_format fresh remainder id cursor)

-- The sorted list of all that is at hand, after phases 1 to 3.
unfoldable pub merged_items :
    TimeFormat → PaginatedSearcher → List (String × FetchResult) → FederatedCursor → List Item
merged_items time_format s results cursor =
    sort_by (item_less time_format) (
      merge_items_first_wins
        (sources_of s cursor (fresh_by_origin results) (active_origins cursor)))

-- The page, and the cursor after it.
unfoldable pub merge_results :
    TimeFormat
    → PaginatedSearcher
    → List (String × FetchResult)
    → FederatedCursor
    → ℕ
    → List Item × FederatedCursor
merge_results time_format s results cursor limit =
    let marked = mark_errors results cursor in
    let merged = merged_items time_format s results marked in
    (
      take limit merged,
      settle_all time_format (fresh_by_origin results) (drop limit merged) (active_origins marked)
          marked,
    )
