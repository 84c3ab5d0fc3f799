-- ===== src/Federation/Cursor.antt =====
-- internal/federation/cursor.go: the state of a federated search from one page to the next. A
-- token, a signature and a request body are lists of bytes.
pub mod Codec
pub mod Tokens
pub mod Sessions
use stac_proxy.Common.{
  ℕ, ◌+◌, ◌<◌, String, Bool, true, false, ◌&&◌, ◌||◌, not, Option, none, some, List, [], ◌∷◌, map,
  leb, ltb, ◌==◌, str_eq, if◌then◌else◌, lookup, is_empty, modify, upsert, sort_by, str_ltb,
}
use stac_proxy.Stac.Item.{Item}

abbrev pub Bytes : Type 0
Bytes = List ℕ

pub record OriginCursor : Type 0 where
  pub id : String
  pub next_token : String
  pub next_url : String
  pub next_body : Bytes
  pub offset : ℕ
  pub adapter_name : String
  pub exhausted : Bool
  pub error : Bool
  pub error_count : ℕ
  pub item_count : ℕ
  pub last_sort_value : Option String
  pub stash : List Item

pub record FederatedCursor : Type 0 where
  pub version : ℕ
  pub query_hash : String
  pub principal_hash : String
  pub origins : List (String × OriginCursor)
  pub total_returned : ℕ
  pub created_at : ℕ
  pub expires_at : ℕ
  pub last_sort_values : List String
  pub prev_cursor : Bytes
  pub first_cursor : Bytes
  pub page_seq : ℕ

unfoldable pub new_origin_cursor : String → OriginCursor
new_origin_cursor id = record {
  id = id;
  next_token = "";
  next_url = "";
  next_body = [];
  offset = 0;
  adapter_name = "";
  exhausted = false;
  error = false;
  error_count = 0;
  item_count = 0;
  last_sort_value = none;
  stash = [];
}

-- `originIDs` are the keys of a map, so they are distinct. `ttl` is `cfg.DefaultTTL` in seconds.
unfoldable pub new_federated_cursor : ℕ → String → String → List String → ℕ → FederatedCursor
unfolding new_origin_cursor
new_federated_cursor now query_hash principal_hash origin_ids ttl = record {
  version = 2;
  query_hash = query_hash;
  principal_hash = principal_hash;
  origins = map (λ id. (id, new_origin_cursor id)) origin_ids;
  total_returned = 0;
  created_at = now;
  expires_at = now + ttl;
  last_sort_values = [];
  prev_cursor = [];
  first_cursor = [];
  page_seq = 0;
}

abbrev pub max_origin_error_retries : ℕ
max_origin_error_retries = 3

unfoldable pub is_retired : OriginCursor → Bool
is_retired o = o.error && leb max_origin_error_retries o.error_count

unfoldable pub origin_has_more : OriginCursor → Bool
unfolding is_retired
origin_has_more o = not (is_empty o.stash) || (not (is_retired o) && not o.exhausted)

unfoldable pub any_has_more : List (String × OriginCursor) → Bool
any_has_more [] = false
any_has_more ((id, o) ∷ rest) = if origin_has_more o then true else any_has_more rest

unfoldable pub has_more : FederatedCursor → Bool
unfolding any_has_more
has_more c = any_has_more c.origins

unfoldable pub active_of : List (String × OriginCursor) → List String
active_of [] = []
active_of ((id, o) ∷ rest) = if origin_has_more o then id ∷ active_of rest else active_of rest

unfoldable pub active_origins : FederatedCursor → List String
unfolding active_of
active_origins c = sort_by str_ltb (active_of c.origins)

unfoldable pub mark_exhausted : String → FederatedCursor → FederatedCursor
mark_exhausted id c = record c {
  origins =
      modify id (λ o. record o { exhausted = true; next_token = ""; next_url = ""; next_body = [] })
        c.origins;
}

unfoldable pub fail_origin : OriginCursor → OriginCursor
fail_origin o = record o { error = true; error_count = o.error_count + 1 }

unfoldable pub mark_error : String → FederatedCursor → FederatedCursor
unfolding fail_origin
mark_error id c = record c { origins = modify id fail_origin c.origins }

pub record OriginUpdate : Type 0 where
  pub item_count : ℕ
  pub next_token : String
  pub next_url : String
  pub next_body : Bytes
  pub offset : ℕ
  pub adapter_name : String
  pub last_sort_value : Option String

-- No next token, URL, offset or body: the origin has no further page.
unfoldable pub is_last : OriginUpdate → Bool
is_last u = str_eq u.next_token "" && str_eq u.next_url "" && u.offset == 0 && is_empty u.next_body

unfoldable pub apply_update : OriginUpdate → OriginCursor → OriginCursor
unfolding is_last
apply_update u o = record o {
  item_count = o.item_count + u.item_count;
  next_token = u.next_token;
  next_url = u.next_url;
  next_body = u.next_body;
  offset = u.offset;
  last_sort_value = u.last_sort_value;
  error = false;
  error_count = 0;
  adapter_name = if str_eq u.adapter_name "" then o.adapter_name else u.adapter_name;
  exhausted = if is_last u then true else o.exhausted;
}

unfoldable pub update_origin_state : String → OriginUpdate → FederatedCursor → FederatedCursor
unfolding apply_update new_origin_cursor
update_origin_state id u c = record c {
  origins = upsert id (new_origin_cursor id) (apply_update u) c.origins;
}

-- `UpdateOrigin`: the token-style form.
unfoldable pub update_origin :
    String → ℕ → String → String → Option String → FederatedCursor → FederatedCursor
unfolding update_origin_state
update_origin id item_count next_token next_url last_sort_value = update_origin_state id (record {
  item_count = item_count;
  next_token = next_token;
  next_url = next_url;
  next_body = [];
  offset = 0;
  adapter_name = "";
  last_sort_value = last_sort_value;
})

unfoldable pub update_offset : String → ℕ → FederatedCursor → FederatedCursor
update_offset id offset c = record c {
  origins = modify id (λ o. record o { offset = offset }) c.origins;
}

-- The fields that `Clone` copies; the others keep the zero value of a new OriginCursor.
unfoldable pub clone_origin : OriginCursor → OriginCursor
clone_origin o = record {
  id = o.id;
  next_token = o.next_token;
  next_url = o.next_url;
  next_body = o.next_body;
  offset = o.offset;
  adapter_name = o.adapter_name;
  exhausted = o.exhausted;
  error = o.error;
  error_count = 0;
  item_count = o.item_count;
  last_sort_value = o.last_sort_value;
  stash = o.stash;
}

unfoldable pub clone : FederatedCursor → FederatedCursor
unfolding clone_origin
clone c = record c { origins = map (λ e. (e.0, clone_origin e.1)) c.origins }

unfoldable pub get_origin_cursor : String → FederatedCursor → Option OriginCursor
get_origin_cursor id c = lookup id c.origins

-- `now >= ExpiresAt`
unfoldable pub is_expired : ℕ → FederatedCursor → Bool
is_expired now c = leb c.expires_at now
