-- ===== src/Federation/Adapters.antt =====
-- internal/federation/pageadapter: how the next page of an upstream is found in its response. The
-- URL parser, Unicode case folding and the number parser are arguments.
pub mod Auto
pub mod Locked
pub mod Rooted
use Prim.Native.Char.{code}
use Prim.Native.String.{[] as str_nil, ◌∷◌ as str_cons}
use text.Mathlib.Text.{starts_with}
use stac_proxy.Common.{
  ℕ, String, Bool, true, false, ◌&&◌, ◌||◌, not, Option, none, some, List, [], ◌∷◌, ltb, ◌==◌,
  str_eq, if◌then◌else◌, lookup, is_empty,
}
use stac_proxy.Common.Int.{ℤ}
use stac_proxy.Federation.Cursor.{Bytes}
use stac_proxy.Federation.LinkHeader.{parse_next_from_link_header}

-- A parsed URL; `query` is `u.Query().Get`.
pub record Url : Type 0 where
  pub scheme : String
  pub host : String
  pub path : String
  pub query : String → String

pub record Library : Type 0 where
  pub parse_url : String → Option Url
  pub equal_fold : String → String → Bool
  pub atoi : String → Option ℤ

-- `AdditionalFields["body"]`: its string fields if it is an object, and its JSON text.
pub record LinkBody : Type 0 where
  pub fields : List (String × String)
  pub json : Option Bytes

pub record Link : Type 0 where
  pub rel : String
  pub href : String
  pub method : String
  pub body : Option LinkBody

-- `links` is empty without a feature collection; `link_values` are the values of the Link header.
pub record UpstreamResponse : Type 0 where
  pub links : List Link
  pub link_values : List String
  pub base_url : String

pub record NextState : Type 0 where
  pub token : String
  pub url : String
  pub body : Bytes
  pub offset : ℤ
  pub done : Bool
  pub adapter_name : String

abbrev pub zero_state : NextState
zero_state = record {
  token = "";
  url = "";
  body = [];
  offset = ℤ.pos 0;
  done = false;
  adapter_name = "";
}

abbrev pub done_if : Bool → NextState
done_if b = record zero_state { done = b }

-- The two results of `Capture`.
pub data Captured : Type 0 where
  state : NextState → Captured
  refused : Captured

pub data Adapter : Type 0 where
  token_adapter : String → Adapter
  offset_adapter : String → Adapter
  next_url_adapter post_body_adapter link_header_adapter : Adapter

unfoldable pub name_of : Adapter → String
name_of (token_adapter param) = "token"
name_of (offset_adapter param) = "offset"
name_of next_url_adapter = "next_url"
name_of post_body_adapter = "post_body"
name_of link_header_adapter = "link_header"

-- `strings.TrimSuffix(path, "/")`
unfoldable pub trim_slash : String → String
trim_slash str_nil = ""
trim_slash (str_cons c s) =
    let rest = trim_slash s in if str_eq s "" && code c == 47 then "" else str_cons c rest

unfoldable pub next_in : List Link → Option Link
next_in [] = none
next_in (l ∷ ls) = if str_eq l.rel "next" then some l else next_in ls

unfoldable pub is_some : Option Link → Bool
is_some (some l) = true
is_some none = false

module _ (lib : Library) where
  rooted_at : Option Url → Option Url → Bool
  rooted_at (some u) (some b) =
      not (str_eq u.scheme "")
      && (lib.equal_fold u.scheme b.scheme
          && (lib.equal_fold u.host b.host && starts_with u.path (trim_slash b.path)))
  rooted_at _ _ = false

  unfoldable pub same_origin : String → String → Bool
  unfolding rooted_at
  same_origin raw_url base_url =
      if str_eq raw_url "" then true else rooted_at (lib.parse_url raw_url) (lib.parse_url base_url)

  -- The state with a URL, if it lies under the base URL.
  unfoldable pub followed : String → NextState → Captured → Captured
  followed base_url st otherwise = if same_origin st.url base_url then state st else otherwise

  query_in : Option Url → String → String
  query_in (some u) param = u.query param
  query_in none param = ""

  or_empty : Option String → String
  or_empty (some v) = v
  or_empty none = ""

  body_field : Option LinkBody → String → String
  body_field (some b) param = or_empty (lookup param b.fields)
  body_field none param = ""

  unfoldable pub token_in : Option Link → String → String
  unfolding query_in body_field or_empty
  token_in none param = ""
  token_in (some l) param =
      let v = if str_eq l.href "" then "" else query_in (lib.parse_url l.href) param in
      if str_eq v "" then body_field l.body param else v

  unfoldable pub offset_state : Option ℤ → Link → String → Captured
  offset_state none l base_url = state (done_if true)
  offset_state (some n) l base_url =
      followed base_url (record zero_state { url = l.href; offset = n }) (state (done_if true))

  unfoldable pub offset_url : Option Url → Link → String → String → Captured
  offset_url none l param base_url = state (done_if true)
  offset_url (some u) l param base_url =
      if str_eq (u.query param) ""
      then state (done_if true)
      else offset_state (lib.atoi (u.query param)) l base_url

  unfoldable pub capture_offset : Option Link → String → String → Captured
  capture_offset none param base_url = state (done_if true)
  capture_offset (some l) param base_url =
      if str_eq l.href ""
      then state (done_if true)
      else offset_url (lib.parse_url l.href) l param base_url

  unfoldable pub capture_next_url : Option Link → String → Captured
  capture_next_url none base_url = state (done_if true)
  capture_next_url (some l) base_url =
      if str_eq l.href ""
      then state (done_if true)
      else (if lib.equal_fold l.method "POST"
          then state (done_if false)
          else followed base_url (record zero_state { url = l.href }) refused)

  unfoldable pub with_json : Option Bytes → String → Captured
  with_json none href = refused
  with_json (some json) href = state (record zero_state { url = href; body = json })

  unfoldable pub with_body : Option LinkBody → String → Captured
  with_body none href = state (done_if false)
  with_body (some b) href = with_json b.json href

  unfoldable pub capture_post_body : Option Link → String → Captured
  capture_post_body none base_url = state (done_if true)
  capture_post_body (some l) base_url =
      if not (lib.equal_fold l.method "POST")
      then state (done_if false)
      else (if str_eq l.href ""
          then state (done_if true)
          else (if same_origin l.href base_url then with_body l.body l.href else refused))

  -- `Capture` of each adapter.
  unfoldable pub capture : Adapter → UpstreamResponse → Captured
  unfolding token_in query_in body_field or_empty capture_offset offset_url offset_state
      capture_next_url capture_post_body with_body with_json is_some
  capture (token_adapter param) r =
      let tok = token_in (next_in r.links) param in
      if str_eq tok ""
      then state (done_if (not (is_some (next_in r.links))))
      else state (record zero_state { token = tok })
  capture (offset_adapter param) r = capture_offset (next_in r.links) param r.base_url
  capture next_url_adapter r = capture_next_url (next_in r.links) r.base_url
  capture post_body_adapter r = capture_post_body (next_in r.links) r.base_url
  capture link_header_adapter r =
      let href = parse_next_from_link_header lib.equal_fold r.link_values in
      if str_eq href ""
      then state (done_if true)
      else followed r.base_url (record zero_state { url = href }) refused
