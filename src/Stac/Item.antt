-- ===== src/Stac/Item.antt =====
-- internal/stac/extras.go, and the fields of go-stac-client's Item that the proxy reads: the other
-- fields are carried along unread and are left out. A property is a string, or anything else.
use stac_proxy.Common.{
  String, Bool, ◌&&◌, Option, none, some, List, [], ◌∷◌, ◌++◌, str_eq, if◌then◌else◌, lookup,
}

pub record Link : Type 0 where
  pub href : String
  pub rel : String
  pub type_ : String
  pub title : String

pub record Item : Type 0 where
  pub id : String
  pub collection : String
  pub properties : List (String × Option String)
  pub links : List Link

abbrev pub origin_link_rel : String
origin_link_rel = "stac_proxy:origin"

unfoldable pub origin_link : String → String → Link
origin_link origin_id origin_url = record {
  href = origin_url;
  rel = origin_link_rel;
  type_ = "application/json";
  title = origin_id;
}

-- Whether a link marks the given origin.
unfoldable pub marks : String → List Link → Bool
marks origin_id [] = Bool.false
marks origin_id (l ∷ ls) =
    if str_eq l.rel origin_link_rel && str_eq l.title origin_id
    then Bool.true
    else marks origin_id ls

unfoldable pub add_item_origin_link : String → String → Item → Item
unfolding marks origin_link
add_item_origin_link origin_id origin_url item =
    if marks origin_id item.links
    then item
    else record item { links = item.links ++ origin_link origin_id origin_url ∷ [] }

-- The title of the first link that marks any origin.
unfoldable pub origin_title : List Link → String
origin_title [] = ""
origin_title (l ∷ ls) = if str_eq l.rel origin_link_rel then l.title else origin_title ls

unfoldable pub item_origin_id : Item → String
unfolding origin_title
item_origin_id item = origin_title item.links

-- `time.Parse` under one of the accepted layouts, rendered as RFC 3339: package time's.
abbrev pub TimeFormat : Type 0
TimeFormat = String → Option String

-- The string under a key of `properties` that parses.
parsed_at : TimeFormat → Option (Option String) → Option String
parsed_at time_format (some (some s)) = time_format s
parsed_at time_format (some none) = none
parsed_at time_format none = none

or_else : Option String → Option String → Option String
or_else (some t) u = some t
or_else none u = u

unfoldable pub item_datetime : TimeFormat → Item → Option String
unfolding parsed_at or_else
item_datetime time_format item =
    or_else (parsed_at time_format (lookup "datetime" item.properties))
      (parsed_at time_format (lookup "start_datetime" item.properties))

-- The fields of go-stac-client's Collection that the proxy reads.
pub record Collection : Type 0 where
  pub id : String
  pub links : List Link

unfoldable pub add_collection_origin_link : String → String → Collection → Collection
unfolding marks origin_link
add_collection_origin_link origin_id origin_url coll =
    if marks origin_id coll.links
    then coll
    else record coll { links = coll.links ++ origin_link origin_id origin_url ∷ [] }

unfoldable pub collection_origin_id : Collection → String
unfolding origin_title
collection_origin_id coll = origin_title coll.links
