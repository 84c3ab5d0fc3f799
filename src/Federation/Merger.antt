-- ===== src/Federation/Merger.antt =====
-- internal/federation/merger.go: one list of items out of many, the first occurrence winning.
-- Items are present: a nil entry of an upstream's list, which the loops skip, is left out.
pub mod Dedup
pub mod Results
pub mod Arrival
use Prim.Native.String.{◌++◌ as str_append}
use stac_proxy.Common.{
  ℕ, String, Bool, true, false, List, [], ◌∷◌, ◌++◌, map, str_eq, if◌then◌else◌,
}
use stac_proxy.Stac.Item.{Item, add_item_origin_link}

pub record ItemSource : Type 0 where
  pub origin_id : String
  pub origin_url : String
  pub items : List Item

-- `item.Collection + ":" + item.ID`
unfoldable pub item_key : Item → String
item_key item = str_append (str_append item.collection ":") item.id

-- `_, dup := seen[key]`
unfoldable pub contains : List String → String → Bool
contains [] key = false
contains (s ∷ seen) key = if str_eq s key then true else contains seen key

-- The inner loop over one origin's items: the items kept, and the keys seen after it.
unfoldable pub merge_source : String → String → List Item → List String → List Item × List String
merge_source origin_id origin_url [] seen = ([], seen)
merge_source origin_id origin_url (item ∷ items) seen = elim (contains seen (item_key item)) [
  | true ↦ merge_source origin_id origin_url items seen
  | false ↦
      let (out, seen') = merge_source origin_id origin_url items (item_key item ∷ seen) in
      (add_item_origin_link origin_id origin_url item ∷ out, seen')
]

unfoldable pub merge_sources : List ItemSource → List String → List Item
merge_sources [] seen = []
merge_sources (src ∷ rest) seen =
    let (out, seen') = merge_source src.origin_id src.origin_url src.items seen in
    out ++ merge_sources rest seen'

unfoldable pub merge_items_first_wins : List ItemSource → List Item
unfolding merge_sources merge_source
merge_items_first_wins sources = merge_sources sources []
