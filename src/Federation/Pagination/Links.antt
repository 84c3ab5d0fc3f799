-- ===== src/Federation/Pagination/Links.antt =====
-- internal/stac/extras.go (AddItemOriginLink, ItemOriginID) under the merge: whose link a merged
-- item carries.
use stac_proxy.Common.{
  String, true, ◌≡◌, refl, List, [], ◌∷◌, ◌++◌, arith, str_eq, All, All-append, Bool-cases, inl,
  inr,
}
use stac_proxy.Stac.Item.{
  Link, Item, origin_link_rel, origin_link, marks, add_item_origin_link, origin_title,
  item_origin_id,
}
use stac_proxy.Federation.Merger.{
  ItemSource, item_key, contains, merge_source, merge_sources, merge_items_first_wins,
}

-- No link of the item marks another origin.
abbrev pub OwnLinks : String → Item → Type 0
OwnLinks id item = All (λ l. str_eq l.rel origin_link_rel ≡ true → l.title ≡ id) item.links

origin_title-marked :
    (id : String) (ls : List Link)
    → All (λ l. str_eq l.rel origin_link_rel ≡ true → l.title ≡ id) ls
    → marks id ls ≡ true
    → origin_title ls ≡ id
unfolding marks origin_title
origin_title-marked id [] own h = cc
origin_title-marked id (l ∷ ls) own h = ground (arith, own.0, origin_title-marked id ls own.1)

origin_title-added :
    (id url : String) (ls : List Link)
    → All (λ l. str_eq l.rel origin_link_rel ≡ true → l.title ≡ id) ls
    → origin_title (ls ++ origin_link id url ∷ []) ≡ id
unfolding origin_title origin_link
origin_title-added id url [] own = refl
origin_title-added id url (l ∷ ls) own = ground (arith, own.0, origin_title-added id url ls own.1)

-- An item without a foreign link is marked as its source's.
pub item_origin_id-add_item_origin_link :
    (id url : String) (item : Item)
    → OwnLinks id item
    → item_origin_id (add_item_origin_link id url item) ≡ id
unfolding item_origin_id add_item_origin_link
item_origin_id-add_item_origin_link id url item own = elim (Bool-cases (marks id item.links)) [
  | inl old ↦ rw old (origin_title-marked id item.links own old)
  | inr new ↦ rw new (origin_title-added id url item.links own)
]

-- All items of a source are without foreign links, and its origin satisfies the predicate.
abbrev pub Sound {ℓ} : (String → Type ℓ) → ItemSource → Type ℓ
Sound P src = P src.origin_id × All (OwnLinks src.origin_id) src.items

module _ {ℓ} (P : String → Type ℓ) where
  abbrev Marked : Item → Type ℓ
  Marked x = P (item_origin_id x)

  merge_source-Marked :
      (id url : String) (xs : List Item) (seen : List String)
      → P id
      → All (OwnLinks id) xs
      → All Marked (merge_source id url xs seen).0
  unfolding merge_source
  merge_source-Marked id url [] seen p own = tt
  merge_source-Marked id url (x ∷ xs) seen p own = elim (Bool-cases (contains seen (item_key x))) [
    | inl dup ↦ rw (dup, merge_source, All) (merge_source-Marked id url xs seen p own.1)
    | inr new ↦
        rw (new, merge_source, All)
          (
            rw (item_origin_id-add_item_origin_link id url x own.0) p,
            merge_source-Marked id url xs (item_key x ∷ seen) p own.1,
          )
  ]

  merge_sources-Marked :
      (srcs : List ItemSource) (seen : List String)
      → All (Sound P) srcs
      → All Marked (merge_sources srcs seen)
  unfolding merge_sources
  merge_sources-Marked [] seen h = tt
  merge_sources-Marked (src ∷ rest) seen h =
      All-append Marked _ _
        (merge_source-Marked src.origin_id src.origin_url src.items seen h.0.0 h.0.1)
        (merge_sources-Marked rest _ h.1)

  -- What holds of the origin of every source holds of the origin that every merged item names.
  pub merge_items_first_wins-Marked :
      (srcs : List ItemSource)
      → All (Sound P) srcs
      → All (λ x. P (item_origin_id x)) (merge_items_first_wins srcs)
  unfolding merge_items_first_wins
  merge_items_first_wins-Marked srcs h = merge_sources-Marked srcs [] h
