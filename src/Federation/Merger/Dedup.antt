-- ===== src/Federation/Merger/Dedup.antt =====
-- internal/federation/merger.go (mergeItemsFirstWins): what the merged list holds.
use stac_proxy.Common.{
  ◌≡◌, refl, inl, inr, String, Bool, true, false, ◌||◌, Option, none, some, List, [], ◌∷◌, ◌++◌,
  map, arith, str_eq, str_eq_iff, str_eq_refl, if◌then◌else◌, Bool-cases,
}
use stac_proxy.Stac.Item.{Item, add_item_origin_link}
use stac_proxy.Federation.Merger.{
  ItemSource, item_key, contains, merge_source, merge_sources, merge_items_first_wins,
}

-- The first item with a key.
unfoldable pub find_key : String → List Item → Option Item
find_key k [] = none
find_key k (x ∷ xs) = if str_eq (item_key x) k then some x else find_key k xs

abbrev pub tag : ItemSource → Item → Item
tag src = add_item_origin_link src.origin_id src.origin_url

-- All the items of all the sources in order, each with its origin's link.
unfoldable pub all_tagged : List ItemSource → List Item
all_tagged [] = []
all_tagged (src ∷ rest) = map (tag src) src.items ++ all_tagged rest

-- No key stands twice.
abbrev pub Distinct : List Item → Type 0
Distinct [] = Unit {0}
Distinct (x ∷ xs) = (find_key (item_key x) xs ≡ none) × Distinct xs

abbrev or_find : Option Item → Option Item → Option Item
or_find (some x) o = some x
or_find none o = o

abbrev found : Option Item → Bool
found (some x) = true
found none = false

find_key-append :
    (k : String) (xs ys : List Item)
    → find_key k (xs ++ ys) ≡ or_find (find_key k xs) (find_key k ys)
unfolding find_key
find_key-append k [] ys = refl
find_key-append k (x ∷ xs) ys = ground (arith, find_key-append k xs ys)

pub item_key-tag : (src : ItemSource) (x : Item) → item_key (tag src x) ≡ item_key x
unfolding item_key add_item_origin_link
item_key-tag src x = ground arith

module _ (src : ItemSource) where
  abbrev kept : List Item → List String → List Item
  kept xs seen = (merge_source src.origin_id src.origin_url xs seen).0

  abbrev seen_after : List Item → List String → List String
  seen_after xs seen = (merge_source src.origin_id src.origin_url xs seen).1

module _ (src : ItemSource) (k : String) where
  find_key-kept :
      (xs : List Item) (seen : List String)
      → find_key k (kept src xs seen)
        ≡ (if contains seen k then none else find_key k (map (tag src) xs))
  unfolding merge_source find_key contains
  find_key-kept [] seen = ground arith
  find_key-kept (x ∷ xs) seen = ground (
    arith,
    item_key-tag src x,
    str_eq_iff (item_key x) k,
    find_key-kept xs seen,
    find_key-kept xs (item_key x ∷ seen),
  )

  contains-seen_after :
      (xs : List Item) (seen : List String)
      → contains (seen_after src xs seen) k
        ≡ (contains seen k || found (find_key k (map (tag src) xs)))
  unfolding merge_source find_key contains
  contains-seen_after [] seen = ground arith
  contains-seen_after (x ∷ xs) seen = ground (
    arith,
    item_key-tag src x,
    str_eq_iff (item_key x) k,
    contains-seen_after xs seen,
    contains-seen_after xs (item_key x ∷ seen),
  )

find_key-merge_sources :
    (k : String) (srcs : List ItemSource) (seen : List String)
    → find_key k (merge_sources srcs seen)
      ≡ (if contains seen k then none else find_key k (all_tagged srcs))
unfolding merge_sources all_tagged find_key
find_key-merge_sources k [] seen = ground arith
find_key-merge_sources k (src ∷ rest) seen =
    let after = seen_after src src.items seen in
    ground (
      arith,
      find_key-append k (kept src src.items seen) (merge_sources rest after),
      find_key-append k (map (tag src) src.items) (all_tagged rest),
      find_key-kept src k src.items seen,
      contains-seen_after src k src.items seen,
      find_key-merge_sources k rest after,
    )

-- For every key the merged list holds the first item of that key among all the items in the order
-- of the sources, marked with its origin, and no item of a key that none has.
pub find_key-merge_items_first_wins :
    (k : String) (sources : List ItemSource)
    → find_key k (merge_items_first_wins sources) ≡ find_key k (all_tagged sources)
unfolding merge_items_first_wins find_key contains
find_key-merge_items_first_wins k sources = find_key-merge_sources k sources []

Distinct-append :
    (xs ys : List Item)
    → Distinct xs
    → Distinct ys
    → ((k : String) → found (find_key k xs) ≡ true → find_key k ys ≡ none)
    → Distinct (xs ++ ys)
unfolding find_key
Distinct-append [] ys dx dy apart = dy
Distinct-append (x ∷ xs) ys dx dy apart = (
  ground (arith, find_key-append (item_key x) xs ys, apart (item_key x), str_eq_refl (item_key x)),
  Distinct-append xs ys dx.1 dy (λ k h. ground (arith, apart k)),
)

kept-Distinct :
    (src : ItemSource) (xs : List Item) (seen : List String) → Distinct (kept src xs seen)
unfolding merge_source contains
kept-Distinct src [] seen = tt
kept-Distinct src (x ∷ xs) seen = elim (Bool-cases (contains seen (item_key x))) [
  | inl dup ↦ rw (dup, merge_source, Distinct) (kept-Distinct src xs seen)
  | inr new ↦
      rw (new, merge_source, Distinct)
        (
          ground (
            arith,
            find_key-kept src (item_key x) xs (item_key x ∷ seen),
            item_key-tag src x,
            str_eq_refl (item_key x),
          ),
          kept-Distinct src xs (item_key x ∷ seen),
        )
]

merge_sources-Distinct :
    (srcs : List ItemSource) (seen : List String) → Distinct (merge_sources srcs seen)
unfolding merge_sources
merge_sources-Distinct [] seen = tt
merge_sources-Distinct (src ∷ rest) seen =
    let after = seen_after src src.items seen in
    Distinct-append (kept src src.items seen) (merge_sources rest after)
      (kept-Distinct src src.items seen) (merge_sources-Distinct rest after)
      (λ k h. ground (
        arith,
        find_key-kept src k src.items seen,
        contains-seen_after src k src.items seen,
        find_key-merge_sources k rest after,
      ))

-- No two items of the merged list share a key.
pub merge_items_first_wins-Distinct :
    (sources : List ItemSource) → Distinct (merge_items_first_wins sources)
unfolding merge_items_first_wins
merge_items_first_wins-Distinct sources = merge_sources-Distinct sources []
