-- ===== src/Federation/Pagination/Order.antt =====
-- internal/federation/pagination.go (mergeResults, phases 2 to 4): the order of a page, and of what is
-- kept for the pages after it.
use stac_proxy.Common.{
  ℕ, zero, suc, ◌≡◌, sym, ◌∙◌, ◌⊎◌, inl, inr, String, true, false, List, [], ◌∷◌, arith, All-map,
  str_eq, str_eq_iff, str_ltb, sort_by-IsOrdered, str_ltb_asym, IsOrdered, All, take, drop,
  Bool-cases,
}
use stac_proxy.Common.Shuffles.{str_ltb_trans, str_ltb_total}
use stac_proxy.Stac.Item.{Item, TimeFormat}
use stac_proxy.Federation.Cursor.{FederatedCursor, active_origins}
use stac_proxy.Federation.Pagination.{
  FetchResult, PaginatedSearcher, get_datetime, item_less, merged_items, mark_errors, merge_results,
  stash_of, stash_for, fresh_by_origin, settle_all,
}
use stac_proxy.Federation.Pagination.Stashes.{settle_all-stash}
use stac_proxy.Federation.Pagination.Conserve.{active-IsKnown, All-drop}

item_less_asym : (tf : TimeFormat) (a b : Item) → item_less tf a b ≡ true → item_less tf b a ≡ false
unfolding item_less
item_less_asym tf a b h = ground (
  arith,
  str_eq_iff (get_datetime tf a) (get_datetime tf b),
  str_eq_iff (get_datetime tf b) (get_datetime tf a),
  str_ltb_asym a.id b.id,
  str_ltb_asym (get_datetime tf b) (get_datetime tf a),
)

-- The first text is not above the second.
NotAbove : String → String → Type 0
NotAbove s t = str_ltb t s ≡ false

NotAbove-trans : (s t u : String) → NotAbove s t → NotAbove t u → NotAbove s u
unfolding NotAbove
NotAbove-trans s t u h k = elim (Bool-cases (str_eq s t)) [
  | inl same ↦ let e = (str_eq_iff s t).0 same in rw e k
  | inr apart ↦
      elim (str_ltb_total s t (λ e. (let w = (str_eq_iff s t).1 e in absurd (ground arith)))) [
        | inl below ↦ elim (Bool-cases (str_ltb u s)) [
          | inl wrong ↦ absurd (let w = str_ltb_trans u s t wrong below in ground arith)
          | inr fine ↦ fine
        ]
        | inr above ↦ absurd (ground arith)
      ]
]

-- The first item is newer by the text of its datetime, or as old and its ID is not above the other.
abbrev pub Precedes : TimeFormat → Item → Item → Type 0
Precedes tf a b =
    (str_ltb (get_datetime tf b) (get_datetime tf a) ≡ true)
    ⊎ ((get_datetime tf a ≡ get_datetime tf b) × (str_ltb b.id a.id ≡ false))

Precedes-trans :
    (tf : TimeFormat) (a b c : Item) → Precedes tf a b → Precedes tf b c → Precedes tf a c
unfolding NotAbove
Precedes-trans tf a b c (inl newer) (inl older) =
    inl (str_ltb_trans (get_datetime tf c) (get_datetime tf b) (get_datetime tf a) older newer)
Precedes-trans tf a b c (inl newer) (inr (same, ids)) = inl (rw (← same) newer)
Precedes-trans tf a b c (inr (same, ids)) (inl older) = inl (rw same older)
Precedes-trans tf a b c (inr (same, ids)) (inr (same', ids')) =
    inr (same ∙ same', NotAbove-trans a.id b.id c.id ids ids')

Precedes-of_less : (tf : TimeFormat) (a b : Item) → item_less tf b a ≡ false → Precedes tf a b
unfolding item_less
Precedes-of_less tf a b h = elim (Bool-cases (str_eq (get_datetime tf b) (get_datetime tf a))) [
  | inl same ↦ inr (sym ((str_eq_iff _ _).0 same), (let e = rw same at h in e))
  | inr apart ↦
      elim (str_ltb_total (get_datetime tf b) (get_datetime tf a)
        (λ e. (let w = (str_eq_iff _ _).1 e in absurd (ground arith)))) [
          | inl newer ↦ inl newer
          | inr older ↦ absurd (let e = rw apart at h in ground arith)
        ]
]

-- Each item precedes all that follow it.
abbrev pub NewestFirst : TimeFormat → List Item → Type 0
NewestFirst tf [] = Unit {0}
NewestFirst tf (x ∷ xs) = All (Precedes tf x) xs × NewestFirst tf xs

All-Precedes :
    (tf : TimeFormat) (x y : Item) (ys : List Item)
    → Precedes tf x y
    → All (Precedes tf y) ys
    → All (Precedes tf x) ys
All-Precedes tf x y [] h all = tt
All-Precedes tf x y (z ∷ zs) h all =
    (Precedes-trans tf x y z h all.0, All-Precedes tf x y zs h all.1)

NewestFirst-of_ordered :
    (tf : TimeFormat) (xs : List Item) → IsOrdered (item_less tf) xs → NewestFirst tf xs
NewestFirst-of_ordered tf [] h = tt
NewestFirst-of_ordered tf (x ∷ []) h = (tt, tt)
NewestFirst-of_ordered tf (x ∷ y ∷ ys) h =
    let rest = NewestFirst-of_ordered tf (y ∷ ys) h.1 in
    let first = Precedes-of_less tf x y h.0 in ((first, All-Precedes tf x y ys first rest.0), rest)

module _ (P : Item → Type 0) where
  All-take : (n : ℕ) (xs : List Item) → All P xs → All P (take n xs)
  All-take zero xs h = tt
  All-take (suc n) [] h = tt
  All-take (suc n) (x ∷ xs) h = (h.0, All-take n xs h.1)

  All-stash_for : (id : String) (xs : List Item) → All P xs → All P (stash_for id xs)
  unfolding stash_for
  All-stash_for id [] h = tt
  All-stash_for id (x ∷ xs) h = ground (arith, All-stash_for id xs h.1)

-- What precedes the remainder, and the remainder itself.
NewestFirst-split :
    (tf : TimeFormat) (n : ℕ) (xs : List Item)
    → NewestFirst tf xs
    → NewestFirst tf (take n xs) × All (λ x. All (Precedes tf x) (drop n xs)) (take n xs)
NewestFirst-split tf zero xs h = (tt, tt)
NewestFirst-split tf (suc n) [] h = (tt, tt)
NewestFirst-split tf (suc n) (x ∷ xs) h =
    let (page, before) = NewestFirst-split tf n xs h.1 in
    ((All-take (Precedes tf x) n xs h.0, page), (All-drop (Precedes tf x) n xs h.0, before))

All-pairs-stash_for :
    (tf : TimeFormat) (id : String) (page rest kept : List Item)
    → kept ≡ stash_for id rest
    → All (λ x. All (Precedes tf x) rest) page
    → All (λ x. All (Precedes tf x) kept) page
All-pairs-stash_for tf id page rest kept e before =
    All-map (λ x. All (Precedes tf x) rest) (λ x. All (Precedes tf x) kept)
      (λ x later. rw e (All-stash_for (Precedes tf x) id rest later)) page before

-- Whatever the origins sent and in whatever order they are merged: each item of a page is newer, by
-- the text of the datetime, than every item that comes later on the page and every item that the
-- next cursor holds in the stash of an origin that was active, or is as old and its ID is not above
-- the other's.
pub merge_results-NewestFirst :
    (tf : TimeFormat) (s : PaginatedSearcher) (results : List (String × FetchResult))
    (c : FederatedCursor) (limit : ℕ)
    → NewestFirst tf (merge_results tf s results c limit).0
      × All
          (λ id.
            All
              (λ x. All (Precedes tf x) (stash_of id (merge_results tf s results c limit).1))
              (merge_results tf s results c limit).0)
          (active_origins (mark_errors results c))
unfolding merge_results merged_items
merge_results-NewestFirst tf s results c limit =
    let marked = mark_errors results c in
    let merged = merged_items tf s results marked in
    let rest = drop limit merged in
    let (page, before) =
      NewestFirst-split tf limit merged (
        NewestFirst-of_ordered tf merged
          (sort_by-IsOrdered (item_less tf) (item_less_asym tf) _)) in
    (
      page,
      All-map
          (λ id.
            stash_of id
              (settle_all tf (fresh_by_origin results) rest (active_origins marked) marked)
            ≡ stash_for id rest)
          (λ id.
            All
              (λ x. All (Precedes tf x) (
                stash_of id
                  (settle_all tf (fresh_by_origin results) rest (active_origins marked) marked)))
              (take limit merged))
          (λ id e. All-pairs-stash_for tf id (take limit merged) rest _ e before)
          (active_origins marked)
          (settle_all-stash tf (fresh_by_origin results) rest (active_origins marked) marked
            (active-IsKnown marked)),
    )
