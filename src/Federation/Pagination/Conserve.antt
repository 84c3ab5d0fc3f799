-- ===== src/Federation/Pagination/Conserve.antt =====
-- internal/federation/pagination.go (mergeResults): the items at hand, the page, and the stashes of
-- the next one.
use mathlib.Core.List.{Perm}
use mathlib.Core.List.Perm
use stac_proxy.Common.{
  ℕ, zero, suc, ◌≤◌, String, Bool, ◌≡◌, ◌≢◌, refl, ◌∙◌, ap, Option, none, some, List, [], ◌∷◌, ◌++◌,
  arith, str_eq, str_eq_refl, All, All-map, All-append, Bool-cases, inl, inr, lookup, modify, keys,
  keys-modify, insert_by, sort_by, sort_by-perm, str_ltb, take, drop, take-append-drop,
}
use stac_proxy.Stac.Item.{Item, TimeFormat}
use stac_proxy.Federation.Cursor.{
  OriginCursor, FederatedCursor, get_origin_cursor, mark_error, fail_origin, active_origins,
  active_of,
}
use stac_proxy.Federation.Status.{FetchError}
use stac_proxy.Federation.Merger.{merge_items_first_wins}
use stac_proxy.Federation.Pagination.{
  FetchResult, PaginatedSearcher, mark_if, stash_in, stash_of, stash_for, fresh_items, sources_of,
  mark_errors, fresh_by_origin, item_less, merged_items, merge_results,
}
use stac_proxy.Federation.Pagination.Links.{OwnLinks, Sound, merge_items_first_wins-Marked}
use stac_proxy.Federation.Pagination.Shares.{count_id, shares, HasHome, shares-perm}
use stac_proxy.Federation.Pagination.Stashes.{IsKnown, settle_all-stash}

-- The stashes of the origins one after another.
unfoldable pub stashes : List String → FederatedCursor → List Item
stashes [] c = []
stashes (id ∷ ids) c = stash_of id c ++ stashes ids c

-- The keys of a map: each occurs once, and none is the empty string.
abbrev pub HasKeys : FederatedCursor → Type 0
HasKeys c = ((k : String) → count_id k (keys c.origins) ≤ 1) × (count_id "" (keys c.origins) ≡ 0)

-- No item at hand carries the link of another origin than the one it came from.
abbrev pub HasOwnLinks : List (String × FetchResult) → FederatedCursor → Type 0
HasOwnLinks results c =
    (id : String)
    → All (OwnLinks id) (stash_of id c)
      × All (OwnLinks id) (fresh_items id (fresh_by_origin results))

stashes-shares :
    (ids : List String) (c : FederatedCursor) (rest : List Item)
    → All (λ id. stash_of id c ≡ stash_for id rest) ids
    → stashes ids c ≡ shares ids rest
unfolding stashes shares
stashes-shares [] c rest h = refl
stashes-shares (id ∷ ids) c rest h = rw (h.0, stashes-shares ids c rest h.1)

count_id-insert :
    (k x : String) (xs : List String) → count_id k (insert_by str_ltb x xs) ≡ count_id k (x ∷ xs)
unfolding count_id insert_by
count_id-insert k x [] = refl
count_id-insert k x (y ∷ ys) = ground (arith, count_id-insert k x ys)

count_id-sort : (k : String) (xs : List String) → count_id k (sort_by str_ltb xs) ≡ count_id k xs
unfolding count_id sort_by
count_id-sort k [] = refl
count_id-sort k (x ∷ xs) =
    count_id-insert k x (sort_by str_ltb xs) ∙ (ground (arith, count_id-sort k xs))

count_id-active_of :
    (k : String) (m : List (String × OriginCursor)) → count_id k (active_of m) ≤ count_id k (keys m)
unfolding count_id active_of
count_id-active_of k [] = omega arith
count_id-active_of k ((id, o) ∷ m) = ground (arith, count_id-active_of k m)

count_id-active :
    (k : String) (c : FederatedCursor) → count_id k (active_origins c) ≤ count_id k (keys c.origins)
unfolding active_origins
count_id-active k c =
    omega (arith, count_id-sort k (active_of c.origins), count_id-active_of k c.origins)

lookup-counted :
    (k : String) (m : List (String × OriginCursor))
    → 1 ≤ count_id k (keys m)
    → (o : OriginCursor) × (lookup k m ≡ some o)
unfolding count_id lookup
lookup-counted k [] h = absurd (omega arith)
lookup-counted k ((id, o) ∷ m) h = elim (Bool-cases (str_eq id k)) [
  | inl here ↦ (o, rw here)
  | inr away ↦ let (p, there) = lookup-counted k m (ground arith) in (p, rw away there)
]

-- Every element of a list occurs in it.
counted_tail :
    (x : String) (xs ids : List String)
    → All (λ k. 1 ≤ count_id k ids) xs
    → All (λ k. 1 ≤ count_id k (x ∷ ids)) xs
unfolding count_id
counted_tail x xs ids h = All-map _ _ (λ k n. ground arith) xs h

counted_self : (xs : List String) → All (λ k. 1 ≤ count_id k xs) xs
unfolding count_id
counted_self [] = tt
counted_self (x ∷ xs) = (rw (str_eq_refl x) (omega arith), counted_tail x xs xs (counted_self xs))

mark_if-keys :
    (id : String) (e : Option FetchError) (c : FederatedCursor)
    → keys (mark_if id e c).origins ≡ keys c.origins
unfolding mark_if mark_error
mark_if-keys id none c = refl
mark_if-keys id (some e) c = keys-modify id fail_origin c.origins

mark_errors-keys :
    (results : List (String × FetchResult)) (c : FederatedCursor)
    → keys (mark_errors results c).origins ≡ keys c.origins
unfolding mark_errors
mark_errors-keys [] c = refl
mark_errors-keys ((id, r) ∷ rest) c =
    mark_errors-keys rest (mark_if id r.error c) ∙ mark_if-keys id r.error c

modify-stash :
    (k q : String) (m : List (String × OriginCursor))
    → stash_in (lookup q (modify k fail_origin m)) ≡ stash_in (lookup q m)
unfolding lookup modify stash_in fail_origin
modify-stash k q [] = refl
modify-stash k q ((j, o) ∷ m) = ground (arith, modify-stash k q m)

mark_if-stash :
    (k : String) (e : Option FetchError) (id : String) (c : FederatedCursor)
    → stash_of id (mark_if k e c) ≡ stash_of id c
unfolding mark_if mark_error stash_of get_origin_cursor
mark_if-stash k none id c = refl
mark_if-stash k (some e) id c = modify-stash k id c.origins

mark_errors-stash :
    (results : List (String × FetchResult)) (id : String) (c : FederatedCursor)
    → stash_of id (mark_errors results c) ≡ stash_of id c
unfolding mark_errors
mark_errors-stash [] id c = refl
mark_errors-stash ((q, r) ∷ rest) id c =
    mark_errors-stash rest id (mark_if q r.error c) ∙ mark_if-stash q r.error id c

-- Every origin of the map that is active is listed once and is not nameless.
active-home :
    (c : FederatedCursor)
    → HasKeys c
    → All (λ id. (id ≢ "") × (count_id id (active_origins c) ≡ 1)) (active_origins c)
active-home c h =
    All-map (λ k. 1 ≤ count_id k (active_origins c)) _
      (λ k n. (
        λ e.
            absurd
              (omega (arith, h.1, count_id-active "" c, ap (λ k. count_id k (active_origins c)) e)),
        omega (arith, h.0 k, count_id-active k c),
      ))
      (active_origins c) (counted_self (active_origins c))

pub active-IsKnown : (c : FederatedCursor) → All (IsKnown c) (active_origins c)
unfolding get_origin_cursor
active-IsKnown c =
    All-map (λ k. 1 ≤ count_id k (active_origins c)) (IsKnown c)
      (λ k n. lookup-counted k c.origins (omega (arith, count_id-active k c))) (active_origins c)
      (counted_self (active_origins c))

pub All-drop : (P : Item → Type 0) (n : ℕ) (xs : List Item) → All P xs → All P (drop n xs)
All-drop P zero xs h = h
All-drop P (suc n) [] h = h
All-drop P (suc n) (x ∷ xs) h = All-drop P n xs h.1

module _ (less : Item → Item → Bool) (P : Item → Type 0) where
  All-insert_by : (x : Item) (xs : List Item) → P x → All P xs → All P (insert_by less x xs)
  unfolding insert_by
  All-insert_by x [] p h = (p, tt)
  All-insert_by x (y ∷ ys) p h = elim (Bool-cases (less y x)) [
    | inl lt ↦ rw lt (h.0, All-insert_by x ys p h.1)
    | inr ge ↦ rw ge (p, h)
  ]

  All-sort_by : (xs : List Item) → All P xs → All P (sort_by less xs)
  unfolding sort_by
  All-sort_by [] h = tt
  All-sort_by (x ∷ xs) h = All-insert_by x (sort_by less xs) h.0 (All-sort_by xs h.1)

sources_of-Sound :
    (s : PaginatedSearcher) (c : FederatedCursor) (fresh : List (String × FetchResult))
    (P : String → Type 0) (ids : List String)
    → All P ids
    → ((id : String) → All (OwnLinks id) (stash_of id c) × All (OwnLinks id) (fresh_items id fresh))
    → All (Sound P) (sources_of s c fresh ids)
unfolding sources_of
sources_of-Sound s c fresh P [] h own = tt
sources_of-Sound s c fresh P (id ∷ ids) h own = (
  (h.0, All-append (OwnLinks id) _ _ (own id).0 (own id).1),
  sources_of-Sound s c fresh P ids h.1 own,
)

module _ (tf : TimeFormat) (s : PaginatedSearcher) (results : List (String × FetchResult))
    (c : FederatedCursor) where
  abbrev marked : FederatedCursor
  marked = mark_errors results c

  -- What phase 3 returns, before it is sorted.
  abbrev pub deduplicated : List Item
  deduplicated =
      merge_items_first_wins (sources_of s marked (fresh_by_origin results) (active_origins marked))

  marked-HasKeys : HasKeys c → HasKeys marked
  marked-HasKeys h = rw (mark_errors-keys results c) h

  marked-HasOwnLinks :
      HasOwnLinks results c
      → (id : String)
      → All (OwnLinks id) (stash_of id marked)
        × All (OwnLinks id) (fresh_items id (fresh_by_origin results))
  marked-HasOwnLinks own id = rw (mark_errors-stash results id c) (own id)

  merged_items-HasHome :
      HasKeys c
      → HasOwnLinks results c
      → All (HasHome (active_origins marked)) (merged_items tf s results marked)
  unfolding merged_items
  merged_items-HasHome keyed own =
      let P : String → Type 0 = λ id. (id ≢ "") × (count_id id (active_origins marked) ≡ 1) in
      All-sort_by (item_less tf) (HasHome (active_origins marked)) deduplicated (
        merge_items_first_wins-Marked P _ (
          sources_of-Sound s marked (fresh_by_origin results) P (active_origins marked)
            (active-home marked (marked-HasKeys keyed)) (marked-HasOwnLinks own)))

  -- Where the names of the origins are distinct and not empty, and no item at hand carries the link
  -- of an origin that it did not come from, the page and the stashes that the next cursor holds
  -- for the active origins are together a rearrangement of the deduplicated items at hand: none
  -- is lost and none is added, whatever the limit is and whichever origins failed.
  pub merge_results-perm :
      (limit : ℕ)
      → HasKeys c
      → HasOwnLinks results c
      → Perm
          ((merge_results tf s results c limit).0
            ++ stashes (active_origins marked) (merge_results tf s results c limit).1)
          deduplicated
  unfolding merge_results merged_items
  merge_results-perm limit keyed own =
      let merged = merged_items tf s results marked in
      let active = active_origins marked in
      let rest = drop limit merged in
      let shared = stashes-shares active _ rest (
        settle_all-stash tf (fresh_by_origin results) rest active marked (active-IsKnown marked)) in
      let homes = All-drop (HasHome active) limit merged (merged_items-HasHome keyed own) in
      rw shared (
        Perm.trans (Perm.append_left (take limit merged) (shares-perm active rest homes))
          (rw (take-append-drop limit merged) (sort_by-perm (item_less tf) deduplicated)))
