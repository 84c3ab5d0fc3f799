-- ===== src/Tests/Pages.antt =====
-- Runs of internal/federation/pagination.go and merger.go.
use mathlib.Core.List.{Perm}
use stac_proxy.Federation.Pagination.Order.{Precedes, NewestFirst, merge_results-NewestFirst}
use stac_proxy.Common.{
  ◌≡◌, All, refl, String, true, none, some, List, [], ◌∷◌, ◌++◌, map, arith, str_eq, str_eq_iff,
  Bool-cases, inl, inr, lookup,
}
use stac_proxy.Stac.Item.{Item, origin_link, add_item_origin_link}
use stac_proxy.Federation.Status.{FetchError}
use stac_proxy.Federation.Pagination.Failures.{IsSilent, after_pages, has_more-after_pages}
use stac_proxy.Federation.Cursor.{
  Bytes, has_more, new_origin_cursor, FederatedCursor, new_federated_cursor, get_origin_cursor,
  active_origins,
}
use stac_proxy.Federation.Merger.{ItemSource, item_key, contains, merge_items_first_wins}
use stac_proxy.Federation.Merger.Dedup.{
  find_key, all_tagged, Distinct, find_key-merge_items_first_wins, merge_items_first_wins-Distinct,
}
use stac_proxy.Federation.Pagination.{
  FetchResult, PaginatedSearcher, fresh_by_origin, fresh_items, stash_of, mark_errors,
  merge_results,
}
use stac_proxy.Federation.Pagination.Shares.{count_id}
use stac_proxy.Federation.Pagination.Conserve.{
  HasKeys, HasOwnLinks, stashes, deduplicated, merge_results-perm,
}

abbrev item : String → Item
item id = record { id = id; collection = "c"; properties = []; links = [] }

abbrev fetched : List Item → FetchResult
fetched xs = record {
  items = xs;
  next_token = "more";
  next_url = "";
  next_body = [];
  adapter_name = "token";
  error = none;
}

abbrev searcher : PaginatedSearcher
searcher = record {
  origins =
      ("a", record { base_url = "https://a"; search = λ req. fetched [] })
      ∷ ("b", record { base_url = "https://b"; search = λ req. fetched [] })
      ∷ [];
  page_size = 2;
  max_page_size = 10;
}

abbrev results : List (String × FetchResult)
results = ("a", fetched (item "2" ∷ item "1" ∷ [])) ∷ ("b", fetched (item "2" ∷ item "3" ∷ [])) ∷ []

abbrev cursor : FederatedCursor
cursor = new_federated_cursor 0 "q" "p" ("a" ∷ "b" ∷ []) 3600

cursor-HasKeys : HasKeys cursor
unfolding new_federated_cursor count_id
cursor-HasKeys = (
  λ k. elim (Bool-cases (str_eq "a" k)) [
    | inl a ↦ let e = (str_eq_iff "a" k).0 a in rw (← e) (omega arith)
    | inr n ↦ rw n (ground arith)
  ],
  refl,
)

results-HasOwnLinks : HasOwnLinks results cursor
unfolding new_federated_cursor stash_of fresh_items fresh_by_origin get_origin_cursor lookup
results-HasOwnLinks id = elim (Bool-cases (str_eq "a" id)) [
  | inl a ↦ rw a (tt, (tt, (tt, tt)))
  | inr n ↦ elim (Bool-cases (str_eq "b" id)) [
    | inl b ↦ rw (n, b) (tt, (tt, (tt, tt)))
    | inr m ↦ rw (n, m) (tt, tt)
  ]
]

merge_results-perm_example :
    Perm
      ((merge_results (λ s. none) searcher results cursor 2).0
        ++ stashes
            (active_origins (mark_errors results cursor))
            (merge_results (λ s. none) searcher results cursor 2).1)
      (deduplicated (λ s. none) searcher results cursor)
merge_results-perm_example =
    merge_results-perm (λ s. none) searcher results cursor 2 cursor-HasKeys results-HasOwnLinks

abbrev sources : List ItemSource
sources =
    record { origin_id = "a"; origin_url = "https://a"; items = item "2" ∷ item "1" ∷ [] }
    ∷ record { origin_id = "b"; origin_url = "https://b"; items = item "2" ∷ item "3" ∷ [] }
    ∷ []

find_key-merge_items_first_wins_example :
    find_key "c:2" (merge_items_first_wins sources) ≡ find_key "c:2" (all_tagged sources)
find_key-merge_items_first_wins_example = find_key-merge_items_first_wins "c:2" sources

merge_items_first_wins-Distinct_example : Distinct (merge_items_first_wins sources)
merge_items_first_wins-Distinct_example = merge_items_first_wins-Distinct sources

-- Two different items of which the key is the same: the second one is lost.
abbrev colliding : List ItemSource
colliding =
    record {
      origin_id = "a";
      origin_url = "https://a";
      items =
          record { id = "c"; collection = "a:b"; properties = []; links = [] }
          ∷ record { id = "b:c"; collection = "a"; properties = []; links = [] }
          ∷ [];
    }
    ∷ []

colliding-lost : map (λ x. x.id) (merge_items_first_wins colliding) ≡ "c" ∷ []
unfolding merge_items_first_wins item_key add_item_origin_link contains
colliding-lost = refl

-- An item that another proxy marked before: its link names none of the origins.
abbrev chained : Item
chained = record {
  id = "9";
  collection = "c";
  properties = [];
  links = origin_link "far" "https://far" ∷ [];
}

abbrev dated : String → String → Item
dated id time = record {
  id = id;
  collection = "c";
  properties = ("datetime", some time) ∷ [];
  links = [];
}

-- Two items of one day and an older one; a page holds two.
abbrev days : List (String × FetchResult)
days =
    ("a", fetched (dated "2" "2024-01-01" ∷ dated "1" "2024-01-02" ∷ []))
    ∷ ("b", fetched (dated "3" "2024-01-02" ∷ []))
    ∷ []

merge_results-NewestFirst_example :
    NewestFirst (λ s. none) (merge_results (λ s. none) searcher days cursor 2).0
    × All
        (λ id.
          All
            (λ x.
              All
                (Precedes (λ s. none) x)
                (stash_of id (merge_results (λ s. none) searcher days cursor 2).1))
            (merge_results (λ s. none) searcher days cursor 2).0)
        (active_origins (mark_errors days cursor))
merge_results-NewestFirst_example = merge_results-NewestFirst (λ s. none) searcher days cursor 2

abbrev timed_out : FetchResult
timed_out = record (fetched []) { error = some (FetchError.fetch_failed) }

-- Three pages on which the origin b fails while a goes on.
abbrev failing : List (Bytes × List (String × FetchResult))
failing =
    ([], ("a", fetched (item "2" ∷ [])) ∷ ("b", timed_out) ∷ [])
    ∷ (1 ∷ [], ("a", fetched (item "3" ∷ [])) ∷ ("b", timed_out) ∷ [])
    ∷ (2 ∷ [], ("b", timed_out) ∷ ("a", fetched []) ∷ [])
    ∷ []

failing-IsSilent : All (IsSilent (λ s. none) searcher 2 "b") failing
unfolding count_id fresh_by_origin lookup
failing-IsSilent = ((omega arith, refl), ((omega arith, refl), ((omega arith, refl), tt)))

has_more-after_pages_example :
    (d : FederatedCursor) × (after_pages (λ s. none) searcher 2 failing cursor ≡ some d)
    × (has_more d ≡ true)
unfolding get_origin_cursor new_federated_cursor new_origin_cursor lookup
has_more-after_pages_example =
    has_more-after_pages (λ s. none) searcher 2 "b" failing cursor (new_origin_cursor "b")
      failing-IsSilent refl refl (omega arith)
