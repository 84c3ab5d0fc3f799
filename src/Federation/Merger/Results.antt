-- ===== src/Federation/Merger/Results.antt =====
-- internal/federation/merger.go (MergeSearchResults, MergeCollections, DeduplicateCollections,
-- CalculateMergeStats): one response out of the results of a fan-out. Items and collections are
-- present; an origin's links and the fields of a response that nothing sets are left out.
use stac_proxy.Common.{
  ℕ, ◌+◌, String, Bool, false, ◌&&◌, Option, none, some, List, [], ◌∷◌, ◌++◌, map, length, ltb,
  str_ltb, if◌then◌else◌, sort_by, take, elem,
}
use stac_proxy.Common.Int.{ℤ, int_then, int_of_diff}
use stac_proxy.Stac.Item.{Item, Collection, add_collection_origin_link}
use stac_proxy.Federation.Status.{FetchError, OriginStatus, classify_origin_error}
use stac_proxy.Federation.Merger.{ItemSource, merge_items_first_wins}

-- OriginSearchResult; `matched` is the context's count, if there is a context.
pub record OriginSearchResult : Type 0 where
  pub origin_id : String
  pub origin_url : String
  pub priority : ℤ
  pub items : List Item
  pub matched : Option ℕ
  pub error : Option FetchError

-- The order of the merge: by priority, then by the origin's ID.
unfoldable pub result_less : OriginSearchResult → OriginSearchResult → Bool
unfolding int_then
result_less r s = int_then r.priority s.priority (str_ltb r.origin_id s.origin_id)

unfoldable pub count_of : Option ℕ → ℕ
count_of (some n) = n
count_of none = 0

unfoldable pub status_from : OriginSearchResult → OriginStatus
unfolding count_of
status_from r = elim r.error [
  | some e ↦ record {
    id = r.origin_id;
    matched = 0;
    returned = 0;
    exhausted = false;
    error = classify_origin_error e;
  }
  | none ↦ record {
    id = r.origin_id;
    matched = count_of r.matched;
    returned = length r.items;
    exhausted = false;
    error = "";
  }
]

unfoldable pub sources_from : List OriginSearchResult → List ItemSource
sources_from [] = []
sources_from (r ∷ rs) =
    let rest = sources_from rs in
    elim r.error [
      | some e ↦ rest
      | none ↦
          (record { origin_id = r.origin_id; origin_url = r.origin_url; items = r.items }) ∷ rest
    ]

unfoldable pub total_matched : List OriginSearchResult → ℕ
unfolding count_of
total_matched [] = 0
total_matched (r ∷ rs) =
    let rest = total_matched rs in elim r.error [ some e ↦ rest | none ↦ count_of r.matched + rest ]

unfoldable pub limit_items : ℕ → List Item → List Item
limit_items limit items =
    if ltb 0 limit && ltb limit (length items) then take limit items else items

-- FeatureCollection with its SearchContext; a limit of 0 is absent.
pub record MergedResponse : Type 0 where
  pub features : List Item
  pub returned : ℕ
  pub matched : ℕ
  pub limit : ℕ
  pub origins : List OriginStatus

unfoldable pub merge_sorted : ℕ → List OriginSearchResult → MergedResponse
unfolding limit_items total_matched status_from sources_from merge_items_first_wins
merge_sorted limit results =
    let items = limit_items limit (merge_items_first_wins (sources_from results)) in
    record {
      features = items;
      returned = length items;
      matched = total_matched results;
      limit = limit;
      origins = map status_from results;
    }

unfoldable pub merge_search_results : ℕ → List OriginSearchResult → MergedResponse
unfolding merge_sorted result_less sort_by
merge_search_results limit results = merge_sorted limit (sort_by result_less results)

pub record OriginCollectionsResult : Type 0 where
  pub origin_id : String
  pub origin_url : String
  pub collections : List Collection
  pub error : Option FetchError

unfoldable pub first_of_each : List String → List Collection → List Collection
unfolding elem
first_of_each seen [] = []
first_of_each seen (c ∷ cs) =
    if elem c.id seen then first_of_each seen cs else c ∷ first_of_each (c.id ∷ seen) cs

-- The IDs are distinct by then, so that every sort by them gives the same list.
unfoldable pub deduplicate_collections : List Collection → List Collection
unfolding first_of_each sort_by
deduplicate_collections cs = sort_by (λ a b. str_ltb a.id b.id) (first_of_each [] cs)

unfoldable pub all_collections : List OriginCollectionsResult → List Collection
unfolding add_collection_origin_link
all_collections [] = []
all_collections (r ∷ rs) =
    let rest = all_collections rs in
    elim r.error [
      | some e ↦ rest
      | none ↦ map (add_collection_origin_link r.origin_id r.origin_url) r.collections ++ rest
    ]

unfoldable pub merge_collections : List OriginCollectionsResult → List Collection
unfolding deduplicate_collections all_collections
merge_collections results = deduplicate_collections (all_collections results)

-- `duplicates_found` is below zero when more items are counted than the origins sent.
pub record MergeStats : Type 0 where
  pub total_items : ℕ
  pub unique_items : ℕ
  pub duplicates_found : ℤ
  pub origins_used : ℕ
  pub origins_failed : ℕ

unfoldable pub add_stats : OriginSearchResult → MergeStats → MergeStats
add_stats r s = elim r.error [
  | some e ↦ record s { origins_failed = s.origins_failed + 1 }
  | none ↦ record s {
    origins_used = s.origins_used + 1;
    total_items = s.total_items + length r.items;
  }
]

unfoldable pub sum_stats : List OriginSearchResult → MergeStats → MergeStats
unfolding add_stats
sum_stats [] s = s
sum_stats (r ∷ rs) s = sum_stats rs (add_stats r s)

unfoldable pub calculate_merge_stats : List OriginSearchResult → ℕ → MergeStats
unfolding sum_stats int_of_diff
calculate_merge_stats results merged_count =
    let s = sum_stats results (record {
      total_items = 0;
      unique_items = merged_count;
      duplicates_found = ℤ.pos 0;
      origins_used = 0;
      origins_failed = 0;
    }) in
    record s { duplicates_found = int_of_diff s.total_items merged_count }
