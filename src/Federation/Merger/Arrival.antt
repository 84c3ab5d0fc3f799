-- ===== src/Federation/Merger/Arrival.antt =====
-- internal/federation/merger.go (MergeSearchResults): the order in which the origins answer.
use stac_proxy.Common.{ℕ, ◌≡◌, ◌≢◌, ap, true, false, List, [], ◌∷◌, str_ltb, str_ltb_asym, All}
use stac_proxy.Common.Int.{int_then_asym, int_then_trans, int_then_total}
use stac_proxy.Common.Shuffles.{
  Shuffled, Apart, AllApart, sort_by-Shuffled, str_ltb_trans, str_ltb_total,
}
use stac_proxy.Federation.Merger.Results.{
  OriginSearchResult, result_less, merge_sorted, merge_search_results,
}

-- No origin answers twice.
abbrev pub OneEach : List OriginSearchResult → Type 0
OneEach [] = Unit {0}
OneEach (r ∷ rs) = All (λ s. r.origin_id ≢ s.origin_id) rs × OneEach rs

result_less_asym : (r s : OriginSearchResult) → result_less r s ≡ true → result_less s r ≡ false
unfolding result_less
result_less_asym r s h =
    int_then_asym r.priority s.priority (str_ltb r.origin_id s.origin_id)
      (str_ltb s.origin_id r.origin_id) (str_ltb_asym r.origin_id s.origin_id) h

result_less_trans :
    (r s t : OriginSearchResult)
    → result_less r s ≡ true
    → result_less s t ≡ true
    → result_less r t ≡ true
unfolding result_less
result_less_trans r s t h k =
    int_then_trans r.priority s.priority t.priority (str_ltb r.origin_id s.origin_id)
      (str_ltb s.origin_id t.origin_id) (str_ltb r.origin_id t.origin_id)
      (str_ltb_trans r.origin_id s.origin_id t.origin_id) h k

Apart-of_ids : (r s : OriginSearchResult) → r.origin_id ≢ s.origin_id → Apart result_less r s
unfolding result_less
Apart-of_ids r s apart =
    int_then_total r.priority s.priority (str_ltb r.origin_id s.origin_id)
      (str_ltb s.origin_id r.origin_id) (str_ltb_total r.origin_id s.origin_id apart)

All-Apart :
    (r : OriginSearchResult) (rs : List OriginSearchResult)
    → All (λ s. r.origin_id ≢ s.origin_id) rs
    → All (Apart result_less r) rs
All-Apart r [] h = tt
All-Apart r (s ∷ rs) h = (Apart-of_ids r s h.0, All-Apart r rs h.1)

OneEach-AllApart : (rs : List OriginSearchResult) → OneEach rs → AllApart result_less rs
OneEach-AllApart [] h = tt
OneEach-AllApart (r ∷ rs) h = (All-Apart r rs h.0, OneEach-AllApart rs h.1)

-- In whatever order the answers of different origins come, the merged response is the same: its
-- items with their order, its counts, and the status of every origin.
pub merge_search_results-Shuffled :
    (limit : ℕ) (rs ss : List OriginSearchResult)
    → Shuffled rs ss
    → OneEach rs
    → merge_search_results limit rs ≡ merge_search_results limit ss
unfolding merge_search_results
merge_search_results-Shuffled limit rs ss moved distinct = ap (merge_sorted limit) (
    sort_by-Shuffled result_less result_less_asym result_less_trans moved
      (OneEach-AllApart rs distinct))
