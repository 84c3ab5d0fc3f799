-- ===== src/Tests/Arrivals.antt =====
-- Runs of internal/federation/merger.go and internal/middleware/authz/required_filters.go on the same
-- values in two orders.
use stac_proxy.Common.{◌≡◌, String, none, some, [], ◌∷◌, str_eq_iff, arith, ◌≢◌}
use stac_proxy.Common.Int.{ℤ}
use stac_proxy.Common.Shuffles.{swapped}
use stac_proxy.Stac.Item.{Item}
use stac_proxy.Stac.Cql2.{text, null_lit}
use stac_proxy.Federation.Merger.Results.{OriginSearchResult, merge_search_results}
use stac_proxy.Federation.Merger.Arrival.{merge_search_results-Shuffled}
use stac_proxy.Middleware.Authz.Filters.{Builders, required_filters_to_cql2}
use stac_proxy.Middleware.Authz.Keys.{required_filters_to_cql2-Shuffled}

abbrev thing : String → Item
thing id = record { id = id; collection = "c"; properties = []; links = [] }

abbrev from_a : OriginSearchResult
from_a = record {
  origin_id = "a";
  origin_url = "https://a";
  priority = ℤ.pos 1;
  items = thing "x" ∷ thing "y" ∷ [];
  matched = some 2;
  error = none;
}

abbrev from_b : OriginSearchResult
from_b = record {
  origin_id = "b";
  origin_url = "https://b";
  priority = ℤ.negsuc 0;
  items = thing "x" ∷ [];
  matched = none;
  error = none;
}

a_not_b : ◌≢◌ {A = String} "a" "b"
a_not_b h = absurd (let same = (str_eq_iff "a" "b").1 h in ground arith)

merge_search_results-Shuffled_example :
    merge_search_results 10 (from_a ∷ from_b ∷ []) ≡ merge_search_results 10 (from_b ∷ from_a ∷ [])
merge_search_results-Shuffled_example =
    merge_search_results-Shuffled 10 (from_a ∷ from_b ∷ []) (from_b ∷ from_a ∷ [])
      (swapped from_a from_b []) ((a_not_b, tt), (tt, tt))

abbrev builders : Builders
builders = record {
  marshal = λ v. none;
  unmarshal = λ s. none;
  to_lower = λ s. s;
  parse = λ s. none;
  encode_text = λ e. none;
  encode_json = λ e. none;
  parse_geometry = λ s. none;
  and_ = λ es. null_lit;
  not_ = λ e. e;
  compare_to = λ o p v. null_lit;
  in_ = λ p vs. null_lit;
  is_null = λ p. null_lit;
  s_intersects = λ p g. null_lit;
}

required_filters_to_cql2-Shuffled_example :
    required_filters_to_cql2 builders (("a", text "1") ∷ ("b", text "2") ∷ [])
    ≡ required_filters_to_cql2 builders (("b", text "2") ∷ ("a", text "1") ∷ [])
required_filters_to_cql2-Shuffled_example =
    required_filters_to_cql2-Shuffled builders (("a", text "1") ∷ ("b", text "2") ∷ [])
      (("b", text "2") ∷ ("a", text "1") ∷ []) (swapped ("a", text "1") ("b", text "2") [])
      ((a_not_b, tt), (tt, tt))
