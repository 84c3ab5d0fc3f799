-- ===== src/Federation/Status.antt =====
-- internal/federation/status.go: which origins failed on a page, and how that is reported.
use Prim.Native.String.{◌++◌ as str_append}
use stac_proxy.Common.{
  ℕ, String, Bool, ◌||◌, not, Option, none, some, List, [], ◌∷◌, ◌==◌, length, str_eq,
  if◌then◌else◌, sort_by, str_ltb,
}
use stac_proxy.Httpx.Headers.{Header, set_header}

-- An error of a fan-out: the breaker's ErrCircuitOpen, or any other.
pub data FetchError : Type 0 where
  circuit_open fetch_failed : FetchError

unfoldable pub classify_origin_error : FetchError → String
classify_origin_error circuit_open = "circuit_open"
classify_origin_error fetch_failed = "fetch_failed"

-- `OriginStatus` of internal/stac/types.go. An empty `error` means that there is none.
pub record OriginStatus : Type 0 where
  pub id : String
  pub matched : ℕ
  pub returned : ℕ
  pub exhausted : Bool
  pub error : String

failed_ids : List OriginStatus → List String
failed_ids [] = []
failed_ids (s ∷ ss) = if str_eq s.error "" then failed_ids ss else s.id ∷ failed_ids ss

unfoldable pub failed_from_statuses : List OriginStatus → List String
unfolding failed_ids
failed_from_statuses statuses = sort_by str_ltb (failed_ids statuses)

-- `strings.Join(ss, ",")`
unfoldable pub join_comma : List String → String
join_comma [] = ""
join_comma (s ∷ []) = s
join_comma (s ∷ t ∷ ss) = str_append s (str_append "," (join_comma (t ∷ ss)))

unfoldable pub stamp_partial_headers : List String → Header → Header
unfolding join_comma set_header
stamp_partial_headers failed h = set_header "Cache-Control" "no-store" (
    set_header "X-Federation-Failed-Origins" (join_comma failed)
      (set_header "X-Federation-Partial" "true" h))

-- The headers of a response under which some origins failed.
unfoldable pub mark_partial : List String → Header → Header
unfolding stamp_partial_headers
mark_partial [] h = h
mark_partial (s ∷ ss) h = stamp_partial_headers (s ∷ ss) h

pub record FailureResponse : Type 0 where
  pub status : ℕ
  pub code : String
  pub description : String
  pub headers : Header

unfoldable pub federation_failure_response : List String → FailureResponse
unfolding stamp_partial_headers join_comma
federation_failure_response failed = record {
  status = 502;
  code = "UpstreamFederationFailure";
  description = str_append "all routed origins failed: " (join_comma failed);
  headers = stamp_partial_headers failed (("Content-Type", "application/json") ∷ []);
}

-- Nothing if some routed origin answered, or none was routed to.
unfoldable pub respond_if_all_failed : List String → ℕ → Option FailureResponse
unfolding federation_failure_response
respond_if_all_failed failed total =
    if total == 0 || not (length failed == total)
    then none
    else some (federation_failure_response failed)
