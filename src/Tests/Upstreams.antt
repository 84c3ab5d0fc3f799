-- ===== src/Tests/Upstreams.antt =====
-- Runs of internal/federation/pageadapter.
use stac_proxy.Common.{
  List, ◌≡◌, ◌⊎◌, refl, String, true, Option, none, some, [], ◌∷◌, str_eq, if◌then◌else◌,
}
use stac_proxy.Federation.LinkHeader.{parse_next_from_link_header}
use stac_proxy.Federation.Adapters.{
  token_adapter, offset_adapter, link_header_adapter, Library, Url, UpstreamResponse, refused,
  next_url_adapter, capture, same_origin, trim_slash, next_in, followed, name_of,
}
use stac_proxy.Federation.Adapters.Auto.{inner, capture_auto, best_of, probe, confidence}
use stac_proxy.Federation.Adapters.Locked.{Chosen, named}
use stac_proxy.Federation.Adapters.Rooted.{SharesOrigin, capture_auto-SharesOrigin}

abbrev at : String → String → Url
at host path = record { scheme = "https"; host = host; path = path; query = λ p. "" }

read_url : String → Option Url
read_url s =
    if str_eq s "https://a/v1"
    then some (at "a" "/v1")
    else (if str_eq s "https://a/v1/search?next=2"
        then some (at "a" "/v1/search")
        else (if str_eq s "https://a/v10/search"
            then some (at "a" "/v10/search")
            else (if str_eq s "https://evil/v1/search"
                then some (at "evil" "/v1/search")
                else none)))

abbrev library : Library
library = record { parse_url = read_url; equal_fold = str_eq; atoi = λ s. none }

abbrev next_at : String → UpstreamResponse
next_at href = record {
  links = record { rel = "next"; href = href; method = ""; body = none } ∷ [];
  link_values = [];
  base_url = "https://a/v1";
}

-- A link under the base URL is followed by next_url, one to another host is refused.
auto-follows :
    (capture_auto library (inner "" "") (next_at "https://a/v1/search?next=2")).adapter_name
    ≡ "next_url"
unfolding capture_auto best_of probe confidence capture same_origin trim_slash next_in followed
    name_of read_url parse_next_from_link_header
auto-follows = refl

other_host-refused : capture library next_url_adapter (next_at "https://evil/v1/search") ≡ refused
unfolding capture same_origin trim_slash next_in followed read_url
other_host-refused = refl

abbrev settled : String
settled = (capture_auto library (inner "" "") (next_at "https://a/v1/search?next=2")).url

capture_auto-SharesOrigin_example : (settled ≡ "") ⊎ SharesOrigin library settled "https://a/v1"
capture_auto-SharesOrigin_example =
    capture_auto-SharesOrigin library (inner "" "") (next_at "https://a/v1/search?next=2")

-- The path of another tenant that begins with the same letters is accepted.
tenant-accepted : same_origin library "https://a/v10/search" "https://a/v1" ≡ true
unfolding same_origin trim_slash read_url
tenant-accepted = refl

abbrev registry : List (String × Chosen)
registry =
    ("token", named (token_adapter "token"))
    ∷ ("next_url", named next_url_adapter)
    ∷ ("offset", named (offset_adapter "page"))
    ∷ ("link_header", named link_header_adapter)
    ∷ []

-- The second link of a header, with two relations.
next_found :
    parse_next_from_link_header str_eq
      ("<https://a/v1?p=1,2>; rel=prev , <https://a/v1?p=3>; rel=\"up next\"; type=json" ∷ [])
    ≡ "https://a/v1?p=3"
unfolding parse_next_from_link_header
next_found = refl

-- A comma in a quoted title ends the link too early, and its relation is lost.
next_lost :
    parse_next_from_link_header str_eq ("<https://a/v1?p=3>; title=\"b, c\"; rel=\"next\"" ∷ [])
    ≡ ""
unfolding parse_next_from_link_header
next_lost = refl

-- A parameter whose name only begins with "rel" is taken for the relation.
next_hidden :
    parse_next_from_link_header str_eq ("<https://a/v1?p=3>; reltype=x; rel=\"next\"" ∷ []) ≡ ""
unfolding parse_next_from_link_header
next_hidden = refl
