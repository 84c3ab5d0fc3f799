-- ===== src/Tests/Headers.antt =====
-- Runs of internal/httpx/hopbyhop.go. The names are in canonical form already.
use stac_proxy.Common.{◌≡◌, refl, String, [], ◌∷◌, split_at, trim_space, select_names}
use stac_proxy.Httpx.Headers.{Header, get_header, del_header}
use stac_proxy.Httpx.Hops.{connection_names, is_named, strip_hop_by_hop_headers}

abbrev same : String → String
same s = s

abbrev sent : Header
sent =
    ("Accept", "*/*")
    ∷ ("Connection", "close, X-Trace ,")
    ∷ ("X-Trace", "1")
    ∷ ("Te", "trailers")
    ∷ []

strip_run : strip_hop_by_hop_headers same sent ≡ ("Accept", "*/*") ∷ []
unfolding strip_hop_by_hop_headers connection_names get_header del_header is_named split_at
    trim_space select_names
strip_run = refl

-- A name on a second Connection line is forwarded.
strip_second_line :
    strip_hop_by_hop_headers same
      (("Connection", "close") ∷ ("Connection", "X-Trace") ∷ ("X-Trace", "1") ∷ [])
    ≡ ("X-Trace", "1") ∷ []
unfolding strip_hop_by_hop_headers connection_names get_header del_header is_named split_at
    trim_space select_names
strip_second_line = refl
