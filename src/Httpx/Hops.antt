-- ===== src/Httpx/Hops.antt =====
-- internal/httpx/hopbyhop.go: the headers that are not forwarded. A header is its lines, with names in
-- canonical form; the canonical form of a name is an argument.
use stac_proxy.Common.{
  ◌≡◌, refl, sym, ap, ◌∙◌, String, Bool, true, false, ◌||◌, not, List, [], ◌∷◌, ◌++◌, map, str_eq,
  str_eq_iff, if◌then◌else◌, elem, select_names, split_at, trim_space, arith,
}
use stac_proxy.Httpx.Headers.{Header, get_header, del_header}

abbrev pub hop_by_hop_headers : List String
hop_by_hop_headers =
    "Connection" ∷ "Proxy-Connection" ∷ "Keep-Alive" ∷ "Proxy-Authenticate" ∷ "Proxy-Authorization"
    ∷ "Te" ∷ "Trailer" ∷ "Transfer-Encoding" ∷ "Upgrade" ∷ "Forwarded" ∷ []

unfoldable pub del_headers : List String → Header → Header
unfolding del_header
del_headers [] h = h
del_headers (n ∷ ns) h = del_headers ns (del_header n h)

unfoldable pub is_named : String → Bool
is_named s = not (str_eq s "")

-- The names on the first Connection line.
unfoldable pub connection_names : (String → String) → Header → List String
unfolding get_header is_named
connection_names canonical h =
    if str_eq (get_header "Connection" h) ""
    then []
    else map canonical
        (select_names is_named (map trim_space (split_at 44 (get_header "Connection" h))))

unfoldable pub strip_hop_by_hop_headers : (String → String) → Header → Header
unfolding connection_names del_headers
strip_hop_by_hop_headers canonical h =
    del_headers hop_by_hop_headers (del_headers (connection_names canonical h) h)

-- The lines whose name is in no list.
unfoldable pub lines_outside : List String → Header → Header
lines_outside ns [] = []
lines_outside ns ((n, v) ∷ hs) =
    if elem n ns then lines_outside ns hs else (n, v) ∷ lines_outside ns hs

str_eq_sym : (a b : String) → str_eq a b ≡ str_eq b a
str_eq_sym a b = ground (arith, str_eq_iff a b, str_eq_iff b a)

elem-append : (s : String) (xs ys : List String) → elem s (xs ++ ys) ≡ (elem s xs || elem s ys)
unfolding elem
elem-append s [] ys = refl
elem-append s (x ∷ xs) ys = ground (arith, elem-append s xs ys)

del_header-outside :
    (n : String) (ns : List String) (h : Header)
    → lines_outside ns (del_header n h) ≡ lines_outside (n ∷ ns) h
unfolding del_header lines_outside elem
del_header-outside n ns [] = refl
del_header-outside n ns ((m, v) ∷ hs) = ground (arith, str_eq_sym m n, del_header-outside n ns hs)

lines_outside_nil : (h : Header) → lines_outside [] h ≡ h
unfolding lines_outside elem
lines_outside_nil [] = refl
lines_outside_nil ((m, v) ∷ hs) = ap (λ rest. (m, v) ∷ rest) (lines_outside_nil hs)

del_headers-outside : (ns : List String) (h : Header) → del_headers ns h ≡ lines_outside ns h
unfolding del_headers
del_headers-outside [] h = sym (lines_outside_nil h)
del_headers-outside (n ∷ ns) h = del_headers-outside ns (del_header n h) ∙ del_header-outside n ns h

lines_outside-append :
    (ns ms : List String) (h : Header)
    → lines_outside ms (lines_outside ns h) ≡ lines_outside (ns ++ ms) h
unfolding lines_outside
lines_outside-append ns ms [] = refl
lines_outside-append ns ms ((m, v) ∷ hs) =
    ground (arith, elem-append m ns ms, lines_outside-append ns ms hs)

-- What is left is exactly the lines, in their order, whose name is neither one of the listed headers
-- nor named on the first Connection line.
pub strip_hop_by_hop_headers-outside :
    (canonical : String → String) (h : Header)
    → strip_hop_by_hop_headers canonical h
      ≡ lines_outside (connection_names canonical h ++ hop_by_hop_headers) h
unfolding strip_hop_by_hop_headers
strip_hop_by_hop_headers-outside canonical h =
    del_headers-outside hop_by_hop_headers (del_headers (connection_names canonical h) h)
    ∙ ap (lines_outside hop_by_hop_headers) (del_headers-outside (connection_names canonical h) h)
    ∙ lines_outside-append (connection_names canonical h) hop_by_hop_headers h

lines_outside_twice :
    (ns ms : List String) (h : Header)
    → ((s : String) → elem s ns ≡ false → elem s ms ≡ false)
    → lines_outside ms (lines_outside ns h) ≡ lines_outside ns h
unfolding lines_outside
lines_outside_twice ns ms [] within = refl
lines_outside_twice ns ms ((m, v) ∷ hs) within =
    ground (arith, within m, lines_outside_twice ns ms hs within)

get_header-outside :
    (n : String) (ns : List String) (h : Header)
    → elem n ns ≡ true
    → get_header n (lines_outside ns h) ≡ ""
unfolding get_header lines_outside
get_header-outside n ns [] listed = refl
get_header-outside n ns ((m, v) ∷ hs) listed =
    ground (arith, str_eq_iff m n, get_header-outside n ns hs listed)

stripped_lem :
    (s : String) (ns : List String)
    → elem s (ns ++ hop_by_hop_headers) ≡ false
    → elem s hop_by_hop_headers ≡ false
stripped_lem s ns h = ground (arith, elem-append s ns hop_by_hop_headers)

or_true : (b : Bool) → (b || true) ≡ true
or_true true = refl
or_true false = refl

connection_listed : (ns : List String) → elem "Connection" (ns ++ hop_by_hop_headers) ≡ true
unfolding elem
connection_listed ns =
    elem-append "Connection" ns hop_by_hop_headers ∙ or_true (elem "Connection" ns)

no_connection :
    (canonical : String → String) (h : Header)
    → get_header "Connection" h ≡ ""
    → connection_names canonical h ≡ []
unfolding connection_names
no_connection canonical h none_left = rw none_left refl

-- Stripping what was stripped changes nothing.
pub strip_hop_by_hop_headers_twice :
    (canonical : String → String) (h : Header)
    → strip_hop_by_hop_headers canonical (strip_hop_by_hop_headers canonical h)
      ≡ strip_hop_by_hop_headers canonical h
strip_hop_by_hop_headers_twice canonical h =
    let ns = connection_names canonical h in
    let once = lines_outside (ns ++ hop_by_hop_headers) h in
    let free : connection_names canonical once ≡ [] =
      no_connection canonical once
        (get_header-outside "Connection" (ns ++ hop_by_hop_headers) h (connection_listed ns)) in
    rw (strip_hop_by_hop_headers-outside canonical h) (
      strip_hop_by_hop_headers-outside canonical once
      ∙ ap (λ ms. lines_outside (ms ++ hop_by_hop_headers) once) free
      ∙ lines_outside_twice (ns ++ hop_by_hop_headers) hop_by_hop_headers h
          (λ s. stripped_lem s ns))
