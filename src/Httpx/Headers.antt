-- ===== src/Httpx/Headers.antt =====
-- net/http's Header by its lines, in canonical form.
use stac_proxy.Common.{
  ◌≡◌, refl, str_eq_refl, arith, String, List, [], ◌∷◌, ◌++◌, str_eq, if◌then◌else◌,
}

abbrev pub Header : Type 0
Header = List (String × String)

-- `h.Get(name)`: the first line of the name.
unfoldable pub get_header : String → Header → String
get_header name [] = ""
get_header name ((n, v) ∷ hs) = if str_eq n name then v else get_header name hs

-- `h.Del(name)`
unfoldable pub del_header : String → Header → Header
del_header name [] = []
del_header name ((n, v) ∷ hs) =
    if str_eq n name then del_header name hs else (n, v) ∷ del_header name hs

-- `h.Set(name, value)`
unfoldable pub set_header : String → String → Header → Header
unfolding del_header
set_header name value h = del_header name h ++ (name, value) ∷ []

get_header-append :
    (name value : String) (h : Header)
    → get_header name (del_header name h ++ (name, value) ∷ []) ≡ value
unfolding get_header del_header
get_header-append name value [] = rw (str_eq_refl name) refl
get_header-append name value ((n, v) ∷ hs) = ground (arith, get_header-append name value hs)

-- What is set is what is read.
pub get_header-set_header :
    (name value : String) (h : Header) → get_header name (set_header name value h) ≡ value
unfolding set_header
get_header-set_header name value h = get_header-append name value h
