-- ===== src/Middleware/Authz/Scope.antt =====
-- internal/middleware/authz/middleware.go (applyConstraints, intersectStrings, removeStrings): the
-- limit and the collections of a search request under a decision's constraints. A limit below zero
-- is as zero; the fields of the request that the code does not read are left out.
use stac_proxy.Common.{
  ℕ, ◌≡◌, refl, String, Bool, true, false, ◌&&◌, ◌||◌, not, Option, none, some, List, [], ◌∷◌,
  is_empty, ltb, leb, ◌==◌, if◌then◌else◌, elem, select_names, arith, ◌>>=◌, sym, ◌∙◌,
  elem-select_names,
}
use stac_proxy.Stac.Cql2.{Json}
use stac_proxy.Middleware.Authz.{GeofenceConstraint, AuthzConstraints, is_set}

pub record SearchRequest : Type 0 where
  pub collections : List String
  pub limit : ℕ
  pub filter : Option Json
  pub filter_lang : String

unfoldable pub intersect_strings : List String → List String → List String
intersect_strings a b = select_names (λ s. elem s a) b

unfoldable pub remove_strings : List String → List String → List String
remove_strings a b = select_names (λ s. not (elem s b)) a

unfoldable pub clamp_limit : ℕ → ℕ → ℕ
clamp_limit max limit = if ltb 0 max && (limit == 0 || ltb max limit) then max else limit

-- No collection left is errCollectionsDenied.
unfoldable pub some_left : List String → Option (List String)
some_left [] = none
some_left (s ∷ ss) = some (s ∷ ss)

unfoldable pub allow_collections : List String → List String → Option (List String)
unfolding some_left
allow_collections allowed requested =
    if is_empty allowed
    then some requested
    else (if is_empty requested
        then some allowed
        else some_left (intersect_strings allowed requested))

unfoldable pub deny_collections : List String → List String → Option (List String)
unfolding some_left
deny_collections denied requested =
    if not (is_empty denied) && not (is_empty requested)
    then some_left (remove_strings requested denied)
    else some requested

-- The mode that an operator forgot to set.
unfoldable pub default_filter_mode : Bool → Option GeofenceConstraint → Option GeofenceConstraint
default_filter_mode pushed_down none = none
default_filter_mode pushed_down (some g) =
    if is_set g.allowed_area && (not g.filter_mode && not pushed_down)
    then some (record g { filter_mode = true })
    else some g

unfoldable pub apply_constraints :
    AuthzConstraints → SearchRequest → Option (SearchRequest × AuthzConstraints)
apply_constraints c sr = do
  allowed ← allow_collections c.allowed_collections sr.collections
  left ← deny_collections c.denied_collections allowed
  some (
    record sr { limit = clamp_limit c.max_results sr.limit; collections = left },
    record c { geofence = default_filter_mode c.geofence_pushed_down c.geofence },
  )

-- The collections that the constraints let a request reach.
unfoldable pub permits : AuthzConstraints → String → Bool
permits c s =
    (is_empty c.allowed_collections || elem s c.allowed_collections)
    && not (elem s c.denied_collections)

unfoldable pub asks : SearchRequest → String → Bool
asks sr s = is_empty sr.collections || elem s sr.collections

-- What the collections of the request are worth after a step: an error where none of them is to
-- stay, and otherwise exactly the ones that are.
abbrev IsScope : (String → Bool) → Option (List String) → Type 0
IsScope t none = (s : String) → t s ≡ false
IsScope t (some left) = (is_empty left ≡ false) × ((s : String) → elem s left ≡ t s)

some_left-IsScope :
    (t : String → Bool) (ss : List String)
    → ((s : String) → elem s ss ≡ t s)
    → IsScope t (some_left ss)
unfolding some_left elem
some_left-IsScope t [] h = λ s. sym (h s)
some_left-IsScope t (x ∷ xs) h = (refl, h)

IsScope-ext :
    (t u : String → Bool) (o : Option (List String))
    → ((s : String) → t s ≡ u s)
    → IsScope t o
    → IsScope u o
IsScope-ext t u none same h = λ s. sym (same s) ∙ h s
IsScope-ext t u (some left) same h = (h.0, λ s. h.1 s ∙ same s)

allow_collections-IsScope :
    (allowed requested : List String)
    → (is_empty allowed && is_empty requested) ≡ false
    → IsScope
        (λ s. (is_empty requested || elem s requested) && (is_empty allowed || elem s allowed))
        (allow_collections allowed requested)
unfolding allow_collections intersect_strings
allow_collections-IsScope [] [] told = absurd (ground arith)
allow_collections-IsScope [] (r ∷ rs) told = (refl, λ s. ground arith)
allow_collections-IsScope (a ∷ as') [] told = (refl, λ s. refl)
allow_collections-IsScope (a ∷ as') (r ∷ rs) told =
    some_left-IsScope (λ s. elem s (r ∷ rs) && elem s (a ∷ as'))
      (select_names (λ s. elem s (a ∷ as')) (r ∷ rs))
      (λ s. elem-select_names (λ q. elem q (a ∷ as')) s (r ∷ rs))

deny_collections-IsScope :
    (denied requested : List String)
    → is_empty requested ≡ false
    → IsScope (λ s. elem s requested && not (elem s denied)) (deny_collections denied requested)
unfolding deny_collections remove_strings elem
deny_collections-IsScope [] requested told = (told, λ s. ground arith)
deny_collections-IsScope (d ∷ ds) [] told = absurd (ground arith)
deny_collections-IsScope (d ∷ ds) (r ∷ rs) told =
    some_left-IsScope (λ s. elem s (r ∷ rs) && not (elem s (d ∷ ds)))
      (select_names (λ s. not (elem s (d ∷ ds))) (r ∷ rs))
      (λ s. elem-select_names (λ q. not (elem q (d ∷ ds))) s (r ∷ rs))

-- A step after a step: what is left by both.
bind-IsScope :
    (t keep : String → Bool) (o : Option (List String)) (f : List String → Option (List String))
    → IsScope t o
    → ((left : List String) → is_empty left ≡ false → IsScope (λ s. elem s left && keep s) (f left))
    → IsScope (λ s. t s && keep s) (o >>= f)
bind-IsScope t keep none f h step = λ s. ground (arith, h s)
bind-IsScope t keep (some left) f h step =
    IsScope-ext (λ s. elem s left && keep s) (λ s. t s && keep s) (f left) (λ s. rw (h.1 s) refl)
      (step left h.0)

-- What the request is worth afterwards: an error where it reaches no collection that it may, and
-- otherwise a request for exactly those, with a limit under the maximum.
abbrev pub Obeys :
    AuthzConstraints → SearchRequest → Option (SearchRequest × AuthzConstraints) → Type 0
Obeys c sr none = (s : String) → (asks sr s && permits c s) ≡ false
Obeys c sr (some (sr', c')) =
    (is_empty sr'.collections ≡ false)
    × ((s : String) → elem s sr'.collections ≡ (asks sr s && permits c s))
    × ((c.max_results == 0 || (ltb 0 sr'.limit && leb sr'.limit c.max_results)) ≡ true)

clamp_limit_within :
    (max limit : ℕ)
    → (max == 0 || (ltb 0 (clamp_limit max limit) && leb (clamp_limit max limit) max)) ≡ true
unfolding clamp_limit
clamp_limit_within max limit = ground arith

obeyed_left :
    (c : AuthzConstraints) (sr : SearchRequest) (left : Option (List String))
    → IsScope (λ s. asks sr s && permits c s) left
    → Obeys c sr (
        left >>= λ ss. some (
          record sr { limit = clamp_limit c.max_results sr.limit; collections = ss },
          record c { geofence = default_filter_mode c.geofence_pushed_down c.geofence },
        ))
obeyed_left c sr none h = h
obeyed_left c sr (some ss) h = (h.0, h.1, clamp_limit_within c.max_results sr.limit)

obeyed :
    (c : AuthzConstraints) (sr : SearchRequest) (allowed : Option (List String))
    → IsScope (λ s. asks sr s && permits c s) (allowed >>= deny_collections c.denied_collections)
    → Obeys c sr (
        allowed >>= λ a. deny_collections c.denied_collections a >>= λ left. some (
          record sr { limit = clamp_limit c.max_results sr.limit; collections = left },
          record c { geofence = default_filter_mode c.geofence_pushed_down c.geofence },
        ))
obeyed c sr none h = h
obeyed c sr (some a) h = obeyed_left c sr (deny_collections c.denied_collections a) h

-- Where the constraints or the request name collections, the request that goes on asks for exactly
-- the collections that it named (any, if it named none) and that are allowed and not denied, at least
-- one, and its limit is between 1 and a maximum that is set; an error is given only if there is no
-- such collection.
pub apply_constraints-Obeys :
    (c : AuthzConstraints) (sr : SearchRequest)
    → (is_empty c.allowed_collections && is_empty sr.collections) ≡ false
    → Obeys c sr (apply_constraints c sr)
unfolding apply_constraints asks permits
apply_constraints-Obeys c sr told =
    obeyed c sr (allow_collections c.allowed_collections sr.collections) (
      IsScope-ext
        (λ s.
          (is_empty sr.collections || elem s sr.collections)
          && (is_empty c.allowed_collections || elem s c.allowed_collections)
          && not (elem s c.denied_collections))
        (λ s. asks sr s && permits c s)
        (allow_collections c.allowed_collections sr.collections
          >>= deny_collections c.denied_collections)
        (λ s. ground arith)
        (bind-IsScope _ (λ s. not (elem s c.denied_collections))
          (allow_collections c.allowed_collections sr.collections)
          (deny_collections c.denied_collections)
          (allow_collections-IsScope c.allowed_collections sr.collections told)
          (deny_collections-IsScope c.denied_collections)))
