-- ===== src/Federation/Router.antt =====
-- internal/federation/router.go: which origins are asked for a collection. The router's lock makes
-- each operation atomic, so that an operation is a function of the router. The origins are never
-- changed by it, so a pointer stands for the record that it points to.
pub mod Routes
pub mod Discovery
use Prim.Native.String.{◌++◌ as str_append}
use stac_proxy.Common.{
  ℕ, String, Bool, true, false, ◌&&◌, ◌||◌, not, Option, none, some, List, [], ◌∷◌, ◌++◌, str_eq,
  if◌then◌else◌, lookup, upsert, is_empty, length,
}

-- The fields of `Origin` that routing reads.
pub record Origin : Type 0 where
  pub id : String
  pub enabled : Bool
  pub searchable : Bool
  pub collections : List String
  pub exclude_collections : List String
  pub collection_prefix : String

pub record CollectionRouter : Type 0 where
  pub collection_to_origins : List (String × List Origin)
  pub all_origins : List Origin
  pub implicit_all_origins : List Origin

abbrev pub new_collection_router : CollectionRouter
new_collection_router = record {
  collection_to_origins = [];
  all_origins = [];
  implicit_all_origins = [];
}

-- `for _, o := range origins { if p(o) { result = append(result, o) } }`
unfoldable pub select : (Origin → Bool) → List Origin → List Origin
select p [] = []
select p (o ∷ os) = if p o then o ∷ select p os else select p os

unfoldable pub recompute_implicit : List Origin → List Origin
recompute_implicit = select (λ o. is_empty o.collections)

-- `m[fullID] = append(m[fullID], origin)` for every collection of a list.
unfoldable pub add_mappings :
    Origin → List String → List (String × List Origin) → List (String × List Origin)
add_mappings origin [] m = m
add_mappings origin (c ∷ cs) m =
    add_mappings origin cs
      (upsert (str_append origin.collection_prefix c) [] (λ os. os ++ origin ∷ []) m)

unfoldable pub register : Origin → CollectionRouter → CollectionRouter
register origin r =
    let known =
      if origin.searchable || not (is_empty origin.collections)
      then r.all_origins ++ origin ∷ []
      else r.all_origins in
    record {
      collection_to_origins = add_mappings origin origin.collections r.collection_to_origins;
      all_origins = known;
      implicit_all_origins = recompute_implicit known;
    }

unfoldable pub is_excluded : Origin → String → Bool
is_excluded origin coll_id = excluded_in origin.exclude_collections coll_id
  where
    excluded_in : List String → String → Bool
    excluded_in [] c = false
    excluded_in (x ∷ xs) c = if str_eq x c then true else excluded_in xs c

-- `originSet[o.ID] = o`: the set keeps one origin for an ID, the one put last.
unfoldable pub put : Origin → List Origin → List Origin
put o [] = o ∷ []
put o (p ∷ set) = if str_eq p.id o.id then o ∷ set else p ∷ put o set

unfoldable pub or_nil : Option (List Origin) → List Origin
or_nil (some os) = os
or_nil none = []

-- `r.collectionToOrigins[collID]`, with no origins for a missing key.
unfoldable pub explicit_of : String → CollectionRouter → List Origin
unfolding or_nil
explicit_of coll_id r = or_nil (lookup coll_id r.collection_to_origins)

unfoldable pub put_all : List Origin → List Origin → List Origin
put_all [] set = set
put_all (o ∷ os) set = put_all os (put o set)

-- The origins for one collection: the enabled ones that list it, and then the enabled ones that
-- list no collections and do not exclude it.
unfoldable pub candidates : String → CollectionRouter → List Origin
candidates coll_id r =
    select (λ o. o.enabled) (explicit_of coll_id r)
    ++ select (λ o. o.enabled && not (is_excluded o coll_id)) r.implicit_all_origins

unfoldable pub route_into : List String → CollectionRouter → List Origin → List Origin
route_into [] r set = set
route_into (c ∷ cs) r set = route_into cs r (put_all (candidates c r) set)

unfoldable pub route : List String → CollectionRouter → List Origin
route [] r = select (λ o. o.enabled && o.searchable) r.all_origins
route (c ∷ cs) r = route_into (c ∷ cs) r []

unfoldable pub route_collection : String → CollectionRouter → List Origin
route_collection coll_id r = route (coll_id ∷ []) r

unfoldable pub find_origin : String → List Origin → Option Origin
find_origin origin_id [] = none
find_origin origin_id (o ∷ os) = if str_eq o.id origin_id then some o else find_origin origin_id os

-- The mappings without an origin; a key that is left without origins is deleted.
unfoldable pub remove_mappings : String → List (String × List Origin) → List (String × List Origin)
remove_mappings origin_id [] = []
remove_mappings origin_id ((c, os) ∷ m) =
    let kept = select (λ o. not (str_eq o.id origin_id)) os in
    let rest = remove_mappings origin_id m in if is_empty kept then rest else (c, kept) ∷ rest

remap : Option Origin → String → List String → CollectionRouter → CollectionRouter
remap none origin_id collections r = r
remap (some origin) origin_id collections r = record r {
  collection_to_origins =
      add_mappings origin collections (remove_mappings origin_id r.collection_to_origins);
}

unfoldable pub update_from_discovery : String → List String → CollectionRouter → CollectionRouter
unfolding remap
update_from_discovery origin_id collections r =
    remap (find_origin origin_id r.all_origins) origin_id collections r

listed_or_implicit : Option (List Origin) → String → CollectionRouter → List Origin
listed_or_implicit (some os) coll_id r = select (λ o. o.enabled) os
listed_or_implicit none coll_id r =
    select (λ o. o.enabled && (is_empty o.collections && not (is_excluded o coll_id))) r.all_origins

unfoldable pub get_collection_origins : String → CollectionRouter → List Origin
unfolding listed_or_implicit
get_collection_origins coll_id r =
    listed_or_implicit (lookup coll_id r.collection_to_origins) coll_id r

unfoldable pub enabled_origins : CollectionRouter → List Origin
enabled_origins r = select (λ o. o.enabled) r.all_origins

unfoldable pub origin_count : CollectionRouter → ℕ
origin_count r = length r.all_origins

unfoldable pub collection_count : CollectionRouter → ℕ
collection_count r = length r.collection_to_origins
