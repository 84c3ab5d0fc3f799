-- ===== src/Tests/Routing.antt =====
-- Runs of internal/federation/router.go.
use stac_proxy.Common.{◌≡◌, refl, true, List, [], ◌∷◌, str_eq, if◌then◌else◌, lookup, upsert, map}
use stac_proxy.Federation.Router.{
  Origin, CollectionRouter, new_collection_router, select, put, register, add_mappings, explicit_of,
  find_origin, recompute_implicit, candidates, is_excluded, route, route_into, put_all,
  update_from_discovery,
}
use stac_proxy.Federation.Router.Routes.{any, has_id, answers, lists, register_all, has_id-route}
use stac_proxy.Federation.Router.Discovery.{has_id-update_from_discovery}

-- One origin that lists a collection under a prefix, and one for everything but another.
abbrev listing : Origin
listing = record {
  id = "a";
  enabled = true;
  searchable = true;
  collections = "s2" ∷ [];
  exclude_collections = [];
  collection_prefix = "a_";
}

abbrev implicit : Origin
implicit = record {
  id = "b";
  enabled = true;
  searchable = true;
  collections = [];
  exclude_collections = "private" ∷ [];
  collection_prefix = "";
}

abbrev both : List Origin
both = listing ∷ implicit ∷ []

route-both :
    map (λ o. o.id) (route ("a_s2" ∷ []) (register_all both new_collection_router)) ≡ "a" ∷ "b" ∷ []
unfolding route register_all register add_mappings explicit_of select put candidates is_excluded
    recompute_implicit lookup upsert route_into put_all
route-both = refl

has_id-route_example :
    has_id "a" (route ("a_s2" ∷ "x" ∷ []) (register_all both new_collection_router))
    ≡ any (λ d. any (answers "a" d) both) ("a_s2" ∷ "x" ∷ [])
has_id-route_example = has_id-route "a" "a_s2" ("x" ∷ []) both

abbrev router : CollectionRouter
router = register_all both new_collection_router

has_id-update_from_discovery_example :
    has_id "a" (explicit_of "a_l8" (update_from_discovery "a" ("l8" ∷ []) router)) ≡ (
      if str_eq "a" "a"
      then lists listing "a_l8" ("l8" ∷ [])
      else has_id "a" (explicit_of "a_l8" router))
unfolding register_all register add_mappings find_origin lookup upsert
has_id-update_from_discovery_example =
    has_id-update_from_discovery "a" "a_l8" "a" ("l8" ∷ []) router listing (refl, tt) refl
