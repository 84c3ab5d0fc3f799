-- ===== src/Federation/Router/Discovery.antt =====
-- internal/federation/router.go (UpdateFromDiscovery): the mappings after a discovery.
use stac_proxy.Common.{
  ◌≡◌, refl, ◌∙◌, String, Bool, true, false, ◌&&◌, not, none, some, List, [], ◌∷◌, arith, str_eq,
  str_eq_iff, if◌then◌else◌, lookup, is_empty,
}
use stac_proxy.Federation.Router.{
  Origin, CollectionRouter, select, or_nil, explicit_of, remove_mappings, find_origin,
  update_from_discovery,
}
use stac_proxy.Federation.Router.Routes.{any, has_id, any-select, any-add_mappings, lists}

any-empty : (p : Origin → Bool) (os : List Origin) → is_empty os ≡ true → any p os ≡ false
unfolding any
any-empty p [] h = refl
any-empty p (o ∷ os) h = cc

-- A map as Go has it: no key stands twice.
abbrev pub HasDistinctKeys : List (String × List Origin) → Type 0
HasDistinctKeys [] = Unit {0}
HasDistinctKeys ((c, os) ∷ m) = (lookup c m ≡ none) × HasDistinctKeys m

lookup-remove_mappings-none :
    (id c : String) (m : List (String × List Origin))
    → lookup c m ≡ none
    → lookup c (remove_mappings id m) ≡ none
unfolding lookup remove_mappings
lookup-remove_mappings-none id c [] h = refl
lookup-remove_mappings-none id c ((j, os) ∷ m) h =
    ground (arith, lookup-remove_mappings-none id c m)

any-remove_mappings :
    (p : Origin → Bool) (id c : String) (m : List (String × List Origin))
    → HasDistinctKeys m
    → any p (or_nil (lookup c (remove_mappings id m)))
      ≡ any (λ o. not (str_eq o.id id) && p o) (or_nil (lookup c m))
unfolding lookup remove_mappings or_nil any
any-remove_mappings p id c [] h = refl
any-remove_mappings p id c ((j, os) ∷ m) h = ground (
  arith,
  str_eq_iff j c,
  any-select p (λ o. not (str_eq o.id id)) os,
  any-empty p (select (λ o. not (str_eq o.id id)) os),
  lookup-remove_mappings-none id j m h.0,
  any-remove_mappings p id c m h.1,
)

find_origin-id :
    (id : String) (os : List Origin) (o : Origin) → find_origin id os ≡ some o → o.id ≡ id
unfolding find_origin
find_origin-id id [] o h = cc
find_origin-id id (x ∷ xs) o h = ground (arith, str_eq_iff x.id id, find_origin-id id xs o)

any-never : {A : Type 0} (xs : List A) → any (λ x. false) xs ≡ false
unfolding any
any-never [] = refl
any-never (x ∷ xs) = any-never xs

-- Dropping an ID drops its origins and no others.
has_id-others :
    (k id : String) (os : List Origin)
    → any (λ o. not (str_eq o.id id) && str_eq o.id k) os
      ≡ (if str_eq k id then false else has_id k os)
unfolding any
has_id-others k id [] = ground arith
has_id-others k id (o ∷ os) =
    ground (arith, str_eq_iff o.id id, str_eq_iff o.id k, str_eq_iff k id, has_id-others k id os)

-- After a discovery for a registered origin, that origin stands exactly under the collections that
-- were discovered, with its prefix, and every other ID under the collections it stood under before.
pub has_id-update_from_discovery :
    (k c id : String) (found : List String) (r : CollectionRouter) (o : Origin)
    → HasDistinctKeys r.collection_to_origins
    → find_origin id r.all_origins ≡ some o
    → has_id k (explicit_of c (update_from_discovery id found r))
      ≡ (if str_eq k id then lists o c found else has_id k (explicit_of c r))
unfolding update_from_discovery explicit_of
has_id-update_from_discovery k c id found r o keyed hit =
    let m = r.collection_to_origins in
    let named : Origin → Bool = λ o. str_eq o.id k in
    let added = any-add_mappings named c o found (remove_mappings id m) in
    let left = any-remove_mappings named id c m keyed ∙ has_id-others k id (or_nil (lookup c m)) in
    let same = find_origin-id id r.all_origins o hit in
    rw hit (ground (arith, added, left, same, str_eq_iff k id, str_eq_iff o.id k))
