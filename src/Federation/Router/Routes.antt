-- ===== src/Federation/Router/Routes.antt =====
-- internal/federation/router.go (Register, Route): registrations, and the routes that they lead to.
use Prim.Native.String.{◌++◌ as str_append}
use mathlib.Core.List.{append-nil, append_assoc}
use stac_proxy.Common.{
  ◌≡◌, refl, ◌∙◌, ap, String, Bool, true, false, ◌&&◌, ◌||◌, not, List, [], ◌∷◌, ◌++◌, arith,
  str_eq, str_eq_iff, if◌then◌else◌, lookup, upsert, is_empty,
}
use stac_proxy.Federation.Router.{
  Origin, CollectionRouter, new_collection_router, select, recompute_implicit, add_mappings, or_nil,
  register, is_excluded, put, put_all, explicit_of, candidates, route_into, route,
}

unfoldable pub any {ℓ} : {A : Type ℓ} → (A → Bool) → List A → Bool
any p [] = false
any p (x ∷ xs) = p x || any p xs

pub any-append {ℓ} :
    {A : Type ℓ} (p : A → Bool) (xs ys : List A) → any p (xs ++ ys) ≡ (any p xs || any p ys)
unfolding any
any-append p [] ys = refl
any-append p (x ∷ xs) ys = ground (arith, any-append p xs ys)

-- An origin of the ID is in the list.
abbrev pub has_id : String → List Origin → Bool
has_id k = any (λ o. str_eq o.id k)

pub any-select :
    (p q : Origin → Bool) (os : List Origin) → any p (select q os) ≡ any (λ o. q o && p o) os
unfolding any select
any-select p q [] = refl
any-select p q (o ∷ os) = ground (arith, any-select p q os)

has_id-put :
    (k : String) (o : Origin) (set : List Origin)
    → has_id k (put o set) ≡ (str_eq o.id k || has_id k set)
unfolding any put
has_id-put k o [] = refl
has_id-put k o (p ∷ set) = ground (arith, str_eq_iff p.id o.id, has_id-put k o set)

has_id-put_all :
    (k : String) (os set : List Origin) → has_id k (put_all os set) ≡ (has_id k os || has_id k set)
unfolding any put_all
has_id-put_all k [] set = refl
has_id-put_all k (o ∷ os) set = ground (arith, has_id-put_all k os (put o set), has_id-put k o set)

has_id-route_into :
    (k : String) (cs : List String) (r : CollectionRouter) (set : List Origin)
    → has_id k (route_into cs r set) ≡ (any (λ c. has_id k (candidates c r)) cs || has_id k set)
unfolding any route_into
has_id-route_into k [] r set = refl
has_id-route_into k (c ∷ cs) r set = ground (
  arith,
  has_id-route_into k cs r (put_all (candidates c r) set),
  has_id-put_all k (candidates c r) set,
)

any-lookup-upsert :
    (p : Origin → Bool) (c k : String) (o : Origin) (m : List (String × List Origin))
    → any p (or_nil (lookup c (upsert k [] (λ os. os ++ o ∷ []) m)))
      ≡ ((str_eq k c && p o) || any p (or_nil (lookup c m)))
unfolding lookup upsert or_nil any
any-lookup-upsert p c k o [] = ground arith
any-lookup-upsert p c k o ((j, os) ∷ m) = ground (
  arith,
  str_eq_iff j k,
  str_eq_iff j c,
  str_eq_iff k c,
  any-append p os (o ∷ []),
  any-lookup-upsert p c k o m,
)

-- The origin lists the collection, under its prefix.
abbrev pub lists : Origin → String → List String → Bool
lists o c = any (λ x. str_eq (str_append o.collection_prefix x) c)

pub any-add_mappings :
    (p : Origin → Bool) (c : String) (o : Origin) (ids : List String)
    (m : List (String × List Origin))
    → any p (or_nil (lookup c (add_mappings o ids m)))
      ≡ ((lists o c ids && p o) || any p (or_nil (lookup c m)))
unfolding add_mappings any
any-add_mappings p c o [] m = refl
any-add_mappings p c o (x ∷ xs) m =
    let key = str_append o.collection_prefix x in
    ground (
      arith,
      any-add_mappings p c o xs (upsert key [] (λ os. os ++ o ∷ []) m),
      any-lookup-upsert p c key o m,
    )

-- The origin serves the collection: it lists it or, without a list and searchable, it does not
-- exclude it.
unfoldable pub serves : Origin → String → Bool
serves o c =
    if is_empty o.collections
    then o.searchable && not (is_excluded o c)
    else lists o c o.collections

-- The router after a sequence of registrations.
unfoldable pub register_all : List Origin → CollectionRouter → CollectionRouter
register_all [] r = r
register_all (o ∷ os) r = register_all os (register o r)

-- What the registrations of `os` make of a router, as far as tests of its lists tell.
pub record Registered (os : List Origin) (r : CollectionRouter) : Type 0 where
  pub explicit :
      (p : Origin → Bool) (c : String)
      → any p (explicit_of c r) ≡ any (λ o. lists o c o.collections && p o) os
  pub known :
      (p : Origin → Bool)
      → any p r.all_origins ≡ any (λ o. (o.searchable || not (is_empty o.collections)) && p o) os
  pub implicit : r.implicit_all_origins ≡ recompute_implicit r.all_origins

register-Registered :
    (os : List Origin) (o : Origin) (r : CollectionRouter)
    → Registered os r
    → Registered (os ++ o ∷ []) (register o r)
unfolding register explicit_of any
register-Registered os o r v = record {
  explicit = λ p c. ground (
    arith,
    any-add_mappings p c o o.collections r.collection_to_origins,
    any-append (λ o. lists o c o.collections && p o) os (o ∷ []),
    v.explicit p c,
  );
  known = λ p. ground (
    arith,
    any-append (λ o. (o.searchable || not (is_empty o.collections)) && p o) os (o ∷ []),
    any-append p r.all_origins (o ∷ []),
    v.known p,
  );
  implicit = refl;
}

register_all-Registered :
    (done os : List Origin) (r : CollectionRouter)
    → Registered done r
    → Registered (done ++ os) (register_all os r)
unfolding register_all
register_all-Registered done [] r v = rw (append-nil done) v
register_all-Registered done (o ∷ os) r v =
    rw (← append_assoc done (o ∷ []) os)
      (register_all-Registered (done ++ o ∷ []) os (register o r) (register-Registered done o r v))

registered : (os : List Origin) → Registered os (register_all os new_collection_router)
unfolding explicit_of lookup or_nil any recompute_implicit select
registered os =
    register_all-Registered [] os new_collection_router
      (record { explicit = λ p c. refl; known = λ p. refl; implicit = refl })

any-or :
    (p q : Origin → Bool) (os : List Origin) → (any p os || any q os) ≡ any (λ o. p o || q o) os
unfolding any
any-or p q [] = refl
any-or p q (o ∷ os) = ground (arith, any-or p q os)

pub any-congr {ℓ} :
    {A : Type ℓ} (p q : A → Bool) (xs : List A) → ((a : A) → p a ≡ q a) → any p xs ≡ any q xs
unfolding any
any-congr p q [] h = refl
any-congr p q (o ∷ os) h = rw (h o, any-congr p q os h)

-- An enabled origin of the ID that serves the collection.
abbrev pub answers : String → String → Origin → Bool
answers k c o = str_eq o.id k && (o.enabled && serves o c)

lists_nothing :
    (o : Origin) (c : String) (ids : List String) → is_empty ids ≡ true → lists o c ids ≡ false
unfolding any
lists_nothing o c [] h = refl
lists_nothing o c (x ∷ xs) h = cc

lists-or-implicit :
    (k c : String) (o : Origin)
    → ((lists o c o.collections && (o.enabled && str_eq o.id k))
        || ((o.searchable || not (is_empty o.collections))
            && (is_empty o.collections && ((o.enabled && not (is_excluded o c)) && str_eq o.id k))))
      ≡ answers k c o
unfolding serves
lists-or-implicit k c o = ground (arith, lists_nothing o c o.collections)

has_id-candidates :
    (k c : String) (os : List Origin) (r : CollectionRouter)
    → Registered os r
    → has_id k (candidates c r) ≡ any (answers k c) os
unfolding candidates recompute_implicit
has_id-candidates k c os r v =
    let free : Origin → Bool = λ o. o.enabled && not (is_excluded o c) in
    let named : Origin → Bool = λ o. str_eq o.id k in
    let listed : Origin → Bool = λ o. lists o c o.collections && (o.enabled && named o) in
    let unlisted : Origin → Bool = λ o.
      (o.searchable || not (is_empty o.collections))
      && (is_empty o.collections && (free o && named o)) in
    let listing =
      any-select named (λ o. o.enabled) (explicit_of c r)
      ∙ v.explicit (λ o. o.enabled && named o) c in
    let rest =
      ap (λ os. any named (select free os)) v.implicit
      ∙ any-select named free (recompute_implicit r.all_origins)
      ∙ any-select (λ o. free o && named o) (λ o. is_empty o.collections) r.all_origins
      ∙ v.known (λ o. is_empty o.collections && (free o && named o)) in
    any-append named (select (λ o. o.enabled) (explicit_of c r))
      (select free r.implicit_all_origins)
    ∙ ap (λ b. b || any named (select free r.implicit_all_origins)) listing
    ∙ ap (λ b. any listed os || b) rest
    ∙ any-or listed unlisted os
    ∙ any-congr _ _ os (lists-or-implicit k c)

or_none : (b : Bool) (k : String) → (b || has_id k []) ≡ b
unfolding any
or_none true k = refl
or_none false k = refl

-- After any registrations, the route for a list of collections, not empty, has an origin of an ID
-- exactly when an enabled origin of that ID was registered which serves one of the collections.
pub has_id-route :
    (k c : String) (cs : List String) (os : List Origin)
    → has_id k (route (c ∷ cs) (register_all os new_collection_router))
      ≡ any (λ d. any (answers k d) os) (c ∷ cs)
unfolding route
has_id-route k c cs os =
    let r = register_all os new_collection_router in
    has_id-route_into k (c ∷ cs) r []
    ∙ or_none (any (λ d. has_id k (candidates d r)) (c ∷ cs)) k
    ∙ any-congr (λ d. has_id k (candidates d r)) (λ d. any (answers k d) os) (c ∷ cs)
        (λ d. has_id-candidates k d os r (registered os))

-- Without collections the route has the enabled origins that are searchable, whether they list
-- collections or not.
pub route_unfiltered :
    (p : Origin → Bool) (os : List Origin)
    → any p (route [] (register_all os new_collection_router))
      ≡ any (λ o. (o.enabled && o.searchable) && p o) os
unfolding route
route_unfiltered p os =
    any-select p (λ o. o.enabled && o.searchable)
      (register_all os new_collection_router).all_origins
    ∙ (registered os).known (λ o. (o.enabled && o.searchable) && p o)
    ∙ any-congr _ _ os (λ o. ground arith)
