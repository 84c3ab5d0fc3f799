-- ===== src/Middleware/Authz/Injected.antt =====
-- internal/middleware/authz/middleware.go (injectCQL2Filter) and cql2.go (maybePushDownGeofence): the
-- filter of the request that goes upstream, as a whole.
use stac_proxy.Common.{
  ◌≡◌, refl, sym, ap, ◌∙◌, ◌↔◌, Bool, true, false, ◌&&◌, not, Option, none, some, [], ◌∷◌,
  if◌then◌else◌, ◌>>=◌, some-bind, arith,
}
use stac_proxy.Stac.Cql2.{Fields, Library}
use stac_proxy.Middleware.Authz.{AuthzConstraints}
use stac_proxy.Middleware.Authz.Scope.{SearchRequest}
use stac_proxy.Middleware.Authz.Filters.{
  Builders, Expr?, parse_policy_cql2, parse_user_cql2, geofence_to_cql2, required_filters_to_cql2,
  push_fence, maybe_push_down_geofence, injected, with_user, policy_side, inject,
  inject_cql2_filter,
}
use stac_proxy.Middleware.Authz.Merging.{
  IsBuilders, Passes, PassesRead, and_non_nil-Passes, write_filter-PassesRead,
  push_fence-PassesRead,
}

-- Two guards with the same early return are one.
guards_join {ℓ} :
    {A : Type ℓ} (b able : Bool) (early late : A)
    → (if b then early else (if able then late else early))
      ≡ (if not b && able then late else early)
guards_join true able early late = refl
guards_join false able early late = refl

module _ {G : Type 0} (geo : Library G) (k : Builders) where
  -- The item satisfies the geofence, where it is to be pushed down.
  abbrev pub Fenced : Bool → AuthzConstraints → Fields → Type 0
  Fenced true c item = PassesRead geo k (geofence_to_cql2 k c.geofence) item
  Fenced false c item = Unit {0}

  -- The item passes every side of the policy: its filter, its required filters, and the geofence where
  -- it is pushed down (it was not before, and the evaluator knows spatial predicates).
  abbrev pub PassesPolicy : AuthzConstraints → Bool → Fields → Type 0
  PassesPolicy c spatial item =
      PassesRead geo k (parse_policy_cql2 k c) item
      × PassesRead geo k (required_filters_to_cql2 k c.required_filters) item
      × Fenced (not c.geofence_pushed_down && spatial) c item

  module _ (sound : IsBuilders geo k) (item : Fields) where
    push_if-PassesRead :
        (c c' : AuthzConstraints) (go_on : Bool)
        → (if go_on then (geofence_to_cql2 k c.geofence >>= push_fence k c) else some c) ≡ some c'
        → (c'.required_filters ≡ c.required_filters)
          × (PassesRead geo k (parse_policy_cql2 k c') item
              ↔ PassesRead geo k (parse_policy_cql2 k c) item × Fenced go_on c item)
    push_if-PassesRead c c' true h =
        let (fence, read, put) = some-bind (geofence_to_cql2 k c.geofence) (push_fence k c) c' h in
        rw read (push_fence-PassesRead geo k sound item c c' fence put)
    push_if-PassesRead c c' false h =
        let same : c ≡ c' = ground arith in rw (sym same) (refl, (λ p. (p, tt), λ p. p.0))

    maybe_push_down-PassesRead :
        (c c' : AuthzConstraints) (spatial : Bool)
        → maybe_push_down_geofence k c spatial ≡ some c'
        → (c'.required_filters ≡ c.required_filters)
          × (PassesRead geo k (parse_policy_cql2 k c') item
              ↔ PassesRead geo k (parse_policy_cql2 k c) item
                × Fenced (not c.geofence_pushed_down && spatial) c item)
    unfolding maybe_push_down_geofence
    maybe_push_down-PassesRead c c' spatial h =
        push_if-PassesRead c c' (not c.geofence_pushed_down && spatial)
          (sym (guards_join c.geofence_pushed_down spatial _ _) ∙ h)

    pub policy_side-Passes :
        (c updated : AuthzConstraints) (spatial : Bool) (policy required : Expr?)
        → policy_side k c spatial ≡ some (updated, policy, required)
        → Passes geo k policy item × Passes geo k required item ↔ PassesPolicy c spatial item
    unfolding policy_side
    policy_side-Passes c updated spatial policy required read =
        let (u, pushed_down, r) = some-bind (maybe_push_down_geofence k c spatial) _ _ read in
        let (p, policy_read, r') = some-bind (parse_policy_cql2 k u) _ _ r in
        let (q, required_read, r'') =
          some-bind (required_filters_to_cql2 k u.required_filters) _ _ r' in
        let p_same : p ≡ policy = ground arith in
        let q_same : q ≡ required = ground arith in
        let (kept, (to, from)) = maybe_push_down-PassesRead c u spatial pushed_down in
        let policy_is : parse_policy_cql2 k u ≡ some policy = policy_read ∙ ap some p_same in
        let required_is : required_filters_to_cql2 k c.required_filters ≡ some required =
          ap (required_filters_to_cql2 k) (sym kept) ∙ required_read ∙ ap some q_same in
        let to' = rw policy_is at to in
        rw required_is
          (λ h. ((to' h.0).0, h.1, (to' h.0).1), λ h. ((rw policy_is at from) (h.0, h.2), h.1))

    with_user-PassesRead :
        (c c' : AuthzConstraints) (sr sr' : SearchRequest) (policy required : Expr?)
        (user : Option Expr?)
        → parse_user_cql2 k sr.filter ≡ user
        → with_user k c sr policy required user ≡ injected c' sr'
        → (c ≡ c')
          × (PassesRead geo k (parse_user_cql2 k sr'.filter) item
              ↔ PassesRead geo k user item × Passes geo k policy item × Passes geo k required item)
    unfolding with_user
    with_user-PassesRead c c' sr sr' policy required none read h = absurd (ground arith)
    with_user-PassesRead c c' sr sr' policy required (some user) read h =
        let (to, from) = and_non_nil-Passes geo k sound item (user ∷ policy ∷ required ∷ []) in
        let (same, (up, down)) =
          write_filter-PassesRead geo k sound item c c' sr sr' user _ read (λ p. (to p).0) h in
        (
          same,
          (
            λ p. let all = to (up p) in (all.0, all.1.0, all.1.1.0),
            λ p. down (from (p.0, (p.1, (p.2, tt)))),
          ),
        )

    inject-PassesRead :
        (c c' : AuthzConstraints) (sr sr' : SearchRequest) (spatial : Bool)
        (side : Option (AuthzConstraints × Expr? × Expr?))
        → policy_side k c spatial ≡ side
        → inject k sr side ≡ injected c' sr'
        → PassesRead geo k (parse_user_cql2 k sr'.filter) item
          ↔ PassesRead geo k (parse_user_cql2 k sr.filter) item × PassesPolicy c spatial item
    unfolding inject policy_side
    inject-PassesRead c c' sr sr' spatial none read h = absurd (ground arith)
    inject-PassesRead c c' sr sr' spatial (some (updated, policy, required)) read h =
        let (same, (up, down)) =
          with_user-PassesRead updated c' sr sr' policy required (parse_user_cql2 k sr.filter) refl
            h in
        let (to, from) = policy_side-Passes c updated spatial policy required read in
        (λ h. let (a, b, d) = up h in (a, to (b, d)), λ h. down (h.0, (from h.1).0, (from h.1).1))

    -- With the builders' promises: whatever way a client's filter is injected, an item passes the
    -- filter that goes upstream exactly if it passes the client's own filter, the policy's filter, the
    -- required filters, and the geofence where it is pushed down (the upstream knows spatial
    -- predicates and it was not pushed down before).
    pub inject_cql2_filter-PassesRead :
        (c c' : AuthzConstraints) (sr sr' : SearchRequest) (spatial : Bool)
        → inject_cql2_filter k sr c spatial ≡ injected c' sr'
        → PassesRead geo k (parse_user_cql2 k sr'.filter) item
          ↔ PassesRead geo k (parse_user_cql2 k sr.filter) item × PassesPolicy c spatial item
    unfolding inject_cql2_filter
    inject_cql2_filter-PassesRead c c' sr sr' spatial h =
        inject-PassesRead c c' sr sr' spatial (policy_side k c spatial) refl h
