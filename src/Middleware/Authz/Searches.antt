-- ===== src/Middleware/Authz/Searches.antt =====
-- internal/middleware/authz/middleware.go (NewHTTPMiddleware): a search under a geofence that is not
-- pushed down, from the request to the response.
use stac_proxy.Common.{
  ◌≡◌, refl, sym, ap, ◌∙◌, Bool, true, false, ◌&&◌, not, Option, none, some, if◌then◌else◌, arith,
  inl, inr, Bool-cases, Option-cases, some-bind,
}
use stac_proxy.Stac.Cql2.{Fields, Library, field_of}
use stac_proxy.Middleware.Authz.{GeofenceConstraint, AuthzConstraints, AuthzDecision, is_set}
use stac_proxy.Middleware.Authz.Scope.{
  SearchRequest, allow_collections, deny_collections, default_filter_mode, apply_constraints,
}
use stac_proxy.Middleware.Authz.Filters.{Builders, prop_of}
use stac_proxy.Middleware.Authz.Geofence.{Bodies, says_feature_collection, parse_geofence_areas}
use stac_proxy.Middleware.Authz.Enforce.{
  StacInfo, HttpConfig, Captured, forwarded, admitted, is_ok, active_fence, after_scope, mutate,
  mutate_request, after, handle,
}
use stac_proxy.Middleware.Authz.Admitted.{before-admitted, handle-forwarded, admitted_lem}
use stac_proxy.Middleware.Authz.Fencing.{IsBodies, IsFenced, after-IsFenced}

applied_lem :
    (c c1 : AuthzConstraints) (sr sr1 : SearchRequest)
    → apply_constraints c sr ≡ some (sr1, c1)
    → (c1.geofence ≡ default_filter_mode c.geofence_pushed_down c.geofence)
      × (c1.geofence_pushed_down ≡ c.geofence_pushed_down)
unfolding apply_constraints
applied_lem c c1 sr sr1 h =
    let (allowed, first, r) =
      some-bind (allow_collections c.allowed_collections sr.collections) _ _ h in
    let (left, second, r') = some-bind (deny_collections c.denied_collections allowed) _ _ r in
    (ground arith, ground arith)

abbrev filtering : GeofenceConstraint → GeofenceConstraint
filtering g = record g { filter_mode = true }

kept_lem :
    (set mode : Bool) (x y : Option GeofenceConstraint)
    → mode ≡ true
    → (if set && (not mode && true) then x else y) ≡ y
kept_lem true true x y h = refl
kept_lem false true x y h = refl
kept_lem set false x y h = absurd (ground arith)

default_lem :
    (g : GeofenceConstraint)
    → is_set g.allowed_area ≡ true
    → default_filter_mode false (some g) ≡ some (filtering g)
unfolding default_filter_mode
default_lem g set = elim (Bool-cases g.filter_mode) [
  | inl on ↦
      kept_lem (is_set g.allowed_area) g.filter_mode (some (filtering g)) (some g) on
      ∙ ap (λ b. some (record g { filter_mode = b })) on
  | inr off ↦ rw (set, off) refl
]

active_lem :
    (c : AuthzConstraints) (g : GeofenceConstraint)
    → c.geofence ≡ some (filtering g)
    → c.geofence_pushed_down ≡ false
    → active_fence c ≡ some (filtering g)
unfolding active_fence
active_lem c g held fresh = rw (held, fresh) refl

module _ {G : Type 0} (geo : Library G) (k : Builders) (bodies : Bodies G) where
  -- An allowed area that parses is set.
  set_lem :
      (g : GeofenceConstraint) (a : G) (denied : Option G)
      → parse_geofence_areas geo bodies g ≡ some (some a, denied)
      → is_set g.allowed_area ≡ true
  unfolding is_set parse_geofence_areas
  set_lem g a denied areas = elim (Option-cases g.allowed_area) [
    | inl unset ↦ absurd (let wrong = rw (parse_geofence_areas, unset) at areas in ground arith)
    | inr (v, set) ↦ rw set refl
  ]

  same_areas :
      (g : GeofenceConstraint)
      → parse_geofence_areas geo bodies (filtering g) ≡ parse_geofence_areas geo bodies g
  unfolding parse_geofence_areas
  same_areas g = refl

  -- Without injection a search goes on with its constraints as applyConstraints left them.
  mutate_plain :
      (cfg : HttpConfig) (info : StacInfo) (sr : SearchRequest) (c : AuthzConstraints)
      (info' : Option StacInfo) (o : Option AuthzConstraints)
      (scoped : Option (SearchRequest × AuthzConstraints))
      → cfg.cql2_injection_enabled ≡ false
      → after_scope k cfg info scoped ≡ admitted info' o
      → (sr1 : SearchRequest) × (c1 : AuthzConstraints) × (scoped ≡ some (sr1, c1)) × (o ≡ some c1)
  unfolding after_scope
  mutate_plain cfg info sr c info' o none plain h = absurd (ground arith)
  mutate_plain cfg info sr c info' o (some (sr1, c1)) plain h =
      let put = rw (after_scope, plain) at h in
      (sr1, c1, refl, sym (admitted_lem _ info' (some c1) o put).1)

  mutate_search :
      (cfg : HttpConfig) (info : StacInfo) (sr : SearchRequest) (c : AuthzConstraints)
      (cs : Option AuthzConstraints)
      → info.search_req ≡ some sr
      → cs ≡ some c
      → after_scope k cfg info (apply_constraints c sr) ≡ mutate_request k cfg (some info) cs
  unfolding mutate_request mutate
  mutate_search cfg info sr c cs asked held = rw (asked, held) refl

  module _ (sound : IsBodies geo k bodies) (g : GeofenceConstraint) (a : G)
      (denied : Option G) where
    -- With the promises of package json, and without injection: when a search with constraints is
    -- answered by handing on a successful response whose body is a FeatureCollection, and the
    -- constraints have a geofence that was not pushed down and whose allowed area parses, then each
    -- feature is an object with a geometry that meets the allowed area and does not lie in the denied
    -- one, whether or not the policy set the geofence's filter mode.
    pub handle-IsFenced :
        (cfg : HttpConfig) (has_principal : Bool) (info : StacInfo) (sr : SearchRequest)
        (d : AuthzDecision) (c : AuthzConstraints) (next : Option StacInfo → Captured)
        (out : Captured) (fc : Fields)
        → cfg.cql2_injection_enabled ≡ false
        → info.search_req ≡ some sr
        → d.constraints ≡ some c
        → c.geofence ≡ some g
        → c.geofence_pushed_down ≡ false
        → parse_geofence_areas geo bodies g ≡ some (some a, denied)
        → ((i : Option StacInfo) → is_ok (next i).status ≡ true)
        → handle geo k bodies cfg has_principal (some info) (some d) next ≡ forwarded out
        → bodies.unmarshal_object out.body ≡ some fc
        → says_feature_collection (field_of "type" fc) ≡ true
        → IsFenced geo k bodies g a denied fc
    unfolding prop_of
    handle-IsFenced cfg has_principal info sr d c next out fc plain asked held fenced fresh areas ok
          h read typed =
        let (info', o, let_in, answered) =
          handle-forwarded geo k bodies cfg has_principal (some info) (some d) next out h in
        let (known, (e, decided, allowed, mutated)) =
          before-admitted k cfg has_principal (some info) (some d) info' o let_in in
        let same : d ≡ e = ground arith in
        let chain : after_scope k cfg info (apply_constraints c sr) ≡ admitted info' o =
          mutate_search cfg info sr c d.constraints asked held
          ∙ ap (λ x. mutate_request k cfg (some info) x.constraints) same
          ∙ mutated in
        let (sr1, c1, applied, is_c1) =
          mutate_plain cfg info sr c info' o (apply_constraints c sr) plain chain in
        let (fence1, pushed1) = applied_lem c c1 sr sr1 applied in
        let mode : c1.geofence ≡ some (filtering g) =
          fence1
          ∙ ap (λ b. default_filter_mode b c.geofence) fresh
          ∙ ap (default_filter_mode false) fenced
          ∙ default_lem g (set_lem g a denied areas) in
        after-IsFenced geo k bodies (filtering g) a denied sound info' c1 (next info') out fc
          (active_lem c1 g mode (pushed1 ∙ fresh)) (same_areas g ∙ areas) (ok info')
          (ap (λ x. after geo k bodies info' x (next info')) (sym is_c1) ∙ answered) read typed
