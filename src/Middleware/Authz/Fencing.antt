-- ===== src/Middleware/Authz/Fencing.antt =====
-- internal/middleware/authz/middleware.go (NewHTTPMiddleware, filterByGeofence): the features of a
-- collection that is handed on under a geofence.
use stac_proxy.Common.{
  ℕ, String, ◌≡◌, ◌≢◌, refl, sym, ap, ◌∙◌, Bool, true, false, Option, none, some, str_eq,
  str_eq_iff, if◌then◌else◌, arith, inl, inr, Bool-cases,
}
use stac_proxy.Stac.Cql2.{
  Json, null, boolean, number, text, array, object, Jsons, empty, more, Fields, no_field, field,
  Library, field_of,
}
use stac_proxy.Middleware.Authz.{GeofenceConstraint, AuthzConstraints}
use stac_proxy.Middleware.Authz.Filters.{Builders, prop_of}
use stac_proxy.Middleware.Authz.Geofence.{
  Bodies, Filtered, not_applicable, malformed_body, filtered, count, put_field, features_of,
  says_feature_collection, body_claims_feature_collection, parse_geofence_areas, is_kept, keep,
  with_features, marshalled, filter_features, filter_object, filter_areas, filter_by_geofence,
}
use stac_proxy.Middleware.Authz.Enforce.{
  StacInfo, Captured, json_error, forwarded, is_ok, active_fence, validated, after_filter,
  fence_status, after,
}

abbrev pub AllJsons : (Json → Bool) → Jsons → Type 0
AllJsons t empty = Unit {0}
AllJsons t (more v vs) = (t v ≡ true) × AllJsons t vs

field_of-put_field_self :
    (name : String) (v w : Json) (fs : Fields)
    → field_of name fs ≡ some w
    → field_of name (put_field name v fs) ≡ some v
unfolding field_of put_field
field_of-put_field_self name v w no_field h = absurd (ground arith)
field_of-put_field_self name v w (field k u fs) h =
    ground (arith, field_of-put_field_self name v w fs)

field_of-put_field_ne :
    (name other : String) (v : Json) (fs : Fields)
    → str_eq other name ≡ false
    → field_of name (put_field other v fs) ≡ field_of name fs
unfolding field_of put_field
field_of-put_field_ne name other v no_field h = refl
field_of-put_field_ne name other v (field k u fs) h =
    ground (arith, str_eq_iff k other, str_eq_iff k name, field_of-put_field_ne name other v fs h)

features_of_lem : (o : Option Json) (vs : Jsons) → features_of o ≡ some vs → o ≡ some (array vs)
unfolding features_of
features_of_lem none vs h = absurd (ground arith)
features_of_lem (some null) vs h = absurd (ground arith)
features_of_lem (some (boolean b)) vs h = absurd (ground arith)
features_of_lem (some (number f)) vs h = absurd (ground arith)
features_of_lem (some (text s)) vs h = absurd (ground arith)
features_of_lem (some (array ws)) vs h = ground arith
features_of_lem (some (object fs)) vs h = absurd (ground arith)

forwarded_lem :
    (b : Bool) (status : ℕ) (error : String) (resp out : Captured)
    → (if b then json_error status error else forwarded resp) ≡ forwarded out
    → resp ≡ out
forwarded_lem true status error resp out h = absurd (ground arith)
forwarded_lem false status error resp out h = ground arith

some_injective : (fs gs : Fields) → some fs ≡ some gs → fs ≡ gs
some_injective fs gs h = ground arith

module _ {G : Type 0} (geo : Library G) (k : Builders) (bodies : Bodies G) where
  -- Package json: the empty text is no object, and an object reads back with its fields.
  pub record IsBodies : Type 0 where
    pub empty_body : bodies.unmarshal_object "" ≡ none
    pub marshal-reads :
        (fs : Fields) (s : String)
        → bodies.marshal_object fs ≡ some s
        → (gs : Fields) × (bodies.unmarshal_object s ≡ some gs)
          × ((name : String) → field_of name gs ≡ field_of name fs)

  keep-AllJsons :
      (allowed denied : Option G) (prop : String) (vs : Jsons)
      → AllJsons (is_kept geo bodies allowed denied prop) (keep geo bodies allowed denied prop vs)
  unfolding keep
  keep-AllJsons allowed denied prop empty = tt
  keep-AllJsons allowed denied prop (more v vs) =
      elim (Bool-cases (is_kept geo bodies allowed denied prop v)) [
        | inl yes_ ↦ rw yes_ (yes_, keep-AllJsons allowed denied prop vs)
        | inr no_ ↦ rw no_ (keep-AllJsons allowed denied prop vs)
      ]

  with_features-features :
      (kept vs : Jsons) (fc : Fields)
      → field_of "features" fc ≡ some (array vs)
      → field_of "features" (with_features geo bodies kept fc) ≡ some (array kept)
  unfolding with_features
  with_features-features kept vs fc h =
      let n = number (bodies.int_number (count kept)) in
      let fs = put_field "features" (array kept) fc in
      field_of-put_field_ne "features" "numberMatched" n (put_field "numberReturned" n fs) refl
      ∙ field_of-put_field_ne "features" "numberReturned" n fs refl
      ∙ field_of-put_field_self "features" (array kept) (array vs) fc h

  -- What a filtered body was made of.
  marshalled_lem :
      (o : Option String) (s : String) → marshalled geo bodies o ≡ filtered s → o ≡ some s
  unfolding marshalled
  marshalled_lem none s h = absurd (ground arith)
  marshalled_lem (some out) s h = ground arith

  module _ (g : GeofenceConstraint) (a : G) (denied : Option G) where
    -- The body is a collection of features that all stay.
    abbrev pub IsFenced : Fields → Type 0
    IsFenced fc =
        (vs : Jsons) × (field_of "features" fc ≡ some (array vs))
        × AllJsons (is_kept geo bodies (some a) denied (prop_of g)) vs

    filter_features-filtered :
        (fc : Fields) (features : Option Jsons) (s : String)
        → features_of (field_of "features" fc) ≡ features
        → filter_features geo bodies g (some a) denied fc features ≡ filtered s
        → (fs : Fields) × (bodies.marshal_object fs ≡ some s) × IsFenced fs
    unfolding filter_features
    filter_features-filtered fc none s read h = absurd (ground arith)
    filter_features-filtered fc (some vs) s read h =
        let kept = keep geo bodies (some a) denied (prop_of g) vs in
        (
          with_features geo bodies kept fc,
          marshalled_lem (bodies.marshal_object (with_features geo bodies kept fc)) s h,
          (
            kept,
            with_features-features kept vs fc (features_of_lem (field_of "features" fc) vs read),
            keep-AllJsons (some a) denied (prop_of g) vs,
          ),
        )

    filter_object-filtered :
        (body s : String) (o : Option Fields)
        → filter_object geo bodies g (some a) denied body o ≡ filtered s
        → (fs : Fields) × (bodies.marshal_object fs ≡ some s) × IsFenced fs
    unfolding filter_object
    filter_object-filtered body s none h = elim (Bool-cases (body_claims_feature_collection body)) [
      | inl claims ↦ absurd (let wrong = rw (filter_object, claims) at h in ground arith)
      | inr silent ↦ absurd (let wrong = rw (filter_object, silent) at h in ground arith)
    ]
    filter_object-filtered body s (some fc) h =
        elim (Bool-cases (says_feature_collection (field_of "type" fc))) [
          | inl typed ↦
              filter_features-filtered fc (features_of (field_of "features" fc)) s refl
                (rw (filter_object, typed) at h)
          | inr other ↦ absurd (let wrong = rw (filter_object, other) at h in ground arith)
        ]

    filter_areas-filtered :
        (body s : String)
        → filter_areas geo bodies g body (some (some a, denied)) ≡ filtered s
        → (fs : Fields) × (bodies.marshal_object fs ≡ some s) × IsFenced fs
    unfolding filter_areas
    filter_areas-filtered body s h = filter_object-filtered body s (bodies.unmarshal_object body) h

    marshalled-applicable : (o : Option String) → marshalled geo bodies o ≢ not_applicable
    unfolding marshalled
    marshalled-applicable none h = ground arith
    marshalled-applicable (some out) h = ground arith

    filter_features-applicable :
        (fc : Fields) (features : Option Jsons)
        → filter_features geo bodies g (some a) denied fc features ≢ not_applicable
    unfolding filter_features
    filter_features-applicable fc none h = ground arith
    filter_features-applicable fc (some vs) h =
        marshalled-applicable
          (bodies.marshal_object
            (with_features geo bodies (keep geo bodies (some a) denied (prop_of g) vs) fc))
          h

    module _ (sound : IsBodies) where
      -- A body that the filter does not apply to is no collection of features.
      filter_areas-applicable :
          (body : String) (fc : Fields)
          → bodies.unmarshal_object body ≡ some fc
          → says_feature_collection (field_of "type" fc) ≡ true
          → filter_areas geo bodies g body (some (some a, denied)) ≢ not_applicable
      unfolding filter_areas filter_object
      filter_areas-applicable body fc read typed h =
          filter_features-applicable fc (features_of (field_of "features" fc))
            (rw (filter_areas, filter_object, read, typed) at h)

      fenced_lem :
          (resp out : Captured) (fc : Fields) (info : Option StacInfo) (c : AuthzConstraints)
          (f : Filtered)
          → f ≡ filter_areas geo bodies g resp.body (some (some a, denied))
          → bodies.unmarshal_object out.body ≡ some fc
          → says_feature_collection (field_of "type" fc) ≡ true
          → after_filter geo k bodies info c resp f ≡ forwarded out
          → IsFenced fc
      unfolding after_filter validated
      fenced_lem resp out fc info c not_applicable same read typed h =
          let kept : resp ≡ out = forwarded_lem _ 404 "NotFound" resp out h in
          absurd (
            filter_areas-applicable resp.body fc
              (ap (λ r. bodies.unmarshal_object r.body) kept ∙ read) typed (sym same))
      fenced_lem resp out fc info c malformed_body same read typed h = absurd (ground arith)
      fenced_lem resp out fc info c (filtered body) same read typed h =
          let kept : (record resp { body = body }) ≡ out =
            forwarded_lem _ 404 "NotFound" (record resp { body = body }) out h in
          let (fs, put, (vs, listed, all)) = filter_areas-filtered resp.body body (sym same) in
          let (gs, back, equal) = sound.marshal-reads fs body put in
          let is_fc : gs ≡ fc =
            some_injective gs fc
              (sym back ∙ ap (λ r. bodies.unmarshal_object r.body) kept ∙ read) in
          (vs, ap (field_of "features") (sym is_fc) ∙ equal "features" ∙ listed, all)

      fence_status_lem :
          (resp : Captured)
          → parse_geofence_areas geo bodies g ≡ some (some a, denied)
          → is_ok resp.status ≡ true
          → str_eq resp.body "" ≡ false
          → fence_status geo k bodies resp (some g)
            ≡ filter_areas geo bodies g resp.body (some (some a, denied))
      unfolding fence_status filter_by_geofence
      fence_status_lem resp areas ok full = rw (ok, full, areas) refl

      blank_lem :
          (resp out : Captured) (fc : Fields) (info : Option StacInfo) (c : AuthzConstraints)
          (f : Filtered)
          → f ≡ not_applicable
          → str_eq resp.body "" ≡ true
          → bodies.unmarshal_object out.body ≡ some fc
          → after_filter geo k bodies info c resp f ≢ forwarded out
      unfolding after_filter validated
      blank_lem resp out fc info c not_applicable same blank read h =
          let kept : resp ≡ out = forwarded_lem _ 404 "NotFound" resp out h in
          let is_blank : resp.body ≡ "" = (str_eq_iff resp.body "").0 blank in
          let none_some : none ≡ some fc =
            sym sound.empty_body
            ∙ ap bodies.unmarshal_object (sym is_blank)
            ∙ ap (λ r. bodies.unmarshal_object r.body) kept
            ∙ read in
          ground arith
      blank_lem resp out fc info c malformed_body same blank read h = ground arith
      blank_lem resp out fc info c (filtered body) same blank read h = ground arith

      blank_status :
          (resp : Captured)
          → is_ok resp.status ≡ true
          → str_eq resp.body "" ≡ true
          → fence_status geo k bodies resp (some g) ≡ not_applicable
      unfolding fence_status filter_by_geofence
      blank_status resp ok blank = rw (ok, blank) refl

      -- With the promises of package json: when the constraints filter the response by a geofence whose
      -- allowed area parses, and a successful response is handed on whose body is a FeatureCollection,
      -- then each of its features is an object with a geometry that meets the allowed area and does not
      -- lie in the denied one. (A collection that cannot be filtered is never handed on.)
      pub after-IsFenced :
          (info : Option StacInfo) (c : AuthzConstraints) (resp out : Captured) (fc : Fields)
          → active_fence c ≡ some g
          → parse_geofence_areas geo bodies g ≡ some (some a, denied)
          → is_ok resp.status ≡ true
          → after geo k bodies info (some c) resp ≡ forwarded out
          → bodies.unmarshal_object out.body ≡ some fc
          → says_feature_collection (field_of "type" fc) ≡ true
          → IsFenced fc
      unfolding after
      after-IsFenced info c resp out fc active areas ok h read typed =
          let filtered_by : after_filter geo k bodies info c resp
                (fence_status geo k bodies resp (some g))
              ≡ forwarded out =
            ap (λ f. after_filter geo k bodies info c resp (fence_status geo k bodies resp f))
              (sym active)
            ∙ h in
          elim (Bool-cases (str_eq resp.body "")) [
            | inl blank ↦ absurd (
                blank_lem resp out fc info c (fence_status geo k bodies resp (some g))
                  (blank_status resp ok blank) blank read filtered_by)
            | inr full ↦
                fenced_lem resp out fc info c (fence_status geo k bodies resp (some g))
                  (fence_status_lem resp areas ok full) read typed filtered_by
          ]
