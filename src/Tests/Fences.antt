-- ===== src/Tests/Fences.antt =====
-- A run of the geofence of internal/middleware/authz: a collection of one feature outside.
use stac_proxy.Common.{
  ◌≡◌, refl, ap, sym, String, Bool, true, false, ◌&&◌, Option, none, some, [], ltb, ◌==◌, str_eq,
  str_eq_iff, if◌then◌else◌, arith, inl, inr, Bool-cases,
}
use stac_proxy.Stac.Cql2.{
  Json, null, boolean, number, text, array, object, empty, more, Fields, field, no_field, null_lit,
  Library, field_of,
}
use stac_proxy.Middleware.Authz.{GeofenceConstraint, AuthzConstraints, AuthzDecision, is_set}
use stac_proxy.Middleware.Authz.Scope.{
  SearchRequest, apply_constraints, allow_collections, deny_collections, default_filter_mode,
  clamp_limit,
}
use stac_proxy.Middleware.Authz.Searches.{handle-IsFenced}
use stac_proxy.Middleware.Authz.Filters.{Builders, prop_of}
use stac_proxy.Middleware.Authz.Geofence.{
  Bodies, says_feature_collection, parse_geofence_areas, keep, filter_by_geofence, put_field,
  is_kept,
}
use stac_proxy.Middleware.Authz.Enforce.{
  RequestType, StacInfo, HttpConfig, Captured, forwarded, is_ok, active_fence, after, is_item,
  before, decide, mutate_request, mutate, after_scope, handle,
}
use stac_proxy.Middleware.Authz.Fencing.{IsBodies, IsFenced}

-- A geometry is a text; two meet if they are equal.
geometry_of : Json → Option String
geometry_of (text s) = some s
geometry_of _ = none

abbrev geo : Library String
geo = record {
  parse_float = λ s. none;
  float_eq = ◌==◌;
  float_lt = ltb;
  parse_item = geometry_of;
  parse_literal = λ s. some s;
  parse_polygon = λ ring. none;
  intersects = str_eq;
}

abbrev builders : Builders
builders = record {
  marshal = λ v. none;
  unmarshal = λ s. none;
  to_lower = λ s. s;
  parse = λ s. none;
  encode_text = λ e. none;
  encode_json = λ e. none;
  parse_geometry = λ s. none;
  and_ = λ es. null_lit;
  not_ = λ e. e;
  compare_to = λ o p v. null_lit;
  in_ = λ p vs. null_lit;
  is_null = λ p. null_lit;
  s_intersects = λ p g. null_lit;
}

abbrev one_feature : Fields
one_feature = field "type" (text "FeatureCollection") (
    field "features" (array (more (object (field "geometry" (text "out") no_field)) empty))
      no_field)

abbrev no_features : Fields
no_features = field "type" (text "FeatureCollection") (field "features" (array empty) no_field)

read_body : String → Option Fields
read_body s =
    if str_eq s "one" then some one_feature else (if str_eq s "no" then some no_features else none)

is_bare : Fields → Bool
is_bare (field a (text b) (field c (array empty) no_field)) =
    str_eq a "type" && (str_eq b "FeatureCollection" && str_eq c "features")
is_bare _ = false

is_bare_lem : (fs : Fields) → is_bare fs ≡ true → fs ≡ no_features
unfolding is_bare
is_bare_lem no_field h = absurd (ground arith)
is_bare_lem (field a (text b) no_field) h = absurd (ground arith)
is_bare_lem (field a (text b) (field c (array empty) no_field)) h =
    ground (arith, str_eq_iff a "type", str_eq_iff b "FeatureCollection", str_eq_iff c "features")
is_bare_lem (field a (text b) (field c (array empty) (field d v fs))) h = absurd (ground arith)
is_bare_lem (field a (text b) (field c (array (more v vs)) fs)) h = absurd (ground arith)
is_bare_lem (field a (text b) (field c null fs)) h = absurd (ground arith)
is_bare_lem (field a (text b) (field c (boolean x) fs)) h = absurd (ground arith)
is_bare_lem (field a (text b) (field c (number x) fs)) h = absurd (ground arith)
is_bare_lem (field a (text b) (field c (text x) fs)) h = absurd (ground arith)
is_bare_lem (field a (text b) (field c (object x) fs)) h = absurd (ground arith)
is_bare_lem (field a null fs) h = absurd (ground arith)
is_bare_lem (field a (boolean x) fs) h = absurd (ground arith)
is_bare_lem (field a (number x) fs) h = absurd (ground arith)
is_bare_lem (field a (array x) fs) h = absurd (ground arith)
is_bare_lem (field a (object x) fs) h = absurd (ground arith)

print_body : Fields → Option String
unfolding is_bare
print_body fs = if is_bare fs then some "no" else none

abbrev bodies : Bodies String
bodies = record {
  unmarshal_object = read_body;
  marshal_object = print_body;
  int_number = λ n. n;
  contains = str_eq;
}

print_body-reads :
    (fs : Fields) (s : String)
    → print_body fs ≡ some s
    → (gs : Fields) × (read_body s ≡ some gs)
      × ((name : String) → field_of name gs ≡ field_of name fs)
unfolding print_body read_body
print_body-reads fs s h = elim (Bool-cases (is_bare fs)) [
  | inl bare ↦
      let written = rw (print_body, bare) at h in
      let said : s ≡ "no" = ground arith in
      (no_features, rw said refl, λ name. ap (field_of name) (sym (is_bare_lem fs bare)))
  | inr full ↦ absurd (let wrong = rw (print_body, full) at h in ground arith)
]

bodies-IsBodies : IsBodies geo builders bodies
unfolding read_body
bodies-IsBodies = record { empty_body = refl; marshal-reads = print_body-reads }

abbrev fence : GeofenceConstraint
fence = record {
  allowed_area = some (text "in");
  denied_area = none;
  filter_mode = true;
  geometry_property = "";
}

abbrev constraints : AuthzConstraints
constraints = record {
  allowed_collections = [];
  denied_collections = [];
  geofence = some fence;
  max_results = 0;
  required_filters = [];
  cql2_filter = "";
  cql2_filter_json = none;
  geofence_pushed_down = false;
}

abbrev captured : String → Captured
captured body = record { status = 200; headers = []; body = body }

abbrev lax_fence : GeofenceConstraint
lax_fence = record fence { filter_mode = false }

abbrev request : SearchRequest
request = record { collections = []; limit = 10; filter = none; filter_lang = "" }

abbrev info : StacInfo
info = record {
  collection = "";
  item_id = "";
  request_type = RequestType.search;
  search_req = some request;
}

abbrev config : HttpConfig
config = record {
  allow_anonymous = true;
  cql2_injection_enabled = false;
  filter_extension_check = none;
  spatial_filter_check = none;
}

abbrev decision : AuthzDecision
decision = record {
  allowed = true;
  reasons = [];
  constraints = some (record constraints { geofence = some lax_fence });
  final = false;
}

handle_run :
    handle geo builders bodies config false (some info) (some decision) (λ i. captured "one")
    ≡ forwarded (captured "no")
unfolding handle before decide mutate_request mutate after_scope apply_constraints allow_collections
    deny_collections default_filter_mode is_set clamp_limit after read_body print_body is_ok
    active_fence is_kept keep put_field geometry_of prop_of filter_by_geofence is_item field_of
handle_run = refl

handle-IsFenced_example : IsFenced geo builders bodies lax_fence "in" none no_features
unfolding parse_geofence_areas geometry_of is_ok read_body says_feature_collection field_of
handle-IsFenced_example =
    handle-IsFenced geo builders bodies bodies-IsBodies lax_fence "in" none config false info
      request decision (record constraints { geofence = some lax_fence }) (λ i. captured "one")
      (captured "no") no_features refl refl refl refl refl refl (λ i. refl) handle_run refl refl
