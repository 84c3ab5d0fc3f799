-- ===== src/Tests/Policies.antt =====
-- Runs of internal/middleware/authz: a policy that asks for items that are ready, a client that asks
-- for public ones, and a geofence.
use stac_proxy.Common.{
  ◌≡◌, refl, ap, ◌↔◌, String, Bool, true, false, ◌&&◌, Option, none, some, [], ◌∷◌, ltb, ◌==◌,
  str_eq, str_eq_iff, if◌then◌else◌, arith, inl, inr, Bool-cases, elem, select_names, sort_by,
  upsert,
}
use stac_proxy.Stac.Cql2.{
  Json, boolean, text, Fields, field, no_field, op_and, op_or, op_not, op_eq, op_neq, op_lt, op_lte,
  op_gt, op_gte, op_in, op_is_null, op_s_intersects, op_other, Node, bool_lit, num_lit, string_lit,
  null_lit, property_ref, array_lit, op, geom_lit, bbox_lit, other, Nodes, nil, cons, Library,
  lookup_property, split_name, field_of, walk_path,
}
use stac_proxy.Stac.Cql2.Eval.{eval, eval_cql2}
use stac_proxy.Middleware.Authz.{AuthzConstraints, AuthzDecision}
use stac_proxy.Middleware.Authz.Scope.{
  SearchRequest, apply_constraints, allow_collections, deny_collections, some_left,
  intersect_strings, remove_strings, clamp_limit, default_filter_mode,
}
use stac_proxy.Middleware.Authz.Filters.{
  Builders, injected, inject_cql2_filter, policy_side, parse_user_cql2,
}
use stac_proxy.Middleware.Authz.Injected.{PassesPolicy, inject_cql2_filter-PassesRead}
use stac_proxy.Middleware.Authz.Input.{HttpRequest, build_authz_input, configure_header_allowlist}
use stac_proxy.Middleware.Authz.Bounds.{Bounded, before-Bounded}
use stac_proxy.Middleware.Authz.Records.{handle-PassesPolicy}
use stac_proxy.Middleware.Authz.Geofence.{Bodies}
use stac_proxy.Middleware.Authz.Enforce.{
  RequestType, StacInfo, HttpConfig, Captured, forwarded, admitted, is_ok, is_item,
  validate_single_record, before, decide, mutate_request, mutate, after_scope, after_injection,
  holds_by_default, handle,
}
use stac_proxy.Middleware.Authz.Merging.{nodes_of, IsBuilders, PassesRead}

-- Two texts are filters by themselves, and their conjunction is a third.
abbrev on_public : Node
on_public = property_ref "public"

abbrev on_ready : Node
on_ready = property_ref "ready"

abbrev on_both : Node
on_both = op op_and (cons on_public (cons on_ready nil))

is_ref : String → Node → Bool
is_ref s (property_ref p) = str_eq p s
is_ref s _ = false

is_ref_lem : (s : String) (e : Node) → is_ref s e ≡ true → e ≡ property_ref s
unfolding is_ref
is_ref_lem s (property_ref p) h = ap property_ref ((str_eq_iff p s).0 h)
is_ref_lem s (bool_lit b) h = absurd (ground arith)
is_ref_lem s (num_lit q) h = absurd (ground arith)
is_ref_lem s (string_lit q) h = absurd (ground arith)
is_ref_lem s null_lit h = absurd (ground arith)
is_ref_lem s (array_lit es) h = absurd (ground arith)
is_ref_lem s (op o es) h = absurd (ground arith)
is_ref_lem s (geom_lit q) h = absurd (ground arith)
is_ref_lem s (bbox_lit b) h = absurd (ground arith)
is_ref_lem s (other q) h = absurd (ground arith)

is_both : Nodes → Bool
unfolding is_ref
is_both (cons d (cons e nil)) = is_ref "public" d && is_ref "ready" e
is_both _ = false

left_of : (a b : Bool) → (a && b) ≡ true → a ≡ true
left_of true b h = refl
left_of false b h = absurd (ground arith)

right_of : (a b : Bool) → (a && b) ≡ true → b ≡ true
right_of true b h = h
right_of false b h = absurd (ground arith)

is_both_lem : (es : Nodes) → is_both es ≡ true → es ≡ cons on_public (cons on_ready nil)
unfolding is_both
is_both_lem nil h = absurd (ground arith)
is_both_lem (cons d nil) h = absurd (ground arith)
is_both_lem (cons d (cons e nil)) h =
    rw
      (
        is_ref_lem "public" d (left_of (is_ref "public" d) (is_ref "ready" e) h),
        is_ref_lem "ready" e (right_of (is_ref "public" d) (is_ref "ready" e) h),
      )
      refl
is_both_lem (cons d (cons e (cons f es))) h = absurd (ground arith)

render : Node → Option String
unfolding is_both
render (op op_and es) = if is_both es then some "public AND ready" else none
render _ = none

render_lem : (e : Node) (s : String) → render e ≡ some s → (s ≡ "public AND ready") × (e ≡ on_both)
unfolding render
render_lem (op op_and es) s h = elim (Bool-cases (is_both es)) [
  | inl both ↦ let written = rw (render, both) at h in (ground arith, rw (is_both_lem es both) refl)
  | inr neither ↦ absurd (let wrong = rw (render, neither) at h in ground arith)
]
render_lem (op op_or es) s h = absurd (ground arith)
render_lem (op op_not es) s h = absurd (ground arith)
render_lem (op op_eq es) s h = absurd (ground arith)
render_lem (op op_neq es) s h = absurd (ground arith)
render_lem (op op_lt es) s h = absurd (ground arith)
render_lem (op op_lte es) s h = absurd (ground arith)
render_lem (op op_gt es) s h = absurd (ground arith)
render_lem (op op_gte es) s h = absurd (ground arith)
render_lem (op op_in es) s h = absurd (ground arith)
render_lem (op op_is_null es) s h = absurd (ground arith)
render_lem (op op_s_intersects es) s h = absurd (ground arith)
render_lem (op op_other es) s h = absurd (ground arith)
render_lem (bool_lit b) s h = absurd (ground arith)
render_lem (num_lit q) s h = absurd (ground arith)
render_lem (string_lit q) s h = absurd (ground arith)
render_lem null_lit s h = absurd (ground arith)
render_lem (property_ref q) s h = absurd (ground arith)
render_lem (array_lit es) s h = absurd (ground arith)
render_lem (geom_lit q) s h = absurd (ground arith)
render_lem (bbox_lit b) s h = absurd (ground arith)
render_lem (other q) s h = absurd (ground arith)

read_filter : String → Option Node
read_filter s =
    if str_eq s "public"
    then some on_public
    else (if str_eq s "ready"
        then some on_ready
        else (if str_eq s "public AND ready" then some on_both else none))

abbrev builders : Builders
builders = record {
  marshal = λ v. none;
  unmarshal = λ s. none;
  to_lower = λ s. s;
  parse = read_filter;
  encode_text = render;
  encode_json = λ e. none;
  parse_geometry = λ s. none;
  and_ = λ es. op op_and (nodes_of es);
  not_ = λ e. op op_not (cons e nil);
  compare_to = λ o p v. op o (cons (property_ref p) (cons null_lit nil));
  in_ = λ p vs. op op_in (cons (property_ref p) (cons (array_lit nil) nil));
  is_null = λ p. op op_is_null (cons (property_ref p) nil);
  s_intersects = λ p g. op op_s_intersects (cons (property_ref p) (cons (geom_lit g) nil));
}

-- A geometry is a text; two meet if they are equal.
geometry_of : Json → Option String
geometry_of (text s) = some s
geometry_of _ = none

abbrev geo : Library String
geo = record {
  parse_float = λ s. none;
  float_eq = ◌==◌;
  float_lt = ltb;
  parse_item = geometry_of;
  parse_literal = λ s. some s;
  parse_polygon = λ ring. none;
  intersects = str_eq;
}

builders-reads :
    (e : Node) (s : String)
    → render e ≡ some s
    → (str_eq s "" ≡ false)
      × ((d : Node) × (read_filter s ≡ some d)
          × ((item : Fields) → eval_cql2 geo d item ≡ eval_cql2 geo e item))
unfolding read_filter
builders-reads e s h =
    let (is_text_, is_node) = render_lem e s h in
    rw (is_text_, is_node) (refl, (on_both, refl, λ item. refl))

builders-IsBuilders : IsBuilders geo builders
builders-IsBuilders = record {
  and-op = λ es. refl;
  encode_text-Reads = builders-reads;
  encode_json-Reads = λ e s v h. absurd (ground arith);
}

abbrev constraints : AuthzConstraints
constraints = record {
  allowed_collections = "a" ∷ "b" ∷ [];
  denied_collections = "b" ∷ [];
  geofence = none;
  max_results = 10;
  required_filters = [];
  cql2_filter = "ready";
  cql2_filter_json = none;
  geofence_pushed_down = false;
}

abbrev request : SearchRequest
request = record {
  collections = "c" ∷ "b" ∷ "a" ∷ [];
  limit = 500;
  filter = some (text "public");
  filter_lang = "";
}

abbrev narrowed : SearchRequest
narrowed = record {
  collections = "a" ∷ [];
  limit = 10;
  filter = some (text "public");
  filter_lang = "";
}

apply_constraints_run : apply_constraints constraints request ≡ some (narrowed, constraints)
unfolding apply_constraints allow_collections deny_collections some_left intersect_strings
    remove_strings clamp_limit default_filter_mode elem select_names
apply_constraints_run = refl

abbrev merged : SearchRequest
merged = record {
  collections = "a" ∷ [];
  limit = 10;
  filter = some (text "public AND ready");
  filter_lang = "cql2-text";
}

inject_run :
    (spatial : Bool)
    → inject_cql2_filter builders narrowed constraints spatial ≡ injected constraints merged
unfolding inject_cql2_filter render read_filter sort_by nodes_of
inject_run true = refl
inject_run false = refl

abbrev thing : Fields
thing = field "ready" (boolean true) no_field

inject_cql2_filter-PassesRead_example :
    PassesRead geo builders (parse_user_cql2 builders merged.filter) thing
    ↔ PassesRead geo builders (parse_user_cql2 builders narrowed.filter) thing
      × PassesPolicy geo builders constraints true thing
inject_cql2_filter-PassesRead_example =
    inject_cql2_filter-PassesRead geo builders builders-IsBuilders thing constraints constraints
      narrowed merged true (inject_run true)

abbrev config : HttpConfig
config = record {
  allow_anonymous = false;
  cql2_injection_enabled = true;
  filter_extension_check = none;
  spatial_filter_check = some (λ info. false);
}

abbrev info_of : RequestType → Option SearchRequest → StacInfo
info_of t sr = record { collection = ""; item_id = ""; request_type = t; search_req = sr }

abbrev decision : AuthzDecision
decision = record { allowed = true; reasons = []; constraints = some constraints; final = false }

before_run :
    before builders config true (some (info_of RequestType.search (some request))) (some decision)
    ≡ admitted (some (info_of RequestType.search (some merged))) (some constraints)
unfolding before decide mutate_request mutate after_scope after_injection holds_by_default
    apply_constraints allow_collections deny_collections some_left intersect_strings remove_strings
    clamp_limit default_filter_mode elem select_names inject_cql2_filter render read_filter sort_by
    nodes_of
before_run = refl

before-Bounded_example : (true ≡ true) × (true ≡ true) × Bounded constraints merged
before-Bounded_example =
    before-Bounded builders config true (some (info_of RequestType.search (some request))) decision
      constraints (some constraints) (info_of RequestType.search (some merged)) merged refl
      before_run refl

read_body : String → Option Fields
read_body s = if str_eq s "R" then some thing else none

abbrev bodies : Bodies String
bodies = record {
  unmarshal_object = read_body;
  marshal_object = λ fs. none;
  int_number = λ n. n;
  contains = str_eq;
}

abbrev found : Captured
found = record { status = 200; headers = []; body = "R" }

policy_run : policy_side builders constraints true ≡ some (constraints, some on_ready, none)
unfolding policy_side read_filter sort_by
policy_run = refl

handle_run :
    handle geo builders bodies config true
      (some (info_of RequestType.item none))
      (some decision)
      (λ info. found)
    ≡ forwarded found
unfolding handle read_filter sort_by read_body eval eval_cql2 lookup_property split_name field_of
    walk_path is_ok is_item
handle_run = refl

handle-PassesPolicy_example : PassesPolicy geo builders constraints true thing
unfolding is_ok is_item read_body
handle-PassesPolicy_example =
    handle-PassesPolicy geo builders bodies builders-IsBuilders thing config true
      (info_of RequestType.item none) decision constraints constraints (some on_ready) none
      (λ info. found) found refl refl refl policy_run refl refl refl handle_run

-- A policy whose filter does not parse lets every item through.
validate_unreadable :
    validate_single_record geo builders bodies "R" (record constraints { cql2_filter = "broken" })
    ≡ true
unfolding validate_single_record read_filter sort_by
validate_unreadable = refl

abbrev incoming : HttpRequest
incoming = record {
  method = "GET";
  path = "/search";
  query = [];
  headers = ("Authorization", "Bearer x" ∷ []) ∷ ("Accept", "a" ∷ "b" ∷ []) ∷ [];
  client_ip = "10.0.0.1";
  request_id = none;
}

-- A token is hidden from the policy, and an anonymous request has no principal.
headers_hidden :
    (build_authz_input
      (λ h. h)
      (configure_header_allowlist (λ h. h) [])
      incoming
      none
      none).request.headers
    ≡ ("Accept", "a") ∷ []
unfolding build_authz_input configure_header_allowlist select_names elem upsert
headers_hidden = refl
