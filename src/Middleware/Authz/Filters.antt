-- ===== src/Middleware/Authz/Filters.antt =====
-- internal/middleware/authz/cql2.go and required_filters.go, and injectCQL2Filter of middleware.go:
-- the CQL2 expressions that constraints stand for, and their way into a search request. go-cql2 and
-- package json are arguments. An outer `none` is an error, an inner one Go's nil expression.
use stac_proxy.Common.{
  String, Bool, true, Option, none, some, List, [], ◌∷◌, str_eq, str_ltb, sort_by, if◌then◌else◌,
  ◌>>=◌,
}
use stac_proxy.Stac.Cql2.{
  Json, null, text, array, object, Jsons, Fields, field, no_field, Operator, op_eq, op_neq, op_lt,
  op_lte, op_gt, op_gte, Node,
}
use stac_proxy.Middleware.Authz.{GeofenceConstraint, AuthzConstraints}
use stac_proxy.Middleware.Authz.Scope.{SearchRequest}

-- go-cql2's Parse, Encode and builders (`compare_to` is Eq, Neq, Lt, Lte, Gt or Gte), its geojson.Parse
-- with a geometry by its encoding, package json, and strings.ToLower.
pub record Builders : Type 0 where
  pub marshal : Json → Option String
  pub unmarshal : String → Option Json
  pub to_lower : String → String
  pub parse : String → Option Node
  pub encode_text : Node → Option String
  pub encode_json : Node → Option String
  pub parse_geometry : String → Option String
  pub and_ : List Node → Node
  pub not_ : Node → Node
  pub compare_to : Operator → String → Json → Node
  pub in_ : String → Jsons → Node
  pub is_null : String → Node
  pub s_intersects : String → String → Node

abbrev pub Expr? : Type 0
Expr? = Option Node

unfoldable pub non_nils : List Expr? → List Node
non_nils [] = []
non_nils (none ∷ es) = non_nils es
non_nils (some e ∷ es) = e ∷ non_nils es

unfoldable pub prop_of : GeofenceConstraint → String
prop_of g = if str_eq g.geometry_property "" then "geometry" else g.geometry_property

unfoldable pub lang_of : SearchRequest → String
lang_of sr = if str_eq sr.filter_lang "" then "cql2-text" else sr.filter_lang

-- The results of injectCQL2Filter: the constraints that go on with the request, or an error that is
-- the client's (userCQL2ParseError) or another.
pub data Injection : Type 0 where
  injected : AuthzConstraints → SearchRequest → Injection
  user_error server_error : Injection

module _ (k : Builders) where
  -- No expression, the only one, or their conjunction.
  unfoldable pub conjunction : List Node → Expr?
  conjunction [] = none
  conjunction (e ∷ []) = some e
  conjunction (e ∷ d ∷ es) = some (k.and_ (e ∷ d ∷ es))

  unfoldable pub and_non_nil : List Expr? → Expr?
  unfolding conjunction non_nils
  and_non_nil es = conjunction (non_nils es)

  unfoldable pub in_clause : String → Json → Option Node
  in_clause key (array vs) = some (k.in_ key vs)
  in_clause key _ = none

  unfoldable pub operator_clause : String → String → Json → Option Node
  unfolding in_clause
  operator_clause o key raw =
      if str_eq o "eq"
      then some (k.compare_to op_eq key raw)
      else (if str_eq o "neq"
          then some (k.compare_to op_neq key raw)
          else (if str_eq o "ne"
              then some (k.compare_to op_neq key raw)
              else (if str_eq o "lt"
                  then some (k.compare_to op_lt key raw)
                  else (if str_eq o "lte"
                      then some (k.compare_to op_lte key raw)
                      else (if str_eq o "le"
                          then some (k.compare_to op_lte key raw)
                          else (if str_eq o "gt"
                              then some (k.compare_to op_gt key raw)
                              else (if str_eq o "gte"
                                  then some (k.compare_to op_gte key raw)
                                  else (if str_eq o "ge"
                                      then some (k.compare_to op_gte key raw)
                                      else (if str_eq o "in"
                                          then in_clause key raw
                                          else none)))))))))

  -- An object is one operator with its operand.
  unfoldable pub required_filter_map_predicate : String → Fields → Option Node
  unfolding operator_clause
  required_filter_map_predicate key (field o raw no_field) = operator_clause (k.to_lower o) key raw
  required_filter_map_predicate key _ = none

  unfoldable pub required_filter_clause : String → Json → Option Node
  unfolding required_filter_map_predicate
  required_filter_clause key null = some (k.is_null key)
  required_filter_clause key (object ops) = required_filter_map_predicate key ops
  required_filter_clause key v = some (k.compare_to op_eq key v)

  unfoldable pub clauses : List (String × Json) → Option (List Node)
  unfolding required_filter_clause
  clauses [] = some []
  clauses ((key, v) ∷ rf) = do e ← required_filter_clause key v; es ← clauses rf; some (e ∷ es)

  -- The clauses stand in the order of the keys.
  unfoldable pub required_filters_to_cql2 : List (String × Json) → Option Expr?
  unfolding clauses conjunction sort_by
  required_filters_to_cql2 rf = do
    es ← clauses (sort_by (λ a b. str_ltb a.0 b.0) rf)
    some (conjunction es)

  unfoldable pub area_clause : (Node → Node) → String → Option Json → Option Expr?
  area_clause wrap prop none = some none
  area_clause wrap prop (some area) = do
    raw ← k.marshal area
    geometry ← k.parse_geometry raw
    some (some (wrap (k.s_intersects prop geometry)))

  unfoldable pub geofence_to_cql2 : Option GeofenceConstraint → Option Expr?
  unfolding area_clause prop_of and_non_nil
  geofence_to_cql2 none = some none
  geofence_to_cql2 (some g) = do
    allowed ← area_clause (λ e. e) (prop_of g) g.allowed_area
    denied ← area_clause k.not_ (prop_of g) g.denied_area
    some (and_non_nil (allowed ∷ denied ∷ []))

  unfoldable pub parsed : String → Option Expr?
  parsed raw = k.parse raw >>= λ n. some (some n)

  unfoldable pub policy_of : Option Json → String → Option Expr?
  unfolding parsed
  policy_of (some v) s = k.marshal v >>= parsed
  policy_of none s = if str_eq s "" then some none else parsed s

  -- The JSON form wins over the text.
  unfoldable pub parse_policy_cql2 : AuthzConstraints → Option Expr?
  unfolding policy_of
  parse_policy_cql2 c = policy_of c.cql2_filter_json c.cql2_filter

  unfoldable pub parse_user_cql2 : Option Json → Option Expr?
  unfolding parsed
  parse_user_cql2 none = some none
  parse_user_cql2 (some (text s)) = if str_eq s "" then some none else parsed s
  parse_user_cql2 (some v) = k.marshal v >>= parsed

  unfoldable pub encode_for_lang : Node → String → Option Json
  encode_for_lang e lang =
      if str_eq lang "cql2-json"
      then (k.encode_json e >>= k.unmarshal)
      else (k.encode_text e >>= λ s. some (text s))

  -- The combined expression as the new policy filter, and the constraints unchanged without one.
  unfoldable pub pushed : AuthzConstraints → Expr? → Option AuthzConstraints
  pushed c none = some c
  pushed c (some e) = do
    s ← k.encode_text e
    some (record c { cql2_filter = s; cql2_filter_json = none; geofence_pushed_down = true })

  unfoldable pub push_fence : AuthzConstraints → Expr? → Option AuthzConstraints
  unfolding and_non_nil parse_policy_cql2 pushed
  push_fence c none = some c
  push_fence c (some fence) = do
    existing ← parse_policy_cql2 c
    pushed c (and_non_nil (existing ∷ some fence ∷ []))

  unfoldable pub maybe_push_down_geofence : AuthzConstraints → Bool → Option AuthzConstraints
  unfolding geofence_to_cql2 push_fence
  maybe_push_down_geofence c spatial_supported =
      if c.geofence_pushed_down
      then some c
      else (if spatial_supported then (geofence_to_cql2 c.geofence >>= push_fence c) else some c)

  unfoldable pub encoded : AuthzConstraints → SearchRequest → Option Json → Injection
  unfolding lang_of
  encoded c sr none = server_error
  encoded c sr (some f) = injected c (record sr { filter = some f; filter_lang = lang_of sr })

  unfoldable pub write_filter : AuthzConstraints → SearchRequest → Expr? → Injection
  unfolding encoded encode_for_lang lang_of
  write_filter c sr none = injected c sr
  write_filter c sr (some e) = encoded c sr (encode_for_lang e (lang_of sr))

  unfoldable pub with_user :
      AuthzConstraints → SearchRequest → Expr? → Expr? → Option Expr? → Injection
  unfolding write_filter and_non_nil
  with_user c sr policy required none = user_error
  with_user c sr policy required (some user) =
      write_filter c sr (and_non_nil (user ∷ policy ∷ required ∷ []))

  -- The policy's side: the updated constraints, their filter and their required filters.
  unfoldable pub policy_side : AuthzConstraints → Bool → Option (AuthzConstraints × Expr? × Expr?)
  unfolding maybe_push_down_geofence parse_policy_cql2 required_filters_to_cql2
  policy_side c spatial_supported = do
    updated ← maybe_push_down_geofence c spatial_supported
    policy ← parse_policy_cql2 updated
    required ← required_filters_to_cql2 updated.required_filters
    some (updated, policy, required)

  unfoldable pub inject : SearchRequest → Option (AuthzConstraints × Expr? × Expr?) → Injection
  unfolding with_user parse_user_cql2
  inject sr none = server_error
  inject sr (some (updated, policy, required)) =
      with_user updated sr policy required (parse_user_cql2 sr.filter)

  unfoldable pub inject_cql2_filter : SearchRequest → AuthzConstraints → Bool → Injection
  unfolding inject policy_side
  inject_cql2_filter sr c spatial_supported = inject sr (policy_side c spatial_supported)
