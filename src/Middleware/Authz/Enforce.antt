-- ===== src/Middleware/Authz/Enforce.antt =====
-- internal/middleware/authz/middleware.go (NewHTTPMiddleware, validateSingleRecord) and the request
-- shapes of internal/middleware/types.go: one request through the middleware, before and after the
-- inner handler. The descriptions of the error replies are left out.
use stac_proxy.Common.{
  ℕ, String, Bool, true, false, ◌&&◌, not, Option, none, some, List, [], ◌∷◌, ltb, leb, str_eq,
  if◌then◌else◌,
}
use stac_proxy.Stac.Cql2.{Library}
use stac_proxy.Stac.Cql2.Eval.{eval_cql2}
use stac_proxy.Middleware.Authz.{GeofenceConstraint, AuthzConstraints, AuthzDecision}
use stac_proxy.Middleware.Authz.Scope.{SearchRequest, apply_constraints}
use stac_proxy.Middleware.Authz.Filters.{
  Builders, Expr?, and_non_nil, policy_side, Injection, injected, user_error, server_error,
  inject_cql2_filter,
}
use stac_proxy.Middleware.Authz.Geofence.{
  Bodies, Filtered, not_applicable, malformed_body, filtered, filter_by_geofence,
}

pub data RequestType : Type 0 where
  unknown landing conformance collections collection items item search queryables : RequestType
  collection_queryables asset : RequestType

pub record StacInfo : Type 0 where
  pub collection : String
  pub item_id : String
  pub request_type : RequestType
  pub search_req : Option SearchRequest

-- HTTPConfig; a check that is not configured is `none`.
pub record HttpConfig : Type 0 where
  pub allow_anonymous : Bool
  pub cql2_injection_enabled : Bool
  pub filter_extension_check : Option (StacInfo → Bool)
  pub spatial_filter_check : Option (StacInfo → Bool)

pub record Captured : Type 0 where
  pub status : ℕ
  pub headers : List (String × String)
  pub body : String

pub data Reply : Type 0 where
  json_error : ℕ → String → Reply
  forwarded : Captured → Reply

-- The request goes on with what it carries, or is answered at once.
pub data Admission : Type 0 where
  refused : ℕ → String → Admission
  admitted : Option StacInfo → Option AuthzConstraints → Admission

unfoldable pub holds_by_default : Option (StacInfo → Bool) → StacInfo → Bool
holds_by_default none info = true
holds_by_default (some check) info = check info

unfoldable pub is_ok : ℕ → Bool
is_ok status = leb 200 status && ltb status 300

unfoldable pub is_item : Option StacInfo → Bool
is_item none = false
is_item (some info) = elim info.request_type [ item ↦ true | _ ↦ false ]

-- The geofence that the response is filtered by.
unfoldable pub active_fence : AuthzConstraints → Option GeofenceConstraint
active_fence c = elim c.geofence [
  | none ↦ none
  | some g ↦ if g.filter_mode && not c.geofence_pushed_down then some g else none
]

unfoldable pub ok_or_false : Option Bool → Bool
ok_or_false (some b) = b
ok_or_false none = false

unfoldable pub after_injection : StacInfo → Injection → Admission
after_injection info user_error = refused 400 "InvalidParameterValue"
after_injection info server_error = refused 500 "InternalError"
after_injection info (injected c sr) =
    admitted (some (record info { search_req = some sr })) (some c)

module _ (k : Builders) where
  unfoldable pub after_scope :
      HttpConfig → StacInfo → Option (SearchRequest × AuthzConstraints) → Admission
  unfolding after_injection holds_by_default inject_cql2_filter
  after_scope cfg info none = refused 403 "Forbidden"
  after_scope cfg info (some (sr, c)) =
      if cfg.cql2_injection_enabled && holds_by_default cfg.filter_extension_check info
      then after_injection info
          (inject_cql2_filter k sr c (holds_by_default cfg.spatial_filter_check info))
      else admitted (some (record info { search_req = some sr })) (some c)

  -- The parsed search and the constraints, where the request has both.
  unfoldable pub mutate :
      HttpConfig → StacInfo → Option SearchRequest → Option AuthzConstraints → Admission
  unfolding after_scope apply_constraints
  mutate cfg info (some sr) (some c) = after_scope cfg info (apply_constraints c sr)
  mutate cfg info none c = admitted (some info) c
  mutate cfg info (some sr) none = admitted (some info) none

  unfoldable pub mutate_request : HttpConfig → Option StacInfo → Option AuthzConstraints → Admission
  unfolding mutate
  mutate_request cfg none c = admitted none c
  mutate_request cfg (some info) c = mutate cfg info info.search_req c

  -- A decision of `none` is an error of the enforcer.
  unfoldable pub decide : HttpConfig → Option StacInfo → Option AuthzDecision → Admission
  unfolding mutate_request
  decide cfg info none = refused 500 "InternalError"
  decide cfg info (some d) =
      if not d.allowed then refused 403 "Forbidden" else mutate_request cfg info d.constraints

  -- Up to the call of the inner handler.
  unfoldable pub before : HttpConfig → Bool → Option StacInfo → Option AuthzDecision → Admission
  unfolding decide
  before cfg has_principal info decision =
      if not has_principal && not cfg.allow_anonymous
      then refused 401 "Unauthorized"
      else decide cfg info decision

module _ {G : Type 0} (geo : Library G) (k : Builders) (bodies : Bodies G) where
  unfoldable pub matches : Expr? → String → Bool
  unfolding ok_or_false
  matches none body = true
  matches (some e) body = elim (bodies.unmarshal_object body) [
    | none ↦ true
    | some record_ ↦ ok_or_false (eval_cql2 geo e record_)
  ]

  unfoldable pub validate_side : String → Option (AuthzConstraints × Expr? × Expr?) → Bool
  unfolding matches and_non_nil
  validate_side body none = true
  validate_side body (some (updated, policy, required)) =
      matches (and_non_nil k (policy ∷ required ∷ [])) body

  -- Errors on the policy's side count as a match, as does a body that is no JSON object.
  unfoldable pub validate_single_record : String → AuthzConstraints → Bool
  unfolding validate_side policy_side
  validate_single_record body c =
      if str_eq body "" then true else validate_side body (policy_side k c true)

  unfoldable pub validated : Option StacInfo → AuthzConstraints → Captured → Reply
  unfolding validate_single_record is_item is_ok
  validated info c resp =
      if is_item info && (is_ok resp.status && not (validate_single_record resp.body c))
      then json_error 404 "NotFound"
      else forwarded resp

  unfoldable pub after_filter : Option StacInfo → AuthzConstraints → Captured → Filtered → Reply
  unfolding validated
  after_filter info c resp not_applicable = validated info c resp
  after_filter info c resp malformed_body = json_error 502 "BadGateway"
  after_filter info c resp (filtered body) = validated info c (record resp { body = body })

  unfoldable pub fence_status : Captured → Option GeofenceConstraint → Filtered
  unfolding filter_by_geofence is_ok
  fence_status resp none = not_applicable
  fence_status resp (some g) =
      if is_ok resp.status then filter_by_geofence geo bodies resp.body g else not_applicable

  -- From the captured response on.
  unfoldable pub after : Option StacInfo → Option AuthzConstraints → Captured → Reply
  unfolding after_filter fence_status active_fence
  after info none resp = forwarded resp
  after info (some c) resp = after_filter info c resp (fence_status resp (active_fence c))

  unfoldable pub reply_to : (Option StacInfo → Captured) → Admission → Reply
  unfolding after
  reply_to next (refused status error) = json_error status error
  reply_to next (admitted info c) = after info c (next info)

  -- With the inner handler's response to the request that reaches it.
  unfoldable pub handle :
      HttpConfig
      → Bool
      → Option StacInfo
      → Option AuthzDecision
      → (Option StacInfo → Captured)
      → Reply
  unfolding before reply_to
  handle cfg has_principal info decision next =
      reply_to next (before k cfg has_principal info decision)
