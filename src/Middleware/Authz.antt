-- ===== src/Middleware/Authz.antt =====
-- internal/middleware/authz/types.go: a decision and the constraints that it puts on a request. A
-- value of Go's interface type is a JSON value, with nothing for nil.
pub mod Scope
pub mod Filters
pub mod Merging
pub mod Injected
pub mod Geofence
pub mod Enforce
pub mod Admitted
pub mod Bounds
pub mod Records
pub mod Fencing
pub mod Searches
pub mod Keys
pub mod Input
use stac_proxy.Common.{
  ℕ, String, Bool, true, false, ◌||◌, not, Option, none, some, List, is_empty, ltb, str_eq,
}
use stac_proxy.Stac.Cql2.{Json}

pub record GeofenceConstraint : Type 0 where
  pub allowed_area : Option Json
  pub denied_area : Option Json
  pub filter_mode : Bool
  pub geometry_property : String

-- A negative maximum is never positive and takes the branches of 0.
pub record AuthzConstraints : Type 0 where
  pub allowed_collections : List String
  pub denied_collections : List String
  pub geofence : Option GeofenceConstraint
  pub max_results : ℕ
  pub required_filters : List (String × Json)
  pub cql2_filter : String
  pub cql2_filter_json : Option Json
  pub geofence_pushed_down : Bool

pub record AuthzDecision : Type 0 where
  pub allowed : Bool
  pub reasons : List String
  pub constraints : Option AuthzConstraints
  pub final : Bool

unfoldable pub is_set : Option Json → Bool
is_set (some s) = true
is_set none = false

fences : Option GeofenceConstraint → Bool
fences (some g) = is_set g.allowed_area
fences none = false

restricts : Option AuthzConstraints → Bool
restricts none = false
restricts (some c) =
    not (is_empty c.allowed_collections)
    || (not (is_empty c.denied_collections)
        || (fences c.geofence
            || (ltb 0 c.max_results
                || (not (is_empty c.required_filters)
                    || (not (str_eq c.cql2_filter "") || is_set c.cql2_filter_json)))))

-- A missing decision has no constraints.
unfoldable pub has_constraints : Option AuthzDecision → Bool
unfolding restricts fences is_set
has_constraints none = false
has_constraints (some d) = restricts d.constraints
