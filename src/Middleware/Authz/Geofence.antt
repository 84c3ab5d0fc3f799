-- ===== src/Middleware/Authz/Geofence.antt =====
-- internal/middleware/authz/middleware.go (filterByGeofence, bodyClaimsFeatureCollection,
-- parseGeofenceAreas): the filter of a response. A body is the text of its bytes.
use Prim.Native.Char.{code}
use Prim.Native.String.{[] as str_nil, ◌∷◌ as str_cons}
use stac_proxy.Common.{
  ℕ, zero, suc, String, Bool, true, false, ◌&&◌, not, Option, none, some, ◌==◌, str_eq,
  if◌then◌else◌,
}
use stac_proxy.Stac.Cql2.{
  Float64, Json, null, number, text, array, object, Jsons, empty, more, Fields, field, no_field,
  Library, field_of,
}
use stac_proxy.Middleware.Authz.{GeofenceConstraint}
use stac_proxy.Middleware.Authz.Filters.{prop_of}

-- Package json on objects, the number that it makes of an int, and `Geometry.Contains`.
pub record Bodies (G : Type 0) : Type 0 where
  pub unmarshal_object : String → Option Fields
  pub marshal_object : Fields → Option String
  pub int_number : ℕ → Float64
  pub contains : G → G → Bool

-- geofenceFilterStatus, with the bytes of a filtered body.
pub data Filtered : Type 0 where
  not_applicable malformed_body : Filtered
  filtered : String → Filtered

unfoldable pub take_text : ℕ → String → String
take_text zero s = ""
take_text (suc n) str_nil = ""
take_text (suc n) (str_cons c s) = str_cons c (take_text n s)

unfoldable pub starts_with : String → String → Bool
starts_with str_nil s = true
starts_with (str_cons c p) str_nil = false
starts_with (str_cons c p) (str_cons d s) = code c == code d && starts_with p s

-- `bytes.Contains`
unfoldable pub has_text : String → String → Bool
unfolding starts_with
has_text p str_nil = starts_with p ""
has_text p (str_cons c s) = if starts_with p (str_cons c s) then true else has_text p s

abbrev pub sniff_limit : ℕ
sniff_limit = 2048

unfoldable pub body_claims_feature_collection : String → Bool
unfolding take_text has_text
body_claims_feature_collection body = has_text "\"FeatureCollection\"" (take_text sniff_limit body)

unfoldable pub count : Jsons → ℕ
count empty = 0
count (more v vs) = suc (count vs)

-- `fc[name] = v` for a key that is there, and nothing for one that is not.
unfoldable pub put_field : String → Json → Fields → Fields
put_field name v no_field = no_field
put_field name v (field k w fs) =
    if str_eq k name then field k v fs else field k w (put_field name v fs)

unfoldable pub features_of : Option Json → Option Jsons
features_of (some (array vs)) = some vs
features_of _ = none

unfoldable pub says_feature_collection : Option Json → Bool
says_feature_collection (some (text s)) = str_eq s "FeatureCollection"
says_feature_collection _ = false

module _ {G : Type 0} (geo : Library G) (bodies : Bodies G) where
  -- An area that is denied and does not parse is as none; one that is allowed is an error.
  unfoldable pub denied_area_of : Option Json → Option G
  denied_area_of none = none
  denied_area_of (some v) = geo.parse_item v

  unfoldable pub with_denied : Option G → Option G → Option (Option G × Option G)
  with_denied denied none = none
  with_denied denied (some a) = some (some a, denied)

  unfoldable pub parse_geofence_areas : GeofenceConstraint → Option (Option G × Option G)
  unfolding denied_area_of with_denied
  parse_geofence_areas g = elim g.allowed_area [
    | none ↦ some (none, denied_area_of g.denied_area)
    | some v ↦ with_denied (denied_area_of g.denied_area) (geo.parse_item v)
  ]

  unfoldable pub meets : Option G → G → Bool
  meets none g = true
  meets (some a) g = geo.intersects a g

  unfoldable pub lies_in : Option G → G → Bool
  lies_in none g = false
  lies_in (some d) g = bodies.contains d g

  unfoldable pub geometry_in : Option Json → Option G
  geometry_in none = none
  geometry_in (some null) = none
  geometry_in (some v) = geo.parse_item v

  unfoldable pub inside : Option G → Option G → Option G → Bool
  unfolding meets lies_in
  inside allowed denied none = false
  inside allowed denied (some g) = meets allowed g && not (lies_in denied g)

  -- A feature stays if it is an object with a geometry that meets the allowed area and does not lie
  -- in the denied one.
  unfoldable pub is_kept : Option G → Option G → String → Json → Bool
  unfolding inside geometry_in
  is_kept allowed denied prop (object item) =
      inside allowed denied (geometry_in (field_of prop item))
  is_kept allowed denied prop _ = false

  unfoldable pub keep : Option G → Option G → String → Jsons → Jsons
  keep allowed denied prop empty = empty
  keep allowed denied prop (more v vs) =
      if is_kept allowed denied prop v
      then more v (keep allowed denied prop vs)
      else keep allowed denied prop vs

  unfoldable pub with_features : Jsons → Fields → Fields
  unfolding put_field count
  with_features kept fc = put_field "numberMatched" (number (bodies.int_number (count kept))) (
      put_field "numberReturned" (number (bodies.int_number (count kept)))
        (put_field "features" (array kept) fc))

  unfoldable pub marshalled : Option String → Filtered
  marshalled none = malformed_body
  marshalled (some out) = filtered out

  unfoldable pub filter_features :
      GeofenceConstraint → Option G → Option G → Fields → Option Jsons → Filtered
  unfolding marshalled with_features keep prop_of
  filter_features g allowed denied fc none = malformed_body
  filter_features g allowed denied fc (some features) =
      marshalled
        (bodies.marshal_object (with_features (keep allowed denied (prop_of g) features) fc))

  unfoldable pub filter_object :
      GeofenceConstraint → Option G → Option G → String → Option Fields → Filtered
  unfolding filter_features features_of says_feature_collection body_claims_feature_collection
  filter_object g allowed denied body none =
      if body_claims_feature_collection body then malformed_body else not_applicable
  filter_object g allowed denied body (some fc) =
      if says_feature_collection (field_of "type" fc)
      then filter_features g allowed denied fc (features_of (field_of "features" fc))
      else not_applicable

  unfoldable pub filter_areas :
      GeofenceConstraint → String → Option (Option G × Option G) → Filtered
  unfolding filter_object
  filter_areas g body none = not_applicable
  filter_areas g body (some (none, none)) = not_applicable
  filter_areas g body (some (some a, denied)) =
      filter_object g (some a) denied body (bodies.unmarshal_object body)
  filter_areas g body (some (none, some d)) =
      filter_object g none (some d) body (bodies.unmarshal_object body)

  unfoldable pub filter_by_geofence : String → GeofenceConstraint → Filtered
  unfolding filter_areas parse_geofence_areas
  filter_by_geofence body g =
      if str_eq body "" then not_applicable else filter_areas g body (parse_geofence_areas g)
