-- ===== src/Middleware/Authz/Input.antt =====
-- internal/middleware/authz/types.go (BuildAuthzInput, extractHeaders, ConfigureHeaderAllowlist,
-- resourceTypeFromRequest) and RequestType.String of internal/middleware/types.go: what a policy gets
-- to see of a request. The canonical form of a header's name is an argument; the query, the client's
-- address and the request's ID come with the request.
use stac_proxy.Common.{
  ◌≡◌, String, true, not, Option, none, some, List, [], ◌∷◌, ◌++◌, map, str_eq, if◌then◌else◌, elem,
  select_names, lookup, upsert, All, inl, inr, Bool-cases,
}
use stac_proxy.Middleware.Authz.Enforce.{
  RequestType, unknown, landing, conformance, collections, collection, items, item, search,
  queryables, collection_queryables, asset, StacInfo,
}

unfoldable pub type_name : RequestType → String
type_name unknown = "unknown"
type_name landing = "landing"
type_name conformance = "conformance"
type_name collections = "collections"
type_name collection = "collection"
type_name items = "items"
type_name item = "item"
type_name search = "search"
type_name queryables = "queryables"
type_name collection_queryables = "collection_queryables"
type_name asset = "asset"

unfoldable pub resource_type_from_request : RequestType → String
unfolding type_name
resource_type_from_request collection = "collection"
resource_type_from_request collections = "collection"
resource_type_from_request item = "item"
resource_type_from_request items = "item"
resource_type_from_request search = "search"
resource_type_from_request t = type_name t

pub record Principal : Type 0 where
  pub id : String
  pub type_ : String
  pub roles : List String
  pub groups : List String
  pub attributes : List (String × String)

pub record PrincipalInfo : Type 0 where
  pub id : String
  pub type_ : String
  pub roles : List String
  pub groups : List String
  pub attributes : List (String × String)
  pub auth_method : String

-- An http.Request, with the address and the ID that its context carries.
pub record HttpRequest : Type 0 where
  pub method : String
  pub path : String
  pub query : List (String × List String)
  pub headers : List (String × List String)
  pub client_ip : String
  pub request_id : Option String

pub record RequestInfo : Type 0 where
  pub method : String
  pub path : String
  pub request_type : String
  pub query : List (String × List String)
  pub headers : List (String × String)
  pub client_ip : String
  pub request_id : String

pub record ResourceInfo : Type 0 where
  pub type_ : String
  pub collection : String
  pub item_id : String

pub record AuthzInput : Type 0 where
  pub principal : Option PrincipalInfo
  pub request : RequestInfo
  pub resource : ResourceInfo

abbrev pub default_header_allowlist : List String
default_header_allowlist =
    "User-Agent" ∷ "Accept" ∷ "Accept-Language" ∷ "Accept-Encoding" ∷ "Content-Type" ∷ "Origin"
    ∷ "Referer" ∷ []

unfoldable pub value_of : Option String → String
value_of (some s) = s
value_of none = ""

-- A missing principal stays missing.
unfoldable pub principal_info : Option Principal → Option PrincipalInfo
unfolding value_of
principal_info none = none
principal_info (some p) = some (record {
  id = p.id;
  type_ = p.type_;
  roles = p.roles;
  groups = p.groups;
  attributes = p.attributes;
  auth_method = value_of (lookup "auth_method" p.attributes);
})

unfoldable pub request_type_of : Option StacInfo → String
unfolding type_name
request_type_of none = ""
request_type_of (some info) = type_name info.request_type

unfoldable pub resource_of : Option StacInfo → ResourceInfo
unfolding resource_type_from_request
resource_of none = record { type_ = ""; collection = ""; item_id = "" }
resource_of (some info) = record {
  type_ = resource_type_from_request info.request_type;
  collection = info.collection;
  item_id = info.item_id;
}

module _ (canonical : String → String) where
  unfoldable pub configure_header_allowlist : List String → List String
  configure_header_allowlist extra =
      default_header_allowlist ++ map canonical (select_names (λ h. not (str_eq h "")) extra)

  unfoldable pub add_header :
      List String → String → List String → List (String × String) → List (String × String)
  add_header allow key [] out = out
  add_header allow key (v ∷ vs) out =
      if not (elem (canonical key) allow) then out else upsert (canonical key) v (λ old. v) out

  -- The loop over the headers, with the result so far.
  unfoldable pub add_headers :
      List String → List (String × List String) → List (String × String) → List (String × String)
  unfolding add_header
  add_headers allow [] out = out
  add_headers allow ((key, vs) ∷ hs) out = add_headers allow hs (add_header allow key vs out)

  unfoldable pub extract_headers :
      List String → List (String × List String) → List (String × String)
  unfolding add_headers
  extract_headers allow headers = add_headers allow headers []

  unfoldable pub build_authz_input :
      List String → HttpRequest → Option StacInfo → Option Principal → AuthzInput
  unfolding extract_headers value_of principal_info request_type_of resource_of
  build_authz_input allow r info principal = record {
    principal = principal_info principal;
    request = record {
      method = r.method;
      path = r.path;
      request_type = request_type_of info;
      query = r.query;
      headers = extract_headers allow r.headers;
      client_ip = r.client_ip;
      request_id = value_of r.request_id;
    };
    resource = resource_of info;
  }

  upsert-All :
      (allow : List String) (k v : String) (out : List (String × String))
      → elem k allow ≡ true
      → All (λ e. elem e.0 allow ≡ true) out
      → All (λ e. elem e.0 allow ≡ true) (upsert k v (λ old. v) out)
  unfolding upsert
  upsert-All allow k v [] listed h = (listed, tt)
  upsert-All allow k v ((j, w) ∷ out) listed h = elim (Bool-cases (str_eq j k)) [
    | inl same ↦ rw same (h.0, h.1)
    | inr apart ↦ rw apart (h.0, upsert-All allow k v out listed h.1)
  ]

  add_header-All :
      (allow : List String) (key : String) (vs : List String) (out : List (String × String))
      → All (λ e. elem e.0 allow ≡ true) out
      → All (λ e. elem e.0 allow ≡ true) (add_header allow key vs out)
  unfolding add_header
  add_header-All allow key [] out h = h
  add_header-All allow key (v ∷ vs) out h = elim (Bool-cases (elem (canonical key) allow)) [
    | inl listed ↦ rw listed (upsert-All allow (canonical key) v out listed h)
    | inr secret ↦ rw secret h
  ]

  add_headers-All :
      (allow : List String) (hs : List (String × List String)) (out : List (String × String))
      → All (λ e. elem e.0 allow ≡ true) out
      → All (λ e. elem e.0 allow ≡ true) (add_headers allow hs out)
  unfolding add_headers
  add_headers-All allow [] out h = h
  add_headers-All allow ((key, vs) ∷ hs) out h =
      add_headers-All allow hs (add_header allow key vs out) (add_header-All allow key vs out h)

  -- Whatever headers a request has: the policy's input holds only headers whose names, in canonical
  -- form, are on the list that is configured.
  build_authz_input-All :
      (extra : List String) (r : HttpRequest) (info : Option StacInfo)
      (principal : Option Principal)
      → All
          (λ e. elem e.0 (configure_header_allowlist extra) ≡ true)
          (build_authz_input (configure_header_allowlist extra) r info principal).request.headers
  unfolding build_authz_input extract_headers
  build_authz_input-All extra r info principal =
      add_headers-All (configure_header_allowlist extra) r.headers [] tt
