-- ===== src/Middleware/Auth/Apikey.antt =====
-- internal/middleware/auth/apikey.go: the provider of API keys. Its HMAC with hex digits, under the
-- secret of the provider, is an argument; so is what package yaml makes of a file of keys, where
-- `none` is a file that cannot be read.
use Prim.Native.String.{◌++◌ as str_append}
use stac_proxy.Common.{
  String, Bool, true, ◌&&◌, not, Option, none, some, List, [], ◌∷◌, str_eq, if◌then◌else◌, lookup,
  upsert, erase_key,
}
use stac_proxy.Httpx.Headers.{get_header}
use stac_proxy.Middleware.Auth.{
  Principal, Request, Attempt, failed, abstained, authenticated, Provider,
}

pub record ApikeyEntry : Type 0 where
  pub key : String
  pub name : String
  pub description : String
  pub roles : List String
  pub groups : List String
  pub collections : List String
  pub enabled : Bool

pub record ApikeyConfig : Type 0 where
  pub header : String
  pub query_param : String
  pub allow_query_param : Bool
  pub has_keys_file : Bool
  pub keys : List (String × ApikeyEntry)

pub record ApikeyProvider : Type 0 where
  pub header : String
  pub query_param : String
  pub allow_query_param : Bool
  pub keys : List (String × ApikeyEntry)

-- `p.header != "" && req.Header.Get(p.header) != ""`, and the key itself.
unfoldable pub header_key : {C : Type 0} → ApikeyProvider → Request C → String
unfolding get_header
header_key p r = if str_eq p.header "" then "" else get_header (r.canonical p.header) r.header

unfoldable pub query_key : {C : Type 0} → ApikeyProvider → Request C → String
query_key p r =
    if p.allow_query_param && not (str_eq p.query_param "") then r.query p.query_param else ""

unfoldable pub presented : {C : Type 0} → ApikeyProvider → Request C → String
unfolding header_key query_key
presented p r = if str_eq (header_key p r) "" then query_key p r else header_key p r

unfoldable pub claims_key : {C : Type 0} → ApikeyProvider → Request C → Bool
unfolding header_key query_key
claims_key p r = if not (str_eq (header_key p r) "") then true else not (str_eq (query_key p r) "")

unfoldable pub principal_of_entry : ApikeyEntry → Principal
principal_of_entry e = record {
  id = str_append "apikey:" e.name;
  type_ = "service";
  email = "";
  name = e.name;
  groups = e.groups;
  roles = e.roles;
  attributes = ("auth_method", "api_key") ∷ ("key_name", e.name) ∷ [];
  collections = e.collections;
  token = "";
  expires_at = 0;
}

unfoldable pub check_entry : Option ApikeyEntry → Attempt
unfolding principal_of_entry
check_entry none = failed
check_entry (some e) = if not e.enabled then failed else authenticated (principal_of_entry e)

unfoldable pub without_plaintext : ApikeyEntry → ApikeyEntry
without_plaintext e = record e { key = "" }

module _ (digest : String → String) where
  unfoldable pub authenticate_key : {C : Type 0} → ApikeyProvider → Request C → Attempt
  unfolding presented check_entry
  authenticate_key p r =
      if str_eq (presented p r) ""
      then abstained
      else check_entry (lookup (digest (presented p r)) p.keys)

  unfoldable pub put_key :
      String → ApikeyEntry → List (String × ApikeyEntry) → List (String × ApikeyEntry)
  unfolding upsert without_plaintext
  put_key key e = upsert (digest key) (without_plaintext e) (λ old. without_plaintext e)

  unfoldable pub load_entries :
      List ApikeyEntry → List (String × ApikeyEntry) → List (String × ApikeyEntry)
  unfolding put_key
  load_entries [] m = m
  load_entries (e ∷ es) m =
      load_entries es (if e.enabled && not (str_eq e.key "") then put_key e.key e m else m)

  -- `loadKeysFromFile`: an error leaves the keys as they are.
  unfoldable pub load_keys : Option (List ApikeyEntry) → ApikeyProvider → Option ApikeyProvider
  unfolding load_entries
  load_keys none p = none
  load_keys (some es) p = some (record p { keys = load_entries es p.keys })

  unfoldable pub add_configured :
      List (String × ApikeyEntry) → List (String × ApikeyEntry) → List (String × ApikeyEntry)
  unfolding put_key
  add_configured [] m = m
  add_configured ((key, e) ∷ es) m = add_configured es (if e.enabled then put_key key e m else m)

  unfoldable pub empty_provider : ApikeyConfig → ApikeyProvider
  empty_provider cfg = record {
    header = if str_eq cfg.header "" && str_eq cfg.query_param "" then "X-API-Key" else cfg.header;
    query_param = cfg.query_param;
    allow_query_param = cfg.allow_query_param;
    keys = [];
  }

  unfoldable pub with_configured :
      List (String × ApikeyEntry) → Option ApikeyProvider → Option ApikeyProvider
  unfolding add_configured
  with_configured es none = none
  with_configured es (some p) = some (record p { keys = add_configured es p.keys })

  unfoldable pub new_apikey_provider :
      ApikeyConfig → Option (List ApikeyEntry) → Option ApikeyProvider
  unfolding load_keys empty_provider with_configured
  new_apikey_provider cfg file =
      with_configured cfg.keys (
        if cfg.has_keys_file
        then load_keys file (empty_provider cfg)
        else some (empty_provider cfg))

  unfoldable pub add_key : String → ApikeyEntry → ApikeyProvider → ApikeyProvider
  unfolding put_key
  add_key key e p = record p { keys = put_key key e p.keys }

  unfoldable pub remove_key : String → ApikeyProvider → ApikeyProvider
  unfolding erase_key
  remove_key key p = record p { keys = erase_key (digest key) p.keys }

  unfoldable pub or_same : ApikeyProvider → Option ApikeyProvider → ApikeyProvider
  or_same p none = p
  or_same p (some q) = q

  unfoldable pub reload_keys : Option (List ApikeyEntry) → ApikeyProvider → ApikeyProvider
  unfolding load_keys or_same
  reload_keys file p = or_same p (load_keys file p)

  unfoldable pub apikey_provider : {C : Type 0} → ApikeyProvider → Provider C
  unfolding claims_key authenticate_key
  apikey_provider p = record { claims_credential = claims_key p; authenticate = authenticate_key p }
