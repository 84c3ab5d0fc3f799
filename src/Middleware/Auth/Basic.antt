-- ===== src/Middleware/Auth/Basic.antt =====
-- internal/middleware/auth/basic.go: the provider of user names and passwords. Base64 and bcrypt are
-- arguments, with texts for Go's byte slices.
use stac_proxy.Common.{
  String, Bool, ◌||◌, Option, none, some, List, [], ◌∷◌, str_eq, if◌then◌else◌, lookup, upsert,
  has_prefix, trim_prefix, cut_once,
}
use stac_proxy.Stac.Cql2.{Json, null, boolean, number, text, array, object}
use stac_proxy.Httpx.Headers.{get_header}
use stac_proxy.Middleware.Auth.{
  Principal, Request, Attempt, failed, abstained, authenticated, Provider,
}

pub record HashedUser : Type 0 where
  pub password_hash : String
  pub roles : List String
  pub attributes : List (String × Json)

pub record BasicUser : Type 0 where
  pub username : String
  pub password_hash : String
  pub roles : List String
  pub attributes : List (String × Json)

unfoldable pub is_bcrypt_hash : String → Bool
unfolding has_prefix
is_bcrypt_hash s = has_prefix s "$2a$" || (has_prefix s "$2b$" || has_prefix s "$2y$")

-- The attributes that are texts.
unfoldable pub text_attributes : List (String × Json) → List (String × String)
text_attributes [] = []
text_attributes ((k, text s) ∷ m) = (k, s) ∷ text_attributes m
text_attributes ((k, null) ∷ m) = text_attributes m
text_attributes ((k, boolean b) ∷ m) = text_attributes m
text_attributes ((k, number x) ∷ m) = text_attributes m
text_attributes ((k, array xs) ∷ m) = text_attributes m
text_attributes ((k, object fs) ∷ m) = text_attributes m

unfoldable pub user_principal : String → HashedUser → Principal
unfolding text_attributes
user_principal username u = record {
  id = username;
  type_ = "user";
  email = "";
  name = "";
  groups = [];
  roles = u.roles;
  attributes = text_attributes u.attributes;
  collections = [];
  token = "";
  expires_at = 0;
}

unfoldable pub claims_basic : {C : Type 0} → Request C → Bool
unfolding has_prefix get_header
claims_basic r = has_prefix (get_header "Authorization" r.header) "Basic "

-- `base64` is base64.StdEncoding.DecodeString, `compare` bcrypt.CompareHashAndPassword without error.
module _ (base64 : String → Option String) (compare : String → String → Bool) where
  unfoldable pub decode_password_hash : String → String
  unfolding is_bcrypt_hash
  decode_password_hash s =
      if is_bcrypt_hash s then s else (elim (base64 s) [ none ↦ s | some decoded ↦ decoded ])

  unfoldable pub hashed_user : BasicUser → HashedUser
  unfolding decode_password_hash
  hashed_user u = record {
    password_hash = decode_password_hash u.password_hash;
    roles = u.roles;
    attributes = u.attributes;
  }

  unfoldable pub add_users :
      List BasicUser → List (String × HashedUser) → List (String × HashedUser)
  unfolding upsert hashed_user
  add_users [] m = m
  add_users (u ∷ us) m = add_users us (upsert u.username (hashed_user u) (λ old. hashed_user u) m)

  unfoldable pub new_basic_users : List BasicUser → List (String × HashedUser)
  unfolding add_users
  new_basic_users us = add_users us []

  unfoldable pub cut_credentials : Option String → Option (String × String)
  unfolding cut_once
  cut_credentials none = none
  cut_credentials (some s) = cut_once 58 s

  unfoldable pub parse_basic_auth : String → Option (String × String)
  unfolding cut_credentials trim_prefix
  parse_basic_auth auth = cut_credentials (base64 (trim_prefix auth "Basic "))

  unfoldable pub check_password : String → String → Option HashedUser → Attempt
  unfolding user_principal
  check_password username password none = failed
  check_password username password (some u) =
      if compare u.password_hash password then authenticated (user_principal username u) else failed

  unfoldable pub check_credentials : List (String × HashedUser) → Option (String × String) → Attempt
  unfolding check_password
  check_credentials users none = failed
  check_credentials users (some (username, password)) =
      check_password username password (lookup username users)

  unfoldable pub authenticate_basic :
      {C : Type 0} → List (String × HashedUser) → Request C → Attempt
  unfolding parse_basic_auth check_credentials claims_basic get_header
  authenticate_basic users r =
      if str_eq (get_header "Authorization" r.header) ""
      then abstained
      else (if has_prefix (get_header "Authorization" r.header) "Basic "
          then check_credentials users (parse_basic_auth (get_header "Authorization" r.header))
          else abstained)

  unfoldable pub basic_provider : {C : Type 0} → List (String × HashedUser) → Provider C
  unfolding claims_basic authenticate_basic
  basic_provider users = record {
    claims_credential = claims_basic;
    authenticate = authenticate_basic users;
  }
