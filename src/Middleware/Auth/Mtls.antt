-- ===== src/Middleware/Auth/Mtls.antt =====
-- internal/middleware/auth/mtls.go: the provider of client certificates. Package x509 is an argument:
-- the fields of a certificate by their printed texts, and its verification under the trusted pool.
use Prim.Native.String.{◌++◌ as str_append}
use stac_proxy.Common.{
  ◌≡◌, ◌⊎◌, refl, String, Bool, true, false, none, some, List, [], ◌∷◌, ◌++◌, str_eq, if◌then◌else◌,
  has_prefix, cut_once, arith, inl, inr,
}
use stac_proxy.Middleware.Auth.{Principal, Attempt, failed, abstained, authenticated, Provider}

pub record Certificate : Type 0 where
  pub common_name : String
  pub email_addresses : List String
  pub dns_names : List String
  pub organization : List String
  pub organizational_unit : List String
  pub subject_dn : String
  pub issuer_dn : String
  pub serial_number : String
  pub not_before : String
  pub not_after : String
  pub ip_addresses : List String
  pub uris : List String

unfoldable pub first_or : List String → String → String
first_or [] d = d
first_or (s ∷ ss) d = s

-- `strings.Join`
unfoldable pub join_texts : String → List String → String
join_texts sep [] = ""
join_texts sep (s ∷ []) = s
join_texts sep (s ∷ t ∷ ss) = str_append s (str_append sep (join_texts sep (t ∷ ss)))

unfoldable pub attribute_of : String → List String → String → List (String × String)
attribute_of name [] value = []
attribute_of name (s ∷ ss) value = (name, value) ∷ []

unfoldable pub subject_id : Certificate → String
unfolding first_or
subject_id c =
    if str_eq c.common_name ""
    then first_or c.email_addresses (first_or c.dns_names "")
    else c.common_name

unfoldable pub default_map_subject : Certificate → Principal
unfolding subject_id attribute_of join_texts first_or
default_map_subject c =
    let sans = c.dns_names ++ (c.ip_addresses ++ c.uris) in
    record {
      id = subject_id c;
      type_ = "certificate";
      email = "";
      name = "";
      groups = [];
      roles = c.organization;
      attributes =
          ("subject_dn", c.subject_dn)
          ∷ ("issuer_dn", c.issuer_dn)
          ∷ ("serial_number", c.serial_number)
          ∷ ("not_before", c.not_before)
          ∷ ("not_after", c.not_after)
          ∷ (attribute_of "email" c.email_addresses (first_or c.email_addresses "")
              ++ (attribute_of "ou" c.organizational_unit (join_texts "," c.organizational_unit)
                  ++ attribute_of "sans" sans (join_texts "," sans)));
      collections = [];
      token = "";
      expires_at = 0;
    }

-- The first URI of the scheme, or "".
unfoldable pub extract_spiffe_id : List String → String
unfolding has_prefix
extract_spiffe_id [] = ""
extract_spiffe_id (u ∷ us) = if has_prefix u "spiffe://" then u else extract_spiffe_id us

unfoldable pub is_trusted_id : String → List String → Bool
unfolding has_prefix
is_trusted_id id [] = false
is_trusted_id id (d ∷ ds) =
    if has_prefix id (str_append "spiffe://" (str_append d "/")) then true else is_trusted_id id ds

-- What follows the third slash of a text, as the last part of `strings.SplitN(s, "/", 4)`.
unfoldable pub workload_of : String → String
unfolding cut_once
workload_of s = elim (cut_once 47 s) [
  | none ↦ ""
  | some (a, b) ↦ elim (cut_once 47 b) [
    | none ↦ ""
    | some (c, d) ↦ elim (cut_once 47 d) [ none ↦ "" | some (e, f) ↦ f ]
  ]
]

unfoldable pub spiffe_principal : String → Principal
unfolding workload_of
spiffe_principal id = record {
  id = id;
  type_ = "spiffe";
  email = "";
  name = "";
  groups = [];
  roles = [];
  attributes = ("spiffe_id", id) ∷ ("workload", workload_of id) ∷ [];
  collections = [];
  token = "";
  expires_at = 0;
}

unfoldable pub map_spiffe : List String → String → Attempt
unfolding is_trusted_id spiffe_principal
map_spiffe domains id = if str_eq id "" then failed else (elim domains [
  | [] ↦ authenticated (spiffe_principal id)
  | d ∷ ds ↦ if is_trusted_id id (d ∷ ds) then authenticated (spiffe_principal id) else failed
])

-- The implementations of SubjectMapper; no mapper at all maps as the default one does.
pub data SubjectMapper : Type 0 where
  default_mapper : SubjectMapper
  spiffe_mapper : List String → SubjectMapper

unfoldable pub map_subject : SubjectMapper → Certificate → Attempt
unfolding default_map_subject extract_spiffe_id map_spiffe
map_subject default_mapper c = authenticated (default_map_subject c)
map_subject (spiffe_mapper domains) c = map_spiffe domains (extract_spiffe_id c.uris)

-- `verify` is cert.Verify under the trusted pool, for client authentication, without error.
unfoldable pub authenticate_chain :
    (Certificate → Bool) → SubjectMapper → List Certificate → Attempt
unfolding map_subject
authenticate_chain verify mapper [] = abstained
authenticate_chain verify mapper (c ∷ cs) = if verify c then map_subject mapper c else failed

unfoldable pub mtls_provider : (Certificate → Bool) → SubjectMapper → Provider Certificate
unfolding authenticate_chain
mtls_provider verify mapper = record {
  claims_credential = λ r. (elim r.peer_certificates [ [] ↦ false | c ∷ cs ↦ true ]);
  authenticate = λ r. authenticate_chain verify mapper r.peer_certificates;
}

map_spiffe-trusted :
    (domains : List String) (id : String) (who : Principal)
    → map_spiffe domains id ≡ authenticated who
    → (who.id ≡ id) × ((domains ≡ []) ⊎ (is_trusted_id id domains ≡ true))
unfolding map_spiffe
map_spiffe-trusted [] id who h = (ground arith, inl refl)
map_spiffe-trusted (d ∷ ds) id who h = (ground arith, inr (ground arith))
