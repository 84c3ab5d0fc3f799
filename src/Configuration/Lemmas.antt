-- ===== src/Configuration/Lemmas.antt =====
-- internal/config/validation.go: no errors in a list of errors.
use stac_proxy.Common.{
  ◌≡◌, refl, sym, ap, ◌∙◌, ◌≤◌, String, Bool, true, false, ◌&&◌, not, Option, none, some, List, [],
  ◌∷◌, ◌++◌, map, str_eq, str_eq_iff, elem, if◌then◌else◌, arith, ◌⊎◌, inl, inr, Bool-cases, All,
}
use stac_proxy.Federation.Pagination.Shares.{count_id}
use stac_proxy.Configuration.{OriginConfig, System, Errors, Url, reject}
use stac_proxy.Configuration.Server.{is_web}
use stac_proxy.Configuration.Origins.{
  is_valid_id, validate_id, see, validate_origin, validate_origins, validate_breaker, validate_url,
  validate_origin_url, is_private_host,
}

pub append-nil_inv : (xs ys : Errors) → xs ++ ys ≡ [] → (xs ≡ []) × (ys ≡ [])
append-nil_inv [] ys h = (refl, h)
append-nil_inv (x ∷ xs) ys h = absurd (ground arith)

pub reject-nil : (b : Bool) (name : String) → reject b name ≡ [] → b ≡ false
reject-nil true name h = absurd (ground arith)
reject-nil false name h = refl

pub true_of_not : (b : Bool) → not b ≡ false → b ≡ true
true_of_not true h = refl
true_of_not false h = absurd (ground arith)

validate_id-nil :
    (id : String) (seen : List String)
    → validate_id id seen ≡ []
    → (str_eq id "" ≡ false) × (elem id seen ≡ false) × (is_valid_id id ≡ true)
unfolding validate_id
validate_id-nil id seen h = elim (Bool-cases (str_eq id "")) [
  | inl bare ↦ absurd (let e = rw bare at h in ground arith)
  | inr named ↦
      let e = rw named at h in
      let (unseen, well) = append-nil_inv (reject (elem id seen) "id is duplicate") _ e in
      (
        named,
        reject-nil (elem id seen) _ unseen,
        true_of_not (is_valid_id id) (reject-nil (not (is_valid_id id)) _ well),
      )
]

abbrev pub ids_of : List OriginConfig → List String
ids_of = map (λ o. o.id)

-- The parts of an origin without errors that the theorems are about.
pub origin-nil :
    (sys : System) (o : OriginConfig) (seen : List String) (allow : Bool)
    → validate_origin sys o seen allow ≡ []
    → (validate_id o.id seen ≡ [])
      × ((if str_eq o.base_url ""
            then "base_url" ∷ []
            else validate_url sys allow (sys.parse_url o.base_url))
          ≡ [])
unfolding validate_origin
origin-nil sys o seen allow h =
    let (breaker, r1) = append-nil_inv (validate_breaker o.circuit_breaker) _ h in
    let (named, r2) = append-nil_inv (validate_id o.id seen) _ r1 in
    let (url, r3) =
      append-nil_inv
        (if str_eq o.base_url ""
          then "base_url" ∷ []
          else validate_url sys allow (sys.parse_url o.base_url))
        _ r2 in
    (named, url)

elem-see :
    (id : String) (seen : List String) (k : String)
    → str_eq id "" ≡ false
    → elem id seen ≡ false
    → elem k (see id seen) ≡ (if str_eq id k then true else elem k seen)
unfolding see elem
elem-see id seen k named fresh = rw (named, fresh) refl

-- The IDs are not empty, not among those seen, and distinct.
pub ids_lem :
    (sys : System) (os : List OriginConfig) (seen : List String) (allow : Bool) (k : String)
    → validate_origins sys os seen allow ≡ []
    → (elem k seen ≡ true → count_id k (ids_of os) ≡ 0)
      × (count_id k (ids_of os) ≤ 1)
      × (count_id "" (ids_of os) ≡ 0)
unfolding validate_origins validate_origin count_id
ids_lem sys [] seen allow k h = (λ e. refl, omega arith, refl)
ids_lem sys (o ∷ os) seen allow k h =
    let (this, others) =
      append-nil_inv (validate_origin sys o seen allow)
        (validate_origins sys os (see o.id seen) allow) h in
    let (named, fresh, valid) = validate_id-nil o.id seen (origin-nil sys o seen allow this).0 in
    let (no_more, once, unnamed) = ids_lem sys os (see o.id seen) allow k others in
    let seen_now = elem-see o.id seen k named fresh in
    elim (Bool-cases (str_eq o.id k)) [
      | inl same ↦
          let e : o.id ≡ k = (str_eq_iff o.id k).0 same in
          let gone = no_more (rw (seen_now, same) refl) in
          (
            λ old.
                absurd (
                  let clash : true ≡ false = sym old ∙ ap (λ x. elem x seen) (sym e) ∙ fresh in cc),
            rw same (omega (arith, gone)),
            rw named unnamed,
          )
      | inr other ↦
          (λ old. rw other (no_more (rw (seen_now, other) old)), rw other once, rw named unnamed)
    ]

-- The base URL parses and has a web scheme; and unless private origins are allowed, its host name is
-- empty or passes the check of private hosts.
abbrev pub HasWebUrl : System → Bool → OriginConfig → Type 0
HasWebUrl sys allow o =
    (u : Url) × (sys.parse_url o.base_url ≡ some u)
    × (is_web (sys.to_lower u.scheme) ≡ true)
    × ((allow ≡ true) ⊎ ((u.hostname ≡ "") ⊎ (is_private_host sys u.hostname ≡ false)))

host_lem :
    (allow : Bool) (hostname : String) (private : Bool)
    → (if str_eq hostname "" then [] else reject (not allow && private) "url host") ≡ []
    → (allow ≡ true) ⊎ ((hostname ≡ "") ⊎ (private ≡ false))
host_lem true hostname private h = inl refl
host_lem false hostname false h = inr (inr refl)
host_lem false hostname true h = elim (Bool-cases (str_eq hostname "")) [
  | inl bare ↦ inr (inl ((str_eq_iff hostname "").0 bare))
  | inr given ↦ absurd (let e = rw given at h in ground arith)
]

if-nil : (b : Bool) (name : String) (xs : Errors) → (if b then name ∷ [] else xs) ≡ [] → xs ≡ []
if-nil true name xs h = absurd (ground arith)
if-nil false name xs h = h

url_lem :
    (sys : System) (allow : Bool) (u : Url)
    → validate_origin_url sys allow u ≡ []
    → (is_web (sys.to_lower u.scheme) ≡ true)
      × ((allow ≡ true) ⊎ ((u.hostname ≡ "") ⊎ (is_private_host sys u.hostname ≡ false)))
unfolding validate_origin_url
url_lem sys allow u h = elim (Bool-cases (is_web (sys.to_lower u.scheme))) [
  | inl web ↦
      (web, host_lem allow u.hostname (is_private_host sys u.hostname) (let e = rw web at h in e))
  | inr other ↦ absurd (let e = rw other at h in ground arith)
]

pub origin-HasWebUrl :
    (sys : System) (o : OriginConfig) (allow : Bool) (parsed : Option Url)
    → sys.parse_url o.base_url ≡ parsed
    → (if str_eq o.base_url "" then "base_url" ∷ [] else validate_url sys allow parsed) ≡ []
    → HasWebUrl sys allow o
unfolding validate_url
origin-HasWebUrl sys o allow none e h = absurd (ground arith)
origin-HasWebUrl sys o allow (some u) e h =
    let (web, host) = url_lem sys allow u (if-nil (str_eq o.base_url "") _ _ h) in (u, e, web, host)

pub origins-HasWebUrl :
    (sys : System) (os : List OriginConfig) (seen : List String) (allow : Bool)
    → validate_origins sys os seen allow ≡ []
    → All (HasWebUrl sys allow) os
unfolding validate_origins
origins-HasWebUrl sys [] seen allow h = tt
origins-HasWebUrl sys (o ∷ os) seen allow h =
    let (this, others) =
      append-nil_inv (validate_origin sys o seen allow)
        (validate_origins sys os (see o.id seen) allow) h in
    (
      origin-HasWebUrl sys o allow (sys.parse_url o.base_url) refl
          (origin-nil sys o seen allow this).1,
      origins-HasWebUrl sys os (see o.id seen) allow others,
    )
