-- ===== src/Federation/Cursor/Codec.antt =====
-- internal/federation/cursor.go (Encode, DecodeCursor): signed tokens. JSON, base64url and
-- HMAC-SHA256 are packages of the standard library and enter as the operations of a `Codec`.
use text.Mathlib.Text.{starts_with}
use stac_proxy.Common.{
  ℕ, ◌≡◌, ◌≢◌, refl, ◌⊎◌, inl, inr, String, Bool, true, false, ◌&&◌, not, Option, none, some, List,
  [], ◌∷◌, ◌++◌, arith, leb, ◌==◌, str_eq, if◌then◌else◌, lookup, is_empty, All,
}
use stac_proxy.Federation.Cursor.{Bytes, OriginCursor, FederatedCursor}

pub record Codec : Type 0 where
  pub marshal : FederatedCursor → Option Bytes
  pub unmarshal : Bytes → Option FederatedCursor
  pub to_base64 : Bytes → Bytes
  pub of_base64 : Bytes → Option Bytes
  pub hmac : Bytes → Bytes → Bytes

abbrev pub dot : ℕ
dot = 46

abbrev pub HasNoDot : Bytes → Type 0
HasNoDot = All (λ c. c ≢ dot)

-- What is documented of the three packages: a cursor survives JSON, base64url is decoded to what
-- was encoded, its alphabet has no ".", and neither it, a signature nor a JSON text is empty.
pub record IsCodec (k : Codec) : Type 0 where
  pub unmarshal-marshal :
      (c : FederatedCursor) (payload : Bytes)
      → k.marshal c ≡ some payload
      → k.unmarshal payload ≡ some c
  pub of_base64-to_base64 : (x : Bytes) → k.of_base64 (k.to_base64 x) ≡ some x
  pub to_base64-HasNoDot : (x : Bytes) → HasNoDot (k.to_base64 x)
  pub to_base64_full : (x : Bytes) → is_empty x ≡ false → is_empty (k.to_base64 x) ≡ false
  pub hmac_full : (secret x : Bytes) → is_empty (k.hmac secret x) ≡ false
  pub marshal_full :
      (c : FederatedCursor) (payload : Bytes)
      → k.marshal c ≡ some payload
      → is_empty payload ≡ false

pub data CursorError : Type 0 where
  invalid tampered expired principal_mismatch origin_url_not_allowed secret_missing : CursorError
  marshal_failed : CursorError

pub data Result {ℓ} (A : Type ℓ) : Type ℓ where
  ok : A → Result A
  err : CursorError → Result A

-- Chains of steps that stop at the first error.
infixl 5 ◌>>=◌ ◌>>◌
abbrev pub ◌>>=◌ {ℓ κ} :
    {Before : Type ℓ} {After : Type κ} → Result Before → (Before → Result After) → Result After
err reason >>= next = err reason
ok value >>= next = next value

abbrev pub ◌>>◌ {ℓ} : {After : Type ℓ} → Result (Unit {0}) → Result After → Result After
err reason >> next = err reason
ok done >> next = next

abbrev pub require : Bool → CursorError → Result (Unit {0})
require holds e = if holds then ok tt else err e

abbrev pub or_fail {ℓ} : {A : Type ℓ} → Option A → CursorError → Result A
or_fail (some a) e = ok a
or_fail none e = err e

-- `strings.Split(encoded, ".")`
add_to_first : ℕ → List Bytes → List Bytes
add_to_first c [] = (c ∷ []) ∷ []
add_to_first c (p ∷ ps) = (c ∷ p) ∷ ps

unfoldable pub split_dots : Bytes → List Bytes
unfolding add_to_first
split_dots [] = [] ∷ []
split_dots (c ∷ cs) = if c == dot then [] ∷ split_dots cs else add_to_first c (split_dots cs)

-- Exactly two parts, neither of them empty.
unfoldable pub two_parts : List Bytes → Result (Bytes × Bytes)
two_parts ((a ∷ as') ∷ (b ∷ bs) ∷ []) = ok (a ∷ as', b ∷ bs)
two_parts _ = err invalid

-- A next URL is empty, or it begins with the non-empty base URL allowed for its origin.
rooted : String → Option String → Bool
rooted url none = false
rooted url (some base) = not (str_eq base "") && starts_with url base

unfoldable pub url_allowed : List (String × String) → OriginCursor → Bool
unfolding rooted
url_allowed allowed oc =
    if str_eq oc.next_url "" then true else rooted oc.next_url (lookup oc.id allowed)

unfoldable pub urls_allowed : List (String × String) → List (String × OriginCursor) → Bool
urls_allowed allowed [] = true
urls_allowed allowed ((id, oc) ∷ rest) = url_allowed allowed oc && urls_allowed allowed rest

unfoldable pub bytes_eq : Bytes → Bytes → Bool
bytes_eq [] [] = true
bytes_eq [] (y ∷ ys) = false
bytes_eq (x ∷ xs) [] = false
bytes_eq (x ∷ xs) (y ∷ ys) = x == y && bytes_eq xs ys

module _ (k : Codec) (secret : Bytes) where
  unfoldable pub encode : FederatedCursor → Result Bytes
  encode c = do
    require (not (is_empty secret)) secret_missing
    payload ← or_fail (k.marshal c) marshal_failed
    ok (k.to_base64 payload ++ dot ∷ k.to_base64 (k.hmac secret payload))

  -- Steps 3 to 5 of DecodeCursor: expiry, principal, and the URLs that would be followed.
  unfoldable pub validate :
      ℕ → List (String × String) → String → FederatedCursor → Result FederatedCursor
  validate now allowed principal_hash c = do
    require (leb now c.expires_at) expired
    require (str_eq c.principal_hash principal_hash) principal_mismatch
    require (urls_allowed allowed c.origins) origin_url_not_allowed
    ok c

  -- From the two parts of the token to the cursor.
  unfoldable pub open_payload : Bytes × Bytes → Result FederatedCursor
  open_payload (head, tail) = do
    payload ← or_fail (k.of_base64 head) invalid
    signature ← or_fail (k.of_base64 tail) invalid
    require (bytes_eq (k.hmac secret payload) signature) tampered
    or_fail (k.unmarshal payload) invalid

  unfoldable pub decode_cursor :
      ℕ → List (String × String) → String → Bytes → Result FederatedCursor
  decode_cursor now allowed principal_hash encoded = do
    require (not (is_empty encoded)) invalid
    require (not (is_empty secret)) secret_missing
    parts ← two_parts (split_dots encoded)
    cursor ← open_payload parts
    validate now allowed principal_hash cursor

pub Result-cases {ℓ} :
    {A : Type ℓ} (r : Result A) → ((a : A) × (r ≡ ok a)) ⊎ ((e : CursorError) × (r ≡ err e))
Result-cases (ok a) = inl (a, refl)
Result-cases (err e) = inr (e, refl)

pub bytes_eq_refl : (xs : Bytes) → bytes_eq xs xs ≡ true
unfolding bytes_eq
bytes_eq_refl [] = refl
bytes_eq_refl (x ∷ xs) = ground (arith, bytes_eq_refl xs)

pub eq_of_bytes_eq : (xs ys : Bytes) → bytes_eq xs ys ≡ true → xs ≡ ys
unfolding bytes_eq
eq_of_bytes_eq [] [] h = refl
eq_of_bytes_eq [] (y ∷ ys) h = cc
eq_of_bytes_eq (x ∷ xs) [] h = cc
eq_of_bytes_eq (x ∷ xs) (y ∷ ys) h = ground (arith, eq_of_bytes_eq xs ys)

split_dots-no_dot : (xs : Bytes) → HasNoDot xs → split_dots xs ≡ xs ∷ []
unfolding split_dots
split_dots-no_dot [] h = refl
split_dots-no_dot (x ∷ xs) h = ground (arith, split_dots-no_dot xs h.1)

pub split_dots-two :
    (xs ys : Bytes) → HasNoDot xs → HasNoDot ys → split_dots (xs ++ dot ∷ ys) ≡ xs ∷ ys ∷ []
unfolding split_dots
split_dots-two [] ys h h' = ground (arith, split_dots-no_dot ys h')
split_dots-two (x ∷ xs) ys h h' = ground (arith, split_dots-two xs ys h.1 h')

pub two_parts-full :
    (xs ys : Bytes)
    → is_empty xs ≡ false
    → is_empty ys ≡ false
    → two_parts (xs ∷ ys ∷ []) ≡ ok (xs, ys)
unfolding two_parts
two_parts-full [] ys h h' = cc
two_parts-full (x ∷ xs) [] h h' = cc
two_parts-full (x ∷ xs) (y ∷ ys) h h' = refl
