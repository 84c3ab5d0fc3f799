-- ===== src/Federation/Cursor/Tokens.antt =====
-- internal/federation/cursor.go (Encode, DecodeCursor): what a token that decodes is worth.
use text.Mathlib.Text.{starts_with}
use stac_proxy.Common.{
  ℕ, ◌≤◌, ◌≡◌, ◌≢◌, refl, ◌⊎◌, inl, inr, String, true, false, some, List, [], ◌∷◌, ◌++◌, arith,
  str_eq, str_eq_iff, str_eq_refl, lookup, is_empty, All, Bool-cases, Option-cases,
}
use stac_proxy.Federation.Cursor.{Bytes, OriginCursor, FederatedCursor}
use stac_proxy.Federation.Cursor.Codec.{
  Codec, IsCodec, ok, dot, split_dots, two_parts, url_allowed, urls_allowed, encode, validate,
  open_payload, decode_cursor, bytes_eq_refl, eq_of_bytes_eq, split_dots-two, two_parts-full,
  Result-cases,
}

-- The next URL, if there is one, begins, as a text, with a base URL that is configured for the origin
-- and is not empty.
abbrev pub HasAllowedUrl : List (String × String) → OriginCursor → Type 0
HasAllowedUrl allowed oc =
    (oc.next_url ≡ "")
    ⊎ ((base : String) × (lookup oc.id allowed ≡ some base)
        × (base ≢ "")
        × (starts_with oc.next_url base ≡ true))

url_allowed-HasAllowedUrl :
    (allowed : List (String × String)) (oc : OriginCursor)
    → url_allowed allowed oc ≡ true
    → HasAllowedUrl allowed oc
unfolding url_allowed
url_allowed-HasAllowedUrl allowed oc h = elim (Bool-cases (str_eq oc.next_url "")) [
  | inl e ↦ inl ((str_eq_iff oc.next_url "").0 e)
  | inr n ↦ elim (Option-cases (lookup oc.id allowed)) [
    | inl gone ↦ ground arith
    | inr (base, hit) ↦ inr (base, hit, ground (arith, str_eq_iff base ""), ground arith)
  ]
]

urls_allowed-HasAllowedUrl :
    (allowed : List (String × String)) (origins : List (String × OriginCursor))
    → urls_allowed allowed origins ≡ true
    → All (λ e. HasAllowedUrl allowed e.1) origins
unfolding urls_allowed
urls_allowed-HasAllowedUrl allowed [] h = tt
urls_allowed-HasAllowedUrl allowed ((id, oc) ∷ rest) h = (
  url_allowed-HasAllowedUrl allowed oc (ground arith),
  urls_allowed-HasAllowedUrl allowed rest (ground arith),
)

-- What an accepted token carries: a payload under its own signature, for this principal, not yet
-- expired, and of each origin a next URL that is allowed.
pub record Authentic (k : Codec) (secret : Bytes) (now : ℕ) (allowed : List (String × String))
    (principal : String) (token : Bytes) (c : FederatedCursor) : Type 0 where
  pub head : Bytes
  pub tail : Bytes
  pub payload : Bytes
  pub parts : two_parts (split_dots token) ≡ ok (head, tail)
  pub content : k.of_base64 head ≡ some payload
  pub signed : k.of_base64 tail ≡ some (k.hmac secret payload)
  pub parsed : k.unmarshal payload ≡ some c
  pub alive : now ≤ c.expires_at
  pub bound : c.principal_hash ≡ principal
  pub urls : All (λ e. HasAllowedUrl allowed e.1) c.origins

module _ (k : Codec) (secret : Bytes) where
  open_payload-ok :
      (head tail : Bytes) (c : FederatedCursor)
      → open_payload k secret (head, tail) ≡ ok c
      → (payload : Bytes) × (k.of_base64 head ≡ some payload)
        × (k.of_base64 tail ≡ some (k.hmac secret payload))
        × (k.unmarshal payload ≡ some c)
  unfolding open_payload
  open_payload-ok head tail c h = elim (Option-cases (k.of_base64 head)) [
    | inl gone ↦ absurd (ground arith)
    | inr (payload, content) ↦ elim (Option-cases (k.of_base64 tail)) [
      | inl gone ↦ absurd (ground arith)
      | inr (signature, tag) ↦
          let same : k.hmac secret payload ≡ signature =
            eq_of_bytes_eq (k.hmac secret payload) signature (ground arith) in
          (payload, content, rw same tag, ground arith)
    ]
  ]

  validate-ok :
      (now : ℕ) (allowed : List (String × String)) (principal : String) (c d : FederatedCursor)
      → validate k secret now allowed principal c ≡ ok d
      → (c ≡ d)
        × (now ≤ c.expires_at)
        × (c.principal_hash ≡ principal)
        × (urls_allowed allowed c.origins ≡ true)
  unfolding validate
  validate-ok now allowed principal c d h = ground (arith, str_eq_iff c.principal_hash principal)

  -- A token that decodes was signed under the proxy's secret, is bound to the principal of the
  -- request, and has not expired; and each next URL that it carries begins, as a text, with the
  -- base URL that is configured for its origin, which is not empty.
  pub decode_cursor-Authentic :
      (now : ℕ) (allowed : List (String × String)) (principal : String) (token : Bytes)
      (c : FederatedCursor)
      → decode_cursor k secret now allowed principal token ≡ ok c
      → Authentic k secret now allowed principal token c
  unfolding decode_cursor
  decode_cursor-Authentic now allowed principal token c h =
      elim (Result-cases (two_parts (split_dots token))) [
        | inr (e, bad) ↦ absurd (ground arith)
        | inl ((head, tail), parts) ↦ elim (Result-cases (open_payload k secret (head, tail))) [
          | inr (e, bad) ↦ absurd (ground arith)
          | inl (d, opened) ↦
              let (same, alive, bound, urls) =
                validate-ok now allowed principal d c (ground arith) in
              let (payload, content, signed, parsed) = open_payload-ok head tail d opened in
              rw (← same) (record {
                head = head;
                tail = tail;
                payload = payload;
                parts = parts;
                content = content;
                signed = signed;
                parsed = parsed;
                alive = alive;
                bound = bound;
                urls = urls_allowed-HasAllowedUrl allowed d.origins urls;
              })
        ]
      ]

  encode-ok :
      (c : FederatedCursor) (token : Bytes)
      → encode k secret c ≡ ok token
      → (payload : Bytes) × (is_empty secret ≡ false)
        × (k.marshal c ≡ some payload)
        × (token ≡ k.to_base64 payload ++ dot ∷ k.to_base64 (k.hmac secret payload))
  unfolding encode
  encode-ok c token h = elim (Option-cases (k.marshal c)) [
    | inl gone ↦ absurd (ground arith)
    | inr (payload, e) ↦ (payload, ground arith, e, ground arith)
  ]

  open_payload-signed :
      (c : FederatedCursor) (payload : Bytes)
      → IsCodec k
      → k.marshal c ≡ some payload
      → open_payload k secret (k.to_base64 payload, k.to_base64 (k.hmac secret payload)) ≡ ok c
  unfolding open_payload
  open_payload-signed c payload laws e = ground (
    arith,
    laws.of_base64-to_base64 payload,
    laws.of_base64-to_base64 (k.hmac secret payload),
    bytes_eq_refl (k.hmac secret payload),
    laws.unmarshal-marshal c payload e,
  )

  validate_valid :
      (now : ℕ) (allowed : List (String × String)) (c : FederatedCursor)
      → now ≤ c.expires_at
      → urls_allowed allowed c.origins ≡ true
      → validate k secret now allowed c.principal_hash c ≡ ok c
  unfolding validate
  validate_valid now allowed c alive rooted = ground (arith, str_eq_refl c.principal_hash)

  append_dot_full : (xs ys : Bytes) → is_empty (xs ++ dot ∷ ys) ≡ false
  append_dot_full [] ys = refl
  append_dot_full (x ∷ xs) ys = refl

  -- Over a codec that keeps its documented promises, a token that was issued for a cursor of which
  -- every next URL begins, as a text, with the base URL of its origin decodes to that cursor, for
  -- the same principal and while it is valid, its last second included.
  pub decode_cursor-encode :
      (now : ℕ) (allowed : List (String × String)) (c : FederatedCursor) (token : Bytes)
      → IsCodec k
      → encode k secret c ≡ ok token
      → now ≤ c.expires_at
      → urls_allowed allowed c.origins ≡ true
      → decode_cursor k secret now allowed c.principal_hash token ≡ ok c
  unfolding decode_cursor
  decode_cursor-encode now allowed c token laws made alive rooted =
      let (payload, keyed, packed, shape) = encode-ok c token made in
      let head = k.to_base64 payload in
      let tail = k.to_base64 (k.hmac secret payload) in
      let parts =
        split_dots-two head tail (laws.to_base64-HasNoDot payload)
          (laws.to_base64-HasNoDot (k.hmac secret payload)) in
      let both =
        two_parts-full head tail (laws.to_base64_full payload (laws.marshal_full c payload packed))
          (laws.to_base64_full (k.hmac secret payload) (laws.hmac_full secret payload)) in
      rw
        (
          shape,
          append_dot_full head tail,
          keyed,
          parts,
          both,
          open_payload-signed c payload laws packed,
        )
        (validate_valid now allowed c alive rooted)
