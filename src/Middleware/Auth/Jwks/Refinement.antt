-- ===== src/Middleware/Auth/Jwks/Refinement.antt =====
-- internal/middleware/auth/jwks.go: the sections under the client's lock, in any order, against the
-- key set that the issuer published last.
use stac_proxy.Common.{
  ℕ, ◌+◌, ◌≡◌, refl, sym, ap, ◌∙◌, String, Bool, true, false, ◌||◌, not, Option, none, some, List,
  [], ◌∷◌, ltb, str_eq, str_eq_iff, str_eq_refl, if◌then◌else◌, arith, inl, inr, Bool-cases, lookup,
  upsert, lookup-upsert_ne,
}
use stac_proxy.Middleware.Auth.Jwks.{
  Bytes, Jwk, PublicKey, CachedKey, ClientConfig, JwksClient, new_jwks_client, Lookup, miss,
  is_past, found_key, lookup_key, mark_negative, kick_background_refresh, finish_background_refresh,
  begin_refresh, is_signing, parse_jwk, entry_for, keep_parsed, keep_key, keys_of, swap_keys,
  end_refresh,
}

-- A section that changes the state: a refresh begins, or ends with a document or an error; a key is
-- noted as unknown; a background refresh is started, or done.
pub data Section : Type 0 where
  begun : ℕ → Section
  ended : ℕ → Option (List Jwk) → Section
  marked : ℕ → String → Section
  kicked finished : Section

-- The last document that a refresh ended with, and when.
unfoldable pub latest : Option (ℕ × List Jwk) → List Section → Option (ℕ × List Jwk)
latest last [] = last
latest last (ended now (some js) ∷ ss) = latest (some (now, js)) ss
latest last (s ∷ ss) = latest last ss

unfoldable pub or_key : Option CachedKey → Option CachedKey → Option CachedKey
or_key (some k) other = some k
or_key none other = other

or_key_assoc : (a b c : Option CachedKey) → or_key a (or_key b c) ≡ or_key (or_key a b) c
unfolding or_key
or_key_assoc (some k) b c = refl
or_key_assoc none b c = refl

or_key-none : (a : Option CachedKey) → or_key a none ≡ a
unfolding or_key
or_key-none (some k) = refl
or_key-none none = refl

unfoldable pub usable_parsed : Jwk → Option PublicKey → Option CachedKey
usable_parsed j none = none
usable_parsed j (some key) = some (entry_for j key)

none_lem : (b : Bool) (o : Option CachedKey) → o ≡ or_key (if b then none else none) o
unfolding or_key
none_lem true o = refl
none_lem false o = refl

lookup-upsert_same :
    (k : String) (v : CachedKey) (m : List (String × CachedKey))
    → lookup k (upsert k v (λ old. v) m) ≡ some v
unfolding lookup upsert
lookup-upsert_same k v [] = rw (str_eq_refl k) refl
lookup-upsert_same k v ((j, w) ∷ m) = ground (arith, lookup-upsert_same k v m)

lookup-keep_parsed :
    (kid : String) (j : Jwk) (p : Option PublicKey) (out : List (String × CachedKey))
    → lookup kid (keep_parsed j p out)
      ≡ or_key (if str_eq j.kid kid then usable_parsed j p else none) (lookup kid out)
unfolding keep_parsed or_key usable_parsed
lookup-keep_parsed kid j none out = elim (Bool-cases (str_eq j.kid kid)) [
  | inl same ↦ rw (same) refl
  | inr apart ↦ rw (apart) refl
]
lookup-keep_parsed kid j (some key) out = elim (Bool-cases (str_eq j.kid kid)) [
  | inl same ↦
      let is_kid = (str_eq_iff j.kid kid).0 same in
      rw (same, sym is_kid) (lookup-upsert_same j.kid (entry_for j key) out)
  | inr apart ↦ rw (apart) (
      lookup-upsert_ne j.kid kid (entry_for j key) (λ old. entry_for j key) out
        (λ e. ground (arith, str_eq_iff j.kid kid)))
]

module _ (decode : String → Option Bytes) where
  unfoldable pub step : Section → JwksClient → JwksClient
  unfolding begin_refresh end_refresh mark_negative kick_background_refresh
      finish_background_refresh
  step (begun now) c = begin_refresh now c
  step (ended now doc) c = end_refresh decode now doc c
  step (marked now kid) c = mark_negative now kid c
  step kicked c = kick_background_refresh c
  step finished c = finish_background_refresh c

  unfoldable pub run : List Section → JwksClient → JwksClient
  unfolding step
  run [] c = c
  run (s ∷ ss) c = run ss (step s c)

  -- A key for signing that parses.
  unfoldable pub usable : Jwk → Option CachedKey
  unfolding usable_parsed
  usable j = if not (is_signing j) then none else usable_parsed j (parse_jwk decode j)

  unfoldable pub own_key : String → Jwk → Option CachedKey
  unfolding usable
  own_key kid j = if str_eq j.kid kid then usable j else none

  -- The last usable key of that ID in a document.
  unfoldable pub published : String → List Jwk → Option CachedKey
  unfolding own_key or_key
  published kid [] = none
  published kid (j ∷ js) = or_key (published kid js) (own_key kid j)

  -- What the key set that was published last, and when, says of a key at a time.
  unfoldable pub answer_of : ℕ → ℕ → ℕ → String → Option (ℕ × List Jwk) → Lookup
  unfolding published found_key
  answer_of ttl hard now kid none = miss
  answer_of ttl hard now kid (some (t, js)) =
      if ltb (t + hard) now then miss else found_key now (some (t + ttl)) (published kid js)

  lookup-keep_key :
      (kid : String) (j : Jwk) (out : List (String × CachedKey))
      → lookup kid (keep_key decode j out) ≡ or_key (own_key kid j) (lookup kid out)
  unfolding keep_key own_key usable or_key
  lookup-keep_key kid j out = elim (Bool-cases (is_signing j)) [
    | inl signs ↦ rw (signs) (lookup-keep_parsed kid j (parse_jwk decode j) out)
    | inr other ↦ rw (other) (none_lem (str_eq j.kid kid) (lookup kid out))
  ]

  lookup-keys_of :
      (kid : String) (js : List Jwk) (out : List (String × CachedKey))
      → lookup kid (keys_of decode js out) ≡ or_key (published kid js) (lookup kid out)
  unfolding keys_of published
  lookup-keys_of kid [] out = refl
  lookup-keys_of kid (j ∷ js) out =
      lookup-keys_of kid js (keep_key decode j out)
      ∙ ap (or_key (published kid js)) (lookup-keep_key kid j out)
      ∙ or_key_assoc (published kid js) (own_key kid j) (lookup kid out)

  module _ (ttl hard : ℕ) where
    IsLast : JwksClient → Option (ℕ × List Jwk) → Type 0
    IsLast c none = (c.keys ≡ []) × (c.hard_expiry ≡ none)
    IsLast c (some (t, js)) =
        (c.keys ≡ keys_of decode js [])
        × (c.soft_expiry ≡ some (t + ttl))
        × (c.hard_expiry ≡ some (t + hard))

    -- The client holds what the last refresh brought, with its two lifetimes.
    Holds : JwksClient → Option (ℕ × List Jwk) → Type 0
    unfolding IsLast
    Holds c last = (c.ttl ≡ ttl) × (c.hard ≡ hard) × IsLast c last

    run-Holds :
        (ss : List Section) (c : JwksClient) (last : Option (ℕ × List Jwk))
        → Holds c last
        → Holds (run ss c) (latest last ss)
    unfolding run latest Holds IsLast
    run-Holds [] c last h = h
    run-Holds (begun now ∷ ss) c none h = run-Holds ss (begin_refresh now c) none h
    run-Holds (begun now ∷ ss) c (some l) h = run-Holds ss (begin_refresh now c) (some l) h
    run-Holds (ended now none ∷ ss) c last h = run-Holds ss c last h
    run-Holds (ended now (some js) ∷ ss) c last h =
        run-Holds ss (swap_keys decode now js c) (some (now, js))
          (h.0, h.1, (refl, ap (λ n. some (now + n)) h.0, ap (λ n. some (now + n)) h.1))
    run-Holds (marked now kid ∷ ss) c none h = run-Holds ss (mark_negative now kid c) none h
    run-Holds (marked now kid ∷ ss) c (some l) h = run-Holds ss (mark_negative now kid c) (some l) h
    run-Holds (kicked ∷ ss) c none h = run-Holds ss (kick_background_refresh c) none h
    run-Holds (kicked ∷ ss) c (some l) h = run-Holds ss (kick_background_refresh c) (some l) h
    run-Holds (finished ∷ ss) c none h = run-Holds ss (finish_background_refresh c) none h
    run-Holds (finished ∷ ss) c (some l) h = run-Holds ss (finish_background_refresh c) (some l) h

    lookup_key-answer_of :
        (c : JwksClient) (last : Option (ℕ × List Jwk)) (now : ℕ) (kid : String)
        → Holds c last
        → lookup_key now kid c ≡ answer_of ttl hard now kid last
    unfolding Holds IsLast lookup_key answer_of lookup
    lookup_key-answer_of c none now kid h =
        rw (lookup_key, is_past, h.2.1, h.2.0, lookup, found_key) refl
    lookup_key-answer_of c (some (t, js)) now kid h =
        rw
          (
            lookup_key,
            is_past,
            h.2.2,
            h.2.1,
            h.2.0,
            lookup-keys_of kid js [],
            or_key-none (published kid js),
          )
          refl

  new_client_lem :
      (is_https : Bool) (cfg : ClientConfig) (c : JwksClient)
      → new_jwks_client is_https cfg ≡ some c
      → (c.keys ≡ []) × (c.hard_expiry ≡ none)
  unfolding new_jwks_client
  new_client_lem is_https cfg c made = elim (Bool-cases (cfg.allow_insecure_http || is_https)) [
    | inl safe ↦ let it = rw (new_jwks_client, safe) at made in (ground arith, ground arith)
    | inr plain ↦ absurd (let it = rw (new_jwks_client, plain) at made in ground arith)
  ]

  -- However the sections of concurrent calls and background refreshes follow one another, a new
  -- client answers a lookup from the key set that was published last alone: nothing before the first
  -- one or past its hard lifetime, and otherwise the last key of that ID there which is for signing
  -- and parses, with its algorithm, as stale past the soft lifetime.
  pub lookup_key-run :
      (is_https : Bool) (cfg : ClientConfig) (c : JwksClient) (ss : List Section) (now : ℕ)
      (kid : String)
      → new_jwks_client is_https cfg ≡ some c
      → lookup_key now kid (run ss c) ≡ answer_of c.ttl c.hard now kid (latest none ss)
  unfolding Holds IsLast new_jwks_client
  lookup_key-run is_https cfg c ss now kid made =
      lookup_key-answer_of c.ttl c.hard (run ss c) (latest none ss) now kid
        (run-Holds c.ttl c.hard ss c none (refl, refl, new_client_lem is_https cfg c made))
