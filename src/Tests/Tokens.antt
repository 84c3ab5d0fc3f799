-- ===== src/Tests/Tokens.antt =====
-- Runs of internal/federation/cursor.go.
use stac_proxy.Common.{
  ℕ, ◌+◌, ◌-◌, ◌≡◌, refl, String, Bool, true, false, ◌&&◌, not, Option, none, some, List, [], ◌∷◌,
  ◌++◌, arith, is_empty, leb, ◌==◌, str_eq, str_eq_iff, if◌then◌else◌, Bool-cases, inl, inr, lookup,
  ap,
}
use stac_proxy.Stac.Item.{Item}
use stac_proxy.Federation.Cursor.{
  Bytes, OriginCursor, FederatedCursor, new_federated_cursor, is_expired,
}
use stac_proxy.Federation.Cursor.Codec.{
  Codec, IsCodec, ok, HasNoDot, url_allowed, urls_allowed, encode, decode_cursor,
}
use stac_proxy.Federation.Cursor.Tokens.{Authentic, decode_cursor-Authentic, decode_cursor-encode}

-- An origin of which the next page is under its base URL.
module _ (id next_token next_url : String) (next_body : Bytes) (offset : ℕ) (adapter_name : String)
    (exhausted error : Bool) (error_count item_count : ℕ) (last : Option String)
    (stash : List Item) where
  abbrev origin_of : OriginCursor
  origin_of = record {
    id = id;
    next_token = next_token;
    next_url = next_url;
    next_body = next_body;
    offset = offset;
    adapter_name = adapter_name;
    exhausted = exhausted;
    error = error;
    error_count = error_count;
    item_count = item_count;
    last_sort_value = last;
    stash = stash;
  }

abbrev ahead : OriginCursor
ahead = origin_of "a" "" "https://a.example/v1?page=2" [] 0 "next_url" false false 0 2 none []

is_none : Option String → Bool
is_none none = true
is_none (some s) = false

no_items : List Item → Bool
no_items [] = true
no_items (x ∷ xs) = false

unfoldable is_ahead : OriginCursor → Bool
unfolding is_none no_items
is_ahead o =
    str_eq o.id "a"
    && (str_eq o.next_token ""
        && (str_eq o.next_url "https://a.example/v1?page=2"
            && (is_empty o.next_body
                && (o.offset == 0
                    && (str_eq o.adapter_name "next_url"
                        && (not o.exhausted
                            && (not o.error
                                && (o.error_count == 0
                                    && (o.item_count == 2
                                        && (is_none o.last_sort_value && no_items o.stash))))))))))

ahead-of :
    (id tok url : String) (body : Bytes) (off : ℕ) (ad : String) (ex er : Bool) (ec ic : ℕ)
    (last : Option String) (stash : List Item)
    → is_ahead (origin_of id tok url body off ad ex er ec ic last stash) ≡ true
    → ahead ≡ origin_of id tok url body off ad ex er ec ic last stash
unfolding is_ahead
ahead-of id tok url [] off ad false false ec ic none [] h = ground (
  arith,
  str_eq_iff id "a",
  str_eq_iff tok "",
  str_eq_iff url "https://a.example/v1?page=2",
  str_eq_iff ad "next_url",
)
ahead-of id tok url (b ∷ bs) off ad ex er ec ic last stash h = absurd (ground arith)
ahead-of id tok url [] off ad true er ec ic last stash h = absurd (ground arith)
ahead-of id tok url [] off ad false true ec ic last stash h = absurd (ground arith)
ahead-of id tok url [] off ad false false ec ic (some l) stash h = absurd (ground arith)
ahead-of id tok url [] off ad false false ec ic none (x ∷ xs) h = absurd (ground arith)

are_ahead : List (String × OriginCursor) → Bool
are_ahead ((k, o) ∷ []) = str_eq k "a" && is_ahead o
are_ahead _ = false

are_ahead_lem : (os : List (String × OriginCursor)) → are_ahead os ≡ true → ("a", ahead) ∷ [] ≡ os
unfolding are_ahead
are_ahead_lem [] h = absurd (ground arith)
are_ahead_lem ((k, o) ∷ []) h =
    let key = (str_eq_iff k "a").0 (ground arith) in
    let same =
      ahead-of o.id o.next_token o.next_url o.next_body o.offset o.adapter_name o.exhausted o.error
        o.error_count o.item_count o.last_sort_value o.stash (ground arith) in
    rw (key, ← same) refl
are_ahead_lem (e ∷ f ∷ os) h = absurd (ground arith)

-- A codec for the cursors of one shape: one origin with its next URL, for one principal. It writes
-- the expiry, and its alphabet starts above the dot.
abbrev fresh : ℕ → FederatedCursor
fresh ttl = record (new_federated_cursor 100 "q" "p" [] ttl) { origins = ("a", ahead) ∷ [] }

abbrev allowed : List (String × String)
allowed = ("a", "https://a.example/v1") ∷ []

module _ (version : ℕ) (query_hash principal_hash : String) (origins : List (String × OriginCursor))
    (total_returned created_at expires_at : ℕ) (last : List String) (prev first : Bytes)
    (seq : ℕ) where
  abbrev cursor_of : FederatedCursor
  cursor_of = record {
    version = version;
    query_hash = query_hash;
    principal_hash = principal_hash;
    origins = origins;
    total_returned = total_returned;
    created_at = created_at;
    expires_at = expires_at;
    last_sort_values = last;
    prev_cursor = prev;
    first_cursor = first;
    page_seq = seq;
  }

unfoldable is_fresh : FederatedCursor → Bool
is_fresh c =
    c.version == 2
    && (str_eq c.query_hash "q"
        && (str_eq c.principal_hash "p"
            && (are_ahead c.origins
                && (c.total_returned == 0
                    && (c.created_at == 100
                        && (leb 100 c.expires_at
                            && (is_empty c.last_sort_values
                                && (is_empty c.prev_cursor
                                    && (is_empty c.first_cursor && c.page_seq == 0)))))))))

fresh-of :
    (v : ℕ) (q p : String) (os : List (String × OriginCursor)) (t a e : ℕ) (l : List String)
    (prev first : Bytes) (s : ℕ)
    → is_fresh (cursor_of v q p os t a e l prev first s) ≡ true
    → fresh (e - 100) ≡ cursor_of v q p os t a e l prev first s
unfolding is_fresh new_federated_cursor
fresh-of v q p os t a e [] [] [] s h =
    let same = are_ahead_lem os (ground arith) in
    rw (← same) (ground (arith, str_eq_iff q "q", str_eq_iff p "p"))
fresh-of v q p os t a e (x ∷ l) prev first s h = absurd (ground arith)
fresh-of v q p os t a e [] (x ∷ prev) first s h = absurd (ground arith)
fresh-of v q p os t a e [] [] (x ∷ first) s h = absurd (ground arith)

-- The codec's letters stand above the dot, so that no letter is one.
abbrev letters_base : ℕ
letters_base = 47

unfoldable shift : Bytes → Bytes
shift [] = []
shift (x ∷ xs) = (x + letters_base) ∷ shift xs

unfoldable unshift : Bytes → Bytes
unshift [] = []
unshift (x ∷ xs) = (x - letters_base) ∷ unshift xs

unshift-shift : (xs : Bytes) → unshift (shift xs) ≡ xs
unfolding shift unshift
unshift-shift [] = refl
unshift-shift (x ∷ xs) = ground (arith, unshift-shift xs)

shift-HasNoDot : (xs : Bytes) → HasNoDot (shift xs)
unfolding shift
shift-HasNoDot [] = tt
shift-HasNoDot (x ∷ xs) = (λ e. absurd (omega (arith, e)), shift-HasNoDot xs)

shift_full : (xs : Bytes) → is_empty xs ≡ false → is_empty (shift xs) ≡ false
unfolding shift
shift_full [] h = h
shift_full (x ∷ xs) h = refl

read_fresh : Bytes → Option FederatedCursor
read_fresh [] = none
read_fresh (e ∷ rest) = some (fresh (e - 100))

abbrev codec : Codec
codec = record {
  marshal = λ c. if is_fresh c then some (c.expires_at ∷ []) else none;
  unmarshal = read_fresh;
  to_base64 = shift;
  of_base64 = λ x. some (unshift x);
  hmac = λ secret x. 7 ∷ secret ++ x;
}

read_fresh-marshal :
    (c : FederatedCursor) (payload : Bytes)
    → codec.marshal c ≡ some payload
    → read_fresh payload ≡ some c
unfolding read_fresh
read_fresh-marshal c payload h = elim (Bool-cases (is_fresh c)) [
  | inl plain ↦
      let same =
        fresh-of c.version c.query_hash c.principal_hash c.origins c.total_returned c.created_at
          c.expires_at c.last_sort_values c.prev_cursor c.first_cursor c.page_seq plain in
      let shape : payload ≡ c.expires_at ∷ [] = ground arith in rw shape (ap some same)
  | inr other ↦ absurd (ground arith)
]

codec-IsCodec : IsCodec codec
codec-IsCodec = record {
  unmarshal-marshal = read_fresh-marshal;
  of_base64-to_base64 = λ x. ap some (unshift-shift x);
  to_base64-HasNoDot = shift-HasNoDot;
  to_base64_full = shift_full;
  hmac_full = λ secret x. refl;
  marshal_full = λ c payload h. elim (Bool-cases (is_fresh c)) [
    | inl plain ↦ ground arith
    | inr other ↦ absurd (ground arith)
  ];
}

abbrev secret : Bytes
secret = 1 ∷ 2 ∷ []

abbrev token : Bytes
token = shift (150 ∷ []) ++ 46 ∷ shift (7 ∷ 1 ∷ 2 ∷ 150 ∷ [])

token-made : encode codec secret (fresh 50) ≡ ok token
unfolding encode is_fresh new_federated_cursor are_ahead is_ahead
token-made = refl

-- The last second of a token: it still decodes, although IsExpired says that it is over.
decode_cursor-encode_example : decode_cursor codec secret 150 allowed "p" token ≡ ok (fresh 50)
unfolding new_federated_cursor urls_allowed url_allowed lookup
decode_cursor-encode_example =
    decode_cursor-encode codec secret 150 allowed (fresh 50) token codec-IsCodec token-made
      (omega arith) refl

is_expired_last_second : is_expired 150 (fresh 50) ≡ true
unfolding is_expired new_federated_cursor
is_expired_last_second = refl

decode_cursor-Authentic_example : Authentic codec secret 150 allowed "p" token (fresh 50)
decode_cursor-Authentic_example =
    decode_cursor-Authentic codec secret 150 allowed "p" token (fresh 50)
      decode_cursor-encode_example
