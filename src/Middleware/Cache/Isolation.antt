-- ===== src/Middleware/Cache/Isolation.antt =====
-- internal/middleware/cache: what a request can be answered with.
use stac_proxy.Common.{
  ℕ, ◌+◌, ◌≤◌, ◌≡◌, refl, ◌∙◌, sym, ap, ◌⊎◌, inl, inr, String, false, Option, none, some, List, [],
  ◌∷◌, ltb, ◌==◌, arith, Bool-cases, Option-cases,
}
use stac_proxy.Middleware.Authz.{has_constraints}
use stac_proxy.Httpx.Headers.{get_header}
use stac_proxy.Middleware.Cache.{
  Bytes, CacheableRequest, CacheEntry, Stored, Lru, Library, Config, Incoming, Response, lifetime,
  with_status_header, entry_of, cached_response, listed,
}
use stac_proxy.Middleware.Cache.Serve.{
  memory_get, memory_set, still_alive, request_of, cache_key, store_response, through_cache, serve,
  stored_as, decoded, answer,
}

-- What is documented of lru.Cache: it holds nothing but what was added and not taken out since.
pub record IsLru {C : Type 0} (lru : Lru C) : Type 1 where
  pub Held : C → String → Stored → Type 0
  pub new-Held : (k : String) (e : Stored) → Held lru.new k e → ⊥
  pub get-found : (k : String) (c : C) (e : Stored) → (lru.get k c).0 ≡ some e → Held c k e
  pub get-Held :
      (k : String) (c : C) (q : String) (e : Stored) → Held (lru.get k c).1 q e → Held c q e
  pub add-Held :
      (k : String) (d : Stored) (c : C) (q : String) (e : Stored)
      → Held (lru.add k d c) q e
      → ((q ≡ k) × (e ≡ d)) ⊎ Held c q e
  pub remove-Held :
      (k : String) (c : C) (q : String) (e : Stored) → Held (lru.remove k c) q e → Held c q e

pub record Call : Type 0 where
  pub now : ℕ
  pub request : Incoming
  pub response : Response

-- A call of the list satisfies the predicate.
abbrev pub Any : (Call → Type 0) → List Call → Type 0
Any P [] = ⊥
Any P (x ∷ xs) = P x ⊎ Any P xs

Any-map : (P Q : Call → Type 0) (xs : List Call) → ((x : Call) → P x → Q x) → Any P xs → Any Q xs
Any-map P Q [] f none_left = elim none_left [ ]
Any-map P Q (x ∷ xs) f (inl p) = inl (f x p)
Any-map P Q (x ∷ xs) f (inr ps) = inr (Any-map P Q xs f ps)

module _ {C : Type 0} (lib : Library C) (laws : IsLru lib.lru) (cfg : Config) where
  -- The entry under the key was made from the response to the call.
  abbrev IsSource : String → Stored → Call → Type 0
  IsSource k e x =
      (cache_key lib (request_of lib x.request) ≡ k)
      × (has_constraints x.request.decision ≡ false)
      × (lib.marshal (entry_of x.response) ≡ some e.value)
      × (e.expires_at ≡ x.now + lifetime cfg (request_of lib x.request) x.response.status)

  -- Every entry that is held has its source among the calls.
  abbrev Sourced : List Call → C → Type 0
  Sourced calls c = (k : String) (e : Stored) → laws.Held c k e → Any (IsSource k e) calls

  still_alive-Held :
      (now : ℕ) (key : String) (r : Option Stored × C) (q : String) (e : Stored)
      → laws.Held (still_alive lib now key r).1 q e
      → laws.Held r.1 q e
  unfolding still_alive
  still_alive-Held now key (none, c) q e held = held
  still_alive-Held now key (some d, c) q e held = elim (Bool-cases (ltb d.expires_at now)) [
    | inl late ↦ laws.remove-Held key c q e (rw late at held)
    | inr live ↦ rw live at held
  ]

  still_alive_hit :
      (now : ℕ) (key : String) (r : Option Stored × C) (v : Bytes)
      → (still_alive lib now key r).0 ≡ some v
      → (d : Stored) × (r.0 ≡ some d) × (d.value ≡ v) × (now ≤ d.expires_at)
  unfolding still_alive
  still_alive_hit now key (none, c) v h = absurd (ground arith)
  still_alive_hit now key (some d, c) v h = (d, refl, ground arith, ground arith)

  -- A stored response, or one that was held before.
  stored-Held :
      (now : ℕ) (r : Incoming) (resp : Response) (c : C) (q : String) (e : Stored)
      → has_constraints r.decision ≡ false
      → laws.Held (store_response lib cfg now (request_of lib r) resp c) q e
      → IsSource q e (record { now = now; request = r; response = resp }) ⊎ laws.Held c q e
  unfolding store_response stored_as memory_set
  stored-Held now r resp c q e free held =
      elim (Bool-cases (listed resp.status cfg.cacheable_statuses)) [
        | inr unlisted ↦ inr (rw unlisted at held)
        | inl ok_status ↦
            elim (Bool-cases (lib.says_no_store (get_header "Cache-Control" resp.headers))) [
              | inl declined ↦ inr (rw (ok_status, declined) at held)
              | inr open_ ↦ elim (Bool-cases (lifetime cfg (request_of lib r) resp.status == 0)) [
                | inl short ↦ inr (rw (ok_status, open_, short) at held)
                | inr long ↦ elim (Option-cases (lib.marshal (entry_of resp))) [
                  | inl bad ↦ inr (rw (ok_status, open_, long, bad) at held)
                  | inr (v, packed) ↦
                      elim (laws.add-Held _ _ c q e (rw (ok_status, open_, long, packed) at held)) [
                        | inl (same, entry) ↦ inl (
                          sym same,
                          free,
                          packed ∙ ap (λ d. some d.value) (sym entry),
                          ap (λ d. d.expires_at) entry,
                        )
                        | inr old ↦ inr old
                      ]
                ]
              ]
            ]
      ]

  -- What package json is documented to do: an entry survives it.
  abbrev pub Survives : Type 0
  Survives = (e : CacheEntry) (v : Bytes) → lib.marshal e ≡ some v → lib.unmarshal v ≡ some e

  -- The answer is the stored form of the response to a call of the same key, made for a request
  -- without constraints, and that response's lifetime is not over.
  abbrev pub IsReplayOf : ℕ → CacheableRequest → Response → Call → Type 0
  IsReplayOf now req out x =
      (cache_key lib (request_of lib x.request) ≡ cache_key lib req)
      × (has_constraints x.request.decision ≡ false)
      × (out ≡ cached_response (entry_of x.response))
      × (now ≤ x.now + lifetime cfg (request_of lib x.request) x.response.status)

  decoded-some :
      (o : Option Bytes) (e : CacheEntry)
      → decoded lib o ≡ some e
      → (v : Bytes) × (o ≡ some v) × (lib.unmarshal v ≡ some e)
  unfolding decoded
  decoded-some none e h = absurd (ground arith)
  decoded-some (some v) e h = (v, refl, h)

  some-injective : (e d : CacheEntry) → some e ≡ some d → e ≡ d
  some-injective e d h = cc

  memory_get_replays :
      (calls : List Call) (now : ℕ) (req : CacheableRequest) (c : C) (e : CacheEntry)
      → Survives
      → Sourced calls c
      → decoded lib (memory_get lib now (cache_key lib req) c).0 ≡ some e
      → Any (IsReplayOf now req (cached_response e)) calls
  unfolding memory_get
  memory_get_replays calls now req c e json sourced h =
      let key = cache_key lib req in
      let (v, hit, parsed) = decoded-some _ e h in
      let (d, found, same, alive) = still_alive_hit now key (lib.lru.get key c) v hit in
      Any-map (IsSource key d) _ calls
        (λ x s.
          let back : lib.unmarshal v ≡ some (entry_of x.response) =
            json (entry_of x.response) v (s.2 ∙ ap some same) in
          let entry = some-injective e (entry_of x.response) (sym parsed ∙ back) in
          (s.0, s.1, ap cached_response entry, rw s.3 at alive))
        (sourced key d (laws.get-found key c d found))

  -- What a request is answered with, after the calls.
  abbrev pub IsAnswer : List Call → ℕ → Incoming → Response → Response → Type 0
  IsAnswer calls now r resp out =
      (out ≡ resp)
      ⊎ ((out ≡ with_status_header "MISS" resp)
          ⊎ ((has_constraints r.decision ≡ false)
              × Any (IsReplayOf now (request_of lib r) out) calls))

  through_cache-IsAnswer :
      (calls : List Call) (now : ℕ) (r : Incoming) (resp : Response) (c : C)
      → Survives
      → Sourced calls c
      → has_constraints r.decision ≡ false
      → IsAnswer calls now r resp (through_cache lib cfg now (request_of lib r) resp c).0
  unfolding through_cache answer
  through_cache-IsAnswer calls now r resp c json sourced free =
      let looked = decoded lib (memory_get lib now (cache_key lib (request_of lib r)) c).0 in
      elim (Option-cases looked) [
        | inl miss ↦ rw miss (inr (inl refl))
        | inr (e, hit) ↦
            rw hit (
              inr
                (inr (free, memory_get_replays calls now (request_of lib r) c e json sourced hit)))
      ]

  serve-cases :
      (now : ℕ) (r : Incoming) (resp : Response) (c : C)
      → (serve lib cfg now r resp c ≡ (resp, c))
        ⊎ ((has_constraints r.decision ≡ false)
            × (serve lib cfg now r resp c ≡ through_cache lib cfg now (request_of lib r) resp c))
  unfolding serve
  serve-cases now r resp c = ground arith

  serve-IsAnswer :
      (calls : List Call) (now : ℕ) (r : Incoming) (resp : Response) (c : C)
      → Survives
      → Sourced calls c
      → IsAnswer calls now r resp (serve lib cfg now r resp c).0
  serve-IsAnswer calls now r resp c json sourced = elim (serve-cases now r resp c) [
    | inl past ↦ inl (ap (λ p. p.0) past)
    | inr (free, through) ↦ rw through (through_cache-IsAnswer calls now r resp c json sourced free)
  ]

  through_cache-Held :
      (now : ℕ) (r : Incoming) (resp : Response) (c : C) (q : String) (e : Stored)
      → has_constraints r.decision ≡ false
      → laws.Held (through_cache lib cfg now (request_of lib r) resp c).1 q e
      → IsSource q e (record { now = now; request = r; response = resp }) ⊎ laws.Held c q e
  unfolding through_cache answer memory_get
  through_cache-Held now r resp c q e free held =
      let key = cache_key lib (request_of lib r) in
      let found = still_alive lib now key (lib.lru.get key c) in
      let back : laws.Held found.1 q e → laws.Held c q e =
        λ h. laws.get-Held key c q e (still_alive-Held now key (lib.lru.get key c) q e h) in
      elim (Option-cases (decoded lib found.0)) [
        | inr (d, hit) ↦ inr (back (rw hit at held))
        | inl miss ↦ elim (stored-Held now r resp found.1 q e free (rw miss at held)) [
          | inl here ↦ inl here
          | inr old ↦ inr (back old)
        ]
      ]

  -- The cache after the calls, the latest first.
  unfoldable pub after : List Call → C
  after [] = lib.lru.new
  after (x ∷ older) = (serve lib cfg x.now x.request x.response (after older)).1

  after-Sourced : (calls : List Call) → Sourced calls (after calls)
  unfolding after
  after-Sourced [] k e held = laws.new-Held k e held
  after-Sourced (x ∷ older) k e held = elim (serve-cases x.now x.request x.response (after older)) [
    | inl past ↦ inr (after-Sourced older k e (rw (after, past) at held))
    | inr (free, through) ↦
        elim (through_cache-Held x.now x.request x.response (after older) k e free
          (rw (after, through) at held)) [
            | inl here ↦ inl here
            | inr old ↦ inr (after-Sourced older k e old)
          ]
  ]

  -- Whatever calls came before: a request is answered with the inner handler's response, with that
  -- response marked as a miss, or, when it has no constraints itself, with the stored form of the
  -- response to an earlier call of the same cache key that had no constraints either and whose
  -- lifetime is not over.
  pub after-IsAnswer :
      (calls : List Call) (now : ℕ) (r : Incoming) (resp : Response)
      → Survives
      → IsAnswer calls now r resp (serve lib cfg now r resp (after calls)).0
  after-IsAnswer calls now r resp json =
      serve-IsAnswer calls now r resp (after calls) json (after-Sourced calls)
