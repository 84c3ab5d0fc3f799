-- ===== src/Middleware/Cache/Partial.antt =====
-- internal/middleware/cache/middleware.go and internal/federation/status.go: the response cache and
-- the pages that some origins are missing from.
use stac_proxy.Common.{
  ℕ, ◌≡◌, refl, ap, ◌∙◌, ◌⊎◌, inl, inr, String, Bool, true, false, not, Option, none, some, List,
  ◌∷◌, if◌then◌else◌, Bool-cases,
}
use stac_proxy.Httpx.Headers.{get_header, get_header-set_header, set_header}
use stac_proxy.Federation.Status.{mark_partial, stamp_partial_headers, join_comma}
use stac_proxy.Middleware.Authz.{has_constraints}
use stac_proxy.Middleware.Cache.{
  CacheableRequest, CacheEntry, Library, Config, Incoming, Response, listed, should_cache,
}
use stac_proxy.Middleware.Cache.Serve.{
  memory_get, cache_key, request_of, store_response, decoded, answer, through_cache, serve,
}

get_header-mark_partial :
    (s : String) (ss : List String) (h : List (String × String))
    → get_header "Cache-Control" (mark_partial (s ∷ ss) h) ≡ "no-store"
unfolding mark_partial stamp_partial_headers
get_header-mark_partial s ss h = get_header-set_header "Cache-Control" "no-store" (
    set_header "X-Federation-Failed-Origins" (join_comma (s ∷ ss))
      (set_header "X-Federation-Partial" "true" h))

three_guards {ℓ} :
    {C : Type ℓ} (x y z : Bool) (resp : Response) (late : Response × C) (c m : C)
    → late.1 ≡ m
    → let out =
        if x then (resp, c) else (if y then (resp, c) else (if z then (resp, c) else late)) in
      (out.1 ≡ c) ⊎ (out.1 ≡ m)
three_guards true y z resp late c m h = inl refl
three_guards false true z resp late c m h = inl refl
three_guards false false true resp late c m h = inl refl
three_guards false false false resp late c m h = inr h

module _ {C : Type 0} (lib : Library C) (cfg : Config) (now : ℕ) where
  store_response_declined :
      (req : CacheableRequest) (resp : Response) (c : C)
      → lib.says_no_store (get_header "Cache-Control" resp.headers) ≡ true
      → store_response lib cfg now req resp c ≡ c
  unfolding store_response
  store_response_declined req resp c declined =
      elim (Bool-cases (listed resp.status cfg.cacheable_statuses)) [
        | inl good ↦ rw (good, declined) refl
        | inr other ↦ rw other refl
      ]

  answer_declined :
      (req : CacheableRequest) (resp : Response) (e : Option CacheEntry) (c : C)
      → lib.says_no_store (get_header "Cache-Control" resp.headers) ≡ true
      → (answer lib cfg now req resp e c).1 ≡ c
  unfolding answer
  answer_declined req resp (some e) c declined = refl
  answer_declined req resp none c declined = store_response_declined req resp c declined

  serve_declined :
      (r : Incoming) (resp : Response) (c : C)
      → lib.says_no_store (get_header "Cache-Control" resp.headers) ≡ true
      → ((serve lib cfg now r resp c).1 ≡ c)
        ⊎ ((serve lib cfg now r resp c).1
            ≡ (memory_get lib now (cache_key lib (request_of lib r)) c).1)
  unfolding serve through_cache
  serve_declined r resp c declined =
      three_guards (not r.has_info) (has_constraints r.decision)
        (not (should_cache (request_of lib r))) resp _ c
        (memory_get lib now (cache_key lib (request_of lib r)) c).1
        (answer_declined (request_of lib r) resp
          (decoded lib (memory_get lib now (cache_key lib (request_of lib r)) c).0)
          (memory_get lib now (cache_key lib (request_of lib r)) c).1 declined)

  -- Where a text that says no-store is known as such: a response that is marked as missing some
  -- origins leaves nothing in the response cache, which is afterwards as it was, or as the lookup of
  -- the request's key left it.
  pub serve-mark_partial :
      (r : Incoming) (resp : Response) (s : String) (ss : List String) (c : C)
      → lib.says_no_store "no-store" ≡ true
      → let marked = record resp { headers = mark_partial (s ∷ ss) resp.headers } in
        ((serve lib cfg now r marked c).1 ≡ c)
        ⊎ ((serve lib cfg now r marked c).1
            ≡ (memory_get lib now (cache_key lib (request_of lib r)) c).1)
  serve-mark_partial r resp s ss c known =
      serve_declined r (record resp { headers = mark_partial (s ∷ ss) resp.headers }) c
        (ap lib.says_no_store (get_header-mark_partial s ss resp.headers) ∙ known)
