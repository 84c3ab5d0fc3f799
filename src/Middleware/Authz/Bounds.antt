-- ===== src/Middleware/Authz/Bounds.antt =====
-- internal/middleware/authz/middleware.go (NewHTTPMiddleware): the search that reaches the inner
-- handler under a decision with constraints.
use stac_proxy.Common.{
  ℕ, String, ◌≡◌, refl, sym, ap, ◌∙◌, Bool, true, false, ◌&&◌, ◌||◌, Option, none, some, List, [],
  ◌∷◌, is_empty, ltb, leb, ◌==◌, arith, inl, inr, Bool-cases, All, elem, str_eq_refl, ◌>>=◌,
  some-bind,
}
use stac_proxy.Stac.Cql2.{Json}
use stac_proxy.Middleware.Authz.{AuthzConstraints, AuthzDecision}
use stac_proxy.Middleware.Authz.Scope.{
  SearchRequest, apply_constraints, permits, asks, apply_constraints-Obeys, allow_collections,
  deny_collections, clamp_limit,
}
use stac_proxy.Middleware.Authz.Filters.{
  Builders, Expr?, Injection, injected, user_error, server_error, encoded, write_filter, with_user,
  encode_for_lang, lang_of, policy_side, inject, inject_cql2_filter, and_non_nil, parse_user_cql2,
}
use stac_proxy.Middleware.Authz.Admitted.{before-admitted}
use stac_proxy.Middleware.Authz.Enforce.{
  StacInfo, HttpConfig, admitted, before, mutate_request, mutate, after_scope, after_injection,
  holds_by_default,
}

-- A search that the constraints allow: each of its collections is permitted, and its limit is under a
-- maximum that is set.
abbrev pub Bounded : AuthzConstraints → SearchRequest → Type 0
Bounded c sr =
    All (λ s. permits c s ≡ true) sr.collections
    × ((c.max_results == 0 || (ltb 0 sr.limit && leb sr.limit c.max_results)) ≡ true)

and_right : (a b : Bool) → (a && b) ≡ true → b ≡ true
and_right true b h = h
and_right false b h = absurd (ground arith)

All-elem :
    (t : String → Bool) (xs : List String)
    → ((s : String) → elem s xs ≡ true → t s ≡ true)
    → All (λ s. t s ≡ true) xs
unfolding elem
All-elem t [] h = tt
All-elem t (x ∷ xs) h =
    (h x (rw (str_eq_refl x) refl), All-elem t xs (λ s there. h s (ground arith)))

unnamed_lem :
    (allowed requested denied left : List String)
    → (is_empty allowed && is_empty requested) ≡ true
    → (allow_collections allowed requested >>= deny_collections denied) ≡ some left
    → left ≡ []
unfolding allow_collections deny_collections
unnamed_lem [] [] [] left none_told h = ground arith
unnamed_lem [] [] (d ∷ ds) left none_told h = ground arith
unnamed_lem [] (r ∷ rs) denied left none_told h = absurd (ground arith)
unnamed_lem (a ∷ as') requested denied left none_told h = absurd (ground arith)

named_lem :
    (c c' : AuthzConstraints) (sr sr' : SearchRequest)
    → (is_empty c.allowed_collections && is_empty sr.collections) ≡ false
    → apply_constraints c sr ≡ some (sr', c')
    → All (λ s. permits c s ≡ true) sr'.collections
named_lem c c' sr sr' told h =
    let (full, each, bound) = rw h at (apply_constraints-Obeys c sr told) in
    All-elem (permits c) sr'.collections
      (λ s there. and_right (asks sr s) (permits c s) (sym (each s) ∙ there))

clamped_lem :
    (max limit got : ℕ)
    → clamp_limit max limit ≡ got
    → (max == 0 || (ltb 0 got && leb got max)) ≡ true
unfolding clamp_limit
clamped_lem max limit got h = ground arith

apply_constraints-Bounded :
    (c c' : AuthzConstraints) (sr sr' : SearchRequest)
    → apply_constraints c sr ≡ some (sr', c')
    → Bounded c sr'
unfolding apply_constraints
apply_constraints-Bounded c c' sr sr' h =
    let (allowed, first, r) =
      some-bind (allow_collections c.allowed_collections sr.collections) _ _ h in
    let (left, second, r') = some-bind (deny_collections c.denied_collections allowed) _ _ r in
    let is_left : left ≡ sr'.collections = ground arith in
    let is_limit : clamp_limit c.max_results sr.limit ≡ sr'.limit = ground arith in
    let listed : All (λ s. permits c s ≡ true) sr'.collections =
      elim (Bool-cases (is_empty c.allowed_collections && is_empty sr.collections)) [
        | inl none_told ↦
            let chain : (allow_collections c.allowed_collections sr.collections
                  >>= deny_collections c.denied_collections)
                ≡ some left =
              ap (λ o. o >>= deny_collections c.denied_collections) first ∙ second in
            let none_left =
              unnamed_lem c.allowed_collections sr.collections c.denied_collections left none_told
                chain in
            rw (sym is_left, none_left) tt
        | inr told ↦ named_lem c c' sr sr' told h
      ] in
    (listed, clamped_lem c.max_results sr.limit sr'.limit is_limit)

encoded-kept :
    (k : Builders) (c c' : AuthzConstraints) (sr sr' : SearchRequest) (f : Option Json)
    → encoded k c sr f ≡ injected c' sr'
    → (sr'.collections ≡ sr.collections) × (sr'.limit ≡ sr.limit)
unfolding encoded
encoded-kept k c c' sr sr' none h = absurd (ground arith)
encoded-kept k c c' sr sr' (some f) h = (ground arith, ground arith)

write_filter-kept :
    (k : Builders) (c c' : AuthzConstraints) (sr sr' : SearchRequest) (e : Expr?)
    → write_filter k c sr e ≡ injected c' sr'
    → (sr'.collections ≡ sr.collections) × (sr'.limit ≡ sr.limit)
unfolding write_filter
write_filter-kept k c c' sr sr' none h = (ground arith, ground arith)
write_filter-kept k c c' sr sr' (some e) h =
    encoded-kept k c c' sr sr' (encode_for_lang k e (lang_of sr)) h

with_user-kept :
    (k : Builders) (c c' : AuthzConstraints) (sr sr' : SearchRequest) (policy required : Expr?)
    (user : Option Expr?)
    → with_user k c sr policy required user ≡ injected c' sr'
    → (sr'.collections ≡ sr.collections) × (sr'.limit ≡ sr.limit)
unfolding with_user
with_user-kept k c c' sr sr' policy required none h = absurd (ground arith)
with_user-kept k c c' sr sr' policy required (some user) h =
    write_filter-kept k c c' sr sr' (and_non_nil k (user ∷ policy ∷ required ∷ [])) h

inject_side-kept :
    (k : Builders) (c' : AuthzConstraints) (sr sr' : SearchRequest)
    (side : Option (AuthzConstraints × Expr? × Expr?))
    → inject k sr side ≡ injected c' sr'
    → (sr'.collections ≡ sr.collections) × (sr'.limit ≡ sr.limit)
unfolding inject
inject_side-kept k c' sr sr' none h = absurd (ground arith)
inject_side-kept k c' sr sr' (some (updated, policy, required)) h =
    with_user-kept k updated c' sr sr' policy required (parse_user_cql2 k sr.filter) h

-- Injection leaves the collections and the limit alone.
inject-kept :
    (k : Builders) (c c' : AuthzConstraints) (sr sr' : SearchRequest) (spatial : Bool)
    → inject_cql2_filter k sr c spatial ≡ injected c' sr'
    → (sr'.collections ≡ sr.collections) × (sr'.limit ≡ sr.limit)
unfolding inject_cql2_filter
inject-kept k c c' sr sr' spatial h = inject_side-kept k c' sr sr' (policy_side k c spatial) h

abbrev same_search :
    (c : AuthzConstraints) (sr sr' : SearchRequest)
    → (sr'.collections ≡ sr.collections) × (sr'.limit ≡ sr.limit)
    → Bounded c sr
    → Bounded c sr'
same_search c sr sr' (same, equal) bound = rw (same, equal) bound

module _ (k : Builders) where
  after_injection-Bounded :
      (c c' : AuthzConstraints) (o : Option AuthzConstraints) (info i' : StacInfo)
      (sr sr' : SearchRequest) (j : Injection)
      → Bounded c sr
      → ((c1 : AuthzConstraints) (sr1 : SearchRequest)
          → j ≡ injected c1 sr1
          → (sr1.collections ≡ sr.collections) × (sr1.limit ≡ sr.limit))
      → after_injection info j ≡ admitted (some i') o
      → i'.search_req ≡ some sr'
      → Bounded c sr'
  unfolding after_injection
  after_injection-Bounded c c' o info i' sr sr' user_error bound kept h found =
      absurd (ground arith)
  after_injection-Bounded c c' o info i' sr sr' server_error bound kept h found =
      absurd (ground arith)
  after_injection-Bounded c c' o info i' sr sr' (injected c1 sr1) bound kept h found =
      let same : sr1 ≡ sr' = ground arith in
      rw (sym same) (same_search c sr sr1 (kept c1 sr1 refl) bound)

  after_scope-Bounded :
      (c : AuthzConstraints) (o : Option AuthzConstraints) (cfg : HttpConfig) (info i' : StacInfo)
      (sr sr' : SearchRequest) (scoped : Option (SearchRequest × AuthzConstraints))
      → apply_constraints c sr ≡ scoped
      → after_scope k cfg info scoped ≡ admitted (some i') o
      → i'.search_req ≡ some sr'
      → Bounded c sr'
  unfolding after_scope
  after_scope-Bounded c o cfg info i' sr sr' none applied h found = absurd (ground arith)
  after_scope-Bounded c o cfg info i' sr sr' (some (sr1, c1)) applied h found =
      let bound = apply_constraints-Bounded c c1 sr sr1 applied in
      elim (Bool-cases
        (cfg.cql2_injection_enabled && holds_by_default cfg.filter_extension_check info)) [
          | inl on ↦
              after_injection-Bounded c c1 o info i' sr1 sr'
                (inject_cql2_filter k sr1 c1 (holds_by_default cfg.spatial_filter_check info)) bound
                (λ c2 sr2 e.
                  inject-kept k c1 c2 sr1 sr2 (holds_by_default cfg.spatial_filter_check info) e)
                (rw (after_scope, on) at h) found
          | inr off ↦
              let put = rw (after_scope, off) at h in
              let same : sr1 ≡ sr' = ground arith in rw (sym same) bound
        ]

  mutate-Bounded :
      (c : AuthzConstraints) (o : Option AuthzConstraints) (cfg : HttpConfig) (info i' : StacInfo)
      (sr' : SearchRequest) (search : Option SearchRequest)
      → info.search_req ≡ search
      → mutate k cfg info search (some c) ≡ admitted (some i') o
      → i'.search_req ≡ some sr'
      → Bounded c sr'
  unfolding mutate
  mutate-Bounded c o cfg info i' sr' none asked h found =
      let same : info ≡ i' = ground arith in
      absurd (let wrong = rw (sym same, asked) at found in ground arith)
  mutate-Bounded c o cfg info i' sr' (some sr) asked h found =
      after_scope-Bounded c o cfg info i' sr sr' (apply_constraints c sr) refl h found

  mutate_request-Bounded :
      (c : AuthzConstraints) (o : Option AuthzConstraints) (cfg : HttpConfig)
      (info : Option StacInfo) (i' : StacInfo) (sr' : SearchRequest)
      → mutate_request k cfg info (some c) ≡ admitted (some i') o
      → i'.search_req ≡ some sr'
      → Bounded c sr'
  unfolding mutate_request
  mutate_request-Bounded c o cfg none i' sr' h found = absurd (ground arith)
  mutate_request-Bounded c o cfg (some info) i' sr' h found =
      mutate-Bounded c o cfg info i' sr' info.search_req refl h found

  -- A search that reaches the inner handler under a decision with constraints has a principal, or
  -- anonymous access is configured; the decision allows it; each collection that it names is allowed
  -- and not denied; and its limit is between 1 and a maximum that is set.
  pub before-Bounded :
      (cfg : HttpConfig) (has_principal : Bool) (info : Option StacInfo) (d : AuthzDecision)
      (c : AuthzConstraints) (o : Option AuthzConstraints) (i' : StacInfo) (sr' : SearchRequest)
      → d.constraints ≡ some c
      → before k cfg has_principal info (some d) ≡ admitted (some i') o
      → i'.search_req ≡ some sr'
      → ((has_principal || cfg.allow_anonymous) ≡ true) × (d.allowed ≡ true) × Bounded c sr'
  before-Bounded cfg has_principal info d c o i' sr' held h found =
      let (known, (e, decided, allowed, mutated)) =
        before-admitted k cfg has_principal info (some d) (some i') o h in
      let same : d ≡ e = ground arith in
      let constrained : e.constraints ≡ some c = ap (λ x. x.constraints) (sym same) ∙ held in
      (
        known,
        ap (λ x. x.allowed) same ∙ allowed,
        mutate_request-Bounded c o cfg info i' sr'
            (ap (mutate_request k cfg info) (sym constrained) ∙ mutated) found,
      )
