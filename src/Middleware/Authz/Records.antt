-- ===== src/Middleware/Authz/Records.antt =====
-- internal/middleware/authz/middleware.go (validateSingleRecord and its use): what a single item that
-- is handed on satisfies.
use stac_proxy.Common.{
  String, ◌≡◌, refl, sym, ap, ◌∙◌, Bool, true, false, ◌&&◌, not, Option, none, some, [], ◌∷◌,
  str_eq, if◌then◌else◌, arith,
}
use stac_proxy.Stac.Cql2.{Fields, Library}
use stac_proxy.Stac.Cql2.Eval.{eval_cql2}
use stac_proxy.Middleware.Authz.{AuthzConstraints, AuthzDecision}
use stac_proxy.Middleware.Authz.Filters.{Builders, Expr?, policy_side}
use stac_proxy.Middleware.Authz.Merging.{IsBuilders, Passes, and_non_nil-Passes}
use stac_proxy.Middleware.Authz.Injected.{PassesPolicy, policy_side-Passes}
use stac_proxy.Middleware.Authz.Geofence.{
  Bodies, Filtered, not_applicable, malformed_body, filtered,
}
use stac_proxy.Middleware.Authz.Admitted.{before-admitted, handle-forwarded, admitted_lem}
use stac_proxy.Middleware.Authz.Enforce.{
  StacInfo, HttpConfig, Captured, json_error, forwarded, admitted, is_ok, is_item, active_fence,
  ok_or_false, matches, validate_side, validate_single_record, validated, after_filter,
  fence_status, after, mutate_request, mutate, handle,
}

ok_or_false-true : (o : Option Bool) → ok_or_false o ≡ true → o ≡ some true
unfolding ok_or_false
ok_or_false-true (some b) h = ground arith
ok_or_false-true none h = absurd (ground arith)

verdict_lem :
    (one ok good : Bool) (resp out : Captured)
    → one ≡ true
    → ok ≡ true
    → (if one && (ok && not good) then json_error 404 "NotFound" else forwarded resp)
      ≡ forwarded out
    → (good ≡ true) × (resp ≡ out)
verdict_lem one ok true resp out is_one is_ok h = (refl, ground arith)
verdict_lem one ok false resp out is_one is_ok h =
    absurd (let wrong = rw (is_one, is_ok) at h in ground arith)

module _ {G : Type 0} (geo : Library G) (k : Builders) (bodies : Bodies G) where
  validated-forwarded :
      (info : Option StacInfo) (c : AuthzConstraints) (resp out : Captured)
      → is_item info ≡ true
      → is_ok resp.status ≡ true
      → validated geo k bodies info c resp ≡ forwarded out
      → validate_single_record geo k bodies out.body c ≡ true
  unfolding validated
  validated-forwarded info c resp out one ok h =
      let (good, same) =
        verdict_lem (is_item info) (is_ok resp.status)
          (validate_single_record geo k bodies resp.body c) resp out one ok h in
      ap (λ r. validate_single_record geo k bodies r.body c) (sym same) ∙ good

  after_filter-forwarded :
      (info : Option StacInfo) (c : AuthzConstraints) (resp out : Captured) (f : Filtered)
      → is_item info ≡ true
      → is_ok resp.status ≡ true
      → after_filter geo k bodies info c resp f ≡ forwarded out
      → validate_single_record geo k bodies out.body c ≡ true
  unfolding after_filter
  after_filter-forwarded info c resp out not_applicable one ok h =
      validated-forwarded info c resp out one ok h
  after_filter-forwarded info c resp out malformed_body one ok h = absurd (ground arith)
  after_filter-forwarded info c resp out (filtered body) one ok h =
      validated-forwarded info c (record resp { body = body }) out one ok h

  mutate_none :
      (cfg : HttpConfig) (info : StacInfo) (c c' : Option AuthzConstraints)
      → info.search_req ≡ none
      → c ≡ c'
      → admitted (some info) c' ≡ mutate_request k cfg (some info) c
  unfolding mutate_request mutate
  mutate_none cfg info c c' no_search held = rw (no_search, held) refl

  -- An item that is handed on went through the inner handler as it came.
  handle_item :
      (cfg : HttpConfig) (has_principal : Bool) (info : StacInfo) (d : AuthzDecision)
      (c : AuthzConstraints) (next : Option StacInfo → Captured) (out : Captured)
      → info.search_req ≡ none
      → d.constraints ≡ some c
      → handle geo k bodies cfg has_principal (some info) (some d) next ≡ forwarded out
      → after geo k bodies (some info) (some c) (next (some info)) ≡ forwarded out
  unfolding mutate_request mutate
  handle_item cfg has_principal info d c next out no_search held h =
      let (info', c', let_in, answered) =
        handle-forwarded geo k bodies cfg has_principal (some info) (some d) next out h in
      let (known, (e, decided, allowed, mutated)) =
        before-admitted k cfg has_principal (some info) (some d) info' c' let_in in
      let same : d ≡ e = ground arith in
      let kept : admitted (some info) (some c) ≡ admitted info' c' =
        mutate_none cfg info d.constraints (some c) no_search held
        ∙ ap (λ x. mutate_request k cfg (some info) x.constraints) same
        ∙ mutated in
      let (same_info, same_c) = admitted_lem (some info) info' (some c) c' kept in
      rw (same_info, same_c) answered

  module _ (sound : IsBuilders geo k) (item : Fields) where
    matches-Passes :
        (e : Expr?) (body : String)
        → bodies.unmarshal_object body ≡ some item
        → matches geo k bodies e body ≡ true
        → Passes geo k e item
    unfolding matches
    matches-Passes none body read h = tt
    matches-Passes (some e) body read h =
        ok_or_false-true (eval_cql2 geo e item) (rw (matches, read) at h)

    validate-PassesPolicy :
        (c updated : AuthzConstraints) (policy required : Expr?) (body : String)
        → policy_side k c true ≡ some (updated, policy, required)
        → str_eq body "" ≡ false
        → bodies.unmarshal_object body ≡ some item
        → validate_single_record geo k bodies body c ≡ true
        → PassesPolicy geo k c true item
    unfolding validate_single_record validate_side
    validate-PassesPolicy c updated policy required body readable full read h =
        let found = matches-Passes _ body read (rw (full, readable) at h) in
        let (p, r) = (and_non_nil-Passes geo k sound item (policy ∷ required ∷ [])).0 found in
        (policy_side-Passes geo k sound item c updated true policy required readable).0 (p, r.0)

    -- With the builders' promises and constraints that can be read: when the request for a single item
    -- is answered by handing on a successful response, and its body is a JSON object, then that object
    -- passes the policy's filter, the required filters and the geofence.
    pub handle-PassesPolicy :
        (cfg : HttpConfig) (has_principal : Bool) (info : StacInfo) (d : AuthzDecision)
        (c updated : AuthzConstraints) (policy required : Expr?) (next : Option StacInfo → Captured)
        (out : Captured)
        → is_item (some info) ≡ true
        → info.search_req ≡ none
        → d.constraints ≡ some c
        → policy_side k c true ≡ some (updated, policy, required)
        → is_ok (next (some info)).status ≡ true
        → str_eq out.body "" ≡ false
        → bodies.unmarshal_object out.body ≡ some item
        → handle geo k bodies cfg has_principal (some info) (some d) next ≡ forwarded out
        → PassesPolicy geo k c true item
    unfolding after
    handle-PassesPolicy cfg has_principal info d c updated policy required next out one no_search
          held readable ok full read h =
        let passed = handle_item cfg has_principal info d c next out no_search held h in
        validate-PassesPolicy c updated policy required out.body readable full read (
          after_filter-forwarded (some info) c (next (some info)) out
            (fence_status geo k bodies (next (some info)) (active_fence c)) one ok passed)
