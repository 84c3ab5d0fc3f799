-- ===== src/Middleware/Authz/Merging.antt =====
-- internal/middleware/authz/cql2.go and middleware.go (injectCQL2Filter): what the filter that goes
-- upstream asks of an item.
use stac_proxy.Common.{
  String, ◌≡◌, refl, sym, ◌∙◌, ◌↔◌, Bool, true, false, Option, none, some, List, [], ◌∷◌, str_eq,
  ◌>>=◌, some-bind, arith, All, inl, inr, Bool-cases, Option-cases,
}
use stac_proxy.Stac.Cql2.{
  Json, null, boolean, number, text, array, object, Fields, op_and, Node, op, Nodes, nil, cons,
  Library,
}
use stac_proxy.Stac.Cql2.Eval.{eval_cql2}
use stac_proxy.Stac.Cql2.Logic.{AllPass, eval_cql2-and}
use stac_proxy.Middleware.Authz.{AuthzConstraints}
use stac_proxy.Middleware.Authz.Scope.{SearchRequest}
use stac_proxy.Middleware.Authz.Filters.{
  Builders, Expr?, non_nils, conjunction, and_non_nil, parsed, parse_policy_cql2, policy_of,
  parse_user_cql2, encode_for_lang, pushed, push_fence, injected, encoded, write_filter, lang_of,
}

unfoldable pub nodes_of : List Node → Nodes
nodes_of [] = nil
nodes_of (e ∷ es) = cons e (nodes_of es)

unfoldable pub is_text : Json → Bool
is_text (text s) = true
is_text _ = false

module _ {G : Type 0} (geo : Library G) (k : Builders) where
  -- A text reads as an expression that means the same on every item.
  abbrev pub Reads : String → Node → Type 0
  Reads s e =
      (d : Node) × (k.parse s ≡ some d)
      × ((item : Fields) → eval_cql2 geo d item ≡ eval_cql2 geo e item)

  -- What go-cql2 and package json promise: And builds an AND, what is encoded reads back with its
  -- meaning, and an expression in JSON is no string.
  pub record IsBuilders : Type 0 where
    pub and-op : (es : List Node) → k.and_ es ≡ op op_and (nodes_of es)
    pub encode_text-Reads :
        (e : Node) (s : String) → k.encode_text e ≡ some s → (str_eq s "" ≡ false) × Reads s e
    pub encode_json-Reads :
        (e : Node) (s : String) (v : Json)
        → k.encode_json e ≡ some s
        → k.unmarshal s ≡ some v
        → (is_text v ≡ false) × ((r : String) × (k.marshal v ≡ some r) × Reads r e)

  -- The item satisfies an expression, if there is one.
  abbrev pub Passes : Expr? → Fields → Type 0
  Passes none item = Unit {0}
  Passes (some e) item = eval_cql2 geo e item ≡ some true

  -- The same of an expression that is read first: an error passes nothing.
  abbrev pub PassesRead : Option Expr? → Fields → Type 0
  PassesRead none item = ⊥
  PassesRead (some e) item = Passes e item

  AllPass-nodes_of :
      (item : Fields) (es : List Node)
      → AllPass geo item (nodes_of es) ↔ All (λ e. eval_cql2 geo e item ≡ some true) es
  unfolding nodes_of
  AllPass-nodes_of item [] = (λ h. h, λ h. h)
  AllPass-nodes_of item (e ∷ es) =
      let (to, from) = AllPass-nodes_of item es in (λ h. (h.0, to h.1), λ h. (h.0, from h.1))

  All-non_nils :
      (item : Fields) (es : List Expr?)
      → All (λ e. eval_cql2 geo e item ≡ some true) (non_nils es) ↔ All (λ e. Passes e item) es
  unfolding non_nils
  All-non_nils item [] = (λ h. h, λ h. h)
  All-non_nils item (none ∷ es) =
      let (to, from) = All-non_nils item es in (λ h. (tt, to h), λ h. from h.1)
  All-non_nils item (some e ∷ es) =
      let (to, from) = All-non_nils item es in (λ h. (h.0, to h.1), λ h. (h.0, from h.1))

  module _ (sound : IsBuilders) (item : Fields) where
    conjunction-Passes :
        (es : List Node)
        → Passes (conjunction k es) item ↔ All (λ e. eval_cql2 geo e item ≡ some true) es
    unfolding conjunction
    conjunction-Passes [] = (λ h. h, λ h. h)
    conjunction-Passes (e ∷ []) = (λ h. (h, tt), λ h. h.0)
    conjunction-Passes (e ∷ d ∷ es) =
        let (to, from) = eval_cql2-and geo item (nodes_of (e ∷ d ∷ es)) in
        let (up, down) = AllPass-nodes_of item (e ∷ d ∷ es) in
        rw (sound.and-op (e ∷ d ∷ es)) (λ h. up (to h), λ h. from (down h))

    pub and_non_nil-Passes :
        (es : List Expr?) → Passes (and_non_nil k es) item ↔ All (λ e. Passes e item) es
    unfolding and_non_nil
    and_non_nil-Passes es =
        let (to, from) = conjunction-Passes (non_nils es) in
        let (up, down) = All-non_nils item es in (λ h. up (to h), λ h. from (down h))

    parsed-PassesRead :
        (s : String) (e : Node)
        → Reads s e
        → PassesRead (parsed k s) item ↔ (eval_cql2 geo e item ≡ some true)
    unfolding parsed
    parsed-PassesRead s e (d, found, same) = rw found (λ h. sym (same item) ∙ h, λ h. same item ∙ h)

    parse_user_value :
        (v : Json) → is_text v ≡ false → parse_user_cql2 k (some v) ≡ (k.marshal v >>= parsed k)
    unfolding parse_user_cql2 is_text
    parse_user_value null h = refl
    parse_user_value (boolean b) h = refl
    parse_user_value (number f) h = refl
    parse_user_value (text s) h = absurd (ground arith)
    parse_user_value (array vs) h = refl
    parse_user_value (object fs) h = refl

    parse_user_text :
        (s : String) → str_eq s "" ≡ false → parse_user_cql2 k (some (text s)) ≡ parsed k s
    unfolding parse_user_cql2
    parse_user_text s h = rw h refl

    encode_for_lang-PassesRead :
        (e : Node) (lang : String) (v : Json)
        → encode_for_lang k e lang ≡ some v
        → PassesRead (parse_user_cql2 k (some v)) item ↔ (eval_cql2 geo e item ≡ some true)
    unfolding encode_for_lang
    encode_for_lang-PassesRead e lang v h = elim (Bool-cases (str_eq lang "cql2-json")) [
      | inl json ↦
          let (s, coded, found) = some-bind (k.encode_json e) k.unmarshal v (rw json at h) in
          let (shape, (r, marshalled, reads)) = sound.encode_json-Reads e s v coded found in
          rw (parse_user_value v shape, marshalled) (parsed-PassesRead r e reads)
      | inr plain ↦
          let (s, coded, found) =
            some-bind (k.encode_text e) (λ s. some (text s)) v (rw plain at h) in
          let (shape, reads) = sound.encode_text-Reads e s coded in
          let same : v ≡ text s = ground arith in
          rw (same, parse_user_text s shape) (parsed-PassesRead s e reads)
    ]

    -- The expression that is written passes what the filter passes afterwards.
    pub write_filter-PassesRead :
        (c c' : AuthzConstraints) (sr sr' : SearchRequest) (user e : Expr?)
        → parse_user_cql2 k sr.filter ≡ some user
        → (Passes e item → Passes user item)
        → write_filter k c sr e ≡ injected c' sr'
        → (c ≡ c') × (PassesRead (parse_user_cql2 k sr'.filter) item ↔ Passes e item)
    unfolding write_filter encoded
    write_filter-PassesRead c c' sr sr' user none read weak h =
        let same : sr ≡ sr' = ground arith in (ground arith, rw (sym same, read) (λ p. tt, weak))
    write_filter-PassesRead c c' sr sr' user (some e) read weak h =
        elim (Option-cases (encode_for_lang k e (lang_of sr))) [
          | inl failed ↦ absurd (ground arith)
          | inr (v, coded) ↦
              let same : sr'.filter ≡ some v = ground arith in
              (ground arith, rw same (encode_for_lang-PassesRead e (lang_of sr) v coded))
        ]

    policy_text_lem :
        (c : AuthzConstraints) (s : String) (e : Node)
        → c.cql2_filter_json ≡ none
        → c.cql2_filter ≡ s
        → str_eq s "" ≡ false
        → Reads s e
        → PassesRead (parse_policy_cql2 k c) item ↔ (eval_cql2 geo e item ≡ some true)
    unfolding parse_policy_cql2 policy_of
    policy_text_lem c s e no_json same shape reads =
        rw (no_json, same, shape) (parsed-PassesRead s e reads)

    pushed-PassesRead :
        (c c' : AuthzConstraints) (existing e : Expr?)
        → parse_policy_cql2 k c ≡ some existing
        → (Passes e item → Passes existing item)
        → pushed k c e ≡ some c'
        → (c'.required_filters ≡ c.required_filters)
          × (PassesRead (parse_policy_cql2 k c') item ↔ Passes e item)
    unfolding pushed
    pushed-PassesRead c c' existing none read weak h =
        let same : c ≡ c' = ground arith in (ground arith, rw (sym same, read) (λ p. tt, weak))
    pushed-PassesRead c c' existing (some e) read weak h =
        let (s, coded, same) = some-bind (k.encode_text e) _ c' h in
        let (shape, reads) = sound.encode_text-Reads e s coded in
        (ground arith, policy_text_lem c' s e (ground arith) (ground arith) shape reads)

    -- The constraints stay, or take the fence into their filter.
    pub push_fence-PassesRead :
        (c c' : AuthzConstraints) (fence : Expr?)
        → push_fence k c fence ≡ some c'
        → (c'.required_filters ≡ c.required_filters)
          × (PassesRead (parse_policy_cql2 k c') item
              ↔ PassesRead (parse_policy_cql2 k c) item × Passes fence item)
    unfolding push_fence
    push_fence-PassesRead c c' none h =
        let same : c ≡ c' = ground arith in rw (sym same) (refl, (λ p. (p, tt), λ p. p.0))
    push_fence-PassesRead c c' (some fence) h =
        let (existing, read, put) = some-bind (parse_policy_cql2 k c) _ c' h in
        let (to, from) = and_non_nil-Passes (existing ∷ some fence ∷ []) in
        let (kept, (up, down)) = pushed-PassesRead c c' existing _ read (λ p. (to p).0) put in
        (
          kept,
          rw read
              (λ p. let both = to (up p) in (both.0, both.1.0), λ p. down (from (p.0, (p.1, tt)))),
        )
