-- ===== src/Federation/Adapters/Rooted.antt =====
-- internal/federation/pageadapter: what the captured states are worth.
use text.Mathlib.Text.{starts_with}
use stac_proxy.Common.{
  ◌⊎◌, ◌≢◌, str_eq_iff, arith, ℕ, ◌≡◌, refl, inl, inr, String, Bool, true, false, not, Option, none,
  some, List, [], ◌∷◌, ltb, ◌==◌, str_eq, if◌then◌else◌, Bool-cases, Option-cases,
}
use stac_proxy.Common.Int.{ℤ}
use stac_proxy.Federation.LinkHeader.{parse_next_from_link_header}
use stac_proxy.Federation.Adapters.{
  Library, Url, Link, LinkBody, UpstreamResponse, NextState, zero_state, done_if, Captured, state,
  refused, Adapter, token_adapter, offset_adapter, next_url_adapter, post_body_adapter,
  link_header_adapter, name_of, trim_slash, rooted_at, same_origin, followed, capture, next_in,
  offset_state, offset_url, capture_offset, capture_next_url, with_json, with_body,
  capture_post_body, token_in, is_some,
}
use stac_proxy.Federation.Adapters.Auto.{probed, probe, best_of, capture_auto}

-- An absolute URL with the scheme and the host of the base URL, compared by Unicode case folding, and
-- a path that begins, as a text, with the base URL's path less its last slash.
pub record SharesOrigin (lib : Library) (raw_url base_url : String) : Type 0 where
  pub url : Url
  pub base : Url
  pub reads_url : lib.parse_url raw_url ≡ some url
  pub reads_base : lib.parse_url base_url ≡ some base
  pub absolute : url.scheme ≢ ""
  pub scheme : lib.equal_fold url.scheme base.scheme ≡ true
  pub host : lib.equal_fold url.host base.host ≡ true
  pub path : starts_with url.path (trim_slash base.path) ≡ true

rooted_at-SharesOrigin :
    (lib : Library) (raw_url base_url : String) (u b : Option Url)
    → lib.parse_url raw_url ≡ u
    → lib.parse_url base_url ≡ b
    → rooted_at lib u b ≡ true
    → SharesOrigin lib raw_url base_url
unfolding rooted_at
rooted_at-SharesOrigin lib raw_url base_url none b e f h = absurd (ground arith)
rooted_at-SharesOrigin lib raw_url base_url (some u) none e f h = absurd (ground arith)
rooted_at-SharesOrigin lib raw_url base_url (some u) (some b) e f h = record {
  url = u;
  base = b;
  reads_url = e;
  reads_base = f;
  absolute = λ bare. (let w = (str_eq_iff u.scheme "").1 bare in absurd (ground arith));
  scheme = ground arith;
  host = ground arith;
  path = ground arith;
}

same_origin-SharesOrigin :
    (lib : Library) (raw_url base_url : String)
    → same_origin lib raw_url base_url ≡ true
    → (raw_url ≡ "") ⊎ SharesOrigin lib raw_url base_url
unfolding same_origin
same_origin-SharesOrigin lib raw_url base_url h = elim (Bool-cases (str_eq raw_url "")) [
  | inl bare ↦ inl ((str_eq_iff raw_url "").0 bare)
  | inr given ↦ inr (
      rooted_at-SharesOrigin lib raw_url base_url (lib.parse_url raw_url) (lib.parse_url base_url)
        refl refl (ground arith))
]

module _ (lib : Library) where
  -- SameOrigin accepts the URL of a captured state.
  abbrev pub IsRootedAt : String → Captured → Type 0
  IsRootedAt base_url (state st) = same_origin lib st.url base_url ≡ true
  IsRootedAt base_url refused = Unit {0}

  done_if-IsRootedAt : (base_url : String) (b : Bool) → IsRootedAt base_url (state (done_if b))
  unfolding same_origin
  done_if-IsRootedAt base_url b = refl

  followed-IsRootedAt :
      (base_url : String) (st : NextState) (otherwise : Captured)
      → IsRootedAt base_url otherwise
      → IsRootedAt base_url (followed lib base_url st otherwise)
  unfolding followed
  followed-IsRootedAt base_url st otherwise h =
      elim (Bool-cases (same_origin lib st.url base_url)) [
        | inl near ↦ rw (followed, near, if◌then◌else◌) near
        | inr far ↦ rw (followed, far, if◌then◌else◌) h
      ]

  choose-IsRootedAt :
      (base_url : String) (b : Bool) (x y : Captured)
      → IsRootedAt base_url x
      → IsRootedAt base_url y
      → IsRootedAt base_url (if b then x else y)
  choose-IsRootedAt base_url true x y hx hy = hx
  choose-IsRootedAt base_url false x y hx hy = hy

  offset_state-IsRootedAt :
      (n : Option ℤ) (l : Link) (base_url : String)
      → IsRootedAt base_url (offset_state lib n l base_url)
  unfolding offset_state
  offset_state-IsRootedAt none l base_url = done_if-IsRootedAt base_url true
  offset_state-IsRootedAt (some n) l base_url =
      followed-IsRootedAt base_url _ _ (done_if-IsRootedAt base_url true)

  offset_url-IsRootedAt :
      (u : Option Url) (l : Link) (param base_url : String)
      → IsRootedAt base_url (offset_url lib u l param base_url)
  unfolding offset_url
  offset_url-IsRootedAt none l param base_url = done_if-IsRootedAt base_url true
  offset_url-IsRootedAt (some u) l param base_url =
      choose-IsRootedAt base_url (str_eq (u.query param) "") _ _ (done_if-IsRootedAt base_url true)
        (offset_state-IsRootedAt (lib.atoi (u.query param)) l base_url)

  capture_offset-IsRootedAt :
      (o : Option Link) (param base_url : String)
      → IsRootedAt base_url (capture_offset lib o param base_url)
  unfolding capture_offset
  capture_offset-IsRootedAt none param base_url = done_if-IsRootedAt base_url true
  capture_offset-IsRootedAt (some l) param base_url =
      choose-IsRootedAt base_url (str_eq l.href "") _ _ (done_if-IsRootedAt base_url true)
        (offset_url-IsRootedAt (lib.parse_url l.href) l param base_url)

  capture_next_url-IsRootedAt :
      (o : Option Link) (base_url : String) → IsRootedAt base_url (capture_next_url lib o base_url)
  unfolding capture_next_url
  capture_next_url-IsRootedAt none base_url = done_if-IsRootedAt base_url true
  capture_next_url-IsRootedAt (some l) base_url =
      choose-IsRootedAt base_url (str_eq l.href "") _ _ (done_if-IsRootedAt base_url true) (
        choose-IsRootedAt base_url (lib.equal_fold l.method "POST") _ _
          (done_if-IsRootedAt base_url false) (followed-IsRootedAt base_url _ refused tt))

  with_body-IsRootedAt :
      (b : Option LinkBody) (href base_url : String)
      → same_origin lib href base_url ≡ true
      → IsRootedAt base_url (with_body lib b href)
  unfolding with_body with_json
  with_body-IsRootedAt none href base_url near = done_if-IsRootedAt base_url false
  with_body-IsRootedAt (some b) href base_url near = elim (Option-cases b.json) [
    | inl bad ↦ rw (bad, with_json) tt
    | inr (json, packed) ↦ rw (packed, with_json) near
  ]

  capture_post_body-IsRootedAt :
      (o : Option Link) (base_url : String) → IsRootedAt base_url (capture_post_body lib o base_url)
  unfolding capture_post_body
  capture_post_body-IsRootedAt none base_url = done_if-IsRootedAt base_url true
  capture_post_body-IsRootedAt (some l) base_url =
      choose-IsRootedAt base_url (not (lib.equal_fold l.method "POST")) _ _
        (done_if-IsRootedAt base_url false)
        (choose-IsRootedAt base_url (str_eq l.href "") _ _ (done_if-IsRootedAt base_url true)
          (elim (Bool-cases (same_origin lib l.href base_url)) [
            | inl near ↦ rw (near, if◌then◌else◌) (with_body-IsRootedAt l.body l.href base_url near)
            | inr far ↦ rw (far, if◌then◌else◌) tt
          ]))

  -- Whatever an upstream sends: every adapter captures a URL only if SameOrigin accepts it.
  pub capture-IsRootedAt :
      (a : Adapter) (r : UpstreamResponse) → IsRootedAt r.base_url (capture lib a r)
  unfolding capture same_origin
  capture-IsRootedAt (token_adapter param) r =
      choose-IsRootedAt r.base_url (str_eq (token_in lib (next_in r.links) param) "") _ _
        (done_if-IsRootedAt r.base_url (not (is_some (next_in r.links)))) refl
  capture-IsRootedAt (offset_adapter param) r =
      capture_offset-IsRootedAt (next_in r.links) param r.base_url
  capture-IsRootedAt next_url_adapter r = capture_next_url-IsRootedAt (next_in r.links) r.base_url
  capture-IsRootedAt post_body_adapter r = capture_post_body-IsRootedAt (next_in r.links) r.base_url
  capture-IsRootedAt link_header_adapter r =
      choose-IsRootedAt r.base_url
        (str_eq (parse_next_from_link_header lib.equal_fold r.link_values) "") _ _
        (done_if-IsRootedAt r.base_url true) (followed-IsRootedAt r.base_url _ refused tt)

  probed-IsRootedAt :
      (base_url : String) (a : Adapter) (c : Captured)
      → IsRootedAt base_url c
      → same_origin lib (probed a c).1.url base_url ≡ true
  unfolding probed same_origin
  probed-IsRootedAt base_url a (state st) h = h
  probed-IsRootedAt base_url a refused h = refl

  -- A probe's state, whatever the adapter.
  probe-IsRootedAt :
      (a : Adapter) (r : UpstreamResponse) → same_origin lib (probe lib a r).1.url r.base_url ≡ true
  unfolding probe probed same_origin
  probe-IsRootedAt a r = probed-IsRootedAt r.base_url a (capture lib a r) (capture-IsRootedAt a r)

  best_of-IsRootedAt :
      (adapters : List Adapter) (r : UpstreamResponse) (best : ℕ × NextState)
      → same_origin lib best.1.url r.base_url ≡ true
      → same_origin lib (best_of lib adapters r best).1.url r.base_url ≡ true
  unfolding best_of
  best_of-IsRootedAt [] r best h = h
  best_of-IsRootedAt (a ∷ as') r best h = elim (Bool-cases (ltb best.0 (probe lib a r).0)) [
    | inl better ↦
        rw (best_of, better, if◌then◌else◌)
          (best_of-IsRootedAt as' r
            ((probe lib a r).0, record (probe lib a r).1 { adapter_name = name_of a })
            (probe-IsRootedAt a r))
    | inr worse ↦ rw (best_of, worse, if◌then◌else◌) (best_of-IsRootedAt as' r best h)
  ]

  capture_auto-IsRootedAt :
      (adapters : List Adapter) (r : UpstreamResponse)
      → same_origin lib (capture_auto lib adapters r).url r.base_url ≡ true
  unfolding capture_auto same_origin
  capture_auto-IsRootedAt adapters r =
      elim (Bool-cases ((best_of lib adapters r (0, zero_state)).0 == 0)) [
        | inl nothing ↦ rw (nothing, if◌then◌else◌) refl
        | inr found ↦ rw (found, if◌then◌else◌) (best_of-IsRootedAt adapters r (0, zero_state) refl)
      ]

  -- Whatever an upstream sends and whichever adapters auto tries: the URL that it settles on is empty,
  -- or it is absolute and has the scheme and the host of the origin's base URL, up to case, and a
  -- path that begins, as a text, with the path of the base URL less its last slash.
  pub capture_auto-SharesOrigin :
      (adapters : List Adapter) (r : UpstreamResponse)
      → ((capture_auto lib adapters r).url ≡ "")
        ⊎ SharesOrigin lib (capture_auto lib adapters r).url r.base_url
  capture_auto-SharesOrigin adapters r =
      same_origin-SharesOrigin lib (capture_auto lib adapters r).url r.base_url
        (capture_auto-IsRootedAt adapters r)
