-- ===== src/Federation/Pagination/Failures.antt =====
-- internal/federation/pagination.go (Search, mergeResults) with Clone of cursor.go: pages on which an
-- origin delivers nothing, one after the other.
use stac_proxy.Common.{
  ℕ, ◌+◌, ◌≤◌, ◌≡◌, ◌≢◌, refl, ◌∙◌, inl, inr, String, true, false, Option, none, some, ◌>>=◌, List,
  [], ◌∷◌, keys, length, lookup, lookup-modify_self, lookup-modify_ne, str_eq, str_eq_iff,
  if◌then◌else◌, arith, All, Bool-cases,
}
use stac_proxy.Stac.Item.{Item, TimeFormat}
use stac_proxy.Federation.Status.{FetchError}
use stac_proxy.Federation.Cursor.{
  Bytes, OriginCursor, FederatedCursor, get_origin_cursor, fail_origin, mark_error, has_more,
  origin_has_more, is_retired, clone, clone_origin, active_origins,
}
use stac_proxy.Federation.Cursor.Sessions.{lookup-clone, any_has_more-lookup}
use stac_proxy.Federation.Pagination.{
  FetchResult, PaginatedSearcher, mark_if, mark_errors, fresh_by_origin, advance, settle,
  settle_all, stash_for, merge_results,
}
use stac_proxy.Federation.Pagination.Search.{next_cursor_of}
use stac_proxy.Federation.Pagination.Shares.{count_id}
use stac_proxy.Federation.Pagination.Stashes.{settle_ne}

-- The cursor that goes into the token of the next page, if the session goes on.
unfoldable pub next_page :
    TimeFormat
    → PaginatedSearcher
    → ℕ
    → Bytes
    → List (String × FetchResult)
    → FederatedCursor
    → Option FederatedCursor
unfolding merge_results has_more next_cursor_of
next_page tf s limit token results c =
    let (items, c1) = merge_results tf s results c limit in
    let c2 : FederatedCursor = record c1 { total_returned = c1.total_returned + length items } in
    if has_more c2 then some (next_cursor_of token c2) else none

-- A session: the token of each page and what the origins sent. `none` is a session that ended.
unfoldable pub after_pages :
    TimeFormat
    → PaginatedSearcher
    → ℕ
    → List (Bytes × List (String × FetchResult))
    → FederatedCursor
    → Option FederatedCursor
unfolding next_page
after_pages tf s limit [] c = some c
after_pages tf s limit ((token, results) ∷ ps) c =
    next_page tf s limit token results c >>= after_pages tf s limit ps

-- The origin is known, not exhausted, and has failed at most that often.
record IsOn (id : String) (e : ℕ) (c : FederatedCursor) : Type 0 where
  origin : OriginCursor
  known : get_origin_cursor id c ≡ some origin
  going : origin.exhausted ≡ false
  few : origin.error_count ≤ e

IsOn-mono : (id : String) (e f : ℕ) (c : FederatedCursor) → e ≤ f → IsOn id e c → IsOn id f c
IsOn-mono id e f c h on = record {
  origin = on.origin;
  known = on.known;
  going = on.going;
  few = omega (arith, on.few);
}

counted_lem :
    (id : String) (e n : ℕ) (c : FederatedCursor)
    → IsOn id e c
    → IsOn id e (record c { total_returned = n })
unfolding get_origin_cursor
counted_lem id e n c on = record {
  origin = on.origin;
  known = on.known;
  going = on.going;
  few = on.few;
}

mark_if-IsOn :
    (id q : String) (err : Option FetchError) (e : ℕ) (c : FederatedCursor)
    → IsOn id e c
    → IsOn id (e + (if str_eq q id then 1 else 0)) (mark_if q err c)
unfolding mark_if mark_error get_origin_cursor fail_origin
mark_if-IsOn id q none e c on = IsOn-mono id e _ c (ground arith) on
mark_if-IsOn id q (some x) e c on = elim (Bool-cases (str_eq q id)) [
  | inl same ↦ rw same (
      let is_id = (str_eq_iff q id).0 same in
      record {
        origin = fail_origin on.origin;
        known = rw is_id (lookup-modify_self id fail_origin c.origins on.origin on.known);
        going = on.going;
        few = omega (arith, on.few);
      })
  | inr apart ↦
      let other : q ≢ id = λ same. (let w = (str_eq_iff q id).1 same in absurd (ground arith)) in
      rw apart (record {
        origin = on.origin;
        known = lookup-modify_ne q id fail_origin c.origins other ∙ on.known;
        going = on.going;
        few = omega (arith, on.few);
      })
]

mark_errors-IsOn :
    (id : String) (results : List (String × FetchResult)) (e : ℕ) (c : FederatedCursor)
    → IsOn id e c
    → IsOn id (e + count_id id (keys results)) (mark_errors results c)
unfolding mark_errors count_id
mark_errors-IsOn id [] e c on = IsOn-mono id e _ c (omega arith) on
mark_errors-IsOn id ((q, r) ∷ rest) e c on = IsOn-mono id _ _ _ (ground arith) (
    mark_errors-IsOn id rest (e + (if str_eq q id then 1 else 0)) (mark_if q r.error c)
      (mark_if-IsOn id q r.error e c on))

module _ (tf : TimeFormat) (fresh : List (String × FetchResult)) (rest : List Item) (id : String)
    (e : ℕ) (absent : lookup id fresh ≡ none) where
  settle_own : (c : FederatedCursor) → IsOn id e c → IsOn id e (settle tf fresh rest id c)
  unfolding settle advance get_origin_cursor
  settle_own c on = rw absent (record {
    origin = record (on.origin) { stash = stash_for id rest };
    known = lookup-modify_self id _ c.origins on.origin on.known;
    going = on.going;
    few = on.few;
  })

  settle-IsOn :
      (q : String) (c : FederatedCursor) → IsOn id e c → IsOn id e (settle tf fresh rest q c)
  settle-IsOn q c on = elim (Bool-cases (str_eq q id)) [
    | inl same ↦ let is_id = (str_eq_iff q id).0 same in rw is_id (settle_own c on)
    | inr apart ↦
        let other : q ≢ id = λ same. (let w = (str_eq_iff q id).1 same in absurd (ground arith)) in
        record {
          origin = on.origin;
          known = settle_ne tf fresh rest q id c other ∙ on.known;
          going = on.going;
          few = on.few;
        }
  ]

  settle_all-IsOn :
      (ids : List String) (c : FederatedCursor)
      → IsOn id e c
      → IsOn id e (settle_all tf fresh rest ids c)
  unfolding settle_all
  settle_all-IsOn [] c on = on
  settle_all-IsOn (q ∷ ids) c on =
      settle_all-IsOn ids (settle tf fresh rest q c) (settle-IsOn q c on)

has_more-IsOn : (id : String) (c : FederatedCursor) → IsOn id 2 c → has_more c ≡ true
unfolding has_more get_origin_cursor origin_has_more is_retired
has_more-IsOn id c on =
    let going = on.going in
    let few = on.few in any_has_more-lookup id c.origins on.origin on.known (ground arith)

module _ (tf : TimeFormat) (s : PaginatedSearcher) (limit : ℕ) (id : String) where
  -- On a page the origin is asked at most once, and delivers nothing.
  abbrev pub IsSilent : Bytes × List (String × FetchResult) → Type 0
  IsSilent (token, results) =
      (count_id id (keys results) ≤ 1) × (lookup id (fresh_by_origin results) ≡ none)

  next_page-IsOn :
      (token : Bytes) (results : List (String × FetchResult)) (c : FederatedCursor)
      → IsSilent (token, results)
      → IsOn id 1 c
      → (d : FederatedCursor) × (next_page tf s limit token results c ≡ some d) × IsOn id 0 d
  unfolding next_page merge_results next_cursor_of clone get_origin_cursor clone_origin has_more
  next_page-IsOn token results c (once, absent) on =
      let marked =
        IsOn-mono id _ 2 (mark_errors results c) (omega (arith, once))
          (mark_errors-IsOn id results 1 c on) in
      let merged =
        settle_all-IsOn tf (fresh_by_origin results) _ id 2 absent
          (active_origins (mark_errors results c)) (mark_errors results c) marked in
      let (items, c1) = merge_results tf s results c limit in
      let c2 : FederatedCursor = record c1 { total_returned = c1.total_returned + length items } in
      let more = has_more-IsOn id c2 (counted_lem id 2 _ c1 merged) in
      (
        next_cursor_of token c2,
        rw more refl,
        record {
          origin = clone_origin merged.origin;
          known = lookup-clone id _ merged.origin merged.known;
          going = merged.going;
          few = omega arith;
        },
      )

  -- An origin that is not exhausted, and has failed at most once when the first of the pages begins,
  -- may deliver nothing, failed or not asked, on any number of pages one after the other, whatever
  -- the other origins send: the session goes on to the page after them, which has more.
  pub has_more-after_pages :
      (ps : List (Bytes × List (String × FetchResult))) (c : FederatedCursor) (o : OriginCursor)
      → All IsSilent ps
      → get_origin_cursor id c ≡ some o
      → o.exhausted ≡ false
      → o.error_count ≤ 1
      → (d : FederatedCursor) × (after_pages tf s limit ps c ≡ some d) × (has_more d ≡ true)
  unfolding after_pages
  has_more-after_pages [] c o silent h e few = (
    c,
    refl,
    has_more-IsOn id c (record { origin = o; known = h; going = e; few = omega (arith, few) }),
  )
  has_more-after_pages ((token, results) ∷ ps) c o silent h e few =
      let (c', at, on) =
        next_page-IsOn token results c silent.0
          (record { origin = o; known = h; going = e; few = few }) in
      let (d, last, more) =
        has_more-after_pages ps c' on.origin silent.1 on.known on.going (omega (arith, on.few)) in
      (d, rw at last, more)
