-- ===== src/Federation/Pagination/Stashes.antt =====
-- internal/federation/pagination.go (mergeResults, phase 5): the stashes after a page.
use stac_proxy.Common.{
  String, ◌≡◌, ◌≢◌, refl, ◌∙◌, ◌⊎◌, inl, inr, Option, none, some, List, [], ◌∷◌, arith, str_eq,
  str_eq_iff, lookup, lookup-modify_self, lookup-modify_ne, lookup-upsert_self, lookup-upsert_ne,
  All, All-map, Bool-cases,
}
use stac_proxy.Stac.Item.{Item, TimeFormat}
use stac_proxy.Federation.Cursor.{
  OriginCursor, FederatedCursor, get_origin_cursor, update_origin_state, apply_update,
  new_origin_cursor,
}
use stac_proxy.Federation.Pagination.{
  FetchResult, stash_of, stash_for, settle, settle_all, advance, update_of,
}

-- The map holds an entry for the origin.
abbrev pub IsKnown : FederatedCursor → String → Type 0
IsKnown c id = (o : OriginCursor) × (get_origin_cursor id c ≡ some o)

pub stash_of-some :
    (id : String) (c : FederatedCursor) (o : OriginCursor)
    → get_origin_cursor id c ≡ some o
    → stash_of id c ≡ o.stash
unfolding stash_of
stash_of-some id c o h = ground arith

stash_of-eq :
    (id : String) (c d : FederatedCursor)
    → get_origin_cursor id c ≡ get_origin_cursor id d
    → stash_of id c ≡ stash_of id d
unfolding stash_of
stash_of-eq id c d h = rw h

module _ (tf : TimeFormat) where
  advance-IsKnown :
      (id : String) (r : Option FetchResult) (c : FederatedCursor)
      → IsKnown c id
      → IsKnown (advance tf id r c) id
  unfolding advance get_origin_cursor update_origin_state
  advance-IsKnown id none c known = known
  advance-IsKnown id (some r) c (o, known) = (
    _,
    lookup-upsert_self id (new_origin_cursor id) (apply_update (update_of tf r)) c.origins o known,
  )

  advance_ne :
      (id q : String) (r : Option FetchResult) (c : FederatedCursor)
      → id ≢ q
      → get_origin_cursor q (advance tf id r c) ≡ get_origin_cursor q c
  unfolding advance get_origin_cursor update_origin_state
  advance_ne id q none c other = refl
  advance_ne id q (some r) c other =
      lookup-upsert_ne id q (new_origin_cursor id) (apply_update (update_of tf r)) c.origins other

module _ (tf : TimeFormat) (fresh : List (String × FetchResult)) (rest : List Item) where
  settle_self :
      (id : String) (c : FederatedCursor)
      → IsKnown c id
      → (o : OriginCursor) × (get_origin_cursor id (settle tf fresh rest id c) ≡ some o)
        × (o.stash ≡ stash_for id rest)
  unfolding settle get_origin_cursor
  settle_self id c known =
      let (o, there) = advance-IsKnown tf id (lookup id fresh) c known in
      (record o { stash = stash_for id rest }, lookup-modify_self id _ _ o there, refl)

  pub settle_ne :
      (id q : String) (c : FederatedCursor)
      → id ≢ q
      → get_origin_cursor q (settle tf fresh rest id c) ≡ get_origin_cursor q c
  unfolding settle get_origin_cursor
  settle_ne id q c other =
      lookup-modify_ne id q _ _ other ∙ advance_ne tf id q (lookup id fresh) c other

  -- Settling one origin gives it its share, and another one either its share too or what it had.
  settle-stash :
      (id q : String) (c : FederatedCursor)
      → IsKnown c q
      → IsKnown (settle tf fresh rest id c) q
        × ((stash_of q (settle tf fresh rest id c) ≡ stash_for q rest)
            ⊎ (stash_of q (settle tf fresh rest id c) ≡ stash_of q c))
  settle-stash id q c known = elim (Bool-cases (str_eq id q)) [
    | inl same ↦
        let e : id ≡ q = (str_eq_iff id q).0 same in
        let (o, there, share) = settle_self q c known in
        rw e ((o, there), inl (stash_of-some q _ o there ∙ share))
    | inr apart ↦
        let other : id ≢ q = λ e. cc ((str_eq_iff id q).1 e) in
        let kept = settle_ne id q c other in
        ((known.0, kept ∙ known.1), inr (stash_of-eq q _ c kept))
  ]

  settle_all-kept :
      (ids : List String) (q : String) (c : FederatedCursor)
      → IsKnown c q
      → stash_of q c ≡ stash_for q rest
      → stash_of q (settle_all tf fresh rest ids c) ≡ stash_for q rest
  unfolding settle_all
  settle_all-kept [] q c known done = done
  settle_all-kept (id ∷ ids) q c known done =
      let (known', cases) = settle-stash id q c known in
      elim cases [
        | inl share ↦ settle_all-kept ids q (settle tf fresh rest id c) known' share
        | inr kept ↦ settle_all-kept ids q (settle tf fresh rest id c) known' (kept ∙ done)
      ]

  -- Every settled origin ends with its share of the remainder.
  pub settle_all-stash :
      (ids : List String) (c : FederatedCursor)
      → All (IsKnown c) ids
      → All (λ q. stash_of q (settle_all tf fresh rest ids c) ≡ stash_for q rest) ids
  unfolding settle_all
  settle_all-stash [] c known = tt
  settle_all-stash (id ∷ ids) c known =
      let c' = settle tf fresh rest id c in
      let (o, there, share) = settle_self id c known.0 in
      (
        settle_all-kept ids id c' (o, there) (stash_of-some id c' o there ∙ share),
        settle_all-stash ids c'
            (All-map (IsKnown c) (IsKnown c') (λ q k. (settle-stash id q c k).0) ids known.1),
      )
