-- ===== src/Federation/Cursor/Sessions.antt =====
-- internal/federation/cursor.go (HasMore, ActiveOrigins, MarkError, Clone): when a session ends.
use stac_proxy.Common.{
  ℕ, zero, suc, String, true, false, not, ◌≡◌, refl, ◌∙◌, some, List, [], ◌∷◌, map, leb, arith,
  is_empty, lookup, insert_by, sort_by, str_ltb,
}
use stac_proxy.Federation.Cursor.{
  OriginCursor, FederatedCursor, is_retired, origin_has_more, any_has_more, has_more, active_of,
  active_origins, fail_origin, clone_origin,
}

insert_by_full : (x : String) (xs : List String) → is_empty (insert_by str_ltb x xs) ≡ false
unfolding insert_by
insert_by_full x [] = refl
insert_by_full x (y ∷ ys) = ground arith

sort_by_empty : (xs : List String) → is_empty (sort_by str_ltb xs) ≡ is_empty xs
unfolding sort_by
sort_by_empty [] = refl
sort_by_empty (x ∷ xs) = insert_by_full x (sort_by str_ltb xs)

active_of_empty : (m : List (String × OriginCursor)) → is_empty (active_of m) ≡ not (any_has_more m)
unfolding active_of any_has_more
active_of_empty [] = refl
active_of_empty ((id, o) ∷ m) = ground (arith, active_of_empty m)

-- A session goes on exactly as long as an origin is left to work on.
pub active_origins-has_more : (c : FederatedCursor) → is_empty (active_origins c) ≡ not (has_more c)
unfolding active_origins has_more
active_origins-has_more c = sort_by_empty (active_of c.origins) ∙ active_of_empty c.origins

-- n failures in a row, with no page between them.
unfoldable pub fail_times : ℕ → OriginCursor → OriginCursor
fail_times zero o = o
fail_times (suc n) o = fail_origin (fail_times n o)

fail_times-count :
    (n : ℕ) (o : OriginCursor) → o.error_count ≡ 0 → (fail_times (suc n) o).error_count ≡ suc n
unfolding fail_times fail_origin
fail_times-count zero o h = omega (arith, h)
fail_times-count (suc n) o h = omega (arith, fail_times-count n o h)

-- Within one page, an origin without failures is retired by its third failure and not before.
pub is_retired-fail_times :
    (n : ℕ) (o : OriginCursor)
    → o.error_count ≡ 0
    → is_retired (fail_times (suc n) o) ≡ leb 3 (suc n)
unfolding is_retired fail_times fail_origin
is_retired-fail_times n o h = ground (arith, fail_times-count n o h)

pub lookup-clone :
    (id : String) (m : List (String × OriginCursor)) (o : OriginCursor)
    → lookup id m ≡ some o
    → lookup id (map (λ e. (e.0, clone_origin e.1)) m) ≡ some (clone_origin o)
unfolding lookup
lookup-clone id [] o h = cc
lookup-clone id ((j, p) ∷ m) o h = ground (arith, lookup-clone id m o)

pub any_has_more-lookup :
    (id : String) (m : List (String × OriginCursor)) (o : OriginCursor)
    → lookup id m ≡ some o
    → origin_has_more o ≡ true
    → any_has_more m ≡ true
unfolding any_has_more lookup
any_has_more-lookup id [] o h e = cc
any_has_more-lookup id ((j, p) ∷ m) o h e = ground (arith, any_has_more-lookup id m o)
