-- ===== src/Federation/Pagination/Shares.antt =====
-- internal/federation/pagination.go (mergeResults, phase 4): the remainder divided by origin.
use mathlib.Core.List.{Perm, perm_middle}
use mathlib.Core.List.Perm
use stac_proxy.Common.{
  ℕ, suc, String, true, false, ◌≡◌, ◌≢◌, refl, List, [], ◌∷◌, ◌++◌, arith, str_eq, str_eq_iff,
  if◌then◌else◌, All, Bool-cases, inl, inr,
}
use stac_proxy.Stac.Item.{Item, item_origin_id}
use stac_proxy.Federation.Pagination.{stash_for}

-- How often a name occurs.
unfoldable pub count_id : String → List String → ℕ
count_id k [] = 0
count_id k (x ∷ xs) = if str_eq x k then suc (count_id k xs) else count_id k xs

-- The shares of the origins one after another.
unfoldable pub shares : List String → List Item → List Item
shares [] xs = []
shares (id ∷ ids) xs = stash_for id xs ++ shares ids xs

-- The item names one of the origins, which is listed once.
abbrev pub HasHome : List String → Item → Type 0
HasHome ids x = (item_origin_id x ≢ "") × (count_id (item_origin_id x) ids ≡ 1)

shares-nil : (ids : List String) → shares ids [] ≡ []
unfolding shares stash_for
shares-nil [] = refl
shares-nil (id ∷ ids) = shares-nil ids

shares-skip :
    (ids : List String) (x : Item) (xs : List Item)
    → count_id (item_origin_id x) ids ≡ 0
    → shares ids (x ∷ xs) ≡ shares ids xs
unfolding shares stash_for count_id
shares-skip [] x xs h = refl
shares-skip (id ∷ ids) x xs h = ground (
  arith,
  str_eq_iff id (item_origin_id x),
  str_eq_iff (item_origin_id x) id,
  shares-skip ids x xs,
)

stash_for-home :
    (id : String) (x : Item) (xs : List Item)
    → item_origin_id x ≢ ""
    → str_eq (item_origin_id x) id ≡ true
    → stash_for id (x ∷ xs) ≡ x ∷ stash_for id xs
unfolding stash_for
stash_for-home id x xs named h = ground (arith, str_eq_iff (item_origin_id x) "")

stash_for-away :
    (id : String) (x : Item) (xs : List Item)
    → str_eq (item_origin_id x) id ≡ false
    → stash_for id (x ∷ xs) ≡ stash_for id xs
unfolding stash_for
stash_for-away id x xs h = ground arith

shares-home :
    (ids : List String) (x : Item) (xs : List Item)
    → HasHome ids x
    → Perm (shares ids (x ∷ xs)) (x ∷ shares ids xs)
unfolding shares count_id
shares-home [] x xs home = absurd (omega arith)
shares-home (id ∷ ids) x xs home = elim (Bool-cases (str_eq (item_origin_id x) id)) [
  | inl here ↦
      let none_left : count_id (item_origin_id x) ids ≡ 0 =
        ground (arith, str_eq_iff id (item_origin_id x), str_eq_iff (item_origin_id x) id) in
      rw (stash_for-home id x xs home.0 here, shares-skip ids x xs none_left)
        (Perm.refl (x ∷ (stash_for id xs ++ shares ids xs)))
  | inr away ↦
      let once : count_id (item_origin_id x) ids ≡ 1 =
        ground (arith, str_eq_iff id (item_origin_id x), str_eq_iff (item_origin_id x) id) in
      rw (stash_for-away id x xs away) (
        Perm.trans (Perm.append_left (stash_for id xs) (shares-home ids x xs (home.0, once)))
          (perm_middle (stash_for id xs) (shares ids xs)))
]

-- Items that all name one of the origins are divided among the shares, each into exactly one.
pub shares-perm :
    (ids : List String) (xs : List Item) → All (HasHome ids) xs → Perm (shares ids xs) xs
shares-perm ids [] h = rw (shares-nil ids) (Perm.refl [])
shares-perm ids (x ∷ xs) h =
    Perm.trans (shares-home ids x xs h.0) (Perm.cons x (shares-perm ids xs h.1))
