-- ===== src/Common/Shuffles.antt =====
-- The order of strings, and sorting what came in another order.
use Prim.Native.Char.{code}
use Prim.Native.Nat.{ℕ, Ordering, compare as compare_ℕ}
use Prim.Native.String.compare
use Prim.Native.String.{String, compare, then as and_then, [] as str_nil, ◌∷◌ as str_cons}
use mathlib.Core.Bool.{Bool, true, false, ◌&&◌, ◌||◌}
use mathlib.Core.List.{List, [], ◌∷◌}
use mathlib.Core.Logic.{◌≢◌, ◌⊎◌, inl, inr}
use mathlib.Core.Path.{◌≡◌, refl, sym, ap, ◌∙◌}
use native.Mathlib.Omega.{arith}
use text.Mathlib.Text.{is_lt, is_eq}
use text.Mathlib.TextEquality.{eq_iff as str_eq_iff}
use stac_proxy.Common.Lists.{All}
use stac_proxy.Common.Sort.{flip, str_compare-flip, str_ltb, insert_by, sort_by}
use stac_proxy.Common.Tests.{ltb, ◌==◌}

is_lt_then :
    (m n : ℕ) (o : Ordering) → is_lt (and_then (compare_ℕ m n) o) ≡ (ltb m n || (m == n && is_lt o))
is_lt_then m n o = ground arith

str_ltb-cons :
    (c d : _) (s t : String)
    → str_ltb (str_cons c s) (str_cons d t)
      ≡ (ltb (code c) (code d) || (code c == code d && str_ltb s t))
str_ltb-cons c d s t = rw (compare.cons-cons c d s t) (is_lt_then (code c) (code d) (compare s t))

ltb_nil_absurd {ℓ} : {A : Type ℓ} (s : String) → str_ltb s "" ≡ true → A
ltb_nil_absurd str_nil h = absurd (ground arith)
ltb_nil_absurd (str_cons c s) h =
    absurd (let wrong = rw (compare.cons-nil c s) at h in ground arith)

trans_lem :
    (l m n : ℕ) (a b c : Bool)
    → (a ≡ true → b ≡ true → c ≡ true)
    → (ltb l m || (l == m && a)) ≡ true
    → (ltb m n || (m == n && b)) ≡ true
    → (ltb l n || (l == n && c)) ≡ true
trans_lem l m n a b c f h k = ground (arith, f)

pub str_ltb_trans : (s t u : String) → str_ltb s t ≡ true → str_ltb t u ≡ true → str_ltb s u ≡ true
str_ltb_trans str_nil str_nil u h k = k
str_ltb_trans str_nil (str_cons d t) str_nil h k = ltb_nil_absurd (str_cons d t) k
str_ltb_trans str_nil (str_cons d t) (str_cons e u) h k = rw (compare.nil-cons e u) refl
str_ltb_trans (str_cons c s) str_nil u h k = ltb_nil_absurd (str_cons c s) h
str_ltb_trans (str_cons c s) (str_cons d t) str_nil h k = ltb_nil_absurd (str_cons d t) k
str_ltb_trans (str_cons c s) (str_cons d t) (str_cons e u) h k =
    str_ltb-cons c e s u
    ∙ trans_lem (code c) (code d) (code e) (str_ltb s t) (str_ltb t u) (str_ltb s u)
        (str_ltb_trans s t u) (sym (str_ltb-cons c d s t) ∙ h) (sym (str_ltb-cons d e t u) ∙ k)

-- One list is the other in another order.
pub data Shuffled {ℓ} {A : Type ℓ} : List A → List A → Type ℓ where
  same_order : (xs : List A) → Shuffled xs xs
  under : (x : A) {xs ys : List A} → Shuffled xs ys → Shuffled (x ∷ xs) (x ∷ ys)
  swapped : (x y : A) (xs : List A) → Shuffled (x ∷ y ∷ xs) (y ∷ x ∷ xs)
  both : {xs ys zs : List A} → Shuffled xs ys → Shuffled ys zs → Shuffled xs zs

three_ways : (o : Ordering) → (is_lt o ≡ true) ⊎ ((is_lt (flip o) ≡ true) ⊎ (is_eq o ≡ true))
three_ways Ordering.lt = inl refl
three_ways Ordering.gt = inr (inl refl)
three_ways Ordering.eq = inr (inr refl)

-- Strings of which neither is smaller are the same.
pub str_ltb_total : (s t : String) → s ≢ t → (str_ltb s t ≡ true) ⊎ (str_ltb t s ≡ true)
str_ltb_total s t apart = elim (three_ways (compare s t)) [
  | inl below ↦ inl below
  | inr (inl above) ↦ inr (rw (str_compare-flip s t) above)
  | inr (inr equal) ↦ absurd (apart ((str_eq_iff s t).0 equal))
]

module _ {ℓ} {A : Type ℓ} (less : A → A → Bool) where
  -- One of the two is smaller.
  abbrev pub Apart : A → A → Type 0
  Apart x y = (less x y ≡ true) ⊎ (less y x ≡ true)

  -- No two elements are equal in the order.
  abbrev pub AllApart : List A → Type 0
  AllApart [] = Unit {0}
  AllApart (x ∷ xs) = All (Apart x) xs × AllApart xs

  module _ (asym : (x y : A) → less x y ≡ true → less y x ≡ false)
      (trans : (x y z : A) → less x y ≡ true → less y z ≡ true → less x z ≡ true) where
    swap_lem :
        (x y : A) (l : List A)
        → less x y ≡ true
        → insert_by less x (insert_by less y l) ≡ insert_by less y (insert_by less x l)
    unfolding insert_by
    swap_lem x y [] lt = ground (arith, asym x y)
    swap_lem x y (z ∷ zs) lt = ground (arith, asym x y, trans z x y, swap_lem x y zs lt)

    insert_by_comm :
        (x y : A) (l : List A)
        → Apart x y
        → insert_by less x (insert_by less y l) ≡ insert_by less y (insert_by less x l)
    insert_by_comm x y l (inl lt) = swap_lem x y l lt
    insert_by_comm x y l (inr gt) = sym (swap_lem y x l gt)

    Apart-sym : (x y : A) → Apart x y → Apart y x
    Apart-sym x y (inl lt) = inr lt
    Apart-sym x y (inr gt) = inl gt

    All-Shuffled {κ} : (P : A → Type κ) {xs ys : List A} → Shuffled xs ys → All P xs → All P ys
    All-Shuffled P (same_order xs) h = h
    All-Shuffled P (under x s) h = (h.0, All-Shuffled P s h.1)
    All-Shuffled P (swapped x y xs) h = (h.1.0, (h.0, h.1.1))
    All-Shuffled P (both s t) h = All-Shuffled P t (All-Shuffled P s h)

    AllApart-Shuffled : {xs ys : List A} → Shuffled xs ys → AllApart xs → AllApart ys
    AllApart-Shuffled (same_order xs) h = h
    AllApart-Shuffled (under x s) h = (All-Shuffled (Apart x) s h.0, AllApart-Shuffled s h.1)
    AllApart-Shuffled (swapped x y xs) h = ((Apart-sym x y h.0.0, h.1.0), (h.0.1, h.1.1))
    AllApart-Shuffled (both s t) h = AllApart-Shuffled t (AllApart-Shuffled s h)

    -- Elements that are told apart are sorted alike, in whatever order they came.
    pub sort_by-Shuffled :
        {xs ys : List A} → Shuffled xs ys → AllApart xs → sort_by less xs ≡ sort_by less ys
    unfolding sort_by
    sort_by-Shuffled (same_order xs) h = refl
    sort_by-Shuffled (under x s) h = ap (insert_by less x) (sort_by-Shuffled s h.1)
    sort_by-Shuffled (swapped x y xs) h = insert_by_comm x y (sort_by less xs) h.0.0
    sort_by-Shuffled (both s t) h =
        sort_by-Shuffled s h ∙ sort_by-Shuffled t (AllApart-Shuffled s h)
