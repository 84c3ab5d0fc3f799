-- ===== src/Common/Sort.antt =====
-- Go's `sort.SliceStable` and `sort.Strings` as a stable insertion sort by a `less` function, and
-- the order of strings.
use Prim.Native.Char.{code}
use Prim.Native.Nat.{ℕ, Ordering, compare as compare_ℕ}
use Prim.Native.String.compare
use Prim.Native.String.{String, compare, then as and_then, [] as str_nil, ◌∷◌ as str_cons}
use mathlib.Core.Bool.{Bool, true, false}
use mathlib.Core.List.{List, [], ◌∷◌, Perm}
use mathlib.Core.List.Perm
use mathlib.Core.Path.{◌≡◌, refl}
use native.Mathlib.Omega.{arith}
use text.Mathlib.Text.{is_lt}
use stac_proxy.Common.Tests.{if◌then◌else◌, Bool-cases}
use mathlib.Core.Logic.{inl, inr}

abbrev pub str_ltb : String → String → Bool
str_ltb s t = is_lt (compare s t)

module _ {ℓ} {A : Type ℓ} (less : A → A → Bool) where
  -- Before the first element that is not smaller: equal elements keep their order.
  unfoldable pub insert_by : A → List A → List A
  insert_by x [] = x ∷ []
  insert_by x (y ∷ ys) = if less y x then y ∷ insert_by x ys else x ∷ y ∷ ys

  unfoldable pub sort_by : List A → List A
  unfolding insert_by
  sort_by [] = []
  sort_by (x ∷ xs) = insert_by x (sort_by xs)

  insert_by-perm : (x : A) (ys : List A) → Perm (insert_by x ys) (x ∷ ys)
  unfolding insert_by
  insert_by-perm x [] = Perm.refl (x ∷ [])
  insert_by-perm x (y ∷ ys) = elim (Bool-cases (less y x)) [
    | inl lt ↦ rw lt (Perm.trans (Perm.cons y (insert_by-perm x ys)) (Perm.swap x y ys))
    | inr ge ↦ rw ge (Perm.refl (x ∷ y ∷ ys))
  ]

  pub sort_by-perm : (xs : List A) → Perm (sort_by xs) xs
  unfolding sort_by
  sort_by-perm [] = Perm.refl []
  sort_by-perm (x ∷ xs) = Perm.trans (insert_by-perm x (sort_by xs)) (Perm.cons x (sort_by-perm xs))

  -- No element is smaller than the one before it.
  abbrev pub IsOrdered : List A → Type 0
  IsOrdered [] = Unit {0}
  IsOrdered (x ∷ []) = Unit {0}
  IsOrdered (x ∷ y ∷ ys) = (less y x ≡ false) × IsOrdered (y ∷ ys)

  insert_by-IsOrdered :
      ((x y : A) → less x y ≡ true → less y x ≡ false)
      → (x : A) (ys : List A) → IsOrdered ys
      → IsOrdered (insert_by x ys)
  unfolding insert_by
  insert_by-IsOrdered asym x [] h = tt
  insert_by-IsOrdered asym x (y ∷ []) h = ground (arith, asym y x)
  insert_by-IsOrdered asym x (y ∷ z ∷ zs) h =
      ground (arith, asym y x, insert_by-IsOrdered asym x (z ∷ zs) h.1)

  -- By an asymmetric order the result is sorted.
  pub sort_by-IsOrdered :
      ((x y : A) → less x y ≡ true → less y x ≡ false) → (xs : List A) → IsOrdered (sort_by xs)
  unfolding sort_by
  sort_by-IsOrdered asym [] = tt
  sort_by-IsOrdered asym (x ∷ xs) =
      insert_by-IsOrdered asym x (sort_by xs) (sort_by-IsOrdered asym xs)

abbrev pub flip : Ordering → Ordering
flip Ordering.lt = Ordering.gt
flip Ordering.eq = Ordering.eq
flip Ordering.gt = Ordering.lt

flip-compare : (m n : ℕ) → compare_ℕ n m ≡ flip (compare_ℕ m n)
flip-compare m n = ground arith

and_then-flip : (o r : Ordering) → and_then (flip o) (flip r) ≡ flip (and_then o r)
and_then-flip Ordering.lt r = refl
and_then-flip Ordering.eq r = refl
and_then-flip Ordering.gt r = refl

pub str_compare-flip : (s t : String) → compare t s ≡ flip (compare s t)
str_compare-flip str_nil str_nil = refl
str_compare-flip str_nil (str_cons d t) = rw (compare.nil-cons d t, compare.cons-nil d t) refl
str_compare-flip (str_cons c s) str_nil = rw (compare.nil-cons c s, compare.cons-nil c s) refl
str_compare-flip (str_cons c s) (str_cons d t) =
    rw
      (
        compare.cons-cons c d s t,
        compare.cons-cons d c t s,
        flip-compare (code c) (code d),
        str_compare-flip s t,
      )
      (and_then-flip (compare_ℕ (code c) (code d)) (compare s t))

lt_flip : (o : Ordering) → is_lt o ≡ true → is_lt (flip o) ≡ false
lt_flip Ordering.lt h = refl
lt_flip Ordering.eq h = refl
lt_flip Ordering.gt h = absurd (ground arith)

pub str_ltb_asym : (s t : String) → str_ltb s t ≡ true → str_ltb t s ≡ false
str_ltb_asym s t h = rw (str_compare-flip s t) (lt_flip (compare s t) h)
