-- ===== src/Common/Names.antt =====
-- Go's `set[s]` for a set built from a slice of strings, as a search of the list.
use Prim.Native.String.{String}
use mathlib.Core.Bool.{Bool, true, false, ◌&&◌}
use mathlib.Core.List.{List, [], ◌∷◌}
use mathlib.Core.Path.{◌≡◌, refl}
use native.Mathlib.Omega.{arith}
use text.Mathlib.Text.{◌==◌ as str_eq}
use text.Mathlib.TextEquality.{eq_iff as str_eq_iff}
use stac_proxy.Common.Tests.{if◌then◌else◌, Bool-cases}
use mathlib.Core.Logic.{inl, inr}

unfoldable pub elem : String → List String → Bool
elem s [] = false
elem s (x ∷ xs) = if str_eq x s then true else elem s xs

-- The strings that pass a test, in their order.
unfoldable pub select_names : (String → Bool) → List String → List String
select_names t [] = []
select_names t (x ∷ xs) = if t x then x ∷ select_names t xs else select_names t xs

pub elem-select_names :
    (t : String → Bool) (s : String) (xs : List String)
    → elem s (select_names t xs) ≡ (elem s xs && t s)
unfolding elem select_names
elem-select_names t s [] = refl
elem-select_names t s (x ∷ xs) = elim (Bool-cases (str_eq x s)) [
  | inl same ↦
      let here : x ≡ s = (str_eq_iff x s).0 same in ground (arith, elem-select_names t s xs)
  | inr apart ↦ ground (arith, elem-select_names t s xs)
]
