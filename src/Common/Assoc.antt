-- ===== src/Common/Assoc.antt =====
-- Go maps with string keys as association lists. The order of the entries stands for one iteration
-- order of the map, so a statement about every list holds of every order.
use Prim.Native.String.{String}
use mathlib.Core.Path.{◌≡◌, refl}
use mathlib.Core.Logic.{◌≢◌}
use mathlib.Core.List.{List, [], ◌∷◌, map}
use mathlib.Core.Option.{Option, none, some}
use native.Mathlib.Omega.{arith}
use text.Mathlib.Text.{◌==◌ as str_eq}
use text.Mathlib.TextEquality.{eq_iff as str_eq_iff}
use stac_proxy.Common.Tests.{if◌then◌else◌}

module _ {ℓ} {V : Type ℓ} where
  abbrev pub keys : List (String × V) → List String
  keys = map (λ e. e.0)

  -- `v, ok := m[k]`
  unfoldable pub lookup : String → List (String × V) → Option V
  lookup k [] = none
  lookup k ((j, v) ∷ m) = if str_eq j k then some v else lookup k m

  -- `if v, ok := m[k]; ok { … }`: a change in place, and nothing for a missing key.
  unfoldable pub modify : String → (V → V) → List (String × V) → List (String × V)
  modify k f [] = []
  modify k f ((j, v) ∷ m) = if str_eq j k then (j, f v) ∷ m else (j, v) ∷ modify k f m

  -- `m[k] = f(m[k])`, where a missing entry is made from `d` first.
  unfoldable pub upsert : String → V → (V → V) → List (String × V) → List (String × V)
  upsert k d f [] = (k, f d) ∷ []
  upsert k d f ((j, v) ∷ m) = if str_eq j k then (j, f v) ∷ m else (j, v) ∷ upsert k d f m

  pub keys-modify : (k : String) (f : V → V) (m : List (String × V)) → keys (modify k f m) ≡ keys m
  unfolding modify
  keys-modify k f [] = refl
  keys-modify k f ((j, v) ∷ m) = ground (arith, keys-modify k f m)

  pub lookup-modify_self :
      (k : String) (f : V → V) (m : List (String × V)) (v : V)
      → lookup k m ≡ some v
      → lookup k (modify k f m) ≡ some (f v)
  unfolding lookup modify
  lookup-modify_self k f [] v h = cc
  lookup-modify_self k f ((j, w) ∷ m) v h = ground (arith, lookup-modify_self k f m v)

  pub lookup-modify_ne :
      (k q : String) (f : V → V) (m : List (String × V))
      → k ≢ q
      → lookup q (modify k f m) ≡ lookup q m
  unfolding lookup modify
  lookup-modify_ne k q f [] h = refl
  lookup-modify_ne k q f ((j, v) ∷ m) h =
      ground (arith, str_eq_iff j k, str_eq_iff j q, lookup-modify_ne k q f m h)

  pub lookup-upsert_self :
      (k : String) (d : V) (f : V → V) (m : List (String × V)) (v : V)
      → lookup k m ≡ some v
      → lookup k (upsert k d f m) ≡ some (f v)
  unfolding lookup upsert
  lookup-upsert_self k d f [] v h = cc
  lookup-upsert_self k d f ((j, w) ∷ m) v h = ground (arith, lookup-upsert_self k d f m v)

  pub lookup-upsert_ne :
      (k q : String) (d : V) (f : V → V) (m : List (String × V))
      → k ≢ q
      → lookup q (upsert k d f m) ≡ lookup q m
  unfolding lookup upsert
  lookup-upsert_ne k q d f [] h = ground (arith, str_eq_iff k q)
  lookup-upsert_ne k q d f ((j, v) ∷ m) h =
      ground (arith, str_eq_iff j k, str_eq_iff j q, lookup-upsert_ne k q d f m h)

  -- `delete(m, k)`
  unfoldable pub erase_key : String → List (String × V) → List (String × V)
  erase_key k [] = []
  erase_key k ((j, v) ∷ m) = let rest = erase_key k m in if str_eq j k then rest else (j, v) ∷ rest

  pub lookup-erase_key :
      (k q : String) (m : List (String × V))
      → lookup q (erase_key k m) ≡ (if str_eq k q then none else lookup q m)
  unfolding lookup erase_key
  lookup-erase_key k q [] = ground arith
  lookup-erase_key k q ((j, v) ∷ m) =
      ground (arith, str_eq_iff j k, str_eq_iff k q, str_eq_iff j q, lookup-erase_key k q m)

  pub lookup-upsert :
      (k q : String) (v : V) (m : List (String × V))
      → lookup q (upsert k v (λ old. v) m) ≡ (if str_eq k q then some v else lookup q m)
  unfolding lookup upsert
  lookup-upsert k q v [] = ground arith
  lookup-upsert k q v ((j, w) ∷ m) =
      ground (arith, str_eq_iff j k, str_eq_iff k q, str_eq_iff j q, lookup-upsert k q v m)
