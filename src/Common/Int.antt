-- ===== src/Common/Int.antt =====
-- Signed integers over the native numbers: what a Go `int` or `time.Duration` of the
-- configuration holds before its defaults are filled in, and their order.
use Prim.Native.Nat.{ℕ, zero, suc, ◌-◌}
use mathlib.Core.Bool.{Bool, true, false, not}
use mathlib.Core.Logic.{◌⊎◌, inl, inr}
use mathlib.Core.Path.{◌≡◌, refl}
use native.Mathlib.Omega.{arith}
use stac_proxy.Common.Tests.{ltb, ◌==◌, if◌then◌else◌}

-- `negsuc n` is -(n + 1).
pub data ℤ : Type 0 where
  pos : ℕ → ℤ
  negsuc : ℕ → ℤ

-- `if v <= 0 { v = d }`: the value if it is positive, and the default otherwise.
abbrev pub positive_or : ℕ → ℤ → ℕ
positive_or d (pos zero) = d
positive_or d (pos (suc n)) = suc n
positive_or d (negsuc n) = d

-- Go's `<` and `==` on ints.
unfoldable pub int_ltb : ℤ → ℤ → Bool
int_ltb (ℤ.pos m) (ℤ.pos n) = ltb m n
int_ltb (ℤ.pos m) (ℤ.negsuc n) = false
int_ltb (ℤ.negsuc m) (ℤ.pos n) = true
int_ltb (ℤ.negsuc m) (ℤ.negsuc n) = ltb n m

unfoldable pub int_eqb : ℤ → ℤ → Bool
int_eqb (ℤ.pos m) (ℤ.pos n) = m == n
int_eqb (ℤ.negsuc m) (ℤ.negsuc n) = m == n
int_eqb _ _ = false

-- A lexicographic order over ints: by the int, and by a second test where they are the same.
unfoldable pub int_then : ℤ → ℤ → Bool → Bool
unfolding int_ltb int_eqb
int_then m n b = if not (int_eqb m n) then int_ltb m n else b

pub int_then_asym :
    (m n : ℤ) (a b : Bool) → (a ≡ true → b ≡ false) → int_then m n a ≡ true → int_then n m b ≡ false
unfolding int_then
int_then_asym (ℤ.pos m) (ℤ.pos n) a b f h = ground (arith, f)
int_then_asym (ℤ.pos m) (ℤ.negsuc n) a b f h = absurd (ground arith)
int_then_asym (ℤ.negsuc m) (ℤ.pos n) a b f h = refl
int_then_asym (ℤ.negsuc m) (ℤ.negsuc n) a b f h = ground (arith, f)

pub int_then_trans :
    (l m n : ℤ) (a b c : Bool)
    → (a ≡ true → b ≡ true → c ≡ true)
    → int_then l m a ≡ true
    → int_then m n b ≡ true
    → int_then l n c ≡ true
unfolding int_then
int_then_trans (ℤ.pos l) (ℤ.pos m) (ℤ.pos n) a b c f h k = ground (arith, f)
int_then_trans (ℤ.pos l) (ℤ.pos m) (ℤ.negsuc n) a b c f h k = absurd (ground arith)
int_then_trans (ℤ.pos l) (ℤ.negsuc m) n a b c f h k = absurd (ground arith)
int_then_trans (ℤ.negsuc l) (ℤ.pos m) (ℤ.pos n) a b c f h k = refl
int_then_trans (ℤ.negsuc l) (ℤ.pos m) (ℤ.negsuc n) a b c f h k = absurd (ground arith)
int_then_trans (ℤ.negsuc l) (ℤ.negsuc m) (ℤ.pos n) a b c f h k = refl
int_then_trans (ℤ.negsuc l) (ℤ.negsuc m) (ℤ.negsuc n) a b c f h k = ground (arith, f)

-- One of two ints is smaller, or the second tests decide.
pub int_then_total :
    (m n : ℤ) (a b : Bool)
    → (a ≡ true) ⊎ (b ≡ true)
    → (int_then m n a ≡ true) ⊎ (int_then n m b ≡ true)
unfolding int_then
int_then_total (ℤ.pos m) (ℤ.pos n) a b h = ground arith
int_then_total (ℤ.pos m) (ℤ.negsuc n) a b h = inr refl
int_then_total (ℤ.negsuc m) (ℤ.pos n) a b h = inl refl
int_then_total (ℤ.negsuc m) (ℤ.negsuc n) a b h = ground arith

-- `a - b`
unfoldable pub int_of_diff : ℕ → ℕ → ℤ
int_of_diff a b = if ltb a b then ℤ.negsuc (b - a - 1) else ℤ.pos (a - b)
