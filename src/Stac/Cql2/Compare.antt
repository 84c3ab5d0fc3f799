-- ===== src/Stac/Cql2/Compare.antt =====
-- internal/stac/cql2_eval.go (compare, numericCmp, stringCmp, toFloat): comparisons of values.
use stac_proxy.Common.{
  String, Bool, true, false, ◌&&◌, ◌||◌, not, Option, none, some, str_eq, str_ltb, if◌then◌else◌,
}
use stac_proxy.Stac.Cql2.{
  Float64, Json, null, boolean, number, text, Operator, op_eq, op_neq, op_lt, op_lte, op_gt, op_gte,
  Library,
}

unfoldable pub string_cmp : Operator → String → String → Bool
string_cmp op_eq l r = str_eq l r
string_cmp op_neq l r = not (str_eq l r)
string_cmp op_lt l r = str_ltb l r
string_cmp op_lte l r = not (str_ltb r l)
string_cmp op_gt l r = str_ltb r l
string_cmp op_gte l r = not (str_ltb l r)
string_cmp _ l r = false

bool_cmp : Operator → Bool → Bool → Bool
bool_cmp op_eq true r = r
bool_cmp op_eq false r = not r
bool_cmp op_neq true r = not r
bool_cmp op_neq false r = r
bool_cmp _ l r = false

null_cmp : Operator → Bool → Bool
null_cmp op_eq both = both
null_cmp op_neq both = not both
null_cmp _ both = false

unfoldable pub is_nil : Json → Bool
is_nil null = true
is_nil _ = false

same_kind : Operator → Json → Json → Bool
same_kind o (text l) (text r) = string_cmp o l r
same_kind o (boolean l) (boolean r) = bool_cmp o l r
same_kind o _ _ = false

module _ {G : Type 0} (lib : Library G) where
  unfoldable pub numeric_cmp : Operator → Float64 → Float64 → Bool
  numeric_cmp op_eq l r = lib.float_eq l r
  numeric_cmp op_neq l r = not (lib.float_eq l r)
  numeric_cmp op_lt l r = lib.float_lt l r
  numeric_cmp op_lte l r = lib.float_lt l r || lib.float_eq l r
  numeric_cmp op_gt l r = lib.float_lt r l
  numeric_cmp op_gte l r = lib.float_lt r l || lib.float_eq l r
  numeric_cmp _ l r = false

  -- A string that parses as a number counts as one.
  unfoldable pub to_float : Json → Option Float64
  to_float (number f) = some f
  to_float (text s) = lib.parse_float s
  to_float _ = none

  number_or_kind : Operator → Option Float64 → Option Float64 → Json → Json → Bool
  number_or_kind o (some f) (some g) l r = numeric_cmp o f g
  number_or_kind o _ _ l r = same_kind o l r

  -- The error that `compare` could return is always nil.
  unfoldable pub compare : Operator → Json → Json → Bool
  unfolding bool_cmp null_cmp same_kind number_or_kind
  compare o l r =
      if is_nil l || is_nil r
      then null_cmp o (is_nil l && is_nil r)
      else number_or_kind o (to_float l) (to_float r) l r
