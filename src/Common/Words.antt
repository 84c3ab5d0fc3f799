-- ===== src/Common/Words.antt =====
-- Package strings on the characters of a text: Split at one character, TrimSpace.
use Prim.Native.Char.{Char, code}
use Prim.Native.Nat.{ℕ}
use Prim.Native.String.{String, [] as str_nil, ◌∷◌ as str_cons}
use mathlib.Core.Bool.{Bool, true, false, ◌&&◌, ◌||◌}
use mathlib.Core.List.{List, [], ◌∷◌}
use mathlib.Core.Option.{Option, none, some}
use stac_proxy.Common.Tests.{leb, ◌==◌, if◌then◌else◌}

-- `unicode.IsSpace`
unfoldable pub is_space : ℕ → Bool
is_space c =
    (leb 9 c && leb c 13)
    || (c == 32
        || (c == 133
            || (c == 160
                || (c == 5760
                    || ((leb 8192 c && leb c 8202)
                        || (c == 8232
                            || (c == 8233 || (c == 8239 || (c == 8287 || c == 12288)))))))))

unfoldable pub trim_left : String → String
unfolding is_space
trim_left str_nil = ""
trim_left (str_cons c s) = if is_space (code c) then trim_left s else str_cons c s

unfoldable pub is_blank : String → Bool
unfolding is_space
is_blank str_nil = true
is_blank (str_cons c s) = is_space (code c) && is_blank s

unfoldable pub trim_right : String → String
unfolding is_space is_blank
trim_right str_nil = ""
trim_right (str_cons c s) =
    if is_space (code c) && is_blank s then "" else str_cons c (trim_right s)

-- `strings.TrimSpace`
unfoldable pub trim_space : String → String
unfolding trim_left trim_right
trim_space s = trim_right (trim_left s)

unfoldable pub start_with : Char → List String → List String
start_with c [] = []
start_with c (s ∷ ss) = str_cons c s ∷ ss

-- `strings.Split` at the character of a code.
unfoldable pub split_at : ℕ → String → List String
unfolding start_with
split_at sep str_nil = "" ∷ []
split_at sep (str_cons c s) =
    if code c == sep then "" ∷ split_at sep s else start_with c (split_at sep s)

-- The rest of a text after a prefix, if it has it.
unfoldable pub cut_prefix : String → String → Option String
cut_prefix str_nil s = some s
cut_prefix (str_cons c p) str_nil = none
cut_prefix (str_cons c p) (str_cons d s) = if code c == code d then cut_prefix p s else none

-- `strings.HasPrefix(s, p)`
unfoldable pub has_prefix : String → String → Bool
unfolding cut_prefix
has_prefix s p = elim (cut_prefix p s) [ none ↦ false | some rest ↦ true ]

-- `strings.TrimPrefix(s, p)`
unfoldable pub trim_prefix : String → String → String
unfolding cut_prefix
trim_prefix s p = elim (cut_prefix p s) [ none ↦ s | some rest ↦ rest ]

unfoldable pub prepend : Char → Option (String × String) → Option (String × String)
prepend c none = none
prepend c (some (a, b)) = some (str_cons c a, b)

-- The texts before and after the first character of a code, if there is one: `strings.Cut`.
unfoldable pub cut_once : ℕ → String → Option (String × String)
unfolding prepend
cut_once sep str_nil = none
cut_once sep (str_cons c s) = if code c == sep then some ("", s) else prepend c (cut_once sep s)
