-- ===== src/Federation/LinkHeader.antt =====
-- internal/federation/pageadapter/link_header.go: the next link of a response's Link headers. Unicode
-- case folding is an argument.
use Prim.Native.Char.{Char, code}
use Prim.Native.String.{[] as str_nil, ◌∷◌ as str_cons, ◌++◌ as str_append}
use text.Mathlib.Text.{starts_with}
use stac_proxy.Common.{
  ℕ, zero, suc, String, Bool, true, false, ◌&&◌, not, Option, none, some, List, [], ◌∷◌, ◌==◌,
  str_eq, if◌then◌else◌, is_space, trim_space, split_at, start_with, select_names,
}

-- One angle bracket more, or one less if any is open.
unfoldable pub depth_after : ℕ → ℕ → ℕ
depth_after c zero = if c == 60 then 1 else 0
depth_after c (suc d) = if c == 60 then suc (suc d) else (if c == 62 then d else suc d)

-- The loop of splitLinkValues, with the depth and the buffer.
unfoldable pub split_links : ℕ → String → String → List String
unfolding depth_after trim_space
split_links depth buf str_nil = if str_eq buf "" then [] else trim_space buf ∷ []
split_links depth buf (str_cons c s) = elim (code c == 44 && depth == 0) [
  | true ↦ trim_space buf ∷ split_links depth "" s
  | false ↦ split_links (depth_after (code c) depth) (str_append buf (str_cons c "")) s
]

unfoldable pub split_link_values : String → List String
unfolding split_links
split_link_values s = split_links 0 "" s

unfoldable pub put_first : Char → Option (String × String) → Option (String × String)
put_first c none = none
put_first c (some (before, after)) = some (str_cons c before, after)

-- What stands before and after the first character of a code.
unfoldable pub cut_at : ℕ → String → Option (String × String)
unfolding put_first
cut_at sep str_nil = none
cut_at sep (str_cons c s) = if code c == sep then some ("", s) else put_first c (cut_at sep s)

unfoldable pub trim_quotes_left : String → String
trim_quotes_left str_nil = ""
trim_quotes_left (str_cons c s) = if code c == 34 then trim_quotes_left s else str_cons c s

unfoldable pub only_quotes : String → Bool
only_quotes str_nil = true
only_quotes (str_cons c s) = code c == 34 && only_quotes s

unfoldable pub trim_quotes_right : String → String
unfolding only_quotes
trim_quotes_right str_nil = ""
trim_quotes_right (str_cons c s) =
    if code c == 34 && only_quotes s then "" else str_cons c (trim_quotes_right s)

-- The value of the first parameter whose name begins with "rel".
unfoldable pub rel_of : List String → String
unfolding cut_at trim_quotes_left trim_quotes_right trim_space
rel_of [] = ""
rel_of (p ∷ ps) =
    let rest = rel_of ps in
    if not (starts_with (trim_space p) "rel") then rest else elim (cut_at 61 (trim_space p)) [
      | none ↦ rest
      | some (name, v) ↦ trim_quotes_right (trim_quotes_left (trim_space v))
    ]

unfoldable pub after_bracket : Option (String × String) → String × String
unfolding rel_of split_at
after_bracket none = ("", "")
after_bracket (some (href, rest)) = (href, rel_of (split_at 59 rest))

unfoldable pub parse_trimmed : String → String × String
unfolding after_bracket cut_at
parse_trimmed str_nil = ("", "")
parse_trimmed (str_cons c s) = if code c == 60 then after_bracket (cut_at 62 s) else ("", "")

-- The href and the rel of one link.
unfoldable pub parse_link_value : String → String × String
unfolding parse_trimmed trim_space
parse_link_value link = parse_trimmed (trim_space link)

unfoldable pub split_spaces : String → List String
unfolding is_space start_with
split_spaces str_nil = "" ∷ []
split_spaces (str_cons c s) =
    if is_space (code c) then "" ∷ split_spaces s else start_with c (split_spaces s)

-- `strings.Fields`
unfoldable pub words_of : String → List String
unfolding split_spaces select_names
words_of s = select_names (λ w. not (str_eq w "")) (split_spaces s)

module _ (equal_fold : String → String → Bool) where
  unfoldable pub has_token : String → List String → Bool
  has_token target [] = false
  has_token target (w ∷ ws) = if equal_fold w target then true else has_token target ws

  unfoldable pub contains_rel : String → String → Bool
  unfolding has_token words_of
  contains_rel rel_value target = has_token target (words_of rel_value)

  -- The href of the first link that is a next link, or "".
  unfoldable pub next_among : List String → String
  unfolding parse_link_value contains_rel
  next_among [] = ""
  next_among (l ∷ ls) =
      let rest = next_among ls in
      let (href, rel) = parse_link_value l in
      if not (str_eq href "") && contains_rel rel "next" then href else rest

  unfoldable pub parse_next_from_link_header : List String → String
  unfolding next_among split_link_values
  parse_next_from_link_header [] = ""
  parse_next_from_link_header (header ∷ headers) =
      let rest = parse_next_from_link_header headers in
      let href = next_among (split_link_values header) in if str_eq href "" then rest else href
