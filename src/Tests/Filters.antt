-- ===== src/Tests/Filters.antt =====
-- Runs of internal/stac/cql2_eval.go.
use stac_proxy.Common.{
  ℕ, ◌≡◌, ◌↔◌, refl, String, true, Option, none, some, [], ◌∷◌, ltb, ◌==◌, str_eq, if◌then◌else◌,
}
use stac_proxy.Stac.Cql2.{
  text, object, Fields, field, no_field, op_and, op_or, op_in, op_eq, op_other, Node, string_lit,
  property_ref, array_lit, op, nil, cons, Library, lookup_property, split_name, field_of, walk_path,
}
use stac_proxy.Stac.Cql2.Compare.{compare, is_nil, to_float, numeric_cmp}
use stac_proxy.Stac.Cql2.Eval.{eval, eval_args, eval_cql2}
use stac_proxy.Stac.Cql2.Logic.{AllPass, equalities, eval_cql2-and, eval-in}

-- Floats by number, of which two texts are read, and no geometries.
read_float : String → Option ℕ
read_float s = if str_eq s "10" then some 10 else (if str_eq s "1e1" then some 10 else none)

abbrev library : Library (Unit {0})
library = record {
  parse_float = read_float;
  float_eq = ◌==◌;
  float_lt = ltb;
  parse_item = λ v. none;
  parse_literal = λ s. none;
  parse_polygon = λ ring. none;
  intersects = λ g h. true;
}

abbrev item : Fields
item = field "id" (text "x") (
    field "properties" (object (field "platform" (text "a") (field "v.w" (text "z") no_field)))
      (field "deep" (object (field "down" (text "here") no_field)) no_field))

-- A name with a dot is a path from the top; it never finds a property whose own name has the dot.
lookup_property-path : lookup_property item "deep.down" ≡ text "here"
unfolding lookup_property split_name field_of walk_path
lookup_property-path = refl

abbrev on_a : Node
on_a = op op_eq (cons (property_ref "platform") (cons (string_lit "a") nil))

abbrev strange : Node
strange = op op_other nil

-- Two different texts are equal when both read as the same number.
compare_texts : compare library op_eq (text "10") (text "1e1") ≡ true
unfolding compare is_nil to_float numeric_cmp read_float
compare_texts = refl

eval_cql2-and_example :
    (eval_cql2 library (op op_and (cons on_a (cons strange nil))) item ≡ some true)
    ↔ AllPass library item (cons on_a (cons strange nil))
eval_cql2-and_example = eval_cql2-and library item (cons on_a (cons strange nil))

eval-in_example :
    eval library item (
      op op_in (
        cons
          (property_ref "platform")
          (cons (array_lit (cons (string_lit "b") (cons (string_lit "a") nil))) nil)))
    ≡ eval library item (
        op op_or (
          equalities (property_ref "platform") (cons (string_lit "b") (cons (string_lit "a") nil))))
unfolding eval eval_args lookup_property split_name field_of walk_path
eval-in_example =
    eval-in library item (property_ref "platform") (text "a")
      (cons (string_lit "b") (cons (string_lit "a") nil)) (text "b" ∷ text "a" ∷ []) refl refl
