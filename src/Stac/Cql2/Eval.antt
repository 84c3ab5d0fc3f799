-- ===== src/Stac/Cql2/Eval.antt =====
-- internal/stac/cql2_eval.go (EvalCQL2, eval, evalOp, evalSIntersects): the evaluator. Evaluation has
-- no effects, so the answers of an operator's arguments are at hand as a list, of which the operator
-- reads as much as the loop of the source does.
use stac_proxy.Common.{
  String, Bool, true, false, not, Option, none, some, List, [], ◌∷◌, if◌then◌else◌,
}
use stac_proxy.Stac.Cql2.{
  Float64, Json, null, boolean, number, text, array, Jsons, empty, more, Fields, Operator, op_and,
  op_or, op_not, op_eq, op_in, op_is_null, op_s_intersects, op_other, Node, bool_lit, num_lit,
  string_lit, null_lit, property_ref, array_lit, op, geom_lit, bbox_lit, other, Nodes, nil, cons,
  Library, EvalError, unsupported_node, malformed, Answer, value, failed, lookup_property,
}
use stac_proxy.Stac.Cql2.Compare.{is_nil, compare}

-- A node's answer as a Boolean, or an error.
unfoldable pub with_bool : Answer → (Bool → Answer) → Answer
with_bool (value (boolean b)) k = k b
with_bool (value _) k = failed malformed
with_bool (failed e) k = failed e

unfoldable pub and_all : List Answer → Answer
unfolding with_bool
and_all [] = value (boolean true)
and_all (a ∷ as') = with_bool a (λ b. if b then and_all as' else value (boolean false))

unfoldable pub or_all : List Answer → Answer
unfolding with_bool
or_all [] = value (boolean false)
or_all (a ∷ as') = with_bool a (λ b. if b then value (boolean true) else or_all as')

unfoldable pub not_one : List Answer → Answer
unfolding with_bool
not_one (a ∷ []) = with_bool a (λ b. value (boolean (not b)))
not_one _ = failed malformed

unfoldable pub is_null_one : List Answer → Answer
is_null_one (value v ∷ []) = value (boolean (is_nil v))
is_null_one (failed e ∷ []) = failed e
is_null_one _ = failed malformed

-- literalToGeoJSON and its parse: a box is a ring of five points, from its first two axes.
box_ring : Float64 → Float64 → Float64 → Float64 → List (Float64 × Float64)
box_ring min_x min_y max_x max_y =
    (min_x, min_y) ∷ (max_x, min_y) ∷ (max_x, max_y) ∷ (min_x, max_y) ∷ (min_x, min_y) ∷ []

number_of : Option Float64 → Answer
number_of (some f) = value (number f)
number_of none = failed malformed

pub data Collected : Type 0 where
  all_of : Jsons → Collected
  stopped : EvalError → Collected

unfoldable pub add_value : Json → Collected → Collected
add_value v (all_of vs) = all_of (more v vs)
add_value v (stopped e) = stopped e

unfoldable pub collect : List Answer → Collected
collect [] = all_of empty
collect (value v ∷ as') = add_value v (collect as')
collect (failed e ∷ as') = stopped e

unfoldable pub array_of : Collected → Answer
array_of (all_of vs) = value (array vs)
array_of (stopped e) = failed e

unfoldable pub verdict : Answer → Option Bool
verdict (value (boolean b)) = some b
verdict _ = none

module _ {G : Type 0} (lib : Library G) where
  unfoldable pub compare_two : Operator → List Answer → Answer
  compare_two o (value l ∷ value r ∷ []) = value (boolean (compare lib o l r))
  compare_two o (failed e ∷ b ∷ []) = failed e
  compare_two o (value l ∷ failed e ∷ []) = failed e
  compare_two o _ = failed malformed

  unfoldable pub match_any : Json → Jsons → Bool
  match_any needle empty = false
  match_any needle (more v vs) = if compare lib op_eq needle v then true else match_any needle vs

  in_array : Json → Json → Answer
  in_array needle (array vs) = value (boolean (match_any needle vs))
  in_array needle _ = failed malformed

  unfoldable pub in_two : List Answer → Answer
  unfolding in_array
  in_two (value needle ∷ value hay ∷ []) = in_array needle hay
  in_two (failed e ∷ b ∷ []) = failed e
  in_two (value l ∷ failed e ∷ []) = failed e
  in_two _ = failed malformed

  unfoldable pub literal_geometry : Node → Option G
  unfolding box_ring
  literal_geometry (geom_lit g) = lib.parse_literal g
  literal_geometry (bbox_lit (a ∷ b ∷ c ∷ d ∷ [])) = lib.parse_polygon (box_ring a b c d)
  literal_geometry (bbox_lit (a ∷ b ∷ z ∷ c ∷ d ∷ w ∷ [])) = lib.parse_polygon (box_ring a b c d)
  literal_geometry _ = none

  meet : Option G → Option G → Bool
  meet (some g) (some h) = lib.intersects g h
  meet _ _ = false

  unfoldable pub intersects_at : Fields → String → Node → Answer
  unfolding meet
  intersects_at item name lit =
      let v = lookup_property item name in
      if is_nil v
      then value (boolean false)
      else value (boolean (meet (lib.parse_item v) (literal_geometry lit)))

  -- One argument is a property, the other a literal, in either order.
  unfoldable pub eval_s_intersects : Fields → Nodes → Answer
  eval_s_intersects item (cons (property_ref name) (cons (geom_lit g) nil)) =
      intersects_at item name (geom_lit g)
  eval_s_intersects item (cons (property_ref name) (cons (bbox_lit b) nil)) =
      intersects_at item name (bbox_lit b)
  eval_s_intersects item (cons (geom_lit g) (cons (property_ref name) nil)) =
      intersects_at item name (geom_lit g)
  eval_s_intersects item (cons (bbox_lit b) (cons (property_ref name) nil)) =
      intersects_at item name (bbox_lit b)
  eval_s_intersects item (cons a (cons b nil)) = failed unsupported_node
  eval_s_intersects item _ = failed malformed

  -- The answers of the arguments are at hand; an operator looks at as many as the loop reaches.
  unfoldable pub eval_op : Fields → Operator → Nodes → List Answer → Answer
  eval_op item op_and args as' = and_all as'
  eval_op item op_or args as' = or_all as'
  eval_op item op_not args as' = not_one as'
  eval_op item op_in args as' = in_two as'
  eval_op item op_is_null args as' = is_null_one as'
  eval_op item op_s_intersects args as' = eval_s_intersects item args
  eval_op item op_other args as' = failed unsupported_node
  eval_op item o args as' = compare_two o as'

  unfoldable mutual
    unfolding number_of array_of collect add_value

    pub eval : Fields → Node → Answer
    eval item (bool_lit b) = value (boolean b)
    eval item (num_lit s) = number_of (lib.parse_float s)
    eval item (string_lit s) = value (text s)
    eval item null_lit = value null
    eval item (property_ref name) = value (lookup_property item name)
    eval item (array_lit es) = array_of (collect (eval_args item es))
    eval item (op o args) = eval_op item o args (eval_args item args)
    eval item (geom_lit g) = failed unsupported_node
    eval item (bbox_lit b) = failed unsupported_node
    eval item (other kind) = failed unsupported_node

    pub eval_args : Fields → Nodes → List Answer
    eval_args item nil = []
    eval_args item (cons a as') = eval item a ∷ eval_args item as'

  -- `EvalCQL2`: the verdict, or an error.
  unfoldable pub eval_cql2 : Node → Fields → Option Bool
  unfolding verdict
  eval_cql2 expr item = verdict (eval item expr)
