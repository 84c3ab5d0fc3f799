-- ===== src/Stac/Cql2.antt =====
-- internal/stac/cql2_eval.go: the evaluator of CQL2 filters on an item. The tree is go-cql2's, with
-- the node kinds that the evaluator tells apart. A float64 is its bit pattern; its comparisons,
-- strconv.ParseFloat and the geometries of internal/geo's library are arguments.
pub mod Compare
pub mod Eval
pub mod Logic
use Prim.Native.Char.{Char, code}
use Prim.Native.String.{[] as str_nil, ◌∷◌ as str_cons}
use stac_proxy.Common.{
  ℕ, String, Bool, true, false, ◌&&◌, ◌||◌, not, Option, none, some, List, [], ◌∷◌, ◌==◌, str_eq,
  str_ltb, if◌then◌else◌,
}

abbrev pub Float64 : Type 0
Float64 = ℕ

mutual
  pub data Json : Type 0 where
    null : Json
    boolean : Bool → Json
    number : Float64 → Json
    text : String → Json
    array : Jsons → Json
    object : Fields → Json

  pub data Jsons : Type 0 where
    empty : Jsons
    more : Json → Jsons → Jsons

  pub data Fields : Type 0 where
    no_field : Fields
    field : String → Json → Fields → Fields

pub data Operator : Type 0 where
  op_and op_or op_not op_eq op_neq op_lt op_lte op_gt op_gte op_in op_is_null : Operator
  op_s_intersects op_other : Operator

-- `geom_lit` holds a geometry of the library by its encoding, `other` any other kind of node.
mutual
  pub data Node : Type 0 where
    bool_lit : Bool → Node
    num_lit : String → Node
    string_lit : String → Node
    null_lit : Node
    property_ref : String → Node
    array_lit : Nodes → Node
    op : Operator → Nodes → Node
    geom_lit : String → Node
    bbox_lit : List Float64 → Node
    other : String → Node

  pub data Nodes : Type 0 where
    nil : Nodes
    cons : Node → Nodes → Nodes

-- What the evaluator calls: float64 and its parser, and geometries, with `parse_item` for a value of
-- an item, `parse_literal` for a literal, and `parse_polygon` for a ring that is marshalled first.
pub record Library (G : Type 0) : Type 0 where
  pub parse_float : String → Option Float64
  pub float_eq : Float64 → Float64 → Bool
  pub float_lt : Float64 → Float64 → Bool
  pub parse_item : Json → Option G
  pub parse_literal : String → Option G
  pub parse_polygon : List (Float64 × Float64) → Option G
  pub intersects : G → G → Bool

pub data EvalError : Type 0 where
  unsupported_node malformed : EvalError

-- The two results of `eval`.
pub data Answer : Type 0 where
  value : Json → Answer
  failed : EvalError → Answer

-- `strings.Split(name, ".")`
add_to_head : Char → List String → List String
add_to_head c [] = []
add_to_head c (s ∷ ss) = (str_cons c s) ∷ ss

unfoldable pub split_name : String → List String
unfolding add_to_head
split_name str_nil = "" ∷ []
split_name (str_cons c s) = if code c == 46 then "" ∷ split_name s else add_to_head c (split_name s)

-- `v, ok := m[name]`
unfoldable pub field_of : String → Fields → Option Json
field_of name no_field = none
field_of name (field k v fs) = if str_eq k name then some v else field_of name fs

or_null : Option Json → Json
or_null (some v) = v
or_null none = null

unfoldable pub walk_path : Json → List String → Json
unfolding or_null
walk_path v [] = v
walk_path (object fs) (p ∷ ps) = walk_path (or_null (field_of p fs)) ps
walk_path v (p ∷ ps) = null

in_properties : Option Json → String → Option Json
in_properties (some (object fs)) name = field_of name fs
in_properties _ name = none

or_top_level : Option Json → String → Fields → Json
or_top_level (some v) name item = v
or_top_level none name item = or_null (field_of name item)

look_up : List String → String → Fields → Json
look_up (p ∷ q ∷ ps) name item = walk_path (object item) (p ∷ q ∷ ps)
look_up _ name item = or_top_level (in_properties (field_of "properties" item) name) name item

-- A name with a dot is a path; any other is looked for under `properties` first.
unfoldable pub lookup_property : Fields → String → Json
unfolding in_properties or_top_level or_null look_up
lookup_property item name = look_up (split_name name) name item
