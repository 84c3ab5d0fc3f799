-- ===== src/Stac/Cql2/Logic.antt =====
-- internal/stac/cql2_eval.go (evalOp): the laws of the Boolean operators, errors included.
use stac_proxy.Common.{
  ◌≡◌, refl, ◌∙◌, ◌↔◌, ap, sym, true, false, some, List, [], ◌∷◌, arith, All, if◌then◌else◌, map,
  Bool-cases, inl, inr,
}
use stac_proxy.Stac.Cql2.{
  Json, null, boolean, number, text, array, object, Jsons, empty, more, Fields, op_and, op_or,
  op_not, op_eq, op_in, Node, array_lit, op, Nodes, nil, cons, Library, Answer, value, failed,
}
use stac_proxy.Stac.Cql2.Compare.{compare}
use stac_proxy.Stac.Cql2.Eval.{
  and_all, or_all, not_one, compare_two, match_any, in_two, with_bool, verdict, eval_op, eval,
  eval_args, eval_cql2, array_of, collect, add_value, all_of,
}

-- The arguments, each under a NOT.
unfoldable pub negated : Nodes → Nodes
negated nil = nil
negated (cons a as') = cons (op op_not (cons a nil)) (negated as')

abbrev negate : Answer → Answer
negate a = not_one (a ∷ [])

not_one-and_all : (as' : List Answer) → negate (and_all as') ≡ or_all (map negate as')
unfolding not_one and_all or_all with_bool
not_one-and_all [] = refl
not_one-and_all (failed e ∷ as') = refl
not_one-and_all (value (boolean true) ∷ as') = not_one-and_all as'
not_one-and_all (value (boolean false) ∷ as') = refl
not_one-and_all (value null ∷ as') = refl
not_one-and_all (value (number f) ∷ as') = refl
not_one-and_all (value (text s) ∷ as') = refl
not_one-and_all (value (array vs) ∷ as') = refl
not_one-and_all (value (object fs) ∷ as') = refl

-- The argument passes: it is true of the item.
abbrev IsTrue : Answer → Type 0
IsTrue a = verdict a ≡ some true

and_all-IsTrue : (as' : List Answer) → IsTrue (and_all as') ↔ All IsTrue as'
unfolding and_all with_bool verdict
and_all-IsTrue [] = (λ h. tt, λ h. refl)
and_all-IsTrue (failed e ∷ as') = ground arith
and_all-IsTrue (value (boolean true) ∷ as') =
    let (to, from) = and_all-IsTrue as' in (λ h. (refl, to h), λ h. from h.1)
and_all-IsTrue (value (boolean false) ∷ as') = ground arith
and_all-IsTrue (value null ∷ as') = ground arith
and_all-IsTrue (value (number f) ∷ as') = ground arith
and_all-IsTrue (value (text s) ∷ as') = ground arith
and_all-IsTrue (value (array vs) ∷ as') = ground arith
and_all-IsTrue (value (object fs) ∷ as') = ground arith

module _ {G : Type 0} (lib : Library G) (item : Fields) where
  eval_args-negated :
      (args : Nodes) → eval_args lib item (negated args) ≡ map negate (eval_args lib item args)
  unfolding eval eval_args negated eval_op
  eval_args-negated nil = refl
  eval_args-negated (cons a as') =
      ap (λ rest. negate (eval lib item a) ∷ rest) (eval_args-negated as')

  -- NOT of an AND is the OR of the NOTs, with the same error where there is one and whatever stands
  -- after the argument that decides.
  pub eval-not-and :
      (args : Nodes)
      → eval lib item (op op_not (cons (op op_and args) nil))
        ≡ eval lib item (op op_or (negated args))
  unfolding eval eval_args eval_op
  eval-not-and args =
      not_one-and_all (eval_args lib item args) ∙ ap or_all (sym (eval_args-negated args))

  -- Every argument is true of the item.
  abbrev pub AllPass : Nodes → Type 0
  AllPass nil = Unit {0}
  AllPass (cons a as') = (eval_cql2 lib a item ≡ some true) × AllPass as'

  AllPass-All : (args : Nodes) → All IsTrue (eval_args lib item args) ↔ AllPass args
  unfolding eval_args eval eval_cql2
  AllPass-All nil = (λ h. h, λ h. h)
  AllPass-All (cons a as') =
      let (to, from) = AllPass-All as' in (λ h. (h.0, to h.1), λ h. (h.0, from h.1))

  -- A conjunction lets an item pass exactly if each of its arguments does: an argument that is
  -- false, not Boolean, or in error keeps the item out.
  pub eval_cql2-and :
      (args : Nodes) → (eval_cql2 lib (op op_and args) item ≡ some true) ↔ AllPass args
  unfolding eval_cql2 eval eval_op
  eval_cql2-and args =
      let (to, from) = and_all-IsTrue (eval_args lib item args) in
      let (up, down) = AllPass-All args in (λ h. up (to h), λ h. from (down h))

-- For every element of a list the comparison of a node with it.
unfoldable pub equalities : Node → Nodes → Nodes
equalities n nil = nil
equalities n (cons e es) = cons (op op_eq (cons n (cons e nil))) (equalities n es)

-- The values as a JSON array.
unfoldable jsons_of : List Json → Jsons
jsons_of [] = empty
jsons_of (v ∷ vs) = more v (jsons_of vs)

collect_values : (vs : List Json) → collect (map value vs) ≡ all_of (jsons_of vs)
unfolding collect add_value jsons_of
collect_values [] = refl
collect_values (v ∷ vs) = ap (add_value v) (collect_values vs)

array_of-collect :
    (vs : List Json) → array_of (collect (map value vs)) ≡ value (array (jsons_of vs))
unfolding array_of
array_of-collect vs = ap array_of (collect_values vs)

module _ {G : Type 0} (lib : Library G) where
  or_all-match_any :
      (v : Json) (vs : List Json)
      → value (boolean (match_any lib v (jsons_of vs)))
        ≡ or_all (map (λ e. compare_two lib op_eq (value v ∷ e ∷ [])) (map value vs))
  unfolding match_any or_all with_bool compare_two jsons_of
  or_all-match_any v [] = refl
  or_all-match_any v (w ∷ vs) = elim (Bool-cases (compare lib op_eq v w)) [
    | inl same ↦ rw (same, if◌then◌else◌) refl
    | inr apart ↦ rw (apart, if◌then◌else◌) (or_all-match_any v vs)
  ]

  eval_args-equalities :
      (item : Fields) (n : Node) (es : Nodes)
      → eval_args lib item (equalities n es)
        ≡ map (λ e. compare_two lib op_eq (eval lib item n ∷ e ∷ [])) (eval_args lib item es)
  unfolding eval eval_args equalities eval_op
  eval_args-equalities item n nil = refl
  eval_args-equalities item n (cons e es) =
      ap (λ rest. compare_two lib op_eq (eval lib item n ∷ eval lib item e ∷ []) ∷ rest)
        (eval_args-equalities item n es)

  -- Where the node and the elements of the list have values, membership is the OR of the equalities.
  pub eval-in :
      (item : Fields) (n : Node) (v : Json) (es : Nodes) (vs : List Json)
      → eval lib item n ≡ value v
      → eval_args lib item es ≡ map value vs
      → eval lib item (op op_in (cons n (cons (array_lit es) nil)))
        ≡ eval lib item (op op_or (equalities n es))
  unfolding eval eval_args eval_op in_two
  eval-in item n v es vs found listed =
      rw (eval_args-equalities item n es, found, listed, array_of-collect vs)
        (or_all-match_any v vs)
