-- ===== src/Executor/Expr/Predicate.antt =====
-- crates/clash-prism-core/src/executor/expr.rs: predicates. The depth of the recursion that is left
-- stands for the depth reached: a predicate starts with 65 levels, and one without a level fails.
pub mod Depth
pub mod Formulas
use Prim.Native.Char.{Char}
use clash_prism_engine.Base.{
  ℕ, zero, suc, ◌+◌, String, Bool, true, false, not, Option, none, some, List, [], ◌∷◌,
  if◌then◌else◌, length, take, Outcome, ok, err, and_then,
}
use clash_prism_engine.Base.Text.{chars, of_chars, trim}
use clash_prism_engine.Json.{Value, string, get}
use clash_prism_engine.Json.Path.{split}
use clash_prism_engine.Executor.Expr.{
  ExprError, parse_error, field_not_found, type_mismatch, regex_error, unsupported, ExprValue,
  expr_string, Packages,
}
use clash_prism_engine.Executor.Expr.Scan.{
  drop, strip_prefix, find_text, contains_text, find_top_level_pipe, find_top_level_operator,
  find_comparison_op, split_at, strip_outer_parens,
}
use clash_prism_engine.Executor.Expr.Literal.{parse_literal, compare_values}
use clash_prism_engine.Executor.Expr.Functions.{resolve_value_expr, try_eval_function_call}
use clash_prism_engine.Executor.Expr.Pipe.{
  comparison_ops, or_otherwise, return_if, resolve_expr_to_value, expect_bool, apply_pipe_filter,
}

abbrev pub max_pred_depth : ℕ
max_pred_depth = 64

unfoldable pub follow_fields : {N : Type 0} → List String → Value N → Outcome (Value N) ExprError
follow_fields [] current = ok current
follow_fields (part ∷ parts) current = elim (get part current) [
  | none ↦ err field_not_found
  | some v ↦ follow_fields parts v
]

unfoldable pub get_nested_field : {N : Type 0} → Value N → List Char → Outcome (Value N) ExprError
get_nested_field item path = follow_fields (split (of_chars path)) item

-- Both sides, the right one only where the left one does not decide.
unfoldable pub or_else :
    (List Char → Outcome Bool ExprError) → List Char × List Char → Outcome Bool ExprError
or_else deeper (left, right) = and_then (deeper left) (λ a. if a then ok true else deeper right)

unfoldable pub and_also :
    (List Char → Outcome Bool ExprError) → List Char × List Char → Outcome Bool ExprError
and_also deeper (left, right) = and_then (deeper left) (λ a. if a then deeper right else ok false)

unfoldable pub negate : (List Char → Outcome Bool ExprError) → List Char → Outcome Bool ExprError
negate deeper rest = and_then (deeper (trim rest)) (λ b. ok (not b))

module _ {N F I R : Type 0} (pk : Packages N F I R) where
  unfoldable pub string_includes : Value N → ExprValue N F → Outcome (Option Bool) ExprError
  string_includes (string s) (expr_string search) = ok (some (contains_text search (chars s)))
  string_includes _ _ = err type_mismatch

  unfoldable pub string_match : R → Value N → Outcome (Option Bool) ExprError
  string_match re (string s) = ok (some (pk.is_match re (chars s)))
  string_match re _ = err type_mismatch

  unfoldable pub match_field :
      (path pattern : List Char) → Value N → Outcome (Option Bool) ExprError
  match_field path pattern item = and_then (get_nested_field item path) (λ field_val.
      elim (pk.compile pattern) [ none ↦ err regex_error | some re ↦ string_match re field_val ])

  -- The pattern between the slashes behind `.match(`.
  unfoldable pub match_pattern : List Char → Option (List Char)
  match_pattern args_start = elim (strip_prefix (chars "/") args_start) [
    | none ↦ none
    | some after_slash ↦ elim (find_text (chars "/") after_slash) [
      | none ↦ none
      | some end_pos ↦ some (take end_pos after_slash)
    ]
  ]

  unfoldable pub eval_match : List Char → Value N → Outcome (Option Bool) ExprError
  eval_match expr item = elim (find_text (chars ".match(") expr) [
    | none ↦ ok none
    | some pos ↦ elim (strip_prefix (chars "p.") (take pos expr)) [
      | none ↦ ok none
      | some path ↦ elim (match_pattern (drop (pos + 7) expr)) [
        | none ↦ ok none
        | some pattern ↦ match_field path pattern item
      ]
    ]
  ]

  unfoldable pub eval_method_call : List Char → Value N → Outcome (Option Bool) ExprError
  eval_method_call expr item = elim (pk.includes_captures expr) [
    | none ↦ eval_match expr item
    | some (path, arg_str) ↦ and_then (get_nested_field item path) (λ field_val.
        and_then (parse_literal pk arg_str) (λ search_str. string_includes field_val search_str))
  ]

  -- The left side of a comparison: a function call, or else a field.
  unfoldable pub left_value : List Char → Value N → Outcome (ExprValue N F) ExprError
  left_value expr item =
      and_then (try_eval_function_call pk expr item)
        (λ called. elim called [ some value ↦ ok value | none ↦ resolve_value_expr pk expr item ])

  unfoldable pub comparison : List String → List Char → Value N → Option (Outcome Bool ExprError)
  comparison [] expr item = none
  comparison (op ∷ ops) expr item =
      let rest = comparison ops expr item in
      elim (split_at (length (chars op)) (find_comparison_op expr (chars op)) expr) [
        | none ↦ rest
        | some (left, right) ↦ some (
            and_then (left_value left item) (λ left_val.
              and_then (parse_literal pk right)
                (λ right_val. compare_values pk left_val right_val op)))
      ]

  unfoldable pub method_or_call : List Char → Value N → Outcome Bool ExprError
  method_or_call expr item = and_then (eval_method_call expr item) (λ result. elim result [
    | some b ↦ ok b
    | none ↦
        and_then (try_eval_function_call pk expr item)
          (λ called. elim called [ some value ↦ expect_bool pk value | none ↦ err unsupported ])
  ])

  unfoldable pub pipe_predicate : Value N → List Char × List Char → Outcome Bool ExprError
  pipe_predicate item (left, right) =
      and_then (resolve_expr_to_value pk left item)
        (λ left_val. apply_pipe_filter pk left_val right item)

  -- One level: the recursive calls are those of `deeper`.
  unfoldable pub evaluate_level :
      (deeper : List Char → Outcome Bool ExprError) → List Char → Value N → Outcome Bool ExprError
  evaluate_level deeper expr item =
      return_if (split_at 2 (find_top_level_operator expr (chars "||")) expr) (or_else deeper) (
        return_if (split_at 2 (find_top_level_operator expr (chars "&&")) expr) (and_also deeper) (
          return_if (strip_prefix (chars "!") expr) (negate deeper) (
            return_if (split_at 1 (find_top_level_pipe expr) expr) (pipe_predicate item) (
              return_if (strip_outer_parens expr) deeper
                (or_otherwise (comparison comparison_ops expr item) (method_or_call expr item))))))

  unfoldable pub evaluate_predicate_inner : ℕ → List Char → Value N → Outcome Bool ExprError
  evaluate_predicate_inner zero expr item = err parse_error
  evaluate_predicate_inner (suc levels) expr item =
      evaluate_level (λ inner. evaluate_predicate_inner levels inner item) (trim expr) item

  unfoldable pub evaluate_predicate : List Char → Value N → Outcome Bool ExprError
  evaluate_predicate expr item = evaluate_predicate_inner (suc max_pred_depth) expr item
