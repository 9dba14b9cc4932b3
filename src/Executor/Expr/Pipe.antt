-- ===== src/Executor/Expr/Pipe.antt =====
-- crates/clash-prism-core/src/executor/expr.rs: the pipe, which passes a value on to a function or
-- a comparison.
pub mod Stages
pub mod Unreached
use Prim.Native.Char.{Char}
use clash_prism_engine.Base.{
  ℕ, zero, suc, ◌+◌, String, Bool, Option, none, some, List, [], ◌∷◌, length, Outcome, ok, err,
  and_then,
}
use clash_prism_engine.Base.Text.{chars, of_chars, trim}
use clash_prism_engine.Json.{Value}
use clash_prism_engine.Executor.Expr.{
  ExprError, type_mismatch, unsupported, ExprValue, expr_bool, BuiltinFunction, from_name, Packages,
}
use clash_prism_engine.Executor.Expr.Scan.{
  drop, strip_prefix, has_prefix, find_top_level_pipe, find_top_level_operator, split_at,
  find_balanced_parens,
}
use clash_prism_engine.Executor.Expr.Pieces.{split_function_args}
use clash_prism_engine.Executor.Expr.Literal.{parse_literal, compare_values, expr_value_eq}
use clash_prism_engine.Executor.Expr.Functions.{
  resolve_value_expr, eval_builtin_function_on_value, function_call, try_eval_function_call,
}

abbrev pub comparison_ops : List String
comparison_ops = "==" ∷ "!=" ∷ ">=" ∷ "<=" ∷ ">" ∷ "<" ∷ []

-- A branch of a function that may return, or else the code behind it.
unfoldable pub or_otherwise {ℓ} : {A : Type ℓ} → Option A → A → A
or_otherwise none a = a
or_otherwise (some a) b = a

-- `if let Some(a) = .. { return f(a) }` before the code behind it.
unfoldable pub return_if {ℓ κ} : {A : Type ℓ} {B : Type κ} → Option A → (A → B) → B → B
return_if none f b = b
return_if (some a) f b = f a

-- A function's name with the text between its parentheses and the text from the closing one on.
unfoldable pub balanced_call : List Char → Option (BuiltinFunction × List Char × List Char)
balanced_call expr = elim (function_call expr) [
  | none ↦ none
  | some (func, call) ↦ elim (find_balanced_parens call) [
    | none ↦ none
    | some args_str ↦ some (func, args_str, trim (drop (suc (length args_str)) call))
  ]
]

module _ {N F I R : Type 0} (pk : Packages N F I R) where
  unfoldable pub resolve_expr : List Char → Value N → Outcome (ExprValue N F) ExprError
  resolve_expr expr item = and_then (try_eval_function_call pk expr item) (λ called. elim called [
    | some value ↦ ok value
    | none ↦ elim (strip_prefix (chars "p.") expr) [
      | some _ ↦ resolve_value_expr pk expr item
      | none ↦ parse_literal pk expr
    ]
  ])

  unfoldable pub resolve_expr_to_value : List Char → Value N → Outcome (ExprValue N F) ExprError
  resolve_expr_to_value expr item = resolve_expr (trim expr) item

  unfoldable pub apply_call :
      BuiltinFunction → List Char → ExprValue N F → Outcome (ExprValue N F) ExprError
  apply_call func args_str left =
      and_then (split_function_args args_str)
        (λ args. eval_builtin_function_on_value pk func args left)

  unfoldable pub resolve_stage : ExprValue N F → List Char → Outcome (ExprValue N F) ExprError
  resolve_stage left stage = elim (balanced_call stage) [
    | some (func, args_str, _) ↦ apply_call func args_str left
    | none ↦ elim (from_name (of_chars stage)) [
      | some func ↦ eval_builtin_function_on_value pk func [] left
      | none ↦ err unsupported
    ]
  ]

  unfoldable pub resolve_pipe_stage : ExprValue N F → List Char → Outcome (ExprValue N F) ExprError
  resolve_pipe_stage left stage = resolve_stage left (trim stage)

  unfoldable pub expect_bool : ExprValue N F → Outcome Bool ExprError
  expect_bool (expr_bool b) = ok b
  expect_bool _ = err type_mismatch

  -- `func(args) == literal`, by the first operator that the text behind the call starts with.
  unfoldable pub call_comparison :
      List String
      → BuiltinFunction
      → (args_str after_args : List Char) → ExprValue N F
      → Option (Outcome Bool ExprError)
  call_comparison [] func args_str after_args left = none
  call_comparison (op ∷ ops) func args_str after_args left =
      elim (strip_prefix (chars op) after_args) [
        | none ↦ call_comparison ops func args_str after_args left
        | some rest ↦ some (
            and_then (parse_literal pk (trim rest)) (λ right_val.
              and_then (apply_call func args_str left)
                (λ func_result. compare_values pk func_result right_val op)))
      ]

  unfoldable pub compare_call : List Char → ExprValue N F → Option (Outcome Bool ExprError)
  compare_call right left = elim (balanced_call right) [
    | none ↦ none
    | some (func, args_str, after_args) ↦
        call_comparison comparison_ops func args_str after_args left
  ]

  -- `func == literal`.
  unfoldable pub bare_comparison :
      List String → List Char → ExprValue N F → Option (Outcome Bool ExprError)
  bare_comparison [] right left = none
  bare_comparison (op ∷ ops) right left =
      let rest = bare_comparison ops right left in
      elim (split_at (length (chars op)) (find_top_level_operator right (chars op)) right) [
        | none ↦ rest
        | some (before, after) ↦ elim (from_name (of_chars before)) [
          | none ↦ rest
          | some func ↦ some (
              and_then (parse_literal pk after) (λ right_val.
                and_then (eval_builtin_function_on_value pk func [] left)
                  (λ func_result. compare_values pk func_result right_val op)))
        ]
      ]

  -- `func(args)`, or `func`.
  unfoldable pub call_filter : List Char → ExprValue N F → Option (Outcome Bool ExprError)
  call_filter right left = elim (balanced_call right) [
    | some (func, args_str, _) ↦
        some (and_then (apply_call func args_str left) (λ func_result. expect_bool func_result))
    | none ↦ elim (from_name (of_chars right)) [
      | some func ↦ some (
          and_then (eval_builtin_function_on_value pk func [] left)
            (λ func_result. expect_bool func_result))
      | none ↦ none
    ]
  ]

  -- `== literal`.
  unfoldable pub value_comparison : List String → List Char → ExprValue N F → Outcome Bool ExprError
  value_comparison [] right left = err unsupported
  value_comparison (op ∷ ops) right left =
      let rest = value_comparison ops right left in
      elim (split_at (length (chars op)) (find_top_level_operator right (chars op)) right) [
        | none ↦ rest
        | some (before, after) ↦
            and_then (parse_literal pk after) (λ right_val. compare_values pk left right_val op)
      ]

  unfoldable pub call_or_comparison : List Char → ExprValue N F → Value N → Outcome Bool ExprError
  call_or_comparison right left item = and_then (try_eval_function_call pk right item) (λ called.
      elim called [
        | some value ↦ ok (expr_value_eq pk left value)
        | none ↦ value_comparison comparison_ops right left
      ])

  -- A filter with no pipe in it.
  unfoldable pub apply_last_filter : ExprValue N F → List Char → Value N → Outcome Bool ExprError
  apply_last_filter left right item = or_otherwise (compare_call right left) (
      or_otherwise (bare_comparison comparison_ops right left)
        (or_otherwise (call_filter right left) (call_or_comparison right left item)))

  -- A pipe's right side is shorter than the text, so its length is fuel enough.
  unfoldable pub apply_filter : ℕ → ExprValue N F → List Char → Value N → Outcome Bool ExprError
  apply_filter zero left right item = err unsupported
  apply_filter (suc fuel) left right item =
      return_if (split_at 1 (find_top_level_pipe (trim right)) (trim right))
        (λ sides.
          and_then (resolve_pipe_stage left (sides.0))
            (λ intermediate. apply_filter fuel intermediate (sides.1) item))
        (apply_last_filter left (trim right) item)

  unfoldable pub apply_pipe_filter : ExprValue N F → List Char → Value N → Outcome Bool ExprError
  apply_pipe_filter left right item = apply_filter (suc (length right)) left right item
