-- ===== src/Executor/Expr/Functions.antt =====
-- crates/clash-prism-core/src/executor/expr.rs: fields, and the built-in functions, called by their
-- name or behind a pipe. A called function resolves its first argument and then does what a piped
-- one does with that value; only the numbers of arguments differ.
use Prim.Native.Char.{Char}
use clash_prism_engine.Base.{
  Bool, Option, none, some, List, [], ◌∷◌, length, take, Outcome, ok, err, and_then,
}
use clash_prism_engine.Base.Text.{chars, of_chars, trim}
use clash_prism_engine.Json.{Value, get}
use clash_prism_engine.Executor.Expr.{
  ExprError, parse_error, field_not_found, type_mismatch, regex_error, ExprValue, expr_bool,
  expr_number, expr_string, expr_array, expr_null, BuiltinFunction, regex, len, lower, upper,
  contains, starts_with, ends_with, abs, type_of, from_name, Packages,
}
use clash_prism_engine.Executor.Expr.Scan.{
  drop, strip_prefix, has_prefix, has_suffix, find_text, contains_text, find_balanced_parens,
}
use clash_prism_engine.Executor.Expr.Pieces.{split_function_args}
use clash_prism_engine.Executor.Expr.Literal.{parse_literal, json_to_expr}

-- A field by its name, behind `p.` or bare.
unfoldable pub field_name : List Char → List Char
field_name expr = elim (strip_prefix (chars "p.") expr) [ none ↦ expr | some f ↦ trim f ]

-- The name and the text from the first parenthesis on, where the name is a function's.
unfoldable pub function_call : List Char → Option (BuiltinFunction × List Char)
function_call expr = elim (find_text (chars "(") expr) [
  | none ↦ none
  | some pos ↦ elim (from_name (of_chars (trim (take pos expr)))) [
    | none ↦ none
    | some func ↦ some (func, drop pos expr)
  ]
]

module _ {N F I R : Type 0} (pk : Packages N F I R) where
  unfoldable pub resolve_value_expr : List Char → Value N → Outcome (ExprValue N F) ExprError
  resolve_value_expr expr item = elim (get (of_chars (field_name (trim expr))) item) [
    | none ↦ err field_not_found
    | some value ↦ json_to_expr pk value
  ]

  unfoldable pub on_string :
      (List Char → ExprValue N F) → ExprValue N F → Outcome (ExprValue N F) ExprError
  on_string f (expr_string s) = ok (f s)
  on_string f _ = err type_mismatch

  unfoldable pub on_strings :
      (List Char → List Char → Bool)
      → ExprValue N F
      → ExprValue N F
      → Outcome (ExprValue N F) ExprError
  on_strings f (expr_string s) (expr_string t) = ok (expr_bool (f s t))
  on_strings f _ _ = err type_mismatch

  unfoldable pub len_of : ExprValue N F → Outcome (ExprValue N F) ExprError
  len_of (expr_string s) = ok (expr_number (pk.of_usize (length s)))
  len_of (expr_array xs) = ok (expr_number (pk.of_usize (length xs)))
  len_of expr_null = ok (expr_number pk.zero_f64)
  len_of _ = err type_mismatch

  unfoldable pub abs_of : ExprValue N F → Outcome (ExprValue N F) ExprError
  abs_of (expr_number n) = ok (expr_number (pk.abs_f64 n))
  abs_of _ = err type_mismatch

  unfoldable pub type_name : ExprValue N F → List Char
  type_name (expr_bool _) = chars "bool"
  type_name (expr_number _) = chars "number"
  type_name (expr_string _) = chars "string"
  type_name (expr_array _) = chars "array"
  type_name expr_null = chars "null"

  unfoldable pub regex_test : ExprValue N F → ExprValue N F → Outcome (ExprValue N F) ExprError
  regex_test (expr_string s) (expr_string pattern) = elim (pk.compile pattern) [
    | none ↦ err regex_error
    | some re ↦ ok (expr_bool (pk.is_match re s))
  ]
  regex_test _ _ = err type_mismatch

  -- What a function of one argument does with its value.
  unfoldable pub apply_unary : BuiltinFunction → ExprValue N F → Outcome (ExprValue N F) ExprError
  apply_unary len value = len_of value
  apply_unary lower value = on_string (λ s. expr_string (pk.to_lowercase s)) value
  apply_unary upper value = on_string (λ s. expr_string (pk.to_uppercase s)) value
  apply_unary abs value = abs_of value
  apply_unary type_of value = ok (expr_string (type_name value))
  apply_unary _ value = err parse_error

  -- What a function of two arguments does with a value and the text of a literal.
  unfoldable pub apply_binary :
      BuiltinFunction → ExprValue N F → List Char → Outcome (ExprValue N F) ExprError
  apply_binary regex value arg =
      and_then (parse_literal pk (trim arg)) (λ pattern. regex_test value pattern)
  apply_binary contains value arg =
      and_then (parse_literal pk (trim arg))
        (λ search. on_strings (λ s t. contains_text t s) value search)
  apply_binary starts_with value arg =
      and_then (parse_literal pk (trim arg))
        (λ prefix. on_strings (λ s t. has_prefix t s) value prefix)
  apply_binary ends_with value arg =
      and_then (parse_literal pk (trim arg))
        (λ suffix. on_strings (λ s t. has_suffix t s) value suffix)
  apply_binary _ value arg = err parse_error

  unfoldable pub call_unary :
      BuiltinFunction → List (List Char) → Value N → Outcome (ExprValue N F) ExprError
  call_unary func (arg ∷ []) item =
      and_then (resolve_value_expr (trim arg) item) (λ value. apply_unary func value)
  call_unary func _ item = err parse_error

  unfoldable pub call_binary :
      BuiltinFunction → List (List Char) → Value N → Outcome (ExprValue N F) ExprError
  call_binary func (arg ∷ literal ∷ []) item =
      and_then (resolve_value_expr (trim arg) item) (λ value. apply_binary func value literal)
  call_binary func _ item = err parse_error

  unfoldable pub eval_builtin_function :
      BuiltinFunction → List (List Char) → Value N → Outcome (ExprValue N F) ExprError
  eval_builtin_function len args item = call_unary len args item
  eval_builtin_function lower args item = call_unary lower args item
  eval_builtin_function upper args item = call_unary upper args item
  eval_builtin_function abs args item = call_unary abs args item
  eval_builtin_function type_of args item = call_unary type_of args item
  eval_builtin_function func args item = call_binary func args item

  unfoldable pub pipe_binary :
      BuiltinFunction → List (List Char) → ExprValue N F → Outcome (ExprValue N F) ExprError
  pipe_binary func [] value = err parse_error
  pipe_binary func (literal ∷ args) value = apply_binary func value literal

  -- A function of one argument drops the arguments written behind a pipe.
  unfoldable pub eval_builtin_function_on_value :
      BuiltinFunction → List (List Char) → ExprValue N F → Outcome (ExprValue N F) ExprError
  eval_builtin_function_on_value len args value = apply_unary len value
  eval_builtin_function_on_value lower args value = apply_unary lower value
  eval_builtin_function_on_value upper args value = apply_unary upper value
  eval_builtin_function_on_value abs args value = apply_unary abs value
  eval_builtin_function_on_value type_of args value = apply_unary type_of value
  eval_builtin_function_on_value func args value = pipe_binary func args value

  unfoldable pub try_eval_function_call :
      List Char → Value N → Outcome (Option (ExprValue N F)) ExprError
  try_eval_function_call expr item = elim (function_call (trim expr)) [
    | none ↦ ok none
    | some (func, call) ↦ elim (find_balanced_parens call) [
      | none ↦ err parse_error
      | some args_str ↦
          and_then (split_function_args args_str)
            (λ args. and_then (eval_builtin_function func args item) (λ value. ok (some value)))
    ]
  ]
