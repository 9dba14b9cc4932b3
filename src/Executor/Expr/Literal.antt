-- ===== src/Executor/Expr/Literal.antt =====
-- crates/clash-prism-core/src/executor/expr.rs: literals, values of JSON as values of expressions,
-- and comparisons.
pub mod Escape
use Prim.Native.Char.{Char, code}
use mathlib.Core.List.{drop_last}
use clash_prism_engine.Base.{
  String, Bool, true, false, not, ◌&&◌, ◌||◌, Option, none, some, List, [], ◌∷◌, ◌++◌,
  if◌then◌else◌, ◌==◌, string_eq, eqb, ltb, Outcome, ok, err,
}
use clash_prism_engine.Base.Text.{chars, of_chars, is_char, trim, starts_with_char, ends_with_char}
use clash_prism_engine.Json.{Value, null, bool, number, string, array, object, to_list}
use clash_prism_engine.Executor.Expr.{
  ExprError, parse_error, type_mismatch, unsupported, ExprValue, expr_bool, expr_number,
  expr_string, expr_array, expr_null, Packages,
}

-- What a backslash and a character stand for; an unknown pair stays as it is.
unfoldable pub unescaped : Char → List Char
unescaped c =
    if is_char 92 c || is_char 34 c || is_char 39 c
    then c ∷ []
    else if is_char 110 c
    then "\n" ∷ []
    else if is_char 116 c
    then "\t" ∷ []
    else if is_char 114 c
    then "\r" ∷ []
    else "\\" ∷ c ∷ []

unfoldable pub unescape : List Char → List Char
unescape [] = []
unescape (c ∷ []) = c ∷ []
unescape (c ∷ d ∷ cs) =
    let pair = unescaped d ++ unescape cs in
    let one = c ∷ unescape (d ∷ cs) in if is_char 92 c then pair else one

-- The text between the first and the last character; a text of one character has none.
unfoldable pub parse_quoted_string_inner : List Char → Option (List Char)
parse_quoted_string_inner [] = none
parse_quoted_string_inner (q ∷ []) = none
parse_quoted_string_inner (q ∷ c ∷ cs) = some (unescape (drop_last (c ∷ cs)))

unfoldable pub is_quoted : List Char → Bool
is_quoted s =
    (starts_with_char 34 s && ends_with_char 34 s) || (starts_with_char 39 s && ends_with_char 39 s)

unfoldable pub quoted : List Char → Option (List Char)
quoted s = if is_quoted s then parse_quoted_string_inner s else none

-- `$` and a backslash are written twice.
unfoldable pub escape_regex_replacement : List Char → List Char
escape_regex_replacement [] = []
escape_regex_replacement (c ∷ cs) =
    let rest = escape_regex_replacement cs in
    if is_char 36 c || is_char 92 c then c ∷ c ∷ rest else c ∷ rest

-- The order of texts, by their characters.
unfoldable pub text_lt : List Char → List Char → Bool
text_lt xs [] = false
text_lt [] (d ∷ ds) = true
text_lt (c ∷ cs) (d ∷ ds) =
    let rest = text_lt cs ds in
    if ltb (code c) (code d) then true else if eqb (code c) (code d) then rest else false

unfoldable pub text_eq : List Char → List Char → Bool
text_eq cs ds = of_chars cs == of_chars ds

module _ {N F I R : Type 0} (pk : Packages N F I R) where
  unfoldable pub parse_number : List Char → Outcome (ExprValue N F) ExprError
  parse_number s = elim (pk.parse_f64 s) [ none ↦ err unsupported | some n ↦ ok (expr_number n) ]

  unfoldable pub parse_trimmed : List Char → Outcome (ExprValue N F) ExprError
  parse_trimmed s =
      if text_eq s (chars "true")
      then ok (expr_bool true)
      else if text_eq s (chars "false")
      then ok (expr_bool false)
      else if text_eq s (chars "null")
      then ok expr_null
      else elim (quoted s) [ some t ↦ ok (expr_string t) | none ↦ parse_number s ]

  unfoldable pub parse_literal : List Char → Outcome (ExprValue N F) ExprError
  parse_literal s = parse_trimmed (trim s)

  -- An i64, or else a f64; one that JSON has no number for gives 0.
  unfoldable pub parse_json_number : List Char → Outcome (Value N) ExprError
  parse_json_number s = elim (pk.parse_i64 s) [
    | some n ↦ ok (number (pk.number_of_i64 n))
    | none ↦ elim (pk.parse_f64 s) [
      | none ↦ err parse_error
      | some n ↦ elim (pk.number_of_f64 n) [
        | none ↦ ok (number pk.number_zero)
        | some m ↦ ok (number m)
      ]
    ]
  ]

  unfoldable pub parse_json_trimmed : List Char → Outcome (Value N) ExprError
  parse_json_trimmed s =
      if text_eq s (chars "true")
      then ok (bool true)
      else if text_eq s (chars "false")
      then ok (bool false)
      else if text_eq s (chars "null")
      then ok null
      else elim (quoted s) [ some t ↦ ok (string (of_chars t)) | none ↦ parse_json_number s ]

  unfoldable pub parse_json_literal : List Char → Outcome (Value N) ExprError
  parse_json_literal s = parse_json_trimmed (trim s)

  unfoldable pub json_to_expr : Value N → Outcome (ExprValue N F) ExprError
  json_to_expr null = ok expr_null
  json_to_expr (bool b) = ok (expr_bool b)
  json_to_expr (number n) = elim (pk.as_i64 n) [
    | some i ↦ ok (expr_number (pk.of_i64 i))
    | none ↦ elim (pk.as_f64 n) [ some f ↦ ok (expr_number f) | none ↦ err type_mismatch ]
  ]
  json_to_expr (string s) = ok (expr_string (chars s))
  json_to_expr (array xs) = ok (expr_array (to_list xs))
  json_to_expr (object m) = err type_mismatch

  unfoldable pub values_eq : List (Value N) → List (Value N) → Bool
  values_eq [] [] = true
  values_eq (x ∷ xs) (y ∷ ys) = pk.value_eq x y && values_eq xs ys
  values_eq _ _ = false

  -- The derived `PartialEq`.
  unfoldable pub expr_value_eq : ExprValue N F → ExprValue N F → Bool
  expr_value_eq (expr_bool true) (expr_bool b) = b
  expr_value_eq (expr_bool false) (expr_bool b) = not b
  expr_value_eq (expr_number a) (expr_number b) = pk.eq_f64 a b
  expr_value_eq (expr_string s) (expr_string t) = text_eq s t
  expr_value_eq (expr_array xs) (expr_array ys) = values_eq xs ys
  expr_value_eq expr_null expr_null = true
  expr_value_eq _ _ = false

  unfoldable pub close_f64 : F → F → Bool
  close_f64 a b =
      let same =
        pk.eq_f64 (pk.fract a) pk.zero_f64 && pk.eq_f64 (pk.fract b) pk.zero_f64 && pk.eq_f64 a b in
      let scale = pk.max (pk.max (pk.abs_f64 a) (pk.abs_f64 b)) pk.one_f64 in
      same || pk.lt_f64 (pk.abs_f64 (pk.sub a b)) (pk.mul pk.float_epsilon scale)

  unfoldable pub float_eq : ExprValue N F → ExprValue N F → Bool
  float_eq (expr_number a) (expr_number b) = close_f64 a b
  float_eq left right = expr_value_eq left right

  -- An order between two numbers or two texts.
  unfoldable pub ordered :
      (F → F → Bool)
      → (List Char → List Char → Bool)
      → ExprValue N F
      → ExprValue N F
      → Outcome Bool ExprError
  ordered on_numbers on_texts (expr_number a) (expr_number b) = ok (on_numbers a b)
  ordered on_numbers on_texts (expr_string s) (expr_string t) = ok (on_texts s t)
  ordered on_numbers on_texts _ _ = err type_mismatch

  unfoldable pub compare_values : ExprValue N F → ExprValue N F → String → Outcome Bool ExprError
  compare_values left right op =
      if op == "=="
      then ok (float_eq left right)
      else if op == "!="
      then ok (not (float_eq left right))
      else if op == ">"
      then ordered (λ a b. pk.lt_f64 b a) (λ s t. text_lt t s) left right
      else if op == "<"
      then ordered (λ a b. pk.lt_f64 a b) (λ s t. text_lt s t) left right
      else if op == ">="
      then ordered (λ a b. pk.le_f64 b a) (λ s t. not (text_lt s t)) left right
      else if op == "<="
      then ordered (λ a b. pk.le_f64 a b) (λ s t. not (text_lt t s)) left right
      else err unsupported
