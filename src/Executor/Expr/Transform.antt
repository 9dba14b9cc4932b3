-- ===== src/Executor/Expr/Transform.antt =====
-- crates/clash-prism-core/src/executor/expr.rs: transformations, which build an object from pairs of
-- a key and an expression.
pub mod Assigned
use Prim.Native.Char.{Char, code}
use mathlib.Core.List.{drop_last}
use clash_prism_engine.Base.{
  ℕ, zero, suc, ◌+◌, String, Bool, true, false, not, ◌&&◌, ◌||◌, Option, none, some, List, [], ◌∷◌,
  ◌++◌, if◌then◌else◌, leb, take, Outcome, ok, err, and_then,
}
use clash_prism_engine.Base.Text.{
  chars, of_chars, trim, drop_while, is_whitespace, starts_with_char, ends_with_char,
}
use clash_prism_engine.Json.{Value, null, bool, number, string, array, object, end, insert_field}
use clash_prism_engine.Executor.Expr.{ExprError, parse_error, type_mismatch, regex_error, Packages}
use clash_prism_engine.Executor.Expr.Scan.{
  drop, strip_prefix, find_text, find_top_level_operator, split_at, find_regex_delimiter,
}
use clash_prism_engine.Executor.Expr.Pieces.{split_object_pairs}
use clash_prism_engine.Executor.Expr.Literal.{parse_json_literal, escape_regex_replacement}
use clash_prism_engine.Executor.Expr.Predicate.{max_pred_depth, get_nested_field}

unfoldable pub is_ascii_alphabetic : Char → Bool
is_ascii_alphabetic c = let n = code c in (leb 65 n && leb n 90) || (leb 97 n && leb n 122)

unfoldable pub is_ascii_alphanumeric : Char → Bool
is_ascii_alphanumeric c = let n = code c in is_ascii_alphabetic c || (leb 48 n && leb n 57)

unfoldable pub is_after_letter : Option Char → Bool
is_after_letter none = false
is_after_letter (some c) = is_ascii_alphabetic c

unfoldable pub is_before_word : List Char → Bool
is_before_word [] = false
is_before_word (c ∷ cs) = is_ascii_alphanumeric c

unfoldable pub is_spread : Option Char → Option (List Char) → Bool
is_spread prev none = false
is_spread prev (some rest) = not (is_after_letter prev) && not (is_before_word rest)

-- `...p` stands somewhere, behind no letter and before no letter or digit.
unfoldable pub has_spread : Option Char → List Char → Bool
has_spread prev [] = false
has_spread prev (c ∷ cs) =
    is_spread prev (strip_prefix (chars "...p") (c ∷ cs)) || has_spread (some c) cs

-- `trim_start`, and `strip_suffix(')')` with the text itself where it fails.
unfoldable pub trim_start : List Char → List Char
trim_start cs = drop_while is_whitespace cs

unfoldable pub without_suffix : List Char → List Char
without_suffix cs = if ends_with_char 41 cs then drop_last cs else cs

-- The text between the first and the last character.
unfoldable pub body_of : List Char → List Char
body_of [] = []
body_of (c ∷ cs) = trim (drop_last cs)

module _ {N : Type 0} where
  unfoldable pub insert_into : String → Value N → Value N → Value N
  insert_into k v (object m) = object (insert_field k v m)
  insert_into k v other = other

module _ {N F I R : Type 0} (pk : Packages N F I R) where
  unfoldable pub value_to_string : Value N → Outcome (List Char) ExprError
  value_to_string null = ok []
  value_to_string (bool true) = ok (chars "true")
  value_to_string (bool false) = ok (chars "false")
  value_to_string (number n) = ok (pk.number_text n)
  value_to_string (string s) = ok (chars s)
  value_to_string _ = err type_mismatch

  abbrev Replaced : Type 0
  Replaced = Outcome (Option (Value N)) ExprError

  unfoldable pub replace_with : R → (text replacement : List Char) → Replaced
  replace_with re text replacement =
      ok (some (string (of_chars (pk.replace_all re text (escape_regex_replacement replacement)))))

  unfoldable pub replace_string : R → List Char → Value N → Replaced
  replace_string re text (string s) = replace_with re text (chars s)
  replace_string re text _ = err parse_error

  -- The text behind the second slash: a third slash, a comma with a literal, or the end.
  unfoldable pub replace_in : R → (text trimmed : List Char) → Replaced
  replace_in re text trimmed = elim (strip_prefix (chars "/") trimmed) [
    | some third ↦ and_then (find_regex_delimiter third 47) (λ s. replace_with re text (s.0))
    | none ↦ elim (strip_prefix (chars ",") trimmed) [
      | some stripped ↦
          and_then (parse_json_literal pk (without_suffix (trim stripped)))
            (λ v. replace_string re text v)
      | none ↦ if starts_with_char 41 trimmed then ok (some (string (of_chars text))) else ok none
    ]
  ]

  unfoldable pub replace_field : R → List Char → Value N → Replaced
  replace_field re after_pattern (string s) = replace_in re (chars s) (trim_start after_pattern)
  replace_field re after_pattern _ = err type_mismatch

  unfoldable pub replace_call : (path args : List Char) → Value N → Replaced
  replace_call path args item = and_then (find_regex_delimiter args 47) (λ s.
      and_then (get_nested_field item path) (λ field_val. elim (pk.compile (s.0)) [
        | none ↦ err regex_error
        | some re ↦ replace_field re (s.1) field_val
      ]))

  unfoldable pub eval_replace_call : List Char → Value N → Replaced
  eval_replace_call expr item = elim (strip_prefix (chars "p.") expr) [
    | none ↦ ok none
    | some rest ↦ elim (find_text (chars ".replace(") rest) [
      | none ↦ ok none
      | some pos ↦ elim (strip_prefix (chars "/") (drop (pos + 9) rest)) [
        | none ↦ ok none
        | some args ↦ replace_call (take pos rest) args item
      ]
    ]
  ]

  unfoldable pub field_or_null : Outcome (Value N) ExprError → Value N
  field_or_null (ok v) = v
  field_or_null (err e) = null

  unfoldable pub field_or_literal : List Char → Value N → Outcome (Value N) ExprError
  field_or_literal expr item = elim (strip_prefix (chars "p.") expr) [
    | some field ↦ ok (field_or_null (get_nested_field item (trim field)))
    | none ↦ parse_json_literal pk expr
  ]

  unfoldable pub concat : (left right : Value N) → Outcome (Value N) ExprError
  concat left right = and_then (value_to_string left) (λ left_str.
      and_then (value_to_string right)
        (λ right_str. ok (string (of_chars (left_str ++ right_str)))))

  unfoldable pub resolve_level :
      (deeper : List Char → Outcome (Value N) ExprError)
      → List Char
      → Value N
      → Outcome (Value N) ExprError
  resolve_level deeper expr item =
      elim (split_at 1 (find_top_level_operator expr (chars "+")) expr) [
        | some (left, right) ↦
            and_then (deeper left) (λ a. and_then (deeper right) (λ b. concat a b))
        | none ↦
            and_then (eval_replace_call expr item)
              (λ replaced. elim replaced [ some v ↦ ok v | none ↦ field_or_literal expr item ])
      ]

  unfoldable pub resolve_transform_value_inner :
      ℕ → List Char → Value N → Outcome (Value N) ExprError
  resolve_transform_value_inner zero expr item = err parse_error
  resolve_transform_value_inner (suc levels) expr item =
      resolve_level (λ inner. resolve_transform_value_inner levels inner item) (trim expr) item

  unfoldable pub resolve_transform_value : List Char → Value N → Outcome (Value N) ExprError
  resolve_transform_value expr item = resolve_transform_value_inner (suc max_pred_depth) expr item

  -- Each pair in its turn.
  unfoldable pub assign :
      List (List Char × List Char) → (item result : Value N) → Outcome (Value N) ExprError
  assign [] item result = ok result
  assign ((key, value_expr) ∷ pairs) item result =
      and_then (resolve_transform_value value_expr item)
        (λ resolved. assign pairs item (insert_into (of_chars key) resolved result))

  unfoldable pub transform_body : List Char → Value N → Outcome (Value N) ExprError
  transform_body body item =
      and_then (split_object_pairs body)
        (λ pairs. assign pairs item (if has_spread none body then item else object end))

  unfoldable pub transform_trimmed : List Char → Value N → Outcome (Value N) ExprError
  transform_trimmed expr item =
      if starts_with_char 123 expr && ends_with_char 125 expr
      then transform_body (body_of expr) item
      else err parse_error

  unfoldable pub evaluate_transform_expr : List Char → Value N → Outcome (Value N) ExprError
  evaluate_transform_expr expr item = transform_trimmed (trim expr) item
