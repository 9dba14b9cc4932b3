-- ===== src/Executor/Expr/Examples.antt =====
-- The theorems about expressions at concrete texts, with numbers of JSON and f64 as naturals and a
-- regular expression as the text it looks for; and expressions of the documentation of expr.rs.
mod Witnesses
use Prim.Native.Char.{Char, code}
use clash_prism_engine.Base.{
  ℕ, ◌+◌, ◌-◌, ◌*◌, true, false, ◌&&◌, Option, none, some, List, [], ◌∷◌, ◌≡◌, refl, if◌then◌else◌,
  eqb, ltb, leb, ok, and_then, keep, not,
}
use clash_prism_engine.Base.Text.{
  chars, is_char, drop_while, ends_with_char, is_whitespace, starts_with_char, trim,
}
use clash_prism_engine.Json.{
  Value, null, number, string, object, end, field, get, get_field, insert_field, Fields,
}
use clash_prism_engine.Executor.Expr.{Packages, from_name}
use clash_prism_engine.Executor.Expr.Scan.{
  contains_text, find_top_level_operator, count, delimit, drop, find_at, find_balanced_parens,
  find_comparison_op, find_regex_delimiter, find_text, find_top_level_pipe, has_prefix, in_string,
  is_extended, is_operator, is_pipe, is_pipe_char, is_plain, is_quote, is_top, next_position,
  push_before, read_escaped, read_level, read_quote, split_at, split_close, starts_with_pipe,
  strip_outer_parens, strip_parens, strip_prefix,
}
use clash_prism_engine.Executor.Expr.Predicate.{
  evaluate_predicate, and_also, comparison, evaluate_level, evaluate_predicate_inner, follow_fields,
  get_nested_field, left_value, negate, or_else, pipe_predicate,
}
use clash_prism_engine.Executor.Expr.Transform.{
  evaluate_transform_expr, assign, body_of, concat, eval_replace_call, field_or_literal,
  field_or_null, has_spread, insert_into, is_after_letter, is_ascii_alphabetic,
  is_ascii_alphanumeric, is_before_word, is_spread, replace_call, replace_field, replace_in,
  replace_string, replace_with, resolve_level, resolve_transform_value,
  resolve_transform_value_inner, transform_body, transform_trimmed, trim_start, value_to_string,
  without_suffix,
}
use clash_prism_engine.Executor.Expr.Functions.{
  apply_binary, apply_unary, eval_builtin_function_on_value, field_name, function_call, on_string,
  on_strings, pipe_binary, resolve_value_expr, try_eval_function_call,
}
use clash_prism_engine.Executor.Expr.Pipe.{
  apply_call, apply_filter, apply_last_filter, apply_pipe_filter, balanced_call, bare_comparison,
  call_comparison, call_filter, compare_call, expect_bool, or_otherwise, resolve_expr,
  resolve_expr_to_value, resolve_pipe_stage, resolve_stage, return_if,
}
use clash_prism_engine.Executor.Expr.Pieces.{
  closes_bracket, is_blank, is_pair, object_pieces, opens_bracket, parse_kv_pair, parse_pairs,
  push_char, push_comma, split_args, split_colon, split_function_args, split_object_pairs,
  trim_matches,
}
use clash_prism_engine.Executor.Expr.Literal.{
  compare_values, escape_regex_replacement, is_quoted, json_to_expr, ordered, parse_json_literal,
  parse_json_trimmed, parse_literal, parse_number, parse_quoted_string_inner, parse_trimmed, quoted,
  text_eq, unescape, unescaped,
}
use clash_prism_engine.Json.Path.{split, split_dots}

-- Digits alone make a number.
abbrev digits_of : ℕ → List Char → Option ℕ
digits_of n [] = some n
digits_of n (c ∷ cs) =
    let rest = digits_of (10 * n + (code c - 48)) cs in
    if leb 48 (code c) && leb (code c) 57 then rest else none

abbrev number_of : List Char → Option ℕ
number_of [] = none
number_of (c ∷ cs) = digits_of 0 (c ∷ cs)

abbrev naturals : Packages ℕ ℕ ℕ (List Char)
naturals = record {
  parse_f64 = number_of;
  of_usize = λ n. n;
  abs_f64 = λ n. n;
  fract = λ n. 0;
  max = λ a b. if ltb a b then b else a;
  sub = λ a b. a - b;
  mul = λ a b. a * b;
  eq_f64 = eqb;
  lt_f64 = ltb;
  le_f64 = leb;
  zero_f64 = 0;
  one_f64 = 1;
  float_epsilon = 0;
  as_i64 = λ n. some n;
  as_f64 = λ n. some n;
  of_i64 = λ n. n;
  parse_i64 = number_of;
  number_of_i64 = λ n. n;
  number_of_f64 = λ n. some n;
  number_zero = 0;
  number_text = λ n. [];
  value_eq = λ v w. false;
  compile = λ pattern. some pattern;
  is_match = contains_text;
  replace_all = λ re text replacement. replacement;
  includes_captures = λ text. none;
  to_lowercase = λ s. s;
  to_uppercase = λ s. s;
}

abbrev proxy_fields : Fields ℕ
proxy_fields = field "name" (string "hk-01") (field "port" (number 443) end)

abbrev proxy : Value ℕ
proxy = object proxy_fields

-- A predicate with a field, and a pipe with two stages.
port_predicate :
    (evaluate_predicate naturals (chars "p.port > 80") proxy ≡ ok true)
    × (evaluate_predicate naturals (chars "p.name | lower | contains(\"hk\")") proxy ≡ ok true)
unfolding evaluate_predicate evaluate_predicate_inner evaluate_level return_if or_otherwise or_else
    and_also negate split_at find_top_level_operator find_at next_position is_operator is_extended
    is_plain is_quote in_string read_level read_quote read_escaped count is_top has_prefix
    strip_prefix is_char find_top_level_pipe is_pipe is_pipe_char starts_with_pipe drop trim
    drop_while is_whitespace strip_outer_parens strip_parens starts_with_char ends_with_char
    comparison find_comparison_op left_value try_eval_function_call function_call find_text and_then
    resolve_value_expr field_name get get_field json_to_expr parse_literal parse_trimmed text_eq
    quoted is_quoted parse_quoted_string_inner unescape unescaped parse_number compare_values
    ordered pipe_predicate resolve_expr_to_value resolve_expr from_name find_balanced_parens
    split_close push_before apply_pipe_filter apply_filter apply_last_filter resolve_pipe_stage
    resolve_stage balanced_call eval_builtin_function_on_value apply_unary apply_binary on_string
    on_strings contains_text pipe_binary apply_call split_function_args split_args push_char
    push_comma opens_bracket closes_bracket is_blank keep compare_call call_comparison
    bare_comparison call_filter expect_bool
port_predicate = (refl, refl)

-- The comparison behind a call with parentheses in a pipe is not read: this text asks whether the
-- name holds `hk` and compares the answer with false, and the result is true.
ignored_comparison :
    evaluate_predicate naturals (chars "p.name | contains(\"hk\") == false") proxy ≡ ok true
unfolding evaluate_predicate evaluate_predicate_inner evaluate_level return_if or_otherwise or_else
    and_also negate split_at find_top_level_operator find_at next_position is_operator is_extended
    is_plain is_quote in_string read_level read_quote read_escaped count is_top has_prefix
    strip_prefix is_char find_top_level_pipe is_pipe is_pipe_char starts_with_pipe drop trim
    drop_while is_whitespace strip_outer_parens strip_parens starts_with_char ends_with_char
    comparison find_comparison_op left_value try_eval_function_call function_call find_text and_then
    resolve_value_expr field_name get get_field json_to_expr parse_literal parse_trimmed text_eq
    quoted is_quoted parse_quoted_string_inner unescape unescaped parse_number compare_values
    ordered pipe_predicate resolve_expr_to_value resolve_expr from_name find_balanced_parens
    split_close push_before apply_pipe_filter apply_filter apply_last_filter resolve_pipe_stage
    resolve_stage balanced_call eval_builtin_function_on_value apply_unary apply_binary on_string
    on_strings contains_text pipe_binary apply_call split_function_args split_args push_char
    push_comma opens_bracket closes_bracket is_blank keep compare_call call_comparison
    bare_comparison call_filter expect_bool
ignored_comparison = refl

-- The replacement between slashes of the documentation is not read, and gives null; the one behind a
-- comma is read.
sed_replacement :
    (evaluate_transform_expr naturals (chars "{name: p.name.replace(/hk/us/)}") proxy
      ≡ ok (object (field "name" null end)))
    × (evaluate_transform_expr naturals (chars "{name: p.name.replace(/hk/, \"us\")}") proxy
        ≡ ok (object (field "name" (string "us") end)))
unfolding evaluate_transform_expr transform_trimmed transform_body body_of has_spread is_spread
    is_after_letter is_before_word is_ascii_alphabetic is_ascii_alphanumeric split_object_pairs
    object_pieces push_char push_comma parse_pairs is_pair is_blank parse_kv_pair split_colon
    trim_matches and_then assign insert_into insert_field resolve_transform_value
    resolve_transform_value_inner resolve_level split_at find_top_level_operator find_at
    next_position is_operator is_extended is_plain is_quote in_string read_level read_quote count
    is_top has_prefix strip_prefix is_char drop trim trim_start drop_while is_whitespace
    starts_with_char ends_with_char eval_replace_call find_text replace_call find_regex_delimiter
    delimit get_nested_field follow_fields split split_dots get get_field replace_field replace_in
    replace_with replace_string without_suffix escape_regex_replacement field_or_literal
    field_or_null concat value_to_string parse_json_literal parse_json_trimmed text_eq quoted
    is_quoted parse_quoted_string_inner unescape unescaped opens_bracket closes_bracket
sed_replacement = (refl, refl)

abbrev renamed : Value ℕ
renamed = object (field "name" (string "hk-01!") (field "port" (number 443) end))

rename : evaluate_transform_expr naturals (chars "{...p, name: p.name + '!'}") proxy ≡ ok renamed
unfolding evaluate_transform_expr transform_trimmed transform_body body_of has_spread is_spread
    is_after_letter is_before_word is_ascii_alphabetic is_ascii_alphanumeric split_object_pairs
    object_pieces push_char push_comma parse_pairs is_pair is_blank parse_kv_pair split_colon
    trim_matches and_then assign insert_into insert_field resolve_transform_value
    resolve_transform_value_inner resolve_level split_at find_top_level_operator find_at
    next_position is_operator is_extended is_plain is_quote in_string read_level read_quote count
    is_top has_prefix strip_prefix is_char drop trim trim_start drop_while is_whitespace
    starts_with_char ends_with_char eval_replace_call find_text replace_call find_regex_delimiter
    delimit get_nested_field follow_fields split split_dots get get_field replace_field replace_in
    replace_with replace_string without_suffix escape_regex_replacement field_or_literal
    field_or_null concat value_to_string parse_json_literal parse_json_trimmed text_eq quoted
    is_quoted parse_quoted_string_inner unescape unescaped opens_bracket closes_bracket
rename = refl
