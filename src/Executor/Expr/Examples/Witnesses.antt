-- ===== src/Executor/Expr/Examples/Witnesses.antt =====
-- crates/clash-prism-core/src/executor/expr.rs: the theorems about expressions at concrete texts.
use Prim.Native.Char.{Char}
use clash_prism_engine.Base.{
  ◌⊎◌, err, ℕ, false, Option, none, some, List, [], ◌≡◌, refl, arith, if◌then◌else◌, length, ok,
  keep, String, ◌≤◌, ◌<◌, ◌↔◌, not, map,
}
use clash_prism_engine.Base.Text.{chars, is_char, trim, of_chars}
use clash_prism_engine.Json.{Value, null, string, array, object, end, field, nil, cons}
use clash_prism_engine.Executor.Expr.{ExprError, expr_string}
use clash_prism_engine.Executor.Expr.Scan.{
  find_top_level_operator, count, find_regex_delimiter, in_string, is_plain, is_quote, read_quote,
}
use clash_prism_engine.Executor.Expr.Predicate.{evaluate_predicate, evaluate_predicate_inner}
use clash_prism_engine.Executor.Expr.Transform.{evaluate_transform_expr, body_of, has_spread}
use clash_prism_engine.Executor.Expr.Pipe.{compare_call}
use clash_prism_engine.Executor.Expr.Pieces.{split_object_pairs}
use clash_prism_engine.Executor.Expr.Literal.{parse_json_literal, parse_literal}
use clash_prism_engine.Executor.Expr.Scan.Balanced.{is_balanced}
use clash_prism_engine.Executor.Expr.Scan.Operator.{IsOperatorAt, find_top_level_operator_iff}
use clash_prism_engine.Executor.Expr.Scan.Delimiter.{IsDelimited, find_regex_delimiter_iff}
use clash_prism_engine.Executor.Expr.Literal.Escape.{write_literal, parse_literal-write_literal}
use clash_prism_engine.Executor.Expr.Pipe.Unreached.{compare_call-none}
use clash_prism_engine.Executor.Expr.Predicate.Depth.{evaluate_predicate_lem}
use clash_prism_engine.Executor.Expr.Predicate.Formulas.{
  Formula, atom, and_of, not_of, print, value, evaluate_predicate-print,
}
use clash_prism_engine.Executor.Expr.Transform.Assigned.{
  assigned, HoldsField, evaluate_transform_expr_lem,
}
use clash_prism_engine.Executor.Expr.Evaluation.{
  evaluator, is_false, is_true, ok_or, array_ops_evaluate,
}
use clash_prism_engine.Scope.{global}
use clash_prism_engine.Ir.{PatchOp, Patch, builtin}
use clash_prism_engine.Executor.Arrays.{
  execute_filter_in_place, execute_remove_in_place, execute_transform_in_place,
}
use clash_prism_engine.Executor.Arrays.Steps.{IsArrayStep}
use clash_prism_engine.Executor.Expr.Examples.{naturals, proxy_fields, proxy, renamed, rename}

-- An atom with a parenthesis in a string, and a formula over it.
abbrev name_atom : List Char
name_atom = chars "p.name != \")\""

abbrev formula : Formula
formula = and_of (atom name_atom) (not_of (atom (chars "p.port < 80")))

evaluate_predicate-print_example :
    evaluate_predicate naturals (print formula) proxy
    ≡ value (λ t. evaluate_predicate naturals t proxy) formula
unfolding is_balanced is_plain is_quote in_string is_char read_quote count
evaluate_predicate-print_example =
    evaluate_predicate-print naturals formula proxy (refl, refl) (omega arith)

evaluate_predicate_lem_example :
    (evaluate_predicate_inner naturals 70 name_atom proxy
      ≡ evaluate_predicate naturals name_atom proxy)
    ⊎ ((64 < length name_atom)
        × (e : ExprError) × (evaluate_predicate naturals name_atom proxy ≡ err e))
evaluate_predicate_lem_example =
    evaluate_predicate_lem naturals 70 name_atom proxy (omega arith) (omega arith)

parse_literal-write_literal_example :
    (parse_literal naturals (write_literal (chars "a\"\n")) ≡ ok (expr_string (chars "a\"\n")))
    × (parse_json_literal naturals (write_literal (chars "a\"\n"))
        ≡ ok (string (of_chars (chars "a\"\n"))))
parse_literal-write_literal_example = parse_literal-write_literal naturals (chars "a\"\n")

abbrev rename_text : List Char
rename_text = chars "{...p, name: p.name + '!'}"

evaluate_transform_expr_lem_example :
    (pairs : List (List Char × List Char)) × (split_object_pairs (body_of (trim rename_text))
      ≡ ok pairs)
    × ((k : String)
        → HoldsField naturals k
            (assigned k pairs)
            proxy
            renamed
            (object (if has_spread none (body_of (trim rename_text)) then proxy_fields else end)))
evaluate_transform_expr_lem_example =
    evaluate_transform_expr_lem naturals rename_text proxy_fields renamed rename

find_top_level_operator_iff_example :
    (find_top_level_operator (chars "(a || b) || c") (chars "||") ≡ some 9) ↔ (
      IsOperatorAt (chars "(a || b) || c") (chars "||") 9
      × ((m : ℕ) → IsOperatorAt (chars "(a || b) || c") (chars "||") m → 9 ≤ m))
find_top_level_operator_iff_example =
    find_top_level_operator_iff (chars "(a || b) || c") (chars "||") 9

find_regex_delimiter_iff_example :
    (find_regex_delimiter (chars "a\\/b/c") 47 ≡ ok (chars "a\\/b", chars "c"))
    ↔ IsDelimited false 47 (chars "a\\/b/c") (chars "a\\/b") (chars "c")
find_regex_delimiter_iff_example =
    find_regex_delimiter_iff (chars "a\\/b/c") (chars "a\\/b") (chars "c") 47

compare_call-none_example :
    compare_call naturals (chars "len() > 3") (expr_string (chars "hk")) ≡ none
compare_call-none_example =
    compare_call-none naturals (chars "len() > 3") (expr_string (chars "hk"))

abbrev filter_patch : Patch (Value ℕ)
filter_patch = record {
  id = "1";
  source = record { kind = builtin; file = none; line = none; plugin_id = none };
  scope = global;
  path = "proxies";
  op = PatchOp.append;
  value = null;
  condition = none;
  after = [];
  sub_ops = [];
}

abbrev config : Value ℕ
config = object (field "proxies" (array (cons proxy nil)) end)

abbrev silent : Value ℕ → Option String
silent item = none

array_ops_evaluate_example :
    IsArrayStep config "proxies"
      (keep (λ x. not (is_false (evaluate_predicate naturals (chars "p.port > 80") x))))
      (execute_filter_in_place (evaluator naturals silent) config filter_patch "p.port > 80")
    × IsArrayStep config "proxies"
        (keep (λ x. not (is_true (evaluate_predicate naturals (chars "p.port > 80") x))))
        (execute_remove_in_place (evaluator naturals silent) config filter_patch "p.port > 80")
    × IsArrayStep config "proxies"
        (map (λ x. ok_or x (evaluate_transform_expr naturals (chars "p.port > 80") x)))
        (execute_transform_in_place (evaluator naturals silent) config filter_patch "p.port > 80")
array_ops_evaluate_example = array_ops_evaluate naturals silent config filter_patch "p.port > 80"
