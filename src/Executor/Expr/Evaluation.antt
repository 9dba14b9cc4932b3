-- ===== src/Executor/Expr/Evaluation.antt =====
-- crates/clash-prism-core/src/executor.rs and executor/expr.rs: the executor's operations on arrays
-- with the evaluator of expressions.
use mathlib.Core.Path.{fun_ext}
use clash_prism_engine.Base.{
  String, Bool, false, not, Option, none, some, ◌≡◌, subst, inl, inr, arith, keep, map, Outcome, ok,
  err, Outcome-cases,
}
use clash_prism_engine.Base.Text.{chars}
use clash_prism_engine.Json.{Value}
use clash_prism_engine.Ir.{Patch}
use clash_prism_engine.Executor.{Evaluator, transform_or_keep}
use clash_prism_engine.Executor.Arrays.{
  filter_verdict, remove_verdict, execute_filter_in_place, execute_remove_in_place,
  execute_transform_in_place,
}
use clash_prism_engine.Executor.Arrays.Steps.{IsArrayStep}
use clash_prism_engine.Executor.Arrays.Counts.{array_ops_lem}
use clash_prism_engine.Executor.Expr.{ExprError, Packages}
use clash_prism_engine.Executor.Expr.Predicate.{evaluate_predicate}
use clash_prism_engine.Executor.Expr.Transform.{evaluate_transform_expr}

unfoldable pub to_option : {A : Type 0} → Outcome A ExprError → Option A
to_option (ok a) = some a
to_option (err e) = none

-- Only a predicate that is false drops an item of `$filter`, and only a true one that of `$remove`.
abbrev pub is_false : Outcome Bool ExprError → Bool
is_false (ok b) = not b
is_false (err e) = false

abbrev pub is_true : Outcome Bool ExprError → Bool
is_true (ok b) = b
is_true (err e) = false

abbrev pub ok_or : {A : Type 0} → A → Outcome A ExprError → A
ok_or other (ok a) = a
ok_or other (err e) = other

module _ {N F I R : Type 0} (pk : Packages N F I R) (to_string : Value N → Option String) where
  -- The evaluator that the executor calls.
  abbrev pub evaluator : Evaluator N
  evaluator = record {
    predicate = λ expr item. to_option (evaluate_predicate pk (chars expr) item);
    transform = λ expr item. to_option (evaluate_transform_expr pk (chars expr) item);
    to_string = to_string;
  }

  filter_verdict-evaluator :
      (expr : String) (item : Value N)
      → (filter_verdict evaluator expr item).0
        ≡ not (is_false (evaluate_predicate pk (chars expr) item))
  unfolding filter_verdict to_option
  filter_verdict-evaluator expr item =
      elim (Outcome-cases (evaluate_predicate pk (chars expr) item)) [
        | inl (e, h) ↦ ground (arith, h)
        | inr (b, h) ↦ ground (arith, h)
      ]

  remove_verdict-evaluator :
      (expr : String) (item : Value N)
      → (remove_verdict evaluator expr item).0
        ≡ not (is_true (evaluate_predicate pk (chars expr) item))
  unfolding remove_verdict to_option
  remove_verdict-evaluator expr item =
      elim (Outcome-cases (evaluate_predicate pk (chars expr) item)) [
        | inl (e, h) ↦ ground (arith, h)
        | inr (b, h) ↦ ground (arith, h)
      ]

  transform_or_keep-evaluator :
      (expr : String) (item : Value N)
      → transform_or_keep evaluator expr item
        ≡ ok_or item (evaluate_transform_expr pk (chars expr) item)
  unfolding transform_or_keep to_option
  transform_or_keep-evaluator expr item =
      elim (Outcome-cases (evaluate_transform_expr pk (chars expr) item)) [
        | inl (e, h) ↦ ground (arith, h)
        | inr (b, h) ↦ ground (arith, h)
      ]

  -- On the array at its path, `$filter` keeps the items whose predicate is not false, `$remove` those
  -- whose predicate is not true, and `$transform` replaces each item by the result of its
  -- expression, or keeps it where that fails; the summaries count the items.
  pub array_ops_evaluate :
      (config : Value N) (patch : Patch (Value N)) (expr : String)
      → IsArrayStep config patch.path
          (keep (λ x. not (is_false (evaluate_predicate pk (chars expr) x))))
          (execute_filter_in_place evaluator config patch expr)
        × IsArrayStep config patch.path
            (keep (λ x. not (is_true (evaluate_predicate pk (chars expr) x))))
            (execute_remove_in_place evaluator config patch expr)
        × IsArrayStep config patch.path
            (map (λ x. ok_or x (evaluate_transform_expr pk (chars expr) x)))
            (execute_transform_in_place evaluator config patch expr)
  array_ops_evaluate config patch expr =
      let (_, _, filtered, removed, transformed) = array_ops_lem evaluator config patch expr in
      (
        subst
            (λ f.
              IsArrayStep config patch.path (keep f)
                (execute_filter_in_place evaluator config patch expr))
            (fun_ext (filter_verdict-evaluator expr)) filtered,
        subst
            (λ f.
              IsArrayStep config patch.path (keep f)
                (execute_remove_in_place evaluator config patch expr))
            (fun_ext (remove_verdict-evaluator expr)) removed,
        subst
            (λ f.
              IsArrayStep config patch.path (map f)
                (execute_transform_in_place evaluator config patch expr))
            (fun_ext (transform_or_keep-evaluator expr)) transformed,
      )
