-- ===== src/Executor/Expr/Predicate/Formulas.antt =====
-- crates/clash-prism-core/src/executor/expr.rs: predicates written from formulas, with a pair of
-- parentheses around each operand.
use Prim.Native.Char.{Char}
use clash_prism_engine.Base.{
  ℕ, zero, suc, ◌≤◌, ◌<◌, Bool, true, false, not, List, [], ◌∷◌, ◌≡◌, refl, ap, ◌∙◌, arith, length,
  length-append, if◌then◌else◌, Outcome, ok, and_then,
}
use clash_prism_engine.Base.Text.{chars, is_char}
use clash_prism_engine.Json.{Value}
use clash_prism_engine.Executor.Expr.{ExprError, Packages}
use clash_prism_engine.Executor.Expr.Scan.{
  strip_prefix, has_prefix, read_quote, is_plain, is_quote, in_string, is_top, is_extended, count,
  read_level, is_operator, split_at,
}
use clash_prism_engine.Executor.Expr.Scan.Balanced.{closed_after, IsBalanced, is_balanced, closing}
use clash_prism_engine.Executor.Expr.Scan.Groups.{group, joined_by}
use clash_prism_engine.Executor.Expr.Scan.Joins.{
  not_operator, length-joined_by, trim-joined_by, trim_not, trim-group,
  find_top_level_operator-group, find_top_level_pipe-group, strip_outer_parens-group,
  split_at-joined_by, other_operator-joined_by,
}
use clash_prism_engine.Executor.Expr.Pipe.{return_if}
use clash_prism_engine.Executor.Expr.Predicate.{
  or_else, and_also, negate, evaluate_level, evaluate_predicate_inner, evaluate_predicate,
}
use clash_prism_engine.Executor.Expr.Predicate.Depth.{evaluate_predicate_inner_enough}

-- A formula over the texts of predicates.
pub data Formula : Type 0 where
  atom : List Char → Formula
  or_of : Formula → Formula → Formula
  and_of : Formula → Formula → Formula
  not_of : Formula → Formula

abbrev pub print : Formula → List Char
print (atom t) = t
print (or_of f g) = joined_by "|" (print f) (print g)
print (and_of f g) = joined_by "&" (print f) (print g)
print (not_of f) = "!" ∷ group (print f)

-- The value of a formula for values of its atoms, with the errors of the operands that are needed.
unfoldable pub value : (List Char → Outcome Bool ExprError) → Formula → Outcome Bool ExprError
value v (atom t) = v t
value v (or_of f g) =
    let right = value v g in and_then (value v f) (λ a. if a then ok true else right)
value v (and_of f g) =
    let right = value v g in and_then (value v f) (λ a. if a then right else ok false)
value v (not_of f) = and_then (value v f) (λ a. ok (not a))

-- The atoms close their strings and parentheses.
abbrev pub AreBalanced : Formula → Type 0
AreBalanced (atom t) = IsBalanced t
AreBalanced (or_of f g) = AreBalanced f × AreBalanced g
AreBalanced (and_of f g) = AreBalanced f × AreBalanced g
AreBalanced (not_of f) = AreBalanced f

print-IsBalanced : (f : Formula) → AreBalanced f → IsBalanced (print f)
unfolding is_balanced is_plain is_quote in_string is_char read_quote count
print-IsBalanced (atom t) h = h
print-IsBalanced (or_of f g) (hf, hg) =
    closed_after (print f) ("|" ∷ "|" ∷ group (print g)) (print-IsBalanced f hf)
      (closed_after (print g) [] (print-IsBalanced g hg) refl)
print-IsBalanced (and_of f g) (hf, hg) =
    closed_after (print f) ("&" ∷ "&" ∷ group (print g)) (print-IsBalanced f hf)
      (closed_after (print g) [] (print-IsBalanced g hg) refl)
print-IsBalanced (not_of f) h = closed_after (print f) [] (print-IsBalanced f h) refl

module _ {N F I R : Type 0} (pk : Packages N F I R) where
  level_group :
      (d : List Char → Outcome Bool ExprError) (t : List Char) (item : Value N)
      → IsBalanced t
      → evaluate_level pk d (group t) item ≡ d t
  unfolding evaluate_level return_if split_at strip_prefix is_char
  level_group d t item h =
      rw
        (
          find_top_level_operator-group (chars "||") t h,
          find_top_level_operator-group (chars "&&") t h,
          find_top_level_pipe-group t h,
          strip_outer_parens-group t h,
        )
        refl

  level_and :
      (d : List Char → Outcome Bool ExprError) (s t : List Char) (item : Value N)
      → IsBalanced s
      → IsBalanced t
      → evaluate_level pk d (joined_by "&" s t) item ≡ and_also d (group s, group t)
  unfolding evaluate_level return_if is_operator is_plain is_quote in_string is_char is_top
      has_prefix strip_prefix is_extended read_level read_quote count split_at
  level_and d s t item hs ht =
      rw
        (
          other_operator-joined_by "&" "|" s t hs ht (λ n prev cs. ground arith) (λ n. refl),
          split_at-joined_by "&" s t hs (λ n. ground arith),
        )
        refl

  level_not :
      (d : List Char → Outcome Bool ExprError) (t : List Char) (item : Value N)
      → IsBalanced t
      → evaluate_level pk d ("!" ∷ group t) item ≡ negate d (group t)
  unfolding evaluate_level return_if is_operator is_plain is_quote in_string is_char has_prefix
      strip_prefix split_at
  level_not d t item h =
      rw (not_operator "|" t h (ground arith), not_operator "&" t h (ground arith)) refl

  level_or :
      (d : List Char → Outcome Bool ExprError) (s t : List Char) (item : Value N)
      → IsBalanced s
      → evaluate_level pk d (joined_by "|" s t) item ≡ or_else d (group s, group t)
  unfolding evaluate_level return_if is_operator is_plain is_quote in_string is_char is_top
      has_prefix strip_prefix is_extended
  level_or d s t item hs = rw (split_at-joined_by "|" s t hs (λ n. ground arith)) refl

  inner_group :
      (n : ℕ) (t : List Char) (item : Value N)
      → IsBalanced t
      → evaluate_predicate_inner pk (suc n) (group t) item ≡ evaluate_predicate_inner pk n t item
  unfolding evaluate_predicate_inner
  inner_group n t item h =
      ap (λ z. evaluate_level pk (λ inner. evaluate_predicate_inner pk n inner item) z item)
        (trim-group t)
      ∙ level_group (λ inner. evaluate_predicate_inner pk n inner item) t item h

  print_lem :
      (n : ℕ) (f : Formula) (item : Value N)
      → AreBalanced f
      → length (print f) < n
      → length (print f) ≤ 64
      → evaluate_predicate_inner pk n (print f) item ≡ value (λ t. evaluate_predicate pk t item) f
  unfolding evaluate_predicate_inner value or_else and_also negate evaluate_predicate
  print_lem n (atom t) item h less short =
      evaluate_predicate_inner_enough pk n 65 t item less (omega (arith, short))
  print_lem zero (or_of f g) item h less short = absurd (omega (arith, less))
  print_lem (suc zero) (or_of f g) item h less short = absurd (omega (arith, less))
  print_lem (suc (suc n)) (or_of f g) item (hf, hg) less short =
      let size = length-joined_by "|" (print f) (print g) in
      let d = λ (inner : List Char). evaluate_predicate_inner pk (suc n) inner item in
      let left =
        inner_group n (print f) item (print-IsBalanced f hf)
        ∙ print_lem n f item hf (omega (arith, size, less)) (omega (arith, size, short)) in
      let right =
        inner_group n (print g) item (print-IsBalanced g hg)
        ∙ print_lem n g item hg (omega (arith, size, less)) (omega (arith, size, short)) in
      ap (λ z. evaluate_level pk d z item) (trim-joined_by "|" (print f) (print g))
      ∙ level_or d (print f) (print g) item (print-IsBalanced f hf)
      ∙ rw (left, right) refl
  print_lem zero (and_of f g) item h less short = absurd (omega (arith, less))
  print_lem (suc zero) (and_of f g) item h less short = absurd (omega (arith, less))
  print_lem (suc (suc n)) (and_of f g) item (hf, hg) less short =
      let size = length-joined_by "&" (print f) (print g) in
      let d = λ (inner : List Char). evaluate_predicate_inner pk (suc n) inner item in
      let left =
        inner_group n (print f) item (print-IsBalanced f hf)
        ∙ print_lem n f item hf (omega (arith, size, less)) (omega (arith, size, short)) in
      let right =
        inner_group n (print g) item (print-IsBalanced g hg)
        ∙ print_lem n g item hg (omega (arith, size, less)) (omega (arith, size, short)) in
      ap (λ z. evaluate_level pk d z item) (trim-joined_by "&" (print f) (print g))
      ∙ level_and d (print f) (print g) item (print-IsBalanced f hf) (print-IsBalanced g hg)
      ∙ rw (left, right) refl
  print_lem zero (not_of f) item h less short = absurd (omega (arith, less))
  print_lem (suc zero) (not_of f) item h less short = absurd (omega (arith, less))
  print_lem (suc (suc n)) (not_of f) item h less short =
      let size = length-append (print f) (closing ∷ []) in
      let d = λ (inner : List Char). evaluate_predicate_inner pk (suc n) inner item in
      let inside =
        inner_group n (print f) item (print-IsBalanced f h)
        ∙ print_lem n f item h (omega (arith, size, less)) (omega (arith, size, short)) in
      ap (λ z. evaluate_level pk d z item) (trim_not (print f))
      ∙ level_not d (print f) item (print-IsBalanced f h)
      ∙ rw (trim-group (print f), inside) refl

  -- A formula written with `||`, `&&` and `!` around operands in parentheses, over atoms that close
  -- their strings and parentheses, evaluates as its operands do, with `||` and `&&` leaving out a
  -- right operand that is not needed. The text has at most 64 characters, which keeps it off the
  -- limit on the depth.
  pub evaluate_predicate-print :
      (f : Formula) (item : Value N)
      → AreBalanced f
      → length (print f) ≤ 64
      → evaluate_predicate pk (print f) item ≡ value (λ t. evaluate_predicate pk t item) f
  unfolding evaluate_predicate
  evaluate_predicate-print f item h short = print_lem 65 f item h (omega (arith, short)) short
