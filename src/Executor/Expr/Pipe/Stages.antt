-- ===== src/Executor/Expr/Pipe/Stages.antt =====
-- crates/clash-prism-core/src/executor/expr.rs: the recursion of `apply_pipe_filter` over the stages
-- of a pipe, and the comparison behind a call with parentheses.
use Prim.Native.Char.{Char}
use clash_prism_engine.Base.{
  ℕ, zero, suc, ◌<◌, Option, none, some, List, ◌≡◌, refl, arith, length, Outcome, ok, err, and_then,
}
use clash_prism_engine.Base.Text.{trim}
use clash_prism_engine.Json.{Value}
use clash_prism_engine.Executor.Expr.{ExprValue, Packages}
use clash_prism_engine.Executor.Expr.Scan.{find_top_level_pipe, split_at}
use clash_prism_engine.Executor.Expr.Scan.Shorter.{length-trim_le, pipe-AreShorter}
use clash_prism_engine.Executor.Expr.Pipe.{
  return_if, resolve_pipe_stage, apply_last_filter, apply_filter, apply_pipe_filter,
}

and_then_agree {ℓ κ μ} :
    {A : Type ℓ} {B : Type κ} {E : Type μ} (m : Outcome A E) (f g : A → Outcome B E)
    → ((a : A) → f a ≡ g a)
    → and_then m f ≡ and_then m g
unfolding and_then
and_then_agree (err e) f g same = refl
and_then_agree (ok a) f g same = same a

pub return_if_agree {ℓ κ} :
    {A : Type ℓ} {B : Type κ} (o : Option A) (f g : A → B) (b c : B)
    → ((a : A) → o ≡ some a → f a ≡ g a)
    → b ≡ c
    → return_if o f b ≡ return_if o g c
unfolding return_if
return_if_agree none f g b c same rest = rest
return_if_agree (some a) f g b c same rest = same a refl

module _ {N F I R : Type 0} (pk : Packages N F I R) where
  apply_filter_enough :
      (n m : ℕ) (left : ExprValue N F) (right : List Char) (item : Value N)
      → length right < n
      → length right < m
      → apply_filter pk n left right item ≡ apply_filter pk m left right item
  unfolding apply_filter
  apply_filter_enough zero m left right item ln lm = absurd (omega (arith, ln))
  apply_filter_enough (suc n) zero left right item ln lm = absurd (omega (arith, lm))
  apply_filter_enough (suc n) (suc m) left right item ln lm =
      return_if_agree _ _ _ _ _
        (λ sides e.
          let less = (pipe-AreShorter 0 (trim right) sides e).1 in
          and_then_agree (resolve_pipe_stage pk left (sides.0)) _ _ (λ intermediate.
            apply_filter_enough n m intermediate (sides.1) item
              (omega (arith, ln, less, length-trim_le right))
              (omega (arith, lm, less, length-trim_le right))))
        refl

  -- `apply_pipe_filter` is the recursion of the source: without a pipe it applies the last filter,
  -- and with one it goes on with the value of the first stage and the text behind the pipe.
  pub apply_pipe_filter_lem :
      (left : ExprValue N F) (right : List Char) (item : Value N)
      → apply_pipe_filter pk left right item
        ≡ return_if
            (split_at 1 (find_top_level_pipe (trim right)) (trim right))
            (λ sides.
              and_then
                (resolve_pipe_stage pk left (sides.0))
                (λ intermediate. apply_pipe_filter pk intermediate (sides.1) item))
            (apply_last_filter pk left (trim right) item)
  unfolding apply_pipe_filter apply_filter
  apply_pipe_filter_lem left right item =
      return_if_agree _ _ _ _ _
        (λ sides e.
          let less = (pipe-AreShorter 0 (trim right) sides e).1 in
          and_then_agree (resolve_pipe_stage pk left (sides.0)) _ _ (λ intermediate.
            apply_filter_enough (length right) (suc (length (sides.1))) intermediate (sides.1) item
              (omega (arith, less, length-trim_le right)) (omega arith)))
        refl
