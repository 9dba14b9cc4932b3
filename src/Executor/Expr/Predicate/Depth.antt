-- ===== src/Executor/Expr/Predicate/Depth.antt =====
-- crates/clash-prism-core/src/executor/expr.rs: the limit on the depth of a predicate.
use Prim.Native.Char.{Char}
use clash_prism_engine.Base.{
  ◌⊎◌, leb, leb→le, Outcome-cases, sym, ◌∙◌, err, ℕ, zero, suc, ◌≤◌, ◌<◌, Bool, true, false, not,
  List, Option, none, some, ◌≡◌, refl, inl, inr, arith, length, if◌then◌else◌, Outcome, ok,
  and_then, and_then-ok, Bool-cases,
}
use clash_prism_engine.Base.Text.{chars, trim}
use clash_prism_engine.Json.{Value}
use clash_prism_engine.Executor.Expr.{ExprError, Packages}
use clash_prism_engine.Executor.Expr.Scan.Shorter.{
  length-trim_le, operator-AreShorter, strip_prefix_shorter, strip_outer_parens_shorter,
}
use clash_prism_engine.Executor.Expr.Pipe.{return_if}
use clash_prism_engine.Executor.Expr.Pipe.Stages.{return_if_agree}
use clash_prism_engine.Executor.Expr.Predicate.{
  or_else, and_also, negate, evaluate_level, evaluate_predicate_inner, evaluate_predicate,
}

abbrev Recursion : Type 0
Recursion = List Char → Outcome Bool ExprError

-- Two recursions agree on the texts shorter than an expression.
abbrev AgreeBelow : List Char → Recursion → Recursion → Type 0
AgreeBelow expr f g = (t : List Char) → length t < length expr → f t ≡ g t

module _ {N F I R : Type 0} (pk : Packages N F I R) where
  -- A level calls its recursion on shorter texts only.
  evaluate_level_agree :
      (f g : Recursion) (expr : List Char) (item : Value N)
      → AgreeBelow expr f g
      → evaluate_level pk f expr item ≡ evaluate_level pk g expr item
  unfolding evaluate_level or_else and_also negate
  evaluate_level_agree f g expr item agree =
      return_if_agree _ _ _ _ _
        (λ (l, r) e.
          let (sl, sr) = operator-AreShorter 1 expr (chars "||") (l, r) e in
          rw (agree l sl, agree r sr) refl)
        (return_if_agree _ _ _ _ _
          (λ (l, r) e.
            let (sl, sr) = operator-AreShorter 1 expr (chars "&&") (l, r) e in
            rw (agree l sl, agree r sr) refl)
          (return_if_agree _ _ _ _ _
            (λ rest e.
              let less = strip_prefix_shorter "!" expr rest e in
              rw (agree (trim rest) (omega (arith, less, length-trim_le rest))) refl)
            (return_if_agree _ _ _ _ _ (λ sides e. refl)
              (return_if_agree _ _ _ _ _
                (λ inner e. agree inner (strip_outer_parens_shorter expr inner e)) refl))))

  -- With more levels than characters, one more changes nothing, in particular no error.
  pub evaluate_predicate_inner_enough :
      (n m : ℕ) (expr : List Char) (item : Value N)
      → length expr < n
      → length expr < m
      → evaluate_predicate_inner pk n expr item ≡ evaluate_predicate_inner pk m expr item
  unfolding evaluate_predicate_inner
  evaluate_predicate_inner_enough zero m expr item ln lm = absurd (omega (arith, ln))
  evaluate_predicate_inner_enough (suc n) zero expr item ln lm = absurd (omega (arith, lm))
  evaluate_predicate_inner_enough (suc n) (suc m) expr item ln lm =
      evaluate_level_agree (λ t. evaluate_predicate_inner pk n t item)
        (λ t. evaluate_predicate_inner pk m t item) (trim expr) item
        (λ t less.
          evaluate_predicate_inner_enough n m t item (omega (arith, ln, less, length-trim_le expr))
            (omega (arith, lm, less, length-trim_le expr)))

-- What one recursion gives as a result, the other gives too.
abbrev Extends : Recursion → Recursion → Type 0
Extends f g = (t : List Char) (b : Bool) → f t ≡ ok b → g t ≡ ok b

return_if_ok {ℓ κ} :
    {A : Type ℓ} {B : Type κ} (o : Option A) (f g : A → B) (b c r : B)
    → ((a : A) → f a ≡ r → g a ≡ r)
    → (b ≡ r → c ≡ r)
    → return_if o f b ≡ r
    → return_if o g c ≡ r
unfolding return_if
return_if_ok none f g b c r same rest h = rest h
return_if_ok (some a) f g b c r same rest h = same a h

or_else-ok :
    (f g : Recursion) (sides : List Char × List Char) (b : Bool)
    → Extends f g
    → or_else f sides ≡ ok b
    → or_else g sides ≡ ok b
unfolding or_else and_then
or_else-ok f g (l, r) b ext h =
    let (a, el, rest) = and_then-ok (f l) (λ a. if a then ok true else f r) b h in
    elim (Bool-cases a) [
      | inl t ↦ ground (arith, ext l a el, rest, t)
      | inr t ↦ ground (arith, ext l a el, t, ext r b (ground (arith, rest, t)))
    ]

and_also-ok :
    (f g : Recursion) (sides : List Char × List Char) (b : Bool)
    → Extends f g
    → and_also f sides ≡ ok b
    → and_also g sides ≡ ok b
unfolding and_also and_then
and_also-ok f g (l, r) b ext h =
    let (a, el, rest) = and_then-ok (f l) (λ a. if a then f r else ok false) b h in
    elim (Bool-cases a) [
      | inl t ↦ ground (arith, ext l a el, t, ext r b (ground (arith, rest, t)))
      | inr t ↦ ground (arith, ext l a el, rest, t)
    ]

negate-ok :
    (f g : Recursion) (inner : List Char) (b : Bool)
    → Extends f g
    → negate f inner ≡ ok b
    → negate g inner ≡ ok b
unfolding negate and_then
negate-ok f g inner b ext h =
    let (a, e, rest) = and_then-ok (f (trim inner)) (λ a. ok (not a)) b h in
    ground (arith, ext (trim inner) a e, rest)

module _ {N F I R : Type 0} (pk : Packages N F I R) where
  evaluate_level-ok :
      (f g : Recursion) (expr : List Char) (item : Value N) (b : Bool)
      → Extends f g
      → evaluate_level pk f expr item ≡ ok b
      → evaluate_level pk g expr item ≡ ok b
  unfolding evaluate_level
  evaluate_level-ok f g expr item b ext =
      return_if_ok _ _ _ _ _ _ (λ s. or_else-ok f g s b ext)
        (return_if_ok _ _ _ _ _ _ (λ s. and_also-ok f g s b ext)
          (return_if_ok _ _ _ _ _ _ (λ s. negate-ok f g s b ext)
            (return_if_ok _ _ _ _ _ _ (λ s h. h)
              (return_if_ok _ _ _ _ _ _ (λ s. ext s b) (λ h. h)))))

  evaluate_predicate_inner-ok :
      (n m : ℕ) (expr : List Char) (item : Value N) (b : Bool)
      → n ≤ m
      → evaluate_predicate_inner pk n expr item ≡ ok b
      → evaluate_predicate_inner pk m expr item ≡ ok b
  unfolding evaluate_predicate_inner
  evaluate_predicate_inner-ok zero m expr item b le h = absurd (ground arith)
  evaluate_predicate_inner-ok (suc n) zero expr item b le h = absurd (omega (arith, le))
  evaluate_predicate_inner-ok (suc n) (suc m) expr item b le h =
      evaluate_level-ok (λ t. evaluate_predicate_inner pk n t item)
        (λ t. evaluate_predicate_inner pk m t item) (trim expr) item b
        (λ t c. evaluate_predicate_inner-ok n m t item c (omega (arith, le))) h

  -- Where the number of levels is above the limit of 64 and above the length of the expression, it
  -- makes no difference: the evaluation without a limit gives what `evaluate_predicate` gives, its
  -- error included. The only exception is an expression of more than 64 characters for which
  -- `evaluate_predicate` gives an error.
  pub evaluate_predicate_lem :
      (n : ℕ) (expr : List Char) (item : Value N)
      → 64 < n
      → length expr < n
      → (evaluate_predicate_inner pk n expr item ≡ evaluate_predicate pk expr item)
        ⊎ ((64 < length expr) × (e : ExprError) × (evaluate_predicate pk expr item ≡ err e))
  unfolding evaluate_predicate
  evaluate_predicate_lem n expr item more enough =
      elim (Outcome-cases (evaluate_predicate_inner pk 65 expr item)) [
        | inr (b, h) ↦
            inl (evaluate_predicate_inner-ok 65 n expr item b (omega (arith, more)) h ∙ sym h)
        | inl (e, h) ↦ elim (Bool-cases (leb (length expr) 64)) [
          | inl short ↦ inl (
              evaluate_predicate_inner_enough pk n 65 expr item enough
                (let le = leb→le (length expr) 64 short in omega (arith, le)))
          | inr long ↦ inr (ground (arith, long), e, h)
        ]
      ]
