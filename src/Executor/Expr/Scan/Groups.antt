-- ===== src/Executor/Expr/Scan/Groups.antt =====
-- crates/clash-prism-core/src/executor/expr.rs: the searches over texts in parentheses.
use Prim.Native.Char.{Char}
use clash_prism_engine.Base.{
  ℕ, zero, suc, Bool, false, Option, none, some, List, [], ◌∷◌, ◌++◌, ◌≡◌, refl, ap, ◌∙◌, arith,
  length,
}
use clash_prism_engine.Base.Text.{is_char}
use clash_prism_engine.Executor.Expr.Scan.{
  next_position, no_quote, in_string, is_quote, is_plain, read_quote, count, Level, read_level,
  is_top, find_at, is_pipe, is_operator,
}
use clash_prism_engine.Executor.Expr.Scan.Balanced.{
  IsBalanced, closing, level, shift, find_at_balanced, GoesOn,
}

-- A text in parentheses, and two around an operator of two equal characters.
abbrev pub group : List Char → List Char
group t = "(" ∷ (t ++ closing ∷ [])

abbrev pub joined_by : Char → (s t : List Char) → List Char
joined_by a s t = "(" ∷ (s ++ closing ∷ a ∷ a ∷ group t)

pub operator_below :
    (op : List Char) (l : Level) (prev : Option Char) (cs : List Char)
    → is_top l ≡ false
    → is_operator op l prev cs ≡ false
unfolding is_operator
operator_below op l prev [] h = refl
operator_below op l prev (c ∷ cs) h = ground (arith, h)

pub pipe_below :
    (l : Level) (prev : Option Char) (cs : List Char) → is_top l ≡ false → is_pipe l prev cs ≡ false
unfolding is_pipe
pipe_below l prev [] h = refl
pipe_below l prev (c ∷ cs) h = ground (arith, h)

pub shift-none : (n : ℕ) → shift n none ≡ none
unfolding shift next_position
shift-none zero = refl
shift-none (suc n) = ap next_position (shift-none n)

pub shift-zero : (n : ℕ) → shift n (some 0) ≡ some n
unfolding shift next_position
shift-zero zero = refl
shift-zero (suc n) = ap next_position (shift-zero n)

module _ (test : Level → Option Char → List Char → Bool)
    (on_top : (l : Level) (prev : Option Char) (cs : List Char)
      → is_top l ≡ false
      → test l prev cs ≡ false)
    (on_open : (n : ℕ) (prev : Option Char) (cs : List Char)
      → test (level no_quote n n) prev ("(" ∷ cs) ≡ false) where
  pub find_at_group :
      (n : ℕ) (prev : Option Char) (t rest : List Char)
      → IsBalanced t
      → GoesOn test on_top
          (find_at test (level no_quote n n) prev ("(" ∷ (t ++ closing ∷ rest)))
          (suc (suc (length t)))
          rest
  unfolding find_at shift read_level read_quote is_plain is_quote in_string is_char count
  find_at_group n prev t rest h =
      let (m, found) =
        find_at_balanced test on_top no_quote 0 (suc n) n (some "(") t rest h (omega arith) in
      (m, rw (on_open n prev (t ++ closing ∷ rest)) (ap next_position found))

  pub find_at-group-none :
      (n : ℕ) (prev : Option Char) (t : List Char)
      → IsBalanced t
      → find_at test (level no_quote n n) prev (group t) ≡ none
  unfolding find_at
  find_at-group-none n prev t h =
      let (m, found) = find_at_group n prev t [] h in found ∙ shift-none (suc (suc (length t)))
