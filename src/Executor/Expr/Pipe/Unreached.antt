-- ===== src/Executor/Expr/Pipe/Unreached.antt =====
-- crates/clash-prism-core/src/executor/expr.rs: the comparison behind a call with parentheses in a
-- pipe. The text that the source takes for the one behind the call starts with the call's `)`.
use Prim.Native.Char.{Char, code}
use mathlib.Core.List.{reverse, reverse-append, reverse-cons}
use clash_prism_engine.Base.{
  suc, true, false, none, some, List, [], ◌∷◌, ◌++◌, ◌≡◌, ◌≢◌, refl, ap, sym, ◌∙◌, subst, inl, inr,
  arith, length, Option-cases, Bool-cases,
}
use clash_prism_engine.Base.Text.{is_char, is_whitespace, drop_while, trim}
use clash_prism_engine.Executor.Expr.{ExprValue, BuiltinFunction, Packages}
use clash_prism_engine.Executor.Expr.Scan.{
  drop, strip_prefix, find_balanced_parens, split_close, read_escaped, no_quote,
}
use clash_prism_engine.Executor.Expr.Scan.Closing.{split_close-IsClosed}
use clash_prism_engine.Executor.Expr.Functions.{function_call}
use clash_prism_engine.Executor.Expr.Pipe.{
  comparison_ops, balanced_call, call_comparison, compare_call,
}

-- A text that starts with a closing parenthesis.
abbrev ClosesFirst : List Char → Type 0
ClosesFirst cs = (c : Char) × (rest : List Char) × (is_char 41 c ≡ true) × (cs ≡ c ∷ rest)

drop_while_snoc :
    (c : Char) (cs : List Char)
    → is_whitespace c ≡ false
    → (ys : List Char) × (drop_while is_whitespace (cs ++ c ∷ []) ≡ ys ++ c ∷ [])
unfolding drop_while
drop_while_snoc c [] h = ([], ground (arith, h))
drop_while_snoc c (d ∷ cs) h = elim (Bool-cases (is_whitespace d)) [
  | inl w ↦ let (ys, e) = drop_while_snoc c cs h in (ys, ground (arith, w, e))
  | inr w ↦ (d ∷ cs, ground (arith, w))
]

parens_is_no_whitespace : (c : Char) → is_char 41 c ≡ true → is_whitespace c ≡ false
unfolding is_char is_whitespace
parens_is_no_whitespace c h = ground (arith, h)

trim_first : (c : Char) (cs : List Char) → is_char 41 c ≡ true → ClosesFirst (trim (c ∷ cs))
unfolding trim drop_while
trim_first c cs h =
    let solid = parens_is_no_whitespace c h in
    let (ys, e) = drop_while_snoc c (reverse cs) solid in
    let front : drop_while is_whitespace (c ∷ cs) ≡ c ∷ cs = ground (arith, solid) in
    (
      c,
      reverse ys,
      h,
      ap (λ z. reverse (drop_while is_whitespace (reverse z))) front
          ∙ ap (λ z. reverse (drop_while is_whitespace z)) (reverse-cons c cs)
          ∙ ap reverse e
          ∙ reverse-append ys (c ∷ []),
    )

drop_append : (a b : List Char) → drop (length a) (a ++ b) ≡ b
unfolding drop
drop_append [] b = refl
drop_append (c ∷ a) b = drop_append a b

find_balanced_parens-ClosesFirst :
    (call a : List Char)
    → find_balanced_parens call ≡ some a
    → ClosesFirst (trim (drop (suc (length a)) call))
unfolding find_balanced_parens drop
find_balanced_parens-ClosesFirst [] a h = absurd (ground arith)
find_balanced_parens-ClosesFirst (c ∷ cs) a h =
    elim (Option-cases (split_close read_escaped no_quote 0 cs)) [
      | inl e ↦ absurd (ground (arith, h, e))
      | inr ((x, b), e) ↦
          let same : x ≡ a = ground (arith, h, e) in
          let (q, is, split) = split_close-IsClosed read_escaped no_quote 0 cs x b e in
          let behind = ap (drop (length x)) split ∙ drop_append x (q ∷ b) in
          subst (λ z. ClosesFirst (trim (drop (suc (length z)) (c ∷ cs)))) same
            (subst (λ z. ClosesFirst (trim z)) (sym behind) (trim_first q b is))
    ]

strip_prefix_closing :
    (o : Char) (op cs : List Char) → 41 ≢ code o → ClosesFirst cs → strip_prefix (o ∷ op) cs ≡ none
unfolding strip_prefix is_char
strip_prefix_closing o op cs other (c, rest, is, e) = rw (e) (ground (arith, is, other))

module _ {N F I R : Type 0} (pk : Packages N F I R) where
  no_comparison :
      (func : BuiltinFunction) (args after : List Char) (left : ExprValue N F)
      → ClosesFirst after
      → call_comparison pk comparison_ops func args after left ≡ none
  unfolding call_comparison
  no_comparison func args after left closes = ground (
    arith,
    strip_prefix_closing "=" ("=" ∷ []) after (ground arith) closes,
    strip_prefix_closing "!" ("=" ∷ []) after (ground arith) closes,
    strip_prefix_closing ">" ("=" ∷ []) after (ground arith) closes,
    strip_prefix_closing "<" ("=" ∷ []) after (ground arith) closes,
    strip_prefix_closing ">" [] after (ground arith) closes,
    strip_prefix_closing "<" [] after (ground arith) closes,
  )

  -- The comparison that the source means to read behind a call with parentheses, as in
  -- `value | len() > 3`, is never evaluated: this branch of `apply_pipe_filter` never returns.
  pub compare_call-none :
      (right : List Char) (left : ExprValue N F) → compare_call pk right left ≡ none
  unfolding compare_call balanced_call
  compare_call-none right left = elim (Option-cases (function_call right)) [
    | inl e ↦ ground (arith, e)
    | inr ((func, call), e) ↦ elim (Option-cases (find_balanced_parens call)) [
      | inl n ↦ ground (arith, e, n)
      | inr (a, n) ↦
          let after = trim (drop (suc (length a)) call) in
          let nothing =
            no_comparison func a after left (find_balanced_parens-ClosesFirst call a n) in
          rw (e, n, compare_call, balanced_call) nothing
    ]
  ]
