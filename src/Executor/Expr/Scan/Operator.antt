-- ===== src/Executor/Expr/Scan/Operator.antt =====
-- crates/clash-prism-core/src/executor/expr.rs: which operator a search finds.
use Prim.Native.Char.{Char, code}
use clash_prism_engine.Base.{
  ℕ, ◌≤◌, true, false, Option, none, some, List, [], ◌∷◌, ◌++◌, ◌≡◌, ◌≢◌, ◌⊎◌, ◌↔◌, refl, ap, sym,
  inl, inr, arith, take, Bool-cases, Option-cases, eqb_iff, subst,
}
use clash_prism_engine.Base.Text.{is_char, is_char_iff}
use clash_prism_engine.Executor.Expr.Scan.{
  drop, strip_prefix, has_prefix, Level, no_level, is_plain, is_quote, in_string, is_top,
  is_extended, is_operator, find_top_level_operator,
}
use clash_prism_engine.Executor.Expr.Scan.Found.{level_after, last_of, passes, find_at_iff}
use clash_prism_engine.Executor.Expr.Scan.Outside.{
  IsOrdinary, Tokens, IsOutside, level_at, read_tokens, level_after-Tokens,
}

-- The operator is not the `>`, `<` or `!` of a longer one that goes on with `=`.
abbrev pub IsWhole : (op rest : List Char) → Type 0
IsWhole op rest =
    (o d : Char) (cs : List Char)
    → op ≡ o ∷ []
    → rest ≡ d ∷ cs
    → (code o ≡ 62) ⊎ ((code o ≡ 60) ⊎ (code o ≡ 33))
    → code d ≢ 61

-- `op` stands at a position of the expression: the text before the position ends outside of strings
-- and parentheses, and `op` is behind it and begins with an ordinary character.
abbrev pub IsOperatorAt : (expr op : List Char) → ℕ → Type 0
IsOperatorAt expr op n =
    IsOutside (take n expr)
    × ((c : Char) × (cs : List Char) × (drop n expr ≡ c ∷ cs) × IsOrdinary c)
    × ((rest : List Char) × (drop n expr ≡ op ++ rest) × IsWhole op rest)

strip_prefix-some : (p cs rest : List Char) → strip_prefix p cs ≡ some rest → (cs ≡ p ++ rest)
unfolding strip_prefix
strip_prefix-some [] cs rest h = ground arith
strip_prefix-some (q ∷ p) [] rest h = absurd (ground arith)
strip_prefix-some (q ∷ p) (c ∷ cs) rest h = elim (Bool-cases (is_char (code q) c)) [
  | inl same ↦
      let tail = strip_prefix-some p cs rest (ground (arith, h, same)) in
      let head = (is_char_iff q c).0 same in ground (arith, head, tail)
  | inr f ↦ absurd (ground (arith, h, f))
]

strip_prefix-append : (p rest : List Char) → strip_prefix p (p ++ rest) ≡ some rest
unfolding strip_prefix
strip_prefix-append [] rest = refl
strip_prefix-append (q ∷ p) rest =
    let same = (is_char_iff q q).1 refl in ground (arith, same, strip_prefix-append p rest)

has_prefix_iff :
    (op cs : List Char) → (has_prefix op cs ≡ true) ↔ ((rest : List Char) × (cs ≡ op ++ rest))
unfolding has_prefix
has_prefix_iff op cs = (
  λ h. elim (Option-cases (strip_prefix op cs)) [
    | inl e ↦ absurd (ground (arith, h, e))
    | inr (rest, e) ↦ (rest, strip_prefix-some op cs rest e)
  ],
  λ (rest, e).
      let found = strip_prefix-append op rest in
      subst (λ t. has_prefix op t ≡ true) (sym e) (ground (arith, found)),
)

is_extended-IsWhole :
    (op rest : List Char) → (is_extended op (op ++ rest) ≡ false) ↔ IsWhole op rest
unfolding is_extended is_char
is_extended-IsWhole [] rest = (λ h o d cs e. absurd (ground arith), λ w. refl)
is_extended-IsWhole (o ∷ []) [] = (λ h p d cs e k. absurd (ground arith), λ w. refl)
is_extended-IsWhole (o ∷ []) (d ∷ cs) = (
  λ h p e ds x y z k. ground (
    arith,
    h,
    x,
    y,
    z,
    k,
    eqb_iff (code o) 62,
    eqb_iff (code o) 60,
    eqb_iff (code o) 33,
    eqb_iff (code d) 61,
  ),
  λ w.
      let apart = w o d cs refl refl in
      ground (
        arith,
        apart,
        eqb_iff (code o) 62,
        eqb_iff (code o) 60,
        eqb_iff (code o) 33,
        eqb_iff (code d) 61,
      ),
)
is_extended-IsWhole (o ∷ p ∷ op) rest = (λ h q d cs e. absurd (ground arith), λ w. refl)

-- The position is outside of strings and parentheses, its character is ordinary, and the operator
-- is there as a whole.
abbrev Stands : List Char → Level → List Char → Type 0
Stands op l cs =
    (l.quote.string_char ≡ none)
    × (l.opened ≡ l.closed)
    × ((c : Char) × (rest : List Char) × (cs ≡ c ∷ rest) × IsOrdinary c)
    × (has_prefix op cs ≡ true)
    × (is_extended op cs ≡ false)

is_operator-Stands :
    (op : List Char) (l : Level) (prev : Option Char) (cs : List Char)
    → is_operator op l prev cs ≡ true
    → Stands op l cs
unfolding is_operator is_plain is_quote in_string is_top is_char
is_operator-Stands op l prev [] h = absurd (ground arith)
is_operator-Stands op l prev (c ∷ cs) h = elim (Option-cases (l.quote.string_char)) [
  | inl e ↦ (
    e,
    ground (arith, h, e, eqb_iff (l.opened) (l.closed)),
    (
      c,
      cs,
      refl,
      ground (
        arith,
        h,
        e,
        eqb_iff (code c) 34,
        eqb_iff (code c) 39,
        eqb_iff (code c) 40,
        eqb_iff (code c) 41,
      ),
    ),
    ground (arith, h, e),
    ground (arith, h, e),
  )
  | inr (q, e) ↦ absurd (ground (arith, h, e))
]

Stands-is_operator :
    (op : List Char) (n : ℕ) (prev : Option Char) (cs : List Char)
    → Stands op (level_at none n n) cs
    → is_operator op (level_at none n n) prev cs ≡ true
unfolding is_operator is_plain is_quote in_string is_top is_char
Stands-is_operator op n prev [] (q, t, (c, rest, e, o), p, x) = absurd (ground arith)
Stands-is_operator op n prev (d ∷ cs) (q, t, (c, rest, e, o), p, x) = ground (
  arith,
  e,
  o,
  p,
  x,
  eqb_iff n n,
  eqb_iff (code d) 34,
  eqb_iff (code d) 39,
  eqb_iff (code d) 40,
  eqb_iff (code d) 41,
)

passes_iff :
    (expr op : List Char) (n : ℕ)
    → (passes (is_operator op) no_level none expr n ≡ true) ↔ IsOperatorAt expr op n
unfolding passes
passes_iff expr op n = (
  λ h.
      let (q, t, here, p, x) = is_operator-Stands op _ _ (drop n expr) h in
      let (m, k, tokens, l) = read_tokens none 0 0 (take n expr) q in
      let same : k ≡ m = omega (arith, t, ap (λ a. a.opened) l, ap (λ a. a.closed) l) in
      let (rest, e) = (has_prefix_iff op (drop n expr)).0 p in
      (
        (m, subst (λ a. Tokens (take n expr) m a) same tokens),
        here,
        (rest, e, (is_extended-IsWhole op rest).0 (subst (λ cs. is_extended op cs ≡ false) e x)),
      ),
  λ ((m, tokens), here, (rest, e, w)).
      let l = level_after-Tokens tokens 0 0 in
      let after : level_after no_level (take n expr) ≡ level_at none m m = ground (arith, l) in
      subst (λ a. is_operator op a (last_of none (take n expr)) (drop n expr) ≡ true) (sym after)
        (Stands-is_operator op m _ (drop n expr) (
          refl,
          refl,
          here,
          (has_prefix_iff op (drop n expr)).1 (rest, e),
          subst (λ cs. is_extended op cs ≡ false) (sym e) ((is_extended-IsWhole op rest).1 w),
        )),
)

-- `find_top_level_operator` gives a position exactly if the operator stands there, outside strings
-- and parentheses and not as a part of a longer one, and at no earlier such position. The text
-- before a position is outside if it is made of ordinary characters, parentheses, of which as many
-- are closed as are opened, and whole strings, each of which ends at the first quote like its own.
pub find_top_level_operator_iff :
    (expr op : List Char) (n : ℕ)
    → (find_top_level_operator expr op ≡ some n)
      ↔ (IsOperatorAt expr op n × ((m : ℕ) → IsOperatorAt expr op m → n ≤ m))
unfolding find_top_level_operator is_operator
find_top_level_operator_iff expr op n =
    let found = find_at_iff (is_operator op) (λ l prev. refl) no_level none expr n in
    (
      λ h.
          let (here, first) = found.0 h in
          ((passes_iff expr op n).0 here, λ m at. first m ((passes_iff expr op m).1 at)),
      λ (here, first).
          found.1 ((passes_iff expr op n).1 here, λ m at. first m ((passes_iff expr op m).0 at)),
    )
