-- ===== src/Executor/Expr/Scan/Shorter.antt =====
-- crates/clash-prism-core/src/executor/expr.rs: the texts that the searches cut out of an expression
-- are shorter than it.
use Prim.Native.Char.{Char, code}
use mathlib.Core.List.{reverse, reverse_aux}
use clash_prism_engine.Base.{
  ℕ, zero, suc, ◌+◌, ◌-◌, ◌≤◌, ◌<◌, Bool, ◌&&◌, Option, none, some, List, [], ◌∷◌, ◌≡◌, refl, ap,
  inl, inr, arith, length, length-append, take, Bool-cases,
}
use clash_prism_engine.Base.Text.{is_char, is_whitespace, drop_while, trim, ends_with_char}
use clash_prism_engine.Executor.Expr.Scan.{
  drop, strip_prefix, Level, no_level, read_level, find_at, is_pipe, find_top_level_pipe,
  is_operator, find_top_level_operator, split_at, split_close, whole, strip_parens,
  strip_outer_parens, read_quote, no_quote,
}
use clash_prism_engine.Executor.Expr.Scan.Closing.{split_close-IsClosed}
use clash_prism_engine.Executor.Expr.Scan.Found.{find_at-suc}

length-reverse_aux : (xs ys : List Char) → length (reverse_aux xs ys) ≡ length xs + length ys
length-reverse_aux [] ys = omega arith
length-reverse_aux (x ∷ xs) ys = omega (arith, length-reverse_aux xs (x ∷ ys))

length-drop_while_le : (p : Char → Bool) (cs : List Char) → length (drop_while p cs) ≤ length cs
unfolding drop_while
length-drop_while_le p [] = omega arith
length-drop_while_le p (c ∷ cs) = ground (arith, length-drop_while_le p cs)

pub length-trim_le : (cs : List Char) → length (trim cs) ≤ length cs
unfolding trim
length-trim_le cs =
    let front = drop_while is_whitespace cs in
    let back = drop_while is_whitespace (reverse front) in
    omega (
      arith,
      length-drop_while_le is_whitespace cs,
      length-reverse_aux front [],
      length-drop_while_le is_whitespace (reverse front),
      length-reverse_aux back [],
    )

length-take_le : (n : ℕ) (cs : List Char) → length (take n cs) ≤ n
length-take_le zero cs = omega arith
length-take_le (suc n) [] = omega arith
length-take_le (suc n) (c ∷ cs) = omega (arith, length-take_le n cs)

length-drop : (n : ℕ) (cs : List Char) → length (drop n cs) ≡ length cs - n
unfolding drop
length-drop zero cs = omega arith
length-drop (suc n) [] = omega arith
length-drop (suc n) (c ∷ cs) = omega (arith, length-drop n cs)

find_at_lt :
    (test : Level → Option Char → List Char → Bool) (l : Level) (prev : Option Char)
    (cs : List Char) (n : ℕ)
    → find_at test l prev cs ≡ some n
    → n < length cs
unfolding find_at
find_at_lt test l prev [] n h = absurd (ground arith)
find_at_lt test l prev (c ∷ cs) zero h = omega arith
find_at_lt test l prev (c ∷ cs) (suc n) h =
    let rest = (find_at-suc test l prev c cs n h).1 in
    let less = find_at_lt test (read_level (is_char 40) (is_char 41) l c) (some c) cs n rest in
    omega (arith, less)

-- A text and the two sides of a place in it.
abbrev pub AreShorter : List Char → List Char × List Char → Type 0
AreShorter expr sides = (length (sides.0) < length expr) × (length (sides.1) < length expr)

split_at-AreShorter :
    (width : ℕ) (o : Option ℕ) (expr : List Char) (sides : List Char × List Char)
    → ((n : ℕ) → o ≡ some n → n < length expr)
    → split_at (suc width) o expr ≡ some sides
    → AreShorter expr sides
unfolding split_at
split_at-AreShorter width none expr sides lt h = absurd (ground arith)
split_at-AreShorter width (some n) expr (l, r) lt h =
    let left : trim (take n expr) ≡ l = ground (arith, h) in
    let right : trim (drop (n + suc width) expr) ≡ r = ground (arith, h) in
    let less = lt n refl in
    let sl = ap length left in
    let sr = ap length right in
    (
      omega (arith, sl, less, length-trim_le (take n expr), length-take_le n expr),
      omega (
        arith,
        sr,
        less,
        length-trim_le (drop (n + suc width) expr),
        length-drop (n + suc width) expr,
      ),
    )

pub operator-AreShorter :
    (width : ℕ) (expr op : List Char) (sides : List Char × List Char)
    → split_at (suc width) (find_top_level_operator expr op) expr ≡ some sides
    → AreShorter expr sides
unfolding find_top_level_operator
operator-AreShorter width expr op sides h =
    split_at-AreShorter width (find_top_level_operator expr op) expr sides
      (λ n. find_at_lt (is_operator op) no_level none expr n) h

pub pipe-AreShorter :
    (width : ℕ) (expr : List Char) (sides : List Char × List Char)
    → split_at (suc width) (find_top_level_pipe expr) expr ≡ some sides
    → AreShorter expr sides
unfolding find_top_level_pipe
pipe-AreShorter width expr sides h =
    split_at-AreShorter width (find_top_level_pipe expr) expr sides
      (λ n. find_at_lt is_pipe no_level none expr n) h

pub strip_prefix_shorter :
    (c : Char) (cs rest : List Char)
    → strip_prefix (c ∷ []) cs ≡ some rest
    → length rest < length cs
unfolding strip_prefix
strip_prefix_shorter c [] rest h = absurd (ground arith)
strip_prefix_shorter c (d ∷ cs) rest h = elim (Bool-cases (is_char (code c) d)) [
  | inl is ↦
      let same : cs ≡ rest = ground (arith, h, is) in let le = ap length same in omega (arith, le)
  | inr f ↦ absurd (ground (arith, h, f))
]

whole-some :
    (o : Option (List Char × List Char)) (inner : List Char)
    → whole o ≡ some inner
    → o ≡ some (inner, [])
unfolding whole
whole-some none inner h = absurd (ground arith)
whole-some (some (a, [])) inner h = ground (arith, h)
whole-some (some (a, c ∷ b)) inner h = absurd (ground arith)

strip_parens_shorter :
    (expr inner : List Char) → strip_parens expr ≡ some inner → length inner < length expr
unfolding strip_parens
strip_parens_shorter [] inner h = absurd (ground arith)
strip_parens_shorter (c ∷ cs) inner h =
    elim (Bool-cases (is_char 40 c && ends_with_char 41 (c ∷ cs))) [
      | inl is ↦
          let found =
            whole-some (split_close read_quote no_quote 0 cs) inner (ground (arith, h, is)) in
          let (q, _, split) = split_close-IsClosed read_quote no_quote 0 cs inner [] found in
          let size = ap length split in omega (arith, size, length-append inner (q ∷ []))
      | inr f ↦ absurd (ground (arith, h, f))
    ]

pub strip_outer_parens_shorter :
    (expr inner : List Char) → strip_outer_parens expr ≡ some inner → length inner < length expr
unfolding strip_outer_parens
strip_outer_parens_shorter expr inner h =
    let less = strip_parens_shorter (trim expr) inner h in omega (arith, less, length-trim_le expr)
