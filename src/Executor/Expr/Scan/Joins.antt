-- ===== src/Executor/Expr/Scan/Joins.antt =====
-- crates/clash-prism-core/src/executor/expr.rs: the texts around an operator between parentheses.
use Prim.Native.Char.{Char}
use mathlib.Core.List.{append_assoc, reverse-append}
use clash_prism_engine.Base.{
  length-append, subst, ℕ, suc, ◌+◌, Bool, true, false, Option, none, some, List, [], ◌∷◌, ◌++◌,
  ◌≡◌, refl, ap, ◌∙◌, arith, length, take,
}
use clash_prism_engine.Base.Text.{is_char, is_whitespace, trim, starts_with_char, ends_with_char}
use clash_prism_engine.Executor.Expr.Scan.{
  count, read_quote, drop, next_position, no_quote, in_string, is_quote, is_plain, Level,
  read_level, find_at, is_pipe, find_top_level_pipe, is_operator, find_top_level_operator, split_at,
  whole, strip_parens, strip_outer_parens,
}
use clash_prism_engine.Executor.Expr.Scan.Balanced.{
  IsBalanced, closing, level, shift, split_close_balanced,
}
use clash_prism_engine.Executor.Expr.Scan.Groups.{
  group, joined_by, operator_below, pipe_below, shift-none, shift-zero, find_at_group,
  find_at-group-none,
}
use clash_prism_engine.Executor.Expr.Literal.Escape.{trim_fixed}

take_closed : (t rest : List Char) → take (suc (length t)) (t ++ closing ∷ rest) ≡ t ++ closing ∷ []
take_closed [] rest = refl
take_closed (c ∷ t) rest = ap (λ z. c ∷ z) (take_closed t rest)

drop_closed :
    (t rest : List Char) (a b : Char)
    → drop (suc (suc (suc (length t)))) (t ++ closing ∷ a ∷ b ∷ rest) ≡ rest
unfolding drop
drop_closed [] rest a b = refl
drop_closed (c ∷ t) rest a b = drop_closed t rest a b

pub trim-group : (t : List Char) → trim (group t) ≡ group t
unfolding is_whitespace
trim-group t = trim_fixed "(" closing t refl refl

pub operator_open :
    (op : List Char) (n : ℕ) (prev : Option Char) (cs : List Char)
    → is_operator op (level no_quote n n) prev ("(" ∷ cs) ≡ false
unfolding is_operator is_char is_plain is_quote in_string
operator_open op n prev cs = refl

pipe_open :
    (n : ℕ) (prev : Option Char) (cs : List Char)
    → is_pipe (level no_quote n n) prev ("(" ∷ cs) ≡ false
unfolding is_pipe is_char is_plain is_quote in_string
pipe_open n prev cs = refl

ends_closed : (t : List Char) → ends_with_char 41 (group t) ≡ true
unfolding ends_with_char starts_with_char is_char
ends_closed t = ap (starts_with_char 41) (reverse-append ("(" ∷ t) (closing ∷ []))

-- A character that passes no test and changes no level.
pub find_at_skip :
    (test : Level → Option Char → List Char → Bool) (c : Char) (n : ℕ) (prev : Option Char)
    (cs : List Char)
    → test (level no_quote n n) prev (c ∷ cs) ≡ false
    → read_level (is_char 40) (is_char 41) (level no_quote n n) c ≡ level no_quote n n
    → find_at test (level no_quote n n) (some c) cs ≡ none
    → find_at test (level no_quote n n) prev (c ∷ cs) ≡ none
unfolding find_at next_position
find_at_skip test c n prev cs other plain rest = rw (other, plain, rest) refl

-- No operator and no pipe stands outside the parentheses of one text.
pub find_top_level_operator-group :
    (op t : List Char) → IsBalanced t → find_top_level_operator (group t) op ≡ none
unfolding find_top_level_operator
find_top_level_operator-group op t h =
    find_at-group-none (is_operator op) (operator_below op) (operator_open op) 0 none t h

pub find_top_level_pipe-group :
    (t : List Char) → IsBalanced t → find_top_level_pipe (group t) ≡ none
unfolding find_top_level_pipe
find_top_level_pipe-group t h = find_at-group-none is_pipe pipe_below pipe_open 0 none t h

pub strip_outer_parens-group :
    (t : List Char) → IsBalanced t → strip_outer_parens (group t) ≡ some t
unfolding strip_outer_parens strip_parens whole is_char
strip_outer_parens-group t h =
    let closed : ends_with_char 41 (group t) ≡ true = ends_closed t in
    rw (trim-group t, closed, split_close_balanced no_quote 0 t [] h) refl

-- The operator between two texts in parentheses is the one found.
pub split_at-joined_by :
    (a : Char) (s t : List Char)
    → IsBalanced s
    → ((n : ℕ)
        → is_operator (a ∷ a ∷ []) (level no_quote n n) (some closing) (a ∷ a ∷ group t) ≡ true)
    → split_at 2 (find_top_level_operator (joined_by a s t) (a ∷ a ∷ [])) (joined_by a s t)
      ≡ some (group s, group t)
unfolding split_at find_top_level_operator find_at drop
split_at-joined_by a s t hs at =
    let op = a ∷ a ∷ [] in
    let width = suc (suc (length s)) in
    let (m, found) =
      find_at_group (is_operator op) (operator_below op) (operator_open op) 0 none s
        (a ∷ a ∷ group t) hs in
    let here : find_at (is_operator op) (level no_quote m m) (some closing) (a ∷ a ∷ group t)
        ≡ some 0 =
      ground (arith, at m) in
    let position = found ∙ ap (shift width) here ∙ shift-zero width in
    let behind : width + 2 ≡ suc (suc width) = omega arith in
    rw
      (
        position,
        behind,
        take_closed s (a ∷ a ∷ group t),
        drop_closed s (group t) a a,
        trim-group s,
        trim-group t,
      )
      refl

-- Behind the first of two texts, another operator is not found.
pub other_operator-joined_by :
    (a b : Char) (s t : List Char)
    → IsBalanced s
    → IsBalanced t
    → ((n : ℕ) (prev : Option Char) (cs : List Char)
        → is_operator (b ∷ b ∷ []) (level no_quote n n) prev (a ∷ cs) ≡ false)
    → ((n : ℕ) → read_level (is_char 40) (is_char 41) (level no_quote n n) a ≡ level no_quote n n)
    → find_top_level_operator (joined_by a s t) (b ∷ b ∷ []) ≡ none
unfolding find_top_level_operator
other_operator-joined_by a b s t hs ht other plain =
    let op = b ∷ b ∷ [] in
    let width = suc (suc (length s)) in
    let (m, found) =
      find_at_group (is_operator op) (operator_below op) (operator_open op) 0 none s
        (a ∷ a ∷ group t) hs in
    let last =
      find_at-group-none (is_operator op) (operator_below op) (operator_open op) m (some a) t ht in
    let rest : find_at (is_operator op) (level no_quote m m) (some closing) (a ∷ a ∷ group t)
        ≡ none =
      let skip = find_at_skip (is_operator op) a m in
      skip (some closing) (a ∷ group t) (other m (some closing) (a ∷ group t)) (plain m)
        (skip (some a) (group t) (other m (some a) (group t)) (plain m) last) in
    found ∙ ap (shift width) rest ∙ shift-none width

pub not_operator :
    (a : Char) (t : List Char)
    → IsBalanced t
    → is_operator (a ∷ a ∷ []) (level no_quote 0 0) none ("!" ∷ group t) ≡ false
    → find_top_level_operator ("!" ∷ group t) (a ∷ a ∷ []) ≡ none
unfolding find_top_level_operator read_level read_quote is_plain is_quote in_string is_char count
not_operator a t h other = find_at_skip (is_operator (a ∷ a ∷ [])) "!" 0 none (group t) other refl (
    find_at-group-none (is_operator (a ∷ a ∷ [])) (operator_below (a ∷ a ∷ []))
      (operator_open (a ∷ a ∷ [])) 0 (some "!") t h)

pub length-joined_by :
    (a : Char) (s t : List Char) → length (joined_by a s t) ≡ length s + length t + 6
length-joined_by a s t =
    omega (arith, length-append s (closing ∷ a ∷ a ∷ group t), length-append t (closing ∷ []))

pub trim-joined_by : (a : Char) (s t : List Char) → trim (joined_by a s t) ≡ joined_by a s t
unfolding is_whitespace
trim-joined_by a s t =
    subst (λ z. trim ("(" ∷ z) ≡ "(" ∷ z)
      (append_assoc s (closing ∷ a ∷ a ∷ "(" ∷ t) (closing ∷ []))
      (trim_fixed "(" closing (s ++ closing ∷ a ∷ a ∷ "(" ∷ t) refl refl)

pub trim_not : (t : List Char) → trim ("!" ∷ group t) ≡ "!" ∷ group t
unfolding is_whitespace
trim_not t = trim_fixed "!" closing ("(" ∷ t) refl refl
