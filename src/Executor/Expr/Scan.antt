-- ===== src/Executor/Expr/Scan.antt =====
-- crates/clash-prism-core/src/executor/expr.rs: the searches of an expression for an operator, a
-- pipe, a closing parenthesis or a delimiter, outside strings and parentheses. The signed depth of
-- the source is a pair of counts; it is 0 where they agree.
pub mod Found
pub mod Delimiter
pub mod Closing
pub mod Shorter
pub mod Balanced
pub mod Groups
pub mod Joins
pub mod Outside
pub mod Operator
use Prim.Native.Char.{Char, code}
use mathlib.Core.List.{reverse}
use clash_prism_engine.Base.{
  ℕ, zero, suc, ◌+◌, ◌-◌, Bool, true, false, not, ◌&&◌, ◌||◌, Option, none, some, List, [], ◌∷◌,
  if◌then◌else◌, eqb, length, take, Outcome, ok, err, and_then,
}
use clash_prism_engine.Base.Text.{chars, is_char, trim, ends_with_char}
use clash_prism_engine.Executor.Expr.{ExprError, parse_error}

unfoldable pub drop : ℕ → List Char → List Char
drop zero cs = cs
drop (suc n) [] = []
drop (suc n) (c ∷ cs) = drop n cs

-- `strip_prefix`, `starts_with`, `ends_with`, `find` and `contains` of str.
unfoldable pub strip_prefix : List Char → List Char → Option (List Char)
strip_prefix [] cs = some cs
strip_prefix (p ∷ ps) [] = none
strip_prefix (p ∷ ps) (c ∷ cs) = if is_char (code p) c then strip_prefix ps cs else none

unfoldable pub has_prefix : List Char → List Char → Bool
has_prefix p cs = elim (strip_prefix p cs) [ none ↦ false | some _ ↦ true ]

unfoldable pub has_suffix : List Char → List Char → Bool
has_suffix p cs = has_prefix (reverse p) (reverse cs)

unfoldable pub next_position : Option ℕ → Option ℕ
next_position none = none
next_position (some n) = some (suc n)

unfoldable pub find_text : List Char → List Char → Option ℕ
find_text p [] = if has_prefix p [] then some 0 else none
find_text p (c ∷ cs) =
    let rest = next_position (find_text p cs) in if has_prefix p (c ∷ cs) then some 0 else rest

unfoldable pub contains_text : List Char → List Char → Bool
contains_text p cs = elim (find_text p cs) [ none ↦ false | some _ ↦ true ]

-- The variables `in_string` with `string_char`, and `escaped`.
pub record Quote : Type 0 where
  pub string_char : Option Char
  pub escaped : Bool

abbrev pub no_quote : Quote
no_quote = record { string_char = none; escaped = false }

unfoldable pub is_quote : Char → Bool
is_quote c = is_char 34 c || is_char 39 c

unfoldable pub in_string : Quote → Bool
in_string q = elim (q.string_char) [ none ↦ false | some _ ↦ true ]

-- A quote opens a string, and the same quote closes it.
unfoldable pub read_quote : Quote → Char → Quote
read_quote q c = elim (q.string_char) [
  | none ↦ if is_quote c then record q { string_char = some c } else q
  | some d ↦ if is_char (code d) c then record q { string_char = none } else q
]

-- The same where a backslash inside a string takes the next character with it.
unfoldable pub read_escaped : Quote → Char → Quote
read_escaped q c =
    if q.escaped
    then record q { escaped = false }
    else if is_char 92 c && in_string q
    then record q { escaped = true }
    else read_quote q c

-- The character counts: it stands outside strings, behind no backslash of a string, and is no quote.
unfoldable pub is_plain : Quote → Char → Bool
is_plain q c = not (q.escaped) && not (in_string q) && not (is_quote c)

unfoldable pub count : Bool → ℕ → ℕ
count true n = suc n
count false n = n

pub record Level : Type 0 where
  pub quote : Quote
  pub opened : ℕ
  pub closed : ℕ

abbrev pub no_level : Level
no_level = record { quote = no_quote; opened = 0; closed = 0 }

unfoldable pub read_level : (opens closes : Char → Bool) → Level → Char → Level
read_level opens closes l c = record {
  quote = read_quote (l.quote) c;
  opened = count (is_plain (l.quote) c && opens c) (l.opened);
  closed = count (is_plain (l.quote) c && closes c) (l.closed);
}

unfoldable pub is_top : Level → Bool
is_top l = eqb (l.opened) (l.closed)

-- The first position whose level, previous character and rest of the text pass a test.
unfoldable pub find_at :
    (test : Level → Option Char → List Char → Bool) → Level → Option Char → List Char → Option ℕ
find_at test l prev [] = none
find_at test l prev (c ∷ cs) =
    let rest =
      next_position (find_at test (read_level (is_char 40) (is_char 41) l c) (some c) cs) in
    if test l prev (c ∷ cs) then some 0 else rest

unfoldable pub starts_with_pipe : List Char → Bool
starts_with_pipe [] = false
starts_with_pipe (c ∷ cs) = is_char 124 c

unfoldable pub is_pipe_char : Option Char → Bool
is_pipe_char none = false
is_pipe_char (some p) = is_char 124 p

unfoldable pub is_pipe : Level → Option Char → List Char → Bool
is_pipe l prev [] = false
is_pipe l prev (c ∷ cs) =
    is_plain (l.quote) c
    && is_char 124 c
    && is_top l
    && not (starts_with_pipe cs)
    && not (is_pipe_char prev)

unfoldable pub find_top_level_pipe : List Char → Option ℕ
find_top_level_pipe expr = find_at is_pipe no_level none expr

-- A `>`, `<` or `!` before `=` is part of a longer operator.
unfoldable pub is_extended : List Char → List Char → Bool
is_extended (o ∷ []) (c ∷ d ∷ cs) = (is_char 62 o || is_char 60 o || is_char 33 o) && is_char 61 d
is_extended op cs = false

unfoldable pub is_operator : List Char → Level → Option Char → List Char → Bool
is_operator op l prev [] = false
is_operator op l prev (c ∷ cs) =
    is_plain (l.quote) c
    && not (is_char 40 c || is_char 41 c)
    && is_top l
    && has_prefix op (c ∷ cs)
    && not (is_extended op (c ∷ cs))

unfoldable pub find_top_level_operator : List Char → List Char → Option ℕ
find_top_level_operator expr op = find_at (is_operator op) no_level none expr

unfoldable pub find_comparison_op : List Char → List Char → Option ℕ
find_comparison_op expr op = find_top_level_operator expr op

-- The texts on both sides of an operator found, without the white space around them.
unfoldable pub split_at : ℕ → Option ℕ → List Char → Option (List Char × List Char)
split_at width none expr = none
split_at width (some pos) expr = some (trim (take pos expr), trim (drop (pos + width) expr))

unfoldable pub push_before : Char → Option (List Char × List Char) → Option (List Char × List Char)
push_before c none = none
push_before c (some (a, b)) = some (c ∷ a, b)

-- The text before the parenthesis that closes the one read before, with `n` more still open.
unfoldable pub split_close :
    (Quote → Char → Quote) → Quote → ℕ → List Char → Option (List Char × List Char)
split_close read q n [] = none
split_close read q n (c ∷ cs) =
    let plain = is_plain q c in
    let opens = count (plain && is_char 40 c) n in
    let rest = split_close read (read q c) (if plain && is_char 41 c then n - 1 else opens) cs in
    if plain && is_char 41 c && eqb n 0 then some ([], cs) else push_before c rest

unfoldable pub find_balanced_parens : List Char → Option (List Char)
find_balanced_parens [] = none
find_balanced_parens (c ∷ cs) =
    if is_char 40 c
    then elim (split_close read_escaped no_quote 0 cs) [ none ↦ none | some (a, b) ↦ some a ]
    else none

unfoldable pub whole : Option (List Char × List Char) → Option (List Char)
whole none = none
whole (some (a, [])) = some a
whole (some (a, c ∷ b)) = none

unfoldable pub strip_parens : List Char → Option (List Char)
strip_parens [] = none
strip_parens (c ∷ cs) =
    if is_char 40 c && ends_with_char 41 (c ∷ cs)
    then whole (split_close read_quote no_quote 0 cs)
    else none

unfoldable pub strip_outer_parens : List Char → Option (List Char)
strip_outer_parens expr = strip_parens (trim expr)

-- The texts before and behind the first delimiter that no backslash precedes.
unfoldable pub delimit : Bool → ℕ → List Char → Outcome (List Char × List Char) ExprError
delimit in_escape delimiter [] = err parse_error
delimit in_escape delimiter (c ∷ cs) =
    let escapes = not in_escape && is_char 92 c in
    let rest = delimit escapes delimiter cs in
    if not in_escape && not (is_char 92 c) && is_char delimiter c
    then ok ([], cs)
    else and_then rest (λ s. ok (c ∷ s.0, s.1))

unfoldable pub find_regex_delimiter : List Char → ℕ → Outcome (List Char × List Char) ExprError
find_regex_delimiter s delimiter = delimit false delimiter s
