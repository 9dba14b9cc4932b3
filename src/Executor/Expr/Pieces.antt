-- ===== src/Executor/Expr/Pieces.antt =====
-- crates/clash-prism-core/src/executor/expr.rs: the arguments of a function, and the pairs of a
-- transformation.
pub mod Joined
use Prim.Native.Char.{Char, code}
use mathlib.Core.List.{reverse}
use clash_prism_engine.Base.{
  ℕ, zero, suc, ◌-◌, Bool, true, false, not, ◌&&◌, ◌||◌, Option, none, some, List, [], ◌∷◌,
  if◌then◌else◌, eqb, keep, Outcome, ok, err, and_then,
}
use clash_prism_engine.Base.Text.{chars, is_char, trim, drop_while}
use clash_prism_engine.Executor.Expr.{ExprError, parse_error}
use clash_prism_engine.Executor.Expr.Scan.{
  Quote, no_quote, read_quote, read_escaped, is_plain, count, Level, no_level, read_level, is_top,
  has_prefix,
}

unfoldable pub opens_bracket : Char → Bool
opens_bracket c = is_char 40 c || is_char 91 c || is_char 123 c

unfoldable pub closes_bracket : Char → Bool
closes_bracket c = is_char 41 c || is_char 93 c || is_char 125 c

unfoldable pub is_blank : List Char → Bool
is_blank cs = elim (trim cs) [ [] ↦ true | c ∷ rest ↦ false ]

abbrev Split : Type 0
Split = List Char × List (List Char)

-- A character in front of the first of the pieces, and a comma in front of all.
unfoldable pub push_char : Char → Split → Split
push_char c (piece, pieces) = (c ∷ piece, pieces)

unfoldable pub push_comma : Split → Split
push_comma (piece, pieces) = ([], piece ∷ pieces)

-- The pieces between the commas outside strings and brackets, from a depth on. A bracket that
-- closes none is an error.
unfoldable pub split_args : Quote → ℕ → List Char → Outcome Split ExprError
split_args q depth [] = ok ([], [])
split_args q depth (c ∷ cs) =
    let plain = is_plain q c in
    let closes = plain && closes_bracket c in
    let inner = count (plain && opens_bracket c) depth in
    let rest = split_args (read_escaped q c) (if closes then depth - 1 else inner) cs in
    if closes && eqb depth 0
    then err parse_error
    else if plain && is_char 44 c && eqb depth 0
    then and_then rest (λ s. ok (push_comma s))
    else and_then rest (λ s. ok (push_char c s))

unfoldable pub split_function_args : List Char → Outcome (List (List Char)) ExprError
split_function_args args_str =
    and_then (split_args no_quote 0 args_str)
      (λ s. ok (keep (λ arg. not (is_blank arg)) (s.0 ∷ s.1)))

-- `trim_matches`.
unfoldable pub trim_matches : ℕ → List Char → List Char
trim_matches n cs = reverse (drop_while (is_char n) (reverse (drop_while (is_char n) cs)))

-- The texts before and behind the first colon outside strings.
unfoldable pub split_colon : Quote → List Char → Outcome (List Char × List Char) ExprError
split_colon q [] = err parse_error
split_colon q (c ∷ cs) =
    let rest = split_colon (read_quote q c) cs in
    if is_plain q c && is_char 58 c then ok ([], cs) else and_then rest (λ s. ok (c ∷ s.0, s.1))

unfoldable pub parse_kv_pair : List Char → Outcome (List Char × List Char) ExprError
parse_kv_pair pair =
    and_then (split_colon no_quote pair)
      (λ s. ok (trim_matches 39 (trim_matches 34 (trim (s.0))), trim (s.1)))

-- The pieces of an object's body.
unfoldable pub object_pieces : Level → List Char → Split
object_pieces l [] = ([], [])
object_pieces l (c ∷ cs) =
    let rest = object_pieces (read_level opens_bracket closes_bracket l c) cs in
    if is_plain (l.quote) c && is_char 44 c && is_top l then push_comma rest else push_char c rest

-- A piece gives a pair, unless it is blank or a spread.
unfoldable pub is_pair : List Char → Bool
is_pair piece = not (is_blank piece) && not (has_prefix (chars "...") (trim piece))

unfoldable pub parse_pairs : List (List Char) → Outcome (List (List Char × List Char)) ExprError
parse_pairs [] = ok []
parse_pairs (piece ∷ pieces) =
    let rest = parse_pairs pieces in
    if is_pair piece
    then and_then (parse_kv_pair (trim piece)) (λ pair. and_then rest (λ pairs. ok (pair ∷ pairs)))
    else rest

unfoldable pub split_object_pairs : List Char → Outcome (List (List Char × List Char)) ExprError
split_object_pairs body =
    let (piece, pieces) = object_pieces no_level body in parse_pairs (piece ∷ pieces)
