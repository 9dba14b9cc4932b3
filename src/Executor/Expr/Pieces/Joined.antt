-- ===== src/Executor/Expr/Pieces/Joined.antt =====
-- crates/clash-prism-core/src/executor/expr.rs: the pieces between the commas of a text.
use Prim.Native.Char.{Char}
use clash_prism_engine.Base.{
  ℕ, ◌-◌, true, ◌&&◌, List, [], ◌∷◌, ◌++◌, ◌≡◌, refl, ap, sym, ◌∙◌, inl, inr, arith, Bool-cases, ok,
  keep, not, and_then-ok, if◌then◌else◌, eqb,
}
use clash_prism_engine.Base.Text.{is_char, is_char_iff}
use clash_prism_engine.Executor.Expr.Scan.{
  Quote, Level, no_quote, no_level, is_plain, is_top, count, read_level, read_escaped,
}
use clash_prism_engine.Executor.Expr.Pieces.{
  split_function_args, is_blank, opens_bracket, closes_bracket, push_char, push_comma, split_args,
  object_pieces,
}

-- The pieces with a comma before each but the first.
unfoldable pub join_pieces : List Char → List (List Char) → List Char
join_pieces piece [] = piece
join_pieces piece (next ∷ pieces) = piece ++ "," ∷ join_pieces next pieces

abbrev joined : List Char × List (List Char) → List Char
joined s = join_pieces (s.0) (s.1)

join-push_char :
    (c : Char) (s : List Char × List (List Char))
    → join_pieces ((push_char c s).0) ((push_char c s).1) ≡ c ∷ join_pieces (s.0) (s.1)
unfolding join_pieces push_char
join-push_char c (piece, []) = refl
join-push_char c (piece, next ∷ pieces) = refl

join-push_comma :
    (c : Char) (s : List Char × List (List Char))
    → is_char 44 c ≡ true
    → join_pieces ((push_comma s).0) ((push_comma s).1) ≡ c ∷ join_pieces (s.0) (s.1)
unfolding join_pieces push_comma
join-push_comma c (piece, pieces) h =
    ap (λ d. d ∷ join_pieces piece pieces) ((is_char_iff "," c).0 h)

join-object_pieces :
    (l : Level) (cs : List Char)
    → join_pieces ((object_pieces l cs).0) ((object_pieces l cs).1) ≡ cs
unfolding object_pieces join_pieces
join-object_pieces l [] = refl
join-object_pieces l (c ∷ cs) =
    let inner = read_level opens_bracket closes_bracket l c in
    let ih = ap (λ z. c ∷ z) (join-object_pieces inner cs) in
    elim (Bool-cases (is_plain (l.quote) c && is_char 44 c && is_top l)) [
      | inl t ↦ rw (t) (join-push_comma c (object_pieces inner cs) (ground (arith, t)) ∙ ih)
      | inr f ↦ rw (f) (join-push_char c (object_pieces inner cs) ∙ ih)
    ]

join-split_args :
    (q : Quote) (depth : ℕ) (cs : List Char) (s : List Char × List (List Char))
    → split_args q depth cs ≡ ok s
    → join_pieces (s.0) (s.1) ≡ cs
unfolding split_args join_pieces
join-split_args q depth [] s h = let same : ([], []) ≡ s = ground (arith, h) in ap joined (sym same)
join-split_args q depth (c ∷ cs) s h =
    let closes = is_plain q c && closes_bracket c in
    let below = if closes then depth - 1 else count (is_plain q c && opens_bracket c) depth in
    let rest = split_args (read_escaped q c) below cs in
    elim (Bool-cases (closes && eqb depth 0)) [
      | inl bad ↦ absurd (ground (arith, h, bad))
      | inr fine ↦ elim (Bool-cases (is_plain q c && is_char 44 c && eqb depth 0)) [
        | inl t ↦
            let (s2, found, e) =
              and_then-ok rest (λ z. ok (push_comma z)) s (ground (arith, h, fine, t)) in
            let same : push_comma s2 ≡ s = ground (arith, e) in
            ap joined (sym same)
            ∙ join-push_comma c s2 (ground (arith, t))
            ∙ ap (λ z. c ∷ z) (join-split_args (read_escaped q c) below cs s2 found)
        | inr f ↦
            let (s2, found, e) =
              and_then-ok rest (λ z. ok (push_char c z)) s (ground (arith, h, fine, f)) in
            let same : push_char c s2 ≡ s = ground (arith, e) in
            ap joined (sym same)
            ∙ join-push_char c s2
            ∙ ap (λ z. c ∷ z) (join-split_args (read_escaped q c) below cs s2 found)
      ]
    ]

-- Both splits at commas lose nothing: the pieces of an object's body, and the arguments of a
-- function before the blank ones are dropped, give the text back when commas join them.
pub split_function_args_lem :
    (text : List Char)
    → (join_pieces ((object_pieces no_level text).0) ((object_pieces no_level text).1) ≡ text)
      × ((args : List (List Char))
          → split_function_args text ≡ ok args
          → (piece : List Char) × (pieces : List (List Char)) × (join_pieces piece pieces ≡ text)
            × (args ≡ keep (λ arg. not (is_blank arg)) (piece ∷ pieces)))
unfolding split_function_args
split_function_args_lem text = (
  join-object_pieces no_level text,
  λ args h.
      let (s, found, e) =
        and_then-ok (split_args no_quote 0 text)
          (λ z. ok (keep (λ arg. not (is_blank arg)) (z.0 ∷ z.1))) args h in
      (s.0, s.1, join-split_args no_quote 0 text s found, ground (arith, e)),
)
