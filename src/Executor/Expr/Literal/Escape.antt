-- ===== src/Executor/Expr/Literal/Escape.antt =====
-- crates/clash-prism-core/src/executor/expr.rs: texts written as quoted literals are read back.
use Prim.Native.Char.{Char, code}
use mathlib.Core.List.{drop_last, reverse, reverse-reverse, reverse-append}
use text.Mathlib.TextLemmas.{head-eq_of_cons-eq}
use clash_prism_engine.Base.{
  true, false, ◌||◌, List, [], ◌∷◌, ◌++◌, ◌≡◌, ◌≢◌, refl, ap, sym, ◌∙◌, arith, Bool-cases, inl, inr,
  some, if◌then◌else◌, ok, string_eq,
}
use clash_prism_engine.Base.Text.{
  chars, of_chars, is_char, is_char_iff, is_whitespace, drop_while, trim, starts_with_char,
  ends_with_char,
}
use clash_prism_engine.Json.{string}
use clash_prism_engine.Executor.Expr.{expr_string, Packages}
use clash_prism_engine.Executor.Expr.Literal.{
  unescaped, unescape, parse_quoted_string_inner, is_quoted, quoted, text_eq, parse_trimmed,
  parse_literal, parse_json_trimmed, parse_json_literal,
}

-- A writer of literals: each backslash, quote, newline, tab and carriage return by its escape.
unfoldable pub escaped : Char → List Char
escaped c =
    if is_char 92 c || is_char 34 c || is_char 39 c
    then "\\" ∷ c ∷ []
    else if is_char 10 c
    then "\\" ∷ "n" ∷ []
    else if is_char 9 c
    then "\\" ∷ "t" ∷ []
    else if is_char 13 c
    then "\\" ∷ "r" ∷ []
    else c ∷ []

unfoldable pub escape : List Char → List Char
escape [] = []
escape (c ∷ cs) = escaped c ++ escape cs

abbrev pub double_quote : Char
double_quote = "\""

unfoldable pub write_literal : List Char → List Char
write_literal s = double_quote ∷ (escape s ++ double_quote ∷ [])

unescape_other :
    (c : Char) (rest : List Char) → is_char 92 c ≡ false → unescape (c ∷ rest) ≡ c ∷ unescape rest
unfolding unescape
unescape_other c [] h = refl
unescape_other c (d ∷ rest) h = ground (arith, h)

unescape-escaped : (c : Char) (rest : List Char) → unescape (escaped c ++ rest) ≡ c ∷ unescape rest
unfolding unescape unescaped escaped is_char
unescape-escaped c rest = elim (Bool-cases (is_char 92 c || is_char 34 c || is_char 39 c)) [
  | inl g ↦ ground (arith, g)
  | inr g ↦ elim (Bool-cases (is_char 10 c)) [
    | inl n ↦ ground (arith, g, n, (is_char_iff "\n" c).0 n)
    | inr n ↦ elim (Bool-cases (is_char 9 c)) [
      | inl t ↦ ground (arith, g, n, t, (is_char_iff "\t" c).0 t)
      | inr t ↦ elim (Bool-cases (is_char 13 c)) [
        | inl r ↦ ground (arith, g, n, t, r, (is_char_iff "\r" c).0 r)
        | inr r ↦ ground (arith, g, n, t, r, unescape_other c rest (ground (arith, g)))
      ]
    ]
  ]
]

drop_last-snoc : (cs : List Char) (c : Char) → drop_last (cs ++ c ∷ []) ≡ cs
drop_last-snoc [] c = refl
drop_last-snoc (d ∷ []) c = refl
drop_last-snoc (d ∷ e ∷ cs) c = ap (λ z. d ∷ z) (drop_last-snoc (e ∷ cs) c)

pub trim_fixed :
    (c d : Char) (cs : List Char)
    → is_whitespace c ≡ false
    → is_whitespace d ≡ false
    → trim (c ∷ (cs ++ d ∷ [])) ≡ c ∷ (cs ++ d ∷ [])
unfolding trim drop_while
trim_fixed c d cs hc hd =
    let there = reverse-append (c ∷ cs) (d ∷ []) in
    let first : drop_while is_whitespace (c ∷ (cs ++ d ∷ [])) ≡ c ∷ (cs ++ d ∷ []) =
      ground (arith, hc) in
    let last : drop_while is_whitespace (d ∷ reverse (c ∷ cs)) ≡ d ∷ reverse (c ∷ cs) =
      ground (arith, hd) in
    ap (λ z. reverse (drop_while is_whitespace (reverse z))) first
    ∙ ap (λ z. reverse (drop_while is_whitespace z)) there
    ∙ ap reverse last
    ∙ ap reverse (sym there)
    ∙ reverse-reverse (c ∷ (cs ++ d ∷ []))

unescape-escape : (s : List Char) → unescape (escape s) ≡ s
unfolding escape unescape
unescape-escape [] = refl
unescape-escape (c ∷ cs) =
    unescape-escaped c (escape cs) ∙ ap (λ rest. c ∷ rest) (unescape-escape cs)

text_neq : (c d : Char) (cs ds : List Char) → code c ≢ code d → text_eq (c ∷ cs) (d ∷ ds) ≡ false
unfolding text_eq
text_neq c d cs ds h = elim (Bool-cases (text_eq (c ∷ cs) (d ∷ ds))) [
  | inl same ↦ absurd (h (ap code (head-eq_of_cons-eq ((string_eq.test_iff _ _).0 same))))
  | inr other ↦ other
]

parse_inner :
    (q : Char) (cs : List Char)
    → parse_quoted_string_inner (q ∷ (cs ++ q ∷ [])) ≡ some (unescape cs)
unfolding parse_quoted_string_inner
parse_inner q [] = refl
parse_inner q (c ∷ cs) = ap (λ z. some (unescape z)) (drop_last-snoc (c ∷ cs) q)

ends_quoted : (cs : List Char) → ends_with_char 34 (double_quote ∷ (cs ++ double_quote ∷ [])) ≡ true
unfolding ends_with_char starts_with_char is_char
ends_quoted cs = ap (starts_with_char 34) (reverse-append (double_quote ∷ cs) (double_quote ∷ []))

quoted-write_literal : (s : List Char) → quoted (write_literal s) ≡ some s
unfolding quoted is_quoted write_literal starts_with_char is_char parse_quoted_string_inner
quoted-write_literal s =
    rw (ends_quoted (escape s)) (parse_inner double_quote (escape s) ∙ ap some (unescape-escape s))

trim-write_literal : (s : List Char) → trim (write_literal s) ≡ write_literal s
unfolding write_literal is_whitespace
trim-write_literal s = trim_fixed double_quote double_quote (escape s) refl refl

-- A literal is none of the three words.
write_literal-ne_word :
    (s : List Char) (d : Char) (ds : List Char)
    → 34 ≢ code d
    → text_eq (write_literal s) (d ∷ ds) ≡ false
unfolding write_literal
write_literal-ne_word s d ds h = text_neq double_quote d (escape s ++ double_quote ∷ []) ds h

module _ {N F I R : Type 0} (pk : Packages N F I R) where
  parse_trimmed-write_literal :
      (s : List Char) → parse_trimmed pk (write_literal s) ≡ ok (expr_string s)
  unfolding parse_trimmed
  parse_trimmed-write_literal s =
      rw
        (
          write_literal-ne_word s "t" (chars "rue") (ground arith),
          write_literal-ne_word s "f" (chars "alse") (ground arith),
          write_literal-ne_word s "n" (chars "ull") (ground arith),
          quoted-write_literal s,
        )
        refl

  parse_json_trimmed-write_literal :
      (s : List Char) → parse_json_trimmed pk (write_literal s) ≡ ok (string (of_chars s))
  unfolding parse_json_trimmed
  parse_json_trimmed-write_literal s =
      rw
        (
          write_literal-ne_word s "t" (chars "rue") (ground arith),
          write_literal-ne_word s "f" (chars "alse") (ground arith),
          write_literal-ne_word s "n" (chars "ull") (ground arith),
          quoted-write_literal s,
        )
        refl

  -- A text written as a literal, between double quotes and with its escapes, is read back as it was
  -- by both readers of literals, `parse_literal` and `parse_json_literal`.
  pub parse_literal-write_literal :
      (s : List Char)
      → (parse_literal pk (write_literal s) ≡ ok (expr_string s))
        × (parse_json_literal pk (write_literal s) ≡ ok (string (of_chars s)))
  unfolding parse_literal parse_json_literal
  parse_literal-write_literal s = (
    ap (parse_trimmed pk) (trim-write_literal s) ∙ parse_trimmed-write_literal s,
    ap (parse_json_trimmed pk) (trim-write_literal s) ∙ parse_json_trimmed-write_literal s,
  )
