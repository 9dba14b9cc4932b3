-- ===== src/Executor/Expr/Scan/Delimiter.antt =====
-- crates/clash-prism-core/src/executor/expr.rs: what `find_regex_delimiter` finds.
use Prim.Native.Char.{Char}
use clash_prism_engine.Base.{
  ℕ, Bool, true, false, not, ◌&&◌, List, [], ◌∷◌, ◌++◌, ◌≡◌, refl, ap, subst, sym, ◌∙◌, ◌↔◌, inl,
  inr, arith, Bool-cases, ok, Outcome, and_then, and_then-ok,
}
use clash_prism_engine.Base.Text.{is_char}
use clash_prism_engine.Executor.Expr.{ExprError}
use clash_prism_engine.Executor.Expr.Scan.{delimit, find_regex_delimiter}

-- A delimiter that ends the text: the character itself, and no backslash.
unfoldable pub is_delimiter : ℕ → Char → Bool
is_delimiter delimiter c = is_char delimiter c && not (is_char 92 c)

-- Behind each backslash a character is skipped; of the others none is a delimiter, and no backslash
-- stands last.
abbrev pub IsUndelimited : Bool → ℕ → List Char → Type 0
IsUndelimited in_escape delimiter [] = in_escape ≡ false
IsUndelimited true delimiter (c ∷ cs) = IsUndelimited false delimiter cs
IsUndelimited false delimiter (c ∷ cs) =
    (is_delimiter delimiter c ≡ false) × IsUndelimited (is_char 92 c) delimiter cs

-- The character that ends the text before a delimiter, with what is known of it.
abbrev pub IsDelimited : Bool → ℕ → (s a b : List Char) → Type 0
IsDelimited in_escape delimiter s a b =
    (c : Char) × (is_delimiter delimiter c ≡ true)
    × (s ≡ a ++ c ∷ b)
    × IsUndelimited in_escape delimiter a

abbrev push : Char → List Char × List Char → Outcome (List Char × List Char) ExprError
push c s = ok (c ∷ s.0, s.1)

push-IsDelimited :
    (e f : Bool) (d : ℕ) (c : Char) (cs a b : List Char)
    (m : Outcome (List Char × List Char) ExprError)
    → ((x : List Char) → m ≡ ok (x, b) → IsDelimited f d cs x b)
    → ((x : List Char) → IsUndelimited f d x → IsUndelimited e d (c ∷ x))
    → and_then m (push c) ≡ ok (a, b)
    → IsDelimited e d (c ∷ cs) a b
push-IsDelimited e f d c cs a b m rest un h =
    let ((x, y), done, same) = and_then-ok m (push c) (a, b) h in
    let text : c ∷ x ≡ a = ground (arith, same) in
    let behind : y ≡ b = ground (arith, same) in
    let (q, is, split, closed) = rest x (done ∙ ap (λ z. ok (x, z)) behind) in
    subst (λ z. IsDelimited e d (c ∷ cs) z b) text (q, is, ap (λ z. c ∷ z) split, un x closed)

delimit_sound :
    (e : Bool) (d : ℕ) (s a b : List Char) → delimit e d s ≡ ok (a, b) → IsDelimited e d s a b
unfolding delimit is_delimiter
delimit_sound e d [] a b h = absurd (ground arith)
delimit_sound true d (c ∷ cs) a b h =
    push-IsDelimited true false d c cs a b (delimit false d cs)
      (λ x r. delimit_sound false d cs x b r) (λ x u. u) (ground (arith, h))
delimit_sound false d (c ∷ cs) a b h = elim (Bool-cases (is_delimiter d c)) [
  | inl is ↦
      let text : [] ≡ a = ground (arith, h, is) in
      let behind : cs ≡ b = ground (arith, h, is) in
      subst (λ z. IsDelimited false d (c ∷ cs) z b) text (c, is, ap (λ z. c ∷ z) behind, refl)
  | inr other ↦
      push-IsDelimited false (is_char 92 c) d c cs a b (delimit (is_char 92 c) d cs)
        (λ x r. delimit_sound (is_char 92 c) d cs x b r) (λ x u. (other, u))
        (ground (arith, h, other))
]

delimit_complete :
    (e : Bool) (d : ℕ) (a b : List Char) (c : Char)
    → is_delimiter d c ≡ true
    → IsUndelimited e d a
    → delimit e d (a ++ c ∷ b) ≡ ok (a, b)
unfolding delimit is_delimiter and_then
delimit_complete e d [] b c is un = ground (arith, is, un)
delimit_complete true d (x ∷ a) b c is un = ground (arith, delimit_complete false d a b c is un)
delimit_complete false d (x ∷ a) b c is (other, un) =
    ground (arith, other, delimit_complete (is_char 92 x) d a b c is un)

-- `find_regex_delimiter` splits a text at the first delimiter that no backslash escapes: it gives
-- (a, b) exactly if a delimiter stands between a and b, and a is free of unescaped delimiters.
pub find_regex_delimiter_iff :
    (s a b : List Char) (delimiter : ℕ)
    → (find_regex_delimiter s delimiter ≡ ok (a, b)) ↔ IsDelimited false delimiter s a b
unfolding find_regex_delimiter
find_regex_delimiter_iff s a b delimiter = (
  λ h. delimit_sound false delimiter s a b h,
  λ (c, is, split, un).
      subst (λ z. delimit false delimiter z ≡ ok (a, b)) (sym split)
        (delimit_complete false delimiter a b c is un),
)
