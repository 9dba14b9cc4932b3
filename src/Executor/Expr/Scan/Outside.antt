-- ===== src/Executor/Expr/Scan/Outside.antt =====
-- crates/clash-prism-core/src/executor/expr.rs: the texts that end outside of strings, told by their
-- parts, and the level that a search has behind them.
use Prim.Native.Char.{Char, code}
use clash_prism_engine.Base.{
  ℕ, suc, ◌+◌, false, Option, none, some, List, [], ◌∷◌, ◌++◌, ◌≡◌, ◌≢◌, ◌⊎◌, refl, ap, sym, ◌∙◌,
  inl, inr, arith, All, Bool-cases, eqb_iff, ◌↔◌, eqb, subst,
}
use clash_prism_engine.Base.Text.{is_char, is_char_iff}
use clash_prism_engine.Executor.Expr.Scan.{
  Level, read_level, read_quote, is_plain, is_quote, in_string, count,
}
use clash_prism_engine.Executor.Expr.Scan.Found.{level_after}

abbrev pub IsQuote : Char → Type 0
IsQuote c = (code c ≡ 34) ⊎ (code c ≡ 39)

-- Neither a quote nor a parenthesis.
abbrev pub IsOrdinary : Char → Type 0
IsOrdinary c = (code c ≢ 34) × (code c ≢ 39) × (code c ≢ 40) × (code c ≢ 41)

-- A text of ordinary characters, parentheses and whole strings, with the numbers of its opening and
-- closing parentheses. A string ends at the first quote of the kind that opens it.
pub data Tokens : List Char → ℕ → ℕ → Type 0 where
  nothing : Tokens [] 0 0
  ordinary : (c : Char) {t : List Char} {m n : ℕ} → IsOrdinary c → Tokens t m n → Tokens (c ∷ t) m n
  opening :
      (c : Char) {t : List Char} {m n : ℕ} → code c ≡ 40 → Tokens t m n → Tokens (c ∷ t) (suc m) n
  closing :
      (c : Char) {t : List Char} {m n : ℕ} → code c ≡ 41 → Tokens t m n → Tokens (c ∷ t) m (suc n)
  quoted :
      (q : Char) (body t : List Char) {text : List Char} {m n : ℕ}
      → IsQuote q
      → All (λ c. c ≢ q) body
      → text ≡ q ∷ (body ++ (q ∷ t))
      → Tokens t m n
      → Tokens text m n

-- The text ends outside of strings, and as many parentheses are closed in it as are opened.
abbrev pub IsOutside : List Char → Type 0
IsOutside text = (n : ℕ) × Tokens text n n

abbrev pub level_at : Option Char → ℕ → ℕ → Level
level_at q o c = record {
  quote = record { string_char = q; escaped = false };
  opened = o;
  closed = c;
}

abbrev next : Level → Char → Level
next l c = read_level (is_char 40) (is_char 41) l c

next-ordinary : (c : Char) (m n : ℕ) → IsOrdinary c → next (level_at none m n) c ≡ level_at none m n
unfolding read_level read_quote is_plain is_quote in_string count is_char
next-ordinary c m n h =
    ground
      (arith, eqb_iff (code c) 34, eqb_iff (code c) 39, eqb_iff (code c) 40, eqb_iff (code c) 41)

next-opening :
    (c : Char) (m n : ℕ) → code c ≡ 40 → next (level_at none m n) c ≡ level_at none (suc m) n
unfolding read_level read_quote is_plain is_quote in_string count is_char
next-opening c m n h = rw h refl

next-closing :
    (c : Char) (m n : ℕ) → code c ≡ 41 → next (level_at none m n) c ≡ level_at none m (suc n)
unfolding read_level read_quote is_plain is_quote in_string count is_char
next-closing c m n h = rw h refl

next-quote : (c : Char) (m n : ℕ) → IsQuote c → next (level_at none m n) c ≡ level_at (some c) m n
unfolding read_level read_quote is_plain is_quote in_string count is_char
next-quote c m n (inl h) = rw h refl
next-quote c m n (inr h) = rw h refl

next-inside :
    (q c : Char) (m n : ℕ) → c ≢ q → next (level_at (some q) m n) c ≡ level_at (some q) m n
unfolding read_level read_quote is_plain in_string count
next-inside q c m n h = elim (Bool-cases (is_char (code q) c)) [
  | inl e ↦ absurd (h (sym ((is_char_iff q c).0 e)))
  | inr e ↦ ground (arith, e)
]

next-end : (q : Char) (m n : ℕ) → next (level_at (some q) m n) q ≡ level_at none m n
unfolding read_level read_quote is_plain in_string count
next-end q m n = let e = (is_char_iff q q).1 refl in ground (arith, e)

level_after-string :
    (q : Char) (body t : List Char) (m n : ℕ)
    → All (λ c. c ≢ q) body
    → level_after (level_at (some q) m n) (body ++ (q ∷ t)) ≡ level_after (level_at none m n) t
unfolding level_after
level_after-string q [] t m n h = ap (λ l. level_after l t) (next-end q m n)
level_after-string q (c ∷ body) t m n (h, hs) =
    ap (λ l. level_after l (body ++ (q ∷ t))) (next-inside q c m n h)
    ∙ level_after-string q body t m n hs

-- The level behind whole tokens counts their parentheses and is outside of strings.
pub level_after-Tokens :
    {text : List Char} {m n : ℕ}
    → Tokens text m n
    → (o c : ℕ) → level_after (level_at none o c) text ≡ level_at none (o + m) (c + n)
unfolding level_after
level_after-Tokens nothing o c = ground arith
level_after-Tokens (ordinary x {t} h r) o c =
    ap (λ l. level_after l t) (next-ordinary x o c h) ∙ level_after-Tokens r o c
level_after-Tokens (opening x {t} h r) o c =
    let rest = level_after-Tokens r (suc o) c in
    ap (λ l. level_after l t) (next-opening x o c h) ∙ ground (arith, rest)
level_after-Tokens (closing x {t} h r) o c =
    let rest = level_after-Tokens r o (suc c) in
    ap (λ l. level_after l t) (next-closing x o c h) ∙ ground (arith, rest)
level_after-Tokens (quoted q body t h hs e r) o c =
    ap (level_after (level_at none o c)) e
    ∙ ap (λ l. level_after l (body ++ (q ∷ t))) (next-quote q o c h)
    ∙ level_after-string q body t o c hs
    ∙ level_after-Tokens r o c

-- What is read of a text that ends outside of strings, from outside or from inside of one.
abbrev Holds : Option Char → List Char → ℕ → ℕ → Type 0
Holds none text m n = Tokens text m n
Holds (some q) text m n =
    (body : List Char) × (t : List Char) × All (λ c. c ≢ q) body
    × (text ≡ body ++ (q ∷ t))
    × Tokens t m n

data Class (c : Char) : Type 0 where
  quote : IsQuote c → Class c
  open_parenthesis : code c ≡ 40 → Class c
  close_parenthesis : code c ≡ 41 → Class c
  other : IsOrdinary c → Class c

classify : (c : Char) → Class c
classify c = elim (Bool-cases (eqb (code c) 34)) [
  | inl e ↦ quote (inl ((eqb_iff (code c) 34).0 e))
  | inr n ↦ elim (Bool-cases (eqb (code c) 39)) [
    | inl e ↦ quote (inr ((eqb_iff (code c) 39).0 e))
    | inr k ↦ elim (Bool-cases (eqb (code c) 40)) [
      | inl e ↦ open_parenthesis ((eqb_iff (code c) 40).0 e)
      | inr i ↦ elim (Bool-cases (eqb (code c) 41)) [
        | inl e ↦ close_parenthesis ((eqb_iff (code c) 41).0 e)
        | inr j ↦ other (
            ground (
              arith,
              n,
              k,
              i,
              j,
              eqb_iff (code c) 34,
              eqb_iff (code c) 39,
              eqb_iff (code c) 40,
              eqb_iff (code c) 41,
            ))
      ]
    ]
  ]
]

-- A search that is outside of strings behind a text has read whole tokens.
pub read_tokens :
    (q : Option Char) (o c : ℕ) (text : List Char)
    → (level_after (level_at q o c) text).quote.string_char ≡ none
    → (m : ℕ) × (n : ℕ) × Holds q text m n
      × (level_after (level_at q o c) text ≡ level_at none (o + m) (c + n))
unfolding level_after
read_tokens none o c [] h = (0, 0, nothing, ground arith)
read_tokens (some q) o c [] h = absurd (ground arith)
read_tokens none o c (x ∷ text) h = elim (classify x) [
  | quote k ↦
      let e = next-quote x o c k in
      let (m, n, (body, t, hs, parts, r), l) =
        read_tokens (some x) o c text
          (ap (λ l. (level_after l text).quote.string_char) (sym e) ∙ h) in
      (
        m,
        n,
        quoted x body t k hs (ap (λ rest. x ∷ rest) parts) r,
        ap (λ l. level_after l text) e ∙ l,
      )
  | open_parenthesis k ↦
      let e = next-opening x o c k in
      let (m, n, r, l) =
        read_tokens none (suc o) c text
          (ap (λ l. (level_after l text).quote.string_char) (sym e) ∙ h) in
      (suc m, n, opening x k r, ap (λ l. level_after l text) e ∙ ground (arith, l))
  | close_parenthesis k ↦
      let e = next-closing x o c k in
      let (m, n, r, l) =
        read_tokens none o (suc c) text
          (ap (λ l. (level_after l text).quote.string_char) (sym e) ∙ h) in
      (m, suc n, closing x k r, ap (λ l. level_after l text) e ∙ ground (arith, l))
  | other k ↦
      let e = next-ordinary x o c k in
      let (m, n, r, l) =
        read_tokens none o c text (ap (λ l. (level_after l text).quote.string_char) (sym e) ∙ h) in
      (m, n, ordinary x k r, ap (λ l. level_after l text) e ∙ l)
]
read_tokens (some q) o c (x ∷ text) h = elim (Bool-cases (is_char (code q) x)) [
  | inl same ↦
      let here : x ≡ q = sym ((is_char_iff q x).0 same) in
      let e = ap (next (level_at (some q) o c)) here ∙ next-end q o c in
      let (m, n, r, l) =
        read_tokens none o c text (ap (λ l. (level_after l text).quote.string_char) (sym e) ∙ h) in
      (m, n, ([], text, tt, ap (λ a. a ∷ text) here, r), ap (λ l. level_after l text) e ∙ l)
  | inr apart ↦
      let not_q : x ≢ q = λ k. ground (arith, apart, (is_char_iff q x).1 (sym k)) in
      let e = next-inside q x o c not_q in
      let (m, n, (body, t, hs, parts, r), l) =
        read_tokens (some q) o c text
          (ap (λ l. (level_after l text).quote.string_char) (sym e) ∙ h) in
      (
        m,
        n,
        (x ∷ body, t, (not_q, hs), ap (λ rest. x ∷ rest) parts, r),
        ap (λ l. level_after l text) e ∙ l,
      )
]

-- The level behind a text, from outside of strings: outside again, and with as many parentheses
-- closed as opened, exactly behind the texts that are made of tokens.
pub level_after_iff :
    (text : List Char) (n : ℕ)
    → (level_after (level_at none 0 0) text ≡ level_at none n n) ↔ Tokens text n n
level_after_iff text n = (
  λ h.
      let (m, k, r, l) = read_tokens none 0 0 text (ap (λ l. l.quote.string_char) h) in
      let same : level_at none (0 + m) (0 + k) ≡ level_at none n n = sym l ∙ h in
      let opened : m ≡ n = omega (arith, ap (λ l. l.opened) same) in
      let closed : k ≡ n = omega (arith, ap (λ l. l.closed) same) in
      subst (λ a. Tokens text a n) opened (subst (λ a. Tokens text m a) closed r),
  λ r. let after = level_after-Tokens r 0 0 in ground (arith, after),
)
