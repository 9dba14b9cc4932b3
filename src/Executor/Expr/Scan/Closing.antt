-- ===== src/Executor/Expr/Scan/Closing.antt =====
-- crates/clash-prism-core/src/executor/expr.rs: the parenthesis that closes a text.
use Prim.Native.Char.{Char}
use clash_prism_engine.Base.{
  ℕ, ◌-◌, true, ◌&&◌, Option, none, some, List, [], ◌∷◌, ◌++◌, ◌≡◌, refl, ap, subst, inl, inr,
  arith, Bool-cases, if◌then◌else◌, eqb,
}
use clash_prism_engine.Base.Text.{is_char}
use clash_prism_engine.Executor.Expr.Scan.{Quote, is_plain, count, push_before, split_close}

-- A parenthesis closes between the two texts.
abbrev pub IsClosed : (cs a b : List Char) → Type 0
IsClosed cs a b = (c : Char) × (is_char 41 c ≡ true) × (cs ≡ a ++ c ∷ b)

push_before-IsClosed :
    (c : Char) (cs a b : List Char) (o : Option (List Char × List Char))
    → ((x y : List Char) → o ≡ some (x, y) → IsClosed cs x y)
    → push_before c o ≡ some (a, b)
    → IsClosed (c ∷ cs) a b
unfolding push_before
push_before-IsClosed c cs a b none rest h = absurd (ground arith)
push_before-IsClosed c cs a b (some (x, y)) rest h =
    let text : c ∷ x ≡ a = ground (arith, h) in
    let behind : y ≡ b = ground (arith, h) in
    let (q, is, split) = rest x y refl in
    subst (λ z. IsClosed (c ∷ cs) z b) text
      (subst (λ z. IsClosed (c ∷ cs) (c ∷ x) z) behind (q, is, ap (λ z. c ∷ z) split))

pub split_close-IsClosed :
    (read : Quote → Char → Quote) (q : Quote) (n : ℕ) (cs a b : List Char)
    → split_close read q n cs ≡ some (a, b)
    → IsClosed cs a b
unfolding split_close
split_close-IsClosed read q n [] a b h = absurd (ground arith)
split_close-IsClosed read q n (c ∷ cs) a b h =
    let plain = is_plain q c in
    let depth = if plain && is_char 41 c then n - 1 else count (plain && is_char 40 c) n in
    elim (Bool-cases (plain && is_char 41 c && eqb n 0)) [
      | inl closes ↦
          let text : [] ≡ a = ground (arith, h, closes) in
          let behind : cs ≡ b = ground (arith, h, closes) in
          let is : is_char 41 c ≡ true = ground (arith, closes) in
          subst (λ z. IsClosed (c ∷ cs) z b) text (c, is, ap (λ z. c ∷ z) behind)
      | inr other ↦
          push_before-IsClosed c cs a b (split_close read (read q c) depth cs)
            (λ x y. split_close-IsClosed read (read q c) depth cs x y) (ground (arith, h, other))
    ]
