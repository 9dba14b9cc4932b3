-- ===== src/Executor/Expr/Scan/Found.antt =====
-- crates/clash-prism-core/src/executor/expr.rs: what the searches for an operator and a pipe find.
use Prim.Native.Char.{Char}
use clash_prism_engine.Base.{
  ℕ, zero, suc, ◌≤◌, Bool, true, false, Option, none, some, List, [], ◌∷◌, ◌≡◌, ◌≢◌, ◌↔◌, inl, inr,
  arith, take, Bool-cases,
}
use clash_prism_engine.Base.Text.{is_char}
use clash_prism_engine.Executor.Expr.Scan.{drop, next_position, Level, read_level, find_at}

-- The level and the last character behind a text.
unfoldable pub level_after : Level → List Char → Level
level_after l [] = l
level_after l (c ∷ cs) = level_after (read_level (is_char 40) (is_char 41) l c) cs

abbrev next_level : Level → Char → Level
next_level l c = read_level (is_char 40) (is_char 41) l c

unfoldable pub last_of : Option Char → List Char → Option Char
last_of prev [] = prev
last_of prev (c ∷ cs) = last_of (some c) cs

-- The test of a search holds at a position.
unfoldable pub passes :
    (test : Level → Option Char → List Char → Bool) → Level → Option Char → List Char → ℕ → Bool
passes test l prev cs n = test (level_after l (take n cs)) (last_of prev (take n cs)) (drop n cs)

next_position-zero : (o : Option ℕ) → next_position o ≢ some 0
unfolding next_position
next_position-zero none h = ground arith
next_position-zero (some n) h = ground arith

next_position-suc : (o : Option ℕ) (n : ℕ) → next_position o ≡ some (suc n) → o ≡ some n
unfolding next_position
next_position-suc none n h = absurd (ground arith)
next_position-suc (some m) n h = ground arith

module _ (test : Level → Option Char → List Char → Bool) where
  pub find_at-suc :
      (l : Level) (prev : Option Char) (c : Char) (cs : List Char) (n : ℕ)
      → find_at test l prev (c ∷ cs) ≡ some (suc n)
      → (test l prev (c ∷ cs) ≡ false) × (find_at test (next_level l c) (some c) cs ≡ some n)
  unfolding find_at
  find_at-suc l prev c cs n h = elim (Bool-cases (test l prev (c ∷ cs))) [
    | inl t ↦ absurd (ground (arith, t, h))
    | inr f ↦
        let rest : next_position (find_at test (next_level l c) (some c) cs) ≡ some (suc n) =
          ground (arith, f, h) in
        (f, next_position-suc (find_at test (next_level l c) (some c) cs) n rest)
  ]

  find_at_sound :
      (l : Level) (prev : Option Char) (cs : List Char) (n : ℕ)
      → find_at test l prev cs ≡ some n
      → passes test l prev cs n ≡ true
  unfolding find_at passes level_after last_of drop
  find_at_sound l prev [] n h = absurd (ground arith)
  find_at_sound l prev (c ∷ cs) zero h = elim (Bool-cases (test l prev (c ∷ cs))) [
    | inl t ↦ t
    | inr f ↦
        let rest : next_position (find_at test (next_level l c) (some c) cs) ≡ some 0 =
          ground (arith, f, h) in
        absurd (next_position-zero (find_at test (next_level l c) (some c) cs) rest)
  ]
  find_at_sound l prev (c ∷ cs) (suc n) h =
      find_at_sound (next_level l c) (some c) cs n (find_at-suc l prev c cs n h).1

  find_at-first :
      (l : Level) (prev : Option Char) (cs : List Char) (n m : ℕ)
      → find_at test l prev cs ≡ some n
      → passes test l prev cs m ≡ true
      → n ≤ m
  unfolding find_at passes level_after last_of drop
  find_at-first l prev [] n m h t = absurd (ground arith)
  find_at-first l prev (c ∷ cs) zero m h t = omega arith
  find_at-first l prev (c ∷ cs) (suc n) zero h t =
      absurd (ground (arith, t, (find_at-suc l prev c cs n h).0))
  find_at-first l prev (c ∷ cs) (suc n) (suc m) h t =
      let rest = (find_at-suc l prev c cs n h).1 in
      let first = find_at-first (next_level l c) (some c) cs n m rest t in omega (arith, first)

module _ (test : Level → Option Char → List Char → Bool)
    (on_nil : (l : Level) (prev : Option Char) → test l prev [] ≡ false) where
  find_at_complete :
      (l : Level) (prev : Option Char) (cs : List Char) (n : ℕ)
      → passes test l prev cs n ≡ true
      → ((m : ℕ) → passes test l prev cs m ≡ true → n ≤ m)
      → find_at test l prev cs ≡ some n
  unfolding find_at passes level_after last_of drop next_position
  find_at_complete l prev [] zero t first = absurd (ground (arith, t, on_nil l prev))
  find_at_complete l prev [] (suc n) t first = absurd (ground (arith, t, on_nil l prev))
  find_at_complete l prev (c ∷ cs) zero t first = ground (arith, t)
  find_at_complete l prev (c ∷ cs) (suc n) t first = elim (Bool-cases (test l prev (c ∷ cs))) [
    | inl f ↦ absurd (let bad = first 0 f in omega (arith, bad))
    | inr f ↦
        let rest =
          find_at_complete (next_level l c) (some c) cs n t
            (λ (m : ℕ) k. let le = first (suc m) k in omega (arith, le)) in
        ground (arith, f, rest)
  ]

  -- The search gives the first position at which the test holds.
  pub find_at_iff :
      (l : Level) (prev : Option Char) (cs : List Char) (n : ℕ)
      → (find_at test l prev cs ≡ some n)
        ↔ ((passes test l prev cs n ≡ true) × ((m : ℕ) → passes test l prev cs m ≡ true → n ≤ m))
  find_at_iff l prev cs n = (
    λ h. (find_at_sound test l prev cs n h, λ m t. find_at-first test l prev cs n m h t),
    λ (t, first). find_at_complete l prev cs n t first,
  )
