-- ===== src/Base/Equality.antt =====
-- Equality tests of the key types, as the source's `==` has them.
use Prim.Native.Nat.{ℕ, suc, ◌≤◌}
use Prim.Native.String.{String}
use mathlib.Core.Path.{◌≡◌, refl}
use mathlib.Core.Logic.{inl, inr, ◌↔◌, ◌≢◌}
use mathlib.Core.Bool.{Bool, true, false, ◌||◌}
use mathlib.Core.List.{List, [], ◌∷◌, ◌++◌}
use native.Mathlib.Omega.{arith}
use text.Mathlib.Text.{◌==◌ as str_eq}
use text.Mathlib.TextEquality.{eq_iff}
use clash_prism_engine.Base.Lists.{length}
use clash_prism_engine.Base.Tests.{eqb, eqb_iff, Bool-cases, if◌then◌else◌}

-- A type whose values the source compares by `==`.
pub record Eq {ℓ} (K : Type ℓ) : Type ℓ where
  pub test : K → K → Bool
  pub test_iff : (x y : K) → (test x y ≡ true) ↔ (x ≡ y)

instance abbrev pub string_eq : Eq String
string_eq = record { test = str_eq; test_iff = eq_iff }

instance abbrev pub nat_eq : Eq ℕ
nat_eq = record { test = eqb; test_iff = eqb_iff }

infix 50 ◌==◌
abbrev pub ◌==◌ {ℓ} : {K : Type ℓ} ⦃key : Eq K⦄ → K → K → Bool
◌==◌ ⦃key⦄ = key.test

module _ {ℓ} {A : Type ℓ} ⦃e : Eq A⦄ where
  pub beq_refl : (a : A) → (a == a) ≡ true
  beq_refl a = (e.test_iff a a).1 refl

  pub beq_false : (a b : A) → a ≢ b → (a == b) ≡ false
  beq_false a b h = ground (arith, e.test_iff a b)

  -- `Vec::contains`.
  unfoldable pub contains : A → List A → Bool
  contains a [] = false
  contains a (x ∷ xs) = (x == a) || contains a xs

  -- `retain(|k| k != a)`.
  unfoldable pub without : A → List A → List A
  without a [] = []
  without a (x ∷ xs) = if x == a then without a xs else x ∷ without a xs

  pub contains-without :
      (a b : A) (xs : List A)
      → contains b (without a xs) ≡ (if a == b then false else contains b xs)
  unfolding contains without
  contains-without a b [] = ground arith
  contains-without a b (x ∷ xs) =
      ground (arith, contains-without a b xs, e.test_iff x a, e.test_iff x b, e.test_iff a b)

  pub contains-append :
      (b : A) (xs ys : List A) → contains b (xs ++ ys) ≡ (contains b xs || contains b ys)
  unfolding contains
  contains-append b [] ys = refl
  contains-append b (x ∷ xs) ys = ground (arith, contains-append b xs ys)

  -- No entry stands twice.
  abbrev pub IsDistinct : List A → Type 0
  IsDistinct [] = Unit
  IsDistinct (x ∷ xs) = (contains x xs ≡ false) × IsDistinct xs

  pub IsDistinct-without : (a : A) (xs : List A) → IsDistinct xs → IsDistinct (without a xs)
  unfolding without
  IsDistinct-without a [] h = tt
  IsDistinct-without a (x ∷ xs) (h, hs) =
      ground (arith, IsDistinct-without a xs hs, contains-without a x xs, e.test_iff a x)

  pub IsDistinct-snoc :
      (a : A) (xs : List A) → IsDistinct xs → contains a xs ≡ false → IsDistinct (xs ++ a ∷ [])
  unfolding contains
  IsDistinct-snoc a [] h n = (refl, tt)
  IsDistinct-snoc a (x ∷ xs) (h, hs) n = ground (
    arith,
    IsDistinct-snoc a xs hs,
    contains-append x xs (a ∷ []),
    e.test_iff x a,
    e.test_iff a x,
  )

  length-without-le : (a : A) (xs : List A) → length (without a xs) ≤ length xs
  unfolding without
  length-without-le a [] = omega arith
  length-without-le a (x ∷ xs) = ground (arith, length-without-le a xs)

  length-without :
      (a : A) (xs : List A) → contains a xs ≡ true → suc (length (without a xs)) ≤ length xs
  unfolding contains without
  length-without a [] h = cc
  length-without a (x ∷ xs) h = ground (arith, length-without a xs, length-without-le a xs)

  -- A list of distinct items that all stand in another is not longer.
  pub length-le_of_contains :
      (xs ys : List A)
      → IsDistinct xs
      → ((a : A) → contains a xs ≡ true → contains a ys ≡ true)
      → length xs ≤ length ys
  unfolding contains
  length-le_of_contains [] ys d sub = omega arith
  length-le_of_contains (x ∷ xs) ys (d, ds) sub = omega (
    arith,
    length-without x ys (sub x (ground (arith, beq_refl x))),
    length-le_of_contains xs (without x ys) ds (λ (a : A) (h : contains a xs ≡ true).
        ground (arith, sub a, contains-without x a ys, e.test_iff x a)),
  )

  -- So two lists of one length hold the same items, if the first is distinct.
  pub contains_of_length :
      (xs ys : List A) (a : A)
      → IsDistinct xs
      → ((b : A) → contains b xs ≡ true → contains b ys ≡ true)
      → length ys ≤ length xs
      → contains a ys ≡ true
      → contains a xs ≡ true
  contains_of_length xs ys a d sub l h = elim (Bool-cases (contains a xs)) [
    | inl c ↦ c
    | inr c ↦ absurd (
        omega (
          arith,
          length-without a ys h,
          length-le_of_contains xs (without a ys) d (λ (b : A) (k : contains b xs ≡ true).
              ground (arith, sub b, contains-without a b ys, e.test_iff a b)),
        ))
  ]

  length-without_absent :
      (a : A) (xs : List A) → contains a xs ≡ false → length (without a xs) ≡ length xs
  unfolding contains without
  length-without_absent a [] h = refl
  length-without_absent a (x ∷ xs) h = ground (arith, length-without_absent a xs)

  pub length-without_distinct :
      (a : A) (xs : List A)
      → IsDistinct xs
      → length xs ≡ (if contains a xs then suc (length (without a xs)) else length (without a xs))
  unfolding contains without
  length-without_distinct a [] h = refl
  length-without_distinct a (x ∷ xs) (h, hs) =
      ground (arith, length-without_distinct a xs hs, length-without_absent a xs, e.test_iff x a)

  pub without_absent : (a : A) (xs : List A) → contains a xs ≡ false → without a xs ≡ xs
  unfolding contains without
  without_absent a [] h = refl
  without_absent a (x ∷ xs) h = ground (arith, without_absent a xs)
