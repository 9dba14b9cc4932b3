-- ===== src/Base/Sorting.antt =====
-- `slice::sort_by_key`: a stable sort by a numeric key.
use Prim.Native.Nat.{ℕ, suc, ◌≤◌}
use mathlib.Core.Path.{◌≡◌, refl, ◌∙◌}
use mathlib.Core.Logic.{inl, inr}
use mathlib.Core.List.{List, [], ◌∷◌}
use native.Mathlib.Omega.{arith}
use clash_prism_engine.Base.Tests.{leb, eqb, if◌then◌else◌, Bool-cases}
use clash_prism_engine.Base.Lists.{length, All}

module _ {ℓ} {A : Type ℓ} (key : A → ℕ) where
  unfoldable pub insert_by_key : A → List A → List A
  insert_by_key x [] = x ∷ []
  insert_by_key x (y ∷ ys) =
      let rest = insert_by_key x ys in if leb (key x) (key y) then x ∷ y ∷ ys else y ∷ rest

  unfoldable pub sort_by_key : List A → List A
  sort_by_key [] = []
  sort_by_key (x ∷ xs) = insert_by_key x (sort_by_key xs)

  -- The items with one key, in their order.
  unfoldable pub at_key : ℕ → List A → List A
  at_key n [] = []
  at_key n (x ∷ xs) = if eqb (key x) n then x ∷ at_key n xs else at_key n xs

  abbrev pub IsOrdered : List A → Type 0
  IsOrdered [] = Unit
  IsOrdered (x ∷ xs) = All (λ y. key x ≤ key y) xs × IsOrdered xs

  All-insert_by_key :
      (n : ℕ) (x : A) (xs : List A)
      → n ≤ key x
      → All (λ y. n ≤ key y) xs
      → All (λ y. n ≤ key y) (insert_by_key x xs)
  unfolding insert_by_key
  All-insert_by_key n x [] h hs = (h, tt)
  All-insert_by_key n x (y ∷ ys) h (k, ks) = ground (arith, All-insert_by_key n x ys h ks)

  All-le : (m n : ℕ) (xs : List A) → m ≤ n → All (λ y. n ≤ key y) xs → All (λ y. m ≤ key y) xs
  All-le m n [] h hs = tt
  All-le m n (x ∷ xs) h (k, ks) = (omega arith, All-le m n xs h ks)

  insert_by_key-IsOrdered : (x : A) (xs : List A) → IsOrdered xs → IsOrdered (insert_by_key x xs)
  unfolding insert_by_key
  insert_by_key-IsOrdered x [] h = (tt, tt)
  insert_by_key-IsOrdered x (y ∷ ys) (h, hs) = elim (Bool-cases (leb (key x) (key y))) [
    | inl l ↦
        let low : key x ≤ key y = ground arith in
        rw l ((low, All-le (key x) (key y) ys low h), (h, hs))
    | inr g ↦
        rw g (All-insert_by_key (key y) x ys (ground arith) h, insert_by_key-IsOrdered x ys hs)
  ]

  pub sort_by_key-IsOrdered : (xs : List A) → IsOrdered (sort_by_key xs)
  unfolding sort_by_key
  sort_by_key-IsOrdered [] = tt
  sort_by_key-IsOrdered (x ∷ xs) =
      insert_by_key-IsOrdered x (sort_by_key xs) (sort_by_key-IsOrdered xs)

  at_key-insert_by_key :
      (n : ℕ) (x : A) (xs : List A)
      → at_key n (insert_by_key x xs) ≡ (if eqb (key x) n then x ∷ at_key n xs else at_key n xs)
  unfolding at_key insert_by_key
  at_key-insert_by_key n x [] = refl
  at_key-insert_by_key n x (y ∷ ys) = elim (Bool-cases (leb (key x) (key y))) [
    | inl l ↦ rw l refl
    | inr g ↦ rw (g, at_key-insert_by_key n x ys) (ground arith)
  ]

  -- A stable sort keeps the items of each key, in their order.
  pub at_key-sort_by_key : (n : ℕ) (xs : List A) → at_key n (sort_by_key xs) ≡ at_key n xs
  unfolding at_key sort_by_key
  at_key-sort_by_key n [] = refl
  at_key-sort_by_key n (x ∷ xs) =
      at_key-insert_by_key n x (sort_by_key xs) ∙ rw (at_key-sort_by_key n xs) refl

  length-insert_by_key : (x : A) (xs : List A) → length (insert_by_key x xs) ≡ suc (length xs)
  unfolding insert_by_key
  length-insert_by_key x [] = refl
  length-insert_by_key x (y ∷ ys) = ground (arith, length-insert_by_key x ys)

  pub length-sort_by_key : (xs : List A) → length (sort_by_key xs) ≡ length xs
  unfolding sort_by_key
  length-sort_by_key [] = refl
  length-sort_by_key (x ∷ xs) =
      ground (arith, length-insert_by_key x (sort_by_key xs), length-sort_by_key xs)

  All-insert {κ} :
      (P : A → Type κ) (x : A) (xs : List A) → P x → All P xs → All P (insert_by_key x xs)
  unfolding insert_by_key
  All-insert P x [] h hs = (h, tt)
  All-insert P x (y ∷ ys) h (k, ks) = elim (Bool-cases (leb (key x) (key y))) [
    | inl l ↦ rw l (h, (k, ks))
    | inr g ↦ rw g (k, All-insert P x ys h ks)
  ]

  All-of_insert {κ} :
      (P : A → Type κ) (x : A) (xs : List A) → All P (insert_by_key x xs) → P x × All P xs
  unfolding insert_by_key
  All-of_insert P x [] h = h
  All-of_insert P x (y ∷ ys) h = elim (Bool-cases (leb (key x) (key y))) [
    | inl l ↦ rw l at h
    | inr g ↦
        let (first, rest) : P y × All P (insert_by_key x ys) = rw g at h in
        let (here, others) = All-of_insert P x ys rest in (here, (first, others))
  ]

  pub All-sort_by_key {κ} : (P : A → Type κ) (xs : List A) → All P xs → All P (sort_by_key xs)
  unfolding sort_by_key
  All-sort_by_key P [] h = tt
  All-sort_by_key P (x ∷ xs) (h, hs) = All-insert P x (sort_by_key xs) h (All-sort_by_key P xs hs)

  pub All-of_sort_by_key {κ} : (P : A → Type κ) (xs : List A) → All P (sort_by_key xs) → All P xs
  unfolding sort_by_key
  All-of_sort_by_key P [] h = tt
  All-of_sort_by_key P (x ∷ xs) h =
      let (first, others) = All-of_insert P x (sort_by_key xs) h in
      (first, All-of_sort_by_key P xs others)
