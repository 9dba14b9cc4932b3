-- ===== src/Migration/Steps.antt =====
-- The steps of a run of migrations: which are taken, where the loop stops, which version it reaches.
use clash_prism_engine.Base.{
  ℕ, suc, ◌≤◌, ◌<◌, ◌≡◌, refl, ap, String, Bool, List, [], ◌∷◌, ◌++◌, arith, ltb, if◌then◌else◌,
  Outcome-cases, ok, err, ◌⊎◌, inl, inr, length, All, Bool-cases,
}
use clash_prism_engine.Base.Sorting.{sort_by_key, insert_by_key, at_key}
use clash_prism_engine.Migration.{
  Migration, MigrationReport, newer, pending, run_pending, larger, target,
}

module _ {ℓ} {V : Type ℓ} where
  -- The migrations take a configuration to another, each with success.
  abbrev pub Chain : List (Migration V) → V → V → Type ℓ
  Chain [] c c' = c ≡ c'
  Chain (m ∷ ms) c c' = (did : Bool) × ((m.apply c).1 ≡ ok did) × Chain ms (m.apply c).0 c'

  unfoldable pub highest : ℕ → List (Migration V) → ℕ
  highest latest [] = latest
  highest latest (m ∷ ms) = highest (larger latest m.target_version) ms

  -- The loop stops at the end of the list, or before the first migration that fails.
  abbrev pub IsRun : List (Migration V) → V → ℕ → V × ℕ × List MigrationReport → Type ℓ
  IsRun ms c latest (c', latest', reports) =
      (done : List (Migration V)) × (rest : List (Migration V)) × (done ++ rest ≡ ms)
      × Chain done c c'
      × (latest' ≡ highest latest done)
      × (((rest ≡ []) × (length reports ≡ length done))
          ⊎ ((m : Migration V) × (left : List (Migration V)) × (msg : String) × (rest ≡ m ∷ left)
              × ((m.apply c').1 ≡ err msg)
              × (length reports ≡ suc (length done))))

  pub run_pending-IsRun :
      (elapsed : Migration V → V → ℕ) (ms : List (Migration V)) (c : V) (latest : ℕ)
      → IsRun ms c latest (run_pending elapsed ms c latest)
  unfolding run_pending highest
  run_pending-IsRun elapsed [] c latest = ([], [], refl, refl, refl, inl (refl, refl))
  run_pending-IsRun elapsed (m ∷ ms) c latest = elim (Outcome-cases (m.apply c).1) [
    | inl (msg, e) ↦
        rw (e, run_pending) ([], m ∷ ms, refl, refl, refl, inr (m, ms, msg, refl, e, refl))
    | inr (did, e) ↦
        let (done, rest, split, chain, high, how) =
          run_pending-IsRun elapsed ms (m.apply c).0 (larger latest m.target_version) in
        rw (e, run_pending)
          (
            m ∷ done,
            rest,
            ap (λ l. m ∷ l) split,
            (did, e, chain),
            high,
            elim how [
              | inl (end, n) ↦ inl (end, ap suc n)
              | inr (f, left, msg, at, fails, n) ↦ inr (f, left, msg, at, fails, ap suc n)
            ],
          )
  ]

  pub highest-le : (latest : ℕ) (ms : List (Migration V)) → latest ≤ highest latest ms
  unfolding highest larger
  highest-le latest [] = omega arith
  highest-le latest (m ∷ ms) = ground (arith, highest-le (larger latest m.target_version) ms)

  pub All-highest :
      (latest : ℕ) (ms : List (Migration V)) → All (λ m. m.target_version ≤ highest latest ms) ms
  unfolding highest larger
  All-highest latest [] = tt
  All-highest latest (m ∷ ms) =
      let next = larger latest m.target_version in
      (ground (arith, highest-le next ms), All-highest next ms)

  pub highest-bound :
      (b latest : ℕ) (ms : List (Migration V))
      → latest ≤ b
      → All (λ m. m.target_version ≤ b) ms
      → highest latest ms ≤ b
  unfolding highest larger
  highest-bound b latest [] h hs = h
  highest-bound b latest (m ∷ ms) h (k, ks) =
      highest-bound b (larger latest m.target_version) ms (ground arith) ks

  pub run_pending-Chain :
      (elapsed : Migration V → V → ℕ) (ms : List (Migration V)) (c c' : V) (latest : ℕ)
      → Chain ms c c'
      → ((run_pending elapsed ms c latest).0 ≡ c')
        × ((run_pending elapsed ms c latest).1 ≡ highest latest ms)
  unfolding run_pending highest
  run_pending-Chain elapsed [] c c' latest h = (h, refl)
  run_pending-Chain elapsed (m ∷ ms) c c' latest (did, e, chain) =
      rw (e, run_pending)
        (run_pending-Chain elapsed ms (m.apply c).0 c' (larger latest m.target_version) chain)

  pub All-newer :
      (P : ℕ → Type 0) (current : ℕ) (ms : List (Migration V))
      → All (λ m. P m.target_version) ms
      → All (λ m. P m.target_version × (current < m.target_version)) (newer current ms)
  unfolding newer
  All-newer P current [] h = tt
  All-newer P current (m ∷ ms) (h, hs) = elim (Bool-cases (ltb current m.target_version)) [
    | inl y ↦ rw y ((h, ground arith), All-newer P current ms hs)
    | inr n ↦ rw n (All-newer P current ms hs)
  ]

  pub newer-done :
      (current high : ℕ) (ms : List (Migration V))
      → current ≤ high
      → All (λ m. m.target_version ≤ high) (newer current ms)
      → newer high ms ≡ []
  unfolding newer
  newer-done current high [] l h = refl
  newer-done current high (m ∷ ms) l h = elim (Bool-cases (ltb current m.target_version)) [
    | inl y ↦
        let (k, ks) : (m.target_version ≤ high)
            × All (λ m. m.target_version ≤ high) (newer current ms) =
          rw y at h in
        ground (arith, newer-done current high ms l ks)
    | inr n ↦ ground (arith, newer-done current high ms l (rw n at h))
  ]

  pub at_key-newer :
      (current n : ℕ) (ms : List (Migration V))
      → at_key target n (newer current ms) ≡ (if ltb current n then at_key target n ms else [])
  unfolding newer at_key target
  at_key-newer current n [] = ground arith
  at_key-newer current n (m ∷ ms) = elim (Bool-cases (ltb current m.target_version)) [
    | inl y ↦ rw y (ground (arith, at_key-newer current n ms))
    | inr z ↦ rw z (ground (arith, at_key-newer current n ms))
  ]

  pub newer_twin :
      (a b : Migration V) (current : ℕ)
      → a.target_version ≤ current
      → b.target_version ≤ current
      → newer current (a ∷ b ∷ []) ≡ []
  unfolding newer
  newer_twin a b current h k = ground arith

  pub twin_order :
      (current : ℕ) (a b : Migration V)
      → current < a.target_version
      → b.target_version ≡ a.target_version
      → pending current (a ∷ b ∷ []) ≡ a ∷ b ∷ []
  unfolding pending newer sort_by_key insert_by_key target
  twin_order current a b up twin = ground arith

  pub All-first :
      (P Q : Migration V → Type 0) (ms : List (Migration V)) → All (λ m. P m × Q m) ms → All P ms
  All-first P Q [] h = tt
  All-first P Q (m ∷ ms) ((p, q), hs) = (p, All-first P Q ms hs)
