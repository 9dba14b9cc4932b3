-- ===== src/Migration/Versions.antt =====
-- What a run of migrations does to the configuration and to its version.
use clash_prism_engine.Base.{
  ℕ, ◌≤◌, ◌<◌, ◌≡◌, refl, String, Bool, none, some, List, [], ◌∷◌, arith, ltb, if◌then◌else◌, ok,
  err, inl, inr, All, ◌∙◌, ◌≢◌, Option-cases,
}
use clash_prism_engine.Base.Sorting.{
  sort_by_key, IsOrdered, sort_by_key-IsOrdered, at_key, at_key-sort_by_key, All-sort_by_key,
  All-of_sort_by_key,
}
use clash_prism_engine.Migration.{
  Json, Migration, newer, pending, run_pending, run_migrations, write_version, get_current_version,
  set_version, larger, target, u32_max,
}
use clash_prism_engine.Migration.Steps.{
  Chain, IsRun, highest, run_pending-IsRun, highest-le, All-highest, highest-bound,
  run_pending-Chain, All-newer, newer-done, at_key-newer, newer_twin, twin_order, All-first,
}

module _ {ℓ} {V : Type ℓ} ⦃j : Json V⦄ where
  -- A run takes the migrations that are newer than the version of the configuration, in the order of
  -- their versions and, among equal versions, as registered. Those before the first failure have
  -- been applied, each with success, and nothing of the failed one is left; the version to write is
  -- the highest of those applied, or the old one.
  pub run_migrations_lem :
      (elapsed : Migration V → V → ℕ) (config : V) (ms : List (Migration V))
      → let current = get_current_version config in
        IsOrdered target (pending current ms)
        × ((n : ℕ)
            → at_key target n (pending current ms)
              ≡ (if ltb current n then at_key target n ms else []))
        × ((c : V) × (latest : ℕ) × IsRun
              (pending current ms)
              config
              current
              (c, latest, (run_migrations elapsed config ms).1)
            × ((run_migrations elapsed config ms).0 ≡ write_version c current latest))
  unfolding pending run_migrations
  run_migrations_lem elapsed config ms =
      let current = get_current_version config in
      let todo = pending current ms in
      let done = run_pending elapsed todo config current in
      (
        sort_by_key-IsOrdered target (newer current ms),
        λ n. at_key-sort_by_key target n (newer current ms) ∙ at_key-newer current n ms,
        (done.0, done.1, run_pending-IsRun elapsed todo config current, refl),
      )

  get_current_version-le : (config : V) → get_current_version config ≤ u32_max
  unfolding get_current_version
  get_current_version-le config = ground arith

  -- What is written is read as the version, where it is a `u32`.
  write_version-read :
      (c : V) (current latest : ℕ)
      → current < latest
      → latest ≤ u32_max
      → j.insert_version latest c ≢ none
      → get_current_version (write_version c current latest) ≡ latest
  unfolding write_version set_version get_current_version
  write_version-read c current latest l b w = elim (Option-cases (j.insert_version latest c)) [
    | inl n ↦ absurd (w n)
    | inr (v, e) ↦ ground (arith, j.prism_version-insert_version latest c v e)
  ]

  version-written :
      (config c : V) (todo : List (Migration V))
      → All
          (λ m. (m.target_version ≤ u32_max) × (get_current_version config < m.target_version))
          todo
      → Chain todo config c
      → j.insert_version (highest (get_current_version config) todo) c ≢ none
      → get_current_version
          (write_version c (get_current_version config) (highest (get_current_version config) todo))
        ≡ highest (get_current_version config) todo
  unfolding highest write_version larger
  version-written config c [] h chain w = rw chain (ground arith)
  version-written config c (m ∷ ms) ((small, up), hs) chain w =
      let current = get_current_version config in
      let next = larger current m.target_version in
      write_version-read c current (highest current (m ∷ ms)) (ground (arith, highest-le next ms))
        (highest-bound u32_max next ms (ground arith)
          (All-first (λ m. m.target_version ≤ u32_max) (λ m. current < m.target_version) ms hs))
        w

  pending-highest :
      (current : ℕ) (ms : List (Migration V))
      → All
          (λ m. m.target_version ≤ highest current (pending current ms))
          (sort_by_key target (newer current ms))
  unfolding pending
  pending-highest current ms = All-highest current (sort_by_key target (newer current ms))

  -- With nothing newer, a run does nothing.
  idle_run :
      (elapsed : Migration V → V → ℕ) (config : V) (ms : List (Migration V))
      → newer (get_current_version config) ms ≡ []
      → run_migrations elapsed config ms ≡ (config, [])
  unfolding run_migrations pending run_pending write_version sort_by_key
  idle_run elapsed config ms e = ground (arith, e)

  pending-All :
      (current : ℕ) (ms : List (Migration V))
      → All (λ m. m.target_version ≤ u32_max) ms
      → All (λ m. (m.target_version ≤ u32_max) × (current < m.target_version)) (pending current ms)
  unfolding pending
  pending-All current ms small =
      All-sort_by_key target (λ m. (m.target_version ≤ u32_max) × (current < m.target_version))
        (newer current ms) (All-newer (λ n. n ≤ u32_max) current ms small)

  run_migrations-version :
      (elapsed : Migration V → V → ℕ) (config c : V) (ms : List (Migration V))
      → All (λ m. m.target_version ≤ u32_max) ms
      → Chain (pending (get_current_version config) ms) config c
      → j.insert_version
          (highest (get_current_version config) (pending (get_current_version config) ms))
          c
        ≢ none
      → get_current_version (run_migrations elapsed config ms).0
        ≡ highest (get_current_version config) (pending (get_current_version config) ms)
  unfolding run_migrations
  run_migrations-version elapsed config c ms small chain w =
      let current = get_current_version config in
      let todo = pending current ms in
      let (reached, latest) = run_pending-Chain elapsed todo config c current chain in
      rw (reached, latest) (version-written config c todo (pending-All current ms small) chain w)

  -- A second run of the same migrations, after one in which all succeeded and the version could be
  -- written, reports nothing and leaves the configuration as it is.
  pub run_migrations_again :
      (elapsed : Migration V → V → ℕ) (config c : V) (ms : List (Migration V))
      → All (λ m. m.target_version ≤ u32_max) ms
      → Chain (pending (get_current_version config) ms) config c
      → j.insert_version
          (highest (get_current_version config) (pending (get_current_version config) ms))
          c
        ≢ none
      → let after = (run_migrations elapsed config ms).0 in
        run_migrations elapsed after ms ≡ (after, [])
  run_migrations_again elapsed config c ms small chain w =
      let current = get_current_version config in
      let todo = pending current ms in
      let high = highest current todo in
      let (reached, latest) = run_pending-Chain elapsed todo config c current chain in
      let after = (run_migrations elapsed config ms).0 in
      let version : get_current_version after ≡ high =
        run_migrations-version elapsed config c ms small chain w in
      let none_left : newer high ms ≡ [] = newer-done current high ms (highest-le current todo) (
        All-of_sort_by_key target (λ m. m.target_version ≤ high) (newer current ms)
          (pending-highest current ms)) in
      idle_run elapsed after ms (rw version none_left)

  twin_written :
      (c v : V) (current target : ℕ)
      → current < target
      → j.insert_version target c ≡ some v
      → write_version c current (larger current target) ≡ v
  unfolding write_version set_version larger
  twin_written c v current target up written = ground (arith, written)

  version_of :
      (v : V) (n : ℕ) → n ≤ u32_max → j.prism_version v ≡ some n → get_current_version v ≡ n
  unfolding get_current_version
  version_of v n small e = ground (arith, e)

  twin_run :
      (elapsed : Migration V → V → ℕ) (config v : V) (a b : Migration V) (did : Bool) (msg : String)
      → get_current_version config < a.target_version
      → b.target_version ≡ a.target_version
      → (a.apply config).1 ≡ ok did
      → (b.apply (a.apply config).0).1 ≡ err msg
      → j.insert_version a.target_version (a.apply config).0 ≡ some v
      → (run_migrations elapsed config (a ∷ b ∷ [])).0 ≡ v
  unfolding run_migrations pending run_pending
  twin_run elapsed config v a b did msg up twin first second written =
      let current = get_current_version config in
      let order : pending current (a ∷ b ∷ []) ≡ a ∷ b ∷ [] = twin_order current a b up twin in
      rw (order, first, second, run_pending)
        (twin_written (a.apply config).0 v current a.target_version up written)

  -- Two migrations to one version, where the second fails: the version is written because of the
  -- first, so a second run takes neither of them.
  pub run_migrations_twin :
      (elapsed : Migration V → V → ℕ) (config v : V) (a b : Migration V) (did : Bool) (msg : String)
      → get_current_version config < a.target_version
      → a.target_version ≤ u32_max
      → b.target_version ≡ a.target_version
      → (a.apply config).1 ≡ ok did
      → (b.apply (a.apply config).0).1 ≡ err msg
      → j.insert_version a.target_version (a.apply config).0 ≡ some v
      → ((run_migrations elapsed config (a ∷ b ∷ [])).0 ≡ v)
        × (run_migrations elapsed v (a ∷ b ∷ []) ≡ (v, []))
  run_migrations_twin elapsed config v a b did msg up small twin first second written =
      let version : get_current_version v ≡ a.target_version =
        version_of v a.target_version small (j.prism_version-insert_version _ _ _ written) in
      (
        twin_run elapsed config v a b did msg up twin first second written,
        idle_run elapsed v (a ∷ b ∷ []) (
            newer_twin a b (get_current_version v) (omega (arith, version))
              (omega (arith, version, twin))),
      )
