-- ===== src/Migration/Examples.antt =====
-- The theorems about migrations at a concrete configuration.
use clash_prism_engine.Base.{
  ℕ, ◌≤◌, ◌<◌, ◌≡◌, ◌≢◌, refl, String, true, Option, none, some, List, [], ◌∷◌, arith, ltb,
  if◌then◌else◌, ok, err, All,
}
use clash_prism_engine.Base.Sorting.{IsOrdered, at_key, sort_by_key, insert_by_key}
use clash_prism_engine.Migration.{
  Json, Migration, newer, pending, run_pending, run_migrations, write_version, get_current_version,
  set_version, larger, target, u32_max,
}
use clash_prism_engine.Migration.Steps.{Chain, IsRun, highest}
use clash_prism_engine.Migration.Versions.{
  run_migrations_lem, run_migrations_again, run_migrations_twin,
}

-- A configuration that is a version and a list of keys.
abbrev Config : Type 0
Config = Option ℕ × List String

read_written :
    (n : ℕ) (v v' : Config) → ◌≡◌ {A = Option Config} (some (some n, v.1)) (some v') → v'.0 ≡ some n
read_written n v v' e = ground arith

instance abbrev config_json : Json Config
config_json = record {
  prism_version = λ v. v.0;
  insert_version = λ n v. some (some n, v.1);
  prism_version-insert_version = read_written;
}

abbrev add_key : ℕ → String → Migration Config
add_key n key = record { name = key; target_version = n; apply = λ v. ((v.0, key ∷ v.1), ok true) }

abbrev failing : ℕ → Migration Config
failing n = record { name = "fail"; target_version = n; apply = λ v. ((v.0, []), err "no") }

abbrev elapsed : Migration Config → Config → ℕ
elapsed m v = 7

abbrev config : Config
config = (some 1, "old" ∷ [])

abbrev two : List (Migration Config)
two = add_key 3 "c" ∷ add_key 2 "b" ∷ []

program : Unit {0}
unfolding newer pending run_pending run_migrations write_version get_current_version set_version
    larger target highest sort_by_key insert_by_key
program = tt

two_applied : (run_migrations elapsed config two).0 ≡ (some 3, "c" ∷ "b" ∷ "old" ∷ [])
unfolding program
two_applied = refl

run_migrations_lem_example :
    let current = get_current_version config in
    IsOrdered target (pending current two)
    × ((n : ℕ)
        → at_key target n (pending current two)
          ≡ (if ltb current n then at_key target n two else []))
    × ((c : Config) × (latest : ℕ) × IsRun
          (pending current two)
          config
          current
          (c, latest, (run_migrations elapsed config two).1)
        × ((run_migrations elapsed config two).0 ≡ write_version c current latest))
run_migrations_lem_example = run_migrations_lem elapsed config two

small : All (λ m. m.target_version ≤ u32_max) two
small = (omega arith, (omega arith, tt))

two-Chain : Chain (pending (get_current_version config) two) config (some 1, "c" ∷ "b" ∷ "old" ∷ [])
unfolding program
two-Chain = (true, refl, (true, refl, refl))

writable :
    config_json.insert_version
      (highest (get_current_version config) (pending (get_current_version config) two))
      (some 1, "c" ∷ "b" ∷ "old" ∷ [])
    ≢ none
writable e = cc

run_migrations_again_example :
    let after = (run_migrations elapsed config two).0 in
    run_migrations elapsed after two ≡ (after, [])
run_migrations_again_example =
    run_migrations_again elapsed config (some 1, "c" ∷ "b" ∷ "old" ∷ []) two small two-Chain
      writable

config_below : get_current_version config < 2
unfolding program
config_below = omega arith

twin_small : 2 ≤ u32_max
twin_small = omega arith

run_migrations_twin_example :
    ((run_migrations elapsed config (add_key 2 "b" ∷ failing 2 ∷ [])).0
      ≡ (some 2, "b" ∷ "old" ∷ []))
    × (run_migrations elapsed (some 2, "b" ∷ "old" ∷ []) (add_key 2 "b" ∷ failing 2 ∷ [])
        ≡ ((some 2, "b" ∷ "old" ∷ []), []))
run_migrations_twin_example =
    run_migrations_twin elapsed config (some 2, "b" ∷ "old" ∷ []) (add_key 2 "b") (failing 2) true
      "no" config_below twin_small refl refl refl refl
