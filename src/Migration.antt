-- ===== src/Migration.antt =====
-- crates/clash-prism-core/src/migration.rs: the migrations of a configuration. A configuration is a
-- JSON value of a library, known here by two operations; the clock is an argument.
pub mod Steps
pub mod Versions
mod Examples
use clash_prism_engine.Base.{
  ℕ, ◌+◌, ◌-◌, ◌^◌, ◌≤◌, ◌<◌, ◌≡◌, String, Bool, true, false, Option, none, some, List, [], ◌∷◌,
  ltb, leb, if◌then◌else◌, Outcome, ok, err,
}
use clash_prism_engine.Base.Sorting.{sort_by_key}

-- The two accesses to a JSON value: `config["prism_version"]` as a `u64`, and the insertion of this
-- key, which only an object has. What was inserted is read back.
pub record Json {ℓ} (V : Type ℓ) : Type ℓ where
  pub prism_version : V → Option ℕ
  pub insert_version : ℕ → V → Option V
  pub prism_version-insert_version :
      (n : ℕ) (v v' : V) → insert_version n v ≡ some v' → prism_version v' ≡ some n

-- `apply` changes the configuration also where it fails.
pub record Migration {ℓ} (V : Type ℓ) : Type ℓ where
  pub name : String
  pub target_version : ℕ
  pub apply : V → V × Outcome Bool String

-- The texts of the messages, by their arguments.
pub data Message : Type 0 where
  migrated_to : ℕ → Message
  at_target : Message
  rolled_back : String → Message

pub record MigrationReport : Type 0 where
  pub name : String
  pub migrated : Bool
  pub duration_us : ℕ
  pub message : Message

abbrev pub u32_max : ℕ
u32_max = 2 ^ 32 - 1

pub larger : ℕ → ℕ → ℕ
larger a b = if leb a b then b else a

module _ {ℓ} {V : Type ℓ} ⦃j : Json V⦄ where
  pub get_current_version : V → ℕ
  get_current_version config = elim (j.prism_version config) [
    | none ↦ 0
    | some n ↦ if ltb u32_max n then u32_max else n
  ]

  -- The error is a text that names the version.
  pub set_version : V → ℕ → Outcome V ℕ
  set_version config version = elim (j.insert_version version config) [
    | none ↦ err version
    | some config' ↦ ok config'
  ]

module _ {ℓ} {V : Type ℓ} where
  pub newer : ℕ → List (Migration V) → List (Migration V)
  newer current [] = []
  newer current (m ∷ ms) =
      if ltb current m.target_version then m ∷ newer current ms else newer current ms

  pub target : Migration V → ℕ
  target m = m.target_version

  pub pending : ℕ → List (Migration V) → List (Migration V)
  unfolding target
  pending current ms = sort_by_key target (newer current ms)

  unfoldable pub success_report : Migration V → ℕ → Bool → MigrationReport
  success_report m duration_us did_migrate = record {
    name = m.name;
    migrated = did_migrate;
    duration_us = duration_us;
    message = if did_migrate then migrated_to m.target_version else at_target;
  }

  unfoldable pub failure_report : Migration V → ℕ → String → MigrationReport
  failure_report m duration_us msg = record {
    name = m.name;
    migrated = false;
    duration_us = duration_us;
    message = rolled_back msg;
  }

  -- The loop: the configuration, the latest version and the reports of what is still pending.
  pub run_pending :
      (Migration V → V → ℕ) → List (Migration V) → V → ℕ → V × ℕ × List MigrationReport
  run_pending elapsed [] config latest = (config, latest, [])
  run_pending elapsed (m ∷ ms) config latest =
      let (changed, result) = m.apply config in
      let rest = run_pending elapsed ms changed (larger latest m.target_version) in
      elim result [
        | ok did_migrate ↦
            (rest.0, rest.1, success_report m (elapsed m config) did_migrate ∷ rest.2)
        | err msg ↦ (config, latest, failure_report m (elapsed m config) msg ∷ [])
      ]

module _ {ℓ} {V : Type ℓ} ⦃j : Json V⦄ where
  -- The version is written where it grew; a failure to write it is only logged.
  pub write_version : V → (current latest : ℕ) → V
  write_version config current latest =
      if ltb current latest
      then elim (set_version config latest) [ ok config' ↦ config' | err e ↦ config ]
      else config

  pub run_migrations : (Migration V → V → ℕ) → V → List (Migration V) → V × List MigrationReport
  run_migrations elapsed config migrations =
      let current = get_current_version config in
      let done = run_pending elapsed (pending current migrations) config current in
      (write_version done.0 current done.1, done.2)
