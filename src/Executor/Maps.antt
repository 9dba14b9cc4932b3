-- ===== src/Executor/Maps.antt =====
-- crates/clash-prism-core/src/executor.rs: the operations on values of any kind.
pub mod Default
use clash_prism_engine.Base.{
  ℕ, suc, ◌+◌, ◌-◌, String, Bool, true, false, Option, none, some, List, [], ◌∷◌, if◌then◌else◌,
  length, eqb, Eq,
}
use clash_prism_engine.Json.{Value, null, array, object, as_object, insert_field, contains_field}
use clash_prism_engine.Json.Path.{
  split, get_json_path, get_json_path_mut, get_or_create_json_path_mut,
}
use clash_prism_engine.Json.Merge.{deep_merge_json, count_merge_diff}
use clash_prism_engine.Ir.{Patch}
use clash_prism_engine.Trace.{summary_new, ExecutionTrace}
use clash_prism_engine.Executor.{no_change, trace_of}
use clash_prism_engine.Executor.Guard.{is_guarded_path}

module _ {N : Type 0} where
  module _ ⦃e : Eq N⦄ where
    -- What is done with the target of a merge: the merge, and its count where tracing is on.
    unfoldable pub merge_target : Bool → Value N → Value N → Value N × (ℕ × ℕ)
    merge_target tracing_enabled value target =
        let merged = deep_merge_json target value in
        (merged, if tracing_enabled then count_merge_diff target merged else (0, 0))

    unfoldable pub execute_deep_merge_in_place :
        Bool → Value N → Patch (Value N) → Value N × ExecutionTrace
    execute_deep_merge_in_place tracing_enabled config patch =
        if is_guarded_path patch.path
        then (config, trace_of patch true no_change [])
        else elim (get_or_create_json_path_mut {A = ℕ × ℕ}
            (merge_target tracing_enabled patch.value) config patch.path) [
              | none ↦ (config, trace_of patch true no_change [])
              | some (config', (modified, total)) ↦ (
                config',
                trace_of patch true (summary_new 0 0 modified (total - modified) total total) [],
              )
            ]

  -- `*target = value.clone()`.
  unfoldable pub assign : Value N → Value N → Value N × Unit {0}
  assign value target = (value, tt)

  -- The new configuration, and whether the override was executed.
  unfoldable pub override_value : Value N → String → Value N → Value N × Bool
  override_value config path value =
      elim (get_or_create_json_path_mut {A = Unit {0}} (assign value) config path) [
        | some (config', _) ↦ (config', true)
        | none ↦ elim (as_object config) [
          | some m ↦ (object (insert_field path value m), true)
          | none ↦ (config, false)
        ]
      ]

  unfoldable pub execute_override_in_place : Value N → Patch (Value N) → Value N × ExecutionTrace
  execute_override_in_place config patch =
      if is_guarded_path patch.path
      then (config, trace_of patch true no_change [])
      else let (config', executed) = override_value config patch.path patch.value in
        (config', trace_of patch true (if executed then summary_new 0 0 1 0 1 1 else no_change) [])

  unfoldable pub is_null : Value N → Bool
  is_null null = true
  is_null _ = false

  unfoldable pub field_exists : Value N → String → Bool
  field_exists config path =
      if eqb (length (split path)) 1
      then elim (as_object config) [ none ↦ false | some m ↦ contains_field path m ]
      else elim (get_json_path config path) [ none ↦ false | some _ ↦ true ]

  -- What is done with a target that is there: it is set where it is null.
  unfoldable pub inject : Value N → Value N → Value N × Bool
  inject value target = if is_null target then (value, true) else (target, false)

  -- The new configuration, and whether the default was injected.
  unfoldable pub default_value : Value N → String → Value N → Value N × Bool
  default_value config path value =
      if field_exists config path
      then elim (get_json_path_mut {A = Bool} (inject value) config path) [
        | none ↦ (config, false)
        | some r ↦ r
      ]
      else elim (get_or_create_json_path_mut {A = Unit {0}} (assign value) config path) [
        | none ↦ (config, false)
        | some (config', _) ↦ (config', true)
      ]

  unfoldable pub execute_set_default_in_place : Value N → Patch (Value N) → Value N × ExecutionTrace
  execute_set_default_in_place config patch =
      let (config', triggered) = default_value config patch.path patch.value in
      (
        config',
        trace_of patch true (if triggered then summary_new 0 0 1 0 0 1 else summary_new 0 0 0 1 0 0)
            [],
      )
