-- ===== src/Executor/Pipeline.antt =====
-- crates/clash-prism-core/src/executor.rs: the execution of a list of patches, and the two phases of
-- the pipeline. The threads of the first phase share nothing that changes, so each is a function of
-- its own, and none panics. A clock gives, for each number of traces, the minute of the day and the
-- microseconds that the next operation takes.
pub mod Guarded
pub mod Operations
pub mod Safety
use Prim.Native.String.{compare}
use Prim.Native.Nat.{Ordering}
use clash_prism_engine.Base.{
  ℕ, String, Bool, true, false, not, ◌&&◌, Option, none, some, List, [], ◌∷◌, ◌++◌, if◌then◌else◌,
  length, map, Eq,
}
use clash_prism_engine.Base.Sorting.{sort_by_key}
use clash_prism_engine.Scope.{priority}
use clash_prism_engine.Json.{Value}
use clash_prism_engine.Json.Merge.{deep_merge_json}
use clash_prism_engine.Ir.{
  PatchOp, deep_merge, override, prepend, append, set_default, filter, transform, remove, SubOp,
  Patch, is_composite, all_ops,
}
use clash_prism_engine.Trace.{ExecutionTrace}
use clash_prism_engine.Executor.{Evaluator, no_change, trace_of}
use clash_prism_engine.Executor.Condition.{
  Texts, ExecutionContext, empty_context, check_patch_condition,
}
use clash_prism_engine.Executor.Guard.{is_guarded_path}
use clash_prism_engine.Executor.Arrays.{
  execute_prepend_in_place, execute_append_in_place, execute_filter_in_place,
  execute_remove_in_place, execute_transform_in_place,
}
use clash_prism_engine.Executor.Maps.{
  execute_deep_merge_in_place, execute_override_in_place, execute_set_default_in_place,
}

pub record PatchExecutor : Type 0 where
  pub traces : List ExecutionTrace
  pub context : ExecutionContext
  pub tracing_enabled : Bool

pub with_context : ExecutionContext → PatchExecutor
with_context context = record { traces = []; context = context; tracing_enabled = true }

pub new : PatchExecutor
new = with_context empty_context

pub record Clock : Type 0 where
  pub now : ℕ → ℕ
  pub elapsed : ℕ → ℕ

-- `matches!(&patch.op, PatchOp::DeepMerge | PatchOp::Override)`.
unfoldable pub is_merge_or_override : PatchOp → Bool
is_merge_or_override deep_merge = true
is_merge_or_override override = true
is_merge_or_override _ = false

module _ {N : Type 0} where
  -- A patch with the operation and the value of a part.
  unfoldable pub sub_patch : Patch (Value N) → SubOp (Value N) → Patch (Value N)
  sub_patch patch sub_op = record patch {
    op = sub_op.op;
    value = sub_op.value;
    after = [];
    sub_ops = [];
  }

  unfoldable pub prepare_sub_patches : Patch (Value N) → List (Patch (Value N))
  prepare_sub_patches patch =
      if not (is_composite patch) then patch ∷ [] else map (sub_patch patch) (all_ops patch)

  -- `sort_by(|a, b| a.0.cmp(&b.0))`, which is stable.
  unfoldable pub insert_by_name :
      String × Value N × List ExecutionTrace
      → List (String × Value N × List ExecutionTrace)
      → List (String × Value N × List ExecutionTrace)
  insert_by_name r [] = r ∷ []
  insert_by_name r (s ∷ rs) =
      let rest = insert_by_name r rs in
      elim (compare r.0 s.0) [ Ordering.gt ↦ s ∷ rest | _ ↦ r ∷ s ∷ rs ]

  unfoldable pub sort_by_name :
      List (String × Value N × List ExecutionTrace) → List (String × Value N × List ExecutionTrace)
  sort_by_name [] = []
  sort_by_name (r ∷ rs) = insert_by_name r (sort_by_name rs)

  -- The loop that merges the results of the profiles and collects their traces.
  unfoldable pub merge_results :
      List (String × Value N × List ExecutionTrace)
      → Value N × List ExecutionTrace
      → Value N × List ExecutionTrace
  merge_results [] state = state
  merge_results ((name, config, traces) ∷ rs) (merged, all) =
      merge_results rs (deep_merge_json merged config, all ++ traces)

  pub scope_priority : Patch (Value N) → ℕ
  scope_priority p = priority p.scope

  module _ ⦃e : Eq N⦄ (texts : Texts) (ev : Evaluator N) where
    unfoldable pub execute_op :
        Bool → Value N → Patch (Value N) → PatchOp → Value N × ExecutionTrace
    execute_op tracing_enabled config patch deep_merge =
        execute_deep_merge_in_place tracing_enabled config patch
    execute_op tracing_enabled config patch override = execute_override_in_place config patch
    execute_op tracing_enabled config patch prepend = execute_prepend_in_place ev config patch
    execute_op tracing_enabled config patch append = execute_append_in_place ev config patch
    execute_op tracing_enabled config patch (filter p) =
        execute_filter_in_place ev config patch p.expr
    execute_op tracing_enabled config patch (transform p) =
        execute_transform_in_place ev config patch p.expr
    execute_op tracing_enabled config patch (remove p) =
        execute_remove_in_place ev config patch p.expr
    execute_op tracing_enabled config patch set_default = execute_set_default_in_place config patch

    unfoldable pub apply_patch_in_place :
        PatchExecutor → ℕ → Value N → Patch (Value N) → Value N × ExecutionTrace
    apply_patch_in_place executor now config patch =
        if not (check_patch_condition texts now patch executor.context)
        then (config, trace_of patch false no_change [])
        else if is_guarded_path patch.path && not (is_merge_or_override patch.op)
        then (config, trace_of patch true no_change [])
        else execute_op executor.tracing_enabled config patch patch.op

    -- The inner loop, over the parts of a patch.
    unfoldable pub run_parts :
        PatchExecutor
        → Clock
        → List (Patch (Value N))
        → Value N × List ExecutionTrace
        → Value N × List ExecutionTrace
    run_parts executor clock [] state = state
    run_parts executor clock (p ∷ ps) (config, traces) =
        let n = length traces in
        let (config', trace) = apply_patch_in_place executor (clock.now n) config p in
        run_parts executor clock ps
          (config', traces ++ (record trace { duration_us = clock.elapsed n }) ∷ [])

    unfoldable pub run_patches :
        PatchExecutor
        → Clock
        → List (Patch (Value N))
        → Value N × List ExecutionTrace
        → Value N × List ExecutionTrace
    run_patches executor clock [] state = state
    run_patches executor clock (p ∷ ps) state =
        run_patches executor clock ps (run_parts executor clock (prepare_sub_patches p) state)

    unfoldable pub execute :
        PatchExecutor → Clock → Value N → List (Patch (Value N)) → PatchExecutor × Value N
    execute executor clock config patches =
        let (config', traces) = run_patches executor clock patches (config, []) in
        (record executor { traces = traces }, config')

    unfoldable pub execute_profile_patches :
        Clock
        → Value N
        → ExecutionContext
        → String
        → List (Patch (Value N))
        → String × Value N × List ExecutionTrace
    execute_profile_patches clock base context profile_name patches =
        let executor = with_context (record context { profile_name = some profile_name }) in
        let (config, traces) = run_patches executor clock patches (base, []) in
        (profile_name, config, traces)

    -- The threads of the first phase, each with a clock of its own.
    unfoldable pub profile_results :
        (String → Clock)
        → Value N
        → ExecutionContext
        → List (String × List (Patch (Value N)))
        → List (String × Value N × List ExecutionTrace)
    profile_results clocks base context [] = []
    profile_results clocks base context ((name, patches) ∷ groups) =
        execute_profile_patches (clocks name) base context name patches
        ∷ profile_results clocks base context groups

    -- The key of the second sort is the priority and then the index, so it is a stable sort by the
    -- priority.
    unfoldable pub execute_pipeline :
        PatchExecutor
        → (String → Clock)
        → Clock
        → Value N
        → List (String × List (Patch (Value N)))
        → List (Patch (Value N))
        → PatchExecutor × (List ExecutionTrace × Value N)
    execute_pipeline executor clocks clock base_config profile_groups shared_patches =
        let results =
          sort_by_name (profile_results clocks base_config executor.context profile_groups) in
        let (config, traces) =
          run_patches executor clock (sort_by_key scope_priority shared_patches)
            (merge_results results (base_config, [])) in
        (record executor { traces = [] }, (traces, config))
